-- ===== src/Util/Circbuf/Queue.antt =====
-- The bytes that a circular buffer holds, as a queue of bounded length.
use m68k_system.Common.{
  ℕ, zero, suc, ◌+◌, ◌-◌, ◌≤◌, ◌<◌, ◌≡◌, ◌≢◌, refl, ap, List, [], ◌∷◌, ◌++◌, length, Store, write,
  ltb, leb, ◌==◌, if◌then◌else◌, arith, Option, none, some, Code, success, eagain,
}
use mathlib.Core.Path.{ap₂}
use m68k_system.Util.Circbuf.{Circbuf}

-- Both pointers point into the buffer, which is not empty.
pub record IsValid (c : Circbuf) : Type 0 where
  pub read_low : c.buf ≤ c.read_ptr
  pub read_high : c.read_ptr < c.buf_end
  pub write_low : c.buf ≤ c.write_ptr
  pub write_high : c.write_ptr < c.buf_end

-- The address of the byte that lies at `i`, where a buffer from `lo` up to `hi` is thought to go on
-- behind its end.
abbrev pub wrap : ℕ → ℕ → ℕ → ℕ
wrap lo hi i = if ltb i hi then i else i - (hi - lo)

-- The `k` bytes from `i` on.
abbrev pub slots : ℕ → ℕ → Store → ℕ → ℕ → List ℕ
slots lo hi m zero i = []
slots lo hi m (suc k) i = m (wrap lo hi i) ∷ slots lo hi m k (i + 1)

-- The number of bytes that have been written and not been read.
abbrev pub count : Circbuf → ℕ
count c =
    if leb c.read_ptr c.write_ptr
    then c.write_ptr - c.read_ptr
    else c.write_ptr + (c.buf_end - c.buf) - c.read_ptr

abbrev pub contents : Circbuf → Store → List ℕ
contents c m = slots c.buf c.buf_end m (count c) c.read_ptr

-- A queue of at most `cap` bytes, oldest first.
unfoldable pub take_oldest : List ℕ → Code × Option ℕ × List ℕ
take_oldest [] = (eagain, none, [])
take_oldest (x ∷ q) = (success, some x, q)

unfoldable pub put_newest : ℕ → ℕ → List ℕ → Code × List ℕ
put_newest cap x q = if length q == cap then (eagain, q) else (success, q ++ x ∷ [])

pub length-slots : (lo hi : ℕ) (m : Store) (k i : ℕ) → length (slots lo hi m k i) ≡ k
length-slots lo hi m zero i = refl
length-slots lo hi m (suc k) i = ap suc (length-slots lo hi m k (i + 1))

pub slots-append :
    (lo hi : ℕ) (m : Store) (k i : ℕ)
    → slots lo hi m (suc k) i ≡ slots lo hi m k i ++ m (wrap lo hi (i + k)) ∷ []
slots-append lo hi m zero i = let e : i + 0 ≡ i = omega arith in rw e
slots-append lo hi m (suc k) i =
    let e : i + suc k ≡ i + 1 + k = omega arith in
    rw e (ap (λ r. m (wrap lo hi i) ∷ r) (slots-append lo hi m k (i + 1)))

-- A write to another address leaves the bytes alone.
pub slots-write :
    (lo hi : ℕ) (m : Store) (a v k i : ℕ)
    → ((j : ℕ) → i ≤ j → j < i + k → wrap lo hi j ≢ a)
    → slots lo hi (write m a v) k i ≡ slots lo hi m k i
slots-write lo hi m a v zero i out = refl
slots-write lo hi m a v (suc k) i out =
    let here : write m a v (wrap lo hi i) ≡ m (wrap lo hi i) =
      ground (arith, out i (omega arith) (omega arith)) in
    ap₂ ◌∷◌ here (slots-write lo hi m a v k (i + 1) (λ j p q. out j (omega arith) (omega arith)))

-- One time round the buffer are the same bytes.
pub slots_round :
    (lo hi : ℕ) (m : Store) (k i : ℕ)
    → lo ≤ i
    → lo ≤ hi
    → i + k ≤ hi
    → slots lo hi m k (i + (hi - lo)) ≡ slots lo hi m k i
slots_round lo hi m zero i p up q = refl
slots_round lo hi m (suc k) i p up q =
    let e : i + (hi - lo) + 1 ≡ i + 1 + (hi - lo) = omega arith in
    let here : wrap lo hi (i + (hi - lo)) ≡ wrap lo hi i = ground arith in
    rw e (ap₂ ◌∷◌ (ap m here) (slots_round lo hi m k (i + 1) (omega arith) up (omega arith)))
