-- ===== src/Net/Checksum/Verify.antt =====
-- A receiver checks the sum.
use m68k_system.Common.{
  ℕ, ◌+◌, ◌*◌, ◌/◌, ◌%◌, ◌^◌, ◌≤◌, ◌<◌, ◌≡◌, ◌∙◌, ap, refl, Bool, true, false, some, ◌==◌, ltb,
  if◌then◌else◌, List, [], ◌∷◌, ◌++◌, arith, length,
}
use m68k_system.Net.Checksum.{sum_words, finish, net_cksum}

-- Whole words of bytes.
abbrev pub AreWords : List ℕ → Type 0
AreWords [] = Unit {0}
AreWords (a ∷ []) = ⊥
AreWords (a ∷ b ∷ bs) = (a < 256) × (b < 256) × AreWords bs

-- The sum of the words, the higher byte first.
abbrev pub total : List ℕ → ℕ
total [] = 0
total (a ∷ []) = a * 256
total (a ∷ b ∷ bs) = a * 256 + b + total bs

sum_words-total :
    (bs : List ℕ) (sum : ℕ) → sum + total bs < 2 ^ 32 → sum_words bs sum ≡ sum + total bs
unfolding sum_words
sum_words-total [] sum h = omega arith
sum_words-total (a ∷ []) sum h = omega arith
sum_words-total (a ∷ b ∷ bs) sum h =
    let e : (sum + (a * 256 + b)) % 2 ^ 32 ≡ sum + (a * 256 + b) = omega arith in
    rw e (sum_words-total bs (sum + (a * 256 + b)) (omega arith) ∙ omega arith)

total-le : (bs : List ℕ) → AreWords bs → 2 * total bs ≤ 65535 * length bs
total-le [] h = omega arith
total-le (a ∷ []) h = absurd h
total-le (a ∷ b ∷ bs) h = let (x, y, r) = h in omega (arith, total-le bs r)

total-append :
    (bs : List ℕ) (a b : ℕ) → AreWords bs → total (bs ++ a ∷ b ∷ []) ≡ total bs + (a * 256 + b)
total-append [] a b h = omega arith
total-append (x ∷ []) a b h = absurd h
total-append (x ∷ y ∷ bs) a b h = let (p, q, r) = h in omega (arith, total-append bs a b r)

-- The addition of the two halves of the sum carries.
abbrev pub carries : ℕ → Bool
carries s = ltb 65535 (s % 65536 + s / 65536)

finish-add : (s : ℕ) → s < 2 ^ 31 → finish (s + finish s) ≡ (if carries s then 65535 else 0)
finish-add s h = ground arith

finish-le : (s : ℕ) → finish s ≤ 65535
finish-le s = omega arith

net_cksum_returns :
    (buf : ℕ) (bs : List ℕ)
    → buf % 2 ≡ 0
    → length bs ≤ 65535
    → net_cksum buf bs ≡ some (finish (sum_words bs 0))
unfolding net_cksum
net_cksum_returns buf bs even short =
    let aligned : (buf % 2 == 0) ≡ true = ground arith in
    let fits : ltb 65535 (length bs) ≡ false = ground arith in rw (aligned, fits) refl

length-append_two : (bs : List ℕ) (a b : ℕ) → length (bs ++ a ∷ b ∷ []) ≡ length bs + 2
length-append_two [] a b = refl
length-append_two (x ∷ bs) a b = let rest = length-append_two bs a b in omega arith

-- For a message of whole words, at most 65533 bytes, at an even address: net_cksum returns, and with its result
-- behind the message, the higher byte first, net_cksum of all returns 0, as a receiver expects, unless the two halves of
-- the sum of the message's words carry when they are added, where it returns 65535.
pub net_cksum-append :
    (buf : ℕ) (bs : List ℕ)
    → buf % 2 ≡ 0
    → AreWords bs
    → length bs ≤ 65533
    → (c : ℕ) × (net_cksum buf bs ≡ some c)
      × (net_cksum buf (bs ++ c / 256 ∷ c % 256 ∷ [])
          ≡ some (if carries (total bs) then 65535 else 0))
net_cksum-append buf bs even w short =
    let le = total-le bs w in
    let s : sum_words bs 0 ≡ total bs = sum_words-total bs 0 (omega arith) ∙ omega arith in
    let c = finish (total bs) in
    let whole = bs ++ c / 256 ∷ c % 256 ∷ [] in
    let append : total whole ≡ total bs + c = total-append bs (c / 256) (c % 256) w ∙ omega arith in
    let all : sum_words whole 0 ≡ total bs + c =
      sum_words-total whole 0 (omega arith) ∙ (omega arith) in
    let size = length-append_two bs (c / 256) (c % 256) in
    (
      c,
      net_cksum_returns buf bs even (omega arith) ∙ ap (λ (x : ℕ). some (finish x)) s,
      net_cksum_returns buf whole even (omega arith)
          ∙ ap (λ (x : ℕ). some (finish x)) all
          ∙ ap some (finish-add (total bs) (omega arith)),
    )
