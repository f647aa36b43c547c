-- ===== src/Klibc/Text/Search.antt =====
-- strchr and strrchr
use m68k_system.Common.{
  ℕ, zero, suc, ◌+◌, ◌<◌, ◌≡◌, false, ◌==◌, if◌then◌else◌, some, List, [], ◌∷◌, Store, arith,
  length,
}
use m68k_system.Klibc.Text.{strchr, strrchr_loop, strrchr}
use m68k_system.Klibc.Text.Strings.{CString}

-- The index of the first `c`, or the length if there is none.
abbrev pub first_index : ℕ → List ℕ → ℕ
first_index c [] = 0
first_index c (d ∷ ds) = if d == c then 0 else suc (first_index c ds)

-- Given fuel for each byte and the zero, strchr comes to an end with the address of the first `c`,
-- and with that of the terminating zero, not with 0, where there is no `c`.
pub strchr-first :
    (fuel p c : ℕ) (cs : List ℕ) (m : Store)
    → CString m p cs
    → length cs < fuel
    → strchr fuel p c m ≡ some (p + first_index c cs)
unfolding strchr
strchr-first zero p c cs m s f = absurd (omega arith)
strchr-first (suc fuel) p c [] m s f = ground arith
strchr-first (suc fuel) p c (d ∷ ds) m s f = ground (arith, strchr-first fuel (p + 1) c ds m s.2)

-- The address of the last `c` in a string at `p`, or `found` if there is none.
abbrev pub last_address : ℕ → ℕ → ℕ → List ℕ → ℕ
last_address p c found [] = found
last_address p c found (d ∷ ds) = last_address (p + 1) c (if d == c then p else found) ds

strrchr_loop-last :
    (fuel p c found : ℕ) (cs : List ℕ) (m : Store)
    → CString m p cs
    → length cs < fuel
    → strrchr_loop fuel p c found m ≡ some (last_address p c found cs)
unfolding strrchr_loop
strrchr_loop-last zero p c found cs m s f = absurd (omega arith)
strrchr_loop-last (suc fuel) p c found [] m s f = ground arith
strrchr_loop-last (suc fuel) p c found (d ∷ ds) m s f =
    let more : (m p == 0) ≡ false = ground arith in
    rw (more, s.0)
      (strrchr_loop-last fuel (p + 1) c (if d == c then p else found) ds m s.2 (omega arith))

-- Given fuel for each byte and the zero, strrchr comes to an end with the address of the last `c`,
-- and with 0 where there is no `c`.
pub strrchr-last :
    (fuel p c : ℕ) (cs : List ℕ) (m : Store)
    → CString m p cs
    → length cs < fuel
    → strrchr fuel p c m ≡ some (last_address p c 0 cs)
unfolding strrchr
strrchr-last fuel p c cs m s f = strrchr_loop-last fuel p c 0 cs m s f
