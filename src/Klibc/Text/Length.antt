-- ===== src/Klibc/Text/Length.antt =====
-- strlen
use m68k_system.Common.{ℕ, zero, suc, ◌+◌, ◌<◌, ◌≡◌, ap, some, List, [], ◌∷◌, Store, arith, length}
use m68k_system.Klibc.Text.{scan, strlen}
use m68k_system.Klibc.Text.Strings.{CString}

scan-end :
    (fuel p : ℕ) (cs : List ℕ) (m : Store)
    → CString m p cs
    → length cs < fuel
    → scan fuel p m ≡ some (p + length cs + 1)
unfolding scan
scan-end zero p cs m s f = absurd (omega arith)
scan-end (suc fuel) p [] m s f = ground arith
scan-end (suc fuel) p (c ∷ cs) m s f = ground (arith, scan-end fuel (p + 1) cs m s.2)

-- Given fuel for each byte and the zero, strlen gives the length of a string.
pub strlen-length :
    (fuel p : ℕ) (cs : List ℕ) (m : Store)
    → CString m p cs
    → length cs < fuel
    → strlen fuel p m ≡ some (length cs)
unfolding strlen
strlen-length fuel p cs m s f = rw (scan-end fuel p cs m s f) (ap some (omega arith))
