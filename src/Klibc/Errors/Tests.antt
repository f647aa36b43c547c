-- ===== src/Klibc/Errors/Tests.antt =====
-- Messages of errors.
use m68k_system.Common.{ℕ, ◌≡◌, ◌⊎◌, refl, false}
use m68k_system.Klibc.Errors.{strerror}
use m68k_system.Klibc.Errors.Distinct.{known, strerror_distinct}

abbrev beyond : ℕ
beyond = 200

strerror_distinct_example : (beyond ≡ 41) ⊎ ((known beyond ≡ false) × (known 41 ≡ false))
strerror_distinct_example = strerror_distinct beyond 41 (unfold strerror in refl)

out_of_memory : strerror 12 ≡ "Cannot allocate memory"
unfolding strerror
out_of_memory = refl
