-- ===== src/Klibc/Bytes/Tests.antt =====
-- The theorems on raw memory at concrete inputs.
use m68k_system.Common.{◌+◌, ◌-◌, ◌≡◌, ◌^◌, refl, inr, Store, arith, pos, sub_ℕ, ◌%◌}
use m68k_system.Klibc.Bytes.{bcopy, memcpy, memset, bzero, memcmp}
use m68k_system.Klibc.Bytes.Copy.{Copied, bcopy-Copied, memcpy-Copied, memcpy_overruns}
use m68k_system.Klibc.Bytes.Fill.{Filled, memset-Filled, bzero-Filled}
use m68k_system.Klibc.Bytes.Compare.{memcmp_differ, memcmp_same}

-- Each byte holds its address.
abbrev ramp : Store
ramp a = a

bcopy-Copied_example : Copied 5 102 100 ramp (bcopy 100 102 5 ramp)
bcopy-Copied_example = bcopy-Copied 100 102 5 ramp

memcpy-Copied_example : Copied 9 201 101 ramp (memcpy 201 101 9 ramp)
memcpy-Copied_example = memcpy-Copied 201 101 9 ramp (inr (omega arith)) (λ e. omega arith)

memcpy_overruns_example :
    Copied (1 + (2 ^ 32 - 1)) 5000000001 101 ramp (memcpy 5000000001 101 1 ramp)
memcpy_overruns_example =
    memcpy_overruns 5000000001 101 1 ramp refl (omega arith) (omega arith) (inr (omega arith))

memset-Filled_example : Filled 4 10 (300 % 256) ramp (memset 10 300 4 ramp)
memset-Filled_example = memset-Filled 10 300 4 ramp

bzero-Filled_example : Filled 11 13 0 ramp (bzero 13 11 ramp)
bzero-Filled_example = bzero-Filled 13 11 ramp

memcmp_differ_example : memcmp 10 20 3 ramp ≡ sub_ℕ (ramp 10) (ramp 20)
memcmp_differ_example =
    memcmp_differ 10 20 3 0 ramp (omega arith) (λ i h. absurd (omega arith)) (omega arith)

memcmp_same_example : memcmp 10 10 3 ramp ≡ pos 0
memcmp_same_example = memcmp_same 10 10 3 ramp (λ i h. refl)
