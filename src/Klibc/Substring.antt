-- ===== src/Klibc/Substring.antt =====
-- strstr of ayumos/klibc/string.c. A string is the list of its bytes, without the zero.
mod Tests
use m68k_system.Common.{
  ℕ, zero, suc, ◌+◌, ◌-◌, Bool, ◌&&◌, Option, none, some, List, [], ◌∷◌, ◌==◌, if◌then◌else◌,
  get_or, length,
}

-- The loop of strstr: `at` is the offset in the haystack, and `n` that in the needle.
pub strstr_loop : List ℕ → List ℕ → ℕ → ℕ → Option ℕ
strstr_loop needle [] at n = none
strstr_loop needle (c ∷ cs) at n =
    let n' = if c == get_or needle n 0 then n else 0 in
    let same = c == get_or needle n' 0 in
    let rest = strstr_loop needle cs (at + 1) (if same then n' + 1 else n') in
    if same && (n' + 1 == length needle) then some (at + 1 - length needle) else rest

-- strstr: the offset in the haystack of what is found, `none` for NULL. No byte of a string is zero.
pub strstr : List ℕ → List ℕ → Option ℕ
unfolding strstr_loop
strstr haystack needle = strstr_loop needle haystack 0 0
