-- ===== src/Util/Hash.antt =====
-- fnv1a32 of ayumos/kernel/util/hash.c and str_sum of ayumos/kernel/util/string.c, over lists of bytes.
mod Tests
use Prim.Native.Nat.{bit_xor}
use m68k_system.Common.{ℕ, ◌+◌, ◌*◌, ◌%◌, ◌^◌, List, [], ◌∷◌}

-- The loop of fnv1a32, on 32 bits.
pub fnv_loop : ℕ → List ℕ → ℕ
fnv_loop hash [] = hash
fnv_loop hash (b ∷ bs) = fnv_loop (bit_xor hash b * 0x1000193 % 2 ^ 32) bs

-- fnv1a32
pub fnv1a32 : List ℕ → ℕ
unfolding fnv_loop
fnv1a32 bs = fnv_loop 0x811C9DC5 bs

-- The loop of str_sum, on 32 bits.
pub sum_loop : ℕ → List ℕ → ℕ
sum_loop ret [] = ret
sum_loop ret (b ∷ bs) = sum_loop ((ret + b) % 2 ^ 32) bs

-- str_sum
pub str_sum : List ℕ → ℕ
unfolding sum_loop
str_sum s = sum_loop 0 s
