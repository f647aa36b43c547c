-- ===== src/Net/Checksum.antt =====
-- net_cksum of ayumos/kernel/net/net.c, over the bytes of the buffer as a list.
mod Verify
mod Tests
use m68k_system.Common.{
  ℕ, ◌+◌, ◌-◌, ◌*◌, ◌/◌, ◌%◌, ◌^◌, List, [], ◌∷◌, Option, none, some, not, ltb, ◌==◌, if◌then◌else◌,
  length,
}

-- `for(...; x--;) sum += *p++; if(len & 1) sum += *((u8 *) p) << 8;`, on 32 bits.
pub sum_words : List ℕ → ℕ → ℕ
sum_words [] sum = sum
sum_words (a ∷ []) sum = (sum + a * 256) % 2 ^ 32
sum_words (a ∷ b ∷ bs) sum = sum_words bs ((sum + (a * 256 + b)) % 2 ^ 32)

-- `~(sum + (sum >> 16))`, as a word of 16 bits.
abbrev pub finish : ℕ → ℕ
finish sum = 65535 - (sum + sum / 2 ^ 16) % 2 ^ 16

-- net_cksum, of the bytes at an address; there is no result where it calls kernel_fatal, which does not return.
pub net_cksum : ℕ → List ℕ → Option ℕ
unfolding sum_words
net_cksum buf bs =
    if not (buf % 2 == 0)
    then none
    else if ltb 65535 (length bs)
    then none
    else some (finish (sum_words bs 0))
