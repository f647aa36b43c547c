-- ===== src/Klibc/Bytes.antt =====
-- The functions on raw memory of ayumos/klibc/string.c and strings.c, over a store of bytes.
-- A loop on a count is a recursion on it. Addresses do not wrap.
mod Copy
pub mod Fill
mod Compare
mod Tests
use m68k_system.Common.{
  ℕ, zero, suc, ◌+◌, ◌-◌, ◌*◌, ◌/◌, ◌%◌, ◌^◌, Bool, not, ◌&&◌, ltb, ◌==◌, if◌then◌else◌, Store,
  write, ℤ, pos, sub_ℕ,
}

-- `while(n--) *dest_++ = *src_++;`
pub copy_up : ℕ → ℕ → ℕ → Store → Store
copy_up zero dest src m = m
copy_up (suc n) dest src m = copy_up n (dest + 1) (src + 1) (write m dest (m src))

-- `while(n--) dest_[n] = src_[n];`
pub copy_down : ℕ → ℕ → ℕ → Store → Store
copy_down zero dest src m = m
copy_down (suc n) dest src m = copy_down n dest src (write m (dest + n) (m (src + n)))

-- bcopy
pub bcopy : ℕ → ℕ → ℕ → Store → Store
bcopy src dest n m =
    if ltb src dest
    then copy_down n dest src m
    else if ltb dest src
    then copy_up n dest src m
    else m

-- `*((u32 *) dest_) = *((u32 *) src_)`: four bytes are read before four are written.
pub copy_word : ℕ → ℕ → Store → Store
copy_word dest src m =
    write (write (write (write m dest (m src)) (dest + 1) (m (src + 1))) (dest + 2) (m (src + 2)))
      (dest + 3) (m (src + 3))

-- `for(...; nwords--; src_ += 4, dest_ += 4)` around a word copy.
pub copy_words : ℕ → ℕ → ℕ → Store → Store
copy_words zero dest src m = m
copy_words (suc n) dest src m = copy_words n (dest + 4) (src + 4) (copy_word dest src m)

-- `while(((u32) src_ & 3) && n--)`: how many rounds it makes, and the count that it leaves. The
-- test that finds the count at zero decrements it too, so that it wraps. After three rounds
-- `src_` is on a word boundary.
pub head_bytes : ℕ → ℕ → ℕ → ℕ × ℕ
head_bytes zero src n = (0, n)
head_bytes (suc rounds) src n =
    let rest = head_bytes rounds (src + 1) (n - 1) in
    if src % 4 == 0 then (0, n) else if n == 0 then (0, 2 ^ 32 - 1) else (rest.0 + 1, rest.1)

-- The branch of memcpy for equal alignments: bytes up to a word boundary, words, and bytes.
pub memcpy_aligned : ℕ → ℕ → ℕ → Store → Store
memcpy_aligned dest src n m =
    let (k, left) = head_bytes 3 src n in
    let w = left / 4 in
    copy_up (left % 4) (dest + k + 4 * w) (src + k + 4 * w)
      (copy_words w (dest + k) (src + k) (copy_up k dest src m))

-- memcpy
pub memcpy : ℕ → ℕ → ℕ → Store → Store
memcpy dest src n m =
    if n == 0
    then m
    else if src % 4 == dest % 4
    then memcpy_aligned dest src n m
    else copy_up n dest src m

-- `while(n--) *src_++ = c;`
pub fill_up : ℕ → ℕ → ℕ → Store → Store
fill_up zero p c m = m
fill_up (suc n) p c m = fill_up n (p + 1) c (write m p c)

-- memset, for a count that is not negative; the value is cut to a byte.
pub memset : ℕ → ℕ → ℕ → Store → Store
memset p c n m = fill_up n p (c % 256) m

-- `for(; ((u32) s_ & 3) && n; n--)`: how many rounds it makes.
pub zero_head : ℕ → ℕ → ℕ → ℕ
zero_head zero p n = 0
zero_head (suc rounds) p n =
    let rest = zero_head rounds (p + 1) (n - 1) in
    if not (p % 4 == 0) && not (n == 0) then rest + 1 else 0

-- `for(nwords = n >> 2; nwords--; s_ += 4) *((u32 * const) s_) = 0;`
pub zero_words : ℕ → ℕ → Store → Store
zero_words zero p m = m
zero_words (suc n) p m =
    zero_words n (p + 4) (write (write (write (write m p 0) (p + 1) 0) (p + 2) 0) (p + 3) 0)

-- bzero
pub bzero : ℕ → ℕ → Store → Store
bzero p n m =
    let k = zero_head 3 p n in
    let w = (n - k) / 4 in
    fill_up ((n - k) % 4) (p + k + 4 * w) 0 (zero_words w (p + k) (fill_up k p 0 m))

-- The loop of memcmp and its result, for `suc n` bytes: `--n` has been done where `n` is tested.
pub compare_loop : ℕ → ℕ → ℕ → Store → ℤ
compare_loop zero s1 s2 m = sub_ℕ (m s1) (m s2)
compare_loop (suc n) s1 s2 m =
    if m s1 == m s2 then compare_loop n (s1 + 1) (s2 + 1) m else sub_ℕ (m s1) (m s2)

-- memcmp
pub memcmp : ℕ → ℕ → ℕ → Store → ℤ
memcmp s1 s2 n m = if n == 0 then pos 0 else compare_loop (n - 1) s1 s2 m
