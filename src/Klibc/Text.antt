-- ===== src/Klibc/Text.antt =====
-- The functions on strings of ayumos/klibc/string.c, over a store of bytes. A loop that runs up to
-- a terminating zero takes fuel, and gives `none` when it runs out. Addresses do not wrap.
mod Strings
mod Length
mod Order
mod Copying
mod Search
mod Tests
use m68k_system.Common.{
  ℕ, zero, suc, ◌+◌, ◌-◌, ◌%◌, Bool, not, ◌&&◌, ◌||◌, Option, none, some, ltb, ◌==◌, ◌>>=◌,
  if◌then◌else◌, Store, write, ℤ, pos, sub_ℕ,
}

-- `*s++` until a zero has been read: the address behind it.
pub scan : ℕ → ℕ → Store → Option ℕ
scan zero s m = none
scan (suc fuel) s m = let rest = scan fuel (s + 1) m in if m s == 0 then some (s + 1) else rest

-- strlen
pub strlen : ℕ → ℕ → Store → Option ℕ
strlen fuel s m = do end ← scan fuel s m; some (end - s - 1)

-- strcpy: the store afterwards. `dest` is what it returns.
pub strcpy : ℕ → ℕ → ℕ → Store → Option Store
strcpy zero dest src m = none
strcpy (suc fuel) dest src m =
    let m' = write m dest (m src) in
    let rest = strcpy fuel (dest + 1) (src + 1) m' in if m' src == 0 then some m' else rest

-- strcat
pub strcat : ℕ → ℕ → ℕ → Store → Option Store
strcat fuel dest src m = do len ← strlen fuel dest m; strcpy fuel (dest + len) src m

-- strchr: where there is no such byte, it gives the address of the terminating zero.
pub strchr : ℕ → ℕ → ℕ → Store → Option ℕ
strchr zero s c m = none
strchr (suc fuel) s c m =
    let rest = strchr fuel (s + 1) c m in if not (m s == c) && not (m s == 0) then rest else some s

-- The loop of strrchr; `p` is the last match so far, 0 for none.
pub strrchr_loop : ℕ → ℕ → ℕ → ℕ → Store → Option ℕ
strrchr_loop zero s c p m = none
strrchr_loop (suc fuel) s c p m =
    let rest = strrchr_loop fuel (s + 1) c (if m s == c then s else p) m in
    if m s == 0 then some p else rest

-- strrchr
pub strrchr : ℕ → ℕ → ℕ → Store → Option ℕ
strrchr fuel s c m = strrchr_loop fuel s c 0 m

-- strcmp
pub strcmp : ℕ → ℕ → ℕ → Store → Option ℤ
strcmp zero s1 s2 m = none
strcmp (suc fuel) s1 s2 m =
    let rest = strcmp fuel (s1 + 1) (s2 + 1) m in
    if not (m s1 == m s2)
    then some (sub_ℕ (m s1) (m s2))
    else if m s1 == 0
    then some (pos 0)
    else rest

-- The first loop of strncpy from index `i` on, for `n` bytes more: the store, and the bytes that
-- are left when the zero is met.
pub strncpy_chars : ℕ → ℕ → ℕ → Store → ℕ × Store
strncpy_chars zero dest src m = (0, m)
strncpy_chars (suc n) dest src m =
    let rest = strncpy_chars n (dest + 1) (src + 1) (write m dest (m src)) in
    if m src == 0 then (suc n, m) else rest

-- `for(; n_ < n; n_++) dest[n_] = '\0';`
pub zero_fill : ℕ → ℕ → Store → Store
zero_fill zero dest m = m
zero_fill (suc n) dest m = zero_fill n (dest + 1) (write m dest 0)

-- strncpy
pub strncpy : ℕ → ℕ → ℕ → Store → Store
strncpy dest src n m =
    let (left, m') = strncpy_chars n dest src m in zero_fill left (dest + n - left) m'

-- A byte as a signed char, moved up by 128.
abbrev pub signed : ℕ → ℕ
signed b = (b + 128) % 256

-- strncmp: the bytes are subtracted as signed chars.
pub strncmp : ℕ → ℕ → ℕ → Store → ℤ
strncmp s1 s2 zero m = pos 0
strncmp s1 s2 (suc n) m =
    let rest = strncmp (s1 + 1) (s2 + 1) n m in
    if m s1 == m s2
    then (if m s1 == 0 then pos 0 else rest)
    else sub_ℕ (signed (m s1)) (signed (m s2))
