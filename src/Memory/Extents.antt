-- ===== src/Memory/Extents.antt =====
-- The memory extents of ayumos/kernel/memory/extents.c and include/memory/extents.h. The array of extents is
-- a list, and a pointer into it is the extent.
mod Search
mod Clear
mod Tests
use Prim.Native.Nat.{bit_and}
use m68k_system.Common.{
  ℕ, zero, suc, ◌+◌, ◌%◌, ◌^◌, Bool, true, false, ◌&&◌, ◌||◌, Option, none, some, List, [], ◌∷◌,
  ltb, ◌==◌, if◌then◌else◌, Store,
}
use m68k_system.Klibc.Bytes.{bzero}

-- `mem_extent_t`
pub record Extent : Type 0 where
  pub base : ℕ
  pub len : ℕ
  pub flags : ℕ

-- MEM_EXTENT_MASK_ANY
abbrev pub mask_any : ℕ
mask_any = 0xffffffff

-- The test of for_each_matching_mem_extent.
pub matches : ℕ → Extent → Bool
matches fl e = (fl == mask_any) || (bit_and e.flags fl == fl)

-- The loop of mem_get_largest_extent, with `sz` and `ret`.
pub largest_loop : ℕ → ℕ → Option Extent → List Extent → Option Extent
largest_loop fl sz ret [] = ret
largest_loop fl sz ret (e ∷ es) =
    let found = largest_loop fl e.len (some e) es in
    let rest = largest_loop fl sz ret es in if matches fl e && ltb sz e.len then found else rest

-- mem_get_largest_extent
pub mem_get_largest_extent : ℕ → List Extent → Option Extent
unfolding largest_loop matches
mem_get_largest_extent fl es = largest_loop fl 0 none es

-- mem_zero_extents
pub mem_zero_extents : ℕ → List Extent → Store → Store
mem_zero_extents fl [] m = m
mem_zero_extents fl (e ∷ es) m =
    mem_zero_extents fl es (if matches fl e then bzero e.base e.len m else m)

-- The loop of mem_get_total_size, with `sz`.
pub total_loop : ℕ → ℕ → List Extent → ℕ
total_loop fl sz [] = sz
total_loop fl sz (e ∷ es) = total_loop fl (if matches fl e then (sz + e.len) % 2 ^ 32 else sz) es

-- mem_get_total_size
pub mem_get_total_size : ℕ → List Extent → ℕ
unfolding total_loop matches
mem_get_total_size fl es = total_loop fl 0 es

-- The loop of mem_get_highest_addr, with `highest`.
pub highest_loop : ℕ → ℕ → List Extent → ℕ
highest_loop fl highest [] = highest
highest_loop fl highest (e ∷ es) =
    let top = (e.base + e.len) % 2 ^ 32 in
    highest_loop fl (if matches fl e && ltb highest top then top else highest) es

-- mem_get_highest_addr
pub mem_get_highest_addr : ℕ → List Extent → ℕ
unfolding highest_loop matches
mem_get_highest_addr fl es = highest_loop fl 0 es

-- mem_get_containing_extent
pub mem_get_containing_extent : ℕ → List Extent → Option Extent
mem_get_containing_extent addr [] = none
mem_get_containing_extent addr (e ∷ es) =
    let rest = mem_get_containing_extent addr es in
    if ltb e.base addr && ltb addr ((e.base + e.len) % 2 ^ 32) then some e else rest
