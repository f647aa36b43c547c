-- ===== src/Memory/Extents/Tests.antt =====
-- Three extents.
use m68k_system.Common.{ℕ, ◌≡◌, ◌⊎◌, refl, some, none, List, [], ◌∷◌, if◌then◌else◌}
use m68k_system.Memory.Extents.{
  Extent, mem_get_largest_extent, mem_get_total_size, mem_get_highest_addr,
  mem_get_containing_extent, mem_zero_extents,
}
use m68k_system.Memory.Extents.Search.{
  Among, Longest, Inside, NoneInside, mem_get_largest_extent-Longest,
  mem_get_containing_extent-Inside,
}
use m68k_system.Memory.Extents.Clear.{covered, mem_zero_extents-covered}

abbrev ram : Extent
ram = record { base = 4096; len = 1000; flags = 0x101 }

abbrev more_ram : Extent
more_ram = record { base = 8192; len = 2000; flags = 0x102 }

abbrev rom : Extent
rom = record { base = 65536; len = 5000; flags = 0x202 }

abbrev board : List Extent
board = ram ∷ more_ram ∷ rom ∷ []

mem_get_largest_extent-Longest_example :
    Longest 0x100 0 none board (mem_get_largest_extent 0x100 board)
mem_get_largest_extent-Longest_example = mem_get_largest_extent-Longest 0x100 board

mem_get_containing_extent-Inside_example :
    ((e : Extent) × (mem_get_containing_extent 5000 board ≡ some e) × Among e board × Inside 5000 e)
    ⊎ ((mem_get_containing_extent 5000 board ≡ none) × NoneInside 5000 board)
mem_get_containing_extent-Inside_example = mem_get_containing_extent-Inside 5000 board

abbrev ones : ℕ → ℕ
ones a = 1

mem_zero_extents-covered_example :
    mem_zero_extents 0x100 board ones 4100 ≡ (if covered 0x100 board 4100 then 0 else ones 4100)
mem_zero_extents-covered_example = mem_zero_extents-covered 0x100 board ones 4100

largest_ram : mem_get_largest_extent 0x100 board ≡ some more_ram
unfolding mem_get_largest_extent
largest_ram = refl

ram_in_all : mem_get_total_size 0x100 board ≡ 3000
unfolding mem_get_total_size
ram_in_all = refl

top_of_ram : mem_get_highest_addr 0x100 board ≡ 10192
unfolding mem_get_highest_addr
top_of_ram = refl

-- The first byte of an extent is taken for one outside.
base_missed : mem_get_containing_extent 4096 board ≡ none
unfolding mem_get_containing_extent
base_missed = refl
