-- ===== src/Memory/Slab/Tests.antt =====
-- The witnesses of Memory/Slab, and runs on slabs in memory from address 4096.
use m68k_system.Common.{
  ℕ, ◌+◌, ◌-◌, ◌/◌, ◌%◌, ◌^◌, ◌≤◌, ◌<◌, ◌≡◌, refl, ◌⊎◌, Option, none, some, List, [], ◌∷◌, arith,
  success,
}
use m68k_system.Memory.Slab.{
  Slab, Slabs, bytes_at, mark_front, mark_back, new_slab, slab_init, slab_create, radix_of,
  log2_loop, slab_take, slab_release, take_object, first_clear, find_room, find_slab, alloc_at,
  alloc_new, alloc_in, slab_alloc, free_in, slab_free, slab_get_stats, stats_of,
}
use m68k_system.Memory.Slab.Bitmap.{AreBytes, clear_count, IsTaken, take_object_takes}
use m68k_system.Memory.Slab.Sizes.{radix_of_smallest}
use m68k_system.Memory.Slab.Alloc.{IsSlab, slab_release-slab_take}
use m68k_system.Memory.Slab.Create.{slab_create-IsSlab, new_slab-IsSlab}
use m68k_system.Memory.Slab.Chains.{IsAllocator, IsObject, IsExhausted}
use m68k_system.Memory.Slab.State.{slab_alloc-IsAllocator, slab_init-IsAllocator}

abbrev cleared : ℕ → ℕ
cleared a = 0

abbrev pool : Slabs
pool = slab_init 4096 2048

radix_of_smallest_example :
    (r : ℕ) × (radix_of 33 ≡ some r)
    × (1 ≤ r)
    × (r ≤ 6)
    × (33 ≤ 2 ^ r)
    × ((r ≡ 1) ⊎ (2 ^ (r - 1) < 33))
radix_of_smallest_example = radix_of_smallest 33 (omega arith) (omega arith)

take_object_takes_example : (obj : ℕ) × (marked : List ℕ) × IsTaken (255 ∷ 7 ∷ []) obj marked
unfolding AreBytes clear_count
take_object_takes_example =
    take_object_takes (255 ∷ 7 ∷ []) (omega arith, (omega arith, tt)) (omega arith)

slab_create-IsSlab_example :
    (s : Slab) × (slab_create cleared 6 pool ≡ (success, record pool { next = 5120 }, some s))
    × IsSlab s
    × (s.addr ≡ 4096)
    × (s.radix ≡ 6)
    × (0 < s.free)
unfolding slab_init
slab_create-IsSlab_example =
    slab_create-IsSlab cleared 6 pool (omega arith) (omega arith) (omega arith) (omega arith)
      (λ a l u. refl)

slab_release-slab_take_example :
    (p : ℕ) × (s' : Slab) × (slab_take (new_slab cleared 6 4096) ≡ some (p, s'))
    × IsSlab s'
    × (s'.free + 1 ≡ 15)
    × (4096 + 8 + 2 ≤ p)
    × (p + 64 ≤ 5120)
    × (slab_release s' (p % 1024 / 2 ^ s'.radix) ≡ new_slab cleared 6 4096)
unfolding new_slab
slab_release-slab_take_example =
    slab_release-slab_take (new_slab cleared 6 4096)
      (new_slab-IsSlab cleared 6 4096 (omega arith) (omega arith) (omega arith) (λ a l u. refl)).0
      (omega arith)

slab_alloc-IsAllocator_example :
    (radix : ℕ) × (p : ℕ) × (st' : Slabs) × (33 ≤ 2 ^ radix)
    × (1 ≤ radix)
    × ((radix ≡ 1) ⊎ (2 ^ (radix - 1) < 33))
    × (slab_alloc cleared 33 pool ≡ some (p, st'))
    × IsAllocator st'
    × (((p ≡ 0) × IsExhausted pool radix) ⊎ IsObject st' radix p)
slab_alloc-IsAllocator_example =
    slab_alloc-IsAllocator cleared 33 pool (slab_init-IsAllocator 4096 2048 (omega arith))
      (omega arith) (omega arith) (λ a l. refl)

-- The pointer of an allocation.
abbrev pointer : Option (ℕ × Slabs) → ℕ
pointer none = 1
pointer (some r) = r.0

abbrev then_free : Option (ℕ × Slabs) → Option Slabs
then_free none = none
then_free (some r) = slab_free r.0 r.1

abbrev stats : Option Slabs → Option (ℕ × ℕ)
stats none = none
stats (some st) = slab_get_stats 6 st

first_object : pointer (slab_alloc cleared 33 pool) ≡ 4160
unfolding slab_alloc slab_init radix_of log2_loop alloc_in find_room slab_create alloc_new alloc_at
    new_slab mark_front mark_back bytes_at slab_take take_object first_clear
first_object = refl

freed_again : stats (then_free (slab_alloc cleared 33 pool)) ≡ some (15, 15)
unfolding slab_alloc slab_init radix_of log2_loop alloc_in find_room slab_create alloc_new alloc_at
    new_slab mark_front mark_back bytes_at slab_take take_object first_clear slab_free free_in
    find_slab slab_release slab_get_stats stats_of
freed_again = refl

-- In memory that is not cleared, the bytes of the bitmap between its first ones and its last one are as found: the counter
-- says 476 objects of 2 bytes are free, and the bitmap has 12 clear bits.
uncleared : clear_count (new_slab (λ a. 255) 1 4096).bitmap ≡ 12
unfolding clear_count new_slab mark_front mark_back bytes_at
uncleared = refl

counted : (new_slab (λ a. 255) 1 4096).free ≡ 476
unfolding new_slab
counted = refl
