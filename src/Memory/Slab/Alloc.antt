-- ===== src/Memory/Slab/Alloc.antt =====
-- What taking an object from a slab and giving it back do.
use Prim.Native.Nat.{bit_and}
use m68k_system.Common.{
  ℕ, zero, suc, ◌+◌, ◌-◌, ◌*◌, ◌/◌, ◌%◌, ◌^◌, ◌≤◌, ◌<◌, ◌≡◌, ◌∙◌, refl, inl, inr, false, some, List,
  [], ◌∷◌, ltb, ◌==◌, length, get_or, set, Bool-cases, lt_of_ltb, arith,
}
use m68k_system.Memory.Slab.{Slab, bitmap_len_bytes, reserved_objs, slab_take, slab_release}
use m68k_system.Memory.Slab.Bitmap.{bit_at, clear_count, AreBytes, IsTaken, take_object_takes}

-- A slab: aligned, with a bitmap of the length for its radix, in which the objects that the header and the bitmap take
-- are in use and the counter of free objects is right.
pub record IsSlab (s : Slab) : Type 0 where
  pub low : 1 ≤ s.radix
  pub high : s.radix ≤ 6
  pub aligned : s.addr % 1024 ≡ 0
  pub sized : length s.bitmap ≡ bitmap_len_bytes s.radix
  pub bytes : AreBytes s.bitmap
  pub counted : s.free ≡ clear_count s.bitmap
  pub reserved : (j : ℕ) → j < reserved_objs s.radix → bit_at s.bitmap j ≡ 1

-- An object behind those reserved lies in the slab, behind the header and the bitmap, and its offset gives its number.
pub record IsPlaced (addr radix obj : ℕ) : Type 0 where
  pub few : bitmap_len_bytes radix ≤ 64
  pub after : addr + 8 + bitmap_len_bytes radix ≤ addr + obj * 2 ^ radix
  pub before : addr + obj * 2 ^ radix + 2 ^ radix ≤ addr + 1024
  pub number : (addr + obj * 2 ^ radix) % 1024 / 2 ^ radix ≡ obj

object-IsPlaced :
    (radix addr obj : ℕ)
    → 1 ≤ radix
    → radix ≤ 6
    → addr % 1024 ≡ 0
    → obj < 8 * bitmap_len_bytes radix
    → reserved_objs radix ≤ obj
    → IsPlaced addr radix obj
object-IsPlaced zero addr obj l h a i r = absurd (omega arith)
object-IsPlaced (suc zero) addr obj l h a i r = record {
  few = omega arith;
  after = omega arith;
  before = omega arith;
  number = omega arith;
}
object-IsPlaced (suc (suc zero)) addr obj l h a i r = record {
  few = omega arith;
  after = omega arith;
  before = omega arith;
  number = omega arith;
}
object-IsPlaced (suc (suc (suc zero))) addr obj l h a i r = record {
  few = omega arith;
  after = omega arith;
  before = omega arith;
  number = omega arith;
}
object-IsPlaced (suc (suc (suc (suc zero)))) addr obj l h a i r = record {
  few = omega arith;
  after = omega arith;
  before = omega arith;
  number = omega arith;
}
object-IsPlaced (suc (suc (suc (suc (suc zero))))) addr obj l h a i r = record {
  few = omega arith;
  after = omega arith;
  before = omega arith;
  number = omega arith;
}
object-IsPlaced (suc (suc (suc (suc (suc (suc zero)))))) addr obj l h a i r = record {
  few = omega arith;
  after = omega arith;
  before = omega arith;
  number = omega arith;
}
object-IsPlaced (suc (suc (suc (suc (suc (suc (suc n))))))) addr obj l h a i r =
    absurd (omega arith)

le_of_not_ltb : (a b : ℕ) → ltb a b ≡ false → b ≤ a
le_of_not_ltb a b h = ground arith

clear_count_bound : (bs : List ℕ) → clear_count bs ≤ 8 * length bs
unfolding clear_count
clear_count_bound [] = omega arith
clear_count_bound (b ∷ bs) = let rest = clear_count_bound bs in omega arith

slab_take_taken :
    (s : Slab) (obj : ℕ) (marked : List ℕ)
    → IsTaken s.bitmap obj marked
    → slab_take s
      ≡ some (s.addr + obj * 2 ^ s.radix, record s { free = s.free - 1; bitmap = marked })
unfolding slab_take
slab_take_taken s obj marked t = rw (t.taken, slab_take) refl

slab_release_tested :
    (s : Slab) (obj : ℕ)
    → (bit_and (get_or s.bitmap (obj / 8) 0) (2 ^ (obj % 8)) == 0) ≡ false
    → slab_release s obj ≡ record s {
      free = (s.free + 1) % 2 ^ 16;
      bitmap = set s.bitmap (obj / 8) (bit_and (get_or s.bitmap (obj / 8) 0) (255 - 2 ^ (obj % 8)));
    }
unfolding slab_release
slab_release_tested s obj h = rw h refl

-- A free object is none of those reserved.
free_unreserved :
    (s : Slab) → IsSlab s → (obj : ℕ) → bit_at s.bitmap obj ≡ 0 → reserved_objs s.radix ≤ obj
free_unreserved s good obj h = elim (Bool-cases (ltb obj (reserved_objs s.radix))) [
  | inl e ↦
      absurd (let one = good.reserved obj (lt_of_ltb obj (reserved_objs s.radix) e) in omega arith)
  | inr e ↦ le_of_not_ltb obj (reserved_objs s.radix) e
]

-- For a slab with a free object: the search ends and gives an object that lies in the slab, behind its header and its
-- bitmap; the slab has one free object less and is a slab again; and the writes of slab_free to the object's
-- address, less the slab's, give back the slab as it was.
pub slab_release-slab_take :
    (s : Slab)
    → IsSlab s
    → 0 < s.free
    → (p : ℕ) × (s' : Slab) × (slab_take s ≡ some (p, s'))
      × IsSlab s'
      × (s'.free + 1 ≡ s.free)
      × (s.addr + 8 + bitmap_len_bytes s.radix ≤ p)
      × (p + 2 ^ s.radix ≤ s.addr + 1024)
      × (slab_release s' (p % 1024 / 2 ^ s'.radix) ≡ s)
slab_release-slab_take s good room =
    let counted = good.counted in
    let (obj, marked, t) = take_object_takes s.bitmap good.bytes (omega arith) in
    let sized = good.sized in
    let inside = t.inside in
    let fewer = t.counted in
    let bound = clear_count_bound s.bitmap in
    let unreserved : reserved_objs s.radix ≤ obj = free_unreserved s good obj (t.was_free) in
    let placed =
      object-IsPlaced s.radix s.addr obj good.low good.high good.aligned (omega arith) unreserved in
    let few = placed.few in
    let s' : Slab = record s { free = s.free - 1; bitmap = marked } in
    let whole : (s.free - 1 + 1) % 2 ^ 16 ≡ s.free = omega arith in
    (
      s.addr + obj * 2 ^ s.radix,
      s',
      slab_take_taken s obj marked t,
      record {
        low = good.low;
        high = good.high;
        aligned = good.aligned;
        sized = t.size ∙ sized;
        bytes = t.bytes;
        counted = omega arith;
        reserved = λ j l. t.others j (λ e. absurd (omega arith)) ∙ good.reserved j l;
      },
      omega arith,
      placed.after,
      placed.before,
      rw (placed.number) (slab_release_tested s' obj (t.tested) ∙ rw (whole, t.undone) refl),
    )
