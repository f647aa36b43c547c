-- ===== src/Memory/Slab.antt =====
-- The slab allocator, ayumos/kernel/memory/slab.c. A slab is its address, its counter of free objects, its radix and
-- the bytes of its bitmap; the chain of the slabs of one radix is a list. What memory holds where a slab is created is an
-- argument.
mod Sizes
mod Bytes
mod Bitmap
mod Create
mod Alloc
mod Chains
mod State
mod Tests
use Prim.Native.Nat.{bit_and, bit_or}
use m68k_system.Common.{
  ℕ, zero, suc, ◌+◌, ◌-◌, ◌*◌, ◌/◌, ◌%◌, ◌^◌, Bool, true, false, not, ◌||◌, Option, none, some,
  List, [], ◌∷◌, ◌++◌, ltb, leb, ◌==◌, if◌then◌else◌, length, get_or, get_elem?, set, Code, success,
  einval, enomem,
}

-- SLAB_SIZE and the size of `slab_header_t`
abbrev pub slab_size : ℕ
slab_size = 1024

abbrev pub header_size : ℕ
header_size = 8

-- ROUND_UP_PWR2, on a byte.
abbrev pub round_up_pwr2 : ℕ → ℕ
round_up_pwr2 x =
    let x1 = (x + 255) % 256 in
    let x2 = bit_or x1 (x1 / 2) in
    let x3 = bit_or x2 (x2 / 4) in let x4 = bit_or x3 (x3 / 16) in (x4 + 1) % 256

-- The loop of slab_alloc that finds log2 of a size, on fuel.
pub log2_loop : ℕ → ℕ → ℕ → Option ℕ
log2_loop zero size radix = none
log2_loop (suc fuel) size radix =
    let rest = log2_loop fuel (size / 2) (radix + 1) in if size == 0 then some radix else rest

-- The radix that slab_alloc chooses for a size from 1 to 64.
pub radix_of : ℕ → Option ℕ
radix_of size =
    let rounded = if ltb size 2 then 2 else round_up_pwr2 size in log2_loop 8 (rounded / 2) 0

-- A slab: `slab_header_t`, its address, and the bitmap behind it.
pub record Slab : Type 0 where
  pub addr : ℕ
  pub free : ℕ
  pub radix : ℕ
  pub bitmap : List ℕ

-- The numbers of objects and of bytes in the bitmap, and of the objects that the header and the bitmap take.
abbrev pub nobjs : ℕ → ℕ
nobjs radix = 2 ^ (10 - radix)

abbrev pub bitmap_len_bytes : ℕ → ℕ
bitmap_len_bytes radix = (nobjs radix + 7) / 8

abbrev pub reserved_objs : ℕ → ℕ
reserved_objs radix = (header_size + bitmap_len_bytes radix + (2 ^ radix - 1)) / 2 ^ radix

-- The first loop of slab_create and the byte behind it.
pub mark_front : ℕ → List ℕ → List ℕ
mark_front reserved [] = []
mark_front reserved (b ∷ bs) =
    let rest = mark_front (reserved - 8) bs in
    if ltb 8 reserved then 255 ∷ rest else (2 ^ reserved - 1) % 256 ∷ bs

-- The second loop of slab_create, from byte `i` down, and the byte before it.
pub mark_back : ℕ → ℕ → List ℕ → List ℕ
mark_back reserved zero bitmap = set bitmap 0 (255 - 255 / 2 ^ reserved)
mark_back reserved (suc i) bitmap =
    let rest = mark_back (reserved - 8) i (set bitmap (suc i) 255) in
    if ltb 8 reserved then rest else set bitmap (suc i) (255 - 255 / 2 ^ reserved)

-- `n` bytes of memory from an address.
pub bytes_at : (ℕ → ℕ) → ℕ → ℕ → List ℕ
bytes_at found addr zero = []
bytes_at found addr (suc n) = found addr ∷ bytes_at found (addr + 1) n

-- The slab that slab_create makes.
pub new_slab : (ℕ → ℕ) → ℕ → ℕ → Slab
new_slab found radix addr =
    let len = bitmap_len_bytes radix in
    let behind = len * 8 - nobjs radix in
    record {
      addr = addr;
      free = nobjs radix - reserved_objs radix - behind;
      radix = radix;
      bitmap =
          mark_back behind (len - 1)
            (mark_front (reserved_objs radix) (bytes_at found (addr + header_size) len));
    }

-- g_slab_start, g_slab_next, g_slab_end, and g_slabs by radix
pub record Slabs : Type 0 where
  pub start : ℕ
  pub next : ℕ
  pub end : ℕ
  pub chains : ℕ → List Slab

-- A chain in its place.
abbrev pub with_chain : Slabs → ℕ → List Slab → Slabs
with_chain st radix chain = record st { chains = λ x. if x == radix then chain else st.chains x }

-- slab_init
pub slab_init : ℕ → ℕ → Slabs
slab_init start len = record {
  start = start;
  next = start;
  end = (start + len) % 2 ^ 32;
  chains = λ radix. [];
}

-- slab_create: its code, the slabs, and the new one, which the caller's chain takes.
pub slab_create : (ℕ → ℕ) → ℕ → Slabs → Code × Slabs × Option Slab
slab_create found radix st =
    if ltb radix 1 || ltb 6 radix
    then (einval, st, none)
    else if leb st.end st.next
    then (enomem, st, none)
    else (
      success,
      record st { next = (st.next + slab_size) % 2 ^ 32 },
      some (new_slab found radix st.next),
    )

-- The loop that finds the first bit that is not set in a byte, on fuel.
pub first_clear : ℕ → ℕ → ℕ → Option ℕ
first_clear zero b bit = none
first_clear (suc fuel) b bit =
    let rest = first_clear fuel b (bit * 2 % 256) in
    if not (bit_and b bit == 0) then (elim rest [ none ↦ none | some k ↦ some (suc k) ]) else some 0

-- The search for a free object in the bitmap: its number, and the bitmap in which it is marked. There is no result
-- when the loop leaves the bitmap.
pub take_object : List ℕ → Option (ℕ × List ℕ)
take_object [] = none
take_object (b ∷ bs) =
    let rest = take_object bs in
    let here : Option (ℕ × List ℕ) = elim (first_clear 8 b 1) [
      | none ↦ none
      | some k ↦ some (k, bit_or b (2 ^ k) ∷ bs)
    ] in
    if b == 255 then (elim rest [ none ↦ none | some r ↦ some (r.0 + 8, b ∷ r.1) ]) else here

-- The first slab of a chain that is not full.
pub find_room : List Slab → Option ℕ
find_room [] = none
find_room (s ∷ ss) =
    let rest = find_room ss in
    if s.free == 0 then (elim rest [ none ↦ none | some i ↦ some (suc i) ]) else some 0

-- An object of a slab, and the slab it leaves.
pub slab_take : Slab → Option (ℕ × Slab)
slab_take s = elim (take_object s.bitmap) [
  | none ↦ none
  | some r ↦ some (s.addr + r.0 * 2 ^ s.radix, record s { free = s.free - 1; bitmap = r.1 })
]

-- The end of slab_alloc, on slab `i` of a chain.
pub alloc_at : Slabs → ℕ → ℕ → Option (ℕ × Slabs)
alloc_at st radix i = elim (get_elem? (st.chains radix) i) [
  | none ↦ none
  | some s ↦ elim (slab_take s) [
    | none ↦ none
    | some r ↦ some (r.0, with_chain st radix (set (st.chains radix) i r.1))
  ]
]

-- slab_alloc for a radix without room: with the slab just created at the end of the chain, or NULL.
pub alloc_new : ℕ → Code × Slabs × Option Slab → Option (ℕ × Slabs)
alloc_new radix (code, st, none) = some (0, st)
alloc_new radix (code, st, some s) =
    alloc_at (with_chain st radix (st.chains radix ++ s ∷ [])) radix (length (st.chains radix))

-- slab_alloc for a radix: the slab with room, or a new one.
pub alloc_in : (ℕ → ℕ) → ℕ → Slabs → Option (ℕ × Slabs)
alloc_in found radix st = elim (find_room (st.chains radix)) [
  | some i ↦ alloc_at st radix i
  | none ↦ alloc_new radix (slab_create found radix st)
]

-- slab_alloc: the pointer, 0 for NULL, and the slabs. There is no result when a loop does not end or leaves the
-- bitmap.
pub slab_alloc : (ℕ → ℕ) → ℕ → Slabs → Option (ℕ × Slabs)
slab_alloc found size st =
    if size == 0
    then some (0, st)
    else if ltb 64 size
    then some (0, st)
    else elim (radix_of size) [ none ↦ none | some radix ↦ alloc_in found radix st ]

-- The write of slab_free into a slab, for an object's offset.
pub slab_release : Slab → ℕ → Slab
slab_release s offset =
    let b = get_or s.bitmap (offset / 8) 0 in
    let bit = 2 ^ (offset % 8) in
    if not (bit_and b bit == 0)
    then record s {
      free = (s.free + 1) % 2 ^ 16;
      bitmap = set s.bitmap (offset / 8) (bit_and b (255 - bit));
    }
    else s

-- The slab at an address, among those of a chain.
pub find_slab : ℕ → List Slab → Option ℕ
find_slab addr [] = none
find_slab addr (s ∷ ss) =
    let rest = find_slab addr ss in
    if s.addr == addr then some 0 else elim rest [ none ↦ none | some i ↦ some (suc i) ]

-- slab_free in the chains up to a radix; no result when the memory at the masked address is no slab.
pub free_in : ℕ → ℕ → Slabs → Option Slabs
free_in zero obj st = none
free_in (suc radix) obj st =
    let rest = free_in radix obj st in
    let chain = st.chains (suc radix) in
    elim (find_slab (obj - obj % slab_size) chain) [
      | none ↦ rest
      | some i ↦ elim (get_elem? chain i) [
        | none ↦ none
        | some s ↦ some (
            with_chain st (suc radix)
              (set chain i (slab_release s (obj % slab_size / 2 ^ s.radix))))
      ]
    ]

-- slab_free
pub slab_free : ℕ → Slabs → Option Slabs
slab_free obj st = if obj == 0 then some st else free_in 6 obj st

-- The sums of slab_get_stats over a chain: the objects, and the free ones.
pub stats_of : ℕ → List Slab → ℕ × ℕ
stats_of radix [] = (0, 0)
stats_of radix (s ∷ ss) =
    let rest = stats_of radix ss in
    let reserved = reserved_objs radix + (bitmap_len_bytes radix * 8 - nobjs radix) in
    (rest.0 + (nobjs radix - reserved), rest.1 + s.free)

-- slab_get_stats; no result is -EINVAL.
pub slab_get_stats : ℕ → Slabs → Option (ℕ × ℕ)
slab_get_stats radix st =
    if ltb radix 1 || ltb 6 radix then none else some (stats_of radix (st.chains radix))
