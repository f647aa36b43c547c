-- ===== src/Memory/Slab/Create.antt =====
-- What slab_create makes of the memory it finds.
use m68k_system.Common.{
  ℕ, zero, suc, ◌+◌, ◌-◌, ◌*◌, ◌%◌, ◌^◌, ◌≤◌, ◌<◌, ◌≡◌, ◌∙◌, sym, refl, ap, Bool, true, false, some,
  List, [], ◌∷◌, ltb, leb, ◌==◌, length, all_below, all_below_sound, eq_of_eqb, lt_of_ltb, both,
  ◌&&◌, arith, success,
}
use m68k_system.Memory.Slab.{
  Slab, Slabs, nobjs, bitmap_len_bytes, reserved_objs, bytes_at, mark_front, mark_back, new_slab,
  slab_create, header_size,
}
use m68k_system.Memory.Slab.Bitmap.{bit_at, clear_count, AreBytes}
use m68k_system.Memory.Slab.Alloc.{IsSlab}

abbrev zeros : ℕ → List ℕ
zeros zero = []
zeros (suc n) = 0 ∷ zeros n

bytes_at_clear :
    (found : ℕ → ℕ) (addr n : ℕ)
    → ((a : ℕ) → addr ≤ a → a < addr + n → found a ≡ 0)
    → bytes_at found addr n ≡ zeros n
unfolding bytes_at
bytes_at_clear found addr zero clear = refl
bytes_at_clear found addr (suc n) clear =
    let ih = bytes_at_clear found (addr + 1) n (λ a l h. clear a (omega arith) (omega arith)) in
    rw (clear addr (omega arith) (omega arith), ih) refl

-- The bitmap of a new slab in cleared memory, and what is wanted of it.
fresh : ℕ → List ℕ
fresh radix =
    mark_back (bitmap_len_bytes radix * 8 - nobjs radix) (bitmap_len_bytes radix - 1)
      (mark_front (reserved_objs radix) (zeros (bitmap_len_bytes radix)))

abbrev all_bytes : List ℕ → Bool
all_bytes [] = true
all_bytes (b ∷ bs) = ltb b 256 && all_bytes bs

all_bytes_sound : (bs : List ℕ) → all_bytes bs ≡ true → AreBytes bs
unfolding AreBytes
all_bytes_sound [] h = tt
all_bytes_sound (b ∷ bs) h =
    (lt_of_ltb b 256 (both (ltb b 256) _ h).0, all_bytes_sound bs (both (ltb b 256) _ h).1)

abbrev is_fresh : ℕ → List ℕ → Bool
is_fresh radix bitmap =
    length bitmap == bitmap_len_bytes radix
    && (all_bytes bitmap
        && (nobjs radix - reserved_objs radix - (bitmap_len_bytes radix * 8 - nobjs radix)
              == clear_count bitmap
            && (ltb 0 (clear_count bitmap)
                && all_below (reserved_objs radix) (λ j. bit_at bitmap j == 1))))

all_fresh : (radix : ℕ) → 1 ≤ radix → radix ≤ 6 → is_fresh radix (fresh radix) ≡ true
unfolding fresh mark_front mark_back clear_count bit_at all_below
all_fresh zero l h = absurd (omega arith)
all_fresh (suc zero) l h = refl
all_fresh (suc (suc zero)) l h = refl
all_fresh (suc (suc (suc zero))) l h = refl
all_fresh (suc (suc (suc (suc zero)))) l h = refl
all_fresh (suc (suc (suc (suc (suc zero))))) l h = refl
all_fresh (suc (suc (suc (suc (suc (suc zero)))))) l h = refl
all_fresh (suc (suc (suc (suc (suc (suc (suc n))))))) l h = absurd (omega arith)

new_slab-fresh :
    (found : ℕ → ℕ) (radix addr : ℕ)
    → ((a : ℕ)
        → addr + header_size ≤ a
        → a < addr + header_size + bitmap_len_bytes radix
        → found a ≡ 0)
    → (new_slab found radix addr).bitmap ≡ fresh radix
unfolding new_slab fresh
new_slab-fresh found radix addr clear =
    rw (bytes_at_clear found (addr + header_size) (bitmap_len_bytes radix) clear) refl

new_slab_addr : (found : ℕ → ℕ) (radix addr : ℕ) → (new_slab found radix addr).addr ≡ addr
unfolding new_slab
new_slab_addr found radix addr = refl

new_slab_radix : (found : ℕ → ℕ) (radix addr : ℕ) → (new_slab found radix addr).radix ≡ radix
unfolding new_slab
new_slab_radix found radix addr = refl

pub new_slab-IsSlab :
    (found : ℕ → ℕ) (radix addr : ℕ)
    → 1 ≤ radix
    → radix ≤ 6
    → addr % 1024 ≡ 0
    → ((a : ℕ)
        → addr + header_size ≤ a
        → a < addr + header_size + bitmap_len_bytes radix
        → found a ≡ 0)
    → IsSlab (new_slab found radix addr) × (0 < (new_slab found radix addr).free)
unfolding new_slab
new_slab-IsSlab found radix addr low high aligned clear =
    let e = new_slab-fresh found radix addr clear in
    let h = all_fresh radix low high in
    let bitmap = fresh radix in
    let (h1, r1) = both (length bitmap == bitmap_len_bytes radix) _ h in
    let (h2, r2) = both (all_bytes bitmap) _ r1 in
    let (h3, r3) =
      both
        (nobjs radix - reserved_objs radix - (bitmap_len_bytes radix * 8 - nobjs radix)
          == clear_count bitmap)
        _ r2 in
    let (h4, h5) = both (ltb 0 (clear_count bitmap)) _ r3 in
    let counted = eq_of_eqb _ _ h3 in
    (
      record {
        low = low;
        high = high;
        aligned = aligned;
        sized = ap length e ∙ eq_of_eqb _ _ h1;
        bytes = rw e (all_bytes_sound bitmap h2);
        counted = counted ∙ ap clear_count (sym e);
        reserved = λ j l.
            ap (λ (b : List ℕ). bit_at b j) e
            ∙ eq_of_eqb _ _
                (all_below_sound (reserved_objs radix) (λ j. bit_at bitmap j == 1) j h5 l);
      },
      rw counted (lt_of_ltb 0 _ h4),
    )

-- For a radix from 1 to 6, where the memory left for slabs begins at a multiple of 1024 and the bytes that become the
-- bitmap are 0: the creation succeeds, with a slab of the radix there that has a free object, and passes on to the next 1024 bytes.
pub slab_create-IsSlab :
    (found : ℕ → ℕ) (radix : ℕ) (st : Slabs)
    → 1 ≤ radix
    → radix ≤ 6
    → st.next % 1024 ≡ 0
    → st.next < st.end
    → ((a : ℕ)
        → st.next + header_size ≤ a
        → a < st.next + header_size + bitmap_len_bytes radix
        → found a ≡ 0)
    → (s : Slab) × (slab_create found radix st
        ≡ (success, record st { next = (st.next + 1024) % 2 ^ 32 }, some s))
      × IsSlab s
      × (s.addr ≡ st.next)
      × (s.radix ≡ radix)
      × (0 < s.free)
unfolding slab_create
slab_create-IsSlab found radix st low high aligned room clear =
    let (good, free) = new_slab-IsSlab found radix st.next low high aligned clear in
    let small : ltb radix 1 ≡ false = ground arith in
    let large : ltb 6 radix ≡ false = ground arith in
    let left : leb st.end st.next ≡ false = ground arith in
    (
      new_slab found radix st.next,
      rw (small, large, left) refl,
      good,
      new_slab_addr found radix st.next,
      new_slab_radix found radix st.next,
      free,
    )
