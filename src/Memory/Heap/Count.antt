-- ===== src/Memory/Heap/Count.antt =====
-- heap_freemem and heap_usedmem add up the blocks.
use m68k_system.Common.{
  ℕ, zero, suc, ◌+◌, ◌^◌, ◌%◌, ◌<◌, ◌≡◌, refl, ◌∙◌, ap, Bool, true, false, some, List, [], ◌∷◌,
  arith, Store, if◌then◌else◌, ◌==◌, length, ltb,
}
use mathlib.Core.Path.{ap₂}
use m68k_system.Memory.Heap.{HeapCtx, header_size, next, magic, size, count_loop}
use m68k_system.Memory.Heap.Chain.{Block, Chain, Chain-lt, magic_of, free_bytes, used_bytes}

-- The bytes of the blocks that are used, or of those that are not.
abbrev pub bytes : Bool → List Block → ℕ
bytes true bs = used_bytes bs
bytes false bs = free_bytes bs

bytes-cons :
    (which used : Bool) (len : ℕ) (bs : List Block)
    → bytes which ((used, len) ∷ bs)
      ≡ (if magic_of used == magic_of which then len else 0) + bytes which bs
unfolding used_bytes free_bytes
bytes-cons true true len bs = omega arith
bytes-cons true false len bs = omega arith
bytes-cons false true len bs = omega arith
bytes-cons false false len bs = omega arith

bytes-nil : (which : Bool) → bytes which [] ≡ 0
unfolding used_bytes free_bytes
bytes-nil true = refl
bytes-nil false = refl

module _ (heap : HeapCtx) (limit : ℕ) (bounds : limit ≡ heap.start + heap.size) (which : Bool) where
  count_step :
      (fuel p acc : ℕ) (m : Store)
      → p < limit
      → count_loop (suc fuel) heap (magic_of which) p acc m
        ≡ count_loop fuel heap
            (magic_of which)
            (next m p)
            (if magic m p == magic_of which then (acc + size m p) % 2 ^ 32 else acc)
            m
  unfolding count_loop
  count_step fuel p acc m h =
      let go_on : ltb p (heap.start + heap.size) ≡ true = ground arith in rw go_on

  count_stop :
      (fuel acc : ℕ) (m : Store)
      → count_loop (suc fuel) heap (magic_of which) limit acc m ≡ some acc
  unfolding count_loop
  count_stop fuel acc m =
      let stop : ltb limit (heap.start + heap.size) ≡ false = ground arith in rw stop

  -- The walk comes to an end and adds up, if the sum fits a word.
  pub count_loop-bytes :
      (fuel p acc : ℕ) (bs : List Block) (m : Store)
      → Chain m p bs limit
      → acc + bytes which bs < 2 ^ 32
      → length bs + 1 < fuel
      → count_loop fuel heap (magic_of which) p acc m ≡ some (acc + bytes which bs)
  count_loop-bytes zero p acc bs m c fit f = absurd (omega arith)
  count_loop-bytes (suc zero) p acc bs m c fit f = absurd (omega arith)
  count_loop-bytes (suc (suc fuel)) p acc [] m c fit f =
      let same : (if magic m p == magic_of which then (acc + size m p) % 2 ^ 32 else acc) ≡ acc =
        ground (arith, bytes-nil which) in
      count_step (suc fuel) p acc m (omega arith)
      ∙ ap₂ (λ q a. count_loop (suc fuel) heap (magic_of which) q a m) (omega arith) same
      ∙ count_stop fuel acc m
      ∙ ap some (omega (arith, bytes-nil which))
  count_loop-bytes (suc fuel) p acc ((used, len) ∷ bs) m c fit f =
      let d = if magic_of used == magic_of which then len else 0 in
      let same : (if magic m p == magic_of which then (acc + size m p) % 2 ^ 32 else acc)
          ≡ acc + d =
        rw (c.0, c.1) (ground (arith, bytes-cons which used len bs)) in
      count_step fuel p acc m (omega (arith, Chain-lt m (p + len + header_size) limit bs c.3))
      ∙ ap₂ (λ q a. count_loop fuel heap (magic_of which) q a m) (omega arith) same
      ∙ count_loop-bytes fuel (p + len + header_size) (acc + d) bs m c.3
          (omega (arith, bytes-cons which used len bs)) (omega arith)
      ∙ ap some (omega (arith, bytes-cons which used len bs))
