-- ===== src/Memory/Heap/Chain.antt =====
-- The chain of headers in the store, and the list of blocks that it stands for.
use m68k_system.Common.{
  ℕ, ◌+◌, ◌-◌, ◌≤◌, ◌<◌, ◌≡◌, ◌⊎◌, inl, inr, Bool, true, false, not, ◌&&◌, List, [], ◌∷◌, ◌++◌,
  arith, Store, ltb, leb, if◌then◌else◌, ◌==◌, ◌*◌, ◌^◌, length,
}
use m68k_system.Memory.Heap.{HeapCtx, memblock_hdr_magic, used_magic, header_size, magic, size}

-- A block: whether it is used, and its length without the header.
abbrev pub Block : Type 0
Block = Bool × ℕ

abbrev pub magic_of : Bool → ℕ
magic_of true = used_magic
magic_of false = memblock_hdr_magic

-- From `p` on, the headers stand for the blocks, and the end marker stands below `limit`.
abbrev pub Chain : Store → ℕ → List Block → ℕ → Type 0
Chain m p [] limit = (magic m p ≡ used_magic) × (size m p ≡ 0) × (p + header_size ≡ limit)
Chain m p ((used, len) ∷ bs) limit =
    (magic m p ≡ magic_of used)
    × (size m p ≡ len)
    × (0 < len)
    × Chain m (p + len + header_size) bs limit

-- The address lies in the data of a used block.
abbrev pub Allocated : ℕ → List Block → ℕ → Type 0
Allocated p [] a = ⊥
Allocated p ((used, len) ∷ bs) a =
    ((used ≡ true) × (p + header_size ≤ a) × (a < p + header_size + len))
    ⊎ Allocated (p + len + header_size) bs a

-- The chain depends on the store from its first header on.
pub Chain-agree :
    (m m' : Store) (p limit : ℕ) (bs : List Block)
    → ((a : ℕ) → p ≤ a → m' a ≡ m a)
    → Chain m p bs limit
    → Chain m' p bs limit
Chain-agree m m' p limit [] same c =
    ground (arith, same p (omega arith), same (p + 4) (omega arith))
Chain-agree m m' p limit ((used, len) ∷ bs) same c = (
  ground (arith, same p (omega arith)),
  ground (arith, same (p + 4) (omega arith)),
  c.2,
  Chain-agree m m' (p + len + header_size) limit bs (λ a h. same a (omega arith)) c.3,
)

-- A chain ends above its start.
pub Chain-lt : (m : Store) (p limit : ℕ) (bs : List Block) → Chain m p bs limit → p + 8 ≤ limit
Chain-lt m p limit [] c = omega arith
Chain-lt m p limit ((used, len) ∷ bs) c =
    omega (arith, Chain-lt m (p + len + header_size) limit bs c.3)

pub Allocated-le : (p a : ℕ) (bs : List Block) → Allocated p bs a → p + 8 ≤ a
Allocated-le p a [] h = absurd h
Allocated-le p a ((used, len) ∷ bs) (inl h) = omega arith
Allocated-le p a ((used, len) ∷ bs) (inr h) =
    omega (arith, Allocated-le (p + len + header_size) a bs h)

-- First fit, on the list of blocks: whether some block fits, how far the new block's data lies
-- from the start of the chain, and the blocks afterwards.
unfoldable pub has_room : ℕ → List Block → Bool
has_room n [] = false
has_room n ((used, len) ∷ bs) = if not used && leb n len then true else has_room n bs

unfoldable pub fit_offset : ℕ → List Block → ℕ
fit_offset n [] = 0
fit_offset n ((used, len) ∷ bs) =
    if not used && leb n len then header_size else len + header_size + fit_offset n bs

unfoldable pub carve : ℕ → ℕ → List Block
carve n len =
    if ltb (header_size + 3) (len - n)
    then (true, n) ∷ (false, len - n - header_size) ∷ []
    else (true, len) ∷ []

unfoldable pub placed : ℕ → List Block → List Block
placed n [] = []
placed n ((used, len) ∷ bs) =
    if not used && leb n len then carve n len ++ bs else (used, len) ∷ placed n bs

-- The pointer is to the data of a used block.
abbrev pub Owns : ℕ → ℕ → List Block → Type 0
Owns p ptr [] = ⊥
Owns p ptr ((used, len) ∷ bs) =
    ((used ≡ true) × (ptr ≡ p + header_size)) ⊎ Owns (p + len + header_size) ptr bs

pub Owns-le : (p ptr : ℕ) (bs : List Block) → Owns p ptr bs → p + 8 ≤ ptr
Owns-le p ptr [] h = absurd h
Owns-le p ptr ((used, len) ∷ bs) (inl h) = omega arith
Owns-le p ptr ((used, len) ∷ bs) (inr h) = omega (arith, Owns-le (p + len + header_size) ptr bs h)

-- A block of `len` bytes that takes in the free blocks behind it: its length, and what follows.
unfoldable pub absorbed : ℕ → List Block → ℕ
absorbed len [] = len
absorbed len ((true, k) ∷ bs) = len
absorbed len ((false, k) ∷ bs) = absorbed (len + k + header_size) bs

unfoldable pub after_free : List Block → List Block
after_free [] = []
after_free ((true, k) ∷ bs) = (true, k) ∷ bs
after_free ((false, k) ∷ bs) = after_free bs

-- The blocks after the used block with its data at `ptr` is freed.
unfoldable pub release : ℕ → ℕ → List Block → List Block
release p ptr [] = []
release p ptr ((used, len) ∷ bs) =
    if used && (ptr == p + header_size)
    then (false, absorbed len bs) ∷ after_free bs
    else (used, len) ∷ release (p + len + header_size) ptr bs

-- The heap of `heap` consists of the blocks, and lies in the 32-bit address space.
pub record IsHeap (heap : HeapCtx) (m : Store) (bs : List Block) : Type 0 where
  pub chain : Chain m heap.start bs (heap.start + heap.size)
  pub small : heap.start + heap.size < 2 ^ 32

-- The bytes of the free blocks, and of the used ones.
unfoldable pub free_bytes : List Block → ℕ
free_bytes [] = 0
free_bytes ((used, len) ∷ bs) = (if used then 0 else len) + free_bytes bs

unfoldable pub used_bytes : List Block → ℕ
used_bytes [] = 0
used_bytes ((used, len) ∷ bs) = (if used then len else 0) + used_bytes bs

-- The blocks with their headers and the end marker fill the heap.
pub Chain-bytes :
    (m : Store) (p limit : ℕ) (bs : List Block)
    → Chain m p bs limit
    → p + free_bytes bs + used_bytes bs + 8 * (length bs + 1) ≡ limit
unfolding free_bytes used_bytes
Chain-bytes m p limit [] c = omega arith
Chain-bytes m p limit ((used, len) ∷ bs) c =
    ground (arith, Chain-bytes m (p + len + header_size) limit bs c.3)

-- No two free blocks are neighbours.
abbrev pub IsMerged : List Block → Type 0
IsMerged [] = Unit {0}
IsMerged ((true, len) ∷ bs) = IsMerged bs
IsMerged ((false, len) ∷ []) = Unit {0}
IsMerged ((false, len) ∷ (used, k) ∷ bs) = (used ≡ true) × IsMerged ((used, k) ∷ bs)
