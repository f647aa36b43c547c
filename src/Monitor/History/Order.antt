-- ===== src/Monitor/History/Order.antt =====
-- A history holds the last commands, the oldest one first.
use m68k_system.Common.{
  ℕ, zero, suc, ◌+◌, ◌-◌, ◌<◌, ◌≡◌, ◌≢◌, refl, ap, sym, ◌∙◌, Bool-cases, inl, inr, true, false,
  Option, none, some, List, ltb, leb, ◌==◌, if◌then◌else◌, arith, length, get_or, set, length-set,
  get_or-set_self, get_or-set_ne, success,
}
use m68k_system.Monitor.History.{
  History, no_items, history_init, history_clear, history_add, history_get_at,
}

-- There are `len` items, and the next one is among them.
pub record IsValid (h : History) : Type 0 where
  pub full : length h.item ≡ h.len
  pub inside : h.next < h.len

-- Nothing is remembered.
abbrev pub IsEmpty : History → Type 0
IsEmpty h = (i : ℕ) → history_get_at h i ≡ none

-- `new` remembers the commands of `old` but the oldest, and then `last`.
pub record Follows (old : History) (last : Option (List ℕ)) (new : History) : Type 0 where
  pub valid : IsValid new
  pub same_len : new.len ≡ old.len
  pub moved : (i : ℕ) → i + 1 < old.len → history_get_at new i ≡ history_get_at old (i + 1)
  pub latest : history_get_at new (old.len - 1) ≡ last

length-no_items : (n : ℕ) → length (no_items n) ≡ n
length-no_items zero = refl
length-no_items (suc n) = ap suc (length-no_items n)

get_or-no_items : (n i : ℕ) → get_or (no_items n) i none ≡ none
get_or-no_items zero i = refl
get_or-no_items (suc n) zero = refl
get_or-no_items (suc n) (suc i) = get_or-no_items n i

-- The place in the array.
abbrev slot : ℕ → ℕ → ℕ → ℕ
slot len next i = if leb len (i + next) then i + next - len else i + next

get_at-slot :
    (item : List (Option (List ℕ))) (next len i : ℕ)
    → i < len
    → history_get_at (record { item = item; next = next; len = len }) i
      ≡ get_or item (slot len next i) none
unfolding history_get_at
get_at-slot item next len i h = let inside : leb len i ≡ false = ground arith in rw inside refl

slot-next :
    (len next i : ℕ)
    → next < len
    → i + 1 < len
    → (slot len (if next + 1 == len then 0 else next + 1) i ≡ slot len next (i + 1))
      × (slot len next (i + 1) ≢ next)
slot-next len next i h l = (ground arith, λ e. ground arith)

slot-last :
    (len next : ℕ)
    → next < len
    → slot len (if next + 1 == len then 0 else next + 1) (len - 1) ≡ next
slot-last len next h = ground arith

-- Where the memory for it is given, history_add on a valid history forgets the oldest command and remembers
-- the new one as the latest.
pub history_add-Follows :
    (h : History) (cmd : List ℕ) → IsValid h → Follows h (some cmd) (history_add true h cmd)
unfolding history_add
history_add-Follows h cmd v =
    let inside = v.inside in
    let full = v.full in
    record {
      valid = record { full = length-set h.item h.next (some cmd) ∙ full; inside = ground arith };
      same_len = refl;
      moved = λ i l.
          let s = slot-next h.len h.next i inside l in
          get_at-slot (set h.item h.next (some cmd)) _ h.len i (omega arith)
          ∙ rw (s.0) (
              get_or-set_ne h.item h.next (slot h.len h.next (i + 1)) (some cmd) none
                (λ e. s.1 (sym e)))
          ∙ sym (get_at-slot h.item h.next h.len (i + 1) l);
      latest =
          get_at-slot (set h.item h.next (some cmd)) _ h.len (h.len - 1) (omega arith)
          ∙ rw (slot-last h.len h.next inside)
              (get_or-set_self h.item h.next (some cmd) none (omega arith));
    }

get_at-no_items :
    (len i : ℕ) → history_get_at (record { item = no_items len; next = 0; len = len }) i ≡ none
unfolding history_get_at
get_at-no_items len i = elim (Bool-cases (leb len i)) [
  | inl outside ↦ rw outside refl
  | inr inside ↦ rw inside (get_or-no_items len (if leb len (i + 0) then i + 0 - len else i + 0))
]

-- history_init, given memory, makes a valid history of a positive length that remembers nothing, and
-- history_clear makes such a one of every valid history.
pub history_clear-history_init :
    (h : History)
    → IsValid h
    → IsValid (history_clear h)
      × IsEmpty (history_clear h)
      × (history_init true true h.len ≡ (success, some (history_clear h)))
unfolding history_clear history_init
history_clear-history_init h v =
    let inside = v.inside in
    let positive : ltb h.len 1 ≡ false = ground arith in
    (
      record { full = length-no_items h.len; inside = omega arith },
      get_at-no_items h.len,
      rw positive refl,
    )
