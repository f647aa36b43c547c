-- ===== src/Kernel/Links/Deletion.antt =====
-- What a deletion makes of a ring.
use m68k_system.Common.{ℕ, ◌≡◌, ◌≢◌, ◌∙◌, sym, List, [], ◌∷◌, ◌++◌, write}
use m68k_system.Kernel.Links.{Links, do_list_delete, list_delete, list_init, list_invalid_item}
use m68k_system.Kernel.Links.Chain.{
  IsChain, IsAbsent, AreDistinct, end_of, first_of, write_other, write_same, IsAbsent-right,
  absent_end, absent_first, next_inside, prev_first, distinct_without, IsAbsent-without, IsRing,
}

-- The links after the deletion of an item between `p` and `n`.
cut : Links → ℕ → ℕ → ℕ → Links
cut m item p n = record {
  next = write (write m.next p n) item list_invalid_item;
  prev = write (write m.prev n p) item list_invalid_item;
}

cut_next : (m : Links) (item p n y : ℕ) → y ≢ item → y ≢ p → (cut m item p n).next y ≡ m.next y
unfolding cut
cut_next m item p n y a b =
    write_other (write m.next p n) item list_invalid_item y a ∙ write_other m.next p n y b

cut_prev : (m : Links) (item p n y : ℕ) → y ≢ item → y ≢ n → (cut m item p n).prev y ≡ m.prev y
unfolding cut
cut_prev m item p n y a b =
    write_other (write m.prev n p) item list_invalid_item y a ∙ write_other m.prev n p y b

cut_next_here : (m : Links) (item p n : ℕ) → item ≢ p → (cut m item p n).next p ≡ n
unfolding cut
cut_next_here m item p n a =
    write_other (write m.next p n) item list_invalid_item p (λ e. a (sym e)) ∙ write_same m.next p n

cut_prev_here : (m : Links) (item p n : ℕ) → item ≢ n → (cut m item p n).prev n ≡ p
unfolding cut
cut_prev_here m item p n a =
    write_other (write m.prev n p) item list_invalid_item n (λ e. a (sym e)) ∙ write_same m.prev n p

-- A chain behind the place of a deletion.
cut_frame :
    (m : Links) (item p n a b : ℕ) (xs : List ℕ)
    → IsChain m a xs b
    → item ≢ a
    → p ≢ a
    → item ≢ b
    → n ≢ b
    → IsAbsent item xs
    → IsAbsent p xs
    → IsAbsent n xs
    → IsChain (cut m item p n) a xs b
unfolding IsChain IsAbsent
cut_frame m item p n a b [] c na pa nb nn x y z = (
  cut_next m item p n a (λ e. na (sym e)) (λ e. pa (sym e)) ∙ c.0,
  cut_prev m item p n b (λ e. nb (sym e)) (λ e. nn (sym e)) ∙ c.1,
)
cut_frame m item p n a b (q ∷ xs) c na pa nb nn x y z = (
  cut_next m item p n a (λ e. na (sym e)) (λ e. pa (sym e)) ∙ c.0,
  cut_prev m item p n q (λ e. x.0 (sym e)) (λ e. z.0 (sym e)) ∙ c.1,
  cut_frame m item p n q b xs c.2 x.0 y.0 nb nn x.1 y.1 z.1,
)

cut-IsChain :
    (m : Links) (item a b : ℕ) (l r : List ℕ)
    → IsChain m a (l ++ item ∷ r) b
    → item ≢ a
    → item ≢ b
    → IsAbsent item (l ++ r)
    → IsAbsent b (l ++ r)
    → IsAbsent a (l ++ r)
    → AreDistinct (l ++ r)
    → IsChain (cut m item (end_of a l) (first_of r b)) a (l ++ r) b
unfolding IsChain IsAbsent AreDistinct
cut-IsChain m item a b [] [] c na nb x y z d =
    (cut_next_here m item a b na, cut_prev_here m item a b nb)
cut-IsChain m item a b [] (q ∷ r) c na nb x y z d = (
  cut_next_here m item a q na,
  cut_prev_here m item a q x.0,
  cut_frame m item a q q b r c.2.2 x.0 z.0 nb (λ e. y.0 (sym e)) x.1 z.1 d.0,
)
cut-IsChain m item a b (q ∷ l) r c na nb x y z d =
    let p = end_of q l in
    let n = first_of r b in
    let apart : q ≢ n = absent_first q b r (λ e. y.0 (sym e)) (IsAbsent-right q l r d.0) in
    (
      cut_next m item p n a (λ e. na (sym e)) (absent_end a q l r z.0 z.1) ∙ c.0,
      cut_prev m item p n q (λ e. x.0 (sym e)) apart ∙ c.1,
      cut-IsChain m item q b l r c.2 x.0 nb x.1 y.1 d.0 d.1,
    )

-- In a ring, list_delete of an item makes the ring of the other items in their order, and both links of the item are
-- LIST_INVALID_ITEM.
pub list_delete-IsRing :
    (m : Links) (item h : ℕ) (l r : List ℕ)
    → IsRing m h (l ++ item ∷ r)
    → IsRing (list_delete m item) h (l ++ r)
      × ((list_delete m item).next item ≡ list_invalid_item)
      × ((list_delete m item).prev item ≡ list_invalid_item)
unfolding list_delete do_list_delete cut
list_delete-IsRing m item h l r ring =
    let (distinct, gone) = distinct_without item l r ring.distinct in
    let (other, absent) = IsAbsent-without h item l r ring.absent in
    let apart : item ≢ h = λ e. other (sym e) in
    let next = next_inside m h h item l r ring.chain in
    let prev = prev_first m h h l (item ∷ r) ring.chain in
    let chain = cut-IsChain m item h h l r ring.chain apart apart gone absent absent distinct in
    (
      record { chain = rw (next, prev) chain; distinct = distinct; absent = absent },
      write_same (write m.next (m.prev item) (m.next item)) item list_invalid_item,
      write_same (write m.prev (m.next item) (m.prev item)) item list_invalid_item,
    )

-- list_init makes the ring of a head alone.
pub list_init-IsRing : (m : Links) (h : ℕ) → IsRing (list_init m h) h []
unfolding list_init IsChain AreDistinct IsAbsent
list_init-IsRing m h = record {
  chain = (write_same m.next h h, write_same m.prev h h);
  distinct = tt;
  absent = tt;
}
