-- ===== src/Kernel/Links/Insertion.antt =====
-- What an insertion makes of a ring.
use m68k_system.Common.{ℕ, ◌≡◌, ◌≢◌, ◌∙◌, sym, List, [], ◌∷◌, ◌++◌, write}
use m68k_system.Kernel.Links.{Links, do_list_append, list_append, list_insert}
use m68k_system.Kernel.Links.Chain.{
  IsChain, IsAbsent, AreDistinct, end_of, first_of, write_other, write_same, IsAbsent-right,
  absent_end, absent_first, next_end, prev_first, distinct_with, IsAbsent-with, IsRing,
}

-- The links away from an insertion.
append_next :
    (m : Links) (new p n y : ℕ) → y ≢ new → y ≢ p → (do_list_append m new p n).next y ≡ m.next y
unfolding do_list_append
append_next m new p n y a b =
    write_other (write m.next new n) p new y b ∙ write_other m.next new n y a

append_prev :
    (m : Links) (new p n y : ℕ) → y ≢ new → y ≢ n → (do_list_append m new p n).prev y ≡ m.prev y
unfolding do_list_append
append_prev m new p n y a b =
    write_other (write m.prev n new) new p y a ∙ write_other m.prev n new y b

-- A chain behind the place of an insertion.
append_frame :
    (m : Links) (new p n a b : ℕ) (xs : List ℕ)
    → IsChain m a xs b
    → new ≢ a
    → p ≢ a
    → new ≢ b
    → n ≢ b
    → IsAbsent new xs
    → IsAbsent p xs
    → IsAbsent n xs
    → IsChain (do_list_append m new p n) a xs b
unfolding IsChain IsAbsent
append_frame m new p n a b [] c na pa nb nn x y z = (
  append_next m new p n a (λ e. na (sym e)) (λ e. pa (sym e)) ∙ c.0,
  append_prev m new p n b (λ e. nb (sym e)) (λ e. nn (sym e)) ∙ c.1,
)
append_frame m new p n a b (q ∷ xs) c na pa nb nn x y z = (
  append_next m new p n a (λ e. na (sym e)) (λ e. pa (sym e)) ∙ c.0,
  append_prev m new p n q (λ e. x.0 (sym e)) (λ e. z.0 (sym e)) ∙ c.1,
  append_frame m new p n q b xs c.2 x.0 y.0 nb nn x.1 y.1 z.1,
)

insert-IsChain :
    (m : Links) (new a b : ℕ) (l r : List ℕ)
    → IsChain m a (l ++ r) b
    → new ≢ a
    → new ≢ b
    → IsAbsent new (l ++ r)
    → IsAbsent b (l ++ r)
    → IsAbsent a (l ++ r)
    → AreDistinct (l ++ r)
    → IsChain (do_list_append m new (end_of a l) (first_of r b)) a (l ++ new ∷ r) b
unfolding IsChain IsAbsent AreDistinct do_list_append
insert-IsChain m new a b [] [] c na nb x y z d = (
  write_same (write m.next new b) a new,
  write_same (write m.prev b new) new a,
  (
    write_other (write m.next new b) a new new na ∙ write_same m.next new b,
    write_other (write m.prev b new) new a b (λ e. nb (sym e)) ∙ write_same m.prev b new,
  ),
)
insert-IsChain m new a b [] (q ∷ r) c na nb x y z d = (
  write_same (write m.next new q) a new,
  write_same (write m.prev q new) new a,
  (
    write_other (write m.next new q) a new new na ∙ write_same m.next new q,
    write_other (write m.prev q new) new a q (λ e. x.0 (sym e)) ∙ write_same m.prev q new,
    append_frame m new a q q b r c.2 x.0 z.0 nb (λ e. y.0 (sym e)) x.1 z.1 d.0,
  ),
)
insert-IsChain m new a b (q ∷ l) r c na nb x y z d =
    let p = end_of q l in
    let n = first_of r b in
    let apart : q ≢ n = absent_first q b r (λ e. y.0 (sym e)) (IsAbsent-right q l r d.0) in
    (
      append_next m new p n a (λ e. na (sym e)) (absent_end a q l r z.0 z.1) ∙ c.0,
      append_prev m new p n q (λ e. x.0 (sym e)) apart ∙ c.1,
      insert-IsChain m new q b l r c.2 x.0 nb x.1 y.1 d.0 d.1,
    )

-- In a ring, where a new item is neither the head nor an item: list_append at any place, the head or an item, puts it behind
-- that place, and list_insert at what follows the place puts it before that; both make the ring with the new item between
-- the items before it and those after it.
pub list_append-IsRing :
    (m : Links) (new h : ℕ) (l r : List ℕ)
    → IsRing m h (l ++ r)
    → new ≢ h
    → IsAbsent new (l ++ r)
    → IsRing (list_append m new (end_of h l)) h (l ++ new ∷ r)
      × IsRing (list_insert m new (first_of r h)) h (l ++ new ∷ r)
unfolding list_append list_insert
list_append-IsRing m new h l r ring ne fresh =
    let next = next_end m h h l r ring.chain in
    let prev = prev_first m h h l r ring.chain in
    let chain =
      insert-IsChain m new h h l r ring.chain ne ne fresh ring.absent ring.absent ring.distinct in
    let distinct = distinct_with new l r ring.distinct fresh in
    let absent = IsAbsent-with h new l r (λ e. ne (sym e)) ring.absent in
    (
      record { chain = rw next chain; distinct = distinct; absent = absent },
      record { chain = rw prev chain; distinct = distinct; absent = absent },
    )
