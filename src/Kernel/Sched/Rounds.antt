-- ===== src/Kernel/Sched/Rounds.antt =====
-- Every process of the run queue has its turn.
use m68k_system.Common.{
  ℕ, zero, suc, ◌+◌, ◌-◌, ◌%◌, ◌^◌, ◌≤◌, ◌<◌, ◌≡◌, ◌∙◌, refl, ◌⊎◌, inl, inr, false, Option, none,
  some, List, [], ◌∷◌, ◌==◌, ltb, length, get_elem?, set, length-set, get_elem?-set_cases,
  Bool-cases, eq_of_eqb, lt_of_ltb, arith,
}
use m68k_system.Kernel.Sched.{Proc, Queues, is_sleeping, next_place, sched}

-- `k` calls of sched.
unfoldable pub scheds : ℕ → Queues → Option Queues
scheds zero st = some st
scheds (suc k) st = elim (sched st) [ none ↦ none | some st' ↦ scheds k st' ]

-- No process of the run queue is to sleep, and the current one is in the queue.
pub record IsRunning (st : Queues) : Type 0 where
  pub awake : (i : ℕ) (p : Proc) → get_elem? st.run i ≡ some p → is_sleeping p.state ≡ false
  pub inside : st.current < length st.run

get_elem?-inside : (xs : List Proc) (i : ℕ) → i < length xs → (p : Proc) × (get_elem? xs i ≡ some p)
get_elem?-inside [] i l = absurd (omega arith)
get_elem?-inside (x ∷ xs) zero l = (x, refl)
get_elem?-inside (x ∷ xs) (suc i) l = get_elem?-inside xs i (omega arith)

sched_awake :
    (st : Queues) (p : Proc)
    → get_elem? st.run st.current ≡ some p
    → is_sleeping p.state ≡ false
    → sched st
      ≡ some (record {
        run = set st.run st.current (record p { quanta = (p.quanta + 1) % 2 ^ 32 });
        sleep = st.sleep;
        current = next_place st.current (length st.run);
        switches = (st.switches + 1) % 2 ^ 32;
      })
unfolding sched
sched_awake st p h e = rw (h, e, sched) refl

next_place_inside : (current len : ℕ) → current < len → next_place current len < len
next_place_inside current len l = ground arith

-- One call, when all are awake.
sched-IsRunning :
    (st : Queues)
    → IsRunning st
    → (st' : Queues) × (sched st ≡ some st')
      × IsRunning st'
      × (length st'.run ≡ length st.run)
      × (st'.current ≡ next_place st.current (length st.run))
sched-IsRunning st good =
    let (p, h) = get_elem?-inside st.run st.current good.inside in
    let e = good.awake st.current p h in
    let p' : Proc = record p { quanta = (p.quanta + 1) % 2 ^ 32 } in
    let size = length-set st.run st.current p' in
    let inside = next_place_inside st.current (length st.run) good.inside in
    let after : Queues = record st {
      run = set st.run st.current p';
      current = next_place st.current (length st.run);
      switches = (st.switches + 1) % 2 ^ 32;
    } in
    (
      after,
      sched_awake st p h e,
      record {
        awake = (λ i q g. elim (get_elem?-set_cases st.run st.current i p' q g) [
          | inl same ↦ rw (← same) e
          | inr old ↦ good.awake i q old
        ]);
        inside = rw size inside;
      },
      size,
      refl,
    )

scheds_next : (k : ℕ) (st st' : Queues) → sched st ≡ some st' → scheds (suc k) st ≡ scheds k st'
unfolding scheds
scheds_next k st st' h = rw (h, scheds) refl

not_ltb : (a b : ℕ) → ltb a b ≡ false → b ≤ a
not_ltb a b h = ground arith

next_is :
    (current len i : ℕ)
    → current < len
    → i < len
    → (current + 1 ≡ i) ⊎ (current + 1 ≡ i + len)
    → next_place current len ≡ i
next_is current len i inside l ahead = ground arith

next_ahead :
    (current len i d : ℕ)
    → current < len
    → i < len
    → (current + suc (suc d) ≡ i) ⊎ (current + suc (suc d) ≡ i + len)
    → (next_place current len + suc d ≡ i) ⊎ (next_place current len + suc d ≡ i + len)
next_ahead current len i d inside l ahead = elim (Bool-cases (current + 1 == len)) [
  | inl e ↦
      (let last = eq_of_eqb (current + 1) len e in
        rw e (elim ahead [ inl x ↦ absurd (omega arith) | inr x ↦ inl (omega arith) ]))
  | inr e ↦ rw e (elim ahead [ inl x ↦ inl (omega arith) | inr x ↦ inr (omega arith) ])
]

-- The place `i` is reached in as many calls as it lies ahead.
scheds_reach :
    (d : ℕ) (st : Queues) (i : ℕ)
    → IsRunning st
    → i < length st.run
    → (st.current + suc d ≡ i) ⊎ (st.current + suc d ≡ i + length st.run)
    → (st' : Queues) × (scheds (suc d) st ≡ some st')
      × (st'.current ≡ i)
      × (length st'.run ≡ length st.run)
unfolding scheds
scheds_reach zero st i good l ahead =
    let (st1, e, good1, size, place) = sched-IsRunning st good in
    let inside = good.inside in
    let there : next_place st.current (length st.run) ≡ i =
      next_is st.current (length st.run) i inside l ahead in
    (st1, scheds_next 0 st st1 e, place ∙ there, size)
scheds_reach (suc d) st i good l ahead =
    let (st1, e, good1, size, place) = sched-IsRunning st good in
    let ahead1 = next_ahead st.current (length st.run) i d good.inside l ahead in
    let (st2, e2, there, size2) =
      scheds_reach d st1 i good1 (rw size l) (rw (size, place) ahead1) in
    (st2, scheds_next (suc d) st st1 e ∙ e2, there, size2 ∙ size)

-- When no process of the run queue is to sleep: every place in the queue, the current one too, is the current one after
-- at least one call of sched and at most as many as the queue has processes.
pub scheds_serve_all :
    (st : Queues) (i : ℕ)
    → IsRunning st
    → i < length st.run
    → (k : ℕ) × (st' : Queues) × (0 < k)
      × (k ≤ length st.run)
      × (scheds k st ≡ some st')
      × (st'.current ≡ i)
      × (length st'.run ≡ length st.run)
scheds_serve_all st i good l =
    let inside = good.inside in
    elim (Bool-cases (ltb st.current i)) [
      | inl e ↦
          (let before = lt_of_ltb st.current i e in
            let (st', r, there, size) =
              scheds_reach (i - st.current - 1) st i good l (inl (omega arith)) in
            (suc (i - st.current - 1), st', omega arith, omega arith, r, there, size))
      | inr e ↦
          (let before = not_ltb st.current i e in
            let (st', r, there, size) =
              scheds_reach (i + length st.run - st.current - 1) st i good l (inr (omega arith)) in
            (
              suc (i + length st.run - st.current - 1),
              st',
              omega arith,
              omega arith,
              r,
              there,
              size,
            ))
    ]
