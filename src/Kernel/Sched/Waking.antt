-- ===== src/Kernel/Sched/Waking.antt =====
-- A process that sleeps can be woken.
use m68k_system.Common.{
  ℕ, zero, suc, ◌+◌, ◌%◌, ◌^◌, ◌≡◌, refl, ap, inl, inr, true, false, none, some, List, [], ◌∷◌,
  ◌++◌, ◌==◌, if◌then◌else◌, ltb, length, get_elem?, set, length-set, get_elem?-set_self,
  get_elem?-append_last, length-get_elem?, Bool-cases, map_none, arith,
}
use m68k_system.Kernel.Sched.{
  Proc, ps_runnable, ps_sleeping, Queues, is_sleeping, remove_at, next_place, sched, proc_sleep,
  find_proc, proc_wake_by_id,
}

remove_at-set : (xs : List Proc) (i : ℕ) (p : Proc) → remove_at (set xs i p) i ≡ remove_at xs i
remove_at-set [] i p = refl
remove_at-set (x ∷ xs) zero p = refl
remove_at-set (x ∷ xs) (suc i) p = ap (λ (ys : List Proc). x ∷ ys) (remove_at-set xs i p)

remove_at_last : (xs : List Proc) (p : Proc) → remove_at (xs ++ p ∷ []) (length xs) ≡ xs
remove_at_last [] p = refl
remove_at_last (x ∷ xs) p = ap (λ (ys : List Proc). x ∷ ys) (remove_at_last xs p)

find_proc_last :
    (pid : ℕ) (xs : List Proc) (p : Proc)
    → find_proc pid xs ≡ none
    → (p.id == pid) ≡ true
    → find_proc pid (xs ++ p ∷ []) ≡ some (length xs)
unfolding find_proc
find_proc_last pid [] p h e = rw e refl
find_proc_last pid (x ∷ xs) p h e = elim (Bool-cases (x.id == pid)) [
  | inl f ↦ absurd (let h' = (rw (f, find_proc) at h) in grind arith)
  | inr f ↦
      (let ih = find_proc_last pid xs p (map_none (find_proc pid xs) (rw (f, find_proc) at h)) e in
        rw (f, ih) refl)
]

sched_asleep :
    (st : Queues) (p : Proc)
    → get_elem? st.run st.current ≡ some p
    → is_sleeping p.state ≡ true
    → (length st.run == 1) ≡ false
    → sched st
      ≡ some (record {
        run = remove_at st.run st.current;
        sleep = st.sleep ++ record p { quanta = (p.quanta + 1) % 2 ^ 32 } ∷ [];
        current =
            (if ltb st.current (next_place st.current (length st.run))
              then st.current
              else next_place st.current (length st.run));
        switches = (st.switches + 1) % 2 ^ 32;
      })
unfolding sched
sched_asleep st p h e f = rw (h, e, f, sched) refl

wake_found :
    (pid i : ℕ) (st : Queues) (p : Proc)
    → find_proc pid st.sleep ≡ some i
    → get_elem? st.sleep i ≡ some p
    → proc_wake_by_id pid st ≡ record st {
      run = record p { state = ps_runnable } ∷ st.run;
      sleep = remove_at st.sleep i;
      current = st.current + 1;
    }
unfolding proc_wake_by_id
wake_found pid i st p h g = rw (h, g, proc_wake_by_id) refl

-- When the current process is not the only one in the run queue and no process with its identifier sleeps: proc_sleep takes
-- it out of the run queue, the sleep queue has it as its last one, and to wake its identifier takes it out of the sleep
-- queue again and puts it before the others in the run queue, runnable, with one quantum more.
pub proc_wake_by_id-proc_sleep :
    (st : Queues) (p : Proc)
    → get_elem? st.run st.current ≡ some p
    → (length st.run == 1) ≡ false
    → find_proc p.id st.sleep ≡ none
    → (st1 : Queues) × (proc_sleep st ≡ some st1)
      × (st1.run ≡ remove_at st.run st.current)
      × (st1.sleep
          ≡ st.sleep
            ++ record { id = p.id; state = ps_sleeping; quanta = (p.quanta + 1) % 2 ^ 32 } ∷ [])
      × ((proc_wake_by_id p.id st1).run
          ≡ record { id = p.id; state = ps_runnable; quanta = (p.quanta + 1) % 2 ^ 32 }
            ∷ remove_at st.run st.current)
      × ((proc_wake_by_id p.id st1).sleep ≡ st.sleep)
unfolding proc_sleep
proc_wake_by_id-proc_sleep st p h many none_asleep =
    let marked : Proc = record p { state = ps_sleeping } in
    let st0 : Queues = record st { run = set st.run st.current marked } in
    let inside = length-get_elem? st.run st.current p h in
    let here = get_elem?-set_self st.run st.current marked inside in
    let size = length-set st.run st.current marked in
    let slept = sched_asleep st0 marked here refl (rw size many) in
    let asleep : Proc = record {
      id = p.id;
      state = ps_sleeping;
      quanta = (p.quanta + 1) % 2 ^ 32;
    } in
    let st1 : Queues = record {
      run = remove_at (set st.run st.current marked) st.current;
      sleep = st.sleep ++ asleep ∷ [];
      current =
          (if ltb st.current (next_place st.current (length (set st.run st.current marked)))
            then st.current
            else next_place st.current (length (set st.run st.current marked)));
      switches = (st.switches + 1) % 2 ^ 32;
    } in
    let gone = remove_at-set st.run st.current marked in
    let found = find_proc_last p.id st.sleep asleep none_asleep (ground arith) in
    let woken =
      wake_found p.id (length st.sleep) st1 asleep found (get_elem?-append_last st.sleep asleep) in
    (
      st1,
      rw (h, proc_sleep) slept,
      gone,
      refl,
      rw (woken, gone) refl,
      rw woken (remove_at_last st.sleep asleep),
    )
