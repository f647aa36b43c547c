-- ===== src/Kernel/Sched/Tests.antt =====
-- The witnesses of Kernel/Sched, on three processes.
use m68k_system.Common.{
  ℕ, zero, suc, ◌≤◌, ◌<◌, ◌≡◌, refl, false, none, some, [], ◌∷◌, length, get_elem?, arith,
}
use m68k_system.Kernel.Sched.{
  Proc, ps_runnable, ps_sleeping, Queues, is_sleeping, sched, proc_sleep, find_proc,
  proc_wake_by_id,
}
use m68k_system.Kernel.Sched.Rounds.{scheds, scheds_serve_all}
use m68k_system.Kernel.Sched.Waking.{proc_wake_by_id-proc_sleep}

abbrev proc : ℕ → Proc
proc pid = record { id = pid; state = ps_runnable; quanta = 0 }

abbrev three : Queues
three = record { run = proc 1 ∷ proc 2 ∷ proc 3 ∷ []; sleep = []; current = 1; switches = 0 }

three_awake : (i : ℕ) (p : Proc) → get_elem? three.run i ≡ some p → is_sleeping p.state ≡ false
three_awake zero p h = let e : proc 1 ≡ p = grind arith in rw (← e) refl
three_awake (suc zero) p h = let e : proc 2 ≡ p = grind arith in rw (← e) refl
three_awake (suc (suc zero)) p h = let e : proc 3 ≡ p = grind arith in rw (← e) refl
three_awake (suc (suc (suc i))) p h = absurd (grind arith)

scheds_serve_all_example :
    (k : ℕ) × (st' : Queues) × (0 < k)
    × (k ≤ 3)
    × (scheds k three ≡ some st')
    × (st'.current ≡ 0)
    × (length st'.run ≡ 3)
scheds_serve_all_example =
    scheds_serve_all three 0 (record { awake = three_awake; inside = omega arith }) (omega arith)

proc_wake_by_id-proc_sleep_example :
    (st1 : Queues) × (proc_sleep three ≡ some st1)
    × (st1.run ≡ proc 1 ∷ proc 3 ∷ [])
    × (st1.sleep ≡ record { id = 2; state = ps_sleeping; quanta = 1 } ∷ [])
    × ((proc_wake_by_id 2 st1).run
        ≡ record { id = 2; state = ps_runnable; quanta = 1 } ∷ proc 1 ∷ proc 3 ∷ [])
    × ((proc_wake_by_id 2 st1).sleep ≡ [])
unfolding find_proc
proc_wake_by_id-proc_sleep_example = proc_wake_by_id-proc_sleep three (proc 2) refl refl refl

-- The place that is current while the only process in the run queue goes to sleep is not in the run queue after it.
abbrev one_left : Queues
one_left = record { run = proc 1 ∷ []; sleep = []; current = 0; switches = 0 }

last_one : proc_sleep one_left ≡ none
unfolding proc_sleep sched
last_one = refl
