-- ===== src/Kernel/Sched.antt =====
-- The scheduler, ayumos/kernel/sched.c, and the sleeping and waking of ayumos/kernel/process.c. A queue is the list of its
-- processes in order, and the current process is its place in the run queue. What concerns the processor and the memory of
-- processes is left out.
mod Rounds
mod Waking
mod Tests
use m68k_system.Common.{
  ℕ, zero, suc, ◌+◌, ◌-◌, ◌%◌, ◌^◌, Bool, true, false, Option, none, some, List, [], ◌∷◌, ◌++◌, ltb,
  ◌==◌, if◌then◌else◌, length, get_elem?, set,
}

-- `proc_state_t`
pub data ProcState : Type 0 where
  ps_unborn ps_runnable ps_sleeping ps_exited : ProcState

abbrev pub is_sleeping : ProcState → Bool
is_sleeping ps_unborn = false
is_sleeping ps_runnable = false
is_sleeping ps_exited = false
is_sleeping ps_sleeping = true

-- `proc_t`
pub record Proc : Type 0 where
  pub id : ℕ
  pub state : ProcState
  pub quanta : ℕ

-- g_run_queue, g_sleep_queue, g_current_proc and g_ncontext_switches
pub record Queues : Type 0 where
  pub run : List Proc
  pub sleep : List Proc
  pub current : ℕ
  pub switches : ℕ

-- A list without its element `i`.
abbrev pub remove_at {ℓ} : {A : Type ℓ} → List A → ℕ → List A
remove_at [] i = []
remove_at (x ∷ xs) zero = xs
remove_at (x ∷ xs) (suc i) = x ∷ remove_at xs i

-- The process behind the current one, or the first.
abbrev pub next_place : ℕ → ℕ → ℕ
next_place current len = if current + 1 == len then 0 else current + 1

-- sched. There is no result when the current process is not in the run queue, and when it is the only one there and
-- sleeps: the code then leaves it the current process, in the sleep queue.
pub sched : Queues → Option Queues
sched st = elim (get_elem? (st.run) (st.current)) [
  | none ↦ none
  | some p ↦
      (let next = next_place st.current (length st.run) in
        let p' : Proc = record p { quanta = (p.quanta + 1) % 2 ^ 32 } in
        let switches = (st.switches + 1) % 2 ^ 32 in
        let asleep : Queues = record {
          run = remove_at st.run st.current;
          sleep = st.sleep ++ p' ∷ [];
          current = (if ltb st.current next then st.current else next);
          switches = switches;
        } in
        let awake : Queues = record st {
          run = set st.run st.current p';
          current = next;
          switches = switches;
        } in
        if is_sleeping p.state
        then (if length st.run == 1 then none else some asleep)
        else some awake)
]

-- proc_sleep: the current process is marked, and the processor switches, through sched.
pub proc_sleep : Queues → Option Queues
proc_sleep st = elim (get_elem? (st.run) (st.current)) [
  | none ↦ none
  | some p ↦ sched (record st { run = set st.run st.current (record p { state = ps_sleeping }) })
]

-- The place of a process in the sleep queue.
pub find_proc : ℕ → List Proc → Option ℕ
find_proc pid [] = none
find_proc pid (p ∷ ps) =
    let rest = find_proc pid ps in
    if p.id == pid then some 0 else elim rest [ none ↦ none | some i ↦ some (suc i) ]

-- proc_wake_by_id: the process becomes the first of the run queue, the current one stays so.
pub proc_wake_by_id : ℕ → Queues → Queues
proc_wake_by_id pid st = elim (find_proc pid (st.sleep)) [
  | none ↦ st
  | some i ↦ elim (get_elem? (st.sleep) i) [
    | none ↦ st
    | some p ↦ record st {
      run = record p { state = ps_runnable } ∷ st.run;
      sleep = remove_at st.sleep i;
      current = st.current + 1;
    }
  ]
]
