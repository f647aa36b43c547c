-- ===== src/Kernel/Ticks.antt =====
-- The periodic callbacks of ayumos/kernel/tick.c: the chain of callbacks as a list, and the identifiers of those called
-- in place of the calls. A callback that changes the chain while it runs is not modelled.
mod Calls
mod Period
mod Chain
mod Tests
use m68k_system.Common.{
  ℕ, ◌+◌, ◌-◌, ◌%◌, ◌^◌, Bool, true, false, not, List, [], ◌∷◌, ◌++◌, ◌==◌, if◌then◌else◌, Code,
  success, einval, enomem, enoent,
}

-- `tick_callback_t`
pub record TickCallback : Type 0 where
  pub id : ℕ
  pub fn : ℕ
  pub arg : ℕ
  pub interval : ℕ
  pub counter : ℕ

-- `callbacks`, `tick_count` and `next_id`
pub record Ticks : Type 0 where
  pub callbacks : List TickCallback
  pub tick_count : ℕ
  pub next_id : ℕ

-- The counter after it is decremented.
pub counted_down : TickCallback → ℕ
counted_down c = (c.counter + 2 ^ 32 - 1) % 2 ^ 32

-- A callback after a tick.
pub step_callback : TickCallback → TickCallback
step_callback c =
    if counted_down c == 0
    then record c { counter = c.interval }
    else record c { counter = counted_down c }

-- The loop of tick: the callbacks that are called, and all of them after it.
pub run_callbacks : List TickCallback → List ℕ × List TickCallback
run_callbacks [] = ([], [])
run_callbacks (c ∷ cs) =
    let rest = run_callbacks cs in
    (if counted_down c == 0 then c.id ∷ rest.0 else rest.0, step_callback c ∷ rest.1)

-- tick: `disabled` says whether the timer could be disabled.
pub tick : Bool → Ticks → List ℕ × Ticks
tick disabled st =
    if disabled
    then (let ran = run_callbacks st.callbacks in
        (ran.0, record st { callbacks = ran.1; tick_count = (st.tick_count + 1) % 2 ^ 32 }))
    else ([], st)

-- tick_add_callback: its code, the state, and what `*id`, which holds `found`, holds after it. `memory` says whether
-- slab_alloc returns an entry.
pub tick_add_callback : Bool → ℕ → ℕ → ℕ → ℕ → Ticks → Code × Ticks × ℕ
tick_add_callback memory fn arg interval found st =
    let id = (st.next_id + 1) % 2 ^ 32 in
    let new : TickCallback = record {
      id = id;
      fn = fn;
      arg = arg;
      interval = interval;
      counter = interval;
    } in
    if interval == 0 then (einval, st, found) else if not memory then (enomem, st, found) else (
      success,
      record st { callbacks = st.callbacks ++ new ∷ []; next_id = id },
      if found == 0 then found else id,
    )

-- The loop of tick_remove_callback: whether there is an entry, and the chain without it.
pub remove_first : ℕ → List TickCallback → Bool × List TickCallback
remove_first id [] = (false, [])
remove_first id (c ∷ cs) =
    let rest = remove_first id cs in if c.id == id then (true, cs) else (rest.0, c ∷ rest.1)

-- tick_remove_callback
pub tick_remove_callback : ℕ → Ticks → Code × Ticks
tick_remove_callback id st =
    let removed = remove_first id st.callbacks in
    (if removed.0 then success else enoent, record st { callbacks = removed.1 })
