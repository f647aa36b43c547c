-- ===== src/Kernel/Ticks/Chain.antt =====
-- The chain of callbacks: a callback that is added can be removed.
use m68k_system.Common.{
  ℕ, suc, ◌+◌, ◌%◌, ◌^◌, ◌≤◌, ◌<◌, ◌≡◌, refl, true, false, some, List, [], ◌∷◌, ◌++◌, ◌==◌,
  get_elem?, arith, success,
}
use m68k_system.Kernel.Ticks.{
  TickCallback, Ticks, remove_first, tick_add_callback, tick_remove_callback,
}

-- No identifier in use is higher than the last one given.
unfoldable pub AreGiven : Ticks → Type 0
AreGiven st = (j : ℕ) (c : TickCallback) → get_elem? st.callbacks j ≡ some c → c.id ≤ st.next_id

remove_first_appended :
    (id : ℕ) (cs : List TickCallback) (new : TickCallback)
    → ((j : ℕ) (c : TickCallback) → get_elem? cs j ≡ some c → c.id < id)
    → new.id ≡ id
    → remove_first id (cs ++ new ∷ []) ≡ (true, cs)
unfolding remove_first
remove_first_appended id [] new lower e =
    let this : (new.id == id) ≡ true = ground arith in rw this refl
remove_first_appended id (c ∷ cs) new lower e =
    let less = lower 0 c refl in
    let other : (c.id == id) ≡ false = ground arith in
    let ih = remove_first_appended id cs new (λ j d h. lower (suc j) d h) e in rw (other, ih) refl

tick_add_callback_added :
    (fn arg interval found : ℕ) (st : Ticks)
    → 0 < interval
    → (tick_add_callback true fn arg interval found st).0 ≡ success
      × ((tick_add_callback true fn arg interval found st).1 ≡ record st {
        callbacks =
            st.callbacks
            ++ record {
              id = (st.next_id + 1) % 2 ^ 32;
              fn = fn;
              arg = arg;
              interval = interval;
              counter = interval;
            }
              ∷ [];
        next_id = (st.next_id + 1) % 2 ^ 32;
      })
unfolding tick_add_callback
tick_add_callback_added fn arg interval found st pos =
    let some_interval : (interval == 0) ≡ false = ground arith in
    (rw some_interval refl, rw some_interval refl)

-- For an interval above 0, when memory is given and the last identifier given is below 2 ^ 32 - 1 and not below any in use:
-- a callback is added, and the removal of the identifier that follows the last one succeeds and leaves the chain as it
-- was, with that identifier given.
pub tick_remove_callback-tick_add_callback :
    (fn arg interval found : ℕ) (st : Ticks)
    → 0 < interval
    → st.next_id + 1 < 2 ^ 32
    → AreGiven st
    → (let added = tick_add_callback true fn arg interval found st in
        (added.0 ≡ success)
        × (tick_remove_callback (st.next_id + 1) added.1
            ≡ (success, record st { next_id = st.next_id + 1 })))
unfolding tick_remove_callback AreGiven
tick_remove_callback-tick_add_callback fn arg interval found st pos bound given =
    let (done, state) = tick_add_callback_added fn arg interval found st pos in
    let id : (st.next_id + 1) % 2 ^ 32 ≡ st.next_id + 1 = omega arith in
    let new : TickCallback = record {
      id = st.next_id + 1;
      fn = fn;
      arg = arg;
      interval = interval;
      counter = interval;
    } in
    let gone =
      remove_first_appended (st.next_id + 1) st.callbacks new
        (λ j c h. let l = given j c h in omega arith) refl in
    (done, rw (state, id, gone) refl)
