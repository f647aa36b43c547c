-- ===== src/Kernel/Ticks/Period.antt =====
-- When a callback is called.
use m68k_system.Common.{
  ℕ, zero, suc, ◌+◌, ◌-◌, ◌*◌, ◌%◌, ◌^◌, ◌<◌, ◌≡◌, ◌∙◌, refl, ap, inl, inr, true, false, some, ◌==◌,
  if◌then◌else◌, get_elem?, Bool-cases, eq_of_eqb, arith,
}
use m68k_system.Kernel.Ticks.{TickCallback, Ticks, counted_down, step_callback, tick}
use m68k_system.Kernel.Ticks.Calls.{
  count, ticks, IsAlone, run_callbacks-get, run_callbacks-IsAlone, run_callbacks-count,
  count-append,
}

-- A callback after `r` ticks of its interval.
abbrev pub after : ℕ → TickCallback → TickCallback
after r c = record c { counter = c.interval - r }

-- A tick in the middle of an interval, and at its end.
step_middle :
    (r : ℕ) (c : TickCallback)
    → suc r < c.interval
    → c.interval < 2 ^ 32
    → ((counted_down (after r c) == 0) ≡ false) × (step_callback (after r c) ≡ after (suc r) c)
unfolding counted_down step_callback
step_middle r c l b =
    let down : (c.interval - r + 2 ^ 32 - 1) % 2 ^ 32 ≡ c.interval - suc r = omega arith in
    let more : (c.interval - suc r == 0) ≡ false = ground arith in
    (rw (down, more) refl, rw (down, more) refl)

step_end :
    (r : ℕ) (c : TickCallback)
    → suc r ≡ c.interval
    → c.interval < 2 ^ 32
    → ((counted_down (after r c) == 0) ≡ true) × (step_callback (after r c) ≡ after 0 c)
unfolding counted_down step_callback
step_end r c l b =
    let down : (c.interval - r + 2 ^ 32 - 1) % 2 ^ 32 ≡ 0 = omega arith in
    let whole : c.interval - 0 ≡ c.interval = omega arith in (rw down refl, rw (down, whole) refl)

-- The callback `i` after `k` ticks, which are `q` whole intervals and `r` ticks.
record Passed (i x k : ℕ) (c : TickCallback) (st : Ticks) : Type 0 where
  pub q : ℕ
  pub r : ℕ
  pub whole : k ≡ q * c.interval + r
  pub part : r < c.interval
  pub called : count x (ticks k st).0 ≡ q
  pub now : get_elem? (ticks k st).1.callbacks i ≡ some (after r c)
  pub alone : IsAlone i x (ticks k st).1.callbacks

tick_counted :
    (i x : ℕ) (c : TickCallback) (st : Ticks)
    → IsAlone i x st.callbacks
    → get_elem? st.callbacks i ≡ some c
    → c.id ≡ x
    → (count x (tick true st).0 ≡ (if counted_down c == 0 then 1 else 0))
      × (get_elem? (tick true st).1.callbacks i ≡ some (step_callback c))
      × IsAlone i x (tick true st).1.callbacks
unfolding tick
tick_counted i x c st alone h e = (
  run_callbacks-count i x st.callbacks c alone h e,
  run_callbacks-get st.callbacks i c h,
  run_callbacks-IsAlone i x st.callbacks alone,
)

ticks-Passed :
    (i x k : ℕ) (c : TickCallback) (st : Ticks)
    → IsAlone i x st.callbacks
    → get_elem? st.callbacks i ≡ some (after 0 c)
    → c.id ≡ x
    → 0 < c.interval
    → c.interval < 2 ^ 32
    → Passed i x k c st
unfolding ticks count
ticks-Passed i x zero c st alone h e pos bound = record {
  q = 0;
  r = 0;
  whole = omega arith;
  part = pos;
  called = refl;
  now = h;
  alone = alone;
}
ticks-Passed i x (suc k) c st alone h e pos bound =
    let p = ticks-Passed i x k c st alone h e pos bound in
    let r = p.r in
    let (called, now, alone') = tick_counted i x (after r c) (ticks k st).1 p.alone p.now e in
    let sum = count-append x (ticks k st).0 (tick true (ticks k st).1).0 in
    let whole = p.whole in
    let part = p.part in
    let before = p.called in
    elim (Bool-cases (suc r == c.interval)) [
      | inl f ↦
          (let last = eq_of_eqb (suc r) c.interval f in
            let (zero_now, again) = step_end r c last bound in
            let more : suc p.q * c.interval ≡ p.q * c.interval + c.interval = omega arith in
            let once : count x (tick true (ticks k st).1).0 ≡ 1 = called ∙ rw zero_now refl in
            record {
              q = suc p.q;
              r = 0;
              whole = omega arith;
              part = pos;
              called = omega arith;
              now = now ∙ ap some again;
              alone = alone';
            })
      | inr f ↦
          (let l : suc r < c.interval = ground arith in
            let (more_now, again) = step_middle r c l bound in
            let not_now : count x (tick true (ticks k st).1).0 ≡ 0 = called ∙ rw more_now refl in
            record {
              q = p.q;
              r = suc r;
              whole = omega arith;
              part = l;
              called = omega arith;
              now = now ∙ ap some again;
              alone = alone';
            })
    ]

-- For a callback that is the only one with its identifier, with an interval from 1 to 2 ^ 32 - 1 that has just begun:
-- after any number of ticks, each of which could disable the timer, it has been called exactly once for each whole
-- interval that has passed.
pub ticks_call_once_an_interval :
    (i k : ℕ) (c : TickCallback) (st : Ticks)
    → IsAlone i c.id st.callbacks
    → get_elem? st.callbacks i ≡ some c
    → c.counter ≡ c.interval
    → 0 < c.interval
    → c.interval < 2 ^ 32
    → (q : ℕ) × (r : ℕ) × (k ≡ q * c.interval + r)
      × (r < c.interval)
      × (count c.id (ticks k st).0 ≡ q)
ticks_call_once_an_interval i k c st alone h fresh pos bound =
    let whole : c.interval - 0 ≡ c.counter = omega arith in
    let start : get_elem? st.callbacks i ≡ some (after 0 c) = rw whole h in
    let p = ticks-Passed i c.id k c st alone start refl pos bound in
    (p.q, p.r, p.whole, p.part, p.called)
