-- ===== src/Kernel/Ticks/Tests.antt =====
-- The witnesses of Kernel/Ticks, on two callbacks.
use m68k_system.Common.{ℕ, zero, suc, ◌+◌, ◌*◌, ◌<◌, ◌≡◌, refl, true, [], ◌∷◌, arith, success}
use m68k_system.Kernel.Ticks.{
  TickCallback, Ticks, counted_down, step_callback, run_callbacks, tick, tick_add_callback,
  tick_remove_callback,
}
use m68k_system.Kernel.Ticks.Calls.{count, ticks, IsAlone}
use m68k_system.Kernel.Ticks.Period.{ticks_call_once_an_interval}
use m68k_system.Kernel.Ticks.Chain.{AreGiven, tick_remove_callback-tick_add_callback}

abbrev slow : TickCallback
slow = record { id = 1; fn = 4096; arg = 0; interval = 100; counter = 100 }

abbrev fast : TickCallback
fast = record { id = 2; fn = 8192; arg = 0; interval = 3; counter = 3 }

abbrev both_callbacks : Ticks
both_callbacks = record { callbacks = slow ∷ fast ∷ []; tick_count = 0; next_id = 2 }

fast-IsAlone : IsAlone 1 2 both_callbacks.callbacks
unfolding IsAlone
fast-IsAlone zero c h ne =
    let e : slow ≡ c = grind arith in rw (← e) (λ x. absurd (omega (arith, x)))
fast-IsAlone (suc zero) c h ne = absurd (ne refl)
fast-IsAlone (suc (suc j)) c h ne = absurd (grind arith)

ticks_call_once_an_interval_example :
    (q : ℕ) × (r : ℕ) × (10 ≡ q * 3 + r) × (r < 3) × (count 2 (ticks 10 both_callbacks).0 ≡ q)
ticks_call_once_an_interval_example =
    ticks_call_once_an_interval 1 10 fast both_callbacks fast-IsAlone refl refl (omega arith)
      (omega arith)

called : (ticks 10 both_callbacks).0 ≡ 2 ∷ 2 ∷ 2 ∷ []
unfolding ticks tick run_callbacks counted_down step_callback
called = refl

given : AreGiven both_callbacks
unfolding AreGiven
given zero c h = let e : slow ≡ c = grind arith in rw (← e) (omega arith)
given (suc zero) c h = let e : fast ≡ c = grind arith in rw (← e) (omega arith)
given (suc (suc j)) c h = absurd (grind arith)

tick_remove_callback-tick_add_callback_example :
    (let added = tick_add_callback true 12288 0 5 0 both_callbacks in
      (added.0 ≡ success)
      × (tick_remove_callback 3 added.1 ≡ (success, record both_callbacks { next_id = 3 })))
tick_remove_callback-tick_add_callback_example =
    tick_remove_callback-tick_add_callback 12288 0 5 0 both_callbacks (omega arith) (omega arith)
      given

-- The identifier is stored only where the place for it holds another than 0.
id_not_stored : (tick_add_callback true 12288 0 5 0 both_callbacks).2 ≡ 0
unfolding tick_add_callback
id_not_stored = refl
