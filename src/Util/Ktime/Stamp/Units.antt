-- ===== src/Util/Ktime/Stamp/Units.antt =====
-- The division by repeated subtraction of shifted units.
use native.Mathlib.Nat.{mul_assoc}
use m68k_system.Common.{
  ℕ, zero, suc, ◌+◌, ◌-◌, ◌*◌, ◌^◌, ◌<◌, ◌≡◌, refl, Bool-cases, inl, inr, leb, arith,
}
use m68k_system.Util.Ktime.Stamp.{take_units}

-- The count has grown by the quotient, and the rest is the remainder.
abbrev pub Divides : ℕ → ℕ → ℕ → ℕ × ℕ → Type 0
Divides unit n t r = (q : ℕ) × (r.0 ≡ n + q) × (t ≡ unit * q + r.1) × (r.1 < unit)

pub take_units-Divides :
    (unit steps n t : ℕ) → t < unit * 2 ^ steps → Divides unit n t (take_units unit steps n t)
unfolding take_units
take_units-Divides unit zero n t h = (0, omega arith, omega arith, omega arith)
take_units-Divides unit (suc step) n t h =
    let pow : 2 ^ suc step ≡ 2 ^ step * 2 = omega arith in
    let twice : unit * 2 ^ suc step ≡ unit * 2 ^ step * 2 =
      rw (pow, ← mul_assoc unit (2 ^ step) 2) refl in
    elim (Bool-cases (leb (unit * 2 ^ step) t)) [
      | inl big ↦
          let (q, e, f, l) =
            take_units-Divides unit step (n + 2 ^ step) (t - unit * 2 ^ step) (ground arith) in
          rw big (2 ^ step + q, omega arith, ground arith, l)
      | inr fits ↦ rw fits (take_units-Divides unit step n t (ground arith))
    ]
