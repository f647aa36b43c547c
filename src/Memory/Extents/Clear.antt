-- ===== src/Memory/Extents/Clear.antt =====
-- mem_zero_extents clears what matches.
use m68k_system.Common.{
  ℕ, ◌+◌, ◌≡◌, ◌∙◌, refl, Bool, Bool-cases, inl, inr, true, false, ◌&&◌, ◌||◌, List, [], ◌∷◌, ltb,
  leb, if◌then◌else◌, arith, Store,
}
use m68k_system.Klibc.Bytes.{bzero}
use m68k_system.Klibc.Bytes.Fill.{bzero-Filled}
use m68k_system.Memory.Extents.{Extent, matches, mem_zero_extents}

-- The address lies in an extent that matches.
abbrev pub covered : ℕ → List Extent → ℕ → Bool
covered fl [] a = false
covered fl (e ∷ es) a = (matches fl e && leb e.base a && ltb a (e.base + e.len)) || covered fl es a

or_choice :
    (here later : Bool) (x : ℕ)
    → (if later then 0 else (if here then 0 else x)) ≡ (if here || later then 0 else x)
or_choice true true x = refl
or_choice true false x = refl
or_choice false later x = refl

-- For all flags, extents and stores: after mem_zero_extents the bytes of all extents that match are zero, and the
-- other bytes are what they were.
pub mem_zero_extents-covered :
    (fl : ℕ) (es : List Extent) (m : Store) (a : ℕ)
    → mem_zero_extents fl es m a ≡ (if covered fl es a then 0 else m a)
unfolding mem_zero_extents
mem_zero_extents-covered fl [] m a = refl
mem_zero_extents-covered fl (e ∷ es) m a =
    mem_zero_extents-covered fl es (if matches fl e then bzero e.base e.len m else m) a
    ∙ step (covered fl es a)
  where
    first :
        (if matches fl e then bzero e.base e.len m else m) a
        ≡ (if matches fl e && leb e.base a && ltb a (e.base + e.len) then 0 else m a)
    first = elim (Bool-cases (matches fl e)) [
      | inl fits ↦ rw fits (elim (Bool-cases (leb e.base a && ltb a (e.base + e.len))) [
        | inl inside ↦
            let f = bzero-Filled e.base e.len m in
            rw inside (f.inside a (ground arith) (ground arith))
        | inr outside ↦
            let f = bzero-Filled e.base e.len m in rw outside (f.outside a (ground arith))
      ])
      | inr misfit ↦ rw misfit refl
    ]

    step :
        (later : Bool)
        → (if later then 0 else (if matches fl e then bzero e.base e.len m else m) a)
          ≡ (if (matches fl e && leb e.base a && ltb a (e.base + e.len)) || later then 0 else m a)
    step later =
        rw first (or_choice (matches fl e && leb e.base a && ltb a (e.base + e.len)) later (m a))
