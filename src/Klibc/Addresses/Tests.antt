-- ===== src/Klibc/Addresses/Tests.antt =====
-- Addresses read.
use m68k_system.Common.{◌≡◌, refl, some, none, [], ◌∷◌}
use m68k_system.Klibc.Addresses.{strtoipv4}

-- 10.0.0.1
ten : strtoipv4 (b'1' ∷ b'0' ∷ b'.' ∷ b'0' ∷ b'.' ∷ b'0' ∷ b'.' ∷ b'1' ∷ []) ≡ some 0x0a000001
unfolding strtoipv4
ten = refl

-- 1.2.3 and 1.2.3.256
too_few : strtoipv4 (b'1' ∷ b'.' ∷ b'2' ∷ b'.' ∷ b'3' ∷ []) ≡ none
unfolding strtoipv4
too_few = refl

too_large : strtoipv4 (b'1' ∷ b'.' ∷ b'2' ∷ b'.' ∷ b'3' ∷ b'.' ∷ b'2' ∷ b'5' ∷ b'6' ∷ []) ≡ none
unfolding strtoipv4
too_large = refl
