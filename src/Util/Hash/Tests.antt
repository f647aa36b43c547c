-- ===== src/Util/Hash/Tests.antt =====
-- The hash of a published example.
use m68k_system.Common.{◌≡◌, refl, [], ◌∷◌}
use m68k_system.Util.Hash.{fnv1a32, str_sum}

letter_a : fnv1a32 (b'a' ∷ []) ≡ 0xe40c292c
unfolding fnv1a32
letter_a = refl

two_letters : str_sum (b'a' ∷ b'b' ∷ []) ≡ 195
unfolding str_sum
two_letters = refl
