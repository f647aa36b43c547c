-- ===== src/Klibc/Random/Tests.antt =====
-- The first numbers of the sequence.
use m68k_system.Common.{◌≡◌, refl, pos, negsuc}
use m68k_system.Klibc.Random.{rand, rand32, srand}

first : rand (srand 1) ≡ (pos 1103527590, 1103527590)
unfolding rand
first = refl

-- The second one is negative.
second : rand (rand (srand 1)).1 ≡ (negsuc 1770082072, 2524885223)
unfolding rand
second = refl

same_sequence : rand32 1 ≡ rand 1
unfolding rand rand32
same_sequence = refl
