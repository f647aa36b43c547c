-- ===== src/Klibc/Substring/Tests.antt =====
-- Searches for substrings.
use m68k_system.Common.{◌≡◌, refl, some, none, [], ◌∷◌}
use m68k_system.Klibc.Substring.{strstr}

found : strstr (b'b' ∷ b'a' ∷ b'n' ∷ b'd' ∷ []) (b'a' ∷ b'n' ∷ []) ≡ some 1
unfolding strstr
found = refl

-- "aab" is in "aaab", but is not found.
missed : strstr (b'a' ∷ b'a' ∷ b'a' ∷ b'b' ∷ []) (b'a' ∷ b'a' ∷ b'b' ∷ []) ≡ none
unfolding strstr
missed = refl
