-- ===== src/Util/Checksum/Tests.antt =====
-- The checksum of "abcde", and the theorem at it.
use m68k_system.Common.{ℕ, ◌≡◌, refl, arith, List, [], ◌∷◌}
use m68k_system.Util.Checksum.{fletcher16, blocks, add_byte, fold_both}
use m68k_system.Util.Checksum.Sums.{plain, IsChecksum, fletcher16-IsChecksum}

abbrev abcde : List ℕ
abcde = 97 ∷ 98 ∷ 99 ∷ 100 ∷ 101 ∷ []

fletcher16-abcde : fletcher16 abcde ≡ 0xc8f0
unfolding fletcher16 blocks add_byte fold_both
fletcher16-abcde = refl

fletcher16-IsChecksum_example : IsChecksum (fletcher16 abcde) (plain (0, 0) abcde)
fletcher16-IsChecksum_example = fletcher16-IsChecksum abcde (omega arith)
