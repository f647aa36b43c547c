-- ===== src/Net/Checksum/Tests.antt =====
-- Sums of short messages.
use m68k_system.Common.{
  ℕ, ◌/◌, ◌%◌, ◌≡◌, refl, arith, if◌then◌else◌, none, some, List, [], ◌∷◌, ◌++◌,
}
use m68k_system.Net.Checksum.{net_cksum}
use m68k_system.Net.Checksum.Verify.{AreWords, carries, total, net_cksum-append}

abbrev message : List ℕ
message = 69 ∷ 0 ∷ 0 ∷ 60 ∷ 255 ∷ 254 ∷ []

message-AreWords : AreWords message
message-AreWords =
    (omega arith, omega arith, (omega arith, omega arith, (omega arith, omega arith, tt)))

net_cksum-append_example :
    (c : ℕ) × (net_cksum 4096 message ≡ some c)
    × (net_cksum 4096 (message ++ c / 256 ∷ c % 256 ∷ [])
        ≡ some (if carries (total message) then 65535 else 0))
net_cksum-append_example =
    net_cksum-append 4096 message (omega arith) message-AreWords (omega arith)

-- A sum whose halves carry is not accepted by a receiver.
carrying : net_cksum 4096 (255 ∷ 255 ∷ 255 ∷ 255 ∷ 0 ∷ 1 ∷ []) ≡ some 65535
unfolding net_cksum
carrying = refl

refused : net_cksum 4096 (255 ∷ 255 ∷ 255 ∷ 255 ∷ 0 ∷ 1 ∷ 255 ∷ 255 ∷ []) ≡ some 65535
unfolding net_cksum
refused = refl

-- A buffer at an odd address is fatal.
odd_address : net_cksum 4097 message ≡ none
unfolding net_cksum
odd_address = refl
