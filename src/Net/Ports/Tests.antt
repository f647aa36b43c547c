-- ===== src/Net/Ports/Tests.antt =====
-- The witness of Net/Ports, and a run on port 80.
use m68k_system.Common.{
  ℕ, zero, suc, ◌≡◌, refl, none, some, List, [], ◌∷◌, ◌++◌, length, arith, success,
}
use m68k_system.Net.Ports.{PortBitmaps, byte_nr, bitmap_for, ipv4_port_free}
use m68k_system.Net.Ports.Places.{ipv4_port_free_outside}

abbrev bytes_of : ℕ → ℕ → List ℕ
bytes_of v zero = []
bytes_of v (suc n) = v ∷ bytes_of v n

abbrev ports : PortBitmaps
ports = some (some (bytes_of 255 64) ∷ none ∷ some (bytes_of 255 64) ∷ []) ∷ []

ports_sized : (bitmap : List ℕ) → bitmap_for ports 1024 ≡ some bitmap → length bitmap ≡ 64
unfolding bitmap_for
ports_sized bitmap h = let same : bytes_of 255 64 ≡ bitmap = grind arith in rw (← same) refl

ipv4_port_free_outside_example : ipv4_port_free ports 1024 ≡ none
ipv4_port_free_outside_example =
    ipv4_port_free_outside ports 1024 ports_sized (omega arith) (omega arith)

low_port : ipv4_port_free ports 80 ≡ some (success, bytes_of 255 10 ++ 254 ∷ bytes_of 255 53)
unfolding ipv4_port_free bitmap_for byte_nr
low_port = refl
