-- ===== src/Net/Ports.antt =====
-- The release of ports, ipv4_port_free of ayumos/kernel/net/ipv4.c: a table of pointers to tables of pointers to bitmaps,
-- each `none` for NULL.
mod Places
mod Tests
use Prim.Native.Nat.{bit_and}
use m68k_system.Common.{
  ℕ, ◌+◌, ◌-◌, ◌*◌, ◌/◌, ◌%◌, ◌^◌, not, Option, none, some, List, ◌==◌, if◌then◌else◌, get_elem?,
  set, ◌>>=◌, Code, success, enoent,
}

-- IPV4_PORTS_PER_BITMAP and IPV4_PORTS_PER_SLAB
abbrev pub ipv4_ports_per_bitmap : ℕ
ipv4_ports_per_bitmap = 512

abbrev pub ipv4_ports_per_slab : ℕ
ipv4_ports_per_slab = 8192

-- `ipv4_port_alloc_bitmap_t`
abbrev pub PortBitmaps : Type 0
PortBitmaps = List (Option (List (Option (List ℕ))))

-- slab_nr, bitmap_nr and byte_nr of a port, of 16 bits each.
abbrev pub slab_nr : ℕ → ℕ
slab_nr port = port / ipv4_ports_per_slab

abbrev pub bitmap_nr : ℕ → ℕ
bitmap_nr port =
    (port / ipv4_ports_per_bitmap + 2 ^ 16 - slab_nr port * (port / ipv4_ports_per_slab)) % 2 ^ 16

pub byte_nr : ℕ → ℕ
byte_nr port =
    (port / 8
      + 2 ^ 32
      - (slab_nr port * (port / ipv4_ports_per_slab)
          + bitmap_nr port * (port / ipv4_ports_per_bitmap)))
    % 2 ^ 16

-- The pointer at an index of a table, where it is not NULL.
abbrev pub follow {ℓ} : {A : Type ℓ} → List (Option A) → ℕ → Option A
follow table i = get_elem? table i >>= λ p. p

-- The bitmap for a port.
pub bitmap_for : PortBitmaps → ℕ → Option (List ℕ)
bitmap_for alloc_bitmap port =
    follow alloc_bitmap (slab_nr port) >>= λ slab. follow slab (bitmap_nr port)

-- ipv4_port_free: its code, and the bitmap for the port after it. There is no result when a pointer is NULL or the byte
-- lies outside of the bitmap.
pub ipv4_port_free : PortBitmaps → ℕ → Option (Code × List ℕ)
ipv4_port_free alloc_bitmap port = bitmap_for alloc_bitmap port >>= λ bitmap.
    get_elem? bitmap (byte_nr port) >>= λ byte.
    (let bit = 2 ^ (port % 8) in
      if not (bit_and byte bit == 0)
      then some (success, set bitmap (byte_nr port) (bit_and byte (255 - bit)))
      else some (enoent, bitmap))
