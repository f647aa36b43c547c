-- ===== src/Net/Packet.antt =====
-- Network packets, ayumos/kernel/net/packet.c, and their buffers, buffer_init and buffer_deinit of
-- ayumos/kernel/util/buffer.c. Pointers are addresses, 0 for NULL. What kmalloc returns and what the routing lookup
-- returns are arguments.
mod Bounds
mod Tests
use m68k_system.Common.{
  ℕ, ◌+◌, ◌-◌, ◌%◌, ◌^◌, Bool, not, Option, none, some, ltb, ◌==◌, if◌then◌else◌, Code, success,
  enomem, einval, is_success,
}

-- `net_protocol_t`
pub data Protocol : Type 0 where
  np_unknown np_raw np_ethernet np_arp np_ipv4 np_ipv6 np_tcp np_udp np_icmp np_invalid : Protocol

-- `buffer_t`, with its contents left in memory.
pub record Buffer : Type 0 where
  pub len : ℕ
  pub addr : ℕ

-- `net_packet_t`
pub record Packet : Type 0 where
  pub iface : ℕ
  pub proto : Protocol
  pub start : ℕ
  pub len : ℕ
  pub raw : Buffer

-- buffer_init, where kmalloc returns `p`; `none` is -ENOMEM.
pub buffer_init : ℕ → ℕ → Option Buffer
buffer_init p len =
    if not (len == 0)
    then (if p == 0 then none else some (record { len = len; addr = p }))
    else some (record { len = 0; addr = 0 })

-- buffer_deinit
pub buffer_deinit : Buffer → Buffer
buffer_deinit buf = if not (buf.len == 0) then record { len = 0; addr = 0 } else buf

-- net_packet_create: `object` and `p` are what the two calls of kmalloc return; `none` is -ENOMEM. The members
-- other than `raw` are as memory has them, in `found`.
pub net_packet_create : ℕ → ℕ → Packet → ℕ → Option Packet
unfolding buffer_init
net_packet_create object p found len =
    let packet : Option Packet = elim (buffer_init p len) [
      | none ↦ none
      | some raw ↦ some (record found { raw = raw })
    ] in
    if object == 0 then none else packet

-- net_packet_reset
pub net_packet_reset : Packet → Packet
net_packet_reset packet = record packet { start = packet.raw.addr; len = packet.raw.len }

-- net_packet_set_proto
abbrev pub net_packet_set_proto : Packet → Protocol → Packet
net_packet_set_proto packet proto = record packet { proto = proto }

-- net_packet_set_interface
abbrev pub net_packet_set_interface : Packet → ℕ → Packet
net_packet_set_interface packet iface = record packet { iface = iface }

-- net_packet_alloc: `routed` is the interface that net_route_get_iface finds for the address, or its error.
pub net_packet_alloc : ℕ → ℕ → Packet → Code × ℕ → ℕ → ℕ → Code × Option Packet
unfolding net_packet_create net_packet_reset
net_packet_alloc object p found routed len iface =
    let ready = λ (packet : Packet) (i : ℕ).
      some (net_packet_set_proto (net_packet_reset (record packet { iface = i })) np_unknown) in
    elim (net_packet_create object p found len) [
      | none ↦ (enomem, none)
      | some packet ↦
          (if not (iface == 0)
            then (success, ready packet iface)
            else if is_success routed.0
            then (success, ready packet routed.1)
            else (routed.0, none))
    ]

-- net_packet_clone
pub net_packet_clone : ℕ → ℕ → Packet → Packet → Code × Option Packet
unfolding net_packet_create
net_packet_clone object p found packet = elim (net_packet_create object p found packet.raw.len) [
  | none ↦ (enomem, none)
  | some newp ↦ (
    success,
    some (record newp {
      iface = packet.iface;
      proto = packet.proto;
      start = packet.start;
      len = packet.len;
    }),
  )
]

-- net_packet_set_len
pub net_packet_set_len : Packet → ℕ → Code × Packet
net_packet_set_len packet new_len =
    if ltb packet.raw.len new_len
    then (einval, packet)
    else (success, record packet { len = new_len })

-- net_packet_insert: the sum of the lengths is one of 32 bits.
pub net_packet_insert : Packet → ℕ → Code × Packet
net_packet_insert packet len =
    if ltb packet.raw.len ((packet.len + len) % 2 ^ 32) then (einval, packet) else (
      success,
      record packet {
        start = (packet.start + 2 ^ 32 - len) % 2 ^ 32;
        len = (packet.len + len) % 2 ^ 32;
      },
    )

-- net_packet_encapsulate
pub net_packet_encapsulate : Packet → Protocol → ℕ → Code × Packet
net_packet_encapsulate packet proto len = net_packet_insert (record packet { proto = proto }) len

-- net_packet_consume
pub net_packet_consume : Packet → ℕ → Code × Packet
net_packet_consume packet len =
    if ltb packet.len len
    then (einval, packet)
    else (success, record packet { start = packet.start + len; len = packet.len - len })
