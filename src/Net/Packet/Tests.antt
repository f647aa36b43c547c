-- ===== src/Net/Packet/Tests.antt =====
-- A packet of 100 bytes.
use m68k_system.Common.{◌≡◌, ◌<◌, refl, arith, some, none, success, ehostunreach}
use m68k_system.Net.Packet.{
  Packet, np_unknown, np_udp, net_packet_alloc, net_packet_clone, net_packet_insert,
  net_packet_consume, net_packet_set_len, net_packet_reset,
}
use m68k_system.Net.Packet.Bounds.{
  IsAnchored, reset, consume, insert, Handled-IsAnchored, net_packet_consume-net_packet_insert,
  net_packet_set_len_underruns,
}

abbrev full : Packet
full = record {
  iface = 8;
  proto = np_udp;
  start = 4096;
  len = 100;
  raw = record { len = 100; addr = 4096 };
}

abbrev received : Packet
received = record {
  iface = 8;
  proto = np_udp;
  start = 4116;
  len = 80;
  raw = record { len = 100; addr = 4096 };
}

full-IsAnchored : IsAnchored full
full-IsAnchored = record { inside = omega arith; end = refl; space = omega arith }

received-IsAnchored : IsAnchored received
received-IsAnchored = record { inside = omega arith; end = refl; space = omega arith }

Handled-IsAnchored_example :
    IsAnchored (net_packet_insert (net_packet_consume (net_packet_reset received) 20).1 8).1
    × ((net_packet_insert (net_packet_consume (net_packet_reset received) 20).1 8).1.raw
        ≡ received.raw)
Handled-IsAnchored_example =
    Handled-IsAnchored received _ (omega arith) (omega arith)
      (insert 8 (consume 20 reset) (omega arith))

net_packet_consume-net_packet_insert_example :
    ((net_packet_insert received 8).0 ≡ success)
    × (net_packet_consume (net_packet_insert received 8).1 8 ≡ (success, received))
net_packet_consume-net_packet_insert_example =
    net_packet_consume-net_packet_insert received 8 received-IsAnchored (omega arith)

net_packet_set_len_underruns_example :
    (let q = net_packet_insert (net_packet_set_len full 10).1 8 in
      (q.0 ≡ success) × (q.1.start < 4096))
net_packet_set_len_underruns_example =
    net_packet_set_len_underruns full 10 8 full-IsAnchored refl (omega arith) (omega arith)
      (omega arith)

allocated :
    net_packet_alloc 64 4096 received (ehostunreach, 0) 100 8
    ≡ (success, some (record full { proto = np_unknown }))
unfolding net_packet_alloc
allocated = refl

no_route : net_packet_alloc 64 4096 received (ehostunreach, 0) 100 0 ≡ (ehostunreach, none)
unfolding net_packet_alloc
no_route = refl

-- The clone of a packet has a buffer of its own, but its bytes are those of the original.
clone_shares :
    net_packet_clone 64 8192 full received
    ≡ (success, some (record received { raw = record { len = 100; addr = 8192 } }))
unfolding net_packet_clone
clone_shares = refl
