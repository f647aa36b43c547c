-- ===== src/Net/Packet/Bounds.antt =====
-- What keeps the bytes of a packet inside its buffer.
use m68k_system.Common.{
  ℕ, ◌+◌, ◌-◌, ◌%◌, ◌^◌, ◌≤◌, ◌<◌, ◌≡◌, ◌∙◌, ap, refl, false, ltb, arith, success,
}
use m68k_system.Net.Packet.{
  Buffer, Packet, Protocol, net_packet_reset, net_packet_insert, net_packet_consume,
  net_packet_encapsulate, net_packet_set_len,
}

-- The packet reaches up to the end of its buffer, which lies in the address space.
pub record IsAnchored (p : Packet) : Type 0 where
  pub inside : p.len ≤ p.raw.len
  pub end : p.start + p.len ≡ p.raw.addr + p.raw.len
  pub space : p.raw.addr + p.raw.len < 2 ^ 32

-- What the layers do to a packet on its way, up or down.
pub data Handled (p : Packet) : Packet → Type 0 where
  reset : Handled p (net_packet_reset p)
  insert :
      {q : Packet} (len : ℕ) → Handled p q → len < 2 ^ 31 → Handled p (net_packet_insert q len).1
  encapsulate :
      {q : Packet} (proto : Protocol) (len : ℕ)
      → Handled p q
      → len < 2 ^ 31
      → Handled p (net_packet_encapsulate q proto len).1
  consume : {q : Packet} (len : ℕ) → Handled p q → Handled p (net_packet_consume q len).1

net_packet_insert-IsAnchored :
    (p : Packet) (len : ℕ)
    → p.raw.len < 2 ^ 31
    → len < 2 ^ 31
    → IsAnchored p
    → IsAnchored (net_packet_insert p len).1
unfolding net_packet_insert
net_packet_insert-IsAnchored p len h l a = ground arith

net_packet_consume-IsAnchored :
    (p : Packet) (len : ℕ) → IsAnchored p → IsAnchored (net_packet_consume p len).1
unfolding net_packet_consume
net_packet_consume-IsAnchored p len a = ground arith

net_packet_insert-raw : (p : Packet) (len : ℕ) → (net_packet_insert p len).1.raw ≡ p.raw
unfolding net_packet_insert
net_packet_insert-raw p len = ground arith

net_packet_consume-raw : (p : Packet) (len : ℕ) → (net_packet_consume p len).1.raw ≡ p.raw
unfolding net_packet_consume
net_packet_consume-raw p len = ground arith

-- For a packet with a buffer shorter than 2 ^ 31 bytes inside the address space: after a reset, and whatever insertions,
-- encapsulations and consumptions of fewer than 2 ^ 31 bytes follow, refused or not, the packet has the same buffer,
-- and its bytes are the last ones of it.
pub Handled-IsAnchored :
    (p q : Packet)
    → p.raw.len < 2 ^ 31
    → p.raw.addr + p.raw.len < 2 ^ 32
    → Handled p q
    → IsAnchored q × (q.raw ≡ p.raw)
unfolding net_packet_reset net_packet_encapsulate
Handled-IsAnchored p _ h s reset = (ground arith, refl)
Handled-IsAnchored p _ h s (insert {q} len r l) =
    let (a, e) = Handled-IsAnchored p q h s r in
    let e' = ap (λ (b : Buffer). b.len) e in
    (net_packet_insert-IsAnchored q len (omega arith) l a, net_packet_insert-raw q len ∙ e)
Handled-IsAnchored p _ h s (encapsulate {q} proto len r l) =
    let (a, e) = Handled-IsAnchored p q h s r in
    let e' = ap (λ (b : Buffer). b.len) e in
    let q' = record q { proto = proto } in
    (
      net_packet_insert-IsAnchored q' len (omega arith) l
          (record { inside = a.inside; end = a.end; space = a.space }),
      net_packet_insert-raw q' len ∙ e,
    )
Handled-IsAnchored p _ h s (consume {q} len r) =
    let (a, e) = Handled-IsAnchored p q h s r in
    (net_packet_consume-IsAnchored q len a, net_packet_consume-raw q len ∙ e)

-- For a packet that reaches up to the end of its buffer and begins `len` bytes or more behind its start: the insertion of
-- `len` bytes succeeds, and their consumption gives back the packet.
pub net_packet_consume-net_packet_insert :
    (p : Packet) (len : ℕ)
    → IsAnchored p
    → p.len + len ≤ p.raw.len
    → ((net_packet_insert p len).0 ≡ success)
      × (net_packet_consume (net_packet_insert p len).1 len ≡ (success, p))
unfolding net_packet_insert net_packet_consume
net_packet_consume-net_packet_insert p len a room =
    let inside = a.inside in
    let end_at = a.end in
    let space = a.space in
    let whole : (p.len + len) % 2 ^ 32 ≡ p.len + len = omega arith in
    let fits : ltb p.raw.len (p.len + len) ≡ false = ground arith in
    let enough : ltb (p.len + len) len ≡ false = ground arith in
    let back : (p.start + 2 ^ 32 - len) % 2 ^ 32 + len ≡ p.start = omega arith in
    let rest : p.len + len - len ≡ p.len = omega arith in
    rw (whole, fits, enough, back, rest) (refl, refl)

-- For a packet that fills its buffer, which starts behind address 0: once its length has been set to less, bytes can
-- be inserted that lie before the buffer.
pub net_packet_set_len_underruns :
    (p : Packet) (new_len len : ℕ)
    → IsAnchored p
    → p.start ≡ p.raw.addr
    → 0 < len
    → new_len + len ≤ p.raw.len
    → len ≤ p.start
    → (let q = net_packet_insert (net_packet_set_len p new_len).1 len in
        (q.0 ≡ success) × (q.1.start < p.raw.addr))
unfolding net_packet_set_len net_packet_insert
net_packet_set_len_underruns p new_len len a start pos room low = ground arith
