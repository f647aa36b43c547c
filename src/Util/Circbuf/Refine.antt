-- ===== src/Util/Circbuf/Refine.antt =====
-- A circular buffer behaves as a queue of one byte less than its length.
use m68k_system.Common.{
  ℕ, suc, ◌+◌, ◌-◌, ◌≤◌, ◌<◌, ◌≡◌, ◌≢◌, refl, ap, inl, inr, true, false, Bool-cases, eq_of_eqb, [],
  ◌∷◌, ◌++◌, length, Store, write, leb, ◌==◌, if◌then◌else◌, arith, success, enomem,
}
use m68k_system.Util.Circbuf.{Circbuf, advance, circbuf_alloc, circbuf_read, circbuf_write}
use m68k_system.Util.Circbuf.Queue.{
  IsValid, wrap, slots, count, contents, take_oldest, put_newest, length-slots, slots-append,
  slots-write, slots_round,
}

module _ (c : Circbuf) (m : Store) (v : IsValid c) where
  open c use {buf, buf_end, read_ptr, write_ptr}

  round_end :
      (k : ℕ)
      → buf + k ≤ buf_end
      → read_ptr + 1 ≡ buf_end
      → slots buf buf_end m k (read_ptr + 1) ≡ slots buf buf_end m k buf
  round_end k h e =
      let e' : read_ptr + 1 ≡ buf + (buf_end - buf) = omega arith in
      rw e' (slots_round buf buf_end m k buf (omega arith) (omega arith) h)

  slots-advance :
      (k : ℕ)
      → buf + k ≤ buf_end
      → slots buf buf_end m k (read_ptr + 1) ≡ slots buf buf_end m k (advance c read_ptr)
  slots-advance k h = elim (Bool-cases (read_ptr + 1 == buf_end)) [
    | inl last ↦ rw last (round_end k h (eq_of_eqb (read_ptr + 1) buf_end last))
    | inr inner ↦ rw inner
  ]

  count-read :
      read_ptr ≢ write_ptr → count c ≡ suc (count (record c { read_ptr = advance c read_ptr }))
  count-read d = ground arith

  contents-read :
      read_ptr ≢ write_ptr
      → contents c m ≡ m read_ptr ∷ contents (record c { read_ptr = advance c read_ptr }) m
  contents-read d =
      let k = count (record c { read_ptr = advance c read_ptr }) in
      let here : wrap buf buf_end read_ptr ≡ read_ptr = ground arith in
      rw (count-read d, here) (ap (λ r. m read_ptr ∷ r) (slots-advance k (ground arith)))

  -- For a valid buffer: reading takes the oldest byte from a buffer that holds one; an empty buffer gives EAGAIN and
  -- stays as it was. Either way the pointers stay inside the buffer.
  pub circbuf_read-take_oldest :
      IsValid (circbuf_read c m).2
      × (let (code, val, c') = circbuf_read c m in
          (code, val, contents c' m) ≡ take_oldest (contents c m))
  unfolding circbuf_read take_oldest
  circbuf_read-take_oldest = elim (Bool-cases (read_ptr == write_ptr)) [
    | inl empty ↦ let none_left : count c ≡ 0 = ground arith in rw (empty, none_left) (v, refl)
    | inr holds ↦
        let d : read_ptr ≢ write_ptr = ground arith in
        rw (holds, contents-read d) (ground arith, refl)
  ]

  count-write :
      advance c write_ptr ≢ read_ptr
      → count (record c { write_ptr = advance c write_ptr }) ≡ suc (count c)
  count-write d = ground arith

  contents-write :
      (x : ℕ)
      → advance c write_ptr ≢ read_ptr
      → contents (record c { write_ptr = advance c write_ptr }) (write m write_ptr x)
        ≡ contents c m ++ x ∷ []
  contents-write x d =
      let behind : wrap buf buf_end (read_ptr + count c) ≡ write_ptr = ground arith in
      let new : write m write_ptr x write_ptr ≡ x = ground arith in
      rw (
        count-write d,
        slots-append buf buf_end (write m write_ptr x) (count c) read_ptr,
        behind,
        new,
        slots-write buf buf_end m write_ptr x (count c) read_ptr (λ j lo hi. ground arith),
      )

  -- For a valid buffer: writing appends a byte to a buffer that holds fewer than its length less one; a full buffer
  -- gives EAGAIN and stays as it was. Either way the pointers stay inside the buffer.
  pub circbuf_write-put_newest :
      (x : ℕ)
      → IsValid (circbuf_write c x m).1
        × (let (code, c', m') = circbuf_write c x m in
            (code, contents c' m') ≡ put_newest (buf_end - buf - 1) x (contents c m))
  unfolding circbuf_write put_newest
  circbuf_write-put_newest x = elim (Bool-cases (advance c write_ptr == read_ptr)) [
    | inl full ↦
        let cap : (length (contents c m) == buf_end - buf - 1) ≡ true =
          ground (arith, length-slots buf buf_end m (count c) read_ptr) in
        rw (full, cap) (v, refl)
    | inr room ↦
        let d : advance c write_ptr ≢ read_ptr = ground arith in
        let cap : (length (contents c m) == buf_end - buf - 1) ≡ false =
          ground (arith, length-slots buf buf_end m (count c) read_ptr) in
        rw (room, cap) (ground arith, ap (λ q. (success, q)) (contents-write x d))
  ]

-- Where kmalloc gives memory of at least one byte, circbuf_alloc makes an empty buffer over it;
-- where it gives none, ENOMEM, and the buffer is as it was.
pub circbuf_alloc_empty :
    (p len : ℕ) (c : Circbuf) (m : Store)
    → 0 < len
    → (let (code, c') = circbuf_alloc p len c in
        if p == 0
        then (code ≡ enomem) × (c' ≡ c)
        else (code ≡ success) × IsValid c' × (contents c' m ≡ []) × (c'.buf_end - c'.buf ≡ len))
unfolding circbuf_alloc
circbuf_alloc_empty p len c m pos = elim (Bool-cases (p == 0)) [
  | inl failed ↦ rw failed (refl, refl)
  | inr given ↦
      let none_left : (if leb p p then p - p else p + (p + len - p) - p) ≡ 0 = ground arith in
      rw (given, none_left)
        (
          refl,
          record {
            read_low = omega arith;
            read_high = omega arith;
            write_low = omega arith;
            write_high = omega arith;
          },
          refl,
          omega arith,
        )
]
