-- ===== src/Util/Circbuf/Tests.antt =====
-- The theorems on circular buffers at a buffer of four bytes.
use m68k_system.Common.{◌-◌, ◌≡◌, refl, Store, arith, [], ◌∷◌, success, enomem, ◌==◌, if◌then◌else◌}
use m68k_system.Util.Circbuf.{Circbuf, circbuf_alloc, circbuf_read, circbuf_write}
use m68k_system.Util.Circbuf.Queue.{IsValid, contents, take_oldest, put_newest}
use m68k_system.Util.Circbuf.Refine.{
  circbuf_alloc_empty, circbuf_read-take_oldest, circbuf_write-put_newest,
}

abbrev ramp : Store
ramp a = a

-- It holds the bytes at 103 and 100, round its end.
abbrev ring : Circbuf
ring = record { buf = 100; buf_end = 104; read_ptr = 103; write_ptr = 101 }

ring-IsValid : IsValid ring
ring-IsValid = omega arith

ring-contents : contents ring ramp ≡ 103 ∷ 100 ∷ []
ring-contents = refl

circbuf_alloc_empty_example : (circbuf_alloc 100 4 ring).0 ≡ success
unfolding circbuf_alloc
circbuf_alloc_empty_example = refl

circbuf_alloc_empty_at :
    let (code, c') = circbuf_alloc 100 4 ring in
    if 100 == 0
    then (code ≡ enomem) × (c' ≡ ring)
    else (code ≡ success) × IsValid c' × (contents c' ramp ≡ []) × (c'.buf_end - c'.buf ≡ 4)
circbuf_alloc_empty_at = circbuf_alloc_empty 100 4 ring ramp (omega arith)

circbuf_read-take_oldest_example :
    IsValid (circbuf_read ring ramp).2
    × (let (code, val, c') = circbuf_read ring ramp in
        (code, val, contents c' ramp) ≡ take_oldest (contents ring ramp))
circbuf_read-take_oldest_example = circbuf_read-take_oldest ring ramp ring-IsValid

circbuf_write-put_newest_example :
    IsValid (circbuf_write ring 7 ramp).1
    × (let (code, c', m') = circbuf_write ring 7 ramp in
        (code, contents c' m') ≡ put_newest 3 7 (contents ring ramp))
circbuf_write-put_newest_example = circbuf_write-put_newest ring ramp ring-IsValid 7
