-- ===== src/Klibc/Ctype.antt =====
-- The character classes and the case conversions of ayumos/klibc/ctype.c and include/ctype.h.
mod Classes
mod Tests
use Prim.Native.Nat.{bit_and}
use m68k_system.Common.{
  ℕ, ◌+◌, ◌-◌, ◌%◌, ◌&&◌, List, [], ◌∷◌, leb, if◌then◌else◌, get_or, ℤ, pos, negsuc,
}

-- _g_typetable; `_g_typetable_base` points to its entry 128.
pub typetable : List ℕ
typetable =
    0x0000 ∷ 0x0000 ∷ 0x0000 ∷ 0x0000 ∷ 0x0000 ∷ 0x0000 ∷ 0x0000 ∷ 0x0000 ∷ 0x0000 ∷ 0x0000 ∷ 0x0000
    ∷ 0x0000 ∷ 0x0000 ∷ 0x0000 ∷ 0x0000 ∷ 0x0000 ∷ 0x0000 ∷ 0x0000 ∷ 0x0000 ∷ 0x0000 ∷ 0x0000
    ∷ 0x0000 ∷ 0x0000 ∷ 0x0000 ∷ 0x0000 ∷ 0x0000 ∷ 0x0000 ∷ 0x0000 ∷ 0x0000 ∷ 0x0000 ∷ 0x0000
    ∷ 0x0000 ∷ 0x0000 ∷ 0x0000 ∷ 0x0000 ∷ 0x0000 ∷ 0x0000 ∷ 0x0000 ∷ 0x0000 ∷ 0x0000 ∷ 0x0000
    ∷ 0x0000 ∷ 0x0000 ∷ 0x0000 ∷ 0x0000 ∷ 0x0000 ∷ 0x0000 ∷ 0x0000 ∷ 0x0000 ∷ 0x0000 ∷ 0x0000
    ∷ 0x0000 ∷ 0x0000 ∷ 0x0000 ∷ 0x0000 ∷ 0x0000 ∷ 0x0000 ∷ 0x0000 ∷ 0x0000 ∷ 0x0000 ∷ 0x0000
    ∷ 0x0000 ∷ 0x0000 ∷ 0x0000 ∷ 0x0000 ∷ 0x0000 ∷ 0x0000 ∷ 0x0000 ∷ 0x0000 ∷ 0x0000 ∷ 0x0000
    ∷ 0x0000 ∷ 0x0000 ∷ 0x0000 ∷ 0x0000 ∷ 0x0000 ∷ 0x0000 ∷ 0x0000 ∷ 0x0000 ∷ 0x0000 ∷ 0x0000
    ∷ 0x0000 ∷ 0x0000 ∷ 0x0000 ∷ 0x0000 ∷ 0x0000 ∷ 0x0000 ∷ 0x0000 ∷ 0x0000 ∷ 0x0000 ∷ 0x0000
    ∷ 0x0000 ∷ 0x0000 ∷ 0x0000 ∷ 0x0000 ∷ 0x0000 ∷ 0x0000 ∷ 0x0000 ∷ 0x0000 ∷ 0x0000 ∷ 0x0000
    ∷ 0x0000 ∷ 0x0000 ∷ 0x0000 ∷ 0x0000 ∷ 0x0000 ∷ 0x0000 ∷ 0x0000 ∷ 0x0000 ∷ 0x0000 ∷ 0x0000
    ∷ 0x0000 ∷ 0x0000 ∷ 0x0000 ∷ 0x0000 ∷ 0x0000 ∷ 0x0000 ∷ 0x0000 ∷ 0x0000 ∷ 0x0000 ∷ 0x0000
    ∷ 0x0000 ∷ 0x0000 ∷ 0x0000 ∷ 0x0000 ∷ 0x0000 ∷ 0x0000 ∷ 0x0000 ∷ 0x0200 ∷ 0x0200 ∷ 0x0200
    ∷ 0x0200 ∷ 0x0200 ∷ 0x0200 ∷ 0x0200 ∷ 0x0200 ∷ 0x0200 ∷ 0x0320 ∷ 0x0220 ∷ 0x0220 ∷ 0x0220
    ∷ 0x0220 ∷ 0x0200 ∷ 0x0200 ∷ 0x0200 ∷ 0x0200 ∷ 0x0200 ∷ 0x0200 ∷ 0x0200 ∷ 0x0200 ∷ 0x0200
    ∷ 0x0200 ∷ 0x0200 ∷ 0x0200 ∷ 0x0200 ∷ 0x0200 ∷ 0x0200 ∷ 0x0200 ∷ 0x0200 ∷ 0x0200 ∷ 0x0160
    ∷ 0x04c0 ∷ 0x04c0 ∷ 0x04c0 ∷ 0x04c0 ∷ 0x04c0 ∷ 0x04c0 ∷ 0x04c0 ∷ 0x04c0 ∷ 0x04c0 ∷ 0x04c0
    ∷ 0x04c0 ∷ 0x04c0 ∷ 0x04c0 ∷ 0x04c0 ∷ 0x04c0 ∷ 0x08d8 ∷ 0x08d8 ∷ 0x08d8 ∷ 0x08d8 ∷ 0x08d8
    ∷ 0x08d8 ∷ 0x08d8 ∷ 0x08d8 ∷ 0x08d8 ∷ 0x08d8 ∷ 0x04c0 ∷ 0x04c0 ∷ 0x04c0 ∷ 0x04c0 ∷ 0x04c0
    ∷ 0x04c0 ∷ 0x04c0 ∷ 0x08d5 ∷ 0x08d5 ∷ 0x08d5 ∷ 0x08d5 ∷ 0x08d5 ∷ 0x08d5 ∷ 0x08c5 ∷ 0x08c5
    ∷ 0x08c5 ∷ 0x08c5 ∷ 0x08c5 ∷ 0x08c5 ∷ 0x08c5 ∷ 0x08c5 ∷ 0x08c5 ∷ 0x08c5 ∷ 0x08c5 ∷ 0x08c5
    ∷ 0x08c5 ∷ 0x08c5 ∷ 0x08c5 ∷ 0x08c5 ∷ 0x08c5 ∷ 0x08c5 ∷ 0x08c5 ∷ 0x08c5 ∷ 0x04c0 ∷ 0x04c0
    ∷ 0x04c0 ∷ 0x04c0 ∷ 0x04c0 ∷ 0x04c0 ∷ 0x08d6 ∷ 0x08d6 ∷ 0x08d6 ∷ 0x08d6 ∷ 0x08d6 ∷ 0x08d6
    ∷ 0x08c6 ∷ 0x08c6 ∷ 0x08c6 ∷ 0x08c6 ∷ 0x08c6 ∷ 0x08c6 ∷ 0x08c6 ∷ 0x08c6 ∷ 0x08c6 ∷ 0x08c6
    ∷ 0x08c6 ∷ 0x08c6 ∷ 0x08c6 ∷ 0x08c6 ∷ 0x08c6 ∷ 0x08c6 ∷ 0x08c6 ∷ 0x08c6 ∷ 0x08c6 ∷ 0x08c6
    ∷ 0x04c0 ∷ 0x04c0 ∷ 0x04c0 ∷ 0x04c0 ∷ 0x0200 ∷ 0x0000 ∷ 0x0000 ∷ 0x0000 ∷ 0x0000 ∷ 0x0000
    ∷ 0x0000 ∷ 0x0000 ∷ 0x0000 ∷ 0x0000 ∷ 0x0000 ∷ 0x0000 ∷ 0x0000 ∷ 0x0000 ∷ 0x0000 ∷ 0x0000
    ∷ 0x0000 ∷ 0x0000 ∷ 0x0000 ∷ 0x0000 ∷ 0x0000 ∷ 0x0000 ∷ 0x0000 ∷ 0x0000 ∷ 0x0000 ∷ 0x0000
    ∷ 0x0000 ∷ 0x0000 ∷ 0x0000 ∷ 0x0000 ∷ 0x0000 ∷ 0x0000 ∷ 0x0000 ∷ 0x0000 ∷ 0x0000 ∷ 0x0000
    ∷ 0x0000 ∷ 0x0000 ∷ 0x0000 ∷ 0x0000 ∷ 0x0000 ∷ 0x0000 ∷ 0x0000 ∷ 0x0000 ∷ 0x0000 ∷ 0x0000
    ∷ 0x0000 ∷ 0x0000 ∷ 0x0000 ∷ 0x0000 ∷ 0x0000 ∷ 0x0000 ∷ 0x0000 ∷ 0x0000 ∷ 0x0000 ∷ 0x0000
    ∷ 0x0000 ∷ 0x0000 ∷ 0x0000 ∷ 0x0000 ∷ 0x0000 ∷ 0x0000 ∷ 0x0000 ∷ 0x0000 ∷ 0x0000 ∷ 0x0000
    ∷ 0x0000 ∷ 0x0000 ∷ 0x0000 ∷ 0x0000 ∷ 0x0000 ∷ 0x0000 ∷ 0x0000 ∷ 0x0000 ∷ 0x0000 ∷ 0x0000
    ∷ 0x0000 ∷ 0x0000 ∷ 0x0000 ∷ 0x0000 ∷ 0x0000 ∷ 0x0000 ∷ 0x0000 ∷ 0x0000 ∷ 0x0000 ∷ 0x0000
    ∷ 0x0000 ∷ 0x0000 ∷ 0x0000 ∷ 0x0000 ∷ 0x0000 ∷ 0x0000 ∷ 0x0000 ∷ 0x0000 ∷ 0x0000 ∷ 0x0000
    ∷ 0x0000 ∷ 0x0000 ∷ 0x0000 ∷ 0x0000 ∷ 0x0000 ∷ 0x0000 ∷ 0x0000 ∷ 0x0000 ∷ 0x0000 ∷ 0x0000
    ∷ 0x0000 ∷ 0x0000 ∷ 0x0000 ∷ 0x0000 ∷ 0x0000 ∷ 0x0000 ∷ 0x0000 ∷ 0x0000 ∷ 0x0000 ∷ 0x0000
    ∷ 0x0000 ∷ 0x0000 ∷ 0x0000 ∷ 0x0000 ∷ 0x0000 ∷ 0x0000 ∷ 0x0000 ∷ 0x0000 ∷ 0x0000 ∷ 0x0000
    ∷ 0x0000 ∷ 0x0000 ∷ 0x0000 ∷ []

-- _ctypeisname; `c & 0xff` is taken of the two's complement of a negative character.
pub ctypeisname : ℕ → ℕ → ℕ
unfolding typetable
ctypeisname c type = bit_and (get_or typetable (128 + c % 256) 0) type

-- The tests of ctype.h, by what they are called, and their flags.
pub data CharType : Type 0 where
  upper lower alpha digit xdigit space print graph blank cntrl punct alnum : CharType

pub flag : CharType → ℕ
flag upper = 0x0001
flag lower = 0x0002
flag alpha = 0x0004
flag digit = 0x0008
flag xdigit = 0x0010
flag space = 0x0020
flag print = 0x0040
flag graph = 0x0080
flag blank = 0x0100
flag cntrl = 0x0200
flag punct = 0x0400
flag alnum = 0x0800

-- tolower
pub tolower : ℤ → ℤ
tolower (pos c) = pos (if leb b'A' c && leb c b'Z' then c + (b'a' - b'A') else c)
tolower (negsuc c) = negsuc c

-- toupper
pub toupper : ℤ → ℤ
toupper (pos c) = pos (if leb b'a' c && leb c b'z' then c - (b'a' - b'A') else c)
toupper (negsuc c) = negsuc c
