-- ===== src/Common/Stores.antt =====
-- Memory as a function from addresses to values. The same type serves as a store of bytes and as
-- a store of 32-bit words, each word under the address of its first byte.
use Prim.Native.Nat.{ℕ}
use m68k_system.Common.Tests.{◌==◌, if◌then◌else◌}

abbrev pub Store : Type 0
Store = ℕ → ℕ

-- The store after a write of `v` at `a`.
abbrev pub write : Store → ℕ → ℕ → Store
write m a v x = if x == a then v else m x
