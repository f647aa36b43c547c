-- ===== src/Common/Errors.antt =====
-- Error codes.
use mathlib.Core.Bool.{Bool, true, false}

-- The results of kernel functions: SUCCESS, or the negated error number.
pub data Code : Type 0 where
  success eperm enoent eagain enomem efault eexist einval enfile erange enosys eprotonosupport
        eaddrinuse ehostunreach ecksum :
      Code

abbrev pub is_success : Code → Bool
is_success success = true
is_success code = false
