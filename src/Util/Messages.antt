-- ===== src/Util/Messages.antt =====
-- kstrerror of ayumos/kernel/util/string.c, with the numbers of ayumos/kernel/include/error.h, and day_number_suffix of
-- ayumos/kernel/util/ktime.c.
mod Tests
use Prim.Native.String.{String}
use m68k_system.Common.{ℕ, Bool, ◌||◌, List, [], ◌∷◌, ltb, ◌==◌, if◌then◌else◌}
use m68k_system.Klibc.Errors.{strerror}

-- KERNEL_MIN_ERRNO
abbrev pub kernel_min_errno : ℕ
kernel_min_errno = 500

-- The cases of kstrerror, in their order.
pub kernel_messages : List (ℕ × String)
kernel_messages =
    (500, "Unknown error")
    ∷ (501, "Media error")
    ∷ (502, "Media changed")
    ∷ (503, "Data error")
    ∷ (504, "Checksum error")
    ∷ (505, "Bad superblock")
    ∷ (506, "Device initialisation failed")
    ∷ (507, "Command sent to hardware device failed")
    ∷ (600, "Not an executable file")
    ∷ (601, "Bad header in executable file")
    ∷ (602, "Unsupported endianness in executable file")
    ∷ (603, "Unsupported machine architecture")
    ∷ (604, "Required section is missing from executable file")
    ∷ (605, "Bad section in executable file")
    ∷ []

pub kernel_message_of : List (ℕ × String) → ℕ → String
kernel_message_of [] errnum = "Unrecognised error code"
kernel_message_of ((number, message) ∷ rest) errnum =
    let later = kernel_message_of rest errnum in if number == errnum then message else later

-- kstrerror, for a number that is not negative.
pub kstrerror : ℕ → String
unfolding kernel_messages kernel_message_of
kstrerror errnum =
    if ltb errnum kernel_min_errno
    then strerror errnum
    else kernel_message_of kernel_messages errnum

-- day_number_suffix
pub day_number_suffix : ℕ → String
day_number_suffix daynum =
    if ltb daynum 1 || ltb 31 daynum
    then ""
    else if (daynum == 1) || (daynum == 21) || (daynum == 31)
    then "st"
    else if (daynum == 2) || (daynum == 22)
    then "nd"
    else if (daynum == 3) || (daynum == 23)
    then "rd"
    else "th"
