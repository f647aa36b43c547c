-- ===== src/Klibc/Ctype/Tests.antt =====
-- The classes at characters.
use m68k_system.Common.{◌≡◌, not, ◌==◌, ◌%◌, pos}
use m68k_system.Klibc.Ctype.{ctypeisname, space, flag, tolower, toupper}
use m68k_system.Klibc.Ctype.Classes.{in_class, ctypeisname-in_class, tolower-toupper}

ctypeisname-in_class_example : not (ctypeisname 300 (flag space) == 0) ≡ in_class space (300 % 256)
ctypeisname-in_class_example = ctypeisname-in_class space 300

tolower-toupper_example :
    (tolower (toupper (pos 97)) ≡ tolower (pos 97))
    × (toupper (tolower (pos 97)) ≡ toupper (pos 97))
tolower-toupper_example = tolower-toupper (pos 97)
