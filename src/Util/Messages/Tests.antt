-- ===== src/Util/Messages/Tests.antt =====
-- Messages.
use m68k_system.Common.{◌≡◌, refl}
use m68k_system.Klibc.Errors.{strerror}
use m68k_system.Util.Messages.{kstrerror, day_number_suffix}

out_of_memory : kstrerror 12 ≡ "Cannot allocate memory"
unfolding kstrerror strerror
out_of_memory = refl

not_executable : kstrerror 600 ≡ "Not an executable file"
unfolding kstrerror
not_executable = refl

twenty_second : day_number_suffix 22 ≡ "nd"
unfolding day_number_suffix
twenty_second = refl
