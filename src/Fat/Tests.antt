-- ===== src/Fat/Tests.antt =====
-- Runs of the FAT driver over a FatFs whose files are a position and a size.
use libdvm.Base.{ℕ, ◌≡◌, refl, true, false, not, ◌&&◌, ◌||◌, none, some, if◌then◌else◌}
use libdvm.Base.Integers.{negsuc}
use libdvm.Nitro.Files.{seek_end}
use libdvm.Fat.Errno.{fr_ok}
use libdvm.Fat.Mode.{
  OpenFlags, o_wronly, open_mode, open_mode_lem, is_refused_mode, can_read, can_write,
}
use libdvm.Fat.Files.{FatFs, seek_r}
use libdvm.Fat.Seek.{Sought, seek_r-Sought}

abbrev fat : FatFs ℕ (ℕ × ℕ)
fat = record {
  f_open = λ vol path m. (fr_ok, vol, (0, 100));
  f_close = λ vol fp. (fr_ok, vol);
  f_read = λ vol fp n. (fr_ok, fp, n);
  f_write = λ vol fp buf n. (fr_ok, vol, fp, n);
  f_lseek = λ vol fp p. (fr_ok, vol, (p, fp.1));
  f_tell = λ fp. fp.0;
  f_size = λ fp. fp.1;
}

seek_r-Sought_example :
    Sought fat 64 0 (7, 100) (negsuc 20) seek_end (seek_r fat 64 0 (7, 100) (negsuc 20) seek_end)
seek_r-Sought_example =
    seek_r-Sought fat (λ vol fp p within ok. refl) 64 0 (7, 100) (negsuc 20) seek_end

abbrev appending : OpenFlags
appending = record {
  accmode = o_wronly;
  o_creat = false;
  o_excl = false;
  o_trunc = false;
  o_append = true;
}

open_mode_lem_example : open_mode appending ≡ (
    if is_refused_mode o_wronly true
    then none
    else some (record {
      read = can_read o_wronly;
      write = can_write o_wronly;
      create_new = false;
      create_always = false;
      open_always = (false || true) && not false;
      append = true;
    }))
open_mode_lem_example = open_mode_lem appending
