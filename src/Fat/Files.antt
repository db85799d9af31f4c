-- ===== src/Fat/Files.antt =====
-- The open files of `source/fat_driver.c`. FatFs is a parameter.
use libdvm.Base.{ℕ, ◌+◌, ◌-◌, ◌%◌, ◌^◌, Option, none, some, ◌==◌, leb, ltb, if◌then◌else◌}
use libdvm.Base.Integers.{ℤ, pos, negsuc}
use libdvm.Base.Strings.{Str}
use libdvm.Disc.Memory.{Buf}
use libdvm.Nitro.Files.{Whence, seek_start, strip_device}
use libdvm.Fat.Errno.{
  FResult, fr_ok, fr_invalid_parameter, einval, fr_to_errno, FatResult, failed, return_if_ok,
}
use libdvm.Fat.Mode.{OpenFlags, FfMode, open_mode}

-- What FatFs does to a file `Fil` and to the volume `Vol` that it stands on. `f_read` and `f_write`
-- answer how many bytes were moved.
pub record FatFs (Vol Fil : Type 0) : Type 0 where
  pub f_open : Vol → Str → FfMode → FResult × Vol × Fil
  pub f_close : Vol → Fil → FResult × Vol
  pub f_read : Vol → Fil → ℕ → FResult × Fil × ℕ
  pub f_write : Vol → Fil → Buf → ℕ → FResult × Vol × Fil × ℕ
  pub f_lseek : Vol → Fil → ℕ → FResult × Vol × Fil
  pub f_tell : Fil → ℕ
  pub f_size : Fil → ℕ

-- `(off_t)pos`, where `off_t` is a signed word of `bits` bits.
abbrev pub to_off : ℕ → ℕ → ℤ
to_off bits p =
    let word = p % 2 ^ bits in
    if ltb word (2 ^ (bits - 1)) then pos word else negsuc (2 ^ bits - 1 - word)

module _ {Vol Fil : Type 0} (ff : FatFs Vol Fil) where
  -- `_FAT_open_r`: the volume behind the call, and the file.
  abbrev pub open_with : Vol → Str → Option FfMode → Vol × FatResult Fil
  open_with vol path none = (vol, failed einval)
  open_with vol path (some m) =
      let r = ff.f_open vol (strip_device path) m in (r.1, return_if_ok (fr_to_errno r.0) r.2)

  unfoldable pub open_r : Vol → Str → OpenFlags → Vol × FatResult Fil
  open_r vol path flags = open_with vol path (open_mode flags)

  -- `_FAT_close_r`, `_FAT_read_r` and `_FAT_write_r`.
  abbrev pub close_r : Vol → Fil → Vol × FatResult ℕ
  close_r vol fp = let r = ff.f_close vol fp in (r.1, return_if_ok (fr_to_errno r.0) 0)

  abbrev pub read_r : Vol → Fil → ℕ → Fil × FatResult ℕ
  read_r vol fp len = let r = ff.f_read vol fp len in (r.1, return_if_ok (fr_to_errno r.0) r.2)

  abbrev pub write_r : Vol → Fil → Buf → ℕ → Vol × Fil × FatResult ℕ
  write_r vol fp buf len =
      let r = ff.f_write vol fp buf len in (r.1, r.2, return_if_ok (fr_to_errno r.0) r.3)

  -- The new position, a word of 64 bits. `none` is a position before the file.
  abbrev pub apply_offset64 : ℕ → ℤ → Option ℕ
  apply_offset64 start (pos n) = some ((start + n) % 2 ^ 64)
  apply_offset64 start (negsuc n) = if leb (n + 1) start then some (start - (n + 1)) else none

  -- The end of `_FAT_seek_r`. The answer is an `off_t` of `off_bits` bits.
  abbrev pub seek_to : ℕ → Vol → Fil → Option ℕ → Vol × Fil × FatResult ℤ
  seek_to off_bits vol fp none =
      (vol, fp, return_if_ok (fr_to_errno fr_invalid_parameter) (to_off off_bits 0))
  seek_to off_bits vol fp (some p) =
      let r = ff.f_lseek vol fp p in
      if p == ff.f_tell fp
      then (vol, fp, return_if_ok (fr_to_errno fr_ok) (to_off off_bits p))
      else (r.1, r.2, return_if_ok (fr_to_errno r.0) (to_off off_bits p))

  abbrev pub seek_by : ℕ → Vol → Fil → ℤ → Option ℕ → Vol × Fil × FatResult ℤ
  seek_by off_bits vol fp offset none = (vol, fp, failed einval)
  seek_by off_bits vol fp offset (some start) =
      seek_to off_bits vol fp (apply_offset64 start offset)

  -- `_FAT_seek_r`: the volume and the file behind the call, and the position.
  unfoldable pub seek_r : ℕ → Vol → Fil → ℤ → Whence → Vol × Fil × FatResult ℤ
  seek_r off_bits vol fp offset whence =
      seek_by off_bits vol fp offset (seek_start whence (ff.f_tell fp) (ff.f_size fp))
