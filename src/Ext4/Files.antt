-- ===== src/Ext4/Files.antt =====
-- The open files of `source/ext4_driver.c`. lwext4 is a parameter.
use libdvm.Base.{ℕ, ◌%◌, ◌^◌, Option, none, some, Bool, true, false, if◌then◌else◌}
use libdvm.Base.Integers.{ℤ, pos, negsuc}
use libdvm.Base.Strings.{Str}
use libdvm.Disc.Memory.{Buf}
use libdvm.Nitro.Files.{strip_device}
use libdvm.Ext4.Result.{ExtResult, ext_failed, is_eok, return_if_eok}

-- What lwext4 does to a file `Fil` and to the volume `Vol` that it stands on, each with its error code.
-- `ext4_fread` and `ext4_fwrite` answer how many bytes were moved.
pub record Ext4Files (Vol Fil : Type 0) : Type 0 where
  pub ext4_fopen2 : Vol → Str → ℕ → ℕ × Vol × Fil
  pub ext4_fclose : Vol → Fil → ℕ × Vol
  pub ext4_fwrite : Vol → Fil → Buf → ℕ → ℕ × Vol × Fil × ℕ
  pub ext4_fread : Vol → Fil → ℕ → ℕ × Vol × Fil × Buf × ℕ
  pub ext4_fseek : Fil → ℤ → ℕ → ℕ × Fil
  pub ext4_ftell : Fil → ℕ
  pub ext4_ftruncate : Vol → Fil → ℕ → ℕ × Vol × Fil
  pub ext4_cache_write_back : Vol → Bool → ℕ × Vol
  pub ext4_cache_flush : Vol → ℕ × Vol
  pub ext4_atime_set : Vol → Str → ℕ → ℕ × Vol
  pub ext4_mtime_set : Vol → Str → ℕ → ℕ × Vol

-- The seconds of the access and of the modification, of 32 bits. `now` is what `time` gives.
abbrev pub utime_seconds : Option (ℕ × ℕ) → ℕ → ℕ × ℕ
utime_seconds none now = (now % 2 ^ 32, now % 2 ^ 32)
utime_seconds (some t) now = (t.0 % 2 ^ 32, t.1 % 2 ^ 32)

module _ {Vol Fil : Type 0} (ext : Ext4Files Vol Fil) where
  -- `_ext4_open_r`: the volume behind it, and the file.
  unfoldable pub ext4_open_r : Vol → Str → ℕ → Vol × ExtResult Fil
  ext4_open_r vol path flags =
      let r = ext.ext4_fopen2 vol (strip_device path) flags in
      let w = ext.ext4_cache_write_back r.1 true in
      if is_eok r.0 then (w.1, return_if_eok w.0 r.2) else (r.1, ext_failed r.0)

  -- `_ext4_close_r`
  unfoldable pub ext4_close_r : Vol → Fil → Vol × ExtResult ℕ
  ext4_close_r vol fil =
      let w = ext.ext4_cache_write_back vol false in
      let r = ext.ext4_fclose w.1 fil in (r.1, return_if_eok r.0 0)

  -- `_ext4_write_r`
  abbrev pub ext4_write_r : Vol → Fil → Buf → ℕ → Vol × Fil × ExtResult ℕ
  ext4_write_r vol fil buf len =
      let r = ext.ext4_fwrite vol fil buf len in (r.1, r.2, return_if_eok r.0 r.3)

  -- `_ext4_read_r`, with the buffer.
  abbrev pub ext4_read_r : Vol → Fil → ℕ → Vol × Fil × Buf × ExtResult ℕ
  ext4_read_r vol fil len =
      let r = ext.ext4_fread vol fil len in (r.1, r.2, r.3, return_if_eok r.0 r.4)

  -- `_ext4_seek_r`
  abbrev pub ext4_seek_r : Fil → ℤ → ℕ → Fil × ExtResult ℕ
  ext4_seek_r fil offset whence =
      let r = ext.ext4_fseek fil offset whence in (r.1, return_if_eok r.0 (ext.ext4_ftell r.1))

  -- `_ext4_ftruncate_r`
  abbrev pub ext4_ftruncate_r : ℕ → Vol → Fil → ℤ → Vol × Fil × ExtResult ℕ
  ext4_ftruncate_r einval vol fil (pos size) =
      let r = ext.ext4_ftruncate vol fil size in (r.1, r.2, return_if_eok r.0 0)
  ext4_ftruncate_r einval vol fil (negsuc n) = (vol, fil, return_if_eok einval 0)

  -- `_ext4_fsync_r`
  abbrev pub ext4_fsync_r : Vol → Vol × ExtResult ℕ
  ext4_fsync_r vol = let r = ext.ext4_cache_flush vol in (r.1, return_if_eok r.0 0)

  -- The call that follows where the one before succeeded.
  abbrev pub and_then : ℕ × Vol → (Vol → ℕ × Vol) → ℕ × Vol
  and_then r f = if is_eok r.0 then f r.1 else r

  -- `_ext4_utimes_r`
  unfoldable pub ext4_utimes_r : Vol → Str → Option (ℕ × ℕ) → ℕ → Vol × ExtResult ℕ
  ext4_utimes_r vol path times now =
      let t = utime_seconds times now in
      let w = ext.ext4_cache_write_back vol true in
      let a = and_then w (λ v. ext.ext4_atime_set v (strip_device path) t.0) in
      let m = and_then a (λ v. ext.ext4_mtime_set v (strip_device path) t.1) in
      let e = ext.ext4_cache_write_back m.1 false in (e.1, return_if_eok m.0 0)
