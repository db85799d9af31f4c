-- ===== src/Fat/Paths.antt =====
-- The operations of `source/fat_driver.c` on paths and on directories, over a record of what FatFs does.
use libdvm.Base.{ℕ, ◌+◌, Bool, true, false, Option, none, some, [], ◌∷◌, ◌++◌, ltb, if◌then◌else◌}
use libdvm.Base.Strings.{Str}
use libdvm.Disc.Object.{DvmDisc}
use libdvm.Nitro.Files.{strip_device}
use libdvm.Volume.Mount.{take_str}
use libdvm.Fat.Errno.{FResult, fr_no_file, fr_to_errno, FatResult, failed, return_if_ok, enosys}
use libdvm.Fat.Times.{Tm, make_fattime, fdate_of, ftime_of}
use libdvm.Fat.Mount.{is_fr_ok}
use libdvm.Fat.Info.{FilInfo, FatFsInfo, FatStat, FatLimits, fat_set_stat}

-- The times that `f_utime` is given.
pub record FileTimes : Type 0 where
  pub acdate : ℕ
  pub actime : ℕ
  pub fdate : ℕ
  pub ftime : ℕ
  pub crdate : ℕ
  pub crtime : ℕ

-- What FatFs does to a volume by a path, and to an open directory `Dir`. The last argument of
-- `f_unlink` is whether a directory is to be removed.
pub record FatTree (Vol Dir : Type 0) : Type 0 where
  pub f_stat : Vol → Str → FResult × Vol × FilInfo
  pub f_unlink : Vol → Str → Bool → FResult × Vol
  pub f_chdir : Vol → Str → FResult × Vol
  pub f_rename : Vol → Str → Str → FResult × Vol
  pub f_mkdir : Vol → Str → FResult × Vol
  pub f_utime : Vol → Str → FileTimes → FResult × Vol
  pub f_chmod : Vol → Str → ℕ → ℕ → FResult × Vol
  pub f_getlabel : Vol → FResult × Vol × Str
  pub f_setlabel : Vol → Str → FResult × Vol
  pub f_opendir : Vol → Str → FResult × Vol × Dir
  pub f_rewinddir : Vol → Dir → FResult × Vol × Dir
  pub f_readdir : Vol → Dir → FResult × Vol × Dir × FilInfo
  pub f_closedir : Vol → Dir → FResult × Vol
  pub info : Vol → FatFsInfo

-- `strnlen` of a whole string.
abbrev pub length_str : Str → ℕ
length_str [] = 0
length_str (c ∷ cs) = length_str cs + 1

-- `_FAT_set_errno(fr, &r->_errno) ? 0 : -1`, with the volume behind the call.
abbrev pub answer : {Vol : Type 0} → FResult × Vol → Vol × FatResult ℕ
answer r = (r.1, return_if_ok (fr_to_errno r.0) 0)

-- The times of the access and of the modification, in the format of FatFs.
abbrev pub utime_words : Option (Tm × Tm) → ℕ → ℕ × ℕ
utime_words none now = (now, now)
utime_words (some t) now = (make_fattime t.0, make_fattime t.1)

module _ {Vol Dir : Type 0} (ff : FatTree Vol Dir) where
  -- `_FAT_unlink_rmdir_r`, and its two callers.
  abbrev pub unlink_rmdir_r : Vol → Str → Bool → Vol × FatResult ℕ
  unlink_rmdir_r vol path is_rmdir = answer (ff.f_unlink vol (strip_device path) is_rmdir)

  abbrev pub unlink_r : Vol → Str → Vol × FatResult ℕ
  unlink_r vol path = unlink_rmdir_r vol path false

  abbrev pub rmdir_r : Vol → Str → Vol × FatResult ℕ
  rmdir_r vol path = unlink_rmdir_r vol path true

  -- `_FAT_chdir_r`, `_FAT_rename_r` and `_FAT_mkdir_r`.
  abbrev pub fat_chdir_r : Vol → Str → Vol × FatResult ℕ
  fat_chdir_r vol path = answer (ff.f_chdir vol (strip_device path))

  abbrev pub rename_r : Vol → Str → Str → Vol × FatResult ℕ
  rename_r vol old_path new_path =
      answer (ff.f_rename vol (strip_device old_path) (strip_device new_path))

  abbrev pub mkdir_r : Vol → Str → Vol × FatResult ℕ
  mkdir_r vol path = answer (ff.f_mkdir vol (strip_device path))

  -- `_FAT_utimes_r`. `now` is what `get_fattime` gives, and a time is that of `localtime_r`.
  unfoldable pub utimes_r : Vol → Str → Option (Tm × Tm) → ℕ → Vol × FatResult ℕ
  utimes_r vol path times now =
      let tm = utime_words times now in
      answer (
        ff.f_utime vol (strip_device path) (record {
          acdate = fdate_of tm.0;
          actime = ftime_of tm.0;
          fdate = fdate_of tm.1;
          ftime = ftime_of tm.1;
          crdate = 0;
          crtime = 0;
        }))

  -- `fatGetVolumeLabel` and `fatSetVolumeLabel`, from the volume that `_fatVolumeFromPath` finds.
  abbrev pub get_volume_label : Option Vol → Option Vol × Option Str
  get_volume_label none = (none, none)
  get_volume_label (some vol) =
      let r = ff.f_getlabel vol in (some r.1, if is_fr_ok r.0 then some r.2 else none)

  abbrev pub set_volume_label : Option Vol → Str → Option Vol × Bool
  set_volume_label none label = (none, false)
  set_volume_label (some vol) label = let r = ff.f_setlabel vol label in (some r.1, is_fr_ok r.0)

  -- `FAT_getAttr` and `FAT_setAttr`
  abbrev pub get_attr : Option Vol → Str → Option Vol × FatResult ℕ
  get_attr none path = (none, failed enosys)
  get_attr (some vol) path =
      let r = ff.f_stat vol (strip_device path) in
      (some r.1, return_if_ok (fr_to_errno r.0) r.2.fattrib)

  abbrev pub set_attr : Option Vol → Str → ℕ → Option Vol × FatResult ℕ
  set_attr none path attr = (none, failed enosys)
  set_attr (some vol) path attr =
      let r = ff.f_chmod vol (strip_device path) attr 0xff in
      (some r.1, return_if_ok (fr_to_errno r.0) 0)

  -- `_FAT_diropen_r`, `_FAT_dirreset_r` and `_FAT_dirclose_r`.
  abbrev pub fat_diropen_r : Vol → Str → Vol × FatResult Dir
  fat_diropen_r vol path =
      let r = ff.f_opendir vol (strip_device path) in (r.1, return_if_ok (fr_to_errno r.0) r.2)

  abbrev pub fat_dirreset_r : Vol → Dir → Vol × Dir × FatResult ℕ
  fat_dirreset_r vol dp =
      let r = ff.f_rewinddir vol dp in (r.1, r.2, return_if_ok (fr_to_errno r.0) 0)

  abbrev pub dirclose_r : Vol → Dir → Vol × FatResult ℕ
  dirclose_r vol dp = answer (ff.f_closedir vol dp)

  -- The answer of `f_readdir`, where an empty name is the end of the directory.
  abbrev pub readdir_result : FResult → Str → FResult
  readdir_result fr [] = if is_fr_ok fr then fr_no_file else fr
  readdir_result fr (c ∷ cs) = fr

  module _ {State : Type 0} (s_blksize : ℕ) (disc : DvmDisc State) where
    -- `_FAT_stat_r`
    unfoldable pub fat_stat_r : Vol → Str → Vol × FatResult FatStat
    fat_stat_r vol path =
        let r = ff.f_stat vol (strip_device path) in
        (r.1, return_if_ok (fr_to_errno r.0) (fat_set_stat s_blksize disc (ff.info r.1) r.2))

    -- `_FAT_dirnext_r`, with both buffers: the bytes of the name with the one behind them, and the
    -- status.
    unfoldable pub fat_dirnext_r : FatLimits → Vol → Dir → Vol × Dir × FatResult (Str × FatStat)
    fat_dirnext_r limits vol dp =
        let r = ff.f_readdir vol dp in
        let fno = r.3 in
        let most =
          if ltb limits.name_max limits.ff_lfn_buf then limits.name_max else limits.ff_lfn_buf in
        let name_len = length_str (take_str most fno.fname) in
        (
          r.1,
          r.2,
          return_if_ok (fr_to_errno (readdir_result r.0 fno.fname)) (
            take_str (name_len + 1) (fno.fname ++ (0 ∷ [])),
            fat_set_stat s_blksize disc (ff.info r.1) fno,
          ),
        )
