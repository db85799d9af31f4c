-- ===== src/Fat/Info.antt =====
-- What `source/fat_driver.c` tells of files and volumes: `_FAT_set_stat`, `_FAT_fstat_r`,
-- `_FAT_statvfs_r` and `_FAT_fpathconf_r`.
use Prim.Native.Nat.{bit_and}
use libdvm.Base.{
  ℕ, ◌+◌, ◌-◌, ◌*◌, ◌/◌, ◌^◌, Bool, true, false, not, Option, none, some, ◌==◌, if◌then◌else◌,
}
use libdvm.Base.Strings.{Str}
use libdvm.Disc.Object.{DvmDisc}
use libdvm.Fat.Errno.{FResult, einval, fr_to_errno, FatResult, failed, done, return_if_ok}
use libdvm.Fat.Medium.{has_feature}
use libdvm.Fat.Times.{TmArg, make_time}

-- `FILINFO` of FatFs, with the two bits of its `fattrib` that are tested.
pub record FilInfo : Type 0 where
  pub fname : Str
  pub fsize : ℕ
  pub fattrib : ℕ
  pub am_rdo : Bool
  pub am_dir : Bool
  pub fclust : ℕ
  pub fdate : ℕ
  pub ftime : ℕ
  pub crdate : ℕ
  pub crtime : ℕ
  pub acdate : ℕ
  pub actime : ℕ

-- What the code reads of a `FATFS`. `is_exfat` is `fs_type == FS_EXFAT`.
pub record FatFsInfo : Type 0 where
  pub csize : ℕ
  pub ssize : ℕ
  pub n_fatent : ℕ
  pub is_exfat : Bool

-- The bits of a mode: to read, to write and to execute, each for all three classes of users, and the
-- type of the file.
pub record StMode : Type 0 where
  pub readable : Bool
  pub writable : Bool
  pub executable : Bool
  pub ifdir : Bool
  pub ifreg : Bool

-- `struct stat`. A time is the argument of `mktime`, and `none` is 0.
pub record FatStat : Type 0 where
  pub st_dev : ℕ
  pub st_ino : ℕ
  pub st_mode : StMode
  pub st_nlink : ℕ
  pub st_uid : ℕ
  pub st_gid : ℕ
  pub st_rdev : ℕ
  pub st_size : ℕ
  pub st_atime : Option TmArg
  pub st_mtime : Option TmArg
  pub st_ctime : Option TmArg
  pub st_blksize : ℕ
  pub st_blocks : ℕ

-- `(size + blksize - 1) & ~(blksize - 1)`, in words of 64 bits.
abbrev pub round_up : ℕ → ℕ → ℕ
round_up blksize size = bit_and (size + blksize - 1) (2 ^ 64 - blksize)

abbrev pub set_mode : FilInfo → StMode
set_mode fno =
    let m0 : StMode = record {
      readable = true;
      writable = false;
      executable = false;
      ifdir = false;
      ifreg = false;
    } in
    let m1 = if not fno.am_rdo then record m0 { writable = true } else m0 in
    if fno.am_dir
    then record m1 { readable = true; writable = true; executable = true; ifdir = true }
    else record m1 { ifreg = true }

-- `S_BLKSIZE` is the unit of `st_blocks`.
module _ {State : Type 0} (s_blksize : ℕ) (disc : DvmDisc State) (fs : FatFsInfo) where
  -- `_FAT_set_stat`
  unfoldable pub fat_set_stat : FilInfo → FatStat
  fat_set_stat fno = record {
    st_dev = disc.io_type;
    st_ino = fno.fclust;
    st_mode = set_mode fno;
    st_nlink = 1;
    st_uid = 1;
    st_gid = 2;
    st_rdev = disc.io_type;
    st_size = fno.fsize;
    st_atime = some (make_time fno.acdate fno.actime);
    st_mtime = some (make_time fno.fdate fno.ftime);
    st_ctime = some (make_time fno.crdate fno.crtime);
    st_blksize = fs.csize * fs.ssize;
    st_blocks = round_up (fs.csize * fs.ssize) fno.fsize / s_blksize;
  }

  -- `_FAT_fstat_r`, from the first cluster, the size and the flag `FA_WRITE` of the open file.
  unfoldable pub fat_fstat_r : ℕ → ℕ → Bool → FatStat
  fat_fstat_r sclust objsize can_write =
      let st_size = if sclust == 0 then 0 else objsize in
      record {
        st_dev = disc.io_type;
        st_ino = sclust;
        st_mode = record {
          readable = true;
          writable = can_write;
          executable = false;
          ifdir = false;
          ifreg = true;
        };
        st_nlink = 1;
        st_uid = 1;
        st_gid = 2;
        st_rdev = disc.io_type;
        st_size = st_size;
        st_atime = none;
        st_mtime = none;
        st_ctime = none;
        st_blksize = fs.csize * fs.ssize;
        st_blocks = round_up (fs.csize * fs.ssize) st_size / s_blksize;
      }

-- `struct statvfs`, with the two bits of its `f_flag`.
pub record StatVfs : Type 0 where
  pub f_bsize : ℕ
  pub f_frsize : ℕ
  pub f_blocks : ℕ
  pub f_bfree : ℕ
  pub f_bavail : ℕ
  pub f_files : ℕ
  pub f_ffree : ℕ
  pub f_favail : ℕ
  pub f_fsid : ℕ
  pub st_nosuid : Bool
  pub st_rdonly : Bool
  pub f_namemax : ℕ

-- What `fpathconf` is asked for.
pub data PathConf : Type 0 where
  pc_link_max pc_name_max pc_path_max pc_no_trunc pc_filesizebits pc_2_symlinks : PathConf
  pc_alloc_size_min pc_rec_incr_xfer_size pc_rec_max_xfer_size pc_rec_min_xfer_size : PathConf
  pc_rec_xfer_align pc_timestamp_resolution pc_other : PathConf

-- The constants of FatFs, of newlib and of the platform.
pub record FatLimits : Type 0 where
  pub ff_lfn_buf : ℕ
  pub name_max : ℕ
  pub path_max : ℕ
  pub buffer_align : ℕ

module _ {State : Type 0} (limits : FatLimits) (disc : DvmDisc State) (fs : FatFsInfo) where
  -- `_FAT_statvfs_r`, from the answer of `f_getfree`, into a buffer. `can_write` is the bit
  -- `FEATURE_MEDIUM_CANWRITE`.
  unfoldable pub statvfs_r : ℕ → FResult → ℕ → FatResult StatVfs
  statvfs_r can_write fr nclst = return_if_ok (fr_to_errno fr) (record {
    f_bsize = fs.csize * fs.ssize;
    f_frsize = fs.csize * fs.ssize;
    f_blocks = fs.n_fatent - 2;
    f_bfree = nclst;
    f_bavail = nclst;
    f_files = 0;
    f_ffree = 0;
    f_favail = 0;
    f_fsid = disc.io_type;
    st_nosuid = true;
    st_rdonly = not (has_feature disc.features can_write);
    f_namemax = limits.ff_lfn_buf;
  })

  -- `_FAT_fpathconf_r`, which `_FAT_pathconf_r` calls.
  unfoldable pub fpathconf_r : PathConf → FatResult ℕ
  fpathconf_r pc_link_max = done 1
  fpathconf_r pc_name_max = done limits.ff_lfn_buf
  fpathconf_r pc_path_max = done limits.path_max
  fpathconf_r pc_no_trunc = done 1
  fpathconf_r pc_filesizebits = done (if not fs.is_exfat then 33 else 64)
  fpathconf_r pc_2_symlinks = done 0
  fpathconf_r pc_alloc_size_min = done (fs.csize * fs.ssize)
  fpathconf_r pc_rec_incr_xfer_size = done disc.sector_sz
  fpathconf_r pc_rec_max_xfer_size = done (disc.sector_sz * (2 ^ 16 - 1))
  fpathconf_r pc_rec_min_xfer_size =
      done (if disc.block_sz == 0 then disc.sector_sz else disc.block_sz * disc.sector_sz)
  fpathconf_r pc_rec_xfer_align = done limits.buffer_align
  fpathconf_r pc_timestamp_resolution = done 2_000_000_000
  fpathconf_r pc_other = failed einval
