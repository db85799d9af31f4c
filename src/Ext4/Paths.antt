-- ===== src/Ext4/Paths.antt =====
-- The operations of `source/ext4_driver.c` on paths, on directories and on what it tells of files and
-- volumes. lwext4 is a parameter.
use libdvm.Base.{
  ℕ, ◌+◌, ◌-◌, ◌*◌, ◌/◌, ◌^◌, Bool, true, Option, none, some, [], ◌∷◌, ◌++◌, ◌==◌, ltb,
  if◌then◌else◌,
}
use libdvm.Base.Strings.{Str}
use libdvm.Disc.Object.{DvmDisc}
use libdvm.Nitro.Files.{strip_device}
use libdvm.Volume.Mount.{take_str}
use libdvm.Fat.Info.{
  StatVfs, PathConf, FatLimits, pc_link_max, pc_name_max, pc_path_max, pc_no_trunc, pc_filesizebits,
  pc_2_symlinks, pc_alloc_size_min, pc_rec_incr_xfer_size, pc_rec_max_xfer_size,
  pc_rec_min_xfer_size, pc_rec_xfer_align, pc_timestamp_resolution, pc_other,
}
use libdvm.Ext4.Result.{ExtResult, ext_failed, ext_done, return_if_eok}

-- What the code reads of an inode.
pub record Inode : Type 0 where
  pub mode : ℕ
  pub links_cnt : ℕ
  pub uid : ℕ
  pub gid : ℕ
  pub size : ℕ
  pub access_time : ℕ
  pub modif_time : ℕ
  pub change_inode_time : ℕ
  pub blocks_count : ℕ

-- `ext4_direntry`
pub record DirEntry : Type 0 where
  pub inode : ℕ
  pub name_length : ℕ
  pub name : Str

-- `struct ext4_mount_stats`
pub record MountStats : Type 0 where
  pub block_size : ℕ
  pub blocks_count : ℕ
  pub free_blocks_count : ℕ
  pub inodes_count : ℕ
  pub free_inodes_count : ℕ

-- `struct stat`
pub record ExtStat : Type 0 where
  pub st_dev : ℕ
  pub st_ino : ℕ
  pub st_mode : ℕ
  pub st_nlink : ℕ
  pub st_uid : ℕ
  pub st_gid : ℕ
  pub st_rdev : ℕ
  pub st_size : ℕ
  pub st_atime : ℕ
  pub st_mtime : ℕ
  pub st_ctime : ℕ
  pub st_blksize : ℕ
  pub st_blocks : ℕ

-- Constants of lwext4 and of newlib.
pub record ExtLimits : Type 0 where
  pub link_max : ℕ
  pub filename_len : ℕ
  pub inode_block_size : ℕ
  pub s_blksize : ℕ

-- What lwext4 does to a volume by a path, and to an open directory `Dir`.
pub record Ext4Tree (Vol Dir : Type 0) : Type 0 where
  pub raw_inode_fill : Vol → Str → ℕ × Inode × ℕ
  pub raw_inode_fill2 : Vol → ℕ → ℕ × Inode
  pub flink : Vol → Str → Str → ℕ × Vol
  pub fremove : Vol → Str → ℕ × Vol
  pub dir_ch : Vol → Str → ℕ × Vol
  pub frename : Vol → Str → Str → ℕ × Vol
  pub dir_mk : Vol → Str → ℕ × Vol
  pub dir_rm : Vol → Str → ℕ × Vol
  pub mode_set : Vol → Str → ℕ → ℕ × Vol
  pub fsymlink : Vol → Str → Str → ℕ × Vol
  pub readlink : Vol → Str → ℕ → ℕ × Str × ℕ
  pub dir_open : Vol → Str → ℕ × Dir
  pub dir_entry_rewind : Dir → Dir
  pub dir_entry_next : Vol → Dir → Dir × Option DirEntry
  pub dir_close : Dir → ℕ
  pub mount_point_stats : Vol → ℕ × MountStats
  pub block_size : Vol → ℕ
  pub rev_level : Vol → ℕ
  pub read_only : Vol → Bool

-- `r->_errno == EOK ? 0 : -1`, with the volume behind the call.
abbrev pub ext_answer : {Vol : Type 0} → ℕ × Vol → Vol × ExtResult ℕ
ext_answer r = (r.1, return_if_eok r.0 0)

module _ {Vol Dir : Type 0} (ext : Ext4Tree Vol Dir) where
  -- `_ext4_link_r`, `_ext4_unlink_r`, `_ext4_chdir_r`, `_ext4_rename_r`, `_ext4_mkdir_r`,
  -- `_ext4_rmdir_r`, `_ext4_chmod_r` and `_ext4_symlink_r`.
  abbrev pub ext4_link_r : Vol → Str → Str → Vol × ExtResult ℕ
  ext4_link_r vol path new_path =
      ext_answer (ext.flink vol (strip_device path) (strip_device new_path))

  abbrev pub ext4_unlink_r : Vol → Str → Vol × ExtResult ℕ
  ext4_unlink_r vol path = ext_answer (ext.fremove vol (strip_device path))

  abbrev pub ext4_chdir_r : Vol → Str → Vol × ExtResult ℕ
  ext4_chdir_r vol path = ext_answer (ext.dir_ch vol (strip_device path))

  abbrev pub ext4_rename_r : Vol → Str → Str → Vol × ExtResult ℕ
  ext4_rename_r vol old_path new_path =
      ext_answer (ext.frename vol (strip_device old_path) (strip_device new_path))

  abbrev pub ext4_mkdir_r : Vol → Str → Vol × ExtResult ℕ
  ext4_mkdir_r vol path = ext_answer (ext.dir_mk vol (strip_device path))

  abbrev pub ext4_rmdir_r : Vol → Str → Vol × ExtResult ℕ
  ext4_rmdir_r vol path = ext_answer (ext.dir_rm vol (strip_device path))

  abbrev pub ext4_chmod_r : Vol → Str → ℕ → Vol × ExtResult ℕ
  ext4_chmod_r vol path mode = ext_answer (ext.mode_set vol (strip_device path) mode)

  abbrev pub ext4_symlink_r : Vol → Str → Str → Vol × ExtResult ℕ
  ext4_symlink_r vol target path =
      ext_answer (ext.fsymlink vol (strip_device target) (strip_device path))

  -- `_ext4_readlink_r`, with the buffer.
  abbrev pub ext4_readlink_r : Vol → Str → ℕ → Str × ExtResult ℕ
  ext4_readlink_r vol path bufsiz =
      let r = ext.readlink vol (strip_device path) bufsiz in (r.1, return_if_eok r.0 r.2)

  -- `_ext4_diropen_r`, `_ext4_dirreset_r` and `_ext4_dirclose_r`.
  abbrev pub ext4_diropen_r : Vol → Str → ExtResult Dir
  ext4_diropen_r vol path = let r = ext.dir_open vol (strip_device path) in return_if_eok r.0 r.1

  abbrev pub ext4_dirreset_r : Dir → Dir × ExtResult ℕ
  ext4_dirreset_r dir = (ext.dir_entry_rewind dir, ext_done 0)

  abbrev pub ext4_dirclose_r : Dir → ExtResult ℕ
  ext4_dirclose_r dir = return_if_eok (ext.dir_close dir) 0

  module _ {State : Type 0} (limits : ExtLimits) (disc : DvmDisc State) where
    -- `_ext4_set_stat`
    unfoldable pub ext4_set_stat : Vol → ℕ → Inode → ExtStat
    ext4_set_stat vol ino inode = record {
      st_dev = disc.io_type;
      st_ino = ino;
      st_mode = inode.mode;
      st_nlink = inode.links_cnt;
      st_uid = inode.uid;
      st_gid = inode.gid;
      st_rdev = disc.io_type;
      st_size = inode.size;
      st_atime = inode.access_time;
      st_mtime = inode.modif_time;
      st_ctime = inode.change_inode_time;
      st_blksize = ext.block_size vol;
      st_blocks =
          (inode.blocks_count * limits.inode_block_size + limits.s_blksize - 1) / limits.s_blksize;
    }

    -- `_ext4_fstat_r`, of a file with an inode number.
    abbrev pub ext4_fstat_r : Vol → ℕ → ExtResult ExtStat
    ext4_fstat_r vol ino =
        let r = ext.raw_inode_fill2 vol ino in return_if_eok r.0 (ext4_set_stat vol ino r.1)

    -- `_ext4_stat_r`
    abbrev pub ext4_stat_r : Vol → Str → ExtResult ExtStat
    ext4_stat_r vol path =
        let r = ext.raw_inode_fill vol (strip_device path) in
        return_if_eok r.0 (ext4_set_stat vol r.2 r.1)

    -- The bytes of the name, cut at NAME_MAX, with a terminator.
    abbrev pub entry_name : ℕ → DirEntry → Str
    entry_name name_max de =
        take_str (if ltb name_max de.name_length then name_max else de.name_length) de.name
        ++ (0 ∷ [])

    abbrev pub entry_of : ℕ → ℕ → Vol → Option DirEntry → ExtResult (Str × ExtStat)
    entry_of enoent name_max vol none = ext_failed enoent
    entry_of enoent name_max vol (some de) =
        let r = ext.raw_inode_fill2 vol de.inode in
        return_if_eok r.0 (entry_name name_max de, ext4_set_stat vol de.inode r.1)

    -- `_ext4_dirnext_r`, with both buffers.
    unfoldable pub ext4_dirnext_r : ℕ → ℕ → Vol → Dir → Dir × ExtResult (Str × ExtStat)
    ext4_dirnext_r enoent name_max vol dir =
        let r = ext.dir_entry_next vol dir in (r.0, entry_of enoent name_max vol r.1)

    -- `_ext4_statvfs_r`, into a buffer.
    abbrev pub ext4_statvfs_r : Vol → ExtResult StatVfs
    ext4_statvfs_r vol =
        let r = ext.mount_point_stats vol in
        return_if_eok r.0 (record {
          f_bsize = r.1.block_size;
          f_frsize = r.1.block_size;
          f_blocks = r.1.blocks_count;
          f_bfree = r.1.free_blocks_count;
          f_bavail = r.1.free_blocks_count;
          f_files = r.1.inodes_count;
          f_ffree = r.1.free_inodes_count;
          f_favail = r.1.free_inodes_count;
          f_fsid = disc.io_type;
          st_nosuid = true;
          st_rdonly = ext.read_only vol;
          f_namemax = limits.filename_len;
        })

    -- `_ext4_fpathconf_r`, which `_ext4_pathconf_r` calls.
    unfoldable pub ext4_fpathconf_r : FatLimits → ℕ → Vol → PathConf → ExtResult ℕ
    ext4_fpathconf_r l einval vol pc_link_max = ext_done limits.link_max
    ext4_fpathconf_r l einval vol pc_name_max = ext_done limits.filename_len
    ext4_fpathconf_r l einval vol pc_path_max = ext_done l.path_max
    ext4_fpathconf_r l einval vol pc_no_trunc = ext_done 1
    ext4_fpathconf_r l einval vol pc_filesizebits =
        ext_done (if ext.rev_level vol == 0 then 32 else 64)
    ext4_fpathconf_r l einval vol pc_2_symlinks = ext_done 1
    ext4_fpathconf_r l einval vol pc_alloc_size_min = ext_done (ext.block_size vol)
    ext4_fpathconf_r l einval vol pc_rec_incr_xfer_size = ext_done disc.sector_sz
    ext4_fpathconf_r l einval vol pc_rec_max_xfer_size = ext_done (disc.sector_sz * (2 ^ 16 - 1))
    ext4_fpathconf_r l einval vol pc_rec_min_xfer_size =
        ext_done (if disc.block_sz == 0 then disc.sector_sz else disc.block_sz * disc.sector_sz)
    ext4_fpathconf_r l einval vol pc_rec_xfer_align = ext_done l.buffer_align
    ext4_fpathconf_r l einval vol pc_timestamp_resolution = ext_done 1_000_000_000
    ext4_fpathconf_r l einval vol pc_other = ext_failed einval
