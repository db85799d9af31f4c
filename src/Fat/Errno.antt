-- ===== src/Fat/Errno.antt =====
-- `_FAT_set_errno` of `source/fat_driver.c`.
use libdvm.Base.{Option, none, some}

-- `FRESULT` of FatFs. `fr_other` is any number behind the last one.
pub data FResult : Type 0 where
  fr_ok fr_disk_err fr_int_err fr_not_ready fr_no_file fr_no_path fr_invalid_name fr_denied :
      FResult
  fr_exist fr_invalid_object fr_write_protected fr_invalid_drive fr_not_enabled : FResult
  fr_no_filesystem fr_mkfs_aborted fr_timeout fr_locked fr_not_enough_core : FResult
  fr_too_many_open_files fr_invalid_parameter fr_other : FResult

pub data FatErrno : Type 0 where
  eio einval enoent eacces eexist efault erofs enodev enoexec enfile eagain ebusy : FatErrno
  enomem emfile enosys : FatErrno

-- The error that is set, none on success.
abbrev pub fr_to_errno : FResult → Option FatErrno
fr_to_errno fr_ok = none
fr_to_errno fr_disk_err = some eio
fr_to_errno fr_int_err = some einval
fr_to_errno fr_not_ready = some eio
fr_to_errno fr_no_file = some enoent
fr_to_errno fr_no_path = some enoent
fr_to_errno fr_invalid_name = some einval
fr_to_errno fr_denied = some eacces
fr_to_errno fr_exist = some eexist
fr_to_errno fr_invalid_object = some efault
fr_to_errno fr_write_protected = some erofs
fr_to_errno fr_invalid_drive = some enodev
fr_to_errno fr_not_enabled = some enoexec
fr_to_errno fr_no_filesystem = some enfile
fr_to_errno fr_mkfs_aborted = some enoexec
fr_to_errno fr_timeout = some eagain
fr_to_errno fr_locked = some ebusy
fr_to_errno fr_not_enough_core = some enomem
fr_to_errno fr_too_many_open_files = some emfile
fr_to_errno fr_invalid_parameter = some einval
fr_to_errno fr_other = some einval

-- What a call returns: -1 with an error, or a value.
pub data FatResult (A : Type 0) : Type 0 where
  failed : FatErrno → FatResult A
  done : A → FatResult A

-- `_FAT_set_errno(fr, &r->_errno) ? a : -1`
abbrev pub return_if_ok : {A : Type 0} → Option FatErrno → A → FatResult A
return_if_ok none a = done a
return_if_ok (some e) a = failed e
