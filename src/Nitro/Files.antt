-- ===== src/Nitro/Files.antt =====
-- The files of `source/nitrofs.c`. The ROM and the library that reads it are a parameter.
use libdvm.Base.{
  ℕ, ◌+◌, ◌-◌, ◌%◌, ◌^◌, Option, none, some, List, [], ◌∷◌, ◌==◌, ltb, leb, if◌then◌else◌,
}
use libdvm.Base.Integers.{ℤ, pos, negsuc}
use libdvm.Base.Strings.{Str}

pub data Errno : Type 0 where
  enoent : Errno
  enotdir : Errno
  erofs : Errno
  eio : Errno
  einval : Errno

-- What a call returns: -1 with an `errno`, or a value.
pub data Result (A : Type 0) : Type 0 where
  failed : Errno → Result A
  done : A → Result A

-- An entry of a directory, `NitroRomIterEntry`.
pub record RomEntry : Type 0 where
  pub id : ℕ
  pub name : Str

-- What the code calls of the ROM. `resolve_path` is `nitroromResolvePath`, none where it answers a
-- negative number, and `read_file` is `nitroromReadFile`, none where it fails.
pub record NitroRom (Iter : Type 0) : Type 0 where
  pub file_size : ℕ → ℕ
  pub read_file : ℕ → ℕ → ℕ → Option (List ℕ)
  pub resolve_path : ℕ → Str → Option ℕ
  pub parent_dir : ℕ → ℕ
  pub open_iter : ℕ → Iter
  pub rewind_iter : Iter → Iter
  pub read_iter : Iter → Iter × Option RomEntry

-- `NITROROM_ROOT_DIR`
abbrev pub root_dir : ℕ
root_dir = 0xf000

-- `_nitroFS_file`
pub record NitroFile : Type 0 where
  pub pos : ℕ
  pub file_id : ℕ

-- `struct stat`, as far as the code sets it.
pub record Stat : Type 0 where
  pub st_ino : ℕ
  pub st_mode : ℕ
  pub st_nlink : ℕ
  pub st_uid : ℕ
  pub st_gid : ℕ
  pub st_size : ℕ

-- What stands behind the first colon, and the whole path where there is none.
abbrev pub after_colon : Str → Option Str
after_colon [] = none
after_colon (c ∷ cs) = if c == 58 then some cs else after_colon cs

abbrev pub strip_device : Str → Str
strip_device path = elim (after_colon path) [ none ↦ path | some s ↦ s ]

pub data Whence : Type 0 where
  seek_set : Whence
  seek_cur : Whence
  seek_end : Whence
  seek_other : Whence

-- The position that `whence` names.
abbrev pub seek_start : Whence → ℕ → ℕ → Option ℕ
seek_start seek_set at size = some 0
seek_start seek_cur at size = some at
seek_start seek_end at size = some size
seek_start seek_other at size = none

-- The position at `offset` from `start`, in 32 bits. `none` is a position before the file.
abbrev pub apply_offset : ℕ → ℤ → Option ℕ
apply_offset start (pos n) = some ((start + n) % 2 ^ 32)
apply_offset start (negsuc n) = if leb (n + 1) start then some (start - (n + 1)) else none

module _ {Iter : Type 0} (nr : NitroRom Iter) where
  -- `_nitroFS_set_stat`: the type and the permissions are `S_IFDIR` with 0777, or `S_IFREG` with 0444.
  abbrev pub set_stat : ℕ → Stat
  set_stat id =
      let is_dir = leb root_dir id in
      record {
        st_ino = id;
        st_mode = if is_dir then 0x4000 + 511 else 0x8000 + 292;
        st_nlink = 1;
        st_uid = 1;
        st_gid = 2;
        st_size = if is_dir then 0 else nr.file_size id;
      }

  -- `_nitroFS_open_r`. `access_mode` is `flags & O_ACCMODE`, and `O_RDONLY` is 0.
  unfoldable pub open_file : ℕ → Str → ℕ → Result NitroFile
  open_file cwd path access_mode =
      let opened : Option ℕ → Result NitroFile = λ i. elim i [
        | none ↦ failed enoent
        | some file_id ↦ done (record { pos = 0; file_id = file_id % 2 ^ 16 })
      ] in
      if access_mode == 0 then opened (nr.resolve_path cwd (strip_device path)) else failed erofs

  -- The end of `_nitroFS_read_r`, with what the ROM gave.
  abbrev pub read_end : NitroFile → ℕ → Option (List ℕ) → NitroFile × Result (List ℕ)
  read_end fil len none = (fil, failed eio)
  read_end fil len (some bytes) = (record fil { pos = (fil.pos + len) % 2 ^ 32 }, done bytes)

  -- `_nitroFS_read_r`: the file behind the call, and the bytes that were read.
  unfoldable pub read_file_r : NitroFile → ℕ → NitroFile × Result (List ℕ)
  read_file_r fil len =
      let max_read = (nr.file_size fil.file_id + 2 ^ 32 - fil.pos) % 2 ^ 32 in
      let n = if ltb len max_read then len else max_read in
      let got = nr.read_file fil.file_id fil.pos n in
      if n == 0 then read_end fil 0 (some []) else read_end fil n got

  -- The end of `_nitroFS_seek_r`.
  abbrev pub seek_end_at : NitroFile → Option ℕ → NitroFile × Result ℕ
  seek_end_at fil none = (fil, failed einval)
  seek_end_at fil (some p) =
      let fil_sz = nr.file_size fil.file_id in
      let p' = if ltb p fil_sz then p else fil_sz in (record fil { pos = p' }, done p')

  abbrev pub seek_from : NitroFile → ℤ → Option ℕ → NitroFile × Result ℕ
  seek_from fil offset none = (fil, failed einval)
  seek_from fil offset (some start) = seek_end_at fil (apply_offset start offset)

  -- `_nitroFS_seek_r`: the file behind the call, and the position.
  unfoldable pub seek_r : NitroFile → ℤ → Whence → NitroFile × Result ℕ
  seek_r fil offset whence =
      seek_from fil offset (seek_start whence fil.pos (nr.file_size fil.file_id))

  abbrev pub stat_of : Option ℕ → Result Stat
  stat_of none = failed enoent
  stat_of (some id) = done (set_stat id)

  -- `_nitroFS_fstat_r` and `_nitroFS_stat_r`.
  abbrev pub fstat_r : NitroFile → Stat
  fstat_r fil = set_stat fil.file_id

  unfoldable pub stat_r : ℕ → Str → Result Stat
  stat_r cwd path = stat_of (nr.resolve_path cwd (strip_device path))
