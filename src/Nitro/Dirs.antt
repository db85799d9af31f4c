-- ===== src/Nitro/Dirs.antt =====
-- The directories of `source/nitrofs.c`: the working directory and the listing of a directory.
use libdvm.Base.{
  ℕ, zero, suc, ◌%◌, ◌^◌, Option, none, some, List, [], ◌∷◌, ◌==◌, ltb, if◌then◌else◌,
}
use libdvm.Base.Strings.{Str}
use libdvm.Nitro.Files.{
  enoent, enotdir, Result, failed, done, NitroRom, RomEntry, Stat, root_dir, strip_device, set_stat,
}

-- `_nitroFS_dir`, without the entry that it reads into.
pub record NitroDir (Iter : Type 0) : Type 0 where
  pub it : Iter
  pub dir_id : ℕ
  pub it_pos : ℕ

-- What `dirnext` gives.
pub record Listed : Type 0 where
  pub filename : Str
  pub stat : Stat

-- "." and ".."
abbrev pub dot : Str
dot = 46 ∷ []

abbrev pub dot_dot : Str
dot_dot = 46 ∷ 46 ∷ []

-- The directory that a path was resolved to.
abbrev pub dir_at : Option ℕ → Result ℕ
dir_at none = failed enoent
dir_at (some id) = if ltb id root_dir then failed enotdir else done id

module _ {Iter : Type 0} (nr : NitroRom Iter) where
  -- `_nitroFS_chdir_r`: the working directory behind the call, and the answer.
  abbrev pub chdir_to : ℕ → Result ℕ → ℕ × Result ℕ
  chdir_to cwd (failed e) = (cwd, failed e)
  chdir_to cwd (done id) = (id % 2 ^ 16, done 0)

  unfoldable pub chdir_r : ℕ → Str → ℕ × Result ℕ
  chdir_r cwd path = chdir_to cwd (dir_at (nr.resolve_path cwd (strip_device path)))

  -- `_nitroFS_diropen_r`.
  abbrev pub open_at : Result ℕ → Result (NitroDir Iter)
  open_at (failed e) = failed e
  open_at (done id) = done (record { it = nr.open_iter id; dir_id = 0; it_pos = 0 })

  unfoldable pub diropen_r : ℕ → Str → Result (NitroDir Iter)
  diropen_r cwd path = open_at (dir_at (nr.resolve_path cwd (strip_device path)))

  -- `_nitroFS_dirreset_r`.
  abbrev pub dirreset_r : NitroDir Iter → NitroDir Iter
  dirreset_r d = record d { it = nr.rewind_iter d.it; it_pos = 0 }

  -- The part of `_nitroFS_dirnext_r` for real entries.
  abbrev pub real_entry : NitroDir Iter → Iter × Option RomEntry → NitroDir Iter × Result Listed
  real_entry d (it, none) = (record d { it = it }, failed enoent)
  real_entry d (it, some e) =
      (record d { it = it }, done (record { filename = e.name; stat = set_stat nr e.id }))

  -- `_nitroFS_dirnext_r`: the iterator behind the call, and the entry.
  unfoldable pub dirnext_r : NitroDir Iter → NitroDir Iter × Result Listed
  dirnext_r d =
      let here : Listed = record { filename = dot; stat = set_stat nr d.dir_id } in
      let above : Listed = record {
        filename = dot_dot;
        stat = set_stat nr (nr.parent_dir d.dir_id);
      } in
      if d.it_pos == 0
      then (record d { it_pos = if ltb root_dir d.dir_id then 1 else 2 }, done here)
      else (if d.it_pos == 1
          then (record d { it_pos = 2 }, done above)
          else real_entry d (nr.read_iter d.it))

  -- The calls of `readdir` until it fails, `n` at most: the names.
  unfoldable pub list_names : ℕ → NitroDir Iter → List Str
  list_names zero d = []
  list_names (suc n) d =
      let r = dirnext_r d in
      let rest = list_names n r.0 in elim r.1 [ failed e ↦ [] | done l ↦ l.filename ∷ rest ]
