-- ===== src/Nitro/Listing.antt =====
-- What the directories of `source/nitrofs.c` list, and where the working directory can be.
use libdvm.Base.{
  ℕ, suc, ◌%◌, ◌^◌, ◌≤◌, ◌<◌, ◌≡◌, refl, ap, ◌∙◌, ◌⊎◌, inl, inr, false, Option, none, some, List,
  [], ◌∷◌, map, length, ltb, arith, Bool-cases, Option-cases,
}
use libdvm.Base.Strings.{Str}
use libdvm.Nitro.Files.{
  enoent, enotdir, failed, done, NitroRom, RomEntry, root_dir, strip_device, set_stat,
}
use libdvm.Nitro.Dirs.{NitroDir, dot, chdir_r, diropen_r, real_entry, dirnext_r, list_names}

-- What the library promises of an iterator: `left` are the entries that are still to be read, those
-- of the directory at first.
pub record IterLaws {Iter : Type 0} (nr : NitroRom Iter) (entries : ℕ → List RomEntry)
    (left : Iter → List RomEntry) : Type 0 where
  pub opened : (id : ℕ) → left (nr.open_iter id) ≡ entries id
  pub ends : (it : Iter) → left it ≡ [] → (it' : Iter) × (nr.read_iter it ≡ (it', none))
  pub next :
      (it : Iter) (e : RomEntry) (es : List RomEntry)
      → left it ≡ e ∷ es
      → (it' : Iter) × (nr.read_iter it ≡ (it', some e)) × (left it' ≡ es)

module _ {Iter : Type 0} {nr : NitroRom Iter} {entries : ℕ → List RomEntry}
    {left : Iter → List RomEntry} (laws : IterLaws nr entries left) where
  real-names :
      (es : List RomEntry) (it : Iter) (dir_id : ℕ)
      → left it ≡ es
      → list_names nr (suc (length es)) (record { it = it; dir_id = dir_id; it_pos = 2 })
        ≡ map (λ e. e.name) es
  unfolding list_names dirnext_r
  real-names [] it dir_id h = let (it', e) = laws.ends it h in rw (list_names, e) refl
  real-names (x ∷ xs) it dir_id h =
      let (it', e, h') = laws.next it x xs h in
      let d : NitroDir Iter = record { it = it; dir_id = dir_id; it_pos = 2 } in
      ap
        (λ (r : Iter × Option RomEntry). elim (real_entry nr d r).1 [
          | failed e ↦ []
          | done l ↦ l.filename ∷ list_names nr (suc (length xs)) (real_entry nr d r).0
        ])
        e
      ∙ ap (λ ns. x.name ∷ ns) (real-names xs it' dir_id h')

  -- An open of a path that resolves to a directory succeeds, and the directory lists `.` and then its
  -- entries, with their names in order; `..` is never listed, and the status of `.` is that of the
  -- file 0.
  pub diropen_r-lists :
      (cwd : ℕ) (path : Str) (id : ℕ)
      → nr.resolve_path cwd (strip_device path) ≡ some id
      → root_dir ≤ id
      → (d : NitroDir Iter) × (diropen_r nr cwd path ≡ done d)
        × ((dirnext_r nr d).1 ≡ done (record { filename = dot; stat = set_stat nr 0 }))
        × (list_names nr (suc (suc (length (entries id)))) d ≡ dot ∷ map (λ e. e.name) (entries id))
  unfolding diropen_r list_names dirnext_r
  diropen_r-lists cwd path id e ge =
      let test : ltb id root_dir ≡ false = ground arith in
      (
        record { it = nr.open_iter id; dir_id = 0; it_pos = 0 },
        rw (e, test) refl,
        refl,
        ap (λ ns. dot ∷ ns) (real-names (entries id) (nr.open_iter id) 0 (laws.opened id)),
      )

-- A change of the working directory that fails leaves it, and one that succeeds makes it a directory:
-- where paths resolve to 16-bit numbers.
chdir_r-lem :
    {Iter : Type 0} (nr : NitroRom Iter) (cwd : ℕ) (path : Str)
    → ((id : ℕ) → nr.resolve_path cwd (strip_device path) ≡ some id → id < 2 ^ 16)
    → ((root_dir ≤ (chdir_r nr cwd path).0)
        × (nr.resolve_path cwd (strip_device path) ≡ some (chdir_r nr cwd path).0)
        × ((chdir_r nr cwd path).1 ≡ done 0))
      ⊎ ((chdir_r nr cwd path ≡ (cwd, failed enoent))
          × (nr.resolve_path cwd (strip_device path) ≡ none))
      ⊎ (chdir_r nr cwd path ≡ (cwd, failed enotdir))
unfolding chdir_r
chdir_r-lem nr cwd path word = elim (Option-cases (nr.resolve_path cwd (strip_device path))) [
  | inl e ↦ rw e (inr (inl (refl, refl)))
  | inr (id, e) ↦ elim (Bool-cases (ltb id root_dir)) [
    | inl file ↦ rw (e, file) (inr (inr refl))
    | inr dir ↦
        let small = word id e in
        let same : id % 2 ^ 16 ≡ id = omega arith in
        rw (e, dir, same) (inl (ground arith, refl, refl))
  ]
]
