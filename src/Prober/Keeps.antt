-- ===== src/Prober/Keeps.antt =====
-- Reading the partition table of a disc, `source/dvm_prober.c`, leaves the number of its users.
use libdvm.Base.{
  ℕ, ◌≡◌, refl, ◌∙◌, Bool, true, false, Option, none, some, List, [], ◌∷◌, ◌==◌, ltb, if◌then◌else◌,
  ◌/◌, arith, Bool-cases, inl, inr,
}
use libdvm.Base.Strings.{Str}
use libdvm.Disc.{DvmDiscIface}
use libdvm.Disc.Memory.{Buf}
use libdvm.Disc.Object.{DvmDisc, disc_vt}
use libdvm.Prober.Ident.{ident_mbr_vbr, bytes_of}
use libdvm.Prober.Table.{
  DvmPartInfo, Scanned, validate_size, identify, read_parts, read_scanned, read_mbr, read_ident,
  read_table, read_partition_table,
}

module _ {D : Type 0} (vt : DvmDiscIface D) where
  identify-users :
      (n : ℕ) (buf : Buf) (todo out : List DvmPartInfo) (d : DvmDisc D)
      → (identify vt n buf todo out d).0.num_users ≡ d.num_users
  unfolding identify
  identify-users n buf [] out d = refl
  identify-users n buf (part ∷ todo) out d =
      let r = (disc_vt vt).read_sectors d buf part.start_sector n true in
      elim (Bool-cases r.ok) [
        | inl e ↦ rw e (identify-users n r.buf todo _ r.state)
        | inr e ↦ rw e refl
      ]

  parts-users :
      (ident : Bool) (n : ℕ) (buf : Buf) (d : DvmDisc D) (out : List DvmPartInfo)
      (v : Option (DvmDisc D))
      → ((e : DvmDisc D) → v ≡ some e → e.num_users ≡ d.num_users)
      → (read_parts vt ident n buf d out v).0.num_users ≡ d.num_users
  unfolding read_parts
  parts-users ident n buf d out none h = refl
  parts-users true n buf d out (some e) h = identify-users n buf out [] e ∙ h e refl
  parts-users false n buf d out (some e) h = h e refl

  validate-users :
      (d : DvmDisc D) (used : ℕ) (e : DvmDisc D)
      → validate_size vt d used ≡ some e
      → e.num_users ≡ d.num_users
  unfolding validate_size
  validate-users d used e h = ground arith

  scanned-users :
      (ident : Bool) (n : ℕ) (buf : Buf) (d : DvmDisc D) (s : Option Scanned)
      → (read_scanned vt ident n buf d s).0.num_users ≡ d.num_users
  unfolding read_scanned
  scanned-users ident n buf d none = refl
  scanned-users ident n buf d (some s) =
      parts-users ident n buf d s.out (validate_size vt d s.used) (validate-users d s.used)

  ident-users :
      (m : ℕ) (ident : Bool) (n : ℕ) (buf : Buf) (d : DvmDisc D) (s : Option Str)
      → (read_ident vt m ident n buf d s).0.num_users ≡ d.num_users
  unfolding read_ident read_mbr
  ident-users m ident n buf d none = refl
  ident-users m ident n buf d (some []) = scanned-users ident n buf d _
  ident-users m ident n buf d (some (c ∷ cs)) = refl

  pub read_partition_table-users :
      (m : ℕ) (ident : Bool) (buf : Buf) (d : DvmDisc D)
      → (read_partition_table vt m ident buf d).0.num_users ≡ d.num_users
  unfolding read_partition_table read_table
  read_partition_table-users m ident buf d = elim (Bool-cases (m == 0)) [
    | inl e ↦ rw e refl
    | inr e ↦
        let n = (if ltb d.sector_sz 2048 then 2048 else d.sector_sz) / d.sector_sz in
        let r = (disc_vt vt).read_sectors d buf 0 n true in
        rw e (elim (Bool-cases r.ok) [
          | inl ok ↦
              rw ok
                (ident-users m ident n r.buf r.state (ident_mbr_vbr (bytes_of d.sector_sz r.buf)))
          | inr bad ↦ rw bad refl
        ])
  ]
