-- ===== src/Prober/Table.antt =====
-- `_dvmReadPartitionTable` and `dvmReadPartitionTable` of `source/dvm_prober.c`.
use libdvm.Base.{
  ℕ, zero, suc, ◌+◌, ◌-◌, ◌*◌, ◌/◌, ◌%◌, ◌^◌, Bool, true, not, Option, none, some, List, [], ◌∷◌,
  ◌++◌, ◌&&◌, ◌||◌, ◌==◌, ltb, if◌then◌else◌, length,
}
use libdvm.Base.Strings.{Str}
use libdvm.Disc.{DvmDiscIface}
use libdvm.Disc.Memory.{Buf}
use libdvm.Disc.Object.{DvmDisc, disc_vt}
use libdvm.Prober.Ident.{Bytes, bytes_of, read32, ident_mbr_vbr}

-- `DvmPartInfo`. `fstype` is none for NULL.
pub record DvmPartInfo : Type 0 where
  pub index : ℕ
  pub type : ℕ
  pub fstype : Option Str
  pub start_sector : ℕ
  pub num_sectors : ℕ

-- The fields of `mbr_part[i]`.
abbrev pub part_at : ℕ → ℕ
part_at i = 0x1be + 16 * i

abbrev pub part_status : Bytes → ℕ → ℕ
part_status buf i = buf (part_at i)

abbrev pub part_type : Bytes → ℕ → ℕ
part_type buf i = buf (part_at i + 4)

-- The entry of the output for `mbr_part[i]`.
abbrev pub part_info : Bytes → ℕ → DvmPartInfo
part_info buf i = record {
  index = i + 1;
  type = part_type buf i;
  fstype = none;
  start_sector = read32 buf (part_at i + 8);
  num_sectors = read32 buf (part_at i + 12);
}

abbrev pub is_malformed : Bytes → ℕ → Bool
is_malformed buf i = not (part_status buf i == 0x80) && not (part_status buf i == 0x00)

abbrev pub is_skipped : Bytes → ℕ → Bool
is_skipped buf i = part_type buf i == 0x00 || part_type buf i == 0x05 || part_type buf i == 0x0f

abbrev pub part_end : DvmPartInfo → ℕ
part_end part = (part.start_sector + part.num_sectors) % 2 ^ 32

-- What the loop over the entries leaves: the output and `total_used_sectors`.
pub record Scanned : Type 0 where
  pub out : List DvmPartInfo
  pub used : ℕ

-- The loop over the entries from `i` on, `n` of them. `none` is the return on a malformed entry.
unfoldable pub scan : Bytes → ℕ → ℕ → ℕ → Scanned → Option Scanned
scan buf max_partitions zero i s = some s
scan buf max_partitions (suc n) i s =
    let part = part_info buf i in
    let used = if ltb s.used (part_end part) then part_end part else s.used in
    let next =
      scan buf max_partitions n (i + 1) (record { out = s.out ++ (part ∷ []); used = used }) in
    let skip = scan buf max_partitions n (i + 1) s in
    if ltb (length s.out) max_partitions
    then (if is_malformed buf i then none else if is_skipped buf i then skip else next)
    else some s

-- A disc and the partitions that were found on it, none where the code returns 0.
abbrev pub Probed : Type 0 → Type 0
Probed D = DvmDisc D × List DvmPartInfo

-- A partition with the file system that was identified on it, if any.
abbrev pub with_ident : DvmPartInfo → Option Str → DvmPartInfo
with_ident part none = part
with_ident part (some []) = part
with_ident part (some (c ∷ cs)) = record part { fstype = some (c ∷ cs) }

module _ {D : Type 0} where
  -- The partition that is the whole disc.
  abbrev pub whole_disc : DvmDisc D → Str → DvmPartInfo
  whole_disc disc ident = record {
    index = 0;
    type = 0;
    fstype = some ident;
    start_sector = 0;
    num_sectors = disc.num_sectors;
  }

module _ {D : Type 0} (vt : DvmDiscIface D) where
  -- The check of the size of the disc against the partitions, with the disc behind it. `none` is the
  -- return on partitions out of bounds.
  unfoldable pub validate_size : DvmDisc D → ℕ → Option (DvmDisc D)
  validate_size disc used =
      if disc.num_sectors == 2 ^ 32 - 1
      then some ((disc_vt vt).set_num_sectors used disc)
      else (if ltb disc.num_sectors used then none else some disc)

  -- The loop that identifies the file systems of the partitions `todo`, after those in `out`. `n` is
  -- how many sectors are read.
  unfoldable pub identify : ℕ → Buf → List DvmPartInfo → List DvmPartInfo → DvmDisc D → Probed D
  identify n buf [] out disc = (disc, out)
  identify n buf (part ∷ todo) out disc =
      let r = (disc_vt vt).read_sectors disc buf part.start_sector n true in
      let part' = with_ident part (ident_mbr_vbr (bytes_of disc.sector_sz r.buf)) in
      let rest = identify n r.buf todo (out ++ (part' ∷ [])) r.state in
      if r.ok then rest else (r.state, [])

  -- The part of `_dvmReadPartitionTable` behind the loop over the entries.
  unfoldable pub read_parts :
      Bool → ℕ → Buf → DvmDisc D → List DvmPartInfo → Option (DvmDisc D) → Probed D
  read_parts ident_fstype n buf disc out none = (disc, [])
  read_parts ident_fstype n buf disc out (some d) =
      if ident_fstype then identify n buf out [] d else (d, out)

  unfoldable pub read_scanned : Bool → ℕ → Buf → DvmDisc D → Option Scanned → Probed D
  read_scanned ident_fstype n buf disc none = (disc, [])
  read_scanned ident_fstype n buf disc (some s) =
      read_parts ident_fstype n buf disc s.out (validate_size disc s.used)

  -- The part of `_dvmReadPartitionTable` behind "Found MBR".
  unfoldable pub read_mbr : ℕ → Bool → ℕ → Buf → DvmDisc D → Probed D
  read_mbr max_partitions ident_fstype n buf disc =
      read_scanned ident_fstype n buf disc
        (scan (bytes_of disc.sector_sz buf) max_partitions 4 0 (record { out = []; used = 0 }))

  -- The part of `_dvmReadPartitionTable` behind the identification of the first sector.
  unfoldable pub read_ident : ℕ → Bool → ℕ → Buf → DvmDisc D → Option Str → Probed D
  read_ident max_partitions ident_fstype n buf disc none = (disc, [])
  read_ident max_partitions ident_fstype n buf disc (some []) =
      read_mbr max_partitions ident_fstype n buf disc
  read_ident max_partitions ident_fstype n buf disc (some (c ∷ cs)) =
      (disc, whole_disc disc (c ∷ cs) ∷ [])

  -- `_dvmReadPartitionTable`, with a buffer of `n` sectors.
  unfoldable pub read_table : ℕ → Bool → ℕ → Buf → DvmDisc D → Probed D
  read_table max_partitions ident_fstype n buf disc =
      let r = (disc_vt vt).read_sectors disc buf 0 n true in
      let ident = ident_mbr_vbr (bytes_of disc.sector_sz r.buf) in
      let found = read_ident max_partitions ident_fstype n r.buf r.state ident in
      if r.ok then found else (r.state, [])

  -- `dvmReadPartitionTable`, where the allocation succeeds.
  unfoldable pub read_partition_table : ℕ → Bool → Buf → DvmDisc D → Probed D
  read_partition_table max_partitions ident_fstype buf disc =
      let buf_sz = if ltb disc.sector_sz 2048 then 2048 else disc.sector_sz in
      if max_partitions == 0
      then (disc, [])
      else read_table max_partitions ident_fstype (buf_sz / disc.sector_sz) buf disc
