-- ===== src/Prober/Stored.antt =====
-- What `dvmReadPartitionTable` answers for a disc on which a table of four partitions is stored.
use libdvm.Base.{
  ℕ, zero, suc, ◌+◌, ◌-◌, ◌*◌, ◌/◌, ◌%◌, ◌^◌, ◌≤◌, ◌<◌, ◌≡◌, refl, sym, ap, subst, ◌∙◌, inl, inr,
  Bool, true, false, not, none, some, List, [], ◌∷◌, ◌&&◌, ◌||◌, ◌==◌, ltb, if◌then◌else◌, arith,
  Bool-cases,
}
use libdvm.Disc.{DvmDiscIface}
use libdvm.Disc.Memory.{Buf}
use libdvm.Disc.Object.{DvmDisc, disc_vt}
use libdvm.Prober.Ident.{Bytes, bytes_of, read32, ident_mbr_vbr}
use libdvm.Prober.Table.{
  DvmPartInfo, scan, part_info, validate_size, read_parts, read_scanned, read_mbr, read_ident,
  read_table, read_partition_table, Probed,
}
use libdvm.Prober.Populated.{populated, any_malformed, greatest_end, scan-room}

-- A partition as a table describes it.
pub record Partition : Type 0 where
  pub status : ℕ
  pub type : ℕ
  pub start : ℕ
  pub size : ℕ

-- A number of 32 bits is stored with its lowest byte first.
pub record Le32 (buf : Bytes) (a x : ℕ) : Type 0 where
  pub byte0 : buf a ≡ x % 256
  pub byte1 : buf (a + 1) ≡ x / 256 % 256
  pub byte2 : buf (a + 2) ≡ x / 65536 % 256
  pub byte3 : buf (a + 3) ≡ x / 16777216 % 256

-- The partition is stored as the entry `i` of a master boot record.
pub record Stored (buf : Bytes) (i : ℕ) (p : Partition) : Type 0 where
  pub status_at : buf (446 + 16 * i) ≡ p.status
  pub type_at : buf (446 + 16 * i + 4) ≡ p.type
  pub start_at : Le32 buf (446 + 16 * i + 8) p.start
  pub size_at : Le32 buf (446 + 16 * i + 12) p.size
  pub in_range : p.start + p.size < 2 ^ 32

-- An empty entry, or an extended partition.
abbrev pub is_hidden : ℕ → Bool
is_hidden type = type == 0 || type == 5 || type == 15

-- What is reported of `n` partitions from the one at `i` on.
abbrev pub listing : (ℕ → Partition) → ℕ → ℕ → List DvmPartInfo
listing ps zero i = []
listing ps (suc n) i =
    let p = ps i in
    let rest = listing ps n (i + 1) in
    let shown =
      record {
        index = i + 1;
        type = p.type;
        fstype = none;
        start_sector = p.start;
        num_sectors = p.size;
      }
      ∷ rest in
    if is_hidden p.type then rest else shown

-- Whether each of them is marked as active or as inactive.
abbrev pub all_marked : (ℕ → Partition) → ℕ → ℕ → Bool
all_marked ps zero i = true
all_marked ps (suc n) i = ((ps i).status == 0 || (ps i).status == 128) && all_marked ps n (i + 1)

-- The first sector behind all partitions.
abbrev pub behind_all : (ℕ → Partition) → ℕ → ℕ → ℕ
behind_all ps zero i = 0
behind_all ps (suc n) i =
    let end = (ps i).start + (ps i).size in
    let rest = behind_all ps n (i + 1) in
    if is_hidden ((ps i).type) then rest else if ltb rest end then end else rest

read32-Le32 : (buf : Bytes) (a x : ℕ) → x < 2 ^ 32 → Le32 buf a x → read32 buf a ≡ x
read32-Le32 buf a x lt s =
    let last : buf (a + 2 + 1) ≡ x / 16777216 % 256 = ap buf (omega arith) ∙ s.byte3 in
    omega (arith, last, s.byte0, s.byte1, s.byte2)

-- The greater of two numbers, of which the second is the greater of two.
greatest_of :
    (used end rest wrapped : ℕ)
    → wrapped ≡ end
    → (let u = if ltb used wrapped then wrapped else used in if ltb u rest then rest else u)
      ≡ (let m = if ltb rest end then end else rest in if ltb used m then m else used)
greatest_of used end rest wrapped e = ground arith

from_zero : (n : ℕ) → (if ltb 0 n then n else 0) ≡ n
from_zero n = ground arith

module _ (buf : Bytes) (ps : ℕ → Partition) where
  part_info-Stored :
      (i : ℕ)
      → Stored buf i (ps i)
      → part_info buf i ≡ (record {
        index = i + 1;
        type = (ps i).type;
        fstype = none;
        start_sector = (ps i).start;
        num_sectors = (ps i).size;
      })
  part_info-Stored i s =
      let start = read32-Le32 buf _ (ps i).start (omega (arith, s.in_range)) s.start_at in
      let size = read32-Le32 buf _ (ps i).size (omega (arith, s.in_range)) s.size_at in
      rw (s.type_at, start, size) refl

  populated-listing :
      (n i : ℕ) → ((j : ℕ) → j < i + n → Stored buf j (ps j)) → populated buf n i ≡ listing ps n i
  populated-listing zero i stored = refl
  populated-listing (suc n) i stored =
      let at = stored i (omega arith) in
      let rest = populated-listing n (i + 1) (λ j lt. stored j (omega arith)) in
      rw (part_info-Stored i at, rest, at.type_at) refl

  any_malformed-all_marked :
      (n i : ℕ)
      → ((j : ℕ) → j < i + n → Stored buf j (ps j))
      → any_malformed buf n i ≡ not (all_marked ps n i)
  any_malformed-all_marked zero i stored = refl
  any_malformed-all_marked (suc n) i stored =
      let at = stored i (omega arith) in
      let rest = any_malformed-all_marked n (i + 1) (λ j lt. stored j (omega arith)) in
      rw (rest, at.status_at)
        (elim (Bool-cases ((ps i).status == 0)) [
          | inl e ↦
              rw e
                (elim (Bool-cases ((ps i).status == 128)) [ inl h ↦ rw h refl | inr h ↦ rw h refl ])
          | inr e ↦ elim (Bool-cases ((ps i).status == 128)) [
            | inl h ↦ rw (e, h) refl
            | inr h ↦ rw (e, h) refl
          ]
        ])

  greatest_end-behind_all :
      (n i used : ℕ)
      → ((j : ℕ) → j < i + n → Stored buf j (ps j))
      → greatest_end used (listing ps n i)
        ≡ (if ltb used (behind_all ps n i) then behind_all ps n i else used)
  greatest_end-behind_all zero i used stored = ground arith
  greatest_end-behind_all (suc n) i used stored =
      let at = stored i (omega arith) in
      let end = (ps i).start + (ps i).size in
      let wrap : end % 2 ^ 32 ≡ end = omega (arith, at.in_range) in
      let rest = greatest_end-behind_all n (i + 1) in
      elim (Bool-cases (is_hidden (ps i).type)) [
        | inl e ↦ rw e (rest used (λ j lt. stored j (omega arith)))
        | inr e ↦ rw e (
            rest _ (λ j lt. stored j (omega arith))
            ∙ greatest_of used end (behind_all ps n (i + 1)) _ wrap)
      ]

scan-Stored :
    (buf : Bytes) (ps : ℕ → Partition) (max : ℕ)
    → 4 ≤ max
    → ((i : ℕ) → i < 4 → Stored buf i (ps i))
    → scan buf max 4 0 (record { out = []; used = 0 }) ≡ (
        if not (all_marked ps 4 0)
        then none
        else some (record { out = listing ps 4 0; used = behind_all ps 4 0 }))
scan-Stored buf ps max room stored =
    let stored' : (j : ℕ) → j < 0 + 4 → Stored buf j (ps j) =
      λ j lt. stored j (omega (arith, lt)) in
    let end : greatest_end 0 (listing ps 4 0) ≡ behind_all ps 4 0 =
      greatest_end-behind_all buf ps 4 0 0 stored' ∙ from_zero (behind_all ps 4 0) in
    scan-room buf max 4 0 (record { out = []; used = 0 }) (omega arith)
    ∙ ap
        (λ b.
          if b
          then none
          else some (record { out = populated buf 4 0; used = greatest_end 0 (populated buf 4 0) }))
        (any_malformed-all_marked buf ps 4 0 stored')
    ∙ ap
        (λ out.
          if not (all_marked ps 4 0)
          then none
          else some (record { out = out; used = greatest_end 0 out }))
        (populated-listing buf ps 4 0 stored')
    ∙ ap
        (λ used.
          if not (all_marked ps 4 0)
          then none
          else some (record { out = listing ps 4 0; used = used }))
        end

-- The disc and the report behind a table of `parts`, which end before the sector `behind`.
pub record Reported {D : Type 0} (vt : DvmDiscIface D) (disc : DvmDisc D) (marked : Bool)
    (behind : ℕ) (parts : List DvmPartInfo) (r : Probed D) : Type 0 where
  pub malformed : marked ≡ false → r ≡ (disc, [])
  pub unsized :
      marked ≡ true
      → disc.num_sectors ≡ 2 ^ 32 - 1
      → r ≡ ((disc_vt vt).set_num_sectors behind disc, parts)
  pub within :
      marked ≡ true → disc.num_sectors < 2 ^ 32 - 1 → behind ≤ disc.num_sectors → r ≡ (disc, parts)
  pub beyond :
      marked ≡ true → disc.num_sectors < 2 ^ 32 - 1 → disc.num_sectors < behind → r ≡ (disc, [])

module _ {D : Type 0} (vt : DvmDiscIface D) where
  read_scanned-Reported :
      (n : ℕ) (buf : Buf) (disc : DvmDisc D) (marked : Bool) (behind : ℕ) (parts : List DvmPartInfo)
      → Reported vt disc marked behind parts (
          read_scanned vt false n buf disc
            (if not marked then none else some (record { out = parts; used = behind })))
  unfolding read_scanned read_parts validate_size
  read_scanned-Reported n buf disc false behind parts = record {
    malformed = λ e. refl;
    unsized = cc;
    within = cc;
    beyond = cc;
  }
  read_scanned-Reported n buf disc true behind parts = record {
    malformed = cc;
    unsized = λ e s. rw s refl;
    within = λ e lt le.
        let known : disc.num_sectors == 2 ^ 32 - 1 ≡ false = ground arith in
        let fits : ltb disc.num_sectors behind ≡ false = ground arith in rw (known, fits) refl;
    beyond = λ e lt gt.
        let known : disc.num_sectors == 2 ^ 32 - 1 ≡ false = ground arith in
        let big : ltb disc.num_sectors behind ≡ true = ground arith in rw (known, big) refl;
  }

  -- Of a table of four partitions, stored in the first sector as a master boot record, exactly those are
  -- reported that are neither empty nor extended, in their order, with their numbers, types and places.
  -- If one of the four is not marked as active or as inactive, or if one that would be reported ends
  -- behind the disc, nothing is reported, and a disc of unknown size gets the size that they need. This
  -- is without the identification of file systems, where there is room for four partitions, and where
  -- each ends within 32 bits.
  pub read_partition_table-Reported :
      (max : ℕ) (buf : Buf) (disc : DvmDisc D) (ps : ℕ → Partition)
      → 4 ≤ max
      → let buf_sz = if ltb disc.sector_sz 2048 then 2048 else disc.sector_sz in
        let r = (disc_vt vt).read_sectors disc buf 0 (buf_sz / disc.sector_sz) true in
        let bytes = bytes_of disc.sector_sz r.buf in
        r.ok ≡ true
        → ident_mbr_vbr bytes ≡ some []
        → ((i : ℕ) → i < 4 → Stored bytes i (ps i))
        → Reported vt r.state
            (all_marked ps 4 0)
            (behind_all ps 4 0)
            (listing ps 4 0)
            (read_partition_table vt max false buf disc)
  unfolding read_partition_table read_table read_ident read_mbr
  read_partition_table-Reported max buf disc ps room ok mbr stored =
      let n = (if ltb disc.sector_sz 2048 then 2048 else disc.sector_sz) / disc.sector_sz in
      let r = (disc_vt vt).read_sectors disc buf 0 n true in
      let some_room : max == 0 ≡ false = ground arith in
      let scanned : read_partition_table vt max false buf disc
          ≡ read_scanned vt false n r.buf r.state
              (scan (bytes_of disc.sector_sz r.buf) max 4 0 (record { out = []; used = 0 })) =
        rw (some_room, ok, mbr) refl in
      let all =
        scanned
        ∙ ap (read_scanned vt false n r.buf r.state)
            (scan-Stored (bytes_of disc.sector_sz r.buf) ps max room stored) in
      subst (Reported vt r.state (all_marked ps 4 0) (behind_all ps 4 0) (listing ps 4 0)) (sym all)
        (read_scanned-Reported n r.buf r.state (all_marked ps 4 0) (behind_all ps 4 0)
          (listing ps 4 0))
