-- ===== src/Prober/Scan.antt =====
-- What `dvmReadPartitionTable` reports.
use libdvm.Base.{
  ℕ, zero, suc, ◌+◌, ◌-◌, ◌^◌, ◌≤◌, ◌<◌, ◌≡◌, ◌≢◌, refl, ◌⊎◌, inl, inr, Bool, true, false, Option,
  none, some, List, [], ◌∷◌, ◌++◌, ◌==◌, ltb, if◌then◌else◌, length, arith, Bool-cases,
}
use libdvm.Base.Strings.{Str}
use libdvm.Disc.{DvmDiscIface, ReadReply}
use libdvm.Disc.Memory.{Buf}
use libdvm.Disc.Object.{DvmDisc, disc_vt}
use libdvm.Prober.Ident.{Bytes, bytes_of, ident_mbr_vbr}
use libdvm.Prober.Table.{
  DvmPartInfo, Scanned, scan, part_info, part_end, is_malformed, is_skipped, with_ident, read_parts,
  read_scanned, read_ident, identify, validate_size, read_mbr, read_table, read_partition_table,
  whole_disc, Probed,
}

-- The partition has a number from 1 to 4, `lo` at least, is populated, not extended, and ends within
-- the first `bound` sectors.
pub record PartOk (bound : ℕ) (part : DvmPartInfo) : Type 0 where
  pub first : 1 ≤ part.index
  pub last : part.index ≤ 4
  pub populated : (part.type ≢ 0x00) × (part.type ≢ 0x05) × (part.type ≢ 0x0f)
  pub ends : part_end part ≤ bound

abbrev pub AllOk : ℕ → List DvmPartInfo → Type 0
AllOk bound [] = Unit {0}
AllOk bound (p ∷ ps) = PartOk bound p × AllOk bound ps

AllOk-append :
    (bound : ℕ) (ps qs : List DvmPartInfo)
    → AllOk bound ps
    → AllOk bound qs
    → AllOk bound (ps ++ qs)
AllOk-append bound [] qs h k = k
AllOk-append bound (p ∷ ps) qs (h, hs) k = (h, AllOk-append bound ps qs hs k)

AllOk-le : (b c : ℕ) (ps : List DvmPartInfo) → b ≤ c → AllOk b ps → AllOk c ps
AllOk-le b c [] le h = tt
AllOk-le b c (p ∷ ps) le (h, hs) = (
  record { first = h.first; last = h.last; populated = h.populated; ends = omega (arith, h.ends) },
  AllOk-le b c ps le hs,
)

pub length-snoc :
    (ps : List DvmPartInfo) (p : DvmPartInfo) → length (ps ++ (p ∷ [])) ≡ length ps + 1
length-snoc [] p = refl
length-snoc (q ∷ ps) p = omega (arith, length-snoc ps p)

-- A part of the table that was scanned.
abbrev ScanOk : ℕ → Scanned → Type 0
ScanOk max s = (length s.out ≤ max) × AllOk s.used s.out

abbrev ScanAnswer : ℕ → Option Scanned → Type 0
ScanAnswer max none = Unit {0}
ScanAnswer max (some t) = ScanOk max t

-- An entry of the table that is taken.
take-ScanOk :
    (buf : Bytes) (max i : ℕ) (s : Scanned)
    → suc i ≤ 4
    → length s.out < max
    → is_skipped buf i ≡ false
    → AllOk s.used s.out
    → ScanOk max (record {
      out = s.out ++ (part_info buf i ∷ []);
      used = if ltb s.used (part_end (part_info buf i)) then part_end (part_info buf i) else s.used;
    })
take-ScanOk buf max i s le room take ok =
    let e : ℕ = part_end (part_info buf i) in
    let used : ℕ = if ltb s.used e then e else s.used in
    let grows : (s.used ≤ used) × (e ≤ used) = ground arith in
    (
      omega (arith, length-snoc s.out (part_info buf i)),
      AllOk-append used s.out (part_info buf i ∷ []) (AllOk-le s.used used s.out grows.0 ok) (
        record {
          first = omega arith;
          last = omega arith;
          populated = ground arith;
          ends = grows.1;
        },
        tt,
      ),
    )

scan-ScanAnswer :
    (buf : Bytes) (max n i : ℕ) (s : Scanned)
    → n + i ≤ 4
    → ScanOk max s
    → ScanAnswer max (scan buf max n i s)
unfolding scan
scan-ScanAnswer buf max zero i s le ok = ok
scan-ScanAnswer buf max (suc n) i s le ok = elim (Bool-cases (ltb (length s.out) max)) [
  | inr full ↦ rw full ok
  | inl room ↦ rw room (elim (Bool-cases (is_malformed buf i)) [
    | inl bad ↦ rw bad tt
    | inr good ↦ rw good (elim (Bool-cases (is_skipped buf i)) [
      | inl skip ↦ rw skip (scan-ScanAnswer buf max n (i + 1) s (omega arith) ok)
      | inr take ↦ rw take (
          scan-ScanAnswer buf max n (i + 1) _ (omega arith)
            (take-ScanOk buf max i s (omega arith) (ground arith) take ok.1))
    ])
  ])
]

with_ident-PartOk :
    (bound : ℕ) (part : DvmPartInfo) (ident : Option Str)
    → PartOk bound part
    → PartOk bound (with_ident part ident)
with_ident-PartOk bound part none h = h
with_ident-PartOk bound part (some []) h = h
with_ident-PartOk bound part (some (c ∷ cs)) h = record {
  first = h.first;
  last = h.last;
  populated = h.populated;
  ends = h.ends;
}

-- The partitions are in order on their disc, and `max` at most.
abbrev pub Reported : {D : Type 0} → ℕ → Probed D → Type 0
Reported max p = (length p.1 ≤ max) × AllOk p.0.num_sectors p.1

-- Either that, or the whole disc as one partition.
abbrev pub Outcome : {D : Type 0} → ℕ → Probed D → Type 0
Outcome max p = Reported max p ⊎ ((name : Str) × (p.1 ≡ whole_disc p.0 name ∷ []))

module _ {D : Type 0} (vt : DvmDiscIface D) (max n : ℕ) where
  -- To identify file systems changes nothing else of the partitions, and a failed read drops them.
  identify-Reported :
      (buf : Buf) (todo out : List DvmPartInfo) (disc : DvmDisc D)
      → length out + length todo ≤ max
      → AllOk disc.num_sectors out
      → AllOk disc.num_sectors todo
      → Reported max (identify vt n buf todo out disc)
  unfolding identify
  identify-Reported buf [] out disc few ok ok' = (omega arith, ok)
  identify-Reported buf (part ∷ todo) out disc few ok (h, hs) =
      let r : ReadReply (DvmDisc D) = (disc_vt vt).read_sectors disc buf part.start_sector n true in
      let part' : DvmPartInfo = with_ident part (ident_mbr_vbr (bytes_of disc.sector_sz r.buf)) in
      elim (Bool-cases r.ok) [
        | inr bad ↦ rw bad (omega arith, tt)
        | inl good ↦ rw good (
            identify-Reported r.buf todo (out ++ (part' ∷ [])) r.state
              (omega (arith, length-snoc out part'))
              (AllOk-append disc.num_sectors out (part' ∷ []) ok
                (with_ident-PartOk disc.num_sectors part _ h, tt))
              hs)
      ]

  -- What is behind the check of the size.
  read_parts-Reported :
      (fs : Bool) (buf : Buf) (disc : DvmDisc D) (s : Scanned)
      → ScanOk max s
      → Reported max (read_parts vt fs n buf disc s.out (validate_size vt disc s.used))
  unfolding read_parts validate_size
  read_parts-Reported fs buf disc s (few, ok) = elim (Bool-cases (disc.num_sectors == 2 ^ 32 - 1)) [
    | inl all ↦ rw all (found fs ((disc_vt vt).set_num_sectors s.used disc) ok)
    | inr sized ↦ rw sized (elim (Bool-cases (ltb disc.num_sectors s.used)) [
      | inl over ↦ rw over (omega arith, tt)
      | inr fits ↦
          rw fits (found fs disc (AllOk-le s.used disc.num_sectors s.out (ground arith) ok))
    ])
  ]
    where
      found :
          (fs : Bool) (d : DvmDisc D)
          → AllOk d.num_sectors s.out
          → Reported max (if fs then identify vt n buf s.out [] d else (d, s.out))
      found true d ok = identify-Reported buf s.out [] d (omega arith) tt ok
      found false d ok = (few, ok)

  read_scanned-Reported :
      (fs : Bool) (buf : Buf) (disc : DvmDisc D) (s : Option Scanned)
      → ScanAnswer max s
      → Reported max (read_scanned vt fs n buf disc s)
  unfolding read_scanned
  read_scanned-Reported fs buf disc none h = (omega arith, tt)
  read_scanned-Reported fs buf disc (some s) h = read_parts-Reported fs buf disc s h

  read_ident-Outcome :
      (fs : Bool) (buf : Buf) (disc : DvmDisc D) (ident : Option Str)
      → 0 < max
      → Outcome max (read_ident vt max fs n buf disc ident)
  unfolding read_ident read_mbr
  read_ident-Outcome fs buf disc none pos = inl (omega arith, tt)
  read_ident-Outcome fs buf disc (some []) pos = inl (
      read_scanned-Reported fs buf disc _ (
        scan-ScanAnswer (bytes_of disc.sector_sz buf) max 4 0 (record { out = []; used = 0 })
          (omega arith) (omega arith, tt)))
  read_ident-Outcome fs buf disc (some (c ∷ cs)) pos = inr (c ∷ cs, refl)

  read_table-Outcome :
      (fs : Bool) (buf : Buf) (disc : DvmDisc D)
      → 0 < max
      → Outcome max (read_table vt max fs n buf disc)
  unfolding read_table
  read_table-Outcome fs buf disc pos =
      let r : ReadReply (DvmDisc D) = (disc_vt vt).read_sectors disc buf 0 n true in
      elim (Bool-cases r.ok) [
        | inl good ↦ rw good (
            read_ident-Outcome fs r.buf r.state (ident_mbr_vbr (bytes_of disc.sector_sz r.buf)) pos)
        | inr bad ↦ rw bad (inl (omega arith, tt))
      ]

module _ {D : Type 0} (vt : DvmDiscIface D) (max : ℕ) (fs : Bool) (buf : Buf)
    (disc : DvmDisc D) where
  -- What is reported is `max_partitions` partitions at most, each of them populated, not extended,
  -- numbered from 1 to 4, and with its end, of 32 bits, within the size of the disc that is left; or it
  -- is one partition that is the whole disc.
  pub read_partition_table-Outcome : Outcome max (read_partition_table vt max fs buf disc)
  unfolding read_partition_table
  read_partition_table-Outcome = elim (Bool-cases (max == 0)) [
    | inl nothing ↦ rw nothing (inl (omega arith, tt))
    | inr more ↦ rw more (read_table-Outcome vt max _ fs buf disc (ground arith))
  ]
