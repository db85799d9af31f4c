-- ===== src/Prober/Tests.antt =====
-- Runs of the prober on a disc with a master boot record.
use libdvm.Base.{
  ℕ, zero, suc, ◌+◌, ◌<◌, arith, ◌≡◌, refl, true, false, none, some, List, [], ◌∷◌, ◌==◌,
  if◌then◌else◌,
}
use libdvm.Disc.Memory.{Buf}
use libdvm.Disc.Ram.{Ram, ram_vt}
use libdvm.Disc.Object.{DvmDisc}
use libdvm.Prober.Ident.{Bytes, bytes_of, ident_mbr_vbr}
use libdvm.Prober.Table.{scan, read_partition_table}
use libdvm.Prober.Stored.{
  Partition, Stored, Reported, listing, all_marked, behind_all, read_partition_table-Reported,
}
use libdvm.Prober.Scan.{Outcome, read_partition_table-Outcome}

-- A partition of type 12 and of 100 sectors from 2048 on, in the first entry.
abbrev mbr : Bytes
mbr i =
    if i == 0x1be + 4
    then 12
    else if i == 0x1be + 9
    then 8
    else if i == 0x1be + 12
    then 100
    else if i == 0x1fe
    then 0x55
    else if i == 0x1ff
    then 0xaa
    else 0

abbrev listed : ℕ → ℕ → List ℕ
listed zero i = []
listed (suc n) i = mbr i ∷ listed n (i + 1)

abbrev disc : DvmDisc Ram
disc = record {
  self = record { sectors = λ a. if a == 0 then listed 512 0 else []; broken = false };
  io_type = 1;
  features = 3;
  num_users = 0;
  num_sectors = 4096;
  sector_sz = 512;
  block_sz = 0;
}

abbrev blank : Buf
blank a = []

read_partition_table-Outcome_example : Outcome 4 (read_partition_table ram_vt 4 true blank disc)
read_partition_table-Outcome_example = read_partition_table-Outcome ram_vt 4 true blank disc

found_one :
    scan mbr 4 4 0 (record { out = []; used = 0 })
    ≡ some (record {
      out =
          record { index = 1; type = 12; fstype = none; start_sector = 2048; num_sectors = 100 }
          ∷ [];
      used = 2148;
    })
unfolding scan
found_one = refl

-- The partition in the first entry, and three empty entries.
abbrev one_of_four : ℕ → Partition
one_of_four zero = record { status = 0; type = 12; start = 2048; size = 100 }
one_of_four (suc i) = record { status = 0; type = 0; start = 0; size = 0 }

abbrev first_sector : Bytes
first_sector = bytes_of 512 (ram_vt.read_sectors disc.self blank 0 4 true).buf

one_of_four-Stored : (i : ℕ) → i < 4 → Stored first_sector i (one_of_four i)
one_of_four-Stored zero lt = record {
  status_at = refl;
  type_at = refl;
  start_at = record { byte0 = refl; byte1 = refl; byte2 = refl; byte3 = refl };
  size_at = record { byte0 = refl; byte1 = refl; byte2 = refl; byte3 = refl };
  in_range = omega arith;
}
one_of_four-Stored (suc zero) lt = record {
  status_at = refl;
  type_at = refl;
  start_at = record { byte0 = refl; byte1 = refl; byte2 = refl; byte3 = refl };
  size_at = record { byte0 = refl; byte1 = refl; byte2 = refl; byte3 = refl };
  in_range = omega arith;
}
one_of_four-Stored (suc (suc zero)) lt = record {
  status_at = refl;
  type_at = refl;
  start_at = record { byte0 = refl; byte1 = refl; byte2 = refl; byte3 = refl };
  size_at = record { byte0 = refl; byte1 = refl; byte2 = refl; byte3 = refl };
  in_range = omega arith;
}
one_of_four-Stored (suc (suc (suc zero))) lt = record {
  status_at = refl;
  type_at = refl;
  start_at = record { byte0 = refl; byte1 = refl; byte2 = refl; byte3 = refl };
  size_at = record { byte0 = refl; byte1 = refl; byte2 = refl; byte3 = refl };
  in_range = omega arith;
}
one_of_four-Stored (suc (suc (suc (suc i)))) lt = absurd (omega arith)

identified : ident_mbr_vbr first_sector ≡ some []
unfolding ident_mbr_vbr
identified = refl

read_partition_table-Reported_example :
    Reported ram_vt disc
      (all_marked one_of_four 4 0)
      (behind_all one_of_four 4 0)
      (listing one_of_four 4 0)
      (read_partition_table ram_vt 4 false blank disc)
read_partition_table-Reported_example =
    read_partition_table-Reported ram_vt 4 blank disc one_of_four (omega arith) refl identified
      one_of_four-Stored
