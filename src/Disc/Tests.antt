-- ===== src/Disc/Tests.antt =====
-- Runs of the creation of a disc, on a disc in memory.
use libdvm.Base.{◌%◌, ◌^◌, ◌≤◌, ◌<◌, ◌⊎◌, ◌&&◌, none, some, ◌≡◌, true, false, ◌∷◌, [], arith}
use libdvm.Disc.Ram.{Ram, ram_vt}
use libdvm.Disc.Wrap.{DiscInterface, disc_create, disc_create-sized}
use libdvm.Disc.Object.{DvmDisc}

abbrev idle : DvmDisc Ram
idle = record {
  self = record { sectors = λ a. a ∷ []; broken = false };
  io_type = 1;
  features = 3;
  num_users = 0;
  num_sectors = 64;
  sector_sz = 512;
  block_sz = 0;
}

-- A device of 64 sectors that is never removed.
abbrev stick : DiscInterface Ram
stick = record {
  startup = λ d. (d, true);
  is_inserted = λ d. (d, true);
  read_sectors = λ d first n b. ram_vt.read_sectors d b first n false;
  write_sectors = λ d first n b. ram_vt.write_sectors d b first n false;
  flush = ram_vt.flush;
  shutdown = λ d. d;
  io_type = 1;
  features = 3;
  number_of_sectors = 64;
  bytes_per_sector = 512;
  sectors_per_block = 1;
}

disc_create-sized_example :
    ((disc_create stick idle.self).1 ≡ none)
    ⊎ ((disc : DvmDisc Ram) × ((disc_create stick idle.self).1 ≡ some disc)
        × (((stick.startup idle.self).1 && (stick.is_inserted (stick.startup idle.self).0).1)
            ≡ true)
        × (disc.num_sectors ≡ stick.number_of_sectors)
        × (0 < disc.num_sectors)
        × (disc.sector_sz ≡ stick.bytes_per_sector)
        × (512 ≤ disc.sector_sz)
        × (disc.block_sz ≡ stick.sectors_per_block % 2 ^ 16)
        × (disc.features ≡ stick.features % 2 ^ 16)
        × (disc.num_users ≡ 0))
disc_create-sized_example = disc_create-sized stick idle.self (omega arith)
