-- ===== src/Cache/SessionTests.antt =====
-- Runs of calls of the cache of `source/dvm_cache.c` on a disc in memory.
use libdvm.Base.{ℕ, ◌+◌, ◌≡◌, refl, true, false, some, List, [], ◌∷◌, arith}
use libdvm.Disc.{ReadReply}
use libdvm.Disc.Memory.{Sector, Buf}
use libdvm.Disc.Ram.{Ram, ram_vt, ram_content, RamIsOk, ram_laws}
use libdvm.Disc.Object.{DvmDisc, disc_vt, disc_laws}
use libdvm.Cache.Types.{DvmDiscCache}
use libdvm.Cache.Access.{Access}
use libdvm.Cache.ReadWrite.{read_write}
use libdvm.Cache.Create.{created}
use libdvm.Cache.Created.{created-Coherent}
use libdvm.Cache.Session.{Call, transfer, sync, Answer, run}
use libdvm.Cache.Refined.{Refined, run-Refined}
use libdvm.Cache.View.{view}
use libdvm.Cache.Paged.{IsPaged, created-IsPaged}
use libdvm.Cache.Ends.{read_write-ends}

-- A disc of 64 sectors, with its address in each, and a cache of two pages of eight sectors.
abbrev disc : DvmDisc Ram
disc = record {
  self = record { sectors = λ a. a ∷ []; broken = false };
  io_type = 1;
  features = 3;
  num_users = 1;
  num_sectors = 64;
  sector_sz = 512;
  block_sz = 0;
}

abbrev blank : Buf
blank a = []

abbrev fresh : DvmDiscCache (DvmDisc Ram)
fresh = (created disc 2 8 blank 3).self

abbrev content : DvmDisc Ram → ℕ → Sector
content d = ram_content d.self

abbrev AnyDisc : DvmDisc Ram → Type 0
AnyDisc d = RamIsOk d.self

abbrev writing : Access
writing = record { is_write = true; is_aligned = true; is_partial = false }

abbrev reading : Access
reading = record { is_write = false; is_aligned = true; is_partial = false }

-- Four accesses to three pages, so that one of them is replaced, and a flush between them.
abbrev calls : List Call
calls =
    transfer (λ a. (90 + a) ∷ []) 3 4 writing
    ∷ transfer blank 17 2 reading
    ∷ sync
    ∷ transfer (λ a. (70 + a) ∷ []) 40 8 writing
    ∷ transfer blank 2 6 reading
    ∷ []

run-Refined_example :
    (out : DvmDiscCache (DvmDisc Ram) × List Answer) × (run (disc_vt ram_vt) calls fresh ≡ some out)
    × Refined content AnyDisc 64 calls (view content fresh) out
run-Refined_example =
    run-Refined (disc_laws (ram_laws 64)) calls fresh (view content fresh)
      (created-Coherent ram_content RamIsOk disc 2 8 blank 3 tt (omega arith) (omega arith) refl
        (omega arith) (omega arith))
      (λ s ls. refl)
      (
        (omega arith, omega arith, omega arith),
        (
          (omega arith, omega arith, omega arith),
          (
            tt,
            (
              (omega arith, omega arith, omega arith),
              ((omega arith, omega arith, omega arith), tt),
            ),
          ),
        ),
      )

-- A read over three pages.
read_write-ends_example :
    (r : ReadReply (DvmDiscCache (DvmDisc Ram))) × (read_write
        (disc_vt ram_vt)
        fresh
        blank
        5
        18
        reading
      ≡ some r)
    × IsPaged r.state
read_write-ends_example =
    read_write-ends (disc_vt ram_vt) fresh blank 5 18 reading
      (created-IsPaged disc 2 8 blank 3 (omega arith))
