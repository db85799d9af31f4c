-- ===== src/Cache/Tests.antt =====
-- Runs of the cache of `source/dvm_cache.c` on a disc in memory.
use mathlib.Core.Option
use libdvm.Base.{ℕ, ◌≡◌, ◌<◌, ◌+◌, refl, true, false, some, [], ◌∷◌, if◌then◌else◌, ◌==◌, arith}
use libdvm.Disc.{ReadReply, DiscLaws}
use libdvm.Disc.Memory.{Sector, Buf}
use libdvm.Disc.Ram.{Ram, ram_vt, ram_content, RamIsOk, ram_laws}
use libdvm.Disc.Object.{DvmDisc, disc_vt, disc_laws, add_user}
use libdvm.Cache.View.{view}
use libdvm.Cache.Types.{DvmDiscCache, page_sz}
use libdvm.Cache.Flush.{cache_flush, flush_from, entry_flush}
use libdvm.Cache.Search.{search}
use libdvm.Cache.Order.{Nearest, search-Nearest}
use libdvm.Cache.Invariant.{IsCoherent}
use libdvm.Cache.Replace.{replace-Replaced}
use libdvm.Cache.Load.{Replaced}
use libdvm.Base.Members.{unlink}
use libdvm.Cache.Access.{
  locate, victim, load, make_mru, is_first, hit_read, Access, replace, last_victim,
}
use libdvm.Cache.Create.{cache_create, created, cache_destroy}
use libdvm.Cache.Created.{created-Coherent, cache_create-IsCoherent, cache_destroy-stores}
use libdvm.Cache.ReadWrite.{read_write, access_page, start, through_cache}
use libdvm.Cache.MissStep.{Missed, through_cache-Missed}
use libdvm.Cache.Transfer.{read_write-Served, one_page-IsSafe, Served}
use libdvm.Cache.FlushAll.{cache_flush-stores}

-- A disc of 64 sectors, with its address in each, and a cache of three pages of eight sectors.
abbrev disc : DvmDisc Ram
disc = record {
  self = record { sectors = λ a. a ∷ []; broken = false };
  io_type = 1;
  features = 3;
  num_users = 1;
  num_sectors = 64;
  sector_sz = 512;
  block_sz = 0;
}

abbrev blank : Buf
blank a = []

abbrev fresh : DvmDiscCache (DvmDisc Ram)
fresh = (created disc 3 8 blank 3).self

abbrev content : DvmDisc Ram → ℕ → Sector
content d = ram_content d.self

abbrev AnyDisc : DvmDisc Ram → Type 0
AnyDisc d = RamIsOk d.self

laws : DiscLaws (disc_vt ram_vt) 64 content AnyDisc
laws = disc_laws (ram_laws 64)

fresh-IsCoherent : IsCoherent content AnyDisc 64 fresh
fresh-IsCoherent =
    created-Coherent ram_content RamIsOk disc 3 8 blank 3 tt (omega arith) (omega arith) refl
      (omega arith) (omega arith)

abbrev writing : Access
writing = record { is_write = true; is_aligned = true; is_partial = false }

abbrev reading : Access
reading = record { is_write = false; is_aligned = true; is_partial = false }

abbrev misaligned : Access
misaligned = record reading { is_aligned = false }

abbrev nines : ℕ → Sector
nines a = (90 + a) ∷ []

cache_create-IsCoherent_example :
    (made : DvmDisc (DvmDiscCache (DvmDisc Ram))) × (cache_create disc 3 8 blank ≡ some (some made))
    × IsCoherent content AnyDisc 64 made.self
    × (page_sz made.self ≡ 8)
    × (made.self.inner ≡ add_user disc)
    × ((a : ℕ) → a < 64 → view content made.self a ≡ ram_content disc.self a)
cache_create-IsCoherent_example =
    cache_create-IsCoherent ram_content RamIsOk disc 3 8 blank tt (omega arith) refl (omega arith)

-- The write of four sectors through the cache.
read_write-Served_example :
    (r : ReadReply (DvmDiscCache (DvmDisc Ram))) × (read_write
        (disc_vt ram_vt)
        fresh
        nines
        3
        4
        writing
      ≡ some r)
    × Served content AnyDisc 64 true fresh nines 3 4 r
read_write-Served_example =
    read_write-Served laws fresh nines 3 4 writing fresh-IsCoherent (omega arith) (omega arith)
      (one_page-IsSafe fresh 3 4 writing fresh-IsCoherent (omega arith))

-- The cache with the page of sector 8 in its first entry, and that sector dirty.
abbrev dirty : DvmDiscCache (DvmDisc Ram)
dirty = record fresh {
  inner = add_user disc;
  page_data = λ a. if a == 0 then 99 ∷ [] else (8 + a) ∷ [];
  entries = λ q.
      if q == 0
      then record { base_sector = 8; dirty_start = 0; dirty_end = 1 }
      else record { base_sector = 0xffff_ffff; dirty_start = 8; dirty_end = 0 };
  order = 0 ∷ 1 ∷ 2 ∷ [];
}

dirty-IsCoherent : IsCoherent content AnyDisc 64 dirty
dirty-IsCoherent = record {
  sized = refl;
  small = omega arith;
  pos = omega arith;
  narrow = omega arith;
  some_page = omega arith;
  ordered = record {
    used = 0 ∷ [];
    unused = 1 ∷ 2 ∷ [];
    split = refl;
    full = λ q h e. ground arith;
    vacant = λ q h. ground arith;
    nodup = (refl, (refl, (refl, tt)));
    listed = λ q lt. ground arith;
    slots = λ q h. ground arith;
  };
  entry_ok = λ q lq used. ground arith;
  empty_clean = λ q lq e. ground arith;
  unique = λ q r lq lr used e. ground arith;
  clean = λ q o lq used lo inside out kept. ground arith;
  inner_ok = tt;
}

-- A flush that succeeds, of a dirty cache.
cache_flush-stores_example :
    IsCoherent content AnyDisc 64 (cache_flush (disc_vt ram_vt) dirty).state
    × ((a : ℕ)
        → a < 64
        → view content (cache_flush (disc_vt ram_vt) dirty).state a ≡ view content dirty a)
    × ((cache_flush (disc_vt ram_vt) dirty).ok ≡ true
        → (a : ℕ) → a < 64
        → content (cache_flush (disc_vt ram_vt) dirty).state.inner a ≡ view content dirty a)
cache_flush-stores_example = cache_flush-stores laws dirty dirty-IsCoherent

cache_destroy-stores_example : content (cache_destroy ram_vt dirty).0 8 ≡ view content dirty 8
unfolding cache_destroy cache_flush flush_from entry_flush
cache_destroy-stores_example =
    cache_destroy-stores (ram_laws 64) dirty dirty-IsCoherent refl refl 8 (omega arith)

search-Nearest_example : Nearest dirty.entries 3 0 (search dirty 0)
search-Nearest_example =
    search-Nearest dirty 0 dirty-IsCoherent.ordered (λ q lq. ground arith) (omega arith)

replace-Replaced_example :
    Replaced content AnyDisc 64 dirty 1 16 true (replace (disc_vt ram_vt) dirty 1 16 true)
replace-Replaced_example =
    replace-Replaced laws dirty-IsCoherent 1 16 (omega arith)
      (record {
        front = 0 ∷ [];
        back = 2 ∷ [];
        at = refl;
        full = λ q h. ground arith;
        vacant = λ q h. ground arith;
      })
      refl (omega arith) (λ q lq. ground arith) true

-- A read of three sectors of a page that is not cached.
through_cache-Missed_example :
    Missed content AnyDisc 64 false
      (start dirty blank 19 3)
      (victim dirty)
      (through_cache (disc_vt ram_vt) reading (start dirty blank 19 3))
through_cache-Missed_example =
    through_cache-Missed laws reading (start dirty blank 19 3) dirty-IsCoherent (omega arith)
      (omega arith) (λ q lq. ground arith)

-- A read of two sectors of which the second page alone is cached: the page is read from the disc
-- again, and not from the entry that holds it.
dirty_read : view content dirty 8 ≡ 99 ∷ []
unfolding view
dirty_read = refl

stale_read :
    Option.map {B = Sector × Sector}
      (λ (r : ReadReply (DvmDiscCache (DvmDisc Ram))). (r.buf 0, r.buf 1))
      (read_write (disc_vt ram_vt) dirty blank 7 2 reading)
    ≡ some (7 ∷ [], 8 ∷ [])
unfolding read_write access_page locate search entry_flush victim last_victim load make_mru is_first
    unlink hit_read
stale_read = refl
