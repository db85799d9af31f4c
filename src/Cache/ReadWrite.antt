-- ===== src/Cache/ReadWrite.antt =====
-- `_dvmDiscCacheReadWrite`: its loop, round by round.
use mathlib.Core.Option
use libdvm.Base.{
  ℕ, zero, suc, ◌+◌, ◌-◌, ◌%◌, Bool, true, false, not, Option, none, some, ◌&&◌, ◌||◌, ◌==◌, ltb,
  leb, if◌then◌else◌,
}
use libdvm.Base.Paging.{page_start}
use libdvm.Disc.{DvmDiscIface, ReadReply}
use libdvm.Disc.Memory.{Buf, offset, splice}
use libdvm.Cache.Types.{DvmDiscCache, page_sz, sec_mod}
use libdvm.Cache.Access.{Access, Loop, locate, hit_write, hit_read, make_mru, victim, replace}

-- What a round of the loop leaves: `ok` is false where the function returns false.
pub record Round (D : Type 0) : Type 0 where
  pub loop : Loop D
  pub ok : Bool

module _ {D : Type 0} where
  abbrev pub cur_page : Loop D → ℕ
  cur_page l = page_start (page_sz l.self) l.first_sector

  abbrev pub cur_offset : Loop D → ℕ
  cur_offset l = l.first_sector % page_sz l.self

  -- The sectors to access within the page.
  abbrev pub cur_sectors : Loop D → ℕ
  cur_sectors l =
      let max_cur_sectors = page_sz l.self - cur_offset l in
      if ltb l.num_sectors max_cur_sectors then l.num_sectors else max_cur_sectors

  abbrev pub is_whole : Loop D → Bool
  is_whole l = cur_offset l == 0 && cur_sectors l == page_sz l.self

  -- The end of the loop's body.
  unfoldable pub advance : Loop D → ℕ → Loop D
  advance l cur = record l {
    pos = l.pos + cur;
    first_sector = (l.first_sector + cur) % sec_mod;
    num_sectors = l.num_sectors - cur;
  }

  -- The next cached page, or the end of the disc.
  abbrev pub direct_stop : Loop D → ℕ
  direct_stop l = elim l.p [ none ↦ l.self.num_sectors | some q ↦ (l.self.entries q).base_sector ]

  -- `_cacheHit`, up to the end of the body.
  unfoldable pub cache_hit : Access → Loop D → ℕ → Loop D
  unfolding advance
  cache_hit a l p =
      let off = cur_offset l in
      let cur = cur_sectors l in
      let put = hit_write l.self l.buffer l.pos p off cur in
      let got = hit_read l.self l.buffer l.pos p off cur in
      let touched = if a.is_write then put else l.self in
      let l' = record l {
        self = make_mru touched p (is_whole l);
        buffer = if a.is_write then l.buffer else got;
        p = some p;
      } in
      advance l' cur

  abbrev pub start : DvmDiscCache D → Buf → ℕ → ℕ → Loop D
  start self buffer first_sector num_sectors = record {
    self = self;
    buffer = buffer;
    pos = 0;
    first_sector = first_sector;
    num_sectors = num_sectors;
    p = none;
    search_base = 0;
  }

module _ {D : Type 0} (vt : DvmDiscIface D) where
  -- The branch of a direct access, up to the end of the body.
  unfoldable pub direct : Access → Loop D → Round D
  unfolding advance
  direct a l =
      let max_cur_sectors = (direct_stop l + sec_mod - l.first_sector) % sec_mod in
      let cur = if ltb l.num_sectors max_cur_sectors then l.num_sectors else max_cur_sectors in
      let here = offset l.buffer l.pos in
      let w = vt.write_sectors l.self.inner here l.first_sector cur false in
      let r = vt.read_sectors l.self.inner here l.first_sector cur false in
      let put = record l { self = record (l.self) { inner = w.state } } in
      let got = record l {
        self = record (l.self) { inner = r.state };
        buffer = splice l.buffer l.pos r.buf;
      } in
      if a.is_write
      then record { loop = if w.ok then advance put cur else put; ok = w.ok }
      else record { loop = if r.ok then advance got cur else got; ok = r.ok }

  -- The branch of a partial or misaligned access, up to the end of the body.
  unfoldable pub through_cache : Access → Loop D → Round D
  unfolding cache_hit replace
  through_cache a l =
      let p = victim l.self in
      let need_load = not a.is_write || not (is_whole l) in
      let r = replace vt l.self p (cur_page l) need_load in
      let l' = record l { self = r.state; p = some p } in
      record { loop = if r.ok then cache_hit a l' p else l'; ok = r.ok }

  -- The branches of a miss.
  abbrev pub cache_miss : Access → Loop D → Round D
  cache_miss a l = if a.is_partial || not a.is_aligned then through_cache a l else direct a l

  -- The body of the loop behind the search, which answered `p`.
  unfoldable pub access_at : Access → Loop D → Option ℕ → Round D
  unfolding cache_hit through_cache direct
  access_at a l none = cache_miss a l
  access_at a l (some q) =
      if (l.self.entries q).base_sector == cur_page l
      then record { loop = cache_hit a l q; ok = true }
      else cache_miss a l

  unfoldable pub access_page : Access → Loop D → Round D
  unfolding access_at
  access_page a l = access_at a l l.p

  -- `while (num_sectors)` with fuel. `none` means that the fuel ran out.
  unfoldable pub rw_loop : ℕ → Access → Loop D → Option (Round D)
  rw_loop zero a l = if l.num_sectors == 0 then some (record { loop = l; ok = true }) else none
  rw_loop (suc fuel) a l =
      let r = access_page a (locate l) in
      elim (l.num_sectors == 0) [
        | true ↦ some (record { loop = l; ok = true })
        | false ↦ elim (r.ok) [ true ↦ rw_loop fuel a r.loop | false ↦ some r ]
      ]

  -- `_dvmDiscCacheReadWrite`: each round accesses a sector at least, so as many rounds are enough as
  -- there are sectors.
  unfoldable pub read_write :
      DvmDiscCache D → Buf → ℕ → ℕ → Access → Option (ReadReply (DvmDiscCache D))
  unfolding rw_loop
  read_write self buffer first_sector num_sectors a =
      let partial = a.is_partial || ltb num_sectors (page_sz self) in
      let run =
        rw_loop num_sectors (record a { is_partial = partial })
          (start self buffer first_sector num_sectors) in
      let refused = some (record { state = self; buf = buffer; ok = false }) in
      if leb self.num_sectors first_sector
      then refused
      else (if ltb (self.num_sectors - first_sector) num_sectors
          then refused
          else Option.map
              (λ (r : Round D). record { state = r.loop.self; buf = r.loop.buffer; ok = r.ok }) run)
