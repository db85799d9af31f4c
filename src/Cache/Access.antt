-- ===== src/Cache/Access.antt =====
-- The steps of `_dvmDiscCacheReadWrite` on the state of a cache: the search of a page, the access to a
-- cached page, the choice of an entry to replace and its replacement.
use mathlib.Core.List.{reverse}
use libdvm.Base.{
  ℕ, ◌+◌, ◌-◌, ◌%◌, Bool, true, false, not, Option, none, some, List, [], ◌∷◌, ◌&&◌, ◌==◌, ltb, leb,
  if◌then◌else◌,
}
use libdvm.Base.Paging.{page_start}
use libdvm.Base.Members.{unlink}
use libdvm.Disc.{DvmDiscIface, WriteReply}
use libdvm.Disc.Memory.{Buf, copy, offset, splice}
use libdvm.Cache.Types.{
  DvmDiscCache, Entries, set_entry, page_sz, entry_get_data, empty_page, sec_mod, u16_mod,
}
use libdvm.Cache.Search.{search}
use libdvm.Cache.Flush.{entry_flush}

-- What does not change while the loop runs. `is_partial` includes the test of the size.
pub record Access : Type 0 where
  pub is_write : Bool
  pub is_aligned : Bool
  pub is_partial : Bool

-- The variables of the loop. `pos` is how many sectors `buffer` has been advanced.
pub record Loop (D : Type 0) : Type 0 where
  pub self : DvmDiscCache D
  pub buffer : Buf
  pub pos : ℕ
  pub first_sector : ℕ
  pub num_sectors : ℕ
  pub p : Option ℕ
  pub search_base : ℕ

unfoldable pub is_first : ℕ → List ℕ → Bool
is_first p [] = false
is_first p (q ∷ qs) = q == p

-- The walk back from the end of the list over the empty entries. The second list is what stands
-- before `p`, last first.
unfoldable pub victim_from : Entries → ℕ → List ℕ → ℕ
victim_from es p [] = p
victim_from es p (q ∷ qs) =
    let rest = victim_from es q qs in
    if (es p).base_sector == empty_page && (es q).base_sector == empty_page then rest else p

-- The list of a cache is not empty: `cache_create` refuses a cache of no pages.
unfoldable pub last_victim : Entries → List ℕ → ℕ
unfolding victim_from
last_victim es [] = 0
last_victim es (p ∷ ps) = victim_from es p ps

module _ {D : Type 0} where
  -- The search, and the base behind its answer.
  abbrev pub seek : Loop D → Loop D
  seek l =
      let p = search l.self (page_start (page_sz l.self) l.first_sector) in
      let next = λ (q : ℕ). ((l.self.entries q).base_sector + 1) % sec_mod in
      record l { p = p; search_base = elim p [ none ↦ empty_page | some q ↦ next q ] }

  -- The search is repeated where the page is not below `search_base`.
  unfoldable pub locate : Loop D → Loop D
  locate l = if leb l.search_base (page_start (page_sz l.self) l.first_sector) then seek l else l

  -- The write of `n` sectors of the buffer at `off` in the page of `p`, with the dirty range.
  unfoldable pub hit_write : DvmDiscCache D → Buf → ℕ → ℕ → ℕ → ℕ → DvmDiscCache D
  hit_write self buffer pos p off n =
      let e = self.entries p in
      let dirty_end = off + n in
      let lo = if ltb off e.dirty_start then off % u16_mod else e.dirty_start in
      let hi = if ltb e.dirty_end dirty_end then dirty_end % u16_mod else e.dirty_end in
      record self {
        page_data = copy self.page_data (entry_get_data self p + off) buffer pos n;
        entries = set_entry self.entries p (record e { dirty_start = lo; dirty_end = hi });
      }

  unfoldable pub hit_read : DvmDiscCache D → Buf → ℕ → ℕ → ℕ → ℕ → Buf
  hit_read self buffer pos p off n = copy buffer pos self.page_data (entry_get_data self p + off) n

  unfoldable pub make_mru : DvmDiscCache D → ℕ → Bool → DvmDiscCache D
  make_mru self p is_whole =
      if not is_whole && not (is_first p self.order)
      then record self { order = p ∷ unlink p self.order }
      else self

  unfoldable pub victim : DvmDiscCache D → ℕ
  victim self = last_victim self.entries (reverse self.order)

  abbrev pub set_base : DvmDiscCache D → ℕ → ℕ → DvmDiscCache D
  set_base self p base = record self {
    entries = set_entry self.entries p (record (self.entries p) { base_sector = base });
  }

module _ {D : Type 0} (vt : DvmDiscIface D) where
  -- The read of a page from the inner disc into the page of `p`.
  unfoldable pub load : DvmDiscCache D → ℕ → ℕ → WriteReply (DvmDiscCache D)
  load self p cur_page_sector =
      let at = entry_get_data self p in
      let max_sz = self.num_sectors - cur_page_sector in
      let sz = if ltb (page_sz self) max_sz then page_sz self else max_sz in
      let r = vt.read_sectors self.inner (offset self.page_data at) cur_page_sector sz false in
      let got = record self { inner = r.state; page_data = splice self.page_data at r.buf } in
      if r.ok
      then record { state = got; ok = true }
      else record { state = set_base got p empty_page; ok = false }

  -- The branch of a partial or misaligned access, up to `goto _cacheHit`.
  unfoldable pub replace : DvmDiscCache D → ℕ → ℕ → Bool → WriteReply (DvmDiscCache D)
  replace self p cur_page_sector need_load =
      let r = entry_flush vt self p in
      let got = set_base r.state p cur_page_sector in
      if r.ok
      then (if need_load then load got p cur_page_sector else record { state = got; ok = true })
      else record { state = r.state; ok = false }
