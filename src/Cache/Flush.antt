-- ===== src/Cache/Flush.antt =====
-- `_dvmDiscCacheEntryFlush` and `_dvmDiscCacheFlush`.
use libdvm.Base.{
  ℕ, ◌+◌, ◌-◌, ◌%◌, ◌^◌, Bool, true, false, List, [], ◌∷◌, ◌&&◌, ◌==◌, leb, if◌then◌else◌,
}
use libdvm.Disc.{DvmDiscIface, WriteReply}
use libdvm.Disc.Memory.{offset}
use libdvm.Cache.Types.{DvmDiscCache, set_entry, page_sz, entry_get_data, empty_page, u16_mod}

module _ {D : Type 0} (vt : DvmDiscIface D) where
  unfoldable pub entry_flush : DvmDiscCache D → ℕ → WriteReply (DvmDiscCache D)
  entry_flush self p =
      let e = self.entries p in
      let at = entry_get_data self p + e.dirty_start in
      let sector = (e.base_sector + e.dirty_start) % 2 ^ 32 in
      let sz = e.dirty_end - e.dirty_start in
      let r = vt.write_sectors self.inner (offset self.page_data at) sector sz false in
      let clean = record e { dirty_start = page_sz self % u16_mod; dirty_end = 0 } in
      let cleaned = set_entry self.entries p clean in
      if leb e.dirty_end e.dirty_start
      then record { state = self; ok = true }
      else (if r.ok
          then record { state = record self { inner = r.state; entries = cleaned }; ok = true }
          else record { state = record self { inner = r.state }; ok = false })

  -- The loop over the list: the flushes of the entries up to the first empty one.
  unfoldable pub flush_from : List ℕ → DvmDiscCache D → Bool → WriteReply (DvmDiscCache D)
  flush_from [] self ret = record { state = self; ok = ret }
  flush_from (p ∷ ps) self ret =
      let r = entry_flush self p in
      let rest = flush_from ps r.state (ret && r.ok) in
      if (self.entries p).base_sector == empty_page then record { state = self; ok = ret } else rest

  unfoldable pub cache_flush : DvmDiscCache D → WriteReply (DvmDiscCache D)
  cache_flush self =
      let r = flush_from self.order self true in
      let f = vt.flush r.state.inner in
      record { state = record (r.state) { inner = f.state }; ok = r.ok && f.ok }
