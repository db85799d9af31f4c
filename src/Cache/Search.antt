-- ===== src/Cache/Search.antt =====
-- `_dvmDiscCacheSearch`.
use libdvm.Base.{ℕ, Option, none, some, List, [], ◌∷◌, ◌&&◌, ◌==◌, ltb, if◌then◌else◌}
use libdvm.Cache.Types.{DvmDiscCache, Entries, empty_page}

-- The loop over what is left of the list, with `min_sec` and `ret`.
unfoldable pub search_from : Entries → ℕ → List ℕ → ℕ → Option ℕ → Option ℕ
search_from es page_sector [] min_sec ret = ret
search_from es page_sector (p ∷ ps) min_sec ret =
    let base = (es p).base_sector in
    let nearer = ltb page_sector base && ltb base min_sec in
    let rest =
      search_from es page_sector ps (if nearer then base else min_sec)
        (if nearer then some p else ret) in
    if base == empty_page then ret else if base == page_sector then some p else rest

unfoldable pub search : {D : Type 0} → DvmDiscCache D → ℕ → Option ℕ
unfolding search_from
search self page_sector = search_from self.entries page_sector self.order empty_page none
