-- ===== src/Disc/Memory.antt =====
-- Memory that holds sectors. The code copies whole sectors only, so a buffer is read and written in
-- units of a sector: `b i` is the sector at the address `buffer + i * sector_sz`.
use libdvm.Base.{ℕ, ◌+◌, ◌-◌, List, ◌&&◌, Bool, leb, ltb, if◌then◌else◌}

-- The bytes of a sector.
abbrev pub Sector : Type 0
Sector = List ℕ

abbrev pub Buf : Type 0
Buf = ℕ → Sector

abbrev pub in_range : ℕ → ℕ → ℕ → Bool
in_range lo n i = leb lo i && ltb i (lo + n)

-- `memcpy` of `n` sectors from `src + from` to `dst + to`.
abbrev pub copy : Buf → ℕ → Buf → ℕ → ℕ → Buf
copy dst to src from n i = if in_range to n i then src (from + (i - to)) else dst i

-- The buffer that begins `pos` sectors further on.
abbrev pub offset : Buf → ℕ → Buf
offset b pos i = b (pos + i)

-- The whole buffer, after what begins at `pos` was replaced.
abbrev pub splice : Buf → ℕ → Buf → Buf
splice b pos t i = if ltb i pos then b i else t (i - pos)
