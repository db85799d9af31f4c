-- ===== src/Prober/Ident.antt =====
-- `_dvmIdentMbrVbr` of `source/dvm_prober.c`, on a buffer of bytes.
use Prim.Native.Nat.{bit_and}
use libdvm.Base.{
  ℕ, ◌+◌, ◌-◌, ◌*◌, ◌/◌, ◌%◌, Bool, true, Option, none, some, [], ◌∷◌, ◌&&◌, ◌||◌, ◌==◌, ltb, leb,
  if◌then◌else◌, get_or,
}
use libdvm.Base.Strings.{Str}
use libdvm.Disc.Memory.{Buf}

-- A buffer of bytes.
abbrev pub Bytes : Type 0
Bytes = ℕ → ℕ

-- The bytes of a buffer of sectors of `sector_sz` bytes.
abbrev pub bytes_of : ℕ → Buf → Bytes
bytes_of sector_sz buf i = get_or (buf (i / sector_sz)) (i % sector_sz) 0

abbrev pub is_po2 : ℕ → Bool
is_po2 x = bit_and x (x - 1) == 0

abbrev pub read16 : Bytes → ℕ → ℕ
read16 buf offset = buf offset + 256 * buf (offset + 1)

abbrev pub read32 : Bytes → ℕ → ℕ
read32 buf offset = read16 buf offset + 65536 * read16 buf (offset + 2)

-- `memcmp(buf + offset, s, strlen(s)) == 0`
unfoldable pub bytes_eq : Bytes → ℕ → Str → Bool
bytes_eq buf offset [] = true
bytes_eq buf offset (c ∷ cs) = buf offset == c && bytes_eq buf (offset + 1) cs

-- "NTFS    ", "EXFAT   " and "FAT32   "
abbrev pub ntfs_id : Str
ntfs_id = 78 ∷ 84 ∷ 70 ∷ 83 ∷ 32 ∷ 32 ∷ 32 ∷ 32 ∷ []

abbrev pub exfat_id : Str
exfat_id = 69 ∷ 88 ∷ 70 ∷ 65 ∷ 84 ∷ 32 ∷ 32 ∷ 32 ∷ []

abbrev pub fat32_id : Str
fat32_id = 70 ∷ 65 ∷ 84 ∷ 51 ∷ 50 ∷ 32 ∷ 32 ∷ 32 ∷ []

-- "ntfs", "exfat", "vfat" and "ext2"
abbrev pub ntfs : Str
ntfs = 110 ∷ 116 ∷ 102 ∷ 115 ∷ []

abbrev pub exfat : Str
exfat = 101 ∷ 120 ∷ 102 ∷ 97 ∷ 116 ∷ []

abbrev pub vfat : Str
vfat = 118 ∷ 102 ∷ 97 ∷ 116 ∷ []

abbrev pub ext2 : Str
ext2 = 101 ∷ 120 ∷ 116 ∷ 50 ∷ []

abbrev pub has_signature : Bytes → Bool
has_signature buf = read16 buf 0x1fe == 0xaa55

abbrev pub is_jump : Bytes → Bool
is_jump buf = buf 0 == 0xeb || buf 0 == 0xe9 || buf 0 == 0xe8

-- The test for a FAT12 or a FAT16.
abbrev pub is_fat : Bytes → Bool
is_fat buf =
    let bytes_per_sector = read16 buf 0x00b in
    let sectors_per_cluster = buf 0x00d in
    let num_rsvd_sectors = read16 buf 0x00e in
    let num_fats = buf 0x010 in
    let num_root_entries = read16 buf 0x011 in
    let total_sectors16 = read16 buf 0x013 in
    let sectors_per_fat = read16 buf 0x016 in
    let total_sectors32 = read32 buf 0x020 in
    is_po2 bytes_per_sector
    && is_po2 sectors_per_cluster
    && ltb 0 num_rsvd_sectors
    && (num_fats == 1 || num_fats == 2)
    && ltb 0 num_root_entries
    && (leb 0x40 total_sectors16 || leb 0x10000 total_sectors32)
    && ltb 0 sectors_per_fat

-- The answer. `none` is NULL, and the empty string a master boot record.
unfoldable pub ident_mbr_vbr : Bytes → Option Str
unfolding bytes_eq
ident_mbr_vbr buf =
    let signed = has_signature buf in
    let rest = if signed then some [] else if read16 buf 0x438 == 0xef53 then some ext2 else none in
    if signed && is_jump buf
    then (if bytes_eq buf 3 ntfs_id
        then some ntfs
        else if bytes_eq buf 3 exfat_id
        then some exfat
        else if bytes_eq buf 0x052 fat32_id
        then some vfat
        else if is_fat buf
        then some vfat
        else rest)
    else rest
