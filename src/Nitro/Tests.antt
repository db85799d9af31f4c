-- ===== src/Nitro/Tests.antt =====
-- Runs on a ROM with one file, of ten bytes, in the root directory.
use libdvm.Base.{◌+◌, ◌≡◌, refl, ap, ◌⊎◌, inr, Option, none, some, List, [], ◌∷◌, arith}
use libdvm.Base.Integers.{negsuc}
use libdvm.Nitro.Files.{
  NitroRom, NitroFile, RomEntry, failed, done, eio, einval, set_stat, seek_cur, seek_r, read_file_r,
}
use libdvm.Nitro.Position.{RomLaws, InFile, chunk, read_len, read_file_r-reads, seek_r-InFile}
use libdvm.Nitro.Dirs.{NitroDir, dot, diropen_r, dirnext_r, list_names}
use libdvm.Nitro.Listing.{IterLaws, diropen_r-lists}

abbrev hello : RomEntry
hello = record { id = 3; name = 104 ∷ 105 ∷ [] }

abbrev take_entry : List RomEntry → List RomEntry × Option RomEntry
take_entry [] = ([], none)
take_entry (e ∷ es) = (es, some e)

abbrev rom : NitroRom (List RomEntry)
rom = record {
  file_size = λ id. 10;
  read_file = λ id at n. some (chunk (λ i. 200 + i) at n);
  resolve_path = λ cwd path. some 0xf000;
  parent_dir = λ id. 0xf000;
  open_iter = λ id. hello ∷ [];
  rewind_iter = λ it. hello ∷ [];
  read_iter = take_entry;
}

rom_laws : RomLaws rom (λ id i. 200 + i)
rom_laws = record { size_word = λ id. omega arith; reads = λ id at n h. inr refl }

iter_laws : IterLaws rom (λ id. hello ∷ []) (λ it. it)
iter_laws = record {
  opened = λ id. refl;
  ends = λ it h. ([], ap take_entry h);
  next = λ it e es h. (es, ap take_entry h, refl);
}

abbrev fil : NitroFile
fil = record { pos = 4; file_id = 3 }

read_file_r-reads_example :
    (read_file_r rom fil 20 ≡ (
      record fil { pos = 4 + read_len rom fil 20 },
      done (chunk (λ i. 200 + i) 4 (read_len rom fil 20)),
    ))
    ⊎ (read_file_r rom fil 20 ≡ (fil, failed eio))
read_file_r-reads_example = read_file_r-reads rom_laws fil 20 (omega arith)

seek_r-InFile_example :
    InFile rom (seek_r rom fil (negsuc 5) seek_cur).0
      × ((seek_r rom fil (negsuc 5) seek_cur).1 ≡ done (seek_r rom fil (negsuc 5) seek_cur).0.pos)
    ⊎ (seek_r rom fil (negsuc 5) seek_cur ≡ (fil, failed einval))
seek_r-InFile_example = seek_r-InFile rom_laws fil (negsuc 5) seek_cur (omega arith)

diropen_r-lists_example :
    (d : NitroDir (List RomEntry)) × (diropen_r rom 0xf000 dot ≡ done d)
    × ((dirnext_r rom d).1 ≡ done (record { filename = dot; stat = set_stat rom 0 }))
    × (list_names rom 3 d ≡ dot ∷ (104 ∷ 105 ∷ []) ∷ [])
diropen_r-lists_example = diropen_r-lists iter_laws 0xf000 dot 0xf000 refl (omega arith)
