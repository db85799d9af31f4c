-- ===== src/Nitro/Position.antt =====
-- The position in an open file of `source/nitrofs.c`, and what is read there.
use libdvm.Base.{
  ℕ, zero, suc, ◌+◌, ◌-◌, ◌%◌, ◌^◌, ◌≤◌, ◌<◌, ◌≡◌, refl, ◌⊎◌, inl, inr, Option, none, some, List,
  [], ◌∷◌, ◌==◌, ltb, if◌then◌else◌, arith, Bool-cases,
}
use libdvm.Base.Integers.{ℤ}
use libdvm.Nitro.Files.{
  eio, einval, failed, done, NitroRom, NitroFile, Whence, seek_start, apply_offset, seek_from,
  seek_end_at, seek_r, read_file_r,
}

-- The `n` bytes from `at` on.
abbrev pub chunk : (ℕ → ℕ) → ℕ → ℕ → List ℕ
chunk bytes at zero = []
chunk bytes at (suc n) = bytes at ∷ chunk bytes (at + 1) n

-- What the library that reads the ROM promises: a file has a size of 32 bits, and a read within it
-- gives the bytes of the file or fails.
pub record RomLaws {Iter : Type 0} (nr : NitroRom Iter) (bytes : ℕ → ℕ → ℕ) : Type 0 where
  pub size_word : (id : ℕ) → nr.file_size id < 2 ^ 32
  pub reads :
      (id at n : ℕ)
      → at + n ≤ nr.file_size id
      → (nr.read_file id at n ≡ none) ⊎ (nr.read_file id at n ≡ some (chunk (bytes id) at n))

-- The position is within the file, or at its end.
abbrev pub InFile : {Iter : Type 0} → NitroRom Iter → NitroFile → Type 0
InFile nr fil = fil.pos ≤ nr.file_size fil.file_id

-- How many bytes a read of `len` bytes gives.
abbrev pub read_len : {Iter : Type 0} → NitroRom Iter → NitroFile → ℕ → ℕ
read_len nr fil len =
    let max_read = nr.file_size fil.file_id - fil.pos in if ltb len max_read then len else max_read

module _ {Iter : Type 0} {nr : NitroRom Iter} {bytes : ℕ → ℕ → ℕ} (laws : RomLaws nr bytes) where
  -- A read gives the bytes from the position on, as many as were asked for or are left, and moves the
  -- position behind them; or the library fails, the answer is EIO and the position stays: where the
  -- position is within the file.
  pub read_file_r-reads :
      (fil : NitroFile) (len : ℕ)
      → InFile nr fil
      → (read_file_r nr fil len ≡ (
        record fil { pos = fil.pos + read_len nr fil len },
        done (chunk (bytes fil.file_id) fil.pos (read_len nr fil len)),
      ))
        ⊎ (read_file_r nr fil len ≡ (fil, failed eio))
  unfolding read_file_r
  read_file_r-reads fil len inside =
      let small = laws.size_word fil.file_id in
      let max_eq : (nr.file_size fil.file_id + 2 ^ 32 - fil.pos) % 2 ^ 32
          ≡ nr.file_size fil.file_id - fil.pos =
        omega arith in
      let n : ℕ = read_len nr fil len in
      let fits : fil.pos + n ≤ nr.file_size fil.file_id = ground arith in
      let back : (fil.pos + n) % 2 ^ 32 ≡ fil.pos + n = omega arith in
      rw max_eq (elim (Bool-cases (n == 0)) [
        | inl nothing ↦
            let zero_len : 0 ≡ n = ground arith in
            let stays : (fil.pos + 0) % 2 ^ 32 ≡ fil.pos + n = omega arith in
            rw nothing (
              inl (λ j. (
                record fil { pos = stays j },
                done (chunk (bytes fil.file_id) fil.pos (zero_len j)),
              )))
        | inr more ↦ rw more (elim (laws.reads fil.file_id fil.pos n fits) [
          | inl bad ↦ rw bad (inr refl)
          | inr good ↦ rw (good, back) (inl refl)
        ])
      ])

  -- A seek leaves the position within the file on every branch, and one that fails leaves it where it
  -- was: where it was within the file.
  pub seek_r-InFile :
      (fil : NitroFile) (offset : ℤ) (whence : Whence)
      → InFile nr fil
      → InFile nr (seek_r nr fil offset whence).0
          × ((seek_r nr fil offset whence).1 ≡ done (seek_r nr fil offset whence).0.pos)
        ⊎ (seek_r nr fil offset whence ≡ (fil, failed einval))
  unfolding seek_r
  seek_r-InFile fil offset whence inside = go (seek_start whence fil.pos (nr.file_size fil.file_id))
    where
      at_end :
          (p : Option ℕ)
          → InFile nr (seek_end_at nr fil p).0
              × ((seek_end_at nr fil p).1 ≡ done (seek_end_at nr fil p).0.pos)
            ⊎ (seek_end_at nr fil p ≡ (fil, failed einval))
      at_end none = inr refl
      at_end (some p) = inl (ground arith, refl)

      go :
          (start : Option ℕ)
          → InFile nr (seek_from nr fil offset start).0
              × ((seek_from nr fil offset start).1 ≡ done (seek_from nr fil offset start).0.pos)
            ⊎ (seek_from nr fil offset start ≡ (fil, failed einval))
      go none = inr refl
      go (some start) = at_end (apply_offset start offset)
