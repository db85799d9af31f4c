-- ===== src/Fat/Seek.antt =====
-- What a seek of `source/fat_driver.c` does.
use libdvm.Base.{
  ℕ, ◌+◌, ◌-◌, ◌%◌, ◌^◌, ◌≡◌, refl, ap, ◌⊎◌, inl, inr, Option, none, some, ◌==◌, leb, arith,
  Bool-cases, dec_le, ◌≤◌, ◌<◌,
}
use libdvm.Base.Integers.{ℤ, pos, negsuc}
use libdvm.Nitro.Files.{Whence, seek_set, seek_cur, seek_end, seek_other}
use libdvm.Fat.Errno.{FatErrno, einval, fr_to_errno, FatResult, failed, done, return_if_ok}
use libdvm.Fat.Files.{FatFs, to_off, seek_r, seek_to, apply_offset64}

-- A seek from `base` by `offset` reaches the position `p`, in 64 bits.
abbrev pub Reaches : ℕ → ℤ → ℕ → Type 0
Reaches base (pos n) p = p ≡ (base + n) % 2 ^ 64
Reaches base (negsuc n) p = p + n + 1 ≡ base

-- It would be before the beginning of the file.
abbrev pub IsBefore : ℕ → ℤ → Type 0
IsBefore base (pos n) = ⊥
IsBefore base (negsuc n) = base < n + 1

module _ {Vol Fil : Type 0} (ff : FatFs Vol Fil) where
  -- What a seek from `base` by `offset` leaves.
  abbrev pub Landed : ℕ → Vol → Fil → ℕ → ℤ → Vol × Fil × FatResult ℤ → Type 0
  Landed off_bits vol fp base offset r =
      (IsBefore base offset × (r ≡ (vol, fp, failed einval)))
      ⊎ ((p : ℕ) × Reaches base offset p
          × (((e : FatErrno) × (fr_to_errno (ff.f_lseek vol fp p).0 ≡ some e) × (r.2 ≡ failed e))
              ⊎ ((r.2 ≡ done (to_off off_bits p)) × ((ff.f_tell r.1 ≡ p) ⊎ (ff.f_size fp < p)))))

  -- What a seek leaves, from the position that `whence` names.
  abbrev pub Sought : ℕ → Vol → Fil → ℤ → Whence → Vol × Fil × FatResult ℤ → Type 0
  Sought off_bits vol fp offset seek_set r = Landed off_bits vol fp 0 offset r
  Sought off_bits vol fp offset seek_cur r = Landed off_bits vol fp (ff.f_tell fp) offset r
  Sought off_bits vol fp offset seek_end r = Landed off_bits vol fp (ff.f_size fp) offset r
  Sought off_bits vol fp offset seek_other r = r ≡ (vol, fp, failed einval)

  module _
      (lseek_tells : (vol : Vol) (fp : Fil) (p : ℕ)
        → p ≤ ff.f_size fp
        → fr_to_errno (ff.f_lseek vol fp p).0 ≡ none
        → ff.f_tell (ff.f_lseek vol fp p).2 ≡ p)
      (off_bits : ℕ) (vol : Vol) (fp : Fil) where
    at_or_behind :
        (p : ℕ)
        → fr_to_errno (ff.f_lseek vol fp p).0 ≡ none
        → Dec (p ≤ ff.f_size fp)
        → (ff.f_tell (ff.f_lseek vol fp p).2 ≡ p) ⊎ (ff.f_size fp < p)
    at_or_behind p ok (yes within) = inl (lseek_tells vol fp p within ok)
    at_or_behind p ok (no behind) = inr (omega arith)

    -- The seek to a position that is reached.
    moved :
        (base : ℕ) (offset : ℤ) (p : ℕ)
        → Reaches base offset p
        → Landed off_bits vol fp base offset (seek_to ff off_bits vol fp (some p))
    moved base offset p reach = elim (Bool-cases (p == ff.f_tell fp)) [
      | inl same ↦ rw same (inr (p, reach, inr (refl, inl (ground arith))))
      | inr other ↦ rw other (answer (fr_to_errno (ff.f_lseek vol fp p).0) refl)
    ]
      where
        answer :
            (o : Option FatErrno)
            → fr_to_errno (ff.f_lseek vol fp p).0 ≡ o
            → Landed off_bits vol fp base offset (
              (ff.f_lseek vol fp p).1,
              (ff.f_lseek vol fp p).2,
              return_if_ok (fr_to_errno (ff.f_lseek vol fp p).0) (to_off off_bits p),
            )
        answer none e = inr (
          p,
          reach,
          inr (
            ap (λ k. return_if_ok k (to_off off_bits p)) e,
            at_or_behind p e (dec_le p (ff.f_size fp)),
          ),
        )
        answer (some x) e =
            inr (p, reach, inl (x, e, ap (λ k. return_if_ok k (to_off off_bits p)) e))

    landed :
        (base : ℕ) (offset : ℤ)
        → Landed off_bits vol fp base offset
            (seek_to ff off_bits vol fp (apply_offset64 ff base offset))
    landed base (pos n) = moved base (pos n) ((base + n) % 2 ^ 64) refl
    landed base (negsuc n) = elim (Bool-cases (leb (n + 1) base)) [
      | inl e ↦ rw e (moved base (negsuc n) (base - (n + 1)) (ground arith))
      | inr e ↦ rw e (inl (ground arith, refl))
    ]

    -- A seek reaches the position that is `offset` from the beginning, the position or the end of the
    -- file, answers that position as an `off_t`, and leaves the file there, unless it lies behind the end
    -- that the file had. For a position before the beginning, or another `whence`, it fails with `EINVAL`
    -- and changes nothing, and otherwise it fails only where FatFs does, with its error: where a seek of
    -- FatFs that succeeds leaves the file at the position that it was given, if that is within the file.
    pub seek_r-Sought :
        (offset : ℤ) (whence : Whence)
        → Sought off_bits vol fp offset whence (seek_r ff off_bits vol fp offset whence)
    unfolding seek_r
    seek_r-Sought offset seek_set = landed 0 offset
    seek_r-Sought offset seek_cur = landed (ff.f_tell fp) offset
    seek_r-Sought offset seek_end = landed (ff.f_size fp) offset
    seek_r-Sought offset seek_other = refl
