-- ===== src/Fat/Truncate.antt =====
-- `_FAT_ftruncate_r` and `_FAT_fsync_r` of `source/fat_driver.c`.
use libdvm.Base.{
  Bool, false, ℕ, ◌≤◌, ◌<◌, ◌≡◌, refl, sym, ap, ◌∙◌, ◌⊎◌, inl, inr, true, not, ◌&&◌, ◌==◌, ltb,
  if◌then◌else◌, arith, Bool-cases, dec_le,
}
use libdvm.Base.Integers.{ℤ, pos, negsuc}
use libdvm.Fat.Errno.{
  FResult, fr_ok, fr_invalid_parameter, fr_to_errno, FatResult, failed, done, return_if_ok,
}
use libdvm.Fat.Files.{FatFs}
use libdvm.Fat.Mount.{is_fr_ok}

abbrev pub is_done : {A : Type 0} → FatResult A → Bool
is_done (failed e) = false
is_done (done a) = true

-- What FatFs does to the size of a file.
pub record FatSizes (Vol Fil : Type 0) : Type 0 where
  pub f_expand : Vol → Fil → ℕ → FResult × Vol × Fil
  pub f_truncate : Vol → Fil → FResult × Vol × Fil
  pub f_sync : Vol → Fil → FResult × Vol × Fil

module _ {Vol Fil : Type 0} (ff : FatFs Vol Fil) (fs : FatSizes Vol Fil) where
  -- The seek to the new end, where the file is not there already.
  abbrev pub seek_end_of : Vol → Fil → ℕ → FResult × Vol × Fil
  seek_end_of vol fp size =
      if not (ff.f_tell fp == size) then ff.f_lseek vol fp size else (fr_ok, vol, fp)

  abbrev pub then_truncate : FResult × Vol × Fil → FResult × Vol × Fil
  then_truncate r = if is_fr_ok r.0 then fs.f_truncate r.1 r.2 else r

  -- The seek back to where the file was.
  abbrev pub then_return : ℕ → FResult × Vol × Fil → FResult × Vol × Fil
  then_return pos_backup r =
      if is_fr_ok r.0 && not (ff.f_tell r.2 == pos_backup) then ff.f_lseek r.1 r.2 pos_backup else r

  abbrev pub truncated : Vol → Fil → ℕ → FResult × Vol × Fil
  truncated vol fp size =
      let e = fs.f_expand vol fp size in
      let pos_backup = ff.f_tell e.2 in
      then_return (if ltb size pos_backup then size else pos_backup)
        (then_truncate (seek_end_of e.1 e.2 size))

  -- `_FAT_ftruncate_r`: the volume and the file behind it, and the answer.
  unfoldable pub ftruncate_r : Vol → Fil → ℤ → Vol × Fil × FatResult ℕ
  ftruncate_r vol fp (negsuc n) = (vol, fp, return_if_ok (fr_to_errno fr_invalid_parameter) 0)
  ftruncate_r vol fp (pos size) =
      let r = truncated vol fp size in (r.1, r.2, return_if_ok (fr_to_errno r.0) 0)

  -- `_FAT_fsync_r`
  abbrev pub fsync_r : Vol → Fil → Vol × Fil × FatResult ℕ
  fsync_r vol fp = let r = fs.f_sync vol fp in (r.1, r.2, return_if_ok (fr_to_errno r.0) 0)

-- What FatFs documents of seeks and of changes of the size. A seek that succeeds goes to the position
-- that it is given if that is within the file. Behind the end, the file grows, and the position is at
-- its end, which is nearer where the volume is full.
pub record SizeLaws {Vol Fil : Type 0} (ff : FatFs Vol Fil) (fs : FatSizes Vol Fil) : Type 0 where
  pub lseek_within :
      (vol : Vol) (fp : Fil) (p : ℕ)
      → p ≤ ff.f_size fp
      → is_fr_ok (ff.f_lseek vol fp p).0 ≡ true
      → (ff.f_tell (ff.f_lseek vol fp p).2 ≡ p) × (ff.f_size (ff.f_lseek vol fp p).2 ≡ ff.f_size fp)
  pub lseek_behind :
      (vol : Vol) (fp : Fil) (p : ℕ)
      → ff.f_size fp < p
      → is_fr_ok (ff.f_lseek vol fp p).0 ≡ true
      → (ff.f_tell (ff.f_lseek vol fp p).2 ≤ p) × (ff.f_size fp ≤ ff.f_tell (ff.f_lseek vol fp p).2)
  pub truncate_at :
      (vol : Vol) (fp : Fil)
      → is_fr_ok (fs.f_truncate vol fp).0 ≡ true
      → (ff.f_tell (fs.f_truncate vol fp).2 ≡ ff.f_tell fp)
        × (ff.f_size (fs.f_truncate vol fp).2 ≡ ff.f_tell fp)
  pub expand_tells :
      (vol : Vol) (fp : Fil) (n : ℕ) → ff.f_tell (fs.f_expand vol fp n).2 ≡ ff.f_tell fp
  pub expand_size :
      (vol : Vol) (fp : Fil) (n : ℕ)
      → (ff.f_size (fs.f_expand vol fp n).2 ≡ ff.f_size fp)
        ⊎ ((ff.f_size fp ≡ 0) × (ff.f_size (fs.f_expand vol fp n).2 ≡ n))

-- The file after a truncation to `size` that succeeded.
pub record Truncated {Vol Fil : Type 0} (ff : FatFs Vol Fil) (fp fp' : Fil) (size : ℕ)
    : Type 0 where
  pub at_most : ff.f_size fp' ≤ size
  pub exact : size ≤ ff.f_size fp → ff.f_size fp' ≡ size
  pub position : ff.f_tell fp' ≡ (if ltb size (ff.f_tell fp) then size else ff.f_tell fp)

is_done-answer : (fr : FResult) (a : ℕ) → is_done (return_if_ok (fr_to_errno fr) a) ≡ is_fr_ok fr
is_done-answer fr a = elim fr as (λ k. is_done (return_if_ok (fr_to_errno k) a) ≡ is_fr_ok k) [
  | fr_ok ↦ refl
  | _ ↦ refl
]

module _ {Vol Fil : Type 0} {ff : FatFs Vol Fil} {fs : FatSizes Vol Fil}
    (laws : SizeLaws ff fs) where
  seek_end_of_lem :
      (vol : Vol) (fp : Fil) (size : ℕ)
      → ff.f_tell fp ≤ ff.f_size fp
      → is_fr_ok (seek_end_of ff fs vol fp size).0 ≡ true
      → let p = ff.f_tell (seek_end_of ff fs vol fp size).2 in
        (p ≤ size) × ((size ≤ ff.f_size fp → p ≡ size) × ((ff.f_size fp ≤ p) ⊎ (p ≡ size)))
  seek_end_of_lem vol fp size within = elim (Bool-cases (ff.f_tell fp == size)) [
    | inl e ↦ rw e λ ok. ground arith
    | inr e ↦ rw e λ ok. elim (dec_le size (ff.f_size fp)) [
      | yes inside ↦ ground (arith, laws.lseek_within vol fp size inside ok)
      | no behind ↦ ground (arith, laws.lseek_behind vol fp size (omega arith) ok)
    ]
  ]

  then_truncate_lem :
      (r : FResult × Vol × Fil)
      → is_fr_ok (then_truncate ff fs r).0 ≡ true
      → (is_fr_ok r.0 ≡ true)
        × ((ff.f_tell (then_truncate ff fs r).2 ≡ ff.f_tell r.2)
            × (ff.f_size (then_truncate ff fs r).2 ≡ ff.f_tell r.2))
  then_truncate_lem r = elim (Bool-cases (is_fr_ok r.0)) [
    | inl e ↦ rw e λ ok. (refl, laws.truncate_at r.1 r.2 ok)
    | inr e ↦ rw e λ ok. absurd (ground arith)
  ]

  then_return_lem :
      (p : ℕ) (r : FResult × Vol × Fil)
      → is_fr_ok (then_return ff fs p r).0 ≡ true
      → (is_fr_ok r.0 ≡ true)
        × (p ≤ ff.f_size r.2
            → (ff.f_tell (then_return ff fs p r).2 ≡ p)
              × (ff.f_size (then_return ff fs p r).2 ≡ ff.f_size r.2))
  then_return_lem p r = elim (Bool-cases (is_fr_ok r.0)) [
    | inr e ↦ rw e λ ok. absurd (ground arith)
    | inl e ↦ elim (Bool-cases (ff.f_tell r.2 == p)) [
      | inl h ↦ rw (e, h) λ ok. (refl, λ le. (ground arith, refl))
      | inr h ↦ rw (e, h) λ ok. (refl, λ le. laws.lseek_within r.1 r.2 p le ok)
    ]
  ]

  -- A truncation that succeeds leaves a file of the size that was asked for, where that is not more
  -- than it was, and else of that size at most; and the position where it was, or at the new end if it
  -- was behind that: for a position within the file, and a FatFs as it is documented, which answers
  -- success also where the volume is full and the file stays smaller.
  pub ftruncate_r-Truncated :
      (vol : Vol) (fp : Fil) (size : ℕ)
      → ff.f_tell fp ≤ ff.f_size fp
      → is_done (ftruncate_r ff fs vol fp (pos size)).2 ≡ true
      → Truncated ff fp (ftruncate_r ff fs vol fp (pos size)).1 size
  unfolding ftruncate_r
  ftruncate_r-Truncated vol fp size within success =
      let e = fs.f_expand vol fp size in
      let ready : ff.f_tell e.2 ≤ ff.f_size e.2 =
        ground (arith, laws.expand_tells vol fp size, laws.expand_size vol fp size) in
      let p = if ltb size (ff.f_tell e.2) then size else ff.f_tell e.2 in
      let s = seek_end_of ff fs e.1 e.2 size in
      let t = then_truncate ff fs s in
      let back = then_return_lem p t (sym (is_done-answer _ 0) ∙ success) in
      let cut = then_truncate_lem s back.0 in
      let sought = seek_end_of_lem e.1 e.2 size ready cut.0 in
      let low : p ≤ ff.f_size t.2 = ground (arith, cut, sought) in
      let end = back.1 low in
      record {
        at_most = omega (arith, end, cut, sought);
        exact = λ le. ground (arith, end, cut, sought, laws.expand_size vol fp size);
        position = end.0 ∙ ap (λ k. if ltb size k then size else k) (laws.expand_tells vol fp size);
      }
