-- ===== src/Fat/Listing.antt =====
-- What the directories of `source/fat_driver.c` list.
use libdvm.Base.{
  ℕ, zero, suc, ◌+◌, ◌≤◌, ◌≡◌, ◌≢◌, refl, ap, ◌∙◌, List, [], ◌∷◌, ◌++◌, map, length, ltb,
  if◌then◌else◌, arith,
}
use libdvm.Base.Strings.{Str}
use libdvm.Disc.Object.{DvmDisc}
use libdvm.Volume.Mount.{take_str}
use libdvm.Fat.Errno.{fr_ok, enoent, FatResult, failed, done}
use libdvm.Fat.Info.{FilInfo, FatStat, FatLimits, fat_set_stat}
use libdvm.Fat.Paths.{FatTree, length_str, readdir_result, fat_dirnext_r}

-- What FatFs promises of an open directory: `left` are the entries that are still to be read. Each has
-- a name, of `ff_lfn_buf` bytes at most, and an empty name marks the end.
pub record DirLaws {Vol Dir : Type 0} (ff : FatTree Vol Dir) (limits : FatLimits)
    (left : Dir → List FilInfo) : Type 0 where
  pub ends :
      (vol : Vol) (dp : Dir)
      → left dp ≡ []
      → ((ff.f_readdir vol dp).0 ≡ fr_ok) × ((ff.f_readdir vol dp).3.fname ≡ [])
  pub next :
      (vol : Vol) (dp : Dir) (e : FilInfo) (es : List FilInfo)
      → left dp ≡ e ∷ es
      → ((ff.f_readdir vol dp).0 ≡ fr_ok)
        × ((ff.f_readdir vol dp).3 ≡ e)
        × (left (ff.f_readdir vol dp).2 ≡ es)
        × ((ff.f_readdir vol dp).1 ≡ vol)

-- The entries that have a name which fits.
abbrev pub AllNamed : FatLimits → List FilInfo → Type 0
AllNamed limits [] = Unit
AllNamed limits (e ∷ es) =
    (e.fname ≢ [])
    × (length_str e.fname ≤ limits.name_max)
    × (length_str e.fname ≤ limits.ff_lfn_buf)
    × AllNamed limits es

take_str_all : (n : ℕ) (s : Str) → length_str s ≤ n → take_str n s ≡ s
take_str_all zero [] h = refl
take_str_all (suc n) [] h = refl
take_str_all zero (c ∷ cs) h = absurd (omega arith)
take_str_all (suc n) (c ∷ cs) h = ap (λ t. c ∷ t) (take_str_all n cs (omega arith))

length_str-append : (s t : Str) → length_str (s ++ t) ≡ length_str s + length_str t
length_str-append [] t = omega arith
length_str-append (c ∷ cs) t = omega (arith, length_str-append cs t)

-- The buffer that a name which fits is copied to.
name_buffer :
    (limits : FatLimits) (s : Str)
    → length_str s ≤ limits.name_max
    → length_str s ≤ limits.ff_lfn_buf
    → take_str
        (length_str (
            take_str
              (if ltb limits.name_max limits.ff_lfn_buf then limits.name_max else limits.ff_lfn_buf)
              s)
          + 1)
        (s ++ (0 ∷ []))
      ≡ s ++ (0 ∷ [])
name_buffer limits s short fits =
    rw
      (take_str_all
        (if ltb limits.name_max limits.ff_lfn_buf then limits.name_max else limits.ff_lfn_buf) s
        (ground arith))
      (take_str_all (length_str s + 1) (s ++ (0 ∷ []))
        (omega (arith, length_str-append s (0 ∷ []))))

module _ {Vol Dir State : Type 0} (ff : FatTree Vol Dir) (s_blksize : ℕ) (disc : DvmDisc State)
    (limits : FatLimits) where
  -- The entries that repeated calls of `_FAT_dirnext_r` give, up to the first failure, which is the
  -- second component, or up to `n` calls.
  unfoldable pub list_dir : ℕ → Vol → Dir → List (Str × FatStat) × FatResult ℕ
  list_dir zero vol dp = ([], done 0)
  list_dir (suc n) vol dp =
      let r = fat_dirnext_r ff s_blksize disc limits vol dp in
      let rest = list_dir n r.0 r.1 in
      elim r.2 [ failed e ↦ ([], failed e) | done x ↦ (x ∷ rest.0, rest.1) ]

  -- A name with its terminator, and the status.
  abbrev pub listed : Vol → FilInfo → Str × FatStat
  listed vol e = (e.fname ++ (0 ∷ []), fat_set_stat s_blksize disc (ff.info vol) e)

  module _ {left : Dir → List FilInfo} (laws : DirLaws ff limits left) where
    last_call :
        (vol : Vol) (dp : Dir)
        → left dp ≡ []
        → (fat_dirnext_r ff s_blksize disc limits vol dp).2 ≡ failed enoent
    unfolding fat_dirnext_r
    last_call vol dp h = let (ok, name) = laws.ends vol dp h in rw (ok, name) refl

    named_ok : (s : Str) → s ≢ [] → readdir_result ff fr_ok s ≡ fr_ok
    named_ok [] h = absurd (h refl)
    named_ok (c ∷ cs) h = refl

    next_call :
        (vol : Vol) (dp : Dir) (e : FilInfo) (es : List FilInfo)
        → left dp ≡ e ∷ es
        → AllNamed limits (e ∷ es)
        → fat_dirnext_r ff s_blksize disc limits vol dp
          ≡ (vol, (ff.f_readdir vol dp).2, done (listed vol e))
    unfolding fat_dirnext_r
    next_call vol dp e es h (named, short, fits, rest) =
        let (ok, info, left', vol') = laws.next vol dp e es h in
        rw (ok, info, vol', named_ok e.fname named, name_buffer limits e.fname short fits) refl

    -- Repeated calls on an open directory give its entries in their order, each with its name and its
    -- status, and then fail with ENOENT: for a FatFs that keeps what it promises of directories, whose entries have
    -- names that fit.
    pub list_dir-lists :
        (es : List FilInfo) (vol : Vol) (dp : Dir)
        → left dp ≡ es
        → AllNamed limits es
        → list_dir (suc (length es)) vol dp ≡ (map (listed vol) es, failed enoent)
    unfolding list_dir
    list_dir-lists [] vol dp h named = rw (list_dir, last_call vol dp h) refl
    list_dir-lists (e ∷ es) vol dp h named =
        let (ok, info, left', vol') = laws.next vol dp e es h in
        ap
          (λ (r : Vol × Dir × FatResult (Str × FatStat)).
            elim r.2 as (λ x. List (Str × FatStat) × FatResult ℕ) [
              | failed c ↦ ([], failed c)
              | done x ↦ (
                x ∷ (list_dir (length (e ∷ es)) r.0 r.1).0,
                (list_dir (length (e ∷ es)) r.0 r.1).1,
              )
            ])
          (next_call vol dp e es h named)
        ∙ ap (λ (r : List (Str × FatStat) × FatResult ℕ). (listed vol e ∷ r.0, r.1))
            (list_dir-lists es vol (ff.f_readdir vol dp).2 left' named.3)
