-- ===== src/Cache/Created.antt =====
-- The cache that `dvmDiscCacheCreate` makes, and what its destruction stores.
use native.Mathlib.Nat.{pow-le-pow_right}
use Prim.Native.Nat.{bit_and}
use libdvm.Base.{
  ℕ, zero, suc, ◌+◌, ◌-◌, ◌^◌, ◌≤◌, ◌<◌, ◌≡◌, refl, sym, ◌∙◌, ap, true, false, some, [], ◌&&◌, ◌==◌,
  ltb, leb, arith, Bool-cases, dec_lt, inl, inr,
}
use libdvm.Base.Powers.{bit_and-pred}
use libdvm.Base.Members.{has, NoDup}
use libdvm.Disc.{DvmDiscIface, DiscLaws}
use libdvm.Disc.Object.{DvmDisc, add_user, remove_user-kept, disc_vt, disc_laws}
use libdvm.Disc.Memory.{Buf, Sector}
use libdvm.Cache.Types.{DvmDiscCache, sec_mod, u16_mod, page_sz}
use libdvm.Cache.Invariant.{IsCoherent}
use libdvm.Cache.View.{view, view-uncached}
use libdvm.Cache.Flush.{cache_flush}
use libdvm.Cache.FlushAll.{cache_flush-stores}
use libdvm.Cache.Create.{
  cache_create, cache_destroy, created, page_size, is_refused, page_shift_from, entries_from,
}

-- The loop finds the shift of a power of two.
page_shift_from-finds :
    (fuel k s : ℕ)
    → k ≤ s
    → s < k + fuel
    → (t : ℕ) × (page_shift_from fuel k (2 ^ s) ≡ some t) × (2 ^ t ≡ 2 ^ s)
unfolding page_shift_from
page_shift_from-finds zero k s le lt = absurd (omega arith)
page_shift_from-finds (suc fuel) k s le lt = elim (Bool-cases (2 ^ k == 2 ^ s)) [
  | inl e ↦ (k, rw e refl, ground arith)
  | inr e ↦
      let more : k + 1 ≤ s = ground arith in
      let (t, found, same) = page_shift_from-finds fuel (k + 1) s more (omega arith) in
      (t, rw e found, same)
]

has-entries_from : (n i q : ℕ) → has q (entries_from n i) ≡ (leb i q && ltb q (i + n))
unfolding entries_from
has-entries_from zero i q = ground arith
has-entries_from (suc n) i q = ground (arith, has-entries_from n (i + 1) q)

entries_from-NoDup : (n i : ℕ) → NoDup (entries_from n i)
unfolding entries_from
entries_from-NoDup zero i = tt
entries_from-NoDup (suc n) i =
    (ground (arith, has-entries_from n (i + 1) i), entries_from-NoDup n (i + 1))

-- The shift of a page size that passes the validation.
accepted-shift :
    (cache_pages n : ℕ)
    → is_refused cache_pages n ≡ false
    → n < u16_mod
    → (0 < cache_pages) × (0 < n) × ((t : ℕ) × (page_shift_from 32 0 n ≡ some t) × (2 ^ t ≡ n))
accepted-shift cache_pages n accepted narrow =
    let pages : 0 < cache_pages = ground arith in
    let pos : 0 < n = ground arith in
    let test : bit_and n (n - 1) ≡ 0 = ground arith in
    let (s, power) = bit_and-pred n pos test in
    let below : s < 32 = elim (dec_lt s 32) [
      | yes lt ↦ lt
      | no ge ↦ absurd (too_big s power (omega arith))
    ] in
    let (t, found, same) = page_shift_from-finds 32 0 s (omega arith) (omega arith) in
    (pages, pos, (t, ap (page_shift_from 32 0) power ∙ found, same ∙ sym power))
  where
    too_big : (s : ℕ) → n ≡ 2 ^ s → 32 ≤ s → ⊥
    too_big s power ge = omega (arith, pow-le-pow_right {n = 2} (omega arith) {i = 32} {j = s} ge)

module _ {D : Type 0} (content : D → ℕ → Sector) (IsOk : D → Type 0) (inner_disc : DvmDisc D)
    (cache_pages n : ℕ) (page_data : Buf) (page_shift : ℕ) where
  pub created-Coherent :
      IsOk inner_disc.self
      → inner_disc.num_sectors < sec_mod
      → 0 < cache_pages
      → 2 ^ page_shift ≡ n
      → 0 < n
      → n < u16_mod
      → IsCoherent
          (λ d. content d.self)
          (λ d. IsOk d.self)
          inner_disc.num_sectors
          (created inner_disc cache_pages n page_data page_shift).self
  created-Coherent ok small some_page shift pos narrow = record {
    sized = refl;
    small = omega arith;
    pos = omega arith;
    narrow = omega arith;
    some_page = some_page;
    ordered = record {
      used = [];
      unused = entries_from cache_pages 0;
      split = refl;
      full = λ q h. cc;
      vacant = λ q h. refl;
      nodup = entries_from-NoDup cache_pages 0;
      listed = λ q lt. ground (arith, has-entries_from cache_pages 0 q);
      slots = λ q h. ground (arith, has-entries_from cache_pages 0 q);
    };
    entry_ok = λ q lq used. absurd (used refl);
    empty_clean = λ q lq e. refl;
    unique = λ q r lq lr used e. absurd (used refl);
    clean = λ q o lq used lo inside out fresh. absurd (used refl);
    inner_ok = ok;
  }

module _ {D : Type 0} (content : D → ℕ → Sector) (IsOk : D → Type 0) (inner_disc : DvmDisc D)
    (cache_pages sectors_per_page : ℕ) (page_data : Buf) where
  -- A cache that is created is coherent and stands for the contents of the inner disc, which has a
  -- user more, and its pages have the size that was asked for: where that size, or the block size of
  -- the inner disc if larger, is a power of two below 2 ^ 16, there is a page, and the inner disc is
  -- in order and has a 32-bit number of sectors.
  pub cache_create-IsCoherent :
      IsOk inner_disc.self
      → inner_disc.num_sectors < sec_mod
      → is_refused cache_pages (page_size inner_disc sectors_per_page) ≡ false
      → page_size inner_disc sectors_per_page < u16_mod
      → (disc : DvmDisc (DvmDiscCache (DvmDisc D))) × (cache_create inner_disc cache_pages
            sectors_per_page page_data
          ≡ some (some disc))
        × IsCoherent (λ d. content d.self) (λ d. IsOk d.self) inner_disc.num_sectors disc.self
        × (page_sz disc.self ≡ page_size inner_disc sectors_per_page)
        × (disc.self.inner ≡ add_user inner_disc)
        × ((a : ℕ)
            → a < inner_disc.num_sectors
            → view (λ d. content d.self) disc.self a ≡ content inner_disc.self a)
  unfolding cache_create
  cache_create-IsCoherent ok small accepted narrow =
      let n : ℕ = page_size inner_disc sectors_per_page in
      let (some_page, pos, (t, found, shift)) = accepted-shift cache_pages n accepted narrow in
      (
        created inner_disc cache_pages n page_data t,
        rw (accepted, found) refl,
        created-Coherent content IsOk inner_disc cache_pages n page_data t ok small some_page shift
            pos narrow,
        shift,
        refl,
        λ a la.
            view-uncached (λ d. content d.self) (created inner_disc cache_pages n page_data t).self
              a (λ q lq e. absurd (omega arith)),
      )

module _ {D : Type 0} {vt : DvmDiscIface D} {content : D → ℕ → Sector} {IsOk : D → Type 0}
    {size : ℕ} (laws : DiscLaws vt size content IsOk) (self : DvmDiscCache (DvmDisc D)) where
  -- The destruction of a coherent cache leaves what the cache stood for on the inner disc, if the
  -- flush succeeds and the inner disc has other users.
  pub cache_destroy-stores :
      IsCoherent (λ d. content d.self) (λ d. IsOk d.self) size self
      → (cache_flush (disc_vt vt) self).ok ≡ true
      → (cache_destroy vt self).1 ≡ false
      → (a : ℕ) → a < size
      → content (cache_destroy vt self).0.self a ≡ view (λ d. content d.self) self a
  unfolding cache_destroy
  cache_destroy-stores i ok others a la =
      ap (λ s. content s a) (remove_user-kept vt (cache_flush (disc_vt vt) self).state.inner others)
      ∙ (cache_flush-stores (disc_laws laws) self i).2 ok a la
