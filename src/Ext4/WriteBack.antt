-- ===== src/Ext4/WriteBack.antt =====
-- How long `source/ext4_driver.c` delays the writes of a volume: as long as files are open on it.
use libdvm.Base.{
  Option, ℕ, ◌+◌, ◌-◌, ◌<◌, ◌≡◌, refl, ap, ◌∙◌, true, false, inl, inr, Bool-cases, arith,
  if◌then◌else◌,
}
use libdvm.Base.Strings.{Str}
use libdvm.Disc.Memory.{Buf}
use libdvm.Nitro.Files.{strip_device}
use libdvm.Ext4.Result.{is_eok, is_ext_done}
use libdvm.Ext4.Files.{
  Ext4Files, ext4_open_r, ext4_close_r, ext4_write_r, ext4_read_r, ext4_fsync_r, ext4_utimes_r,
  and_then, utime_seconds,
}

-- What lwext4 promises of the counter of its mode for delayed writes: a call to turn it on succeeds and
-- counts up, one to turn it off counts down, and no other operation changes it.
pub record CountLaws {Vol Fil : Type 0} (ext : Ext4Files Vol Fil) (delays : Vol → ℕ) : Type 0 where
  pub turned_on :
      (v : Vol)
      → (is_eok (ext.ext4_cache_write_back v true).0 ≡ true)
        × (delays (ext.ext4_cache_write_back v true).1 ≡ delays v + 1)
  pub turned_off : (v : Vol) → delays (ext.ext4_cache_write_back v false).1 ≡ delays v - 1
  pub opens : (v : Vol) (p : Str) (f : ℕ) → delays (ext.ext4_fopen2 v p f).1 ≡ delays v
  pub closes : (v : Vol) (f : Fil) → delays (ext.ext4_fclose v f).1 ≡ delays v
  pub writes : (v : Vol) (f : Fil) (b : Buf) (n : ℕ) → delays (ext.ext4_fwrite v f b n).1 ≡ delays v
  pub reads : (v : Vol) (f : Fil) (n : ℕ) → delays (ext.ext4_fread v f n).1 ≡ delays v
  pub syncs : (v : Vol) → delays (ext.ext4_cache_flush v).1 ≡ delays v
  pub atimes : (v : Vol) (p : Str) (t : ℕ) → delays (ext.ext4_atime_set v p t).1 ≡ delays v
  pub mtimes : (v : Vol) (p : Str) (t : ℕ) → delays (ext.ext4_mtime_set v p t).1 ≡ delays v

-- A volume, and the number of files that a client has open on it: those that an open gave to it and
-- that it did not close yet. A client closes what it has open only.
pub record Clients (Vol : Type 0) : Type 0 where
  pub vol : Vol
  pub files : ℕ

pub data FileStep {Vol Fil : Type 0} (ext : Ext4Files Vol Fil) (s t : Clients Vol) : Type 0 where
  opening :
      (p : Str) (f : ℕ)
      → t ≡ record {
        vol = (ext4_open_r ext s.vol p f).0;
        files = s.files + (if is_ext_done (ext4_open_r ext s.vol p f).1 then 1 else 0);
      }
      → FileStep ext s t
  closing :
      (f : Fil)
      → 0 < s.files
      → t ≡ record { vol = (ext4_close_r ext s.vol f).0; files = s.files - 1 }
      → FileStep ext s t
  writing :
      (f : Fil) (b : Buf) (n : ℕ)
      → t ≡ record s { vol = (ext4_write_r ext s.vol f b n).0 }
      → FileStep ext s t
  reading :
      (f : Fil) (n : ℕ) → t ≡ record s { vol = (ext4_read_r ext s.vol f n).0 } → FileStep ext s t
  syncing : t ≡ record s { vol = (ext4_fsync_r ext s.vol).0 } → FileStep ext s t
  touching :
      (p : Str) (times : Option (ℕ × ℕ)) (now : ℕ)
      → t ≡ record s { vol = (ext4_utimes_r ext s.vol p times now).0 }
      → FileStep ext s t

pub data FileReach {Vol Fil : Type 0} (ext : Ext4Files Vol Fil) (s : Clients Vol)
    : Clients Vol → Type 0 where
  here : FileReach ext s s
  next : {t u : Clients Vol} → FileReach ext s t → FileStep ext t u → FileReach ext s u

module _ {Vol Fil : Type 0} {ext : Ext4Files Vol Fil} {delays : Vol → ℕ}
    (laws : CountLaws ext delays) where
  open-delays :
      (v : Vol) (p : Str) (f : ℕ)
      → delays (ext4_open_r ext v p f).0
        ≡ delays v + (if is_ext_done (ext4_open_r ext v p f).1 then 1 else 0)
  unfolding ext4_open_r
  open-delays v p f =
      let r = ext.ext4_fopen2 v (strip_device p) f in
      elim (Bool-cases (is_eok r.0)) [
        | inl e ↦
            rw (e, (laws.turned_on r.1).0)
              (omega (arith, (laws.turned_on r.1).1, laws.opens v (strip_device p) f))
        | inr e ↦ rw e (omega (arith, laws.opens v (strip_device p) f))
      ]

  close-delays : (v : Vol) (f : Fil) → delays (ext4_close_r ext v f).0 ≡ delays v - 1
  unfolding ext4_close_r
  close-delays v f = laws.closes (ext.ext4_cache_write_back v false).1 f ∙ laws.turned_off v

  and_then-delays :
      (r : ℕ × Vol) (g : Vol → ℕ × Vol)
      → ((v : Vol) → delays (g v).1 ≡ delays v)
      → delays (and_then ext r g).1 ≡ delays r.1
  and_then-delays r g h = elim (Bool-cases (is_eok r.0)) [
    | inl e ↦ rw e (h r.1)
    | inr e ↦ rw e refl
  ]

  utimes-delays :
      (v : Vol) (p : Str) (times : Option (ℕ × ℕ)) (now : ℕ)
      → delays (ext4_utimes_r ext v p times now).0 ≡ delays v
  unfolding ext4_utimes_r
  utimes-delays v p times now =
      let t = utime_seconds times now in
      let w = ext.ext4_cache_write_back v true in
      let set_a = λ (v : Vol). ext.ext4_atime_set v (strip_device p) t.0 in
      let set_m = λ (v : Vol). ext.ext4_mtime_set v (strip_device p) t.1 in
      let a = and_then ext w set_a in
      let m = and_then ext a set_m in
      omega (
        arith,
        (laws.turned_on v).1,
        and_then-delays w set_a (λ v. laws.atimes v (strip_device p) t.0),
        and_then-delays a set_m (λ v. laws.mtimes v (strip_device p) t.1),
        laws.turned_off m.1,
      )

  step-delays :
      {s t : Clients Vol} → FileStep ext s t → delays s.vol ≡ s.files → delays t.vol ≡ t.files
  step-delays {s} (opening p f e) h = rw e (omega (arith, open-delays s.vol p f, h))
  step-delays {s} (closing f some_open e) h = rw e (close-delays s.vol f ∙ ap (λ n. n - 1) h)
  step-delays {s} (writing f b n e) h = rw e (laws.writes s.vol f b n ∙ h)
  step-delays {s} (reading f n e) h = rw e (laws.reads s.vol f n ∙ h)
  step-delays {s} (syncing e) h = rw e (laws.syncs s.vol ∙ h)
  step-delays {s} (touching p times now e) h = rw e (utimes-delays s.vol p times now ∙ h)

  -- Whatever calls open, close, read, write and flush files and set their times, also those that fail,
  -- lwext4 is to delay writes as often as files are open, so it delays none once all are closed: from a
  -- state where this holds, for a client that closes what it has open only, and an lwext4 that counts
  -- as it promises.
  pub reach-delays :
      {s t : Clients Vol} → delays s.vol ≡ s.files → FileReach ext s t → delays t.vol ≡ t.files
  reach-delays h here = h
  reach-delays h (next r st) = step-delays st (reach-delays h r)
