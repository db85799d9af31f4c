-- ===== src/Fat/Window.antt =====
-- A volume of `source/fat_driver.c` as a disc of its own: the sectors of the disc that belong to it.
use libdvm.Base.{ℕ, ◌+◌, ◌^◌, ◌≤◌, ◌<◌, ◌≡◌, refl, ap, ◌∙◌, ◌⊎◌, Bool, true, false, arith, sym}
use libdvm.Disc.{DvmDiscIface, DiscLaws}
use libdvm.Disc.Memory.{Sector, Buf}
use libdvm.Disc.Object.{DvmDisc}
use libdvm.Fat.Medium.{
  FatVolume, DResult, res_ok, res_error, res_parerr, disk_read, disk_write, disk_ioctl, ctrl_sync,
  disc_sector, to_dresult,
}

abbrev pub is_ok : DResult → Bool
is_ok res_ok = true
is_ok res_error = false
is_ok res_parerr = false

is_ok-to_dresult : (ok : Bool) → is_ok (to_dresult ok) ≡ ok
is_ok-to_dresult true = refl
is_ok-to_dresult false = refl

-- The calls of FatFs as the operations of a disc.
abbrev pub volume_vt :
    {State : Type 0} → DvmDiscIface (DvmDisc State) → FatVolume → DvmDiscIface (DvmDisc State)
volume_vt vt vol = record {
  destroy = vt.destroy;
  read_sectors = λ d b f n k.
      let r = disk_read vt vol d b f n k in record { state = r.0; buf = r.1; ok = is_ok r.2 };
  write_sectors =
      λ d b f n k. let r = disk_write vt vol d b f n k in record { state = r.0; ok = is_ok r.1 };
  flush = λ d. let r = disk_ioctl vt vol d ctrl_sync in record { state = r.0; ok = is_ok r.2 };
  set_num_sectors = vt.set_num_sectors;
}

module _ {State : Type 0} {vt : DvmDiscIface (DvmDisc State)} {size : ℕ}
    {content : DvmDisc State → ℕ → Sector} {IsOk : DvmDisc State → Type 0}
    (laws : DiscLaws vt size content IsOk) (vol : FatVolume)
    (fits : vol.start_sector + vol.num_sectors ≤ size) (small : size < 2 ^ 32) where
  disc_sector_lem : (f n : ℕ) → f + n ≤ vol.num_sectors → disc_sector vol f ≡ vol.start_sector + f
  disc_sector_lem f n le = omega arith

  -- What FatFs calls for a volume is a disc again, which holds the sectors of the volume and keeps the
  -- contract of a disc: on a disc that keeps it, has fewer than 2^32 sectors and holds the volume.
  pub volume-DiscLaws :
      DiscLaws (volume_vt vt vol) vol.num_sectors (λ d a. content d (vol.start_sector + a)) IsOk
  volume-DiscLaws = record {
    read-IsOk =
        λ d b f n k i le. laws.read-IsOk d b _ n k i (ground (arith, disc_sector_lem f n le));
    read_keeps = λ d b f n k a i le la.
        laws.read_keeps d b _ n k (vol.start_sector + a) i (ground (arith, disc_sector_lem f n le))
          (omega arith);
    read_gets = λ d b f n k j i le ok lj.
        laws.read_gets d b _ n k j i (ground (arith, disc_sector_lem f n le))
          (sym (is_ok-to_dresult _) ∙ ok) lj
        ∙ ap (content d) (omega (arith, disc_sector_lem f n le));
    read_frame = λ d b f n k j i le out.
        laws.read_frame d b _ n k j i (ground (arith, disc_sector_lem f n le)) out;
    write-IsOk =
        λ d b f n k i le. laws.write-IsOk d b _ n k i (ground (arith, disc_sector_lem f n le));
    write_puts = λ d b f n k j i le ok lj.
        ap (content _) (omega (arith, disc_sector_lem f n le))
        ∙ laws.write_puts d b _ n k j i (ground (arith, disc_sector_lem f n le))
            (sym (is_ok-to_dresult _) ∙ ok) lj;
    write_frame = λ d b f n k a i le la out.
        laws.write_frame d b _ n k (vol.start_sector + a) i (ground (arith, disc_sector_lem f n le))
          (omega arith) (ground (arith, disc_sector_lem f n le));
    flush-IsOk = laws.flush-IsOk;
    flush_keeps = λ d a i la. laws.flush_keeps d (vol.start_sector + a) i (omega arith);
  }

  -- A write of FatFs to a volume leaves every sector of the disc outside of the volume as it was, also
  -- if it fails: within the volume, on a disc that keeps the contract, has fewer than 2^32 sectors and
  -- holds the volume.
  pub disk_write-outside :
      (d : DvmDisc State) (b : Buf) (f n : ℕ) (k : Bool) (a : ℕ)
      → IsOk d
      → f + n ≤ vol.num_sectors
      → a < size
      → (a < vol.start_sector) ⊎ (vol.start_sector + vol.num_sectors ≤ a)
      → content (disk_write vt vol d b f n k).0 a ≡ content d a
  disk_write-outside d b f n k a i le la out =
      laws.write_frame d b _ n k a i (ground (arith, disc_sector_lem f n le)) la
        (ground (arith, disc_sector_lem f n le))
