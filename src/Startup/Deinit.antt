-- ===== src/Startup/Deinit.antt =====
-- `dvmDeinit` of `source/dvm_libogc2.c` unmounts every volume.
use libdvm.Base.{
  ℕ, sym, zero, suc, ◌+◌, ◌-◌, ◌≤◌, ◌<◌, ◌≡◌, ◌∙◌, Bool, true, false, Option, none, some, arith,
  Bool-cases, inl, inr, ℕ_discrete,
}
use libdvm.Base.Strings.{Str, str_eq}
use libdvm.Volume.Drivers.{DvmFsDriver}
use libdvm.Volume.Mount.{Platform, DvmVolume, stdnull, device_of, unmount_found, unmount_volume}
use libdvm.Startup.Ogc.{OgcSystemCalls, unmount_named, unmount_from, dvm_deinit}

-- What newlib and the drivers do to the devices, where no two of them have one name. `is_volume i w`
-- is whether a volume is at an index of `devoptab_list`.
pub record DeviceLaws {World Device : Type 0} (os : Platform World Device)
    (sys : OgcSystemCalls World) (is_volume : ℕ → World → Bool) : Type 0 where
  pub named :
      (i : ℕ) (w : World)
      → is_volume i w ≡ true
      → (name : Str) × (sys.device_at i w ≡ some name)
        × (str_eq name stdnull ≡ false)
        × (v : DvmVolume Device) × (os.volume_of (device_of name) w ≡ some v)
  pub removed :
      (i : ℕ) (w : World) (name : Str)
      → sys.device_at i w ≡ some name
      → is_volume i (os.remove_device (device_of name) w) ≡ false
  pub remove_device :
      (i : ℕ) (name : Str) (w : World)
      → is_volume i w ≡ false
      → is_volume i (os.remove_device name w) ≡ false
  pub umount :
      (i : ℕ) (d : DvmFsDriver) (device : Device) (w : World)
      → is_volume i (os.umount d device w) ≡ is_volume i w
  pub unregister : (i : ℕ) (w : World) → is_volume i (sys.unregister_reset_func w) ≡ is_volume i w

module _ {World Device : Type 0} {os : Platform World Device} {sys : OgcSystemCalls World}
    {is_volume : ℕ → World → Bool} (laws : DeviceLaws os sys is_volume) where
  unmount_found-gone :
      (i : ℕ) (name : Str) (w : World) (v : Option (DvmVolume Device))
      → is_volume i w ≡ false
      → is_volume i (unmount_found os name w v).0 ≡ false
  unfolding unmount_found
  unmount_found-gone i name w none h = h
  unmount_found-gone i name w (some v) h =
      laws.umount i v.fsdrv v.device_data _ ∙ laws.remove_device i name w h

  -- An unmount makes no volume.
  unmount_named-gone :
      (i : ℕ) (name : Option Str) (w : World)
      → is_volume i w ≡ false
      → is_volume i (unmount_named os sys name w) ≡ false
  unfolding unmount_named unmount_volume
  unmount_named-gone i none w h = h
  unmount_named-gone i (some name) w h = elim (Bool-cases (str_eq name stdnull)) [
    | inl e ↦ rw e h
    | inr e ↦ rw e (unmount_found-gone i (device_of name) w (os.volume_of (device_of name) w) h)
  ]

  -- The volume at an index is gone behind the body of the loop at that index.
  unmount_named-frees :
      (i : ℕ) (w : World) → is_volume i (unmount_named os sys (sys.device_at i w) w) ≡ false
  unfolding unmount_named unmount_volume unmount_found
  unmount_named-frees i w = elim (Bool-cases (is_volume i w)) [
    | inr e ↦ unmount_named-gone i (sys.device_at i w) w e
    | inl e ↦
        let (name, at, ours, v, found) = laws.named i w e in
        rw (at, ours, found) (laws.umount i v.fsdrv v.device_data _ ∙ laws.removed i w name at)
  ]

  unmount_from-gone :
      (n j i : ℕ) (w : World)
      → is_volume i w ≡ false
      → is_volume i (unmount_from os sys n j w) ≡ false
  unfolding unmount_from
  unmount_from-gone zero j i w h = h
  unmount_from-gone (suc n) j i w h =
      unmount_from-gone n (j + 1) i _ (unmount_named-gone i (sys.device_at j w) w h)

  unmount_from-frees :
      (n j i : ℕ) (w : World) → j ≤ i → i < j + n → is_volume i (unmount_from os sys n j w) ≡ false
  unfolding unmount_from
  unmount_from-frees zero j i w from upto = absurd (omega arith)
  unmount_from-frees (suc n) j i w from upto = elim (ℕ_discrete j i) [
    | yes e ↦ unmount_from-gone n (j + 1) i _ (rw (sym e) (unmount_named-frees j w))
    | no ne ↦ unmount_from-frees n (j + 1) i _ (omega arith) (omega arith)
  ]

  -- `dvmDeinit` leaves no volume among the devices behind the three standard ones, whatever their
  -- number and whichever of them were volumes: where no two devices have the same name, and a name has
  -- 30 characters at most.
  pub dvm_deinit-frees :
      (std_max i : ℕ) (w : World)
      → 3 ≤ i
      → i < std_max
      → is_volume i (dvm_deinit os sys std_max w) ≡ false
  unfolding dvm_deinit
  dvm_deinit-frees std_max i w from upto =
      laws.unregister i _ ∙ unmount_from-frees (std_max - 3) 3 i _ from (omega arith)
