-- ===== src/Startup/OgcTests.antt =====
-- Runs of `dvmInit` and `dvmDeinit` on a Wii.
use mathlib.Core.Option
use libdvm.Base.{
  ℕ, ◌≡◌, refl, Bool, true, false, none, some, [], ◌∷◌, ◌==◌, if◌then◌else◌, Bool-cases, inl, inr,
  arith, ap, sym, ◌∙◌,
}
use libdvm.Base.Strings.{Str, str_eq}
use libdvm.Prober.Ident.{vfat}
use libdvm.Volume.Drivers.{DvmFsDriver, find_driver}
use libdvm.Volume.Mount.{Platform, DvmVolume, device_of}
use libdvm.Volume.Probe.{exfat_name}
use libdvm.Startup.Ogc.{OgcSystemCalls, register_all, dvm_deinit}
use libdvm.Startup.Linked.{register_all-Finds}
use libdvm.Startup.Deinit.{DeviceLaws, dvm_deinit-frees}

abbrev fat_driver : DvmFsDriver
fat_driver = record { address = 0x1000; fstype = vfat; device_data_sz = 600 }

-- Whether a volume is at an index. The device at an index has its index in its name.
abbrev Slots : Type 0
Slots = ℕ → Bool

abbrev name_at : ℕ → Str
name_at i = 100 ∷ i ∷ []

abbrev index_of : Str → ℕ
index_of [] = 0
index_of (c ∷ []) = 0
index_of (c ∷ i ∷ cs) = i

abbrev volume : DvmVolume ℕ
volume = record { name = vfat; fsdrv = fat_driver; device_data = 7 }

abbrev slots_platform : Platform Slots ℕ
slots_platform = record {
  mount = λ d name disc_at p w. (w, some 7);
  umount = λ d device w. w;
  add_device = λ v w. (w, true);
  remove_device = λ name w i. if i == index_of name then false else w i;
  device_name = λ name w. none;
  volume_of = λ name w. if w (index_of name) then some volume else none;
  chdir = λ dir w. w;
}

abbrev slots_calls : OgcSystemCalls Slots
slots_calls = record {
  register_reset_func = λ w. w;
  unregister_reset_func = λ w. w;
  fsync = λ fd w. w;
  device_at = λ i w. some (name_at i);
}

index_of-device_of : (i : ℕ) → index_of (device_of (name_at i)) ≡ i
index_of-device_of i = elim (Bool-cases (i == 58)) [ inl e ↦ rw e refl | inr e ↦ rw e refl ]

removed_lem :
    (i : ℕ) (w : Slots) (name : Str)
    → name_at i ≡ name
    → slots_platform.remove_device (device_of name) w i ≡ false
removed_lem i w name e =
    let at : index_of (device_of name) ≡ i =
      ap (λ n. index_of (device_of n)) (sym e) ∙ index_of-device_of i in
    ground arith

device_laws : DeviceLaws slots_platform slots_calls (λ i w. w i)
unfolding str_eq
device_laws = record {
  named = λ i w e. (name_at i, refl, refl, volume, rw (index_of-device_of i, e) refl);
  removed = λ i w name at. removed_lem i w name (Option.some-injective _ _ at);
  remove_device = λ i name w e. ground arith;
  umount = λ i d device w. refl;
  unregister = λ i w. refl;
}

dvm_deinit-frees_example : dvm_deinit slots_platform slots_calls 35 (λ i. true) 4 ≡ false
dvm_deinit-frees_example = dvm_deinit-frees device_laws 35 4 (λ i. true) (omega arith) (omega arith)

abbrev exfat_driver : DvmFsDriver
exfat_driver = record { address = 0x2000; fstype = exfat_name; device_data_sz = 600 }

register_all-Finds_example :
    let t =
      register_all
        (record {
          vfat_driver = some fat_driver;
          exfat_driver = some exfat_driver;
          ext2_driver = none;
        })
        [] in
    (find_driver vfat t ≡ some fat_driver)
    × (find_driver exfat_name t ≡ some exfat_driver)
    × Unit {0}
unfolding str_eq
register_all-Finds_example =
    register_all-Finds (some fat_driver) (some exfat_driver) none
      (record { address = refl; fstype = refl }) tt tt
