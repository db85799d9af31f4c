-- ===== src/Startup/Tests.antt =====
-- Runs of the start and the end of the library, on a platform whose drivers mount everything.
use libdvm.Base.{
  ℕ, ◌+◌, ◌-◌, ◌≡◌, refl, Bool, true, false, none, some, [], ◌∷◌, ◌++◌, ◌==◌, leb, length,
  if◌then◌else◌,
}
use libdvm.Base.Strings.{Str}
use libdvm.Disc.Ram.{Ram, ram_vt}
use libdvm.Disc.Object.{DvmDisc}
use libdvm.Prober.Ident.{vfat}
use libdvm.Volume.Drivers.{DvmFsDriver}
use libdvm.Volume.Mount.{Platform}
use libdvm.Volume.Probe.{DiscPlace}
use libdvm.Startup.WorkingDir.{app_dir, app_dir_lem}
use libdvm.Startup.Calico.{
  BlkDevice, dldi, twl_sd_card, twl_nand_aes, BlkDevices, Settings, calico_init,
}
use libdvm.Startup.Touches.{DevKeeps, is_wanted, calico_init-keeps}

-- "sd:/apps/" and "run.dol"
abbrev apps : Str
apps = 115 ∷ 100 ∷ 58 ∷ 47 ∷ 97 ∷ 112 ∷ 112 ∷ 115 ∷ []

abbrev run : Str
run = 114 ∷ 117 ∷ 110 ∷ 46 ∷ 100 ∷ 111 ∷ 108 ∷ []

app_dir_lem_example :
    (app_dir 1024 (apps ++ (47 ∷ run))
      ≡ (if leb (length apps + 2) 1024 then some (apps ++ (47 ∷ [])) else none))
    × (app_dir 1024 run ≡ none)
app_dir_lem_example = app_dir_lem 1024 apps run refl

abbrev fat_driver : DvmFsDriver
fat_driver = record { address = 0x1000; fstype = vfat; device_data_sz = 600 }

abbrev disc : DvmDisc Ram
disc = record {
  self = record { sectors = λ a. []; broken = false };
  io_type = 1;
  features = 3;
  num_users = 0;
  num_sectors = 64;
  sector_sz = 512;
  block_sz = 0;
}

-- The disc, how often it was destroyed, how many volumes there are, and whether the NAND was touched.
abbrev World : Type 0
World = DvmDisc Ram × ℕ × ℕ × Bool

abbrev first : World
first = (disc, 0, 0, false)

abbrev platform : Platform World ℕ
platform = record {
  mount = λ d name disc_at p w.
      ((record (w.0) { num_users = w.0.num_users + 1 }, w.1, w.2, w.3), some 7);
  umount = λ d device w. (
    record (w.0) { num_users = w.0.num_users - 1 },
    w.1 + (if w.0.num_users == 1 then 1 else 0),
    w.2,
    w.3,
  );
  add_device = λ v w. ((w.0, w.1, w.2 + 1, w.3), true);
  remove_device = λ name w. w;
  device_name = λ name w. none;
  volume_of = λ name w. none;
  chdir = λ dir w. w;
}

abbrev touched : BlkDevice → Bool → Bool
touched dldi b = b
touched twl_sd_card b = b
touched twl_nand_aes b = true

abbrev touch : BlkDevice → World → World
touch dev w = (w.0, w.1, w.2, touched dev w.3)

abbrev discs : BlkDevice → DiscPlace World Ram
discs dev = record {
  disc = 1;
  get_disc = λ w. w.0;
  set_disc = λ d w. (d, w.1, w.2, touched dev w.3);
  disc_create = λ w. ((disc, w.1, w.2, w.3), true);
  disc_cache_create = λ n k w. touch dev w;
  disc_destroy = λ w. (w.0, w.1 + 1, w.2, touched dev w.3);
}

abbrev blk : BlkDevices World
blk = record {
  blk_init = λ w. w;
  dev_init = λ dev w. (touch dev w, true);
  is_present = λ dev w. (touch dev w, true);
  sector_count = λ dev w. 64;
  dldi_features = λ w. 3;
}

-- A DSi on which nothing asks for the NAND.
abbrev settings : Settings
settings = record { is_twl_mode = true; nand_mount = 0; argv0 = some run; path_max = 1024 }

wanted :
    (dev : BlkDevice)
    → is_wanted settings dev ≡ true
    → DevKeeps blk discs (λ (w : World). w.3 ≡ false) dev
wanted dldi e = record {
  dev_init = λ w i. i;
  is_present = λ w i. i;
  set_disc = λ d w i. i;
  disc_cache_create = λ n k w i. i;
  disc_destroy = λ w i. i;
}
wanted twl_sd_card e = record {
  dev_init = λ w i. i;
  is_present = λ w i. i;
  set_disc = λ d w i. i;
  disc_cache_create = λ n k w i. i;
  disc_destroy = λ w i. i;
}
wanted twl_nand_aes e = cc

calico_init-keeps_example :
    (calico_init platform blk discs ram_vt
      (λ a. [])
      (fat_driver ∷ [])
      2
      settings
      true
      16
      8
      first).0.3
    ≡ false
calico_init-keeps_example =
    calico_init-keeps {I = λ w. w.3 ≡ false}
      (record {
        mount = λ d name disc_at p w i. i;
        umount = λ d v w bad i. i;
        add_device = λ v w i. i;
        chdir = λ dir w i. i;
      })
      ram_vt (λ a. []) (fat_driver ∷ []) 2 settings wanted (λ w i. i) true 16 8 first refl
