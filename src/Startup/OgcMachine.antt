-- ===== src/Startup/OgcMachine.antt =====
-- `dvmInit` of `source/dvm_libogc2.c` on the program put together, with a disc for each device.
use libdvm.Base.{
  ap, ℕ, ◌+◌, ◌≡◌, refl, ◌∙◌, Bool, true, false, not, List, [], ◌∷◌, ◌&&◌, ◌==◌, ltb, if◌then◌else◌,
  arith,
}
use libdvm.Disc.{DvmDiscIface}
use libdvm.Disc.Memory.{Buf}
use libdvm.Disc.Wrap.{DiscInterface, wrap_vt, disc_create}
use libdvm.Fat.Mount.{FatMounts}
use libdvm.Ext4.Mount.{Ext4Mounts}
use libdvm.Volume.Drivers.{DrvTable}
use libdvm.Volume.Mount.{Platform}
use libdvm.Volume.Probe.{DiscPlace, probe_mount_disc_iface}
use libdvm.Volume.Machine.{
  DiscSelf, VolumeData, Machine, Newlib, counted, self_vt, machine_os, machine_place,
}
use libdvm.Volume.Made.{os_counts, place_counts, probe_mount_disc_iface-made}
use libdvm.Startup.WorkingDir.{chdir_if-keeps, set_dir_of-keeps}
use libdvm.Startup.Ogc.{
  OgcSystem, wii, gamecube, OgcDevice, sd, usb, carda, cardb, dvd, ram, OgcDrivers, OgcSystemCalls,
  Environment, name_of, devices_of, register_all, change_dirs, probe_all, ogc_init,
}
use libdvm.Startup.Counts.{ogc_init-volumes}

-- The address of the disc of a device.
abbrev pub address_of : OgcDevice → ℕ
address_of sd = 1
address_of usb = 2
address_of carda = 3
address_of cardb = 4
address_of dvd = 5
address_of ram = 6

-- The devices that each system has: a Wii has an SD slot and USB, a GameCube has Serial Port 2, the GC
-- Loader and the Memory Expansion Pak, and both have the memory slots.
abbrev pub has_port : OgcSystem → OgcDevice → Bool
has_port wii dvd = false
has_port wii ram = false
has_port gamecube usb = false
has_port system dev = true

made_if :
    {Dev Fs Mp Os : Type 0} (q n : ℕ) (b : Bool) (x y : Machine Dev Fs Mp Os)
    → x.made q ≡ n
    → y.made q ≡ n
    → (if b then x else y).made q ≡ n
made_if q n true x y h k = h
made_if q n false x y h k = k

-- The interface of a device, where its state goes with its name.
module _ {Dev : Type 0} (ifaces : OgcDevice → DiscInterface Dev) where
  abbrev pub labelled : OgcDevice → DiscInterface (OgcDevice × Dev)
  labelled dev =
      let i = ifaces dev in
      record {
        startup = λ d. let r = i.startup d.1 in ((dev, r.0), r.1);
        is_inserted = λ d. let r = i.is_inserted d.1 in ((dev, r.0), r.1);
        read_sectors = λ d f n b.
            let r = i.read_sectors d.1 f n b in
            record { state = (dev, r.state); buf = r.buf; ok = r.ok };
        write_sectors = λ d f n b.
            let r = i.write_sectors d.1 f n b in record { state = (dev, r.state); ok = r.ok };
        flush = λ d. let r = i.flush d.1 in record { state = (dev, r.state); ok = r.ok };
        shutdown = λ d. (dev, i.shutdown d.1);
        io_type = i.io_type;
        features = i.features;
        number_of_sectors = i.number_of_sectors;
        bytes_per_sector = i.bytes_per_sector;
        sectors_per_block = i.sectors_per_block;
      }

  abbrev pub labelled_vt : DvmDiscIface (OgcDevice × Dev)
  labelled_vt = record {
    destroy = λ d. (wrap_vt (labelled d.0)).destroy d;
    read_sectors = λ d. (wrap_vt (labelled d.0)).read_sectors d;
    write_sectors = λ d. (wrap_vt (labelled d.0)).write_sectors d;
    flush = λ d. (wrap_vt (labelled d.0)).flush d;
    set_num_sectors = λ n d. d;
  }

-- The calls of libogc2 and newlib, which leave the discs.
abbrev pub machine_calls :
    {Dev Fs Mp Os : Type 0} → OgcSystemCalls Os → OgcSystemCalls (Machine Dev Fs Mp (Os × ℕ))
machine_calls sys = record {
  register_reset_func = λ w. record w { os = (sys.register_reset_func w.os.0, w.os.1) };
  unregister_reset_func = λ w. record w { os = (sys.unregister_reset_func w.os.0, w.os.1) };
  fsync = λ fd w. record w { os = (sys.fsync fd w.os.0, w.os.1) };
  device_at = λ i w. sys.device_at i w.os.0;
}

module _ {Dev Fs Mp Os : Type 0} (ifaces : OgcDevice → DiscInterface Dev) (is_aligned : Bool)
    (ff : FatMounts (DiscSelf (OgcDevice × Dev)) Fs)
    (ext : Ext4Mounts (DiscSelf (OgcDevice × Dev)) Mp) (can_format can_write enotsup : ℕ)
    (nl : Newlib Os) (sys : OgcSystemCalls Os) (page_data buf : Buf)
    (has_iface : OgcDevice → Bool) where
  abbrev pub ogc_os : Platform (Machine (OgcDevice × Dev) Fs Mp (Os × ℕ)) VolumeData
  ogc_os =
      machine_os (labelled_vt ifaces) is_aligned ff ext can_format can_write enotsup (counted nl)

  abbrev pub ogc_place :
      OgcDevice → DiscPlace (Machine (OgcDevice × Dev) Fs Mp (Os × ℕ)) (DiscSelf (OgcDevice × Dev))
  ogc_place dev =
      machine_place (labelled_vt ifaces) is_aligned (disc_create (labelled ifaces dev)) page_data
        (address_of dev)

  abbrev pub ogc_start :
      OgcSystem
      → OgcDrivers
      → Environment
      → Bool
      → ℕ
      → ℕ
      → DrvTable
      → Machine (OgcDevice × Dev) Fs Mp (Os × ℕ)
      → DrvTable × Machine (OgcDevice × Dev) Fs Mp (Os × ℕ) × Bool
  ogc_start =
      ogc_init ogc_os (machine_calls sys) ogc_place (self_vt (labelled_vt ifaces) is_aligned) buf
        has_iface

  -- On a GameCube and on a Wii, `dvmInit` returns true exactly if newlib accepts a volume in the course of
  -- it, where `os.1` is the number of times that `AddDevice` did so.
  pub ogc_init-accepted :
      (system : OgcSystem) (drivers : OgcDrivers) (env : Environment) (set_app_cwdir : Bool)
      (n k : ℕ) (table : DrvTable) (w : Machine (OgcDevice × Dev) Fs Mp (Os × ℕ))
      → let r = ogc_start system drivers env set_app_cwdir n k table w in r.2 ≡ ltb w.os.1 r.1.os.1
  ogc_init-accepted system drivers env set_app_cwdir n k table w =
      ogc_init-volumes
        (os_counts (labelled_vt ifaces) is_aligned ff ext can_format can_write enotsup nl)
        (machine_calls sys) (λ u. refl)
        (λ dev.
          place_counts (labelled_vt ifaces) is_aligned ff ext can_format can_write enotsup nl
            (disc_create (labelled ifaces dev)) page_data (address_of dev))
        (self_vt (labelled_vt ifaces) is_aligned) buf has_iface system drivers env set_app_cwdir n k
        table w

  -- How often a disc with the address `q` is among those of the devices.
  abbrev pub times_at : ℕ → List OgcDevice → ℕ
  times_at q [] = 0
  times_at q (dev ∷ devs) =
      (if has_iface dev && (q == address_of dev) then 1 else 0) + times_at q devs

  probe_all-made :
      (q : ℕ) (table : DrvTable) (n k : ℕ) (devs : List OgcDevice)
      (w : Machine (OgcDevice × Dev) Fs Mp (Os × ℕ))
      → (probe_all ogc_os
            (machine_calls sys)
            ogc_place
            (self_vt (labelled_vt ifaces) is_aligned)
            buf
            has_iface
            table
            n
            k
            devs
            w).0.made
          q
        ≡ w.made q + times_at q devs
  unfolding probe_all
  probe_all-made q table n k [] w = omega arith
  probe_all-made q table n k (dev ∷ devs) w =
      let one =
        probe_mount_disc_iface-made (labelled_vt ifaces) is_aligned ff ext can_format can_write
          enotsup (counted nl) (disc_create (labelled ifaces dev)) page_data (address_of dev) q buf
          table (name_of dev) (has_iface dev) n k w in
      let r =
        probe_mount_disc_iface ogc_os (ogc_place dev) (self_vt (labelled_vt ifaces) is_aligned) buf
          table (name_of dev) (has_iface dev) n k w in
      omega (arith, one, probe_all-made q table n k devs r.0)

  times_at-has_port :
      (system : OgcSystem) (dev : OgcDevice)
      → times_at (address_of dev) (devices_of system)
        ≡ (if has_port system dev && has_iface dev then 1 else 0)
  times_at-has_port wii sd = ground arith
  times_at-has_port wii usb = ground arith
  times_at-has_port wii carda = ground arith
  times_at-has_port wii cardb = ground arith
  times_at-has_port wii dvd = ground arith
  times_at-has_port wii ram = ground arith
  times_at-has_port gamecube sd = ground arith
  times_at-has_port gamecube usb = ground arith
  times_at-has_port gamecube carda = ground arith
  times_at-has_port gamecube cardb = ground arith
  times_at-has_port gamecube dvd = ground arith
  times_at-has_port gamecube ram = ground arith

  -- `dvmInit` calls `dvmDiscCreate` once for each device that the system has and whose interface there is,
  -- and for no other.
  pub ogc_init-made :
      (system : OgcSystem) (drivers : OgcDrivers) (env : Environment) (set_app_cwdir : Bool)
      (n k : ℕ) (table : DrvTable) (w : Machine (OgcDevice × Dev) Fs Mp (Os × ℕ)) (dev : OgcDevice)
      → let r = ogc_start system drivers env set_app_cwdir n k table w in
        r.1.made (address_of dev)
        ≡ w.made (address_of dev) + (if has_port system dev && has_iface dev then 1 else 0)
  unfolding ogc_init
  ogc_init-made system drivers env set_app_cwdir n k table w dev =
      let q = address_of dev in
      let t = register_all drivers table in
      let vt = self_vt (labelled_vt ifaces) is_aligned in
      let r =
        probe_all ogc_os (machine_calls sys) ogc_place vt buf has_iface t n k (devices_of system)
          w in
      let all = probe_all-made q t n k (devices_of system) w in
      let mounted = not (r.1 == 0) in
      let moved =
        if set_app_cwdir && mounted then change_dirs ogc_os (machine_calls sys) env r.0 else r.0 in
      let I : Machine (OgcDevice × Dev) Fs Mp (Os × ℕ) → Type 0 = λ u. u.made q ≡ r.0.made q in
      let changed : I (change_dirs ogc_os (machine_calls sys) env r.0) =
        set_dir_of-keeps ogc_os.chdir I (λ dir u e. e) env.path_max env.argv0 _
          (chdir_if-keeps ogc_os.chdir I (λ dir u e. e) env.pwd r.0 refl) in
      let stay : moved.made q ≡ r.0.made q =
        made_if q (r.0.made q) (set_app_cwdir && mounted) _ _ changed refl in
      let end =
        made_if q (r.0.made q) mounted ((machine_calls sys).register_reset_func moved) moved stay
          stay in
      end ∙ all ∙ ap (λ m. w.made q + m) (times_at-has_port system dev)
