-- ===== src/Startup/Counts.antt =====
-- What `dvmInit` of `source/dvm_calico.c` and of `source/dvm_libogc2.c` returns.
use libdvm.Base.{
  ℕ, ◌+◌, ◌≡◌, refl, ◌∙◌, Bool, true, false, not, Option, List, [], ◌∷◌, ◌&&◌, ◌==◌, ltb, leb,
  if◌then◌else◌, arith, Bool-cases, inl, inr,
}
use libdvm.Base.Strings.{Str}
use libdvm.Disc.{DvmDiscIface}
use libdvm.Disc.Memory.{Buf}
use libdvm.Disc.Object.{DvmDisc}
use libdvm.Volume.Drivers.{DrvTable}
use libdvm.Volume.Mount.{Platform}
use libdvm.Volume.Probe.{DiscPlace, probe_mount_disc, probe_mount_disc_iface}
use libdvm.Volume.Counts.{
  OsCounts, PlaceCounts, probe_mount_disc-volumes, probe_mount_disc_iface-volumes,
}
use libdvm.Startup.WorkingDir.{chdir_if, set_dir_of, chdir_if-keeps, set_dir_of-keeps}
use libdvm.Startup.Calico.{
  BlkDevice, dldi, twl_sd_card, twl_nand_aes, BlkDevices, Settings, basename_of, get_calico_disc,
  get_and_mount, set_cwdir, allow_nand_write, mount_twl, calico_init,
}
use libdvm.Startup.Touches.{DevKeeps, get_calico_disc-keeps}
use libdvm.Startup.Ogc.{
  OgcSystem, OgcDevice, OgcDrivers, OgcSystemCalls, Environment, name_of, devices_of, register_all,
  change_dirs, probe_all, ogc_init,
}

module _ {World : Type 0} (volumes : World → ℕ) (n : ℕ) where
  -- The worlds with `n` volumes.
  abbrev Has : World → Type 0
  Has w = volumes w ≡ n

  if-Has : (b : Bool) (x y : World) → Has x → Has y → Has (if b then x else y)
  if-Has true x y h h' = h
  if-Has false x y h h' = h'

  module _ {Device : Type 0} {os : Platform World Device} (counts : OsCounts os volumes) where
    dirs-Has :
        (path_max : ℕ) (argv0 : Option Str) (w : World)
        → Has w
        → Has (set_dir_of os.chdir path_max argv0 w)
    dirs-Has = set_dir_of-keeps os.chdir Has (λ dir w h. counts.chdir dir w ∙ h)

    pwd-Has : (pwd : Option Str) (w : World) → Has w → Has (chdir_if os.chdir pwd w)
    pwd-Has = chdir_if-keeps os.chdir Has (λ dir w h. counts.chdir dir w ∙ h)

module _ {World Device D : Type 0} {os : Platform World Device} {volumes : World → ℕ}
    (counts : OsCounts os volumes) (sys : OgcSystemCalls World)
    (reset : (w : World) → volumes (sys.register_reset_func w) ≡ volumes w)
    {place : OgcDevice → DiscPlace World D}
    (discs : (dev : OgcDevice) → PlaceCounts (place dev) volumes) (vt : DvmDiscIface D) (buf : Buf)
    (has_iface : OgcDevice → Bool) where
  probe_all-volumes :
      (table : DrvTable) (n k : ℕ) (devs : List OgcDevice) (w : World)
      → let r = probe_all os sys place vt buf has_iface table n k devs w in
        volumes r.0 ≡ volumes w + r.1
  unfolding probe_all
  probe_all-volumes table n k [] w = omega arith
  probe_all-volumes table n k (dev ∷ devs) w =
      let r =
        probe_mount_disc_iface os (place dev) vt buf table (name_of dev) (has_iface dev) n k w in
      omega (
        arith,
        probe_mount_disc_iface-volumes counts (discs dev) vt buf table (name_of dev) (has_iface dev)
            n k w,
        probe_all-volumes table n k devs r.0,
      )

  pub ogc_init-volumes :
      (system : OgcSystem) (drivers : OgcDrivers) (env : Environment) (set_app_cwdir : Bool)
      (n k : ℕ) (table : DrvTable) (w : World)
      → let r =
          ogc_init os sys place vt buf has_iface system drivers env set_app_cwdir n k table w in
        r.2 ≡ ltb (volumes w) (volumes r.1)
  unfolding ogc_init
  ogc_init-volumes system drivers env set_app_cwdir n k table w =
      let t = register_all drivers table in
      let r = probe_all os sys place vt buf has_iface t n k (devices_of system) w in
      let all = probe_all-volumes t n k (devices_of system) w in
      let mounted = not (r.1 == 0) in
      let moved = if set_app_cwdir && mounted then change_dirs os sys env r.0 else r.0 in
      let stay : volumes moved ≡ volumes r.0 =
        if-Has volumes (volumes r.0) _ _ _
          (dirs-Has volumes (volumes r.0) counts env.path_max env.argv0 _
            (pwd-Has volumes (volumes r.0) counts env.pwd r.0 refl))
          refl in
      let end : volumes (if mounted then sys.register_reset_func moved else moved) ≡ volumes r.0 =
        if-Has volumes (volumes r.0) mounted _ _ (reset moved ∙ stay) stay in
      ground (arith, all, end)

module _ {World Device D : Type 0} {os : Platform World Device} {volumes : World → ℕ}
    (counts : OsCounts os volumes) {blk : BlkDevices World} {place : BlkDevice → DiscPlace World D}
    (discs : (n : ℕ) (dev : BlkDevice) → DevKeeps blk place (Has volumes n) dev)
    (vt : DvmDiscIface D) (buf : Buf) (table : DrvTable) where
  get_and_mount-volumes :
      (dev : BlkDevice) (n k : ℕ) (w : World)
      → let r = get_and_mount os blk place vt buf table dev n k w in volumes r.0 ≡ volumes w + r.1
  unfolding get_and_mount
  get_and_mount-volumes dev n k w =
      let d = get_calico_disc blk place dev n k w in
      let first : volumes d.0 ≡ volumes w =
        get_calico_disc-keeps dev n k w (discs (volumes w) dev) refl in
      let r = probe_mount_disc os (place dev) vt buf table (basename_of dev) d.0 in
      let set : (c : DvmDisc D) (v : World) → volumes ((place dev).set_disc c v) ≡ volumes v =
        λ c v. (discs (volumes v) dev).set_disc c v refl in
      let found =
        probe_mount_disc-volumes counts (place dev) set vt buf table (basename_of dev) d.0 in
      let gone = (discs (volumes r.0) dev).disc_destroy r.0 refl in
      elim (Bool-cases d.1) [
        | inr e ↦ rw e (omega (arith, first))
        | inl e ↦ elim (Bool-cases (r.1 == 0)) [
          | inl h ↦
              let zero : r.1 ≡ 0 = ground arith in
              rw (e, h) (omega (arith, gone, found, first, zero))
          | inr h ↦ rw (e, h) (omega (arith, found, first))
        ]
      ]

  module _ (can_write : ℕ) (settings : Settings) where
    allow_nand_write-volumes :
        (w : World)
        → volumes (allow_nand_write os blk place vt buf table can_write settings w) ≡ volumes w
    allow_nand_write-volumes w = elim (Bool-cases (leb 2 settings.nand_mount)) [
      | inl e ↦ rw e ((discs (volumes w) twl_nand_aes).set_disc _ w refl)
      | inr e ↦ rw e refl
    ]

    mount_twl-volumes :
        (n k : ℕ) (w : World)
        → let r = mount_twl os blk place vt buf table can_write settings n k w in
          volumes r.0 ≡ volumes w + r.1
    mount_twl-volumes n k w =
        let s = get_and_mount os blk place vt buf table twl_sd_card n k w in
        let first = get_and_mount-volumes twl_sd_card n k w in
        let a = allow_nand_write os blk place vt buf table can_write settings s.0 in
        let allowed = allow_nand_write-volumes s.0 in
        let second = get_and_mount-volumes twl_nand_aes n k a in
        elim (Bool-cases settings.is_twl_mode) [
          | inr e ↦ rw e (omega arith)
          | inl e ↦ elim (Bool-cases (settings.nand_mount == 0)) [
            | inl h ↦ rw (e, h) (omega (arith, first))
            | inr h ↦ rw (e, h) (omega (arith, first, second, allowed))
          ]
        ]

    pub calico_init-volumes :
        ((w : World) → volumes (blk.blk_init w) ≡ volumes w)
        → (set_app_cwdir : Bool) (n k : ℕ) (w : World)
        → let r = calico_init os blk place vt buf table can_write settings set_app_cwdir n k w in
          r.1 ≡ ltb (volumes w) (volumes r.0)
    unfolding calico_init
    calico_init-volumes start set_app_cwdir n k w =
        let f = get_and_mount os blk place vt buf table dldi n k (blk.blk_init w) in
        let first = get_and_mount-volumes dldi n k (blk.blk_init w) in
        let t = mount_twl os blk place vt buf table can_write settings n k f.0 in
        let second = mount_twl-volumes n k f.0 in
        let begun = start w in
        let end : volumes (set_cwdir os.chdir settings (set_app_cwdir && not (f.1 + t.1 == 0)) t.0)
            ≡ volumes t.0 =
          if-Has volumes (volumes t.0) _ _ t.0
            (dirs-Has volumes (volumes t.0) counts settings.path_max settings.argv0 t.0 refl)
            refl in
        ground (arith, first, second, begun, end)
