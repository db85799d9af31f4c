-- ===== src/Startup/Owner.antt =====
-- Who destroys the discs that `source/dvm_calico.c` mounts.
use libdvm.Base.{
  ◌%◌, ◌^◌, ℕ, ◌+◌, ◌<◌, ◌≡◌, ap, ◌∙◌, Bool, true, ◌==◌, if◌then◌else◌, arith, Bool-cases, inl, inr,
}
use libdvm.Disc.{DvmDiscIface}
use libdvm.Disc.Memory.{Buf}
use libdvm.Volume.Drivers.{DrvTable}
use libdvm.Volume.Mount.{Platform, DvmVolume}
use libdvm.Volume.Probe.{DiscPlace, probe_mount_disc}
use libdvm.Volume.Owner.{OwnerLaws}
use libdvm.Volume.Discs.{users_of}
use libdvm.Volume.Probed.{probe_mount_disc-Owned}
use libdvm.Startup.Calico.{
  BlkDevice, BlkDevices, basename_of, found_disc, get_calico_disc, get_and_mount,
}

-- The block device itself has no users and destroys nothing.
pub record BlkLaws {World D : Type 0} (blk : BlkDevices World)
    (place : BlkDevice → DiscPlace World D) (destroys : World → ℕ) (dev : BlkDevice) : Type 0 where
  pub init_users :
      (w : World) → users_of (place dev) (blk.dev_init dev w).0 ≡ users_of (place dev) w
  pub init_destroys : (w : World) → destroys (blk.dev_init dev w).0 ≡ destroys w
  pub present_users :
      (w : World) → users_of (place dev) (blk.is_present dev w).0 ≡ users_of (place dev) w
  pub present_destroys : (w : World) → destroys (blk.is_present dev w).0 ≡ destroys w

module _ {World Device D : Type 0} {os : Platform World Device} {blk : BlkDevices World}
    {place : BlkDevice → DiscPlace World D} {disc_of : Device → ℕ} {destroys : World → ℕ}
    {dev : BlkDevice} (laws : OwnerLaws os (place dev) disc_of destroys)
    (blk_laws : BlkLaws blk place destroys dev) where
  present_lem :
      (w : World)
      → let i = blk.dev_init dev w in
        let p = if i.1 then blk.is_present dev i.0 else i in
        (users_of (place dev) p.0 ≡ users_of (place dev) w) × (destroys p.0 ≡ destroys w)
  present_lem w = elim (Bool-cases (blk.dev_init dev w).1) [
    | inl e ↦ rw e (
      blk_laws.present_users _ ∙ blk_laws.init_users w,
      blk_laws.present_destroys _ ∙ blk_laws.init_destroys w,
    )
    | inr e ↦ rw e (blk_laws.init_users w, blk_laws.init_destroys w)
  ]

  get_calico_disc-users :
      (n k : ℕ) (w : World)
      → users_of (place dev) w ≡ 0
      → let d = get_calico_disc blk place dev n k w in
        (destroys d.0 ≡ destroys w) × (users_of (place dev) d.0 ≡ 0)
  unfolding get_calico_disc found_disc
  get_calico_disc-users n k w idle =
      let i = blk.dev_init dev w in
      let p : World × Bool = if i.1 then blk.is_present dev i.0 else i in
      let (users, same) = present_lem w in
      let none : users_of (place dev) p.0 ≡ 0 = users ∙ idle in
      let found = (place dev).set_disc (found_disc blk place dev p.0) p.0 in
      let set : users_of (place dev) found ≡ 0 =
        ap (λ d. d.num_users) (laws.set_get (found_disc blk place dev p.0) p.0) ∙ none in
      elim (Bool-cases p.1) [
        | inl e ↦ rw e (
          laws.cache_destroys n k found ∙ laws.set_destroys _ p.0 ∙ same,
          laws.cache_users n k found set,
        )
        | inr e ↦ rw e (same, none)
      ]

  pub get_and_mounted-Owned :
      ((v : DvmVolume Device) (w : World) → (os.add_device v w).1 ≡ true)
      → (vt : DvmDiscIface D) (buf : Buf) (table : DrvTable) (n k : ℕ) (w : World)
      → users_of (place dev) w ≡ 0
      → let r = get_and_mount os blk place vt buf table dev n k w in
        let is_disc = (get_calico_disc blk place dev n k w).1 in
        (0 < r.1 → (destroys r.0 ≡ destroys w) × (users_of (place dev) r.0 ≡ r.1 % 2 ^ 16))
        × (r.1 ≡ 0 → destroys r.0 ≡ destroys w + (if is_disc then 1 else 0))
  unfolding get_and_mount
  get_and_mounted-Owned free vt buf table n k w idle =
      let d = get_calico_disc blk place dev n k w in
      let (same, unused) = get_calico_disc-users n k w idle in
      let r = probe_mount_disc os (place dev) vt buf table (basename_of dev) d.0 in
      let (kept, users) =
        probe_mount_disc-Owned laws free vt buf table (basename_of dev) d.0
          (omega (arith, unused)) in
      elim (Bool-cases d.1) [
        | inr e ↦ rw e (λ h. absurd (omega arith), λ h. omega (arith, same))
        | inl e ↦ elim (Bool-cases (r.1 == 0)) [
          | inl h ↦
              rw (e, h)
                (
                  λ p. absurd (omega arith),
                  λ p. omega (arith, laws.destroy_destroys r.0, kept, same),
                )
          | inr h ↦
              rw (e, h)
                (λ p. (kept ∙ same, omega (arith, users, unused)), λ p. absurd (ground arith))
        ]
      ]
