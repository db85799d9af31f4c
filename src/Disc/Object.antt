-- ===== src/Disc/Object.antt =====
-- `struct DvmDisc` of `include/dvm.h`, its counter of users, and the disc that wraps a
-- `DISC_INTERFACE` in `source/dvm_disc.c`, as it is compiled for a GameCube or a Wii.
use libdvm.Base.{
  ℕ, ◌+◌, ◌-◌, ◌%◌, ◌^◌, Bool, true, false, ◌==◌, if◌then◌else◌, arith, Bool-cases, ◌≡◌, refl, ap,
  sym, ◌∙◌, ◌<◌, inl, inr,
}
use libdvm.Disc.{DvmDiscIface, DiscLaws}
use libdvm.Disc.Memory.{Sector}

-- `DvmDisc`. `self` is what its operations, the field `vt`, work on.
pub record DvmDisc (State : Type 0) : Type 0 where
  pub self : State
  pub io_type : ℕ
  pub features : ℕ
  pub num_users : ℕ
  pub num_sectors : ℕ
  pub sector_sz : ℕ
  pub block_sz : ℕ

module _ {State : Type 0} where
  abbrev pub add_user : DvmDisc State → DvmDisc State
  add_user disc = record disc { num_users = (disc.num_users + 1) % 2 ^ 16 }

  -- Whether the disc was destroyed, with the state behind.
  abbrev pub remove_user : DvmDiscIface State → DvmDisc State → DvmDisc State × Bool
  remove_user vt disc =
      let left = (disc.num_users + 2 ^ 16 - 1) % 2 ^ 16 in
      if left == 0
      then (record disc { self = vt.destroy disc.self; num_users = left }, true)
      else (record disc { num_users = left }, false)

  pub remove_user-kept :
      (vt : DvmDiscIface State) (d : DvmDisc State)
      → (remove_user vt d).1 ≡ false
      → (remove_user vt d).0.self ≡ d.self
  remove_user-kept vt d h = ground arith

  -- A user that is removed again leaves the disc as it was, where it has other users, and has it
  -- destroyed where it has none: unless the counter of 16 bits is full.
  remove_user-add_user :
      (vt : DvmDiscIface State) (d : DvmDisc State)
      → d.num_users < 2 ^ 16 - 1
      → remove_user vt (add_user d) ≡ (
          if d.num_users == 0
          then (record d { self = vt.destroy d.self; num_users = 0 }, true)
          else (d, false))
  remove_user-add_user vt d lt =
      let back : ((d.num_users + 1) % 2 ^ 16 + 2 ^ 16 - 1) % 2 ^ 16 ≡ d.num_users = omega arith in
      rw back (elim (Bool-cases (d.num_users == 0)) [
        | inl e ↦
            let idle : d.num_users ≡ 0 = ground arith in
            rw e (λ j. (record d { self = vt.destroy d.self; num_users = idle j }, true))
        | inr e ↦ rw e refl
      ])

  -- What that leaves of the number of users, and whether the disc is destroyed.
  pub removed-users :
      (vt : DvmDiscIface State) (d : DvmDisc State)
      → d.num_users < 2 ^ 16 - 1
      → ((remove_user vt (add_user d)).0.num_users ≡ d.num_users)
        × ((remove_user vt (add_user d)).1 ≡ (d.num_users == 0))
  removed-users vt d lt = elim (Bool-cases (d.num_users == 0)) [
    | inl e ↦
        let eq = rw e at (remove_user-add_user vt d lt) in
        (ap (λ r. r.0.num_users) eq ∙ ground arith, ap (λ r. r.1) eq ∙ sym e)
    | inr e ↦
        let eq = rw e at (remove_user-add_user vt d lt) in
        (ap (λ r. r.0.num_users) eq, ap (λ r. r.1) eq ∙ sym e)
  ]

  -- The operations on the disc with its fields, from those on what it wraps.
  abbrev pub disc_vt : DvmDiscIface State → DvmDiscIface (DvmDisc State)
  disc_vt vt = record {
    destroy = λ d. record d { self = vt.destroy d.self };
    read_sectors = λ d b f n k.
        let r = vt.read_sectors d.self b f n k in
        record { state = record d { self = r.state }; buf = r.buf; ok = r.ok };
    write_sectors = λ d b f n k.
        let r = vt.write_sectors d.self b f n k in
        record { state = record d { self = r.state }; ok = r.ok };
    flush =
        λ d. let r = vt.flush d.self in record { state = record d { self = r.state }; ok = r.ok };
    set_num_sectors = λ n d. record d { self = vt.set_num_sectors n d.self; num_sectors = n };
  }

  pub disc_laws :
      {vt : DvmDiscIface State} {size : ℕ} {content : State → ℕ → Sector} {IsOk : State → Type 0}
      → DiscLaws vt size content IsOk
      → DiscLaws (disc_vt vt) size (λ d. content d.self) (λ d. IsOk d.self)
  disc_laws laws = record {
    read-IsOk = λ s. laws.read-IsOk s.self;
    read_keeps = λ s. laws.read_keeps s.self;
    read_gets = λ s. laws.read_gets s.self;
    read_frame = λ s. laws.read_frame s.self;
    write-IsOk = λ s. laws.write-IsOk s.self;
    write_puts = λ s. laws.write_puts s.self;
    write_frame = λ s. laws.write_frame s.self;
    flush-IsOk = λ s. laws.flush-IsOk s.self;
    flush_keeps = λ s. laws.flush_keeps s.self;
  }
