-- ===== src/Disc/Wrap.antt =====
-- The disc that wraps a `DISC_INTERFACE`, in `source/dvm_disc.c`, as it is compiled for a GameCube or a
-- Wii and where `malloc` succeeds. The interface is a parameter.
use Prim.Native.Nat.{bit_and}
use libdvm.Base.{
  ℕ, ◌-◌, ◌%◌, ◌^◌, ◌≤◌, ◌<◌, ◌≡◌, refl, ◌⊎◌, inl, inr, Bool, true, not, Option, none, some, ◌&&◌,
  ◌||◌, ◌==◌, ltb, if◌then◌else◌, arith, Bool-cases,
}
use libdvm.Disc.{DvmDiscIface, ReadReply, WriteReply}
use libdvm.Disc.Memory.{Buf}
use libdvm.Disc.Object.{DvmDisc}

-- `DISC_INTERFACE` of libogc2, over the state of the device.
pub record DiscInterface (Device : Type 0) : Type 0 where
  pub startup : Device → Device × Bool
  pub is_inserted : Device → Device × Bool
  pub read_sectors : Device → ℕ → ℕ → Buf → ReadReply Device
  pub write_sectors : Device → ℕ → ℕ → Buf → WriteReply Device
  pub flush : Device → WriteReply Device
  pub shutdown : Device → Device
  pub io_type : ℕ
  pub features : ℕ
  pub number_of_sectors : ℕ
  pub bytes_per_sector : ℕ
  pub sectors_per_block : ℕ

module _ {Device : Type 0} (iface : DiscInterface Device) where
  -- `s_dvmDiscWrapIface`
  abbrev pub wrap_vt : DvmDiscIface Device
  wrap_vt = record {
    destroy = iface.shutdown;
    read_sectors = λ d buffer first_sector num_sectors is_partial.
        iface.read_sectors d first_sector num_sectors buffer;
    write_sectors = λ d buffer first_sector num_sectors is_partial.
        iface.write_sectors d first_sector num_sectors buffer;
    flush = iface.flush;
    set_num_sectors = λ n d. d;
  }

  abbrev pub wrap_disc : Device → DvmDisc Device
  wrap_disc d = record {
    self = d;
    io_type = iface.io_type;
    features = iface.features % 2 ^ 16;
    num_users = 0;
    num_sectors = iface.number_of_sectors;
    sector_sz = iface.bytes_per_sector % 2 ^ 16;
    block_sz = iface.sectors_per_block % 2 ^ 16;
  }

  abbrev pub is_bad_geometry : Bool
  is_bad_geometry =
      iface.number_of_sectors == 0
      || ltb iface.bytes_per_sector 512
      || not (bit_and iface.sectors_per_block (iface.sectors_per_block - 1) == 0)

  -- `dvmDiscCreate`: the device behind the call, and the disc, none for NULL.
  unfoldable pub disc_create : Device → Device × Option (DvmDisc Device)
  disc_create d =
      let s = iface.startup d in
      let i = iface.is_inserted s.0 in
      let shut : Device × Option (DvmDisc Device) = (iface.shutdown i.0, none) in
      let made : Device × Option (DvmDisc Device) = (i.0, some (wrap_disc i.0)) in
      if not s.1
      then (s.0, none)
      else (if not i.1 then (i.0, none) else if is_bad_geometry then shut else made)

  -- Either there is no disc, or the device was started and is inserted, and the disc is of its size, of
  -- one sector at least, with sectors of the device's size, of 512 bytes at least, without users, and with
  -- 16 bits of the device's block size and features: for a size of a sector of 16 bits.
  pub disc_create-sized :
      (d : Device)
      → iface.bytes_per_sector < 2 ^ 16
      → ((disc_create d).1 ≡ none)
        ⊎ ((disc : DvmDisc Device) × ((disc_create d).1 ≡ some disc)
            × (((iface.startup d).1 && (iface.is_inserted (iface.startup d).0).1) ≡ true)
            × (disc.num_sectors ≡ iface.number_of_sectors)
            × (0 < disc.num_sectors)
            × (disc.sector_sz ≡ iface.bytes_per_sector)
            × (512 ≤ disc.sector_sz)
            × (disc.block_sz ≡ iface.sectors_per_block % 2 ^ 16)
            × (disc.features ≡ iface.features % 2 ^ 16)
            × (disc.num_users ≡ 0))
  unfolding disc_create
  disc_create-sized d word = elim (Bool-cases (iface.startup d).1) [
    | inr off ↦ rw off (inl refl)
    | inl on ↦ elim (Bool-cases (iface.is_inserted (iface.startup d).0).1) [
      | inr out ↦ rw (on, out) (inl refl)
      | inl there ↦ elim (Bool-cases is_bad_geometry) [
        | inl bad ↦ rw (on, there, bad) (inl refl)
        | inr good ↦
            rw (on, there, good)
              (inr (
                wrap_disc (iface.is_inserted (iface.startup d).0).0,
                refl,
                refl,
                refl,
                ground arith,
                omega (arith, word),
                ground arith,
                refl,
                refl,
                refl,
              ))
      ]
    ]
  ]
