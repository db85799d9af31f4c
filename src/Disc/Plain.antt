-- ===== src/Disc/Plain.antt =====
-- The disc that wraps a `DISC_INTERFACE` in `source/dvm_disc.c`, as it is compiled for a platform whose
-- interface tells no geometry, where `malloc` succeeds; and the direct accesses of `include/dvm.h`.
use libdvm.Base.{ℕ, ◌-◌, ◌%◌, ◌^◌, Bool, true, false, not, Option, none, some, if◌then◌else◌}
use libdvm.Disc.{DvmDiscIface, ReadReply, WriteReply}
use libdvm.Disc.Memory.{Buf}
use libdvm.Disc.Object.{DvmDisc}
use libdvm.Disc.Wrap.{DiscInterface, wrap_vt}

module _ {Device : Type 0} (iface : DiscInterface Device) where
  -- `s_dvmDiscWrapIface`, which has nothing to flush.
  abbrev pub plain_vt : DvmDiscIface Device
  plain_vt = record (wrap_vt iface) { flush = λ d. record { state = d; ok = true } }

  abbrev pub plain_disc : Device → DvmDisc Device
  plain_disc d = record {
    self = d;
    io_type = iface.io_type;
    features = iface.features % 2 ^ 16;
    num_users = 0;
    num_sectors = 2 ^ 32 - 1;
    sector_sz = 512;
    block_sz = 0;
  }

  -- `dvmDiscCreate`: the device behind the call, and the disc, none for NULL.
  unfoldable pub plain_create : Device → Device × Option (DvmDisc Device)
  plain_create d =
      let s = iface.startup d in
      let i = iface.is_inserted s.0 in
      let made : Device × Option (DvmDisc Device) = (i.0, some (plain_disc i.0)) in
      if not s.1 then (s.0, none) else if not i.1 then (i.0, none) else made

module _ {State : Type 0} (vt : DvmDiscIface State) where
  -- `dvmDiscReadSectors`, `dvmDiscWriteSectors` and `dvmDiscFlush`
  abbrev pub disc_read_sectors : State → Buf → ℕ → ℕ → ReadReply State
  disc_read_sectors disc buffer first_sector num_sectors =
      vt.read_sectors disc buffer first_sector num_sectors false

  abbrev pub disc_write_sectors : State → Buf → ℕ → ℕ → WriteReply State
  disc_write_sectors disc buffer first_sector num_sectors =
      vt.write_sectors disc buffer first_sector num_sectors false

  abbrev pub disc_flush : State → WriteReply State
  disc_flush = vt.flush

-- `dvmInitDefault`, from what `dvmInit` does, with the default sizes of the platform.
abbrev pub init_default :
    {World : Type 0} → (Bool → ℕ → ℕ → World → World × Bool) → ℕ → ℕ → World → World × Bool
init_default dvm_init cache_pages sectors_per_page = dvm_init true cache_pages sectors_per_page
