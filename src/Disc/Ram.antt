-- ===== src/Disc/Ram.antt =====
-- A disc in memory, on which the definitions run. A disc that is `broken` refuses every transfer.
use libdvm.Base.{ℕ, Bool, true, false, not, if◌then◌else◌, arith}
use libdvm.Disc.{DvmDiscIface, ReadReply, WriteReply, DiscLaws}
use libdvm.Disc.Memory.{Sector, Buf, copy}

pub record Ram : Type 0 where
  pub sectors : Buf
  pub broken : Bool

abbrev pub ram_content : Ram → ℕ → Sector
ram_content r = r.sectors

abbrev pub RamIsOk : Ram → Type 0
RamIsOk r = Unit {0}

abbrev pub ram_read : Ram → Buf → ℕ → ℕ → Bool → ReadReply Ram
ram_read r b f n k =
    if r.broken
    then record { state = r; buf = b; ok = false }
    else record { state = r; buf = copy b 0 r.sectors f n; ok = true }

abbrev pub ram_write : Ram → Buf → ℕ → ℕ → Bool → WriteReply Ram
ram_write r b f n k =
    if r.broken
    then record { state = r; ok = false }
    else record { state = record r { sectors = copy r.sectors f b 0 n }; ok = true }

abbrev pub ram_vt : DvmDiscIface Ram
ram_vt = record {
  destroy = λ r. r;
  read_sectors = ram_read;
  write_sectors = ram_write;
  flush = λ r. record { state = r; ok = not r.broken };
  set_num_sectors = λ n r. r;
}

pub ram_laws : (size : ℕ) → DiscLaws ram_vt size ram_content RamIsOk
ram_laws size = record {
  read-IsOk = λ s b f n k o h. tt;
  read_keeps = λ s b f n k a o h l. ground arith;
  read_gets = λ s b f n k i o h e l. ground arith;
  read_frame = λ s b f n k i o h l. ground arith;
  write-IsOk = λ s b f n k o h. tt;
  write_puts = λ s b f n k i o h e l. ground arith;
  write_frame = λ s b f n k a o h l w. ground arith;
  flush-IsOk = λ s o. tt;
  flush_keeps = λ s a o h. ground arith;
}
