-- ===== src/Disc.antt =====
-- `include/dvm.h`: `DvmDisc` with its table of operations `DvmDiscIface`, and the contract that a
-- disc of `size` sectors keeps.
pub mod Memory
pub mod Ram
pub mod Object
pub mod Wrap
pub mod Plain
mod Tests
use libdvm.Base.{ℕ, ◌+◌, ◌-◌, ◌≤◌, ◌<◌, ◌≡◌, ◌⊎◌, Bool, true}
use Memory.{Buf, Sector}

pub record ReadReply (State : Type 0) : Type 0 where
  pub state : State
  pub buf : Buf
  pub ok : Bool

pub record WriteReply (State : Type 0) : Type 0 where
  pub state : State
  pub ok : Bool

-- `DvmDiscIface`. The last argument of a transfer is `is_partial`. `set_num_sectors` is no member of the
-- C table: it is an assignment to `num_sectors` of a `DvmDisc`, as the operations see it, which read
-- the field of the disc that they are called for.
pub record DvmDiscIface (State : Type 0) : Type 0 where
  pub destroy : State → State
  pub read_sectors : State → Buf → ℕ → ℕ → Bool → ReadReply State
  pub write_sectors : State → Buf → ℕ → ℕ → Bool → WriteReply State
  pub flush : State → WriteReply State
  pub set_num_sectors : ℕ → State → State

-- What a disc of `size` sectors promises of transfers within its size. `content` is what the disc
-- holds and `IsOk` what its state satisfies. A read leaves the content alone, also when it fails,
-- and writes `n` sectors of the buffer at most. A write that fails may leave anything in the
-- sectors that it was given, and nothing elsewhere.
pub record DiscLaws {State : Type 0} (vt : DvmDiscIface State) (size : ℕ)
    (content : State → ℕ → Sector) (IsOk : State → Type 0) : Type 0 where
  pub read-IsOk :
      (s : State) (b : Buf) (f n : ℕ) (k : Bool)
      → IsOk s
      → f + n ≤ size
      → IsOk (vt.read_sectors s b f n k).state
  pub read_keeps :
      (s : State) (b : Buf) (f n : ℕ) (k : Bool) (a : ℕ)
      → IsOk s
      → f + n ≤ size
      → a < size
      → content (vt.read_sectors s b f n k).state a ≡ content s a
  pub read_gets :
      (s : State) (b : Buf) (f n : ℕ) (k : Bool) (i : ℕ)
      → IsOk s
      → f + n ≤ size
      → (vt.read_sectors s b f n k).ok ≡ true
      → i < n
      → (vt.read_sectors s b f n k).buf i ≡ content s (f + i)
  pub read_frame :
      (s : State) (b : Buf) (f n : ℕ) (k : Bool) (i : ℕ)
      → IsOk s
      → f + n ≤ size
      → n ≤ i
      → (vt.read_sectors s b f n k).buf i ≡ b i
  pub write-IsOk :
      (s : State) (b : Buf) (f n : ℕ) (k : Bool)
      → IsOk s
      → f + n ≤ size
      → IsOk (vt.write_sectors s b f n k).state
  pub write_puts :
      (s : State) (b : Buf) (f n : ℕ) (k : Bool) (i : ℕ)
      → IsOk s
      → f + n ≤ size
      → (vt.write_sectors s b f n k).ok ≡ true
      → i < n
      → content (vt.write_sectors s b f n k).state (f + i) ≡ b i
  pub write_frame :
      (s : State) (b : Buf) (f n : ℕ) (k : Bool) (a : ℕ)
      → IsOk s
      → f + n ≤ size
      → a < size
      → (a < f) ⊎ (f + n ≤ a)
      → content (vt.write_sectors s b f n k).state a ≡ content s a
  pub flush-IsOk : (s : State) → IsOk s → IsOk (vt.flush s).state
  pub flush_keeps :
      (s : State) (a : ℕ) → IsOk s → a < size → content (vt.flush s).state a ≡ content s a
