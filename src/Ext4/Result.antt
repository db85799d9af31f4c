-- ===== src/Ext4/Result.antt =====
-- The error codes of lwext4, which `source/ext4_driver.c` passes on as `errno`. `EOK` is 0.
use libdvm.Base.{ℕ, Bool, true, false, ◌==◌, if◌then◌else◌}

pub data ExtResult (A : Type 0) : Type 0 where
  ext_failed : ℕ → ExtResult A
  ext_done : A → ExtResult A

abbrev pub is_eok : ℕ → Bool
is_eok rc = rc == 0

-- `r->_errno == EOK ? a : -1`
abbrev pub return_if_eok : {A : Type 0} → ℕ → A → ExtResult A
return_if_eok rc a = if is_eok rc then ext_done a else ext_failed rc

abbrev pub is_ext_done : {A : Type 0} → ExtResult A → Bool
is_ext_done (ext_failed rc) = false
is_ext_done (ext_done a) = true

-- `errno` values that the driver itself sets.
pub record ExtErrno : Type 0 where
  pub eio : ℕ
  pub einval : ℕ
  pub enoent : ℕ
  pub enomem : ℕ
  pub enotsup : ℕ
