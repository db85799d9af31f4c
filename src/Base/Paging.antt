-- ===== src/Base/Paging.antt =====
-- Pages of sectors: a page is `n` sectors that begin at a multiple of `n`.
use native.Mathlib.Nat.{div-add-mod, mul-mod_right, add-mod_right}
use Prim.Native.Nat.{ℕ, ◌+◌, ◌-◌, ◌/◌, ◌%◌, ◌≤◌, ◌<◌}
use mathlib.Core.Path.{◌≡◌}
use native.Mathlib.Omega.{arith}

-- `s & ~(n - 1)` for a power of two `n`.
abbrev pub page_start : ℕ → ℕ → ℕ
page_start n s = s - s % n

abbrev pub Aligned : ℕ → ℕ → Type 0
Aligned n s = s % n ≡ 0

pub page_start-Aligned : (n s : ℕ) → 0 < n → Aligned n (page_start n s)
page_start-Aligned n s h = ground (arith, div-add-mod s n, mul-mod_right n (s / n))

-- Two different pages do not overlap.
pub Aligned-gap : (n a b : ℕ) → 0 < n → Aligned n a → Aligned n b → a < b → a + n ≤ b
Aligned-gap n a b h p q lt = grind arith

-- The page that contains a sector is the only one.
pub page_start_unique : (n a s : ℕ) → 0 < n → Aligned n a → a ≤ s → s < a + n → page_start n s ≡ a
page_start_unique n a s h p lo hi = grind arith

pub Aligned-add : (n a : ℕ) → Aligned n a → Aligned n (a + n)
Aligned-add n a h = ground (arith, add-mod_right a n)
