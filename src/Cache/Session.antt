-- ===== src/Cache/Session.antt =====
-- A client of the cache of `source/dvm_cache.c`: any sequence of accesses and flushes, against the same
-- sequence on an array of sectors.
use mathlib.Core.Option
use libdvm.Base.{
  ℕ, ◌+◌, ◌-◌, ◌%◌, ◌≤◌, ◌<◌, ◌≡◌, Bool, true, false, not, Option, some, List, [], ◌∷◌, ◌&&◌, ltb,
  if◌then◌else◌,
}
use libdvm.Disc.{DvmDiscIface, ReadReply}
use libdvm.Disc.Memory.{Sector, Buf, in_range}
use libdvm.Cache.Types.{DvmDiscCache}
use libdvm.Cache.Flush.{cache_flush}
use libdvm.Cache.Access.{Access}
use libdvm.Cache.ReadWrite.{read_write}

-- What a client calls: a transfer with its buffer, first sector and number of sectors, or a flush.
pub data Call : Type 0 where
  transfer : Buf → ℕ → ℕ → Access → Call
  sync : Call

pub record Answer : Type 0 where
  pub ok : Bool
  pub buf : Buf

module _ {D : Type 0} (vt : DvmDiscIface D) where
  unfoldable pub serve : Call → DvmDiscCache D → Option (ReadReply (DvmDiscCache D))
  serve (transfer b first n a) c = read_write vt c b first n a
  serve sync c =
      let r = cache_flush vt c in some (record { state = r.state; buf = λ j. []; ok = r.ok })

  -- The cache behind the calls, and their answers.
  unfoldable pub run : List Call → DvmDiscCache D → Option (DvmDiscCache D × List Answer)
  unfolding Option.bind
  run [] c = some (c, [])
  run (q ∷ qs) c =
      Option.bind (serve q c)
        (λ r. Option.map (λ s. (s.0, record { ok = r.ok; buf = r.buf } ∷ s.1)) (run qs r.state))

-- The same on an array of sectors.
abbrev pub is_given : Call → ℕ → Bool
is_given (transfer b first n a) s = a.is_write && in_range first n s
is_given sync s = false

abbrev pub apply : Call → (ℕ → Sector) → ℕ → Sector
apply (transfer b first n a) x s = if a.is_write && in_range first n s then b (s - first) else x s
apply sync x s = x s

abbrev pub answer_of : Call → (ℕ → Sector) → Buf
answer_of (transfer b first n a) x j = if not a.is_write && ltb j n then x (first + j) else b j
answer_of sync x j = []

abbrev pub replay : List Call → (ℕ → Sector) → ℕ → Sector
replay [] x = x
replay (q ∷ qs) x = replay qs (apply q x)

abbrev pub is_given_any : List Call → ℕ → Bool
is_given_any [] s = false
is_given_any (q ∷ qs) s = if is_given q s then true else is_given_any qs s

abbrev pub all_ok : List Answer → Bool
all_ok [] = true
all_ok (r ∷ rs) = r.ok && all_ok rs

-- The answers are those of the array.
abbrev pub IsReplay : List Call → (ℕ → Sector) → List Answer → Type 0
IsReplay [] x rs = rs ≡ []
IsReplay (q ∷ qs) x [] = ⊥
IsReplay (q ∷ qs) x (r ∷ rs) = ((j : ℕ) → r.buf j ≡ answer_of q x j) × IsReplay qs (apply q x) rs

-- The transfers lie within the disc and within a page of `n` sectors.
abbrev pub InPage : ℕ → ℕ → Call → Type 0
InPage size n (transfer b first k a) = (first < size) × (first + k ≤ size) × (first % n + k ≤ n)
InPage size n sync = Unit

abbrev pub AllInPage : ℕ → ℕ → List Call → Type 0
AllInPage size n [] = Unit
AllInPage size n (q ∷ qs) = InPage size n q × AllInPage size n qs
