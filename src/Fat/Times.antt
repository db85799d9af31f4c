-- ===== src/Fat/Times.antt =====
-- The times of `source/fat_driver.c`: `_FAT_make_fattime`, `_FAT_make_time` and `get_fattime`. What
-- `localtime_r` and `mktime` do is a parameter of what uses them.
use Prim.Native.Nat.{bit_and, bit_or}
use libdvm.Base.Bits.{bit_or-fields, bit_and-15, bit_and-31, bit_and-63}
use libdvm.Base.{
  ℕ, refl, ◌∙◌, ◌+◌, ◌-◌, ◌*◌, ◌/◌, ◌%◌, ◌^◌, ◌≤◌, ◌<◌, ◌≡◌, zero, suc, Option, none, some, arith,
}
use libdvm.Base.Integers.{ℤ, pos, negsuc}

-- The fields of `struct tm` that the code uses, of a year from 1900 on.
pub record Tm : Type 0 where
  pub tm_year : ℕ
  pub tm_mon : ℕ
  pub tm_mday : ℕ
  pub tm_hour : ℕ
  pub tm_min : ℕ
  pub tm_sec : ℕ

-- `(DWORD)x << n`
abbrev pub dword_shl : ℕ → ℕ → ℕ
dword_shl x n = x % 2 ^ 32 * 2 ^ n % 2 ^ 32

-- `_FAT_make_fattime`, of what `localtime_r` gives. A year before 1980 wraps around.
unfoldable pub make_fattime : Tm → ℕ
make_fattime stm =
    bit_or
      (bit_or
        (bit_or
          (bit_or
            (bit_or (dword_shl (stm.tm_year + 2 ^ 32 - 80) 25) (dword_shl (stm.tm_mon + 1) 21))
            (dword_shl stm.tm_mday 16))
          (dword_shl stm.tm_hour 11))
        (dword_shl stm.tm_min 5))
      (stm.tm_sec / 2)

abbrev pub int_pred : ℕ → ℤ
int_pred zero = negsuc 0
int_pred (suc m) = pos m

-- The argument of `mktime`, where the month may be -1.
pub record TmArg : Type 0 where
  pub year : ℕ
  pub mon : ℤ
  pub mday : ℕ
  pub hour : ℕ
  pub minute : ℕ
  pub sec : ℕ

-- `_FAT_make_time`, up to its call of `mktime`.
unfoldable pub make_time : ℕ → ℕ → TmArg
make_time fdate ftime = record {
  sec = bit_and ftime 0x1f * 2;
  minute = bit_and (ftime / 2 ^ 5) 0x3f;
  hour = ftime / 2 ^ 11;
  mday = bit_and fdate 0x1f;
  mon = int_pred (bit_and (fdate / 2 ^ 5) 0xf);
  year = fdate / 2 ^ 9 + 80;
}

-- The two words of `_FAT_utimes_r`: `(WORD)(tm >> 16)` and `(WORD)tm`.
abbrev pub fdate_of : ℕ → ℕ
fdate_of tm = tm / 2 ^ 16 % 2 ^ 16

abbrev pub ftime_of : ℕ → ℕ
ftime_of tm = tm % 2 ^ 16

-- `get_fattime`, from what `time` and `localtime_r` give. `none` is a clock that does not run, and
-- the date is then that of the configuration of FatFs.
unfoldable pub get_fattime : ℕ → ℕ → ℕ → Option Tm → ℕ
unfolding make_fattime
get_fattime nortc_year nortc_mon nortc_mday none =
    bit_or (bit_or (dword_shl (nortc_year + 2 ^ 32 - 1980) 25) (dword_shl nortc_mon 21))
      (dword_shl nortc_mday 16)
get_fattime nortc_year nortc_mon nortc_mday (some stm) = make_fattime stm

-- A time that fits: from 1980 to 2107.
pub record IsFatTime (stm : Tm) : Type 0 where
  pub from_1980 : 80 ≤ stm.tm_year
  pub to_2107 : stm.tm_year < 208
  pub mon : stm.tm_mon < 12
  pub mday : stm.tm_mday < 32
  pub hour : stm.tm_hour < 24
  pub minute : stm.tm_min < 60
  pub sec : stm.tm_sec < 62

put_field :
    (k : ℕ) {x f : ℕ} (v b : ℕ) → x ≡ v * 2 ^ k → f ≡ b → b < 2 ^ k → bit_or x f ≡ v * 2 ^ k + b
put_field k v b ex ef lt = rw (ex, ef) (bit_or-fields k v b lt)

-- The fields in one number.
make_fattime_sum :
    (stm : Tm)
    → IsFatTime stm
    → make_fattime stm ≡ (
        (((((stm.tm_year - 80) * 16 + (stm.tm_mon + 1)) * 32 + stm.tm_mday) * 32 + stm.tm_hour) * 64
            + stm.tm_min)
          * 32
        + stm.tm_sec / 2)
unfolding make_fattime
make_fattime_sum stm h =
    let y = stm.tm_year - 80 in
    let m = y * 16 + (stm.tm_mon + 1) in
    let d = m * 32 + stm.tm_mday in
    let o = d * 32 + stm.tm_hour in
    let i = o * 64 + stm.tm_min in
    let x1 = bit_or (dword_shl (stm.tm_year + 2 ^ 32 - 80) 25) (dword_shl (stm.tm_mon + 1) 21) in
    let x2 = bit_or x1 (dword_shl stm.tm_mday 16) in
    let x3 = bit_or x2 (dword_shl stm.tm_hour 11) in
    let x4 = bit_or x3 (dword_shl stm.tm_min 5) in
    let s1 : x1 ≡ m * 2 ^ 21 =
      put_field 25 y ((stm.tm_mon + 1) * 2 ^ 21) (omega (arith, h)) (omega (arith, h))
        (omega (arith, h))
      ∙ omega arith in
    let s2 : x2 ≡ d * 2 ^ 16 =
      put_field 21 m (stm.tm_mday * 2 ^ 16) s1 (omega (arith, h)) (omega (arith, h))
      ∙ omega arith in
    let s3 : x3 ≡ o * 2 ^ 11 =
      put_field 16 d (stm.tm_hour * 2 ^ 11) s2 (omega (arith, h)) (omega (arith, h))
      ∙ omega arith in
    let s4 : x4 ≡ i * 2 ^ 5 =
      put_field 11 o (stm.tm_min * 2 ^ 5) s3 (omega (arith, h)) (omega (arith, h)) ∙ omega arith in
    let s5 : bit_or x4 (stm.tm_sec / 2) ≡ i * 2 ^ 5 + stm.tm_sec / 2 =
      put_field 5 i (stm.tm_sec / 2) s4 refl (omega (arith, h)) in
    omega (arith, s5)

-- What the driver makes of a time and stores is what it reads again, with the second rounded down to
-- an even one: for a time from 1980 to 2107.
pub make_time-make_fattime :
    (stm : Tm)
    → IsFatTime stm
    → make_time (fdate_of (make_fattime stm)) (ftime_of (make_fattime stm)) ≡ record {
      year = stm.tm_year;
      mon = pos stm.tm_mon;
      mday = stm.tm_mday;
      hour = stm.tm_hour;
      minute = stm.tm_min;
      sec = stm.tm_sec / 2 * 2;
    }
unfolding make_time
make_time-make_fattime stm h =
    let date = fdate_of (make_fattime stm) in
    let time = ftime_of (make_fattime stm) in
    let sum = make_fattime_sum stm h in
    let sec : bit_and time 0x1f * 2 ≡ stm.tm_sec / 2 * 2 = omega (arith, sum, bit_and-31 time, h) in
    let minute : bit_and (time / 2 ^ 5) 0x3f ≡ stm.tm_min =
      omega (arith, sum, bit_and-63 (time / 2 ^ 5), h) in
    let hour : time / 2 ^ 11 ≡ stm.tm_hour = omega (arith, sum, h) in
    let mday : bit_and date 0x1f ≡ stm.tm_mday = omega (arith, sum, bit_and-31 date, h) in
    let mon : bit_and (date / 2 ^ 5) 0xf ≡ suc stm.tm_mon =
      omega (arith, sum, bit_and-15 (date / 2 ^ 5), h) in
    let year : date / 2 ^ 9 + 80 ≡ stm.tm_year = omega (arith, sum, h) in
    (λ j. record {
      year = year j;
      mon = int_pred (mon j);
      mday = mday j;
      hour = hour j;
      minute = minute j;
      sec = sec j;
    })
