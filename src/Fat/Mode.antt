-- ===== src/Fat/Mode.antt =====
-- How `_FAT_open_r` of `source/fat_driver.c` converts the flags of `open` to those of FatFs.
use libdvm.Base.{
  Bool, true, false, not, ◌&&◌, ◌||◌, Option, none, some, if◌then◌else◌, ◌≡◌, refl, ap,
}

-- `flags & O_ACCMODE`
pub data AccessMode : Type 0 where
  o_rdonly o_wronly o_rdwr o_other : AccessMode

-- The flags of `open`.
pub record OpenFlags : Type 0 where
  pub accmode : AccessMode
  pub o_creat : Bool
  pub o_excl : Bool
  pub o_trunc : Bool
  pub o_append : Bool

-- The bits of a mode of FatFs. `FA_OPEN_APPEND` is `FA_OPEN_ALWAYS` with a bit of its own, `append`.
pub record FfMode : Type 0 where
  pub read : Bool
  pub write : Bool
  pub create_new : Bool
  pub create_always : Bool
  pub open_always : Bool
  pub append : Bool

-- The mode for an access, none for one that is refused.
abbrev pub access_mode : AccessMode → Bool → Option FfMode
access_mode o_rdonly o_append =
    if o_append
    then none
    else some (record {
      read = true;
      write = false;
      create_new = false;
      create_always = false;
      open_always = false;
      append = false;
    })
access_mode o_wronly o_append = some (record {
  read = false;
  write = true;
  create_new = false;
  create_always = false;
  open_always = false;
  append = false;
})
access_mode o_rdwr o_append = some (record {
  read = true;
  write = true;
  create_new = false;
  create_always = false;
  open_always = false;
  append = false;
})
access_mode o_other o_append = none

-- The conversion of the other flags, in the order of the code.
abbrev pub add_flags : OpenFlags → FfMode → FfMode
add_flags flags m =
    let m1 = if flags.o_creat then record m { open_always = true } else m in
    let m2 = if flags.o_excl then record m1 { create_new = true } else m1 in
    let m3 = if flags.o_trunc then record m2 { create_always = true } else m2 in
    let m4 = if flags.o_append then record m3 { open_always = true; append = true } else m3 in
    if m4.create_always && m4.open_always then record m4 { open_always = false } else m4

abbrev pub add_to : OpenFlags → Option FfMode → Option FfMode
add_to flags none = none
add_to flags (some m) = some (add_flags flags m)

unfoldable pub open_mode : OpenFlags → Option FfMode
open_mode flags = add_to flags (access_mode flags.accmode flags.o_append)

abbrev pub can_read : AccessMode → Bool
can_read o_rdonly = true
can_read o_wronly = false
can_read o_rdwr = true
can_read o_other = false

abbrev pub can_write : AccessMode → Bool
can_write o_rdonly = false
can_write o_wronly = true
can_write o_rdwr = true
can_write o_other = false

abbrev pub is_refused_mode : AccessMode → Bool → Bool
is_refused_mode o_rdonly a = a
is_refused_mode o_wronly a = false
is_refused_mode o_rdwr a = false
is_refused_mode o_other a = true

add_flags_lem :
    (r w : Bool) (e : AccessMode) (c x t a : Bool)
    → add_flags
        (record { accmode = e; o_creat = c; o_excl = x; o_trunc = t; o_append = a })
        (record {
          read = r;
          write = w;
          create_new = false;
          create_always = false;
          open_always = false;
          append = false;
        })
      ≡ record {
        read = r;
        write = w;
        create_new = x;
        create_always = t;
        open_always = (c || a) && not t;
        append = a;
      }
add_flags_lem r w e true true true true = refl
add_flags_lem r w e true true true false = refl
add_flags_lem r w e true true false true = refl
add_flags_lem r w e true true false false = refl
add_flags_lem r w e true false true true = refl
add_flags_lem r w e true false true false = refl
add_flags_lem r w e true false false true = refl
add_flags_lem r w e true false false false = refl
add_flags_lem r w e false true true true = refl
add_flags_lem r w e false true true false = refl
add_flags_lem r w e false true false true = refl
add_flags_lem r w e false true false false = refl
add_flags_lem r w e false false true true = refl
add_flags_lem r w e false false true false = refl
add_flags_lem r w e false false false true = refl
add_flags_lem r w e false false false false = refl

-- The mode in one piece: an append to a file that is only read and an unknown access are refused. A
-- file is truncated exactly with O_TRUNC, and opened or created with O_CREAT or with O_APPEND unless it
-- is truncated.
pub open_mode_lem :
    (flags : OpenFlags)
    → open_mode flags ≡ (
        if is_refused_mode flags.accmode flags.o_append
        then none
        else some (record {
          read = can_read flags.accmode;
          write = can_write flags.accmode;
          create_new = flags.o_excl;
          create_always = flags.o_trunc;
          open_always = (flags.o_creat || flags.o_append) && not flags.o_trunc;
          append = flags.o_append;
        }))
unfolding open_mode
open_mode_lem flags = go flags.accmode flags.o_creat flags.o_excl flags.o_trunc flags.o_append
  where
    go :
        (m : AccessMode) (c x t a : Bool)
        → open_mode (record { accmode = m; o_creat = c; o_excl = x; o_trunc = t; o_append = a }) ≡ (
            if is_refused_mode m a
            then none
            else some (record {
              read = can_read m;
              write = can_write m;
              create_new = x;
              create_always = t;
              open_always = (c || a) && not t;
              append = a;
            }))
    go o_rdonly c x t true = refl
    go o_rdonly c x t false = ap some (add_flags_lem true false o_rdonly c x t false)
    go o_wronly c x t a = ap some (add_flags_lem false true o_wronly c x t a)
    go o_rdwr c x t a = ap some (add_flags_lem true true o_rdwr c x t a)
    go o_other c x t a = refl
