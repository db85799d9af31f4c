-- ===== src/Startup/WorkingDir.antt =====
-- `_dvmSetAppWorkingDir` of `source/dvm_volume.c`.
use libdvm.Base.{
  ℕ, suc, ◌+◌, ◌≡◌, refl, Bool, true, false, Option, none, some, [], ◌∷◌, ◌++◌, ◌==◌, leb,
  if◌then◌else◌, arith, length, ap,
}
use libdvm.Base.Strings.{Str}
use libdvm.Volume.Mount.{take_str, has_char}

-- Where the last '/' is, one further where there is a character before the rest.
abbrev pub behind : Bool → Option ℕ → Option ℕ
behind here (some n) = some (suc n)
behind true none = some 0
behind false none = none

-- `strrchr(argv0, '/')`, as the number of characters before it.
unfoldable pub last_slash : Str → Option ℕ
last_slash [] = none
last_slash (c ∷ cs) = behind (c == 47) (last_slash cs)

-- The directory that is changed to, with its slash, if any is: `path_max` is the size of the buffer.
unfoldable pub dir_upto : ℕ → Str → Option ℕ → Option Str
dir_upto path_max argv0 none = none
dir_upto path_max argv0 (some cwd_len) =
    if leb (cwd_len + 2) path_max then some (take_str (suc cwd_len) argv0) else none

unfoldable pub app_dir : ℕ → Str → Option Str
unfolding dir_upto last_slash
app_dir path_max argv0 = dir_upto path_max argv0 (last_slash argv0)

module _ {World : Type 0} (chdir : Str → World → World) where
  -- The change of the working directory, where there is one to change to.
  abbrev pub chdir_if : Option Str → World → World
  chdir_if none w = w
  chdir_if (some dir) w = chdir dir w

  -- `_dvmSetAppWorkingDir`
  unfoldable pub set_app_working_dir : ℕ → Str → World → World
  set_app_working_dir path_max argv0 w = chdir_if (app_dir path_max argv0) w

  -- The same for a first argument that may be NULL, here none.
  abbrev pub set_dir_of : ℕ → Option Str → World → World
  set_dir_of path_max none w = w
  set_dir_of path_max (some argv0) w = set_app_working_dir path_max argv0 w

  -- What `chdir` keeps, these keep.
  module _ (I : World → Type 0) (keep : (dir : Str) (w : World) → I w → I (chdir dir w)) where
    pub chdir_if-keeps : (dir : Option Str) (w : World) → I w → I (chdir_if dir w)
    chdir_if-keeps none w i = i
    chdir_if-keeps (some dir) w i = keep dir w i

    pub set_dir_of-keeps :
        (path_max : ℕ) (argv0 : Option Str) (w : World) → I w → I (set_dir_of path_max argv0 w)
    unfolding set_app_working_dir
    set_dir_of-keeps path_max none w i = i
    set_dir_of-keeps path_max (some argv0) w i = chdir_if-keeps (app_dir path_max argv0) w i

last_slash-none : (s : Str) → has_char 47 s ≡ false → last_slash s ≡ none
unfolding last_slash
last_slash-none [] h = refl
last_slash-none (c ∷ cs) h = ground (arith, last_slash-none cs)

last_slash-some :
    (dir file : Str)
    → has_char 47 file ≡ false
    → last_slash (dir ++ (47 ∷ file)) ≡ some (length dir)
unfolding last_slash
last_slash-some [] file h = rw (last_slash-none file h) refl
last_slash-some (c ∷ cs) file h = rw (last_slash-some cs file h) refl

take_str-dir :
    (dir file : Str) → take_str (suc (length dir)) (dir ++ (47 ∷ file)) ≡ dir ++ (47 ∷ [])
take_str-dir [] file = refl
take_str-dir (c ∷ cs) file = ap (λ t. c ∷ t) (take_str-dir cs file)

-- The working directory of an application is what stands before the name of its file: up to the last
-- slash and with it, where the path is not too long for the buffer. A path without a slash has none.
pub app_dir_lem :
    (path_max : ℕ) (dir file : Str)
    → has_char 47 file ≡ false
    → (app_dir path_max (dir ++ (47 ∷ file))
        ≡ (if leb (length dir + 2) path_max then some (dir ++ (47 ∷ [])) else none))
      × (app_dir path_max file ≡ none)
unfolding app_dir dir_upto
app_dir_lem path_max dir file h =
    (rw (last_slash-some dir file h, take_str-dir dir file) refl, rw (last_slash-none file h) refl)
