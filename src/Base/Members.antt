-- ===== src/Base/Members.antt =====
-- Membership and absence of duplicates in lists of numbers, as Boolean tests.

use Prim.Native.Nat.{ℕ}
use mathlib.Core.Path.{◌≡◌, refl, ap, ◌∙◌}
use mathlib.Core.Logic.{◌≢◌}
use mathlib.Core.Bool.{Bool, false, ◌||◌}
use mathlib.Core.List.{List, [], ◌∷◌, ◌++◌, reverse, reverse-cons}
use native.Mathlib.Omega.{arith}
use libdvm.Base.Tests.{◌==◌, if◌then◌else◌}

abbrev pub has : ℕ → List ℕ → Bool
has a [] = false
has a (x ∷ xs) = (x == a) || has a xs

abbrev pub NoDup : List ℕ → Type 0
NoDup [] = Unit {0}
NoDup (x ∷ xs) = (has x xs ≡ false) × NoDup xs

pub has-append : (a : ℕ) (xs ys : List ℕ) → has a (xs ++ ys) ≡ (has a xs || has a ys)
has-append a [] ys = refl
has-append a (x ∷ xs) ys = ground (arith, has-append a xs ys)

-- The list without the element `p`.
unfoldable pub unlink : ℕ → List ℕ → List ℕ
unlink p [] = []
unlink p (q ∷ qs) = if q == p then unlink p qs else q ∷ unlink p qs

pub has-unlink_self : (p : ℕ) (xs : List ℕ) → has p (unlink p xs) ≡ false
unfolding unlink
has-unlink_self p [] = refl
has-unlink_self p (x ∷ xs) = ground (arith, has-unlink_self p xs)

pub has-unlink_ne : (p a : ℕ) (xs : List ℕ) → a ≢ p → has a (unlink p xs) ≡ has a xs
unfolding unlink
has-unlink_ne p a [] ne = refl
has-unlink_ne p a (x ∷ xs) ne = ground (arith, has-unlink_ne p a xs ne)

pub unlink-append : (p : ℕ) (xs ys : List ℕ) → unlink p (xs ++ ys) ≡ unlink p xs ++ unlink p ys
unfolding unlink
unlink-append p [] ys = refl
unlink-append p (x ∷ xs) ys = ground (arith, unlink-append p xs ys)

pub unlink-NoDup : (p : ℕ) (xs : List ℕ) → NoDup xs → NoDup (unlink p xs)
unfolding unlink
unlink-NoDup p [] h = tt
unlink-NoDup p (x ∷ xs) h = ground (arith, unlink-NoDup p xs, has-unlink_ne p x xs)

pub NoDup-mid :
    (xs ys : List ℕ) (v : ℕ) → NoDup (xs ++ (v ∷ ys)) → (has v xs ≡ false) × (has v ys ≡ false)
NoDup-mid [] ys v h = ground arith
NoDup-mid (x ∷ xs) ys v h = ground (arith, NoDup-mid xs ys v, has-append x xs (v ∷ ys))

pub has-reverse : (a : ℕ) (xs : List ℕ) → has a (reverse xs) ≡ has a xs
has-reverse a [] = refl
has-reverse a (x ∷ xs) =
    ap (has a) (reverse-cons x xs)
    ∙ ground (arith, has-append a (reverse xs) (x ∷ []), has-reverse a xs)
