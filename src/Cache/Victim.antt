-- ===== src/Cache/Victim.antt =====
-- The entry that a miss replaces (`source/dvm_cache.c:228-231`), and the list of a cache after the
-- entry was given a page, lost it, or was moved to the front.
use mathlib.Core.List.{
  reverse, reverse-append, reverse-cons, reverse-reverse, append-nil, append_assoc,
}
use libdvm.Base.{
  ℕ, ◌<◌, ◌≡◌, refl, ap, ◌∙◌, sym, ◌≢◌, true, false, List, [], ◌∷◌, ◌++◌, arith, ℕ_discrete, subst,
}
use libdvm.Base.Members.{
  has, NoDup, has-append, has-reverse, unlink, has-unlink_self, has-unlink_ne, unlink-append,
  unlink-NoDup, NoDup-mid,
}
use libdvm.Cache.Types.{Entries, empty_page}
use libdvm.Cache.Order.{IsOrdered, IsUsed}
use libdvm.Cache.Access.{last_victim, victim_from}

-- `v` stands in the list behind used entries only, and in front of empty ones only.
pub record IsBorder (es : Entries) (order : List ℕ) (v : ℕ) : Type 0 where
  pub front : List ℕ
  pub back : List ℕ
  pub at : order ≡ front ++ (v ∷ back)
  pub full : (q : ℕ) → has q front ≡ true → IsUsed es q
  pub vacant : (q : ℕ) → has q back ≡ true → (es q).base_sector ≡ empty_page

-- The walk passes the empty entries but the last, if what is before that one is used.
victim_from-walk :
    (es : Entries) (p y : ℕ) (zs xs : List ℕ)
    → ((q : ℕ) → has q (p ∷ zs) ≡ true → (es q).base_sector ≡ empty_page)
    → (es y).base_sector ≡ empty_page
    → ((q : ℕ) → has q xs ≡ true → IsUsed es q)
    → victim_from es p (zs ++ (y ∷ xs)) ≡ y
unfolding victim_from
victim_from-walk es p y [] [] e ey f = ground (arith, e p)
victim_from-walk es p y [] (x ∷ xs) e ey f = ground (arith, e p, f x)
victim_from-walk es p y (z ∷ zs) xs e ey f =
    ground (arith, e p, e z, victim_from-walk es z y zs xs (λ q h. e q (ground arith)) ey f)

last_victim-walk :
    (es : Entries) (y : ℕ) (zs xs : List ℕ)
    → ((q : ℕ) → has q zs ≡ true → (es q).base_sector ≡ empty_page)
    → (es y).base_sector ≡ empty_page
    → ((q : ℕ) → has q xs ≡ true → IsUsed es q)
    → last_victim es (zs ++ (y ∷ xs)) ≡ y
unfolding last_victim
last_victim-walk es y [] [] e ey f = refl
last_victim-walk es y [] (x ∷ xs) e ey f = ground (arith, f x)
last_victim-walk es y (z ∷ zs) xs e ey f = victim_from-walk es z y zs xs e ey f

last_victim-used : (es : Entries) (x : ℕ) (xs : List ℕ) → IsUsed es x → last_victim es (x ∷ xs) ≡ x
unfolding last_victim
last_victim-used es x [] u = refl
last_victim-used es x (y ∷ ys) u = ground arith

module _ {es : Entries} {order : List ℕ} where
  IsBorder-unused :
      (used : List ℕ) (y : ℕ) (ys : List ℕ)
      → order ≡ used ++ (y ∷ ys)
      → ((q : ℕ) → has q used ≡ true → IsUsed es q)
      → ((q : ℕ) → has q (y ∷ ys) ≡ true → (es q).base_sector ≡ empty_page)
      → IsBorder es order (last_victim es (reverse order))
  IsBorder-unused used y ys e f v =
      let turned : reverse order ≡ reverse ys ++ (y ∷ reverse used) =
        ap reverse e
        ∙ reverse-append used (y ∷ ys)
        ∙ ap (λ l. l ++ reverse used) (reverse-cons y ys)
        ∙ append_assoc (reverse ys) (y ∷ []) (reverse used) in
      let found : last_victim es (reverse order) ≡ y =
        ap (last_victim es) turned
        ∙ last_victim-walk es y (reverse ys) (reverse used)
            (λ q h. v q (ground (arith, has-reverse q ys))) (v y (ground arith))
            (λ q h. f q (ground (arith, has-reverse q used))) in
      rw found
        (record { front = used; back = ys; at = e; full = f; vacant = λ q h. v q (ground arith) })

  IsBorder-full :
      (used : List ℕ) (x : ℕ) (xs : List ℕ)
      → order ≡ used
      → reverse used ≡ x ∷ xs
      → ((q : ℕ) → has q used ≡ true → IsUsed es q)
      → IsBorder es order (last_victim es (reverse order))
  IsBorder-full used x xs e r f =
      let turned : used ≡ reverse xs ++ (x ∷ []) =
        sym (reverse-reverse used) ∙ ap reverse r ∙ reverse-cons x xs in
      let inside = λ (q : ℕ). ap (has q) turned ∙ has-append q (reverse xs) (x ∷ []) in
      let found : last_victim es (reverse order) ≡ x =
        ap (last_victim es) (ap reverse e ∙ r)
        ∙ last_victim-used es x xs (f x (ground (arith, inside x))) in
      rw found (record {
        front = reverse xs;
        back = [];
        at = e ∙ turned;
        full = λ q h. f q (ground (arith, inside q));
        vacant = λ q h. cc;
      })

module _ {es : Entries} {pages : ℕ} {order : List ℕ} (o : IsOrdered es pages order) where
  -- The entry that a miss replaces stands between the used and the empty entries, in a list of at
  -- least one entry where the empty ones stand last.
  pub victim-IsBorder : 0 < pages → IsBorder es order (last_victim es (reverse order))
  victim-IsBorder lt = parts o.used o.unused o.split o.full o.vacant (reverse o.used) refl
    where
      parts :
          (used unused : List ℕ)
          → order ≡ used ++ unused
          → ((q : ℕ) → has q used ≡ true → IsUsed es q)
          → ((q : ℕ) → has q unused ≡ true → (es q).base_sector ≡ empty_page)
          → (back : List ℕ) → reverse used ≡ back
          → IsBorder es order (last_victim es (reverse order))
      parts used (y ∷ ys) e f v back r = IsBorder-unused used y ys e f v
      parts used [] e f v (x ∷ xs) r = IsBorder-full used x xs (e ∙ append-nil used) r f
      parts used [] e f v [] r =
          let nothing : used ≡ [] = sym (reverse-reverse used) ∙ ap reverse r in
          absurd (ground (arith, o.listed 0 lt, ap (has 0) (e ∙ append-nil used ∙ nothing)))

  module _ {v : ℕ} (b : IsBorder es order v) where
    pub border-lt : v < pages
    border-lt = o.slots v (ap (has v) b.at ∙ ground (arith, has-append v b.front (v ∷ b.back)))

    -- The list stays in order whatever becomes of that entry.
    pub border-IsOrdered :
        (es' : Entries)
        → ((q : ℕ) → q ≢ v → (es' q).base_sector ≡ (es q).base_sector)
        → IsOrdered es' pages order
    border-IsOrdered es' same = elim (ℕ_discrete (es' v).base_sector empty_page) [
      | yes e ↦ record {
        used = b.front;
        unused = v ∷ b.back;
        split = b.at;
        full = λ q h. ground (arith, apart.0, same q, b.full q);
        vacant = λ q h. ground (arith, apart.1, e, same q, b.vacant q);
        nodup = o.nodup;
        listed = o.listed;
        slots = o.slots;
      }
      | no ne ↦ record {
        used = b.front ++ (v ∷ []);
        unused = b.back;
        split = b.at ∙ sym (append_assoc b.front (v ∷ []) b.back);
        full = λ q h. ground (arith, apart.0, same q, b.full q, has-append q b.front (v ∷ []), ne);
        vacant = λ q h. ground (arith, apart.1, same q, b.vacant q);
        nodup = o.nodup;
        listed = o.listed;
        slots = o.slots;
      }
    ]
      where
        apart : (has v b.front ≡ false) × (has v b.back ≡ false)
        apart = NoDup-mid b.front b.back v (subst NoDup b.at o.nodup)

  -- Nor does the list change its parts where every entry keeps its page.
  pub same-IsOrdered :
      (es' : Entries)
      → ((q : ℕ) → (es' q).base_sector ≡ (es q).base_sector)
      → IsOrdered es' pages order
  same-IsOrdered es' same = record {
    used = o.used;
    unused = o.unused;
    split = o.split;
    full = λ q h. ground (arith, same q, o.full q);
    vacant = λ q h. ground (arith, same q, o.vacant q);
    nodup = o.nodup;
    listed = o.listed;
    slots = o.slots;
  }

  -- A used entry that is moved to the front.
  pub front-IsOrdered : (v : ℕ) → v < pages → IsUsed es v → IsOrdered es pages (v ∷ unlink v order)
  front-IsOrdered v lt u = record {
    used = v ∷ unlink v o.used;
    unused = unlink v o.unused;
    split = ap (λ l. v ∷ l) (ap (unlink v) o.split ∙ unlink-append v o.used o.unused);
    full = λ q h. kept q (ℕ_discrete q v) h;
    vacant = λ q h. gone q (ℕ_discrete q v) h;
    nodup = (has-unlink_self v order, unlink-NoDup v order o.nodup);
    listed = λ q h. ground (arith, o.listed q, has-unlink_ne v q order);
    slots = λ q h. ground (arith, o.slots q, has-unlink_self v order, has-unlink_ne v q order, lt);
  }
    where
      kept : (q : ℕ) → Dec (q ≡ v) → has q (v ∷ unlink v o.used) ≡ true → IsUsed es q
      kept q d h = ground (arith, o.full q, has-unlink_ne v q o.used, u)

      gone :
          (q : ℕ) → Dec (q ≡ v) → has q (unlink v o.unused) ≡ true → (es q).base_sector ≡ empty_page
      gone q d h =
          ground (arith, o.vacant q, has-unlink_ne v q o.unused, has-unlink_self v o.unused)
