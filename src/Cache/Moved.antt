-- ===== src/Cache/Moved.antt =====
-- What a part of the loop of `_dvmDiscCacheReadWrite` has done: how the parts compose.
use libdvm.Base.{
  ℕ, ◌+◌, ◌-◌, ◌≤◌, ◌<◌, ◌≡◌, refl, ◌∙◌, ap, ◌⊎◌, inl, inr, Bool, true, false, arith, if◌then◌else◌,
  Bool-cases,
}
use libdvm.Disc.Memory.{Sector, in_range}
use libdvm.Cache.Access.{Loop}
use libdvm.Cache.Invariant.{IsCoherent}
use libdvm.Cache.View.{view}

module _ {D : Type 0} (content : D → ℕ → Sector) (IsOk : D → Type 0) (size : ℕ) where
  -- Between `l` and `l'` the `n` next sectors were written (`w`) or read.
  pub record Moved (w : Bool) (n : ℕ) (l l' : Loop D) : Type 0 where
    pub coherent : IsCoherent content IsOk size l'.self
    pub page_shift : l'.self.page_shift ≡ l.self.page_shift
    pub at_pos : l'.pos ≡ l.pos + n
    pub at_first : l'.first_sector ≡ l.first_sector + n
    pub left : l'.num_sectors + n ≡ l.num_sectors
    pub written :
        w ≡ true
        → (a : ℕ) → a < size
        → view content l'.self a ≡ (
            if in_range l.first_sector n a
            then l.buffer (l.pos + (a - l.first_sector))
            else view content l.self a)
    pub same_buffer : w ≡ true → (j : ℕ) → l'.buffer j ≡ l.buffer j
    pub same_view : w ≡ false → (a : ℕ) → a < size → view content l'.self a ≡ view content l.self a
    pub got :
        w ≡ false
        → (j : ℕ)
        → l'.buffer j ≡ (
            if in_range l.pos n j
            then view content l.self (l.first_sector + (j - l.pos))
            else l.buffer j)

  -- The transfer failed in `l'`: what it was given may have changed, and nothing else.
  pub record Aborted (w : Bool) (l l' : Loop D) : Type 0 where
    pub coherent : IsCoherent content IsOk size l'.self
    pub page_shift : l'.self.page_shift ≡ l.self.page_shift
    pub off_range :
        (a : ℕ)
        → a < size
        → (a < l.first_sector) ⊎ (l.first_sector + l.num_sectors ≤ a)
        → view content l'.self a ≡ view content l.self a
    pub same_view : w ≡ false → (a : ℕ) → a < size → view content l'.self a ≡ view content l.self a
    pub off_buffer : (j : ℕ) → (j < l.pos) ⊎ (l.pos + l.num_sectors ≤ j) → l'.buffer j ≡ l.buffer j

module _ {D : Type 0} {content : D → ℕ → Sector} {IsOk : D → Type 0} {size : ℕ} where
  pub Moved-refl :
      (w : Bool) (l : Loop D)
      → IsCoherent content IsOk size l.self
      → Moved content IsOk size w 0 l l
  Moved-refl w l i = record {
    coherent = i;
    page_shift = refl;
    at_pos = omega arith;
    at_first = omega arith;
    left = omega arith;
    written = λ h a la. ground arith;
    same_buffer = λ h j. refl;
    same_view = λ h a la. refl;
    got = λ h j. ground arith;
  }

  pub Moved-fits :
      {w : Bool} {n : ℕ} {l k : Loop D}
      → l.first_sector + l.num_sectors ≤ size
      → Moved content IsOk size w n l k
      → k.first_sector + k.num_sectors ≤ size
  Moved-fits fits s = omega (arith, s.at_first, s.left)

  written_trans :
      {w : Bool} {m n : ℕ} {l k r : Loop D}
      → Moved content IsOk size w m l k
      → Moved content IsOk size w n k r
      → w ≡ true
      → (a : ℕ) → a < size
      → view content r.self a ≡ (
          if in_range l.first_sector (m + n) a
          then l.buffer (l.pos + (a - l.first_sector))
          else view content l.self a)
  written_trans {w} {m} {n} {l} {k} {r} s t h a la =
      t.written h a la ∙ elim (Bool-cases (in_range k.first_sector n a)) [
        | inl e ↦
            let index : k.pos + (a - k.first_sector) ≡ l.pos + (a - l.first_sector) =
              ground (arith, s.at_pos, s.at_first) in
            let all : in_range l.first_sector (m + n) a ≡ true = ground (arith, s.at_first) in
            rw (e, all) (s.same_buffer h (k.pos + (a - k.first_sector)) ∙ ap l.buffer index)
        | inr e ↦ rw e (
            s.written h a la
            ∙ ap (λ x. if x then l.buffer (l.pos + (a - l.first_sector)) else view content l.self a)
                (ground (arith, s.at_first)))
      ]

  got_trans :
      {w : Bool} {m n : ℕ} {l k r : Loop D}
      → l.first_sector + l.num_sectors ≤ size
      → Moved content IsOk size w m l k
      → Moved content IsOk size w n k r
      → w ≡ false
      → (j : ℕ)
      → r.buffer j ≡ (
          if in_range l.pos (m + n) j
          then view content l.self (l.first_sector + (j - l.pos))
          else l.buffer j)
  got_trans {w} {m} {n} {l} {k} {r} fits s t h j =
      t.got h j ∙ elim (Bool-cases (in_range k.pos n j)) [
        | inl e ↦
            let index : k.first_sector + (j - k.pos) ≡ l.first_sector + (j - l.pos) =
              ground (arith, s.at_pos, s.at_first) in
            let all : in_range l.pos (m + n) j ≡ true = ground (arith, s.at_pos) in
            let inside : k.first_sector + (j - k.pos) < size =
              ground (arith, s.at_first, s.left, t.left) in
            rw (e, all)
              (s.same_view h (k.first_sector + (j - k.pos)) inside ∙ ap (view content l.self) index)
        | inr e ↦ rw e (
            s.got h j
            ∙ ap (λ x. if x then view content l.self (l.first_sector + (j - l.pos)) else l.buffer j)
                (ground (arith, s.at_pos)))
      ]

  pub Moved-trans :
      {w : Bool} {m n : ℕ} {l k r : Loop D}
      → l.first_sector + l.num_sectors ≤ size
      → Moved content IsOk size w m l k
      → Moved content IsOk size w n k r
      → Moved content IsOk size w (m + n) l r
  Moved-trans fits s t = record {
    coherent = t.coherent;
    page_shift = t.page_shift ∙ s.page_shift;
    at_pos = omega (arith, s.at_pos, t.at_pos);
    at_first = omega (arith, s.at_first, t.at_first);
    left = omega (arith, s.left, t.left);
    written = written_trans s t;
    same_buffer = λ h j. t.same_buffer h j ∙ s.same_buffer h j;
    same_view = λ h a la. t.same_view h a la ∙ s.same_view h a la;
    got = got_trans fits s t;
  }

  pub Moved-Aborted :
      {w : Bool} {m : ℕ} {l k r : Loop D}
      → l.first_sector + l.num_sectors ≤ size
      → Moved content IsOk size w m l k
      → Aborted content IsOk size w k r
      → Aborted content IsOk size w l r
  Moved-Aborted {w} {m} {l} {k} {r} fits s t = record {
    coherent = t.coherent;
    page_shift = t.page_shift ∙ s.page_shift;
    off_range = λ a la h.
        t.off_range a la (omega (arith, s.at_first, s.left)) ∙ off_view a la h (Bool-cases w);
    same_view = λ h a la. t.same_view h a la ∙ s.same_view h a la;
    off_buffer =
        λ j h. t.off_buffer j (omega (arith, s.at_pos, s.left)) ∙ off_buf j h (Bool-cases w);
  }
    where
      off_view :
          (a : ℕ)
          → a < size
          → (a < l.first_sector) ⊎ (l.first_sector + l.num_sectors ≤ a)
          → (w ≡ true) ⊎ (w ≡ false)
          → view content k.self a ≡ view content l.self a
      off_view a la h (inl e) =
          s.written e a la
          ∙ ap (λ x. if x then l.buffer (l.pos + (a - l.first_sector)) else view content l.self a)
              {y = false} (ground (arith, s.left))
      off_view a la h (inr e) = s.same_view e a la

      off_buf :
          (j : ℕ)
          → (j < l.pos) ⊎ (l.pos + l.num_sectors ≤ j)
          → (w ≡ true) ⊎ (w ≡ false)
          → k.buffer j ≡ l.buffer j
      off_buf j h (inl e) = s.same_buffer e j
      off_buf j h (inr e) =
          s.got e j
          ∙ ap (λ x. if x then view content l.self (l.first_sector + (j - l.pos)) else l.buffer j)
              {y = false} (ground (arith, s.left))
