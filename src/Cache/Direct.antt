-- ===== src/Cache/Direct.antt =====
-- The round of the loop of `_dvmDiscCacheReadWrite` that transfers straight between the inner disc
-- and the buffer of the user.
use libdvm.Base.{
  ℕ, ◌+◌, ◌-◌, ◌%◌, ◌≤◌, ◌<◌, ◌≡◌, refl, sym, ◌∙◌, ap, subst, ◌≢◌, ◌⊎◌, inl, inr, Bool, true, false,
  arith, ltb, if◌then◌else◌, Bool-cases,
}
use libdvm.Base.Paging.{page_start, page_start-Aligned}
use libdvm.Disc.{DvmDiscIface, DiscLaws, WriteReply, ReadReply}
use libdvm.Disc.Memory.{Sector, in_range, offset, splice}
use libdvm.Cache.Types.{page_sz, sec_mod}
use libdvm.Cache.Access.{Access, Loop}
use libdvm.Cache.Invariant.{IsCoherent}
use libdvm.Cache.View.{view, view-uncached}
use libdvm.Cache.Moved.{Moved, Aborted}
use libdvm.Cache.ReadWrite.{Round, direct, direct_stop, cur_page}
use libdvm.Cache.Gap.{NoneIn, gap-free, inner-Coherent, inner-view}

module _ {D : Type 0} {vt : DvmDiscIface D} {content : D → ℕ → Sector} {IsOk : D → Type 0}
    {size : ℕ} (laws : DiscLaws vt size content IsOk) (l : Loop D)
    (i : IsCoherent content IsOk size l.self) (fits : l.first_sector + l.num_sectors ≤ size)
    (stop : ℕ) (ahead : l.first_sector < stop) (stop_in : stop ≤ size)
    (none_in : NoneIn l.self.entries l.self.pages (cur_page l) stop) where
  -- How many sectors a direct access transfers.
  abbrev pub run : ℕ
  run = if ltb l.num_sectors (stop - l.first_sector) then l.num_sectors else stop - l.first_sector

  run-bounds : (run ≤ l.num_sectors) × (l.first_sector + run ≤ stop) × (l.first_sector + run ≤ size)
  run-bounds = ground arith

  free :
      (a q : ℕ)
      → a < size
      → l.first_sector ≤ a
      → a < l.first_sector + run
      → q < l.self.pages
      → (l.self.entries q).base_sector ≢ page_start (page_sz l.self) a
  free a q la ge lt lq =
      gap-free i (cur_page l) stop (page_start-Aligned (page_sz l.self) l.first_sector i.pos)
        none_in a q la (omega arith) (omega (arith, run-bounds)) lq

  -- The write, and what it leaves.
  put : WriteReply D
  put = vt.write_sectors l.self.inner (offset l.buffer l.pos) l.first_sector run false

  put-off :
      (a : ℕ)
      → a < size
      → (a < l.first_sector) ⊎ (l.first_sector + run ≤ a)
      → content put.state a ≡ content l.self.inner a
  unfolding put
  put-off a la out =
      laws.write_frame _ _ l.first_sector run false a i.inner_ok (run-bounds.2) la out

  put-spared :
      (a q : ℕ)
      → a < size
      → q < l.self.pages
      → (l.self.entries q).base_sector ≡ page_start (page_sz l.self) a
      → content put.state a ≡ content l.self.inner a
  put-spared a q la lq e = put-off a la (elim (Bool-cases (in_range l.first_sector run a)) [
    | inl inside ↦ absurd (free a q la (ground arith) (ground arith) lq e)
    | inr outside ↦ ground arith
  ])

  put-IsOk : IsOk put.state
  unfolding put
  put-IsOk = laws.write-IsOk _ _ l.first_sector run false i.inner_ok run-bounds.2

  put-Coherent : IsCoherent content IsOk size (record (l.self) { inner = put.state })
  put-Coherent = inner-Coherent i put.state put-IsOk put-spared

  put-view :
      put.ok ≡ true
      → (a : ℕ) → a < size
      → view content (record (l.self) { inner = put.state }) a ≡ (
          if in_range l.first_sector run a
          then l.buffer (l.pos + (a - l.first_sector))
          else view content l.self a)
  unfolding put
  put-view ok a la = elim (Bool-cases (in_range l.first_sector run a)) [
    | inl inside ↦
        let uncached =
          λ (q : ℕ) (lq : q < l.self.pages). free a q la (ground arith) (ground arith) lq in
        rw inside (
          view-uncached content (record (l.self) { inner = put.state }) a uncached
          ∙ ap (content put.state) {x = a} {y = l.first_sector + (a - l.first_sector)}
              (ground arith)
          ∙ laws.write_puts _ _ l.first_sector run false (a - l.first_sector) i.inner_ok
              run-bounds.2 ok (ground arith))
    | inr outside ↦
        rw outside (inner-view i put.state put-IsOk put-spared a la (put-off a la (ground arith)))
  ]

  -- The read, and what it leaves.
  taken : ReadReply D
  taken = vt.read_sectors l.self.inner (offset l.buffer l.pos) l.first_sector run false

  taken-same : (a : ℕ) → a < size → content taken.state a ≡ content l.self.inner a
  unfolding taken
  taken-same a la = laws.read_keeps _ _ l.first_sector run false a i.inner_ok run-bounds.2 la

  taken-IsOk : IsOk taken.state
  unfolding taken
  taken-IsOk = laws.read-IsOk _ _ l.first_sector run false i.inner_ok run-bounds.2

  taken-Coherent : IsCoherent content IsOk size (record (l.self) { inner = taken.state })
  taken-Coherent = inner-Coherent i taken.state taken-IsOk (λ a q la lq e. taken-same a la)

  taken-view :
      (a : ℕ)
      → a < size
      → view content (record (l.self) { inner = taken.state }) a ≡ view content l.self a
  taken-view a la =
      inner-view i taken.state taken-IsOk (λ a q la lq e. taken-same a la) a la (taken-same a la)

  taken-off :
      (j : ℕ) → (j < l.pos) ⊎ (l.pos + run ≤ j) → splice l.buffer l.pos taken.buf j ≡ l.buffer j
  unfolding taken
  taken-off j h = elim (Bool-cases (ltb j l.pos)) [
    | inl before ↦ rw before
    | inr behind ↦ rw behind (
        laws.read_frame _ _ l.first_sector run false (j - l.pos) i.inner_ok run-bounds.2
          (ground arith)
        ∙ ap l.buffer (ground arith))
  ]

  taken-got :
      taken.ok ≡ true
      → (j : ℕ)
      → splice l.buffer l.pos taken.buf j ≡ (
          if in_range l.pos run j
          then view content l.self (l.first_sector + (j - l.pos))
          else l.buffer j)
  unfolding taken
  taken-got ok j = elim (Bool-cases (in_range l.pos run j)) [
    | inl inside ↦
        let a : ℕ = l.first_sector + (j - l.pos) in
        let in_run : (l.first_sector ≤ a)
            × (a < l.first_sector + run)
            × (a < size)
            × (j - l.pos < run) =
          ground (arith, run-bounds) in
        let behind : ltb j l.pos ≡ false = ground arith in
        rw (inside, behind)
          (laws.read_gets _ _ l.first_sector run false (j - l.pos) i.inner_ok run-bounds.2 ok
              in_run.3
            ∙ sym (view-uncached content l.self a (λ q lq. free a q in_run.2 in_run.0 in_run.1 lq)))
    | inr outside ↦ rw outside (taken-off j (ground arith))
  ]

  -- What the round leaves.
  pub record Directed (w : Bool) (r : Round D) : Type 0 where
    pub moved : r.ok ≡ true → Moved content IsOk size w run l r.loop
    pub aborted : r.ok ≡ false → Aborted content IsOk size w l r.loop
    pub spared : r.ok ≡ false → Aborted content IsOk size w (record l { num_sectors = run }) r.loop
    pub same_p : r.loop.p ≡ l.p
    pub same_base : r.loop.search_base ≡ l.search_base
    pub same_entries : r.loop.self.entries ≡ l.self.entries
    pub same_pages : r.loop.self.pages ≡ l.self.pages

  module _ (a : Access) (at_stop : direct_stop l ≡ stop) where
    run_eq :
        (let max_cur = (direct_stop l + sec_mod - l.first_sector) % sec_mod in
          if ltb l.num_sectors max_cur then l.num_sectors else max_cur)
        ≡ run
    run_eq =
        let max_eq : (direct_stop l + sec_mod - l.first_sector) % sec_mod ≡ stop - l.first_sector =
          ap (λ s. (s + sec_mod - l.first_sector) % sec_mod) at_stop ∙ omega (arith, i.small) in
        ap (λ m. if ltb l.num_sectors m then l.num_sectors else m) max_eq

    direct-write : a.is_write ≡ true → Directed true (direct vt a l)
    unfolding direct put
    direct-write w =
        rw (w, run_eq)
          (elim (Bool-cases put.ok) [
            | inl ok ↦ rw ok (record {
              moved = λ h. record {
                coherent = put-Coherent;
                page_shift = refl;
                at_pos = refl;
                at_first = omega (arith, i.small, run-bounds);
                left = omega (arith, run-bounds);
                written = λ h. put-view ok;
                same_buffer = λ h j. refl;
                same_view = λ h. cc;
                got = λ h. cc;
              };
              aborted = λ h. cc;
              spared = λ h. cc;
              same_p = refl;
              same_base = refl;
              same_entries = refl;
              same_pages = refl;
            })
            | inr bad ↦ rw bad (record {
              moved = λ h. cc;
              aborted = λ h. record {
                coherent = put-Coherent;
                page_shift = refl;
                off_range = λ a la out.
                    inner-view i put.state put-IsOk put-spared a la
                      (put-off a la (omega (arith, run-bounds)));
                same_view = λ h. cc;
                off_buffer = λ j out. refl;
              };
              spared = λ h. record {
                coherent = put-Coherent;
                page_shift = refl;
                off_range =
                    λ a la out. inner-view i put.state put-IsOk put-spared a la (put-off a la out);
                same_view = λ h. cc;
                off_buffer = λ j out. refl;
              };
              same_p = refl;
              same_base = refl;
              same_entries = refl;
              same_pages = refl;
            })
          ])

    direct-read : a.is_write ≡ false → Directed false (direct vt a l)
    unfolding direct taken
    direct-read w =
        rw (w, run_eq)
          (elim (Bool-cases taken.ok) [
            | inl ok ↦ rw ok (record {
              moved = λ h. record {
                coherent = taken-Coherent;
                page_shift = refl;
                at_pos = refl;
                at_first = omega (arith, i.small, run-bounds);
                left = omega (arith, run-bounds);
                written = λ h. cc;
                same_buffer = λ h. cc;
                same_view = λ h. taken-view;
                got = λ h. taken-got ok;
              };
              aborted = λ h. cc;
              spared = λ h. cc;
              same_p = refl;
              same_base = refl;
              same_entries = refl;
              same_pages = refl;
            })
            | inr bad ↦ rw bad (record {
              moved = λ h. cc;
              aborted = λ h. record {
                coherent = taken-Coherent;
                page_shift = refl;
                off_range = λ a la out. taken-view a la;
                same_view = λ h. taken-view;
                off_buffer = λ j out. taken-off j (omega (arith, run-bounds));
              };
              spared = λ h. record {
                coherent = taken-Coherent;
                page_shift = refl;
                off_range = λ a la out. taken-view a la;
                same_view = λ h. taken-view;
                off_buffer = λ j out. taken-off j out;
              };
              same_p = refl;
              same_base = refl;
              same_entries = refl;
              same_pages = refl;
            })
          ])

    pub direct-Directed : Directed a.is_write (direct vt a l)
    direct-Directed = elim (Bool-cases a.is_write) [
      | inl w ↦ subst (λ x. Directed x (direct vt a l)) (sym w) (direct-write w)
      | inr w ↦ subst (λ x. Directed x (direct vt a l)) (sym w) (direct-read w)
    ]
