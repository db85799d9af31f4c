-- ===== src/Cache/LoopRule.antt =====
-- The rule of the loop `while (num_sectors)` of `_dvmDiscCacheReadWrite`: what each round does under
-- an invariant, the loop does, in at most as many rounds as there are sectors.
use libdvm.Base.{
  ℕ, zero, suc, ◌+◌, ◌≤◌, ◌<◌, ◌≡◌, refl, sym, ap, subst, inl, inr, Bool, true, false, Option, some,
  arith, leb, ◌==◌, if◌then◌else◌, Bool-cases,
}
use libdvm.Base.Paging.{page_start}
use libdvm.Disc.{DvmDiscIface}
use libdvm.Disc.Memory.{Sector}
use libdvm.Cache.Types.{page_sz}
use libdvm.Cache.Access.{Access, Loop, locate, seek}
use libdvm.Cache.Invariant.{IsCoherent}
use libdvm.Cache.Moved.{Moved, Aborted, Moved-refl, Moved-trans, Moved-Aborted, Moved-fits}
use libdvm.Cache.ReadWrite.{Round, access_page, rw_loop}

-- The search was repeated, or it was not.
pub locate-elim :
    {D : Type 0} (l : Loop D) (P : Loop D → Type 0)
    → (l.search_base ≤ page_start (page_sz l.self) l.first_sector → P (seek l))
    → (page_start (page_sz l.self) l.first_sector < l.search_base → P l)
    → P (locate l)
unfolding locate
locate-elim l P sought kept =
    elim (Bool-cases (leb l.search_base (page_start (page_sz l.self) l.first_sector))) [
      | inl e ↦ rw e (sought (ground arith))
      | inr e ↦ rw e (kept (ground arith))
    ]

module _ {D : Type 0} (content : D → ℕ → Sector) (IsOk : D → Type 0) (size : ℕ) where
  -- What a run of rounds that begins at `l` leaves, where `n` sectors are to be transferred.
  pub record Transferred (w : Bool) (n : ℕ) (l : Loop D) (r : Round D) : Type 0 where
    pub moved : r.ok ≡ true → Moved content IsOk size w n l r.loop
    pub aborted : r.ok ≡ false → Aborted content IsOk size w l r.loop

  -- A round transfers some sectors, and restores `J` where some are left.
  pub record RoundOk (w : Bool) (J : Loop D → Type 0) (l : Loop D) (r : Round D) : Type 0 where
    pub cur : ℕ
    pub some_cur : 0 < cur
    pub did : Transferred w cur l r
    pub next : r.ok ≡ true → 0 < r.loop.num_sectors → J r.loop

module _ {D : Type 0} {content : D → ℕ → Sector} {IsOk : D → Type 0} {size : ℕ} where
  -- The search changes `p` and `search_base` alone.
  reseat :
      {w : Bool} {n : ℕ} (l : Loop D) (p : Option ℕ) (search_base : ℕ) {r : Round D}
      → Transferred content IsOk size w n (record l { p = p; search_base = search_base }) r
      → Transferred content IsOk size w n l r
  reseat l p search_base t = record {
    moved = λ ok.
        let m = t.moved ok in
        record {
          coherent = m.coherent;
          page_shift = m.page_shift;
          at_pos = m.at_pos;
          at_first = m.at_first;
          left = m.left;
          written = m.written;
          same_buffer = m.same_buffer;
          same_view = m.same_view;
          got = m.got;
        };
    aborted = λ bad.
        let m = t.aborted bad in
        record {
          coherent = m.coherent;
          page_shift = m.page_shift;
          off_range = m.off_range;
          same_view = m.same_view;
          off_buffer = m.off_buffer;
        };
  }

  reseat_if :
      {w : Bool} {n : ℕ} (l : Loop D) (p : Option ℕ) (search_base : ℕ) {r : Round D} (b : Bool)
      → Transferred content IsOk size w n
          (if b then record l { p = p; search_base = search_base } else l)
          r
      → Transferred content IsOk size w n l r
  reseat_if l p search_base true t = reseat l p search_base t
  reseat_if l p search_base false t = t

  pub Transferred-locate :
      {w : Bool} {n : ℕ} (l : Loop D) {r : Round D}
      → Transferred content IsOk size w n (locate l) r
      → Transferred content IsOk size w n l r
  unfolding locate
  Transferred-locate l t = reseat_if l _ _ _ t

module _ {D : Type 0} {content : D → ℕ → Sector} {IsOk : D → Type 0} {size : ℕ} where
  -- Nothing is left to transfer.
  Transferred-done :
      (w : Bool) (l : Loop D)
      → l.num_sectors ≡ 0
      → IsCoherent content IsOk size l.self
      → Transferred content IsOk size w l.num_sectors l (record { loop = l; ok = true })
  Transferred-done w l e i = record {
    moved = λ h. subst (λ n. Moved content IsOk size w n l l) (sym e) (Moved-refl w l i);
    aborted = λ h. cc;
  }

  -- A round that succeeds, and what follows it.
  Transferred-trans :
      {w : Bool} {m n : ℕ} {l k : Loop D} {r : Round D}
      → l.first_sector + l.num_sectors ≤ size
      → Moved content IsOk size w m l k
      → Transferred content IsOk size w n k r
      → Transferred content IsOk size w (m + n) l r
  Transferred-trans fits s t = record {
    moved = λ ok. Moved-trans fits s (t.moved ok);
    aborted = λ bad. Moved-Aborted fits s (t.aborted bad);
  }

module _ {D : Type 0} (vt : DvmDiscIface D) {content : D → ℕ → Sector} {IsOk : D → Type 0}
    {size : ℕ} (a : Access) (J : Loop D → Type 0)
    (step : (l : Loop D)
      → J l
      → IsCoherent content IsOk size l.self
      → l.first_sector + l.num_sectors ≤ size
      → 0 < l.num_sectors
      → RoundOk content IsOk size a.is_write J l (access_page vt a (locate l))) where
  -- The loop ends with `num_sectors` transferred, or with a failure.
  pub rw_loop-Transferred :
      (fuel : ℕ) (l : Loop D)
      → l.num_sectors ≤ fuel
      → (0 < l.num_sectors → J l)
      → IsCoherent content IsOk size l.self
      → l.first_sector + l.num_sectors ≤ size
      → (r : Round D) × (rw_loop vt fuel a l ≡ some r)
        × Transferred content IsOk size a.is_write l.num_sectors l r
  unfolding rw_loop
  rw_loop-Transferred zero l le j i fits =
      let done : l.num_sectors ≡ 0 = omega arith in
      let test : (l.num_sectors == 0) ≡ true = ground arith in
      (record { loop = l; ok = true }, rw test refl, Transferred-done a.is_write l done i)
  rw_loop-Transferred (suc fuel) l le j i fits = elim (Bool-cases (l.num_sectors == 0)) [
    | inl e ↦ (
      record { loop = l; ok = true },
      rw (rw_loop, e) refl,
      Transferred-done a.is_write l (ground arith) i,
    )
    | inr e ↦
        let some_num : 0 < l.num_sectors = ground arith in
        let s = step l (j some_num) i fits some_num in
        elim (Bool-cases (access_page vt a (locate l)).ok) [
          | inl ok ↦
              let m = s.did.moved ok in
              let (r, eq, t) =
                rw_loop-Transferred fuel (access_page vt a (locate l)).loop
                  (omega (arith, m.left, s.some_cur)) (s.next ok) m.coherent (Moved-fits fits m) in
              (
                r,
                rw (rw_loop, e, ok) eq,
                subst (λ n. Transferred content IsOk size a.is_write n l r) (omega (arith, m.left))
                    (Transferred-trans fits m t),
              )
          | inr bad ↦ (
            access_page vt a (locate l),
            rw (rw_loop, e)
                (ap
                  (λ b. elim b [
                    | true ↦ rw_loop vt fuel a (access_page vt a (locate l)).loop
                    | false ↦ some (access_page vt a (locate l))
                  ])
                  bad),
            record { moved = λ h. cc; aborted = s.did.aborted },
          )
        ]
  ]
