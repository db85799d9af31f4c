-- ===== src/Cache/Refined.antt =====
-- A sequence of calls of the cache of `source/dvm_cache.c` refines the same sequence on an array.
use mathlib.Core.Option
use libdvm.Base.{
  ℕ, ◌+◌, ◌^◌, ◌<◌, ◌≡◌, refl, ◌∙◌, sym, inl, inr, Bool, true, false, some, List, [], ◌∷◌, ◌&&◌,
  arith, Bool-cases, subst,
}
use libdvm.Disc.{DvmDiscIface, DiscLaws, ReadReply}
use libdvm.Disc.Memory.{Sector, Buf}
use libdvm.Cache.Types.{DvmDiscCache, page_sz}
use libdvm.Cache.Flush.{cache_flush, flush_from, entry_flush}
use libdvm.Cache.Access.{Access}
use libdvm.Cache.Invariant.{IsCoherent}
use libdvm.Cache.View.{view}
use libdvm.Cache.Transfer.{Served, read_write-one_page}
use libdvm.Cache.FlushAll.{cache_flush-stores}
use libdvm.Cache.Session.{
  Call, transfer, sync, Answer, serve, run, is_given, apply, answer_of, replay, is_given_any,
  all_ok, IsReplay, InPage, AllInPage,
}

module _ {D : Type 0} (content : D → ℕ → Sector) (IsOk : D → Type 0) (size : ℕ) where
  record Stepped (q : Call) (c : DvmDiscCache D) (r : ReadReply (DvmDiscCache D)) : Type 0 where
    coherent : IsCoherent content IsOk size r.state
    page_shift : r.state.page_shift ≡ c.page_shift
    did : r.ok ≡ true → (s : ℕ) → s < size → view content r.state s ≡ apply q (view content c) s
    got : r.ok ≡ true → (j : ℕ) → r.buf j ≡ answer_of q (view content c) j
    off : (s : ℕ) → s < size → is_given q s ≡ false → view content r.state s ≡ view content c s

  -- What a sequence of calls leaves, against an array of sectors.
  pub record Refined (qs : List Call) (x : ℕ → Sector) (out : DvmDiscCache D × List Answer)
      : Type 0 where
    pub coherent : IsCoherent content IsOk size out.0
    pub answers : all_ok out.1 ≡ true → IsReplay qs x out.1
    pub stored : all_ok out.1 ≡ true → (s : ℕ) → s < size → view content out.0 s ≡ replay qs x s
    pub spared : (s : ℕ) → s < size → is_given_any qs s ≡ false → view content out.0 s ≡ x s

module _ {D : Type 0} (vt : DvmDiscIface D) where
  flush_from-page_shift :
      (ps : List ℕ) (c : DvmDiscCache D) (ret : Bool)
      → (flush_from vt ps c ret).state.page_shift ≡ c.page_shift
  unfolding flush_from entry_flush
  flush_from-page_shift [] c ret = refl
  flush_from-page_shift (p ∷ ps) c ret =
      ground (
        arith,
        flush_from-page_shift ps (entry_flush vt c p).state (ret && (entry_flush vt c p).ok),
      )

  cache_flush-page_shift : (c : DvmDiscCache D) → (cache_flush vt c).state.page_shift ≡ c.page_shift
  unfolding cache_flush
  cache_flush-page_shift c = flush_from-page_shift c.order c true

answer_of-same :
    (size n : ℕ) (q : Call) (x y : ℕ → Sector)
    → InPage size n q
    → ((s : ℕ) → s < size → x s ≡ y s)
    → (j : ℕ) → answer_of q x j ≡ answer_of q y j
answer_of-same size n (transfer b first k a) x y (inside, fits, one) h j =
    ground (arith, h (first + j))
answer_of-same size n sync x y page h j = refl

apply-same :
    (size : ℕ) (q : Call) (x y : ℕ → Sector)
    → ((s : ℕ) → s < size → x s ≡ y s)
    → (s : ℕ) → s < size
    → apply q x s ≡ apply q y s
apply-same size (transfer b first k a) x y h s ls = ground (arith, h s ls)
apply-same size sync x y h s ls = h s ls

module _ {D : Type 0} {content : D → ℕ → Sector} {IsOk : D → Type 0} {size : ℕ} where
  Served-Stepped :
      (b : Buf) (first n : ℕ) (a : Access) (c : DvmDiscCache D) (r : ReadReply (DvmDiscCache D))
      → Served content IsOk size a.is_write c b first n r
      → Stepped content IsOk size (transfer b first n a) c r
  Served-Stepped b first n a c r t = record {
    coherent = t.coherent;
    page_shift = t.page_shift;
    did = λ ok s ls. elim (Bool-cases a.is_write) [
      | inl w ↦ rw w (t.wrote w ok s ls)
      | inr w ↦ rw w (t.read_keeps w s ls)
    ];
    got = λ ok j. elim (Bool-cases a.is_write) [
      | inl w ↦ rw w (t.write_keeps w ok j)
      | inr w ↦ rw w (t.got w ok j)
    ];
    off = λ s ls out. elim (Bool-cases a.is_write) [
      | inl w ↦ t.off_range s ls (ground arith)
      | inr w ↦ t.read_keeps w s ls
    ];
  }

  module _ {vt : DvmDiscIface D} (laws : DiscLaws vt size content IsOk) where
    serve-Stepped :
        (q : Call) (c : DvmDiscCache D)
        → IsCoherent content IsOk size c
        → InPage size (page_sz c) q
        → (r : ReadReply (DvmDiscCache D)) × (serve vt q c ≡ some r)
          × Stepped content IsOk size q c r
    unfolding serve
    serve-Stepped (transfer b first n a) c i (inside, fits, one) =
        let (r, e, t) = read_write-one_page laws c b first n a i inside fits one in
        (r, e, Served-Stepped b first n a c r t)
    serve-Stepped sync c i page =
        let f = cache_flush-stores laws c i in
        (
          _,
          refl,
          record {
            coherent = f.0;
            page_shift = cache_flush-page_shift vt c;
            did = λ ok. f.1;
            got = λ ok j. refl;
            off = λ s ls out. f.1 s ls;
          },
        )

    step-Refined :
        (q : Call) (qs : List Call) (c : DvmDiscCache D) (x : ℕ → Sector)
        (r : ReadReply (DvmDiscCache D)) (out : DvmDiscCache D × List Answer)
        → InPage size (page_sz c) q
        → ((s : ℕ) → s < size → view content c s ≡ x s)
        → Stepped content IsOk size q c r
        → (r.ok ≡ true → Refined content IsOk size qs (apply q x) out)
        → Refined content IsOk size qs (view content r.state) out
        → Refined content IsOk size (q ∷ qs) x (out.0, record { ok = r.ok; buf = r.buf } ∷ out.1)
    step-Refined q qs c x r out page agree t good rest = record {
      coherent = rest.coherent;
      answers = λ ok. elim (Bool-cases r.ok) [
        | inl e ↦ (
          λ j. t.got e j ∙ answer_of-same size (page_sz c) q (view content c) x page agree j,
          (good e).answers (rw e at ok),
        )
        | inr e ↦ absurd (ground arith)
      ];
      stored = λ ok s ls. elim (Bool-cases r.ok) [
        | inl e ↦ (good e).stored (rw e at ok) s ls
        | inr e ↦ absurd (ground arith)
      ];
      spared = λ s ls h. elim (Bool-cases (is_given q s)) [
        | inl e ↦ absurd (ground arith)
        | inr e ↦ rest.spared s ls (rw e at h) ∙ t.off s ls e ∙ agree s ls
      ];
    }

    -- Calls of a coherent cache, each a flush or a transfer within one page of the disc, all end. If
    -- they succeed, their answers are those of an array of sectors that is read and written the same
    -- way, and the cache stands for what is in that array at the end. Also if some of them fail, the
    -- cache stays coherent, and the sectors that no write was given keep their contents: for an array that agrees with
    -- what the cache stands for at first.
    pub run-Refined :
        (qs : List Call) (c : DvmDiscCache D) (x : ℕ → Sector)
        → IsCoherent content IsOk size c
        → ((s : ℕ) → s < size → view content c s ≡ x s)
        → AllInPage size (page_sz c) qs
        → (out : DvmDiscCache D × List Answer) × (run vt qs c ≡ some out)
          × Refined content IsOk size qs x out
    unfolding run
    run-Refined [] c x i agree pages = (
      (c, []),
      refl,
      record {
        coherent = i;
        answers = λ ok. refl;
        stored = λ ok. agree;
        spared = λ s ls h. agree s ls;
      },
    )
    run-Refined (q ∷ qs) c x i agree (page, pages) =
        let (r, e, t) = serve-Stepped q c i page in
        let pages' : AllInPage size (page_sz r.state) qs =
          subst (λ k. AllInPage size (2 ^ k) qs) (sym t.page_shift) pages in
        let (out, e', rest) =
          run-Refined qs r.state (view content r.state) t.coherent (λ s ls. refl) pages' in
        let good : r.ok ≡ true → Refined content IsOk size qs (apply q x) out = λ ok.
          let (out', e'', rest') =
            run-Refined qs r.state (apply q x) t.coherent
              (λ s ls. t.did ok s ls ∙ apply-same size q (view content c) x agree s ls) pages' in
          subst (Refined content IsOk size qs (apply q x))
            (Option.some-injective _ _ (sym e'' ∙ e')) rest' in
        (
          (out.0, record { ok = r.ok; buf = r.buf } ∷ out.1),
          rw (e, e') refl,
          step-Refined q qs c x r out page agree t good rest,
        )
