-- ===== src/Prober/Populated.antt =====
-- The loop of `dvmReadPartitionTable` over the entries of a master boot record, against a description of
-- what it takes.
use libdvm.Base.{
  ℕ, zero, suc, ◌+◌, ◌≤◌, ◌≡◌, refl, sym, ap, ◌∙◌, inl, inr, Bool, true, false, none, some, List,
  [], ◌∷◌, ◌++◌, ◌||◌, ltb, if◌then◌else◌, length, arith, Bool-cases,
}
use mathlib.Core.List.{append-nil, append_assoc}
use libdvm.Prober.Ident.{Bytes}
use libdvm.Prober.Table.{DvmPartInfo, Scanned, scan, part_info, part_end, is_malformed, is_skipped}
use libdvm.Prober.Scan.{length-snoc}

-- The populated entries of the table among the `n` from `i` on.
abbrev pub populated : Bytes → ℕ → ℕ → List DvmPartInfo
populated buf zero i = []
populated buf (suc n) i =
    let rest = populated buf n (i + 1) in if is_skipped buf i then rest else part_info buf i ∷ rest

-- Whether one of these entries is malformed.
abbrev pub any_malformed : Bytes → ℕ → ℕ → Bool
any_malformed buf zero i = false
any_malformed buf (suc n) i = is_malformed buf i || any_malformed buf n (i + 1)

-- The greatest end of a partition, from `used` on.
abbrev pub greatest_end : ℕ → List DvmPartInfo → ℕ
greatest_end used [] = used
greatest_end used (p ∷ ps) = greatest_end (if ltb used (part_end p) then part_end p else used) ps

pub scan-room :
    (buf : Bytes) (max n i : ℕ) (s : Scanned)
    → length s.out + n ≤ max
    → scan buf max n i s ≡ (
        if any_malformed buf n i
        then none
        else some (record {
          out = s.out ++ populated buf n i;
          used = greatest_end s.used (populated buf n i);
        }))
unfolding scan
scan-room buf max zero i s room =
    ap (λ o. some (record { out = o; used = s.used })) (sym (append-nil s.out))
scan-room buf max (suc n) i s room =
    let test : ltb (length s.out) max ≡ true = ground arith in
    rw test (elim (Bool-cases (is_malformed buf i)) [
      | inl bad ↦ rw bad refl
      | inr good ↦ rw good (elim (Bool-cases (is_skipped buf i)) [
        | inl skip ↦ rw skip (scan-room buf max n (i + 1) s (omega arith))
        | inr take ↦ rw take (
            scan-room buf max n (i + 1) _ (omega (arith, length-snoc s.out (part_info buf i)))
            ∙ ap
                (λ o.
                  if any_malformed buf n (i + 1)
                  then none
                  else some (record {
                    out = o;
                    used = greatest_end s.used (part_info buf i ∷ populated buf n (i + 1));
                  }))
                (append_assoc s.out (part_info buf i ∷ []) (populated buf n (i + 1))))
      ])
    ])
