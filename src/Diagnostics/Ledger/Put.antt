-- ===== src/Diagnostics/Ledger/Put.antt =====
-- A request that is admitted is counted, and a move of the entries changes no count.
use wirestead.Prelude.{
  ℕ, ◌+◌, ◌<◌, ◌≡◌, refl, sym, ap, subst, ◌∙◌, Bool, true, false, ◌&&◌, Option, ◌==◌, if◌then◌else◌,
  arith, Bool-cases, inl, inr, size_mod,
}
use wirestead.Diagnostics.Accounting.{SendAccounting, count_admitted}
use wirestead.Diagnostics.Accounting.Balance.{
  IsBalanced, IsBalanced_along, count_admitted-IsBalanced,
}
use wirestead.Diagnostics.Ledger.{Entry, Ledger}
use wirestead.Diagnostics.Ledger.Find.{IsLedger}
use wirestead.Diagnostics.Ledger.Weight.{weight}
use wirestead.Diagnostics.Ledger.Conserve.{
  member, totals_of, epoch_of, share, Measure, measure, oversized, IsCountedIn, IsCounted, IsKept,
}
use wirestead.Diagnostics.Ledger.Tally.{
  IsTallied, counted-IsTallied, tallied-IsCounted, kept-IsTallied,
}

-- A change that moves entries only.
pub record IsMoved (l m : Ledger) : Type 0 where
  pub valid : IsLedger m
  pub kept : IsKept l m
  pub big : weight oversized m ≡ weight oversized l
  pub weighs :
      (epoch : ℕ) (c : Option ℕ) (u : Measure)
      → weight (share epoch c u) m ≡ weight (share epoch c u) l

moved-IsTallied :
    (l m : Ledger) → IsMoved l m → IsTallied (λ w. weight w l) l → IsTallied (λ w. weight w m) l
moved-IsTallied l m moved h = record {
  small = moved.big ∙ h.small;
  current = λ c in_epoch.
      IsBalanced_along _ _ _ _ _ _ (moved.weighs l.epoch c Measure.in_requests)
        (moved.weighs l.epoch c Measure.in_bytes) refl (h.current c in_epoch);
  fresh = λ c out_epoch u. moved.weighs l.epoch c u ∙ h.fresh c out_epoch u;
  past = h.past;
  later = λ ep c u lt. moved.weighs ep c u ∙ h.later ep c u lt;
}

pub moved-IsCounted : (l m : Ledger) → IsCounted l → IsMoved l m → IsCounted m
moved-IsCounted l m h moved =
    tallied-IsCounted m moved.valid
      (kept-IsTallied l m _ moved.kept (moved-IsTallied l m moved (counted-IsTallied l h)))

-- A change that puts an entry in and counts it.
pub record IsPut (l m : Ledger) (e : Entry) (apply : SendAccounting → SendAccounting) : Type 0 where
  pub valid : IsLedger m
  pub epoch : m.epoch ≡ l.epoch
  pub epochs : (c : Option ℕ) → epoch_of m c ≡ epoch_of l c
  pub totals :
      (c : Option ℕ)
      → totals_of m c
        ≡ (if e.epoch == l.epoch && member c e then apply (totals_of l c) else totals_of l c)
  pub weighs : (w : Entry → ℕ) → weight w m ≡ weight w l + w e

raised :
    (b : Bool) (bytes requests all more greater : ℕ) (t : SendAccounting)
    → more ≡ requests + (if b then 1 else 0)
    → greater ≡ all + (if b then bytes else 0)
    → IsBalanced requests all t
    → IsBalanced more greater (if b then count_admitted bytes t else t)
raised true bytes requests all more greater t r a h =
    IsBalanced_along (1 + requests) more (bytes + all) greater _ _ (omega (arith, r))
      (omega (arith, a)) refl (count_admitted-IsBalanced requests all bytes t h)
raised false bytes requests all more greater t r a h =
    IsBalanced_along requests more all greater t t (omega (arith, r)) (omega (arith, a)) refl h

pub put-IsCounted :
    (l m : Ledger) (e : Entry)
    → IsCounted l
    → IsPut l m e (count_admitted e.bytes)
    → e.bytes < size_mod
    → e.epoch ≡ l.epoch
    → ((c : Option ℕ) → member c e ≡ true → epoch_of l c ≡ l.epoch)
    → IsCounted m
put-IsCounted l m e h put small this renewed =
    let now = put.epoch in
    let plus_none : (ep : ℕ) (c : Option ℕ) (u : Measure)
        → weight (share ep c u) l ≡ 0
        → (e.epoch == ep && member c e) ≡ false
        → weight (share ep c u) l + share ep c u e ≡ 0 =
      λ ep c u z out. omega (arith, z, ap (λ (b : Bool). if b then measure u e else 0) out) in
    record {
      valid = put.valid;
      small = put.weighs oversized ∙ ground (arith, h.small);
      current = λ c in_epoch.
          subst (λ (ep : ℕ). IsCountedIn ep m c (totals_of m c)) (sym now)
            (subst (λ t. IsCountedIn l.epoch m c t) (sym (put.totals c))
              (raised (e.epoch == l.epoch && member c e) e.bytes _ _ _ _ (totals_of l c)
                (put.weighs (share l.epoch c Measure.in_requests))
                (put.weighs (share l.epoch c Measure.in_bytes))
                (h.current c (sym (put.epochs c) ∙ in_epoch ∙ now))));
      fresh = λ c out_epoch u.
          subst (λ (ep : ℕ). weight (share ep c u) m ≡ 0) (sym now)
            (put.weighs (share l.epoch c u)
              ∙ plus_none l.epoch c u (h.fresh c (λ eq. out_epoch (put.epochs c ∙ eq ∙ sym now)) u)
                  (elim (Bool-cases (member c e)) [
                    | inl mine ↦ absurd (out_epoch (put.epochs c ∙ renewed c mine ∙ sym now))
                    | inr other ↦ ground (arith, other)
                  ]));
      past = λ c. omega (arith, put.epochs c, now, h.past c);
      later = λ ep c u lt.
          put.weighs (share ep c u)
          ∙ plus_none ep c u (h.later ep c u (omega (arith, lt, now))) (ground arith);
    }
