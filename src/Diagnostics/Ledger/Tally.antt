-- ===== src/Diagnostics/Ledger/Tally.antt =====
-- The accounts over any sum of shares: the loops of the ledger hold it in parts.
use wirestead.Prelude.{
  ℕ, ◌+◌, ◌≤◌, ◌<◌, ◌≡◌, ◌≢◌, refl, sym, ap, subst, ◌∙◌, Bool, true, false, ◌&&◌, Option, none,
  some, ◌==◌, if◌then◌else◌, arith, size_mod,
}
use wirestead.Diagnostics.Accounting.{SendAccounting}
use wirestead.Diagnostics.Accounting.Balance.{IsBalanced, IsBalanced_along}
use wirestead.Diagnostics.Ledger.{Group, Entry, Ledger, update}
use wirestead.Diagnostics.Ledger.Find.{IsLedger}
use wirestead.Diagnostics.Ledger.Weight.{weight}
use wirestead.Diagnostics.Ledger.Conserve.{
  member, totals_of, epoch_of, share, Measure, oversized, IsCounted, Lowers, update-totals,
  update-epoch, update-ledger_epoch, IsKept,
}

lowered :
    (b : Bool) (requests all bytes fewer less : ℕ) (apply : SendAccounting → SendAccounting)
    (t : SendAccounting)
    → fewer + (if b then 1 else 0) ≡ requests
    → less + (if b then bytes else 0) ≡ all
    → bytes < size_mod
    → Lowers bytes apply
    → IsBalanced requests all t
    → IsBalanced fewer less (if b then apply t else t)
lowered true requests all bytes fewer less apply t r a small lowers h = lowers small fewer less t (
    IsBalanced_along requests (1 + fewer) all (bytes + less) t t (omega (arith, r))
      (omega (arith, a)) refl h)
lowered false requests all bytes fewer less apply t r a small lowers h =
    IsBalanced_along requests fewer all less t t (omega (arith, r)) (omega (arith, a)) refl h

-- As IsCounted, with the sum in place of the entries.
pub record IsTallied (sum : (Entry → ℕ) → ℕ) (l : Ledger) : Type 0 where
  pub small : sum oversized ≡ 0
  pub current :
      (c : Option ℕ)
      → epoch_of l c ≡ l.epoch
      → IsBalanced
          (sum (share l.epoch c Measure.in_requests))
          (sum (share l.epoch c Measure.in_bytes))
          (totals_of l c)
  pub fresh : (c : Option ℕ) → epoch_of l c ≢ l.epoch → (u : Measure) → sum (share l.epoch c u) ≡ 0
  pub past : (c : Option ℕ) → epoch_of l c ≤ l.epoch
  pub later : (epoch : ℕ) (c : Option ℕ) (u : Measure) → l.epoch < epoch → sum (share epoch c u) ≡ 0

pub counted-IsTallied : (l : Ledger) → IsCounted l → IsTallied (λ w. weight w l) l
counted-IsTallied l h = record {
  small = h.small;
  current = h.current;
  fresh = h.fresh;
  past = h.past;
  later = h.later;
}

pub tallied-IsCounted : (l : Ledger) → IsLedger l → IsTallied (λ w. weight w l) l → IsCounted l
tallied-IsCounted l valid h = record {
  valid = valid;
  small = h.small;
  current = h.current;
  fresh = h.fresh;
  past = h.past;
  later = h.later;
}

pub IsTallied-ext :
    (l : Ledger) (sum other : (Entry → ℕ) → ℕ)
    → ((w : Entry → ℕ) → sum w ≡ other w)
    → IsTallied sum l
    → IsTallied other l
IsTallied-ext l sum other same h =
    let path : sum ≡ other = λ i w. same w i in subst (λ s. IsTallied s l) path h

pub kept-totals_of : (l m : Ledger) (c : Option ℕ) → IsKept l m → totals_of m c ≡ totals_of l c
kept-totals_of l m none k = k.totals
kept-totals_of l m (some g) k = ap (λ (groups : ℕ → Group). (groups g).totals) k.groups

pub kept-epoch_of : (l m : Ledger) (c : Option ℕ) → IsKept l m → epoch_of m c ≡ epoch_of l c
kept-epoch_of l m none k = k.epoch
kept-epoch_of l m (some g) k = ap (λ (groups : ℕ → Group). (groups g).epoch) k.groups

pub kept-IsTallied :
    (l m : Ledger) (sum : (Entry → ℕ) → ℕ) → IsKept l m → IsTallied sum l → IsTallied sum m
kept-IsTallied l m sum k h =
    let now = k.epoch in
    record {
      small = h.small;
      current = λ c in_epoch.
          subst
            (λ (ep : ℕ).
              IsBalanced (sum (share ep c Measure.in_requests)) (sum (share ep c Measure.in_bytes))
                (totals_of m c))
            (sym now)
            (IsBalanced_along _ _ _ _ _ _ refl refl (kept-totals_of l m c k)
              (h.current c (sym (kept-epoch_of l m c k) ∙ in_epoch ∙ now)));
      fresh = λ c out_epoch u.
          subst (λ (ep : ℕ). sum (share ep c u) ≡ 0) (sym now)
            (h.fresh c (λ eq. out_epoch (kept-epoch_of l m c k ∙ eq ∙ sym now)) u);
      past = λ c. omega (arith, kept-epoch_of l m c k, now, h.past c);
      later = λ ep c u lt. h.later ep c u (omega (arith, lt, now));
    }

-- What a change does to the counters when it counts an entry as gone.
pub record IsLowered (l m : Ledger) (e : Entry) (apply : SendAccounting → SendAccounting)
    : Type 0 where
  pub epoch : m.epoch ≡ l.epoch
  pub epochs : (c : Option ℕ) → epoch_of m c ≡ epoch_of l c
  pub totals :
      (c : Option ℕ)
      → totals_of m c
        ≡ (if e.epoch == l.epoch && member c e then apply (totals_of l c) else totals_of l c)

pub taken-IsTallied :
    (l m : Ledger) (e : Entry) (apply : SendAccounting → SendAccounting)
    (sum rest : (Entry → ℕ) → ℕ)
    → IsTallied sum l
    → IsLowered l m e apply
    → ((w : Entry → ℕ) → rest w + w e ≡ sum w)
    → Lowers e.bytes apply
    → IsTallied rest m
taken-IsTallied l m e apply sum rest h lowered_by weighs lowers =
    let gone : (w : Entry → ℕ) → sum w ≡ 0 → rest w ≡ 0 = λ w z. omega (arith, weighs w, z) in
    let small : e.bytes < size_mod = ground (arith, h.small, weighs oversized) in
    let now = lowered_by.epoch in
    record {
      small = gone oversized h.small;
      current = λ c in_epoch.
          subst
            (λ (ep : ℕ).
              IsBalanced (rest (share ep c Measure.in_requests))
                (rest (share ep c Measure.in_bytes)) (totals_of m c))
            (sym now)
            (IsBalanced_along _ _ _ _ _ _ refl refl (lowered_by.totals c) (
              lowered (e.epoch == l.epoch && member c e) _ _ e.bytes _ _ apply (totals_of l c)
                (weighs (share l.epoch c Measure.in_requests))
                (weighs (share l.epoch c Measure.in_bytes)) small lowers
                (h.current c (sym (lowered_by.epochs c) ∙ in_epoch ∙ now))));
      fresh = λ c out_epoch u.
          subst (λ (ep : ℕ). rest (share ep c u) ≡ 0) (sym now)
            (gone (share l.epoch c u)
              (h.fresh c (λ eq. out_epoch (lowered_by.epochs c ∙ eq ∙ sym now)) u));
      past = λ c. omega (arith, lowered_by.epochs c, now, h.past c);
      later = λ ep c u lt. gone (share ep c u) (h.later ep c u (omega (arith, lt, now)));
    }

pub update-IsLowered :
    (l : Ledger) (e : Entry) (apply : SendAccounting → SendAccounting)
    → IsLowered l (update l e apply) e apply
update-IsLowered l e apply = record {
  epoch = update-ledger_epoch l e apply;
  epochs = update-epoch l e apply;
  totals = update-totals l e apply;
}

pub kept_IsLowered :
    (l m k : Ledger) (e : Entry) (apply : SendAccounting → SendAccounting)
    → IsLowered l m e apply
    → IsKept m k
    → IsLowered l k e apply
kept_IsLowered l m k e apply h kept = record {
  epoch = kept.epoch ∙ h.epoch;
  epochs = λ c. kept-epoch_of m k c kept ∙ h.epochs c;
  totals = λ c. kept-totals_of m k c kept ∙ h.totals c;
}
