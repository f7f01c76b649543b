-- ===== src/Diagnostics/Ledger/Reach.antt =====
-- What the ledger promises: after any operations, its totals and those of each group account for
-- each request that was accepted since the last reset.
use wirestead.Prelude.{
  ℕ, ◌+◌, ◌<◌, ◌%◌, ◌≡◌, ◌≢◌, refl, sym, List, Bool-cases, inl, inr, Option, none, some, ◌==◌,
  arith, size_mod,
}
use wirestead.Diagnostics.Accounting.{Cause, no_sends}
use wirestead.Diagnostics.Accounting.Balance.{
  ended_requests, ended_bytes, IsBalanced, IsBalanced_along, no_sends-IsBalanced,
}
use wirestead.Diagnostics.Ledger.{
  Entry, Ledger, new_ledger, admit, begin_locked, begin_batch, complete_locked, complete_batch,
  discard, rollback, discard_waiting, end, reset, snapshot, snapshot_group,
}
use wirestead.Diagnostics.Ledger.Conserve.{
  IsCounted, share, Measure, oversized, totals_of, epoch_of,
}
use wirestead.Diagnostics.Ledger.Weight.{weight}
use wirestead.Diagnostics.Ledger.Admit.{admit-IsCounted}
use wirestead.Diagnostics.Ledger.Operations.{
  begin_locked-IsCounted, begin_batch-IsCounted, complete_locked-IsCounted,
  complete_batch-IsCounted, discard-IsCounted, rollback-IsCounted, reset-IsCounted,
}
use wirestead.Diagnostics.Ledger.Waiting.{discard_waiting-IsCounted}
use wirestead.Diagnostics.Ledger.End.{end-IsCounted, end-weight, ring_sum_zero}

-- The numbers of requests and the epochs are `uint64_t` and do not wrap around.
pub data Step : Ledger → Ledger → Type 0 where
  admits :
      {l : Ledger} (bytes : ℕ) (group : Option ℕ)
      → bytes < size_mod
      → l.next_id + 2 < size_mod
      → Step l (admit l bytes group).0
  begins : {l : Ledger} (id : ℕ) → Step l (begin_locked l id).0
  begins_batch : {l : Ledger} (batch : List ℕ) → Step l (begin_batch l batch).0
  completes : {l : Ledger} (id confirmed_bytes : ℕ) → Step l (complete_locked l id confirmed_bytes)
  completes_batch :
      {l : Ledger} (batch : List (ℕ × ℕ)) (confirmed_bytes : ℕ)
      → Step l (complete_batch l batch confirmed_bytes)
  discards : {l : Ledger} (id : ℕ) (cause : Cause) → Step l (discard l id cause)
  rolls_back : {l : Ledger} (id : ℕ) → Step l (rollback l id)
  discards_waiting :
      {l : Ledger} (group : Option ℕ) (cause : Cause) → Step l (discard_waiting l group cause)
  ends : {l : Ledger} (cause : Cause) → Step l (end l cause)
  resets : {l : Ledger} → l.epoch + 1 < size_mod → Step l (reset l)

pub data Reach : Ledger → Type 0 where
  starts : Reach new_ledger
  steps : {l m : Ledger} → Reach l → Step l m → Reach m

step-IsCounted : {l m : Ledger} → Step l m → IsCounted l → IsCounted m
step-IsCounted (Step.admits {l} bytes group small bound) h =
    admit-IsCounted l bytes group h small bound
step-IsCounted (Step.begins {l} id) h = begin_locked-IsCounted l id h
step-IsCounted (Step.begins_batch {l} batch) h = begin_batch-IsCounted l batch h
step-IsCounted (Step.completes {l} id confirmed) h = complete_locked-IsCounted l id confirmed h
step-IsCounted (Step.completes_batch {l} batch confirmed) h =
    complete_batch-IsCounted l batch confirmed h
step-IsCounted (Step.discards {l} id cause) h = discard-IsCounted l id cause h
step-IsCounted (Step.rolls_back {l} id) h = rollback-IsCounted l id h
step-IsCounted (Step.discards_waiting {l} group cause) h = discard_waiting-IsCounted l group cause h
step-IsCounted (Step.ends {l} cause) h = end-IsCounted l cause h
step-IsCounted (Step.resets {l} bound) h = reset-IsCounted l bound h

new_ledger-weight : (w : Entry → ℕ) → weight w new_ledger ≡ 0
new_ledger-weight w = omega (arith, ring_sum_zero w new_ledger 0)

new_ledger-totals : (c : Option ℕ) → totals_of new_ledger c ≡ no_sends
new_ledger-totals none = refl
new_ledger-totals (some g) = refl

new_ledger-epoch : (c : Option ℕ) → epoch_of new_ledger c ≡ 0
new_ledger-epoch none = refl
new_ledger-epoch (some g) = refl

new_ledger-IsCounted : IsCounted new_ledger
new_ledger-IsCounted = record {
  valid = record {
    ring = record { fits = omega arith; inside = λ some. some };
    numbered = omega arith;
    bounded = omega arith;
    keys = tt;
  };
  small = new_ledger-weight oversized;
  current = λ c in_epoch.
      IsBalanced_along 0 _ 0 _ no_sends _ (new_ledger-weight (share 0 c Measure.in_requests))
        (new_ledger-weight (share 0 c Measure.in_bytes)) (new_ledger-totals c) no_sends-IsBalanced;
  fresh = λ c out_epoch u. new_ledger-weight (share 0 c u);
  past = λ c. omega (arith, new_ledger-epoch c);
  later = λ ep c u lt. new_ledger-weight (share ep c u);
}

pub Reach-IsCounted : {l : Ledger} → Reach l → IsCounted l
Reach-IsCounted Reach.starts = new_ledger-IsCounted
Reach-IsCounted (Reach.steps r s) = step-IsCounted s (Reach-IsCounted r)

-- The snapshot of the ledger.
pub Reach-snapshot :
    (l : Ledger)
    → Reach l
    → IsBalanced
        (weight (share l.epoch none Measure.in_requests) l)
        (weight (share l.epoch none Measure.in_bytes) l)
        (snapshot l)
unfolding snapshot
Reach-snapshot l r = (Reach-IsCounted r).current none refl

pub Reach-snapshot_group :
    (l : Ledger) (g : ℕ)
    → Reach l
    → IsBalanced
        (weight (share l.epoch (some g) Measure.in_requests) l)
        (weight (share l.epoch (some g) Measure.in_bytes) l)
        (snapshot_group l (some g))
unfolding snapshot_group
Reach-snapshot_group l g r =
    let h = Reach-IsCounted r in
    elim (Bool-cases ((l.groups g).epoch == l.epoch)) [
      | inl now ↦
          let eq : (l.groups g).epoch ≡ l.epoch = ground arith in rw now (h.current (some g) eq)
      | inr old ↦
          let apart : (l.groups g).epoch ≢ l.epoch = ground arith in
          rw old (
            IsBalanced_along 0 _ 0 _ _ _ (h.fresh (some g) apart Measure.in_requests)
              (h.fresh (some g) apart Measure.in_bytes) refl no_sends-IsBalanced)
    ]

-- Behind an end no request is outstanding: each that was accepted was written or lost.
pub end-outstanding :
    (l : Ledger) (cause : Cause)
    → Reach l
    → ((snapshot (end l cause)).outstanding.requests ≡ 0)
      × ((snapshot (end l cause)).outstanding.bytes ≡ 0)
      × ((snapshot (end l cause)).accepted.requests
          ≡ ended_requests (snapshot (end l cause)) % size_mod)
      × ((snapshot (end l cause)).accepted.bytes ≡ ended_bytes (snapshot (end l cause)) % size_mod)
end-outstanding l cause r =
    let m = end l cause in
    let counted = Reach-snapshot m (Reach.steps r (Step.ends cause)) in
    let none_left : IsBalanced 0 0 (snapshot m) =
      IsBalanced_along _ 0 _ 0 _ _
        (sym (end-weight l cause (share m.epoch none Measure.in_requests)))
        (sym (end-weight l cause (share m.epoch none Measure.in_bytes))) refl counted in
    omega (arith, none_left)
