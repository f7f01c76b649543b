-- ===== src/Diagnostics/Ledger/Waiting.antt =====
-- Discarding the waiting requests of a group keeps the accounts.
pub mod Sparse
pub mod Ring
use wirestead.Prelude.{
  ℕ, zero, suc, ◌+◌, ◌-◌, ◌*◌, ◌%◌, ◌≤◌, ◌<◌, ◌≡◌, ◌≢◌, refl, sym, ap, subst, ◌∙◌, Bool, true,
  false, not, ◌&&◌, List, [], ◌∷◌, Option, none, some, ◌==◌, ltb, leb, if◌then◌else◌, arith,
  Bool-cases, Option-cases, ◌⊎◌, inl, inr, lt→ltb, ltb→lt, ltb→le, size_mod, add_size,
  add_size-small, min,
}
use wirestead.Diagnostics.Accounting.{
  SendAccounting, Cause, no_sends, count_admitted, count_completed, count_rolled_back,
  count_terminated,
}
use wirestead.Diagnostics.Accounting.Balance.{IsBalanced, IsBalanced_along}
use wirestead.Diagnostics.Ledger.{
  Group, Entry, Ledger, find, erase, update, apply_group, renew_group, ensure_room, append_entry,
  admit, admitted, same_group, snapshot, snapshot_group, compact, compact_rounds, set_slot, retired,
  erase_sparse, slot,
}
use wirestead.Diagnostics.Ledger.Find.{IsLedger, step}
use wirestead.Diagnostics.Ledger.Refine.{IsSame, counters-IsSame, IsErased, erase-IsErased}
use wirestead.Diagnostics.Ledger.Weight.{weight, erase-weight, counters-weight}
use wirestead.Diagnostics.Ledger.Conserve.{
  member, totals_of, epoch_of, share, Measure, oversized, IsCountedIn, IsCounted, Lowers,
  erase-IsKept, update-totals, update-epoch, update-ledger_epoch, update-weight, update-IsSame,
  compact_rounds-IsKept, update-slot, update-count, update-base, update-sparse, IsKept,
}
use wirestead.Diagnostics.Accounting.Balance.{count_terminated-IsBalanced}
use wirestead.Diagnostics.Ledger.{
  terminate, is_waiting, discard_sparse, discard_ring, discard_waiting, slot_index, find_sparse,
}
use wirestead.Diagnostics.Ledger.Ring.{IsRing, ring_sum, ring_sum-ext, live_weight, slot-set_slot}
use wirestead.Diagnostics.Ledger.Sparse.{AreKeys, sparse_sum}
use wirestead.Diagnostics.Ledger.Weight.{compact_rounds-weight}
use wirestead.Diagnostics.Ledger.Refine.{compact_rounds-IsSame}
use wirestead.Diagnostics.Ledger.Find.{sparse-IsLedger, set_slot-IsLedger}
use wirestead.Diagnostics.Ledger.Tally.{
  IsTallied, counted-IsTallied, tallied-IsCounted, IsTallied-ext, IsLowered, taken-IsTallied,
  update-IsLowered, kept_IsLowered, kept-IsTallied,
}
use wirestead.Diagnostics.Ledger.Put.{IsMoved, moved-IsCounted}
use wirestead.Diagnostics.Ledger.Waiting.Sparse.{
  terminate-Lowers, terminate-IsLowered, discard_sparse-IsTallied, discard_sparse-AreKeys,
  discard_sparse-IsRingKept, IsRingKept,
}
use wirestead.Diagnostics.Ledger.Waiting.Ring.{
  discard_ring-IsTallied, discard_ring-IsWindowKept, IsWindowKept, WithRing, ring_sum-suc,
}

compact-IsMoved : (l : Ledger) → IsLedger l → IsMoved l (compact l)
unfolding compact
compact-IsMoved l h = record {
  valid = (compact_rounds-IsSame l.count l h).valid;
  kept = compact_rounds-IsKept l.count l;
  big = compact_rounds-weight oversized l.count l h;
  weighs = λ ep c u. compact_rounds-weight (share ep c u) l.count l h;
}

pub discard_waiting-IsCounted :
    (l : Ledger) (group : Option ℕ) (cause : Cause)
    → IsCounted l
    → IsCounted (discard_waiting l group cause)
unfolding discard_waiting
discard_waiting-IsCounted l none cause h = h
discard_waiting-IsCounted l (some g) cause h =
    let r = discard_sparse l g cause l.sparse in
    let ring = discard_sparse-IsRingKept l g cause l.sparse h.valid in
    let m = record r.0 { sparse = r.1 } in
    let keys : AreKeys r.0.base r.1 =
      subst (λ (b : ℕ). AreKeys b r.1) (sym ring.base)
        (discard_sparse-AreKeys l g cause l.base l.sparse h.valid.keys) in
    let valid : IsLedger m = sparse-IsLedger r.0 r.1 ring.valid keys in
    let kept : IsKept r.0 m = record {
      epoch = refl;
      next_id = refl;
      totals = refl;
      groups = refl;
    } in
    let sums : (w : Entry → ℕ) → ring_sum w m 0 l.count ≡ ring_sum w l 0 l.count =
      λ w. ring_sum-ext w m l 0 0 l.count (λ j lt. unfold slot slot_index in ring.slots (0 + j)) in
    let first =
      discard_sparse-IsTallied l g cause l.sparse (λ w. ring_sum w l 0 l.count)
        (IsTallied-ext l _ _ (λ w. omega arith) (counted-IsTallied l h)) in
    let then_ring : WithRing (λ w. sparse_sum w r.1) 0 l.count m =
      IsTallied-ext m _ _ (λ w. omega (arith, sums w)) (kept-IsTallied r.0 m _ kept first) in
    let last =
      discard_ring-IsTallied m g cause 0 l.count (λ w. sparse_sum w r.1) valid
        (omega (arith, ring.count)) then_ring in
    let d = discard_ring m g cause 0 l.count in
    let window = discard_ring-IsWindowKept m g cause 0 l.count valid in
    let counted : IsCounted d = tallied-IsCounted d window.valid (
      IsTallied-ext d _ _
        (λ w.
          ap (λ (x : List (ℕ × Entry)). sparse_sum w x + ring_sum w d 0 l.count) (sym window.sparse)
          ∙ ap (λ (n : ℕ). sparse_sum w d.sparse + ring_sum w d 0 n)
              (sym (window.count ∙ ring.count)))
        last) in
    moved-IsCounted d (compact d) counted (compact-IsMoved d window.valid)
