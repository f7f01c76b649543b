-- ===== src/Diagnostics/Ledger/End.antt =====
-- The end of the contributor discards every request, and nothing is outstanding behind it.
pub mod Rounds
use wirestead.Prelude.{
  ℕ, zero, suc, ◌+◌, ◌-◌, ◌*◌, ◌%◌, ◌≤◌, ◌<◌, ◌≡◌, ◌≢◌, refl, sym, ap, subst, ◌∙◌, Bool, true,
  false, not, ◌&&◌, List, [], ◌∷◌, Option, none, some, ◌==◌, ltb, leb, if◌then◌else◌, arith,
  Bool-cases, Option-cases, ◌⊎◌, inl, inr, lt→ltb, ltb→lt, ltb→le, size_mod, add_size,
  add_size-small, min,
}
use wirestead.Diagnostics.Accounting.{
  SendAccounting, Cause, no_sends, count_admitted, count_completed, count_rolled_back,
  count_terminated,
}
use wirestead.Diagnostics.Accounting.Balance.{IsBalanced, IsBalanced_along}
use wirestead.Diagnostics.Ledger.{
  Group, Entry, Ledger, find, erase, update, apply_group, renew_group, ensure_room, append_entry,
  admit, admitted, same_group, snapshot, snapshot_group, compact, compact_rounds, set_slot, retired,
  erase_sparse, slot,
}
use wirestead.Diagnostics.Ledger.Find.{IsLedger, step}
use wirestead.Diagnostics.Ledger.Refine.{IsSame, counters-IsSame, IsErased, erase-IsErased}
use wirestead.Diagnostics.Ledger.Weight.{weight, erase-weight, counters-weight}
use wirestead.Diagnostics.Ledger.Conserve.{
  member, totals_of, epoch_of, share, Measure, oversized, IsCountedIn, IsCounted, Lowers,
  erase-IsKept, update-totals, update-epoch, update-ledger_epoch, update-weight, update-IsSame,
  update_lem, compact_rounds-IsKept, update-slot, update-count, update-base, update-sparse, IsKept,
}
use wirestead.Diagnostics.Accounting.Balance.{count_terminated-IsBalanced}
use wirestead.Diagnostics.Ledger.{terminate, slot_index, find_sparse}
use wirestead.Diagnostics.Ledger.Ring.{IsRing, ring_sum, ring_sum-ext, live_weight, slot-set_slot}
use wirestead.Diagnostics.Ledger.Sparse.{AreKeys, sparse_sum}
use wirestead.Diagnostics.Ledger.Weight.{compact_rounds-weight}
use wirestead.Diagnostics.Ledger.Refine.{compact_rounds-IsSame}
use wirestead.Diagnostics.Ledger.Find.{sparse-IsLedger, set_slot-IsLedger}
use wirestead.Diagnostics.Ledger.Tally.{
  IsTallied, counted-IsTallied, tallied-IsCounted, IsTallied-ext, IsLowered, taken-IsTallied,
  update-IsLowered, kept_IsLowered, kept-IsTallied,
}
use wirestead.Diagnostics.Ledger.Put.{IsMoved, moved-IsCounted}
use wirestead.Diagnostics.Ledger.{end, end_sparse, end_ring, no_entry}
use wirestead.Diagnostics.Ledger.Waiting.Sparse.{terminate-Lowers, terminate-IsLowered}
use wirestead.Diagnostics.Ledger.Waiting.Ring.{ring_sum-suc}
use wirestead.Diagnostics.Ledger.End.Rounds.{
  IsShape, end_sparse-IsTallied, end_sparse-IsShape, end_sparse-slot, end_ring-IsShape,
  end_ring-IsTallied,
}

pub ring_sum_zero : (w : Entry → ℕ) (l : Ledger) (i : ℕ) → ring_sum w l i 0 ≡ 0
unfolding ring_sum
ring_sum_zero w l i = refl

pub end-IsCounted : (l : Ledger) (cause : Cause) → IsCounted l → IsCounted (end l cause)
unfolding end
end-IsCounted l cause h =
    let a = end_sparse l cause l.sparse in
    let a_shape = end_sparse-IsShape l cause l.sparse in
    let b = record a { sparse = [] } in
    let m = end_ring b cause 0 l.count in
    let shape = end_ring-IsShape b cause 0 l.count in
    let k = record m { head = 0; count = 0; base = add_size m.next_id 1 } in
    let kept_b : IsKept a b = record {
      epoch = refl;
      next_id = refl;
      totals = refl;
      groups = refl;
    } in
    let kept : IsKept m k = record { epoch = refl; next_id = refl; totals = refl; groups = refl } in
    let next_id : m.next_id ≡ l.next_id = shape.next_id ∙ a_shape.next_id in
    let next : add_size m.next_id 1 ≡ m.next_id + 1 =
      add_size-small m.next_id 1 (omega (arith, next_id, h.valid.bounded)) in
    let ring = h.valid.ring in
    let valid : IsLedger k = record {
      ring = record { fits = omega arith; inside = λ some. some };
      numbered = ap (λ (n : ℕ). n + 0) next ∙ omega arith;
      bounded = omega (arith, next_id, h.valid.bounded);
      keys = subst (AreKeys (add_size m.next_id 1)) (sym shape.sparse) tt;
    } in
    let sums : (w : Entry → ℕ) → ring_sum w b 0 l.count ≡ ring_sum w l 0 l.count = λ w.
      ring_sum-ext w b l 0 0 l.count
        (λ j lt. unfold slot slot_index in end_sparse-slot l cause l.sparse (0 + j)) in
    let first =
      end_sparse-IsTallied l cause l.sparse (λ w. ring_sum w l 0 l.count)
        (IsTallied-ext l _ _ (λ w. omega arith) (counted-IsTallied l h)) in
    let second =
      kept-IsTallied a b _ kept_b
        (IsTallied-ext a _ (λ w. 0 + ring_sum w b 0 l.count) (λ w. omega (arith, sums w)) first) in
    let third =
      end_ring-IsTallied b cause 0 l.count (λ w. 0)
        (λ some. omega (
          arith,
          a_shape.head,
          a_shape.capacity,
          ring.inside (omega (arith, a_shape.capacity, some)),
        ))
        (omega (arith, a_shape.capacity, ring.fits)) second in
    tallied-IsCounted k valid (
      kept-IsTallied m k _ kept (
        IsTallied-ext m _ _
          (λ w. ap (sparse_sum w) (sym shape.sparse) ∙ omega (arith, ring_sum_zero w k 0)) third))

-- Nothing is left.
pub end-weight : (l : Ledger) (cause : Cause) (w : Entry → ℕ) → weight w (end l cause) ≡ 0
unfolding end
end-weight l cause w =
    let b = record (end_sparse l cause l.sparse) { sparse = [] } in
    let m = end_ring b cause 0 l.count in
    ap (λ (x : List (ℕ × Entry)). sparse_sum w x + ring_sum w (end l cause) 0 0)
      (end_ring-IsShape b cause 0 l.count).sparse
    ∙ omega (arith, ring_sum_zero w (end l cause) 0)
