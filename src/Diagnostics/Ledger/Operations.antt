-- ===== src/Diagnostics/Ledger/Operations.antt =====
-- Every operation of the ledger keeps the accounts: those on one request and on a batch, and the
-- reset.
use wirestead.Prelude.{
  ℕ, ◌+◌, ◌-◌, ◌≤◌, ◌<◌, ◌≡◌, refl, ◌∙◌, true, false, List, [], ◌∷◌, Option, none, some, ltb, arith,
  Bool-cases, Option-cases, ◌⊎◌, inl, inr, size_mod, add_size, add_size-small, min,
}
use wirestead.Diagnostics.Accounting.{Cause, no_sends}
use wirestead.Diagnostics.Accounting.Balance.{IsBalanced_along, no_sends-IsBalanced}
use wirestead.Diagnostics.Ledger.{Entry, Ledger, find, set_slot}
use wirestead.Diagnostics.Ledger.Refine.{counters-IsSame}
use wirestead.Diagnostics.Ledger.Weight.{weight, counters-weight}
use wirestead.Diagnostics.Ledger.Conserve.{
  totals_of, epoch_of, share, Measure, oversized, IsCounted, IsKept,
}
use wirestead.Diagnostics.Ledger.Put.{moved-IsCounted}
use wirestead.Diagnostics.Accounting.Balance.{
  count_completed-IsBalanced, count_rolled_back-IsBalanced, count_terminated-IsBalanced,
}
use wirestead.Diagnostics.Ledger.{
  begin_locked, begin_all, begin_batch, complete_locked, complete_batch, terminate, discard,
  rollback, reset, all_found, write,
}
use wirestead.Diagnostics.Ledger.Take.{erase-IsCounted}
use wirestead.Diagnostics.Ledger.Refine.{write-IsWritten}
use wirestead.Diagnostics.Ledger.Weight.{write-weight}
use wirestead.Diagnostics.Ledger.Find.{find-ring}

write-IsKept : (l : Ledger) (id : ℕ) (e : Entry) → IsKept l (write l id e)
unfolding write set_slot
write-IsKept l id e = elim (Bool-cases (ltb id l.base)) [
  | inl low ↦ rw low (record { epoch = refl; next_id = refl; totals = refl; groups = refl })
  | inr high ↦ rw high (record { epoch = refl; next_id = refl; totals = refl; groups = refl })
]

share_active :
    (epoch : ℕ) (c : Option ℕ) (u : Measure) (e : Entry)
    → share epoch c u (record e { active = true }) ≡ share epoch c u e
share_active epoch none Measure.in_requests e = refl
share_active epoch none Measure.in_bytes e = refl
share_active epoch (some g) Measure.in_requests e = refl
share_active epoch (some g) Measure.in_bytes e = refl

pub begin_locked-IsCounted : (l : Ledger) (id : ℕ) → IsCounted l → IsCounted (begin_locked l id).0
unfolding begin_locked
begin_locked-IsCounted l id h = elim (Option-cases (find l id)) [
  | inl miss ↦ rw (miss, begin_locked) h
  | inr (e, found) ↦
      let active = record e { active = true } in
      let live : ltb id l.base ≡ false → e.live ≡ true = λ high. (find-ring l id e found high).2 in
      rw (found, begin_locked)
        (moved-IsCounted l (write l id active) h (record {
          valid = (write-IsWritten l id e active h.valid found live).valid;
          kept = write-IsKept l id active;
          big = omega (arith, write-weight oversized l id e active h.valid found live);
          weighs = λ ep c u. omega (
            arith,
            write-weight (share ep c u) l id e active h.valid found live,
            share_active ep c u e,
          );
        }))
]

pub complete_locked-IsCounted :
    (l : Ledger) (id confirmed_bytes : ℕ)
    → IsCounted l
    → IsCounted (complete_locked l id confirmed_bytes)
unfolding complete_locked
complete_locked-IsCounted l id confirmed_bytes h = elim (Option-cases (find l id)) [
  | inl miss ↦ rw (miss, complete_locked) h
  | inr (e, found) ↦
      rw (found, complete_locked)
        (erase-IsCounted l id e _ h found
          (λ small r a t. count_completed-IsBalanced r a confirmed_bytes e.bytes t small))
]

pub complete_batch-IsCounted :
    (l : Ledger) (batch : List (ℕ × ℕ)) (confirmed_bytes : ℕ)
    → IsCounted l
    → IsCounted (complete_batch l batch confirmed_bytes)
unfolding complete_batch
complete_batch-IsCounted l [] confirmed_bytes h = h
complete_batch-IsCounted l ((id, size) ∷ batch) confirmed_bytes h =
    let confirmed = min confirmed_bytes size in
    complete_batch-IsCounted (complete_locked l id confirmed) batch (confirmed_bytes - confirmed)
      (complete_locked-IsCounted l id confirmed h)

begin_all-IsCounted : (l : Ledger) (batch : List ℕ) → IsCounted l → IsCounted (begin_all l batch)
unfolding begin_all
begin_all-IsCounted l [] h = h
begin_all-IsCounted l (id ∷ batch) h =
    begin_all-IsCounted (begin_locked l id).0 batch (begin_locked-IsCounted l id h)

pub begin_batch-IsCounted :
    (l : Ledger) (batch : List ℕ) → IsCounted l → IsCounted (begin_batch l batch).0
unfolding begin_batch
begin_batch-IsCounted l batch h = elim (Bool-cases (all_found l batch)) [
  | inl all ↦ rw all (begin_all-IsCounted l batch h)
  | inr lost ↦ rw lost h
]

pub discard-IsCounted :
    (l : Ledger) (id : ℕ) (cause : Cause) → IsCounted l → IsCounted (discard l id cause)
unfolding discard terminate
discard-IsCounted l id cause h = elim (Option-cases (find l id)) [
  | inl miss ↦ rw (miss, discard) h
  | inr (e, found) ↦
      rw (found, discard)
        (erase-IsCounted l id e _ h found
          (λ small r a t. count_terminated-IsBalanced r a e.bytes cause e.active t small))
]

pub rollback-IsCounted : (l : Ledger) (id : ℕ) → IsCounted l → IsCounted (rollback l id)
unfolding rollback
rollback-IsCounted l id h = elim (Option-cases (find l id)) [
  | inl miss ↦ rw (miss, rollback) h
  | inr (e, found) ↦
      rw (found, rollback)
        (erase-IsCounted l id e _ h found
          (λ small r a t. count_rolled_back-IsBalanced r a e.bytes t small))
]

abbrev later_epoch : Ledger → Ledger
later_epoch l = record l { epoch = l.epoch + 1; totals = no_sends }

-- Only the ledger itself is of the new epoch.
later_epoch-cases :
    (l : Ledger) (c : Option ℕ)
    → epoch_of l c ≤ l.epoch
    → (totals_of (later_epoch l) c ≡ no_sends) ⊎ (epoch_of (later_epoch l) c < l.epoch + 1)
later_epoch-cases l none le = inl refl
later_epoch-cases l (some g) le = inr (omega arith)

later_epoch-past :
    (l : Ledger) (c : Option ℕ) → epoch_of l c ≤ l.epoch → epoch_of (later_epoch l) c ≤ l.epoch + 1
later_epoch-past l none le = omega arith
later_epoch-past l (some g) le = omega arith

-- The entries of the old epoch count for nobody any more.
pub reset-IsCounted : (l : Ledger) → l.epoch + 1 < size_mod → IsCounted l → IsCounted (reset l)
unfolding reset
reset-IsCounted l bound h =
    let next : add_size l.epoch 1 ≡ l.epoch + 1 = add_size-small l.epoch 1 bound in
    let m = later_epoch l in
    let same : (w : Entry → ℕ) → weight w m ≡ weight w l = λ w. counters-weight w l _ _ _ in
    let none_left : (c : Option ℕ) (u : Measure) → weight (share m.epoch c u) m ≡ 0 =
      λ c u. same (share m.epoch c u) ∙ h.later m.epoch c u (omega arith) in
    rw next (record {
      valid = (counters-IsSame l _ _ _ h.valid).valid;
      small = same oversized ∙ h.small;
      current = λ c in_epoch. elim (later_epoch-cases l c (h.past c)) [
        | inl zero_totals ↦
            IsBalanced_along 0 _ 0 _ no_sends _ (none_left c Measure.in_requests)
              (none_left c Measure.in_bytes) zero_totals no_sends-IsBalanced
        | inr older ↦ absurd (omega (arith, older, in_epoch))
      ];
      fresh = λ c out_epoch u. none_left c u;
      past = λ c. later_epoch-past l c (h.past c);
      later = λ ep c u lt. same (share ep c u) ∙ h.later ep c u (omega arith);
    })
