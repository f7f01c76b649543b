-- ===== src/Diagnostics/Ledger/Waiting/Sparse.antt =====
-- The loop of discard_waiting over the sparse map.
use wirestead.Prelude.{
  ℕ, ◌+◌, ◌≡◌, refl, ◌∙◌, false, List, [], ◌∷◌, none, ◌==◌, arith, Bool-cases, inl, inr,
}
use wirestead.Diagnostics.Accounting.{Cause, count_terminated}
use wirestead.Diagnostics.Ledger.{Entry, Ledger, slot}
use wirestead.Diagnostics.Ledger.Find.{IsLedger}
use wirestead.Diagnostics.Ledger.Conserve.{
  Lowers, update-IsSame, update-slot, update-count, update-base,
}
use wirestead.Diagnostics.Accounting.Balance.{count_terminated-IsBalanced}
use wirestead.Diagnostics.Ledger.{terminate, is_waiting, discard_sparse, find_sparse}
use wirestead.Diagnostics.Ledger.Sparse.{AreKeys, sparse_sum}
use wirestead.Diagnostics.Ledger.Tally.{
  IsTallied, IsTallied-ext, IsLowered, taken-IsTallied, update-IsLowered,
}

pub terminate-Lowers :
    (e : Entry) (cause : Cause) → Lowers e.bytes (count_terminated cause e.active e.bytes)
terminate-Lowers e cause small requests all t =
    count_terminated-IsBalanced requests all e.bytes cause e.active t small

pub terminate-IsLowered :
    (l : Ledger) (e : Entry) (cause : Cause)
    → IsLowered l (terminate l e cause) e (count_terminated cause e.active e.bytes)
unfolding terminate
terminate-IsLowered l e cause = update-IsLowered l e (count_terminated cause e.active e.bytes)

pub discard_sparse-IsTallied :
    (l : Ledger) (g : ℕ) (cause : Cause) (m : List (ℕ × Entry)) (others : (Entry → ℕ) → ℕ)
    → IsTallied (λ w. others w + sparse_sum w m) l
    → IsTallied
        (λ w. others w + sparse_sum w (discard_sparse l g cause m).1)
        (discard_sparse l g cause m).0
unfolding discard_sparse
discard_sparse-IsTallied l g cause [] others h = h
discard_sparse-IsTallied l g cause ((k, e) ∷ m) others h = elim (Bool-cases (is_waiting g e)) [
  | inl waiting ↦
      let next =
        taken-IsTallied l (terminate l e cause) e (count_terminated cause e.active e.bytes) _
          (λ w. others w + sparse_sum w m) h (terminate-IsLowered l e cause) (λ w. omega arith)
          (terminate-Lowers e cause) in
      let ih = discard_sparse-IsTallied (terminate l e cause) g cause m others next in
      rw (waiting, discard_sparse) ih
  | inr stays ↦
      let next : IsTallied (λ w. others w + w e + sparse_sum w m) l =
        IsTallied-ext l _ _ (λ w. omega arith) h in
      let ih = discard_sparse-IsTallied l g cause m (λ w. others w + w e) next in
      let r = discard_sparse l g cause m in
      let again : IsTallied (λ w. others w + sparse_sum w ((k, e) ∷ r.1)) r.0 =
        IsTallied-ext r.0 _ _ (λ w. omega arith) ih in
      rw (stays, discard_sparse) again
]

discard_sparse-fresh :
    (l : Ledger) (g : ℕ) (cause : Cause) (m : List (ℕ × Entry)) (id : ℕ)
    → find_sparse m id ≡ none
    → find_sparse (discard_sparse l g cause m).1 id ≡ none
unfolding discard_sparse find_sparse
discard_sparse-fresh l g cause [] id h = refl
discard_sparse-fresh l g cause ((k, e) ∷ m) id h =
    let rest : find_sparse m id ≡ none = ground arith in
    elim (Bool-cases (is_waiting g e)) [
      | inl waiting ↦
          rw (waiting, discard_sparse)
            (discard_sparse-fresh (terminate l e cause) g cause m id rest)
      | inr stays ↦
          let ih = discard_sparse-fresh l g cause m id rest in
          let apart : (k == id) ≡ false = ground arith in rw (stays, discard_sparse, apart) ih
    ]

-- The loop over the sparse map leaves the ring as it is.
pub record IsRingKept (l m : Ledger) : Type 0 where
  pub valid : IsLedger m
  pub slots : (i : ℕ) → slot m i ≡ slot l i
  pub count : m.count ≡ l.count
  pub base : m.base ≡ l.base

pub discard_sparse-IsRingKept :
    (l : Ledger) (g : ℕ) (cause : Cause) (m : List (ℕ × Entry))
    → IsLedger l
    → IsRingKept l (discard_sparse l g cause m).0
unfolding discard_sparse
discard_sparse-IsRingKept l g cause [] h = record {
  valid = h;
  slots = λ i. refl;
  count = refl;
  base = refl;
}
discard_sparse-IsRingKept l g cause ((k, e) ∷ m) h = elim (Bool-cases (is_waiting g e)) [
  | inl waiting ↦
      let d = terminate l e cause in
      let apply = count_terminated cause e.active e.bytes in
      let valid : IsLedger d = unfold terminate in (update-IsSame l e apply h).valid in
      let ih = discard_sparse-IsRingKept d g cause m valid in
      let slots : (i : ℕ) → slot d i ≡ slot l i =
        λ i. unfold terminate in (update-slot l e apply i) in
      let count : d.count ≡ l.count = unfold terminate in (update-count l e apply) in
      let base : d.base ≡ l.base = unfold terminate in (update-base l e apply) in
      let all : IsRingKept l (discard_sparse d g cause m).0 = record {
        valid = ih.valid;
        slots = λ i. ih.slots i ∙ slots i;
        count = ih.count ∙ count;
        base = ih.base ∙ base;
      } in
      rw (waiting, discard_sparse) all
  | inr stays ↦ rw (stays, discard_sparse) (discard_sparse-IsRingKept l g cause m h)
]

pub discard_sparse-AreKeys :
    (l : Ledger) (g : ℕ) (cause : Cause) (base : ℕ) (m : List (ℕ × Entry))
    → AreKeys base m
    → AreKeys base (discard_sparse l g cause m).1
unfolding discard_sparse
discard_sparse-AreKeys l g cause base [] h = tt
discard_sparse-AreKeys l g cause base ((k, e) ∷ m) (lt, fresh, h) =
    elim (Bool-cases (is_waiting g e)) [
      | inl waiting ↦
          rw (waiting, discard_sparse)
            (discard_sparse-AreKeys (terminate l e cause) g cause base m h)
      | inr stays ↦
          rw (stays, discard_sparse)
            (
              lt,
              discard_sparse-fresh l g cause m k fresh,
              discard_sparse-AreKeys l g cause base m h,
            )
    ]
