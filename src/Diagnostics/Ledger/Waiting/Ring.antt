-- ===== src/Diagnostics/Ledger/Waiting/Ring.antt =====
-- The loop of discard_waiting over the ring.
use wirestead.Prelude.{
  ℕ, zero, suc, ◌+◌, ◌≤◌, ◌<◌, ◌≡◌, refl, sym, ap, subst, ◌∙◌, Bool, true, false, ◌&&◌, ◌==◌,
  if◌then◌else◌, arith, Bool-cases, inl, inr,
}
use wirestead.Diagnostics.Accounting.{Cause, count_terminated}
use wirestead.Diagnostics.Ledger.{Entry, Ledger, set_slot, retired, slot}
use wirestead.Diagnostics.Ledger.Find.{IsLedger}
use wirestead.Diagnostics.Ledger.Conserve.{update-IsSame, update-slot, update-count, update-sparse}
use wirestead.Diagnostics.Ledger.{terminate, is_waiting, discard_ring}
use wirestead.Diagnostics.Ledger.Ring.{ring_sum, ring_sum-ext, live_weight, slot-set_slot}
use wirestead.Diagnostics.Ledger.Find.{set_slot-IsLedger}
use wirestead.Diagnostics.Ledger.Tally.{
  IsTallied, IsTallied-ext, IsLowered, taken-IsTallied, kept_IsLowered,
}
use wirestead.Diagnostics.Ledger.Waiting.Sparse.{terminate-Lowers, terminate-IsLowered}

-- A round over the ring.
discarded : Ledger → Cause → ℕ → Ledger
unfolding terminate
discarded l cause i = set_slot (terminate l (slot l i) cause) i (retired (slot l i))

discarded-IsLedger :
    (l : Ledger) (cause : Cause) (i : ℕ) → IsLedger l → IsLedger (discarded l cause i)
unfolding discarded terminate
discarded-IsLedger l cause i h =
    set_slot-IsLedger _ i (retired (slot l i)) (update-IsSame l (slot l i) _ h).valid

discarded-slot :
    (l : Ledger) (cause : Cause) (i j : ℕ)
    → IsLedger l
    → i < l.count
    → j < l.count
    → slot (discarded l cause i) j ≡ (if j == i then retired (slot l i) else slot l j)
unfolding discarded terminate
discarded-slot l cause i j h li lj =
    let e = slot l i in
    let m = terminate l e cause in
    let valid = (update-IsSame l e (count_terminated cause e.active e.bytes) h).valid in
    let count = update-count l e (count_terminated cause e.active e.bytes) in
    slot-set_slot m i j (retired e) (valid.ring.inside (omega (arith, valid.ring.fits, count, li)))
      (omega (arith, valid.ring.fits, count, li)) (omega (arith, valid.ring.fits, count, lj))
    ∙ ap (λ d. if j == i then retired e else d) (update-slot l e _ j)

discarded-count : (l : Ledger) (cause : Cause) (i : ℕ) → (discarded l cause i).count ≡ l.count
unfolding discarded set_slot terminate
discarded-count l cause i = update-count l _ _

discarded-sparse : (l : Ledger) (cause : Cause) (i : ℕ) → (discarded l cause i).sparse ≡ l.sparse
unfolding discarded set_slot terminate
discarded-sparse l cause i = update-sparse l _ _

discarded-IsLowered :
    (l : Ledger) (cause : Cause) (i : ℕ)
    → IsLowered l
        (discarded l cause i)
        (slot l i)
        (count_terminated cause (slot l i).active (slot l i).bytes)
unfolding discarded set_slot
discarded-IsLowered l cause i =
    kept_IsLowered l (terminate l (slot l i) cause) _ (slot l i) _
      (terminate-IsLowered l (slot l i) cause)
      (record { epoch = refl; next_id = refl; totals = refl; groups = refl })

discard_ring-round :
    (l : Ledger) (g : ℕ) (cause : Cause) (i n : ℕ)
    → discard_ring l g cause i (suc n) ≡ (
        if (slot l i).live && is_waiting g (slot l i)
        then discard_ring (discarded l cause i) g cause (i + 1) n
        else discard_ring l g cause (i + 1) n)
unfolding discard_ring discarded
discard_ring-round l g cause i n = elim (Bool-cases ((slot l i).live && is_waiting g (slot l i))) [
  | inl taken ↦ rw (taken, discard_ring) refl
  | inr stays ↦ rw (stays, discard_ring) refl
]

-- The slots before the loop stay.
discard_ring-before :
    (l : Ledger) (g : ℕ) (cause : Cause) (i n j : ℕ)
    → IsLedger l
    → i + n ≤ l.count
    → j < i
    → slot (discard_ring l g cause i n) j ≡ slot l j
discard_ring-before l g cause i zero j h le lt = unfold discard_ring in refl
discard_ring-before l g cause i (suc n) j h le lt =
    ap (λ r. slot r j) (discard_ring-round l g cause i n)
    ∙ (elim (Bool-cases ((slot l i).live && is_waiting g (slot l i))) [
      | inl taken ↦
          let count = discarded-count l cause i in
          let apart : (j == i) ≡ false = ground arith in
          let ih =
            discard_ring-before (discarded l cause i) g cause (i + 1) n j
              (discarded-IsLedger l cause i h) (omega (arith, count, le)) (omega arith) in
          rw taken (
            ih
            ∙ discarded-slot l cause i j h (omega arith) (omega arith)
            ∙ ap (λ (b : Bool). if b then retired (slot l i) else slot l j) apart)
      | inr stays ↦
          rw stays (discard_ring-before l g cause (i + 1) n j h (omega arith) (omega arith))
    ])

abbrev pub WithRing : ((Entry → ℕ) → ℕ) → ℕ → ℕ → Ledger → Type 0
WithRing others i n l = IsTallied (λ w. others w + ring_sum w l i n) l

pub ring_sum-suc :
    (w : Entry → ℕ) (l : Ledger) (i n : ℕ)
    → ring_sum w l i (suc n) ≡ live_weight w (slot l i) + ring_sum w l (i + 1) n
unfolding ring_sum
ring_sum-suc w l i n = refl

-- A round that takes the entry out.
discarded-IsTallied :
    (l : Ledger) (cause : Cause) (i n : ℕ) (others : (Entry → ℕ) → ℕ)
    → IsLedger l
    → i + suc n ≤ l.count
    → (slot l i).live ≡ true
    → WithRing others i (suc n) l
    → WithRing others (i + 1) n (discarded l cause i)
discarded-IsTallied l cause i n others valid le live h =
    let e = slot l i in
    let m = discarded l cause i in
    let same : (w : Entry → ℕ) → ring_sum w m (i + 1) n ≡ ring_sum w l (i + 1) n = λ w.
      ring_sum-ext w m l (i + 1) (i + 1) n (λ j lt.
        let apart : (i + 1 + j == i) ≡ false = ground arith in
        discarded-slot l cause i (i + 1 + j) valid (omega arith) (omega arith)
        ∙ ap (λ (b : Bool). if b then retired e else slot l (i + 1 + j)) apart) in
    taken-IsTallied l m e (count_terminated cause e.active e.bytes) _ _ h
      (discarded-IsLowered l cause i)
      (λ w.
        omega (arith, same w, ring_sum-suc w l i n, ap (λ (b : Bool). if b then w e else 0) live))
      (terminate-Lowers e cause)

pub discard_ring-IsTallied :
    (l : Ledger) (g : ℕ) (cause : Cause) (i n : ℕ) (others : (Entry → ℕ) → ℕ)
    → IsLedger l
    → i + n ≤ l.count
    → WithRing others i n l
    → WithRing others i n (discard_ring l g cause i n)
discard_ring-IsTallied l g cause i zero others valid le h = unfold discard_ring in h
discard_ring-IsTallied l g cause i (suc n) others valid le h =
    subst (WithRing others i (suc n)) (sym (discard_ring-round l g cause i n))
      (elim (Bool-cases ((slot l i).live && is_waiting g (slot l i))) [
        | inl taken ↦
            let live : (slot l i).live ≡ true = ground arith in
            let m = discarded l cause i in
            let count = discarded-count l cause i in
            let valid_m = discarded-IsLedger l cause i valid in
            let ih =
              discard_ring-IsTallied m g cause (i + 1) n others valid_m (omega (arith, count, le))
                (discarded-IsTallied l cause i n others valid le live h) in
            let r = discard_ring m g cause (i + 1) n in
            let same : (i == i) ≡ true = ground arith in
            let here : slot r i ≡ retired (slot l i) =
              discard_ring-before m g cause (i + 1) n i valid_m (omega (arith, count, le))
                (omega arith)
              ∙ discarded-slot l cause i i valid (omega arith) (omega arith)
              ∙ ap (λ (b : Bool). if b then retired (slot l i) else slot l i) same in
            rw taken (
              IsTallied-ext r _ _
                (λ w. omega (arith, ring_sum-suc w r i n, ap (live_weight w) here)) ih)
        | inr stays ↦
            let next : IsTallied (λ w. others w + live_weight w (slot l i) + ring_sum w l (i + 1) n)
                l =
              IsTallied-ext l _ _ (λ w. omega (arith, ring_sum-suc w l i n)) h in
            let ih =
              discard_ring-IsTallied l g cause (i + 1) n (λ w. others w + live_weight w (slot l i))
                valid (omega arith) next in
            let r = discard_ring l g cause (i + 1) n in
            let here =
              discard_ring-before l g cause (i + 1) n i valid (omega arith) (omega arith) in
            rw stays (
              IsTallied-ext r _ _
                (λ w. omega (arith, ring_sum-suc w r i n, ap (live_weight w) here)) ih)
      ])

-- The loop over the ring leaves the sparse map and the window as they are.
pub record IsWindowKept (l m : Ledger) : Type 0 where
  pub valid : IsLedger m
  pub count : m.count ≡ l.count
  pub sparse : m.sparse ≡ l.sparse

pub discard_ring-IsWindowKept :
    (l : Ledger) (g : ℕ) (cause : Cause) (i n : ℕ)
    → IsLedger l
    → IsWindowKept l (discard_ring l g cause i n)
discard_ring-IsWindowKept l g cause i zero h =
    unfold discard_ring in record { valid = h; count = refl; sparse = refl }
discard_ring-IsWindowKept l g cause i (suc n) h =
    subst (IsWindowKept l) (sym (discard_ring-round l g cause i n))
      (elim (Bool-cases ((slot l i).live && is_waiting g (slot l i))) [
        | inl taken ↦
            let ih =
              discard_ring-IsWindowKept (discarded l cause i) g cause (i + 1) n
                (discarded-IsLedger l cause i h) in
            rw taken (record {
              valid = ih.valid;
              count = ih.count ∙ discarded-count l cause i;
              sparse = ih.sparse ∙ discarded-sparse l cause i;
            })
        | inr stays ↦ rw stays (discard_ring-IsWindowKept l g cause (i + 1) n h)
      ])
