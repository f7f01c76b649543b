-- ===== src/Diagnostics/Ledger/End/Rounds.antt =====
-- The loops of end.
use wirestead.Prelude.{
  ℕ, zero, suc, ◌+◌, ◌≤◌, ◌<◌, ◌≡◌, refl, sym, ap, subst, ◌∙◌, Bool, true, false, List, [], ◌∷◌,
  ◌==◌, if◌then◌else◌, arith, Bool-cases, inl, inr,
}
use wirestead.Diagnostics.Accounting.{Cause, count_terminated}
use wirestead.Diagnostics.Ledger.{Entry, Ledger, set_slot, slot}
use wirestead.Diagnostics.Ledger.Conserve.{update_lem, update-slot, IsKept}
use wirestead.Diagnostics.Ledger.{terminate}
use wirestead.Diagnostics.Ledger.Ring.{ring_sum, ring_sum-ext, slot-set_slot}
use wirestead.Diagnostics.Ledger.Sparse.{sparse_sum}
use wirestead.Diagnostics.Ledger.Tally.{IsTallied, IsTallied-ext, taken-IsTallied, kept-IsTallied}
use wirestead.Diagnostics.Ledger.{end_sparse, end_ring, no_entry}
use wirestead.Diagnostics.Ledger.Waiting.Sparse.{terminate-Lowers, terminate-IsLowered}
use wirestead.Diagnostics.Ledger.Waiting.Ring.{ring_sum-suc}

pub end_sparse-IsTallied :
    (l : Ledger) (cause : Cause) (m : List (ℕ × Entry)) (others : (Entry → ℕ) → ℕ)
    → IsTallied (λ w. others w + sparse_sum w m) l
    → IsTallied others (end_sparse l cause m)
unfolding end_sparse
end_sparse-IsTallied l cause [] others h = IsTallied-ext l _ others (λ w. omega arith) h
end_sparse-IsTallied l cause ((k, e) ∷ m) others h =
    end_sparse-IsTallied (terminate l e cause) cause m others (
      taken-IsTallied l (terminate l e cause) e (count_terminated cause e.active e.bytes) _
        (λ w. others w + sparse_sum w m) h (terminate-IsLowered l e cause) (λ w. omega arith)
        (terminate-Lowers e cause))

-- A ledger of the same window.
pub record IsShape (l m : Ledger) : Type 0 where
  pub count : m.count ≡ l.count
  pub base : m.base ≡ l.base
  pub next_id : m.next_id ≡ l.next_id
  pub capacity : m.capacity ≡ l.capacity
  pub head : m.head ≡ l.head
  pub sparse : m.sparse ≡ l.sparse

IsShape-refl : (l : Ledger) → IsShape l l
IsShape-refl l = record {
  count = refl;
  base = refl;
  next_id = refl;
  capacity = refl;
  head = refl;
  sparse = refl;
}

IsShape-trans : (l m k : Ledger) → IsShape l m → IsShape m k → IsShape l k
IsShape-trans l m k a b = record {
  count = b.count ∙ a.count;
  base = b.base ∙ a.base;
  next_id = b.next_id ∙ a.next_id;
  capacity = b.capacity ∙ a.capacity;
  head = b.head ∙ a.head;
  sparse = b.sparse ∙ a.sparse;
}

terminate-IsShape : (l : Ledger) (e : Entry) (cause : Cause) → IsShape l (terminate l e cause)
unfolding terminate
terminate-IsShape l e cause =
    let at = update_lem l e (count_terminated cause e.active e.bytes) in
    record {
      count = ap (λ (m : Ledger). m.count) at;
      base = ap (λ (m : Ledger). m.base) at;
      next_id = ap (λ (m : Ledger). m.next_id) at;
      capacity = ap (λ (m : Ledger). m.capacity) at;
      head = ap (λ (m : Ledger). m.head) at;
      sparse = ap (λ (m : Ledger). m.sparse) at;
    }

terminate-slot :
    (l : Ledger) (e : Entry) (cause : Cause) (i : ℕ) → slot (terminate l e cause) i ≡ slot l i
unfolding terminate
terminate-slot l e cause i = update-slot l e _ i

pub end_sparse-IsShape :
    (l : Ledger) (cause : Cause) (m : List (ℕ × Entry)) → IsShape l (end_sparse l cause m)
unfolding end_sparse
end_sparse-IsShape l cause [] = IsShape-refl l
end_sparse-IsShape l cause ((k, e) ∷ m) =
    IsShape-trans l (terminate l e cause) _ (terminate-IsShape l e cause)
      (end_sparse-IsShape (terminate l e cause) cause m)

pub end_sparse-slot :
    (l : Ledger) (cause : Cause) (m : List (ℕ × Entry)) (i : ℕ)
    → slot (end_sparse l cause m) i ≡ slot l i
unfolding end_sparse
end_sparse-slot l cause [] i = refl
end_sparse-slot l cause ((k, e) ∷ m) i =
    end_sparse-slot (terminate l e cause) cause m i ∙ terminate-slot l e cause i

-- A round over the ring: what `end_ring` does to a live slot, and to one that is not.
abbrev counted_out : Ledger → Cause → ℕ → Ledger
counted_out l cause i = if (slot l i).live then terminate l (slot l i) cause else l

abbrev ended : Ledger → Cause → ℕ → Ledger
ended l cause i = set_slot (counted_out l cause i) i no_entry

counted_out-IsShape : (l : Ledger) (cause : Cause) (i : ℕ) → IsShape l (counted_out l cause i)
counted_out-IsShape l cause i =
    elim (slot l i).live as (λ b. IsShape l (if b then terminate l (slot l i) cause else l)) [
      | true ↦ terminate-IsShape l (slot l i) cause
      | false ↦ IsShape-refl l
    ]

counted_out-slot :
    (l : Ledger) (cause : Cause) (i j : ℕ) → slot (counted_out l cause i) j ≡ slot l j
counted_out-slot l cause i j =
    elim (slot l i).live
      as (λ b. slot (if b then terminate l (slot l i) cause else l) j ≡ slot l j) [
        | true ↦ terminate-slot l (slot l i) cause j
        | false ↦ refl
      ]

ended-IsShape : (l : Ledger) (cause : Cause) (i : ℕ) → IsShape l (ended l cause i)
unfolding set_slot
ended-IsShape l cause i =
    let s = counted_out-IsShape l cause i in
    record {
      count = s.count;
      base = s.base;
      next_id = s.next_id;
      capacity = s.capacity;
      head = s.head;
      sparse = s.sparse;
    }

ended-slot :
    (l : Ledger) (cause : Cause) (i j : ℕ)
    → l.head < l.capacity
    → i < l.capacity
    → j < l.capacity
    → slot (ended l cause i) j ≡ (if j == i then no_entry else slot l j)
ended-slot l cause i j head li lj =
    let m = counted_out l cause i in
    let s = counted_out-IsShape l cause i in
    slot-set_slot m i j no_entry (omega (arith, s.head, s.capacity)) (omega (arith, s.capacity))
      (omega (arith, s.capacity))
    ∙ ap (λ e. if j == i then no_entry else e) (counted_out-slot l cause i j)

ended-IsTallied :
    (l : Ledger) (cause : Cause) (i n : ℕ) (others : (Entry → ℕ) → ℕ)
    → l.head < l.capacity
    → i + suc n ≤ l.capacity
    → IsTallied (λ w. others w + ring_sum w l i (suc n)) l
    → IsTallied (λ w. others w + ring_sum w (ended l cause i) (i + 1) n) (ended l cause i)
ended-IsTallied l cause i n others head le h =
    let e = slot l i in
    let m = counted_out l cause i in
    let d = ended l cause i in
    let kept : IsKept m d =
      unfold set_slot in record { epoch = refl; next_id = refl; totals = refl; groups = refl } in
    let same : (w : Entry → ℕ) → ring_sum w d (i + 1) n ≡ ring_sum w l (i + 1) n = λ w.
      ring_sum-ext w d l (i + 1) (i + 1) n (λ j lt.
        let apart : (i + 1 + j == i) ≡ false = ground arith in
        ended-slot l cause i (i + 1 + j) head (omega arith) (omega arith)
        ∙ ap (λ (b : Bool). if b then no_entry else slot l (i + 1 + j)) apart) in
    let sum : (Entry → ℕ) → ℕ = λ w. others w + ring_sum w d (i + 1) n in
    kept-IsTallied m d sum kept (elim (Bool-cases (slot l i).live) [
      | inl live ↦
          let shown : m ≡ terminate l e cause =
            ap (λ (b : Bool). if b then terminate l e cause else l) live in
          subst (IsTallied sum) (sym shown) (
            taken-IsTallied l (terminate l e cause) e (count_terminated cause e.active e.bytes) _
              sum h (terminate-IsLowered l e cause)
              (λ w.
                omega (
                  arith,
                  same w,
                  ring_sum-suc w l i n,
                  ap (λ (b : Bool). if b then w e else 0) live,
                ))
              (terminate-Lowers e cause))
      | inr dead ↦
          let shown : m ≡ l = ap (λ (b : Bool). if b then terminate l e cause else l) dead in
          subst (IsTallied sum) (sym shown) (
            IsTallied-ext l _ sum
              (λ w.
                omega (
                  arith,
                  same w,
                  ring_sum-suc w l i n,
                  ap (λ (b : Bool). if b then w e else 0) dead,
                ))
              h)
    ])

-- end_ring in rounds.
end_ring-round :
    (l : Ledger) (cause : Cause) (i n : ℕ)
    → end_ring l cause i (suc n) ≡ end_ring (ended l cause i) cause (i + 1) n
unfolding end_ring
end_ring-round l cause i n = refl

pub end_ring-IsShape : (l : Ledger) (cause : Cause) (i n : ℕ) → IsShape l (end_ring l cause i n)
end_ring-IsShape l cause i zero = unfold end_ring in IsShape-refl l
end_ring-IsShape l cause i (suc n) = subst (IsShape l) (sym (end_ring-round l cause i n)) (
    IsShape-trans l (ended l cause i) _ (ended-IsShape l cause i)
      (end_ring-IsShape (ended l cause i) cause (i + 1) n))

pub end_ring-IsTallied :
    (l : Ledger) (cause : Cause) (i n : ℕ) (others : (Entry → ℕ) → ℕ)
    → (0 < l.capacity → l.head < l.capacity)
    → i + n ≤ l.capacity
    → IsTallied (λ w. others w + ring_sum w l i n) l
    → IsTallied others (end_ring l cause i n)
end_ring-IsTallied l cause i zero others inside le h =
    unfold end_ring ring_sum in (IsTallied-ext l _ others (λ w. omega arith) h)
end_ring-IsTallied l cause i (suc n) others inside le h =
    let s = ended-IsShape l cause i in
    let head = inside (omega arith) in
    subst (IsTallied others) (sym (end_ring-round l cause i n)) (
      end_ring-IsTallied (ended l cause i) cause (i + 1) n others
        (λ some. omega (arith, s.head, s.capacity, head)) (omega (arith, s.capacity))
        (ended-IsTallied l cause i n others head le h))
