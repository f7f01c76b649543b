-- ===== src/Diagnostics/Ledger/Detach.antt =====
-- A full ring with few live entries is detached: they move to the sparse map.
use wirestead.Prelude.{
  ℕ, ◌/◌, zero, suc, ◌+◌, ◌-◌, ◌<◌, ◌≡◌, refl, sym, ap, subst, ◌∙◌, true, false, not, ◌&&◌, List,
  ◌∷◌, Option, none, some, ◌==◌, ltb, leb, if◌then◌else◌, arith, Bool-cases, inl, inr, add_size,
  add_size-small,
}
use wirestead.Diagnostics.Ledger.{
  Entry, Ledger, slot, grow, find, find_sparse, emplace, stage, count_live, detach, make_room,
  ensure_room,
}
use wirestead.Diagnostics.Ledger.Sparse.{AreKeys, find_sparse-above}
use wirestead.Diagnostics.Ledger.Find.{IsLedger, AreKeys-mono}
use wirestead.Diagnostics.Ledger.Refine.{IsSame, grow-IsSame}

-- One round.
abbrev pub staged : Ledger → ℕ → List (ℕ × Entry) → List (ℕ × Entry)
staged l i m = if (slot l i).live then emplace m (l.base + i) (slot l i) else m

find-staged :
    (l : Ledger) (i : ℕ) (m : List (ℕ × Entry)) (j : ℕ)
    → AreKeys (l.base + i) m
    → find_sparse (staged l i m) j ≡ (
        if j == l.base + i
        then (if (slot l i).live then some (slot l i) else none)
        else find_sparse m j)
unfolding find_sparse
find-staged l i m j keys =
    let fresh = find_sparse-above (l.base + i) m (l.base + i) keys (omega arith) in
    elim (Bool-cases (slot l i).live) [
      | inl live ↦ ground (arith, fresh, live)
      | inr dead ↦ ground (arith, dead)
    ]

emplace-fresh :
    (m : List (ℕ × Entry)) (id : ℕ) (e : Entry)
    → find_sparse m id ≡ none
    → emplace m id e ≡ (id, e) ∷ m
emplace-fresh m id e fresh = rw (fresh, emplace) refl

pub staged_lem :
    (l : Ledger) (i : ℕ) (m : List (ℕ × Entry))
    → AreKeys (l.base + i) m
    → staged l i m ≡ (if (slot l i).live then (l.base + i, slot l i) ∷ m else m)
staged_lem l i m keys =
    let fresh = find_sparse-above (l.base + i) m (l.base + i) keys (omega arith) in
    ap (λ (x : List (ℕ × Entry)). if (slot l i).live then x else m)
      (emplace-fresh m (l.base + i) (slot l i) fresh)

pub staged-AreKeys :
    (l : Ledger) (i : ℕ) (m : List (ℕ × Entry))
    → AreKeys (l.base + i) m
    → AreKeys (l.base + (i + 1)) (staged l i m)
staged-AreKeys l i m keys =
    let fresh = find_sparse-above (l.base + i) m (l.base + i) keys (omega arith) in
    let wider = AreKeys-mono (l.base + i) (l.base + (i + 1)) m (omega arith) keys in
    subst (AreKeys (l.base + (i + 1))) (sym (staged_lem l i m keys))
      (elim (slot l i).live
        as (λ b. AreKeys (l.base + (i + 1)) (if b then (l.base + i, slot l i) ∷ m else m)) [
          | true ↦ (omega arith, fresh, wider)
          | false ↦ wider
        ])

stage-AreKeys :
    (l : Ledger) (i n : ℕ) (m : List (ℕ × Entry))
    → AreKeys (l.base + i) m
    → AreKeys (l.base + i + n) (stage l i n m)
unfolding stage
stage-AreKeys l i zero m keys = AreKeys-mono (l.base + i) _ m (omega arith) keys
stage-AreKeys l i (suc n) m keys =
    AreKeys-mono (l.base + (i + 1) + n) _ _ (omega arith)
      (stage-AreKeys l (i + 1) n _ (staged-AreKeys l i m keys))

find-stage_below :
    (l : Ledger) (i n : ℕ) (m : List (ℕ × Entry)) (j : ℕ)
    → AreKeys (l.base + i) m
    → j < l.base + i
    → find_sparse (stage l i n m) j ≡ find_sparse m j
unfolding stage
find-stage_below l i zero m j keys lt = refl
find-stage_below l i (suc n) m j keys lt =
    let apart : (j == l.base + i) ≡ false = ground arith in
    find-stage_below l (i + 1) n _ j (staged-AreKeys l i m keys) (omega arith)
    ∙ find-staged l i m j keys
    ∙ rw apart refl

find-stage :
    (l : Ledger) (i n k : ℕ) (m : List (ℕ × Entry))
    → AreKeys (l.base + i) m
    → k < n
    → find_sparse (stage l i n m) (l.base + (i + k))
      ≡ (if (slot l (i + k)).live then some (slot l (i + k)) else none)
unfolding stage
find-stage l i zero k m keys lt = absurd (omega arith)
find-stage l i (suc n) zero m keys lt =
    let at : l.base + i ≡ l.base + (i + 0) = omega arith in
    let here : i ≡ i + 0 = omega arith in
    let last =
      find-stage_below l (i + 1) n _ (l.base + i) (staged-AreKeys l i m keys) (omega arith)
      ∙ find-staged l i m (l.base + i) keys in
    let same : (l.base + i == l.base + i) ≡ true = ground arith in
    rw⁻¹ at (rw⁻¹ here (last ∙ rw same refl))
find-stage l i (suc n) (suc k) m keys lt =
    let shift : i + suc k ≡ i + 1 + k = omega arith in
    rw shift (find-stage l (i + 1) n k _ (staged-AreKeys l i m keys) (omega arith))

pub detached_base : (l : Ledger) → IsLedger l → add_size l.next_id 1 ≡ l.base + 0 + l.count
detached_base l h = add_size-small l.next_id 1 h.bounded ∙ omega (arith, h.numbered)

find-detach : (l : Ledger) (j : ℕ) → IsLedger l → find (detach l) j ≡ find l j
unfolding find detach
find-detach l j h =
    let base = detached_base l h in
    let keys = AreKeys-mono l.base (l.base + 0) l.sparse (omega arith) h.keys in
    elim (Bool-cases (ltb j l.base)) [
      | inl low ↦
          let low1 : ltb j (l.base + 0 + l.count) ≡ true = ground arith in
          rw (base, low, low1) (find-stage_below l 0 l.count l.sparse j keys (ground arith))
      | inr high ↦ elim (Bool-cases (leb l.count (j - l.base))) [
        | inl over ↦
            let high1 : ltb j (l.base + 0 + l.count) ≡ false = ground arith in
            let none_left : leb 0 (j - (l.base + 0 + l.count)) ≡ true = ground arith in
            rw (base, high, high1, over, none_left) refl
        | inr window ↦
            let low1 : ltb j (l.base + 0 + l.count) ≡ true = ground arith in
            let at = find-stage l 0 l.count (j - l.base) l.sparse keys (ground arith) in
            let number : l.base + (j - l.base) ≡ j = ground arith in
            let shown : ℕ → Option Entry = λ i. if (slot l i).live then some (slot l i) else none in
            let all = stage l 0 l.count l.sparse in
            rw (base, high, low1, window)
              (subst (λ (k : ℕ). find_sparse all k ≡ shown (j - l.base)) number
                (subst (λ (i : ℕ). find_sparse all (l.base + i) ≡ shown i) (omega arith) at))
      ]
    ]

detach-IsLedger : (l : Ledger) → IsLedger l → IsLedger (detach l)
unfolding detach
detach-IsLedger l h =
    let base : add_size l.next_id 1 ≡ l.base + 0 + l.count =
      add_size-small l.next_id 1 h.bounded ∙ (omega (arith, h.numbered)) in
    let keys =
      stage-AreKeys l 0 l.count l.sparse (AreKeys-mono l.base _ l.sparse (omega arith) h.keys) in
    record {
      ring = record { fits = omega arith; inside = λ some. some };
      numbered = ap (λ (b : ℕ). b + 0) base ∙ omega (arith, h.numbered);
      bounded = h.bounded;
      keys = subst (λ (b : ℕ). AreKeys b (stage l 0 l.count l.sparse)) (sym base) keys;
    }

-- An admission makes room and keeps every entry.
pub ensure_room-IsSame : (l : Ledger) → IsLedger l → IsSame l (ensure_room l)
unfolding ensure_room make_room
ensure_room-IsSame l h =
    elim (l.count == l.capacity) as (λ b. IsSame l (if b then make_room l else l)) [
      | false ↦ record { valid = h; same = λ j. refl }
      | true ↦
          elim (not (l.capacity == 0) && leb (count_live l 0 l.count) (l.count / 2))
            as (λ b. IsSame l (if b then detach l else grow l)) [
              | true ↦ record { valid = detach-IsLedger l h; same = λ j. find-detach l j h }
              | false ↦ grow-IsSame l h
            ]
    ]
