-- ===== src/Diagnostics/Ledger/Weight.antt =====
-- The sum of a weight over the entries of the ledger, behind each change of them.
use wirestead.Prelude.{
  ℕ, ◌/◌, zero, suc, ◌+◌, ◌-◌, ◌<◌, ◌≡◌, refl, ap, ◌∙◌, Bool, true, false, not, ◌&&◌, List, ◌∷◌,
  some, ◌==◌, ltb, leb, if◌then◌else◌, arith, Bool-cases, inl, inr, add_size, add_size-small,
}
use wirestead.Diagnostics.Ledger.{
  Group, Entry, Ledger, count_live, slot_index, slot, set_slot, grow, find, write, erase, compact,
  compact_rounds, retired, set_sparse, erase_sparse, stage, detach, make_room, ensure_room,
  append_entry,
}
use wirestead.Diagnostics.Ledger.Ring.{slot-advanced, slot-grow}
use wirestead.Diagnostics.Ledger.Sparse.{AreKeys}
use wirestead.Diagnostics.Ledger.Find.{
  IsLedger, AreKeys-mono, find-ring, step, step-IsLedger, set_slot-IsLedger, find-low,
}
use wirestead.Diagnostics.Accounting.{SendAccounting}
use wirestead.Diagnostics.Ledger.Refine.{slot-append}
use wirestead.Diagnostics.Ledger.Ring.{live_weight, ring_sum, ring_sum-ext, ring_sum-set_slot}
use wirestead.Diagnostics.Ledger.Sparse.{sparse_sum, sparse_sum-erase, sparse_sum-set}
use wirestead.Diagnostics.Ledger.Detach.{staged, staged_lem, staged-AreKeys}

abbrev pub weight : (Entry → ℕ) → Ledger → ℕ
weight w l = sparse_sum w l.sparse + ring_sum w l 0 l.count

ring_sum-pos :
    (w : Entry → ℕ) (l : Ledger) (i n : ℕ)
    → 0 < n
    → ring_sum w l i n ≡ live_weight w (slot l i) + ring_sum w l (i + 1) (n - 1)
unfolding ring_sum
ring_sum-pos w l i zero pos = omega arith
ring_sum-pos w l i (suc n) pos = let n_eq : suc n - 1 ≡ n = omega arith in rw n_eq refl

ring_sum-snoc :
    (w : Entry → ℕ) (l : Ledger) (i n : ℕ)
    → ring_sum w l i (n + 1) ≡ ring_sum w l i n + live_weight w (slot l (i + n))
unfolding ring_sum
ring_sum-snoc w l i zero = let here : i + 0 ≡ i = omega arith in rw here (omega arith)
ring_sum-snoc w l i (suc n) =
    let ih = ring_sum-snoc w l (i + 1) n in
    let shift : i + suc n ≡ i + 1 + n = omega arith in
    let more : suc n + 1 ≡ suc (n + 1) = omega arith in rw (shift, more) (omega (arith, ih))

pub compact_rounds-weight :
    (w : Entry → ℕ) (n : ℕ) (l : Ledger) → IsLedger l → weight w (compact_rounds n l) ≡ weight w l
unfolding compact_rounds
compact_rounds-weight w zero l h = refl
compact_rounds-weight w (suc n) l h = elim (Bool-cases (l.count == 0)) [
  | inl empty ↦ rw empty refl
  | inr some_left ↦ elim (Bool-cases (slot l 0).live) [
    | inl live ↦ rw (some_left, live) refl
    | inr dead ↦
        let pos : 0 < l.count = ground arith in
        let next : add_size l.base 1 ≡ l.base + 1 =
          add_size-small l.base 1 (omega (arith, h.numbered, h.bounded)) in
        let ih = compact_rounds-weight w n (step (l.base + 1) l) (step-IsLedger l h pos) in
        let front = ring_sum-pos w l 0 l.count pos in
        let none_there : live_weight w (slot l 0) ≡ 0 = rw dead refl in
        let moved = ring_sum-ext w (step (l.base + 1) l) l 0 (0 + 1) (l.count - 1) (λ j lt.
          slot-advanced l (l.count - 1) (l.base + 1) (0 + j) ∙ ap (slot l) (omega arith)) in
        rw (some_left, dead, next) (ih ∙ omega (arith, front, none_there, moved))
  ]
]

stage-weight :
    (w : Entry → ℕ) (l : Ledger) (i n : ℕ) (m : List (ℕ × Entry))
    → AreKeys (l.base + i) m
    → sparse_sum w (stage l i n m) ≡ sparse_sum w m + ring_sum w l i n
unfolding stage ring_sum
stage-weight w l i zero m keys = omega arith
stage-weight w l i (suc n) m keys =
    let ih = stage-weight w l (i + 1) n (staged l i m) (staged-AreKeys l i m keys) in
    let round : sparse_sum w (staged l i m) ≡ sparse_sum w m + live_weight w (slot l i) =
      ap (sparse_sum w) (staged_lem l i m keys)
      ∙ (elim (slot l i).live
          as (λ b.
            sparse_sum w (if b then (l.base + i, slot l i) ∷ m else m)
            ≡ sparse_sum w m + (if b then w (slot l i) else 0)) [
              | true ↦ omega arith
              | false ↦ omega arith
            ]) in
    ih ∙ omega (arith, round)

detach-weight : (w : Entry → ℕ) (l : Ledger) → IsLedger l → weight w (detach l) ≡ weight w l
unfolding detach ring_sum
detach-weight w l h = omega (
  arith,
  stage-weight w l 0 l.count l.sparse (AreKeys-mono l.base _ l.sparse (omega arith) h.keys),
)

grow-weight : (w : Entry → ℕ) (l : Ledger) → IsLedger l → weight w (grow l) ≡ weight w l
grow-weight w l h =
    let same =
      ring_sum-ext w (grow l) l 0 0 l.count (λ j lt. slot-grow l (0 + j) h.ring (omega arith)) in
    unfold grow in (omega (arith, same))

-- The weight is that of the entries: the ring may grow, and its entries may move.
pub ensure_room-weight :
    (w : Entry → ℕ) (l : Ledger) → IsLedger l → weight w (ensure_room l) ≡ weight w l
unfolding ensure_room make_room
ensure_room-weight w l h =
    elim (l.count == l.capacity) as (λ b. weight w (if b then make_room l else l) ≡ weight w l) [
      | false ↦ refl
      | true ↦
          elim (not (l.capacity == 0) && leb (count_live l 0 l.count) (l.count / 2))
            as (λ b. weight w (if b then detach l else grow l) ≡ weight w l) [
              | true ↦ detach-weight w l h
              | false ↦ grow-weight w l h
            ]
    ]

-- An entry that is removed takes its weight with it.
pub erase-weight :
    (w : Entry → ℕ) (l : Ledger) (id : ℕ) (e : Entry)
    → IsLedger l
    → find l id ≡ some e
    → weight w (erase l id e) + w e ≡ weight w l
unfolding erase compact set_slot
erase-weight w l id e h found = elim (Bool-cases (ltb id l.base)) [
  | inl low ↦
      let s = sparse_sum-erase w l.sparse id e (find-low l id e found low) in
      let r =
        ring_sum-ext w (record l { sparse = erase_sparse l.sparse id }) l 0 0 l.count
          (λ j lt. unfold slot slot_index in refl) in
      rw low (omega (arith, s, r))
  | inr high ↦
      let at = find-ring l id e found high in
      let m = set_slot l (id - l.base) (retired e) in
      let s =
        ring_sum-set_slot w l 0 l.count (id - l.base) (retired e) h.ring (omega arith)
          (omega (arith, at.0)) (omega (arith, h.ring.fits)) in
      let mine : live_weight w (slot l (id - l.base)) ≡ w e =
        ap (live_weight w) at.1 ∙ ap (λ (b : Bool). if b then w e else 0) at.2 in
      rw high (
        ap (λ (x : ℕ). x + w e)
          (compact_rounds-weight w m.count m (set_slot-IsLedger l (id - l.base) (retired e) h))
        ∙ omega (arith, s, mine))
]

pub write-weight :
    (w : Entry → ℕ) (l : Ledger) (id : ℕ) (d e : Entry)
    → IsLedger l
    → find l id ≡ some d
    → (ltb id l.base ≡ false → e.live ≡ true)
    → weight w (write l id e) + w d ≡ weight w l + w e
unfolding write set_slot
write-weight w l id d e h found live = elim (Bool-cases (ltb id l.base)) [
  | inl low ↦
      let s = sparse_sum-set w l.sparse id d e (find-low l id d found low) in
      let r =
        ring_sum-ext w (record l { sparse = set_sparse l.sparse id e }) l 0 0 l.count
          (λ j lt. unfold slot slot_index in refl) in
      rw low (omega (arith, s, r))
  | inr high ↦
      let at = find-ring l id d found high in
      let s =
        ring_sum-set_slot w l 0 l.count (id - l.base) e h.ring (omega arith) (omega (arith, at.0))
          (omega (arith, h.ring.fits)) in
      let mine : live_weight w (slot l (id - l.base)) ≡ w d =
        ap (live_weight w) at.1 ∙ ap (λ (b : Bool). if b then w d else 0) at.2 in
      let new : live_weight w e ≡ w e = ap (λ (b : Bool). if b then w e else 0) (live high) in
      rw high (omega (arith, s, mine, new))
]

pub append_entry-weight :
    (w : Entry → ℕ) (l : Ledger) (id : ℕ) (e : Entry)
    → IsLedger l
    → l.count < l.capacity
    → e.live ≡ true
    → weight w (append_entry l id e) ≡ weight w l + w e
unfolding append_entry set_slot
append_entry-weight w l id e h room live =
    let m = append_entry l id e in
    let head = h.ring.inside (omega arith) in
    let snoc = ring_sum-snoc w m 0 l.count in
    let before = ring_sum-ext w m l 0 0 l.count (λ j lt.
      let past : (0 + j == l.count) ≡ false = ground arith in
      slot-append l id (0 + j) e head room (omega arith)
      ∙ ap (λ (b : Bool). if b then e else slot l (0 + j)) past) in
    let at : (0 + l.count == l.count) ≡ true = ground arith in
    let last : slot m (0 + l.count) ≡ e =
      slot-append l id (0 + l.count) e head room (omega arith)
      ∙ ap (λ (b : Bool). if b then e else slot l (0 + l.count)) at in
    let new : live_weight w (slot m (0 + l.count)) ≡ w e =
      ap (live_weight w) last ∙ ap (λ (b : Bool). if b then w e else 0) live in
    omega (arith, snoc, before, new)

-- The counters and the groups do not enter.
pub counters-weight :
    (w : Entry → ℕ) (l : Ledger) (epoch : ℕ) (totals : SendAccounting) (groups : ℕ → Group)
    → weight w (record l { epoch = epoch; totals = totals; groups = groups }) ≡ weight w l
counters-weight w l epoch totals groups =
    let m = record l { epoch = epoch; totals = totals; groups = groups } in
    let same : ring_sum w m 0 l.count ≡ ring_sum w l 0 l.count =
      ring_sum-ext w m l 0 0 l.count (λ j lt. unfold slot slot_index in refl) in
    ap (λ (n : ℕ). sparse_sum w l.sparse + n) same
