-- ===== src/Diagnostics/Ledger/Find.antt =====
-- What the ledger finds behind each change: it is a map from the numbers of requests to entries,
-- however the entries are spread over the ring and the sparse map.
use wirestead.Prelude.{
  ℕ, ◌+◌, ◌-◌, ◌%◌, ◌≤◌, ◌<◌, ◌≡◌, refl, ap, ◌∙◌, true, false, List, [], ◌∷◌, Option, none, some,
  ◌==◌, ltb, leb, if◌then◌else◌, arith, Bool-cases, inl, inr, size_mod,
}
use native.Mathlib.Nat.{mod-lt}
use wirestead.Diagnostics.Ledger.{Entry, Ledger, slot_index, slot, set_slot, find, find_sparse}
use wirestead.Diagnostics.Ledger.Ring.{IsRing, slot-set_slot, slot-advanced}
use wirestead.Diagnostics.Ledger.Sparse.{AreKeys, find_sparse-above}

-- The ring holds the numbers from `base_` to `next_id_`, the sparse map lower ones.
pub record IsLedger (l : Ledger) : Type 0 where
  pub ring : IsRing l
  pub numbered : l.base + l.count ≡ l.next_id + 1
  pub bounded : l.next_id + 1 < size_mod
  pub keys : AreKeys l.base l.sparse

pub AreKeys-mono : (a b : ℕ) (m : List (ℕ × Entry)) → a ≤ b → AreKeys a m → AreKeys b m
AreKeys-mono a b [] le h = tt
AreKeys-mono a b ((k, e) ∷ m) le (lt, fresh, h) = (omega arith, fresh, AreKeys-mono a b m le h)

-- A request that is found is live, and in the ring its slot is in the window.
pub find-ring :
    (l : Ledger) (id : ℕ) (e : Entry)
    → find l id ≡ some e
    → ltb id l.base ≡ false
    → (id - l.base < l.count) × (slot l (id - l.base) ≡ e) × (e.live ≡ true)
unfolding find
find-ring l id e h out = ground arith

-- The slots of the ring after a write at a slot of it.
pub find-set_slot :
    (l : Ledger) (i j : ℕ) (e : Entry)
    → IsLedger l
    → i < l.count
    → find (set_slot l i e) j
      ≡ (if j == l.base + i then (if e.live then some e else none) else find l j)
unfolding find set_slot
find-set_slot l i j e h lt = elim (Bool-cases (ltb j l.base)) [
  | inl low ↦ let apart : (j == l.base + i) ≡ false = ground arith in rw (low, apart) refl
  | inr high ↦
      let r = h.ring in
      let fits = r.fits in
      let head = r.inside (omega arith) in
      elim (Bool-cases (leb l.count (j - l.base))) [
        | inl over ↦
            let apart : (j == l.base + i) ≡ false = ground arith in rw (high, over, apart) refl
        | inr in_ring ↦
            let at = slot-set_slot l i (j - l.base) e head (omega arith) (ground arith) in
            let same : (j - l.base == i) ≡ (j == l.base + i) = ground arith in
            rw (high, in_ring, at, same)
              (elim (Bool-cases (j == l.base + i)) [
                | inl here ↦ rw here refl
                | inr there ↦ rw there refl
              ])
      ]
]

-- compact takes slots that are not live.
abbrev pub step : ℕ → Ledger → Ledger
step base l = record l { head = (l.head + 1) % l.capacity; count = l.count - 1; base = base }

pub step-IsLedger : (l : Ledger) → IsLedger l → 0 < l.count → IsLedger (step (l.base + 1) l)
step-IsLedger l h pos =
    let r = h.ring in
    let head = r.inside (omega arith) in
    record {
      ring = record { fits = omega arith; inside = λ _. mod-lt (l.head + 1) (omega arith) };
      numbered = omega arith;
      bounded = h.bounded;
      keys = AreKeys-mono l.base (l.base + 1) l.sparse (omega arith) h.keys;
    }

pub find-step :
    (l : Ledger) (j : ℕ)
    → IsLedger l
    → 0 < l.count
    → (slot l 0).live ≡ false
    → find (step (l.base + 1) l) j ≡ find l j
unfolding find
find-step l j h pos dead = elim (Bool-cases (ltb j l.base)) [
  | inl low ↦ let low1 : ltb j (l.base + 1) ≡ true = ground arith in rw (low, low1) refl
  | inr high ↦ elim (Bool-cases (j == l.base)) [
    | inl at ↦
        let low1 : ltb j (l.base + 1) ≡ true = ground arith in
        let zero_at : j - l.base ≡ 0 = ground arith in
        let some_count : leb l.count 0 ≡ false = ground arith in
        rw (high, low1, zero_at, some_count, dead)
          (find_sparse-above l.base l.sparse j h.keys (ground arith))
    | inr past ↦
        let high1 : ltb j (l.base + 1) ≡ false = ground arith in
        let moved : slot (step (l.base + 1) l) (j - (l.base + 1)) ≡ slot l (j - l.base) =
          slot-advanced l (l.count - 1) (l.base + 1) (j - (l.base + 1))
          ∙ ap (slot l) (ground arith) in
        let window : leb (l.count - 1) (j - (l.base + 1)) ≡ leb l.count (j - l.base) =
          ground arith in
        rw (high, high1, moved, window) refl
  ]
]

pub set_slot-IsLedger : (l : Ledger) (i : ℕ) (e : Entry) → IsLedger l → IsLedger (set_slot l i e)
unfolding set_slot
set_slot-IsLedger l i e h = record {
  ring = record { fits = h.ring.fits; inside = h.ring.inside };
  numbered = h.numbered;
  bounded = h.bounded;
  keys = h.keys;
}

-- A change of the sparse map at a number below the ring.
pub find-sparse_change :
    (l : Ledger) (m : List (ℕ × Entry)) (id j : ℕ) (x : Option Entry)
    → ltb id l.base ≡ true
    → (find_sparse m j ≡ (if j == id then x else find_sparse l.sparse j))
    → find (record l { sparse = m }) j ≡ (if j == id then x else find l j)
unfolding find slot slot_index
find-sparse_change l m id j x low change = elim (Bool-cases (ltb j l.base)) [
  | inl under ↦ rw under change
  | inr over ↦ let apart : (j == id) ≡ false = ground arith in rw (over, apart) refl
]

pub sparse-IsLedger :
    (l : Ledger) (m : List (ℕ × Entry))
    → IsLedger l
    → AreKeys l.base m
    → IsLedger (record l { sparse = m })
sparse-IsLedger l m h keys = record {
  ring = record { fits = h.ring.fits; inside = h.ring.inside };
  numbered = h.numbered;
  bounded = h.bounded;
  keys = keys;
}

-- A request in the sparse map.
pub find-low :
    (l : Ledger) (id : ℕ) (e : Entry)
    → find l id ≡ some e
    → ltb id l.base ≡ true
    → find_sparse l.sparse id ≡ some e
unfolding find
find-low l id e found low = ground arith

-- Other slots of the ring, with the same entries in the window.
pub find-slots :
    (l : Ledger) (slots : ℕ → Entry) (capacity head j : ℕ)
    → ((i : ℕ)
        → i < l.count
        → slot (record l { slots = slots; capacity = capacity; head = head }) i ≡ slot l i)
    → find (record l { slots = slots; capacity = capacity; head = head }) j ≡ find l j
unfolding find
find-slots l slots capacity head j same = elim (Bool-cases (ltb j l.base)) [
  | inl under ↦ rw under refl
  | inr over ↦ elim (Bool-cases (leb l.count (j - l.base))) [
    | inl out ↦ rw (over, out) refl
    | inr window ↦ let at = same (j - l.base) (ground arith) in rw (over, window, at) refl
  ]
]
