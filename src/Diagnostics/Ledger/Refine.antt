-- ===== src/Diagnostics/Ledger/Refine.antt =====
-- The operations on the entries of the ledger refine those of a map from numbers to entries.
use wirestead.Prelude.{
  ℕ, zero, suc, ◌+◌, ◌-◌, ◌<◌, ◌≡◌, refl, ap, ◌∙◌, Bool, true, false, none, some, ◌==◌, ltb, leb,
  if◌then◌else◌, arith, Bool-cases, inl, inr, size_mod, add_size, add_size-small,
}
use wirestead.Diagnostics.Accounting.{SendAccounting}
use wirestead.Diagnostics.Ledger.{
  Group, Entry, Ledger, slot_index, slot, set_slot, grow, find, write, erase, compact,
  compact_rounds, retired, set_sparse, erase_sparse, append_entry,
}
use wirestead.Diagnostics.Ledger.Ring.{slot-set_slot, slot-grow}
use wirestead.Diagnostics.Ledger.Sparse.{
  find_sparse-erase, find_sparse-set, erase_sparse-AreKeys, set_sparse-AreKeys,
}
use wirestead.Diagnostics.Ledger.Find.{
  IsLedger, find-ring, find-set_slot, step, step-IsLedger, set_slot-IsLedger, find-sparse_change,
  sparse-IsLedger, find-low, find-slots, find-step,
}

-- The same entries: an invariant ledger in which each number finds what it found before.
pub record IsSame (l m : Ledger) : Type 0 where
  pub valid : IsLedger m
  pub same : (j : ℕ) → find m j ≡ find l j

pub compact_rounds-IsSame : (n : ℕ) (l : Ledger) → IsLedger l → IsSame l (compact_rounds n l)
unfolding compact_rounds
compact_rounds-IsSame zero l h = record { valid = h; same = λ j. refl }
compact_rounds-IsSame (suc n) l h = elim (Bool-cases (l.count == 0)) [
  | inl empty ↦ rw empty (record { valid = h; same = λ j. refl })
  | inr some_left ↦ elim (Bool-cases (slot l 0).live) [
    | inl live ↦ rw (some_left, live) (record { valid = h; same = λ j. refl })
    | inr dead ↦
        let pos : 0 < l.count = ground arith in
        let valid = step-IsLedger l h pos in
        let next : add_size l.base 1 ≡ l.base + 1 =
          add_size-small l.base 1 (omega (arith, h.numbered, h.bounded)) in
        let ih = compact_rounds-IsSame n (step (l.base + 1) l) valid in
        rw (some_left, dead, next)
          (record { valid = ih.valid; same = λ j. ih.same j ∙ find-step l j h pos dead })
  ]
]

-- A request that is found, removed.
pub record IsErased (l m : Ledger) (id : ℕ) : Type 0 where
  pub valid : IsLedger m
  pub removed : (j : ℕ) → find m j ≡ (if j == id then none else find l j)

pub erase-IsErased :
    (l : Ledger) (id : ℕ) (e : Entry)
    → IsLedger l
    → find l id ≡ some e
    → IsErased l (erase l id e) id
unfolding erase compact
erase-IsErased l id e h found = elim (Bool-cases (ltb id l.base)) [
  | inl low ↦ rw low (record {
    valid = sparse-IsLedger l _ h (erase_sparse-AreKeys l.base l.sparse id h.keys);
    removed = λ j.
        find-sparse_change l (erase_sparse l.sparse id) id j none low
          (find_sparse-erase l.base l.sparse id j h.keys);
  })
  | inr high ↦
      let at = find-ring l id e found high in
      let m = set_slot l (id - l.base) (retired e) in
      let rest =
        compact_rounds-IsSame m.count m (set_slot-IsLedger l (id - l.base) (retired e) h) in
      rw high (record {
        valid = rest.valid;
        removed = λ j.
            rest.same j
            ∙ find-set_slot l (id - l.base) j (retired e) h at.0
            ∙ ap (λ (n : ℕ). if j == n then none else find l j) (ground arith);
      })
]

-- A request that is found, rewritten.
pub record IsWritten (l m : Ledger) (id : ℕ) (e : Entry) : Type 0 where
  pub valid : IsLedger m
  pub written : (j : ℕ) → find m j ≡ (if j == id then some e else find l j)

pub write-IsWritten :
    (l : Ledger) (id : ℕ) (d e : Entry)
    → IsLedger l
    → find l id ≡ some d
    → (ltb id l.base ≡ false → e.live ≡ true)
    → IsWritten l (write l id e) id e
unfolding write
write-IsWritten l id d e h found live = elim (Bool-cases (ltb id l.base)) [
  | inl low ↦
      let at = find-low l id d found low in
      rw low (record {
        valid = sparse-IsLedger l _ h (set_sparse-AreKeys l.base l.sparse id d e at h.keys);
        written = λ j.
            find-sparse_change l (set_sparse l.sparse id e) id j (some e) low
              (find_sparse-set l.sparse id j d e at);
      })
  | inr high ↦
      let at = find-ring l id d found high in
      let here : l.base + (id - l.base) ≡ id = ground arith in
      rw high (record {
        valid = set_slot-IsLedger l (id - l.base) e h;
        written = λ j.
            find-set_slot l (id - l.base) j e h at.0
            ∙ ap
                (λ (b : Bool).
                  if j == l.base + (id - l.base) then (if b then some e else none) else find l j)
                (live high)
            ∙ ap (λ (n : ℕ). if j == n then some e else find l j) here;
      })
]

-- A larger ring holds the same entries.
pub grow-IsSame : (l : Ledger) → IsLedger l → IsSame l (grow l)
unfolding grow
grow-IsSame l h = record {
  valid = record {
    ring = record { fits = ground (arith, h.ring.fits); inside = λ some. some };
    numbered = h.numbered;
    bounded = h.bounded;
    keys = h.keys;
  };
  same = λ j. find-slots l _ _ 0 j (λ i lt. slot-grow l i h.ring lt);
}

pub slot-append :
    (l : Ledger) (id k : ℕ) (e : Entry)
    → l.head < l.capacity
    → l.count < l.capacity
    → k < l.capacity
    → slot (append_entry l id e) k ≡ (if k == l.count then e else slot l k)
unfolding append_entry slot slot_index set_slot
slot-append l id k e head room lt =
    unfold slot slot_index set_slot in (slot-set_slot l l.count k e head room lt)

-- The next request takes the next number.
find-append :
    (l : Ledger) (e : Entry) (j : ℕ)
    → IsLedger l
    → l.count < l.capacity
    → e.live ≡ true
    → find (append_entry l (l.next_id + 1) e) j ≡ (if j == l.next_id + 1 then some e else find l j)
unfolding find append_entry set_slot
find-append l e j h room live =
    let numbered = h.numbered in
    let head = h.ring.inside (omega arith) in
    elim (Bool-cases (ltb j l.base)) [
      | inl low ↦ let apart : (j == l.next_id + 1) ≡ false = ground arith in rw (low, apart) refl
      | inr high ↦ elim (Bool-cases (leb (l.count + 1) (j - l.base))) [
        | inl out ↦
            let apart : (j == l.next_id + 1) ≡ false = ground arith in
            let out1 : leb l.count (j - l.base) ≡ true = ground arith in
            rw (high, out, out1, apart) refl
        | inr window ↦
            let at = slot-append l (l.next_id + 1) (j - l.base) e head room (ground arith) in
            let spot : (j - l.base == l.count) ≡ (j == l.next_id + 1) = ground arith in
            elim (Bool-cases (j == l.next_id + 1)) [
              | inl here ↦ rw (high, window, at, spot, here, live) refl
              | inr there ↦
                  let window1 : leb l.count (j - l.base) ≡ false = ground arith in
                  rw (high, window, window1, at, spot, there) refl
            ]
      ]
    ]

pub append_entry-IsWritten :
    (l : Ledger) (e : Entry)
    → IsLedger l
    → l.count < l.capacity
    → l.next_id + 2 < size_mod
    → e.live ≡ true
    → IsWritten l (append_entry l (l.next_id + 1) e) (l.next_id + 1) e
unfolding append_entry set_slot
append_entry-IsWritten l e h room bound live = record {
  valid = record {
    ring = record { fits = omega arith; inside = h.ring.inside };
    numbered = omega (arith, h.numbered);
    bounded = omega arith;
    keys = h.keys;
  };
  written = λ j. find-append l e j h room live;
}

-- The counters and the groups do not enter.
pub counters-IsSame :
    (l : Ledger) (epoch : ℕ) (totals : SendAccounting) (groups : ℕ → Group)
    → IsLedger l
    → IsSame l (record l { epoch = epoch; totals = totals; groups = groups })
unfolding find slot slot_index
counters-IsSame l epoch totals groups h = record {
  valid = record {
    ring = record { fits = h.ring.fits; inside = h.ring.inside };
    numbered = h.numbered;
    bounded = h.bounded;
    keys = h.keys;
  };
  same = λ j. refl;
}
