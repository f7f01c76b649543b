-- ===== src/Diagnostics/Ledger/Conserve.antt =====
-- What the ledger counts: its own totals and those of each group account for the requests that it
-- holds of the current epoch.
use wirestead.Prelude.{
  ℕ, zero, suc, ◌+◌, ◌-◌, ◌%◌, ◌≤◌, ◌<◌, ◌≡◌, ◌≢◌, refl, sym, ap, Bool, true, false, not, ◌&&◌,
  Option, none, some, ◌==◌, ltb, if◌then◌else◌, arith, Bool-cases, inl, inr, size_mod, add_size,
}
use wirestead.Diagnostics.Accounting.{SendAccounting}
use wirestead.Diagnostics.Accounting.Balance.{IsBalanced}
use wirestead.Diagnostics.Ledger.{
  Group, Entry, Ledger, erase, update, apply_group, same_group, compact, compact_rounds, set_slot,
  retired, erase_sparse, slot, slot_index,
}
use wirestead.Diagnostics.Ledger.Find.{IsLedger, step}
use wirestead.Diagnostics.Ledger.Refine.{IsSame, counters-IsSame}
use wirestead.Diagnostics.Ledger.Weight.{weight, counters-weight}

-- A contributor is the ledger itself, `none`, or a group.
abbrev pub member : Option ℕ → Entry → Bool
member none e = true
member (some g) e = same_group e.group g

abbrev pub totals_of : Ledger → Option ℕ → SendAccounting
totals_of l none = l.totals
totals_of l (some g) = (l.groups g).totals

abbrev pub epoch_of : Ledger → Option ℕ → ℕ
epoch_of l none = l.epoch
epoch_of l (some g) = (l.groups g).epoch

-- What is counted.
pub data Measure : Type 0 where
  in_requests in_bytes : Measure

abbrev pub measure : Measure → Entry → ℕ
measure Measure.in_requests e = 1
measure Measure.in_bytes e = e.bytes

-- The share of an entry in a contributor, in an epoch.
abbrev pub share : ℕ → Option ℕ → Measure → Entry → ℕ
share epoch c u e = if e.epoch == epoch && member c e then measure u e else 0

abbrev pub oversized : Entry → ℕ
oversized e = if ltb e.bytes size_mod then 0 else 1

abbrev pub IsCountedIn : ℕ → Ledger → Option ℕ → SendAccounting → Type 0
IsCountedIn epoch l c t =
    IsBalanced (weight (share epoch c Measure.in_requests) l)
      (weight (share epoch c Measure.in_bytes) l) t

-- A contributor of the current epoch balances; one that was not renewed yet has no request in it.
pub record IsCounted (l : Ledger) : Type 0 where
  pub valid : IsLedger l
  pub small : weight oversized l ≡ 0
  pub current : (c : Option ℕ) → epoch_of l c ≡ l.epoch → IsCountedIn l.epoch l c (totals_of l c)
  pub fresh :
      (c : Option ℕ) → epoch_of l c ≢ l.epoch → (u : Measure) → weight (share l.epoch c u) l ≡ 0
  pub past : (c : Option ℕ) → epoch_of l c ≤ l.epoch
  pub later :
      (epoch : ℕ) (c : Option ℕ) (u : Measure) → l.epoch < epoch → weight (share epoch c u) l ≡ 0

-- What a change of the totals does when it takes a request of so many bytes out.
abbrev pub Lowers : ℕ → (SendAccounting → SendAccounting) → Type 0
Lowers bytes apply =
    bytes < size_mod
    → (requests all : ℕ) (t : SendAccounting) → IsBalanced (1 + requests) (bytes + all) t
    → IsBalanced requests all (apply t)

-- The counters that no move of entries changes.
pub record IsKept (l m : Ledger) : Type 0 where
  pub epoch : m.epoch ≡ l.epoch
  pub next_id : m.next_id ≡ l.next_id
  pub totals : m.totals ≡ l.totals
  pub groups : m.groups ≡ l.groups

pub compact_rounds-IsKept : (n : ℕ) (l : Ledger) → IsKept l (compact_rounds n l)
unfolding compact_rounds
compact_rounds-IsKept zero l = record { epoch = refl; next_id = refl; totals = refl; groups = refl }
compact_rounds-IsKept (suc n) l =
    elim (not (l.count == 0) && not (slot l 0).live)
      as (λ b. IsKept l (if b then compact_rounds n (step (add_size l.base 1) l) else l)) [
        | true ↦
            let k = compact_rounds-IsKept n (step (add_size l.base 1) l) in
            record { epoch = k.epoch; next_id = k.next_id; totals = k.totals; groups = k.groups }
        | false ↦ record { epoch = refl; next_id = refl; totals = refl; groups = refl }
      ]

pub erase-IsKept : (l : Ledger) (id : ℕ) (e : Entry) → IsKept l (erase l id e)
unfolding erase compact set_slot
erase-IsKept l id e =
    elim (ltb id l.base)
      as (λ b. IsKept l (
        if b
        then record l { sparse = erase_sparse l.sparse id }
        else compact (set_slot l (id - l.base) (retired e)))) [
          | true ↦ record { epoch = refl; next_id = refl; totals = refl; groups = refl }
          | false ↦
              let k = compact_rounds-IsKept l.count (set_slot l (id - l.base) (retired e)) in
              record { epoch = k.epoch; next_id = k.next_id; totals = k.totals; groups = k.groups }
        ]

apply_group-totals :
    (groups : ℕ → Group) (o : Option ℕ) (apply : SendAccounting → SendAccounting) (g : ℕ)
    → (apply_group groups o apply g).totals
      ≡ (if same_group o g then apply (groups g).totals else (groups g).totals)
unfolding apply_group
apply_group-totals groups none apply g = refl
apply_group-totals groups (some h) apply g = elim (Bool-cases (g == h)) [
  | inl same ↦
      let eq : g ≡ h = ground arith in
      let at : (h == g) ≡ true = ground arith in
      rw (same, at) (ap (λ (k : ℕ). apply (groups k).totals) (sym eq))
  | inr apart ↦ let off : (h == g) ≡ false = ground arith in rw (apart, off) refl
]

apply_group-epoch :
    (groups : ℕ → Group) (o : Option ℕ) (apply : SendAccounting → SendAccounting) (g : ℕ)
    → (apply_group groups o apply g).epoch ≡ (groups g).epoch
unfolding apply_group
apply_group-epoch groups none apply g = refl
apply_group-epoch groups (some h) apply g = elim (Bool-cases (g == h)) [
  | inl same ↦ let eq : g ≡ h = ground arith in rw same (ap (λ (k : ℕ). (groups k).epoch) (sym eq))
  | inr apart ↦ rw apart refl
]

-- update counts for the contributors of the entry.
pub update-totals :
    (l : Ledger) (e : Entry) (apply : SendAccounting → SendAccounting) (c : Option ℕ)
    → totals_of (update l e apply) c
      ≡ (if e.epoch == l.epoch && member c e then apply (totals_of l c) else totals_of l c)
unfolding update apply_group
update-totals l e apply none = ground arith
update-totals l e apply (some g) = elim (Bool-cases (e.epoch == l.epoch)) [
  | inl now ↦ rw now (apply_group-totals l.groups e.group apply g)
  | inr stale ↦ rw stale refl
]

pub update-epoch :
    (l : Ledger) (e : Entry) (apply : SendAccounting → SendAccounting) (c : Option ℕ)
    → epoch_of (update l e apply) c ≡ epoch_of l c
unfolding update apply_group
update-epoch l e apply none = ground arith
update-epoch l e apply (some g) = elim (Bool-cases (e.epoch == l.epoch)) [
  | inl now ↦ rw now (apply_group-epoch l.groups e.group apply g)
  | inr stale ↦ rw stale refl
]

pub update-ledger_epoch :
    (l : Ledger) (e : Entry) (apply : SendAccounting → SendAccounting)
    → (update l e apply).epoch ≡ l.epoch
unfolding update
update-ledger_epoch l e apply =
    elim (e.epoch == l.epoch)
      as (λ b.
        (if b
          then record l { totals = apply l.totals; groups = apply_group l.groups e.group apply }
          else l).epoch
        ≡ l.epoch) [ true ↦ refl | false ↦ refl ]

pub update-weight :
    (w : Entry → ℕ) (l : Ledger) (e : Entry) (apply : SendAccounting → SendAccounting)
    → weight w (update l e apply) ≡ weight w l
unfolding update
update-weight w l e apply =
    elim (e.epoch == l.epoch)
      as (λ b.
        weight w (
          if b
          then record l { totals = apply l.totals; groups = apply_group l.groups e.group apply }
          else l)
        ≡ weight w l) [ true ↦ counters-weight w l _ _ _ | false ↦ refl ]

pub update-IsSame :
    (l : Ledger) (e : Entry) (apply : SendAccounting → SendAccounting)
    → IsLedger l
    → IsSame l (update l e apply)
unfolding update
update-IsSame l e apply h =
    elim (e.epoch == l.epoch)
      as (λ b. IsSame l (
        if b
        then record l { totals = apply l.totals; groups = apply_group l.groups e.group apply }
        else l)) [
          | true ↦ counters-IsSame l _ _ _ h
          | false ↦ record { valid = h; same = λ j. refl }
        ]

-- update writes the counters only.
pub update_lem :
    (l : Ledger) (e : Entry) (apply : SendAccounting → SendAccounting)
    → update l e apply
      ≡ record l { totals = (update l e apply).totals; groups = (update l e apply).groups }
unfolding update
update_lem l e apply = elim (Bool-cases (e.epoch == l.epoch)) [
  | inl now ↦ rw now refl
  | inr stale ↦ rw stale refl
]

pub update-slot :
    (l : Ledger) (e : Entry) (apply : SendAccounting → SendAccounting) (i : ℕ)
    → slot (update l e apply) i ≡ slot l i
unfolding slot slot_index
update-slot l e apply i =
    ap (λ (m : Ledger). m.slots ((m.head + i) % m.capacity)) (update_lem l e apply)

pub update-count :
    (l : Ledger) (e : Entry) (apply : SendAccounting → SendAccounting)
    → (update l e apply).count ≡ l.count
update-count l e apply = ap (λ (m : Ledger). m.count) (update_lem l e apply)

pub update-base :
    (l : Ledger) (e : Entry) (apply : SendAccounting → SendAccounting)
    → (update l e apply).base ≡ l.base
update-base l e apply = ap (λ (m : Ledger). m.base) (update_lem l e apply)

pub update-sparse :
    (l : Ledger) (e : Entry) (apply : SendAccounting → SendAccounting)
    → (update l e apply).sparse ≡ l.sparse
update-sparse l e apply = ap (λ (m : Ledger). m.sparse) (update_lem l e apply)
