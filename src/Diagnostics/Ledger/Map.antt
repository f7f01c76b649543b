-- ===== src/Diagnostics/Ledger/Map.antt =====
-- The ledger as a map from the numbers of requests to their entries: what each operation on a
-- request does to it, wherever the entry is held.
use wirestead.Prelude.{
  ℕ, ◌+◌, ◌<◌, ◌≡◌, refl, sym, ap, ◌∙◌, Bool, true, false, Bool-cases, Option-cases, inl, inr,
  Option, none, some, if◌then◌else◌, ◌==◌, ltb, leb, ◌-◌, arith, size_mod, add_size, add_size-small,
}
use wirestead.Diagnostics.Accounting.{SendAccounting, Cause, count_admitted}
use wirestead.Diagnostics.Ledger.{
  Entry, Ledger, find, slot, update, erase, admit, admitted, renew_group, ensure_room, append_entry,
  begin_locked, complete_locked, discard, rollback, terminate, contains,
}
use wirestead.Diagnostics.Ledger.Find.{IsLedger, find-ring}
use wirestead.Diagnostics.Ledger.Refine.{erase-IsErased, write-IsWritten, append_entry-IsWritten}
use wirestead.Diagnostics.Ledger.Detach.{ensure_room-IsSame}
use wirestead.Diagnostics.Ledger.Admit.{
  ensure_room-IsKept, ensure_room-fits, renew_group-next_id, renew_group-IsSame, renew_group-epoch,
}
use wirestead.Diagnostics.Ledger.Conserve.{update-IsSame}

-- The map without a number.
abbrev pub without : (ℕ → Option Entry) → ℕ → ℕ → Option Entry
without held id j = if j == id then none else held j

-- The map with a number.
abbrev pub with_entry : (ℕ → Option Entry) → ℕ → Entry → ℕ → Option Entry
with_entry held id e j = if j == id then some e else held j

without_missing : (l : Ledger) (id j : ℕ) → find l id ≡ none → find l j ≡ without (find l) id j
without_missing l id j miss = elim (Bool-cases (j == id)) [
  | inl same ↦ let eq : j ≡ id = ground arith in rw same (ap (find l) eq ∙ miss)
  | inr apart ↦ rw apart refl
]

erase-without :
    (l : Ledger) (id : ℕ) (e : Entry) (apply : SendAccounting → SendAccounting) (j : ℕ)
    → IsLedger l
    → find l id ≡ some e
    → find (erase (update l e apply) id e) j ≡ without (find l) id j
erase-without l id e apply j h found =
    let s = update-IsSame l e apply h in
    (erase-IsErased (update l e apply) id e s.valid (s.same id ∙ found)).removed j
    ∙ ap (λ x. if j == id then none else x) (s.same j)

-- A request that is completed, discarded or rolled back is held no more, and each other one as
-- before.
pub removals-without :
    (l : Ledger) (id confirmed_bytes : ℕ) (cause : Cause) (j : ℕ)
    → IsLedger l
    → (find (complete_locked l id confirmed_bytes) j ≡ without (find l) id j)
      × (find (discard l id cause) j ≡ without (find l) id j)
      × (find (rollback l id) j ≡ without (find l) id j)
unfolding complete_locked discard rollback terminate
removals-without l id confirmed_bytes cause j h = elim (Option-cases (find l id)) [
  | inl miss ↦
      let same = without_missing l id j miss in
      rw (miss, complete_locked, discard, rollback) (same, same, same)
  | inr (e, found) ↦
      rw (found, complete_locked, discard, rollback)
        (
          erase-without l id e _ j h found,
          erase-without l id e _ j h found,
          erase-without l id e _ j h found,
        )
]

-- A request that is begun is active, and each other one as before.
pub begin_locked-with_entry :
    (l : Ledger) (id : ℕ) (e : Entry) (j : ℕ)
    → IsLedger l
    → find l id ≡ some e
    → ((begin_locked l id).1 ≡ true)
      × (find (begin_locked l id).0 j ≡ with_entry (find l) id (record e { active = true }) j)
unfolding begin_locked
begin_locked-with_entry l id e j h found =
    let live : ltb id l.base ≡ false → e.live ≡ true = λ high. (find-ring l id e found high).2 in
    let w = write-IsWritten l id e (record e { active = true }) h found live in
    rw (found, begin_locked) (refl, w.written j)

-- contains tells whether a request is held.
pub contains-find :
    (l : Ledger) (id : ℕ) → contains l id ≡ (elim (find l id) [ none ↦ false | some _ ↦ true ])
unfolding contains find
contains-find l id = elim (Bool-cases (ltb id l.base)) [
  | inl low ↦ rw low refl
  | inr high ↦ elim (Bool-cases (leb l.count (id - l.base))) [
    | inl out ↦
        let out1 : ltb (id - l.base) l.count ≡ false = ground arith in rw (high, out, out1) refl
    | inr window ↦
        let at : ltb (id - l.base) l.count ≡ true = ground arith in
        let e = slot l (id - l.base) in
        rw (high, window, at)
          (elim e.live
            as (λ b. b ≡ (elim (if b then some e else none) as (λ _. Bool) [
              | none ↦ false
              | some _ ↦ true
            ])) [ true ↦ refl | false ↦ refl ])
  ]
]

-- An admission gives the next number to the request, which waits in the current epoch.
pub admit-with_entry :
    (l : Ledger) (bytes : ℕ) (group : Option ℕ) (j : ℕ)
    → IsLedger l
    → l.next_id + 2 < size_mod
    → ((admit l bytes group).1 ≡ l.next_id + 1)
      × (find (admit l bytes group).0 j
          ≡ with_entry (find l) (l.next_id + 1) (admitted bytes l.epoch group) j)
unfolding admit
admit-with_entry l bytes group j h bound =
    let r = renew_group l group in
    let renewed = renew_group-IsSame l group h in
    let room = ensure_room r in
    let same = ensure_room-IsSame r renewed.valid in
    let kept = ensure_room-IsKept r in
    let next_id : room.next_id ≡ l.next_id = kept.next_id ∙ renew_group-next_id l group in
    let epoch : room.epoch ≡ l.epoch = kept.epoch ∙ renew_group-epoch l group in
    let number : add_size l.next_id 1 ≡ room.next_id + 1 =
      ap (λ (n : ℕ). add_size n 1) (sym next_id)
      ∙ add_size-small room.next_id 1 (omega (arith, next_id)) in
    let e = admitted bytes room.epoch group in
    let put =
      append_entry-IsWritten room e same.valid (ensure_room-fits r renewed.valid)
        (omega (arith, next_id)) refl in
    let counted =
      update-IsSame (append_entry room (room.next_id + 1) e) e (count_admitted bytes) put.valid in
    rw number (
      ap (λ (n : ℕ). n + 1) next_id,
      counted.same j
          ∙ put.written j
          ∙ ap (λ (n : ℕ). with_entry (find room) (n + 1) e j) next_id
          ∙ ap (λ (n : ℕ). with_entry (find room) (l.next_id + 1) (admitted bytes n group) j) epoch
          ∙ ap (λ x. if j == l.next_id + 1 then some (admitted bytes l.epoch group) else x)
              (same.same j ∙ renewed.same j),
    )
