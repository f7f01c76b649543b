-- ===== src/Diagnostics/Ledger/Admit.antt =====
-- An admission: the group is renewed, room is made, the request is put in.
use wirestead.Prelude.{
  ℕ, ◌/◌, ◌+◌, ◌<◌, ◌≡◌, ◌≢◌, refl, sym, ap, subst, ◌∙◌, true, false, not, ◌&&◌, Option, none, some,
  ◌==◌, leb, if◌then◌else◌, arith, Bool-cases, ◌⊎◌, inl, inr, size_mod, add_size, add_size-small,
}
use wirestead.Diagnostics.Accounting.{SendAccounting, no_sends, count_admitted}
use wirestead.Diagnostics.Accounting.Balance.{IsBalanced_along, no_sends-IsBalanced}
use wirestead.Diagnostics.Ledger.{
  Entry, Ledger, update, renew_group, ensure_room, append_entry, admit, admitted, set_slot,
}
use wirestead.Diagnostics.Ledger.Find.{IsLedger}
use wirestead.Diagnostics.Ledger.Refine.{IsSame, counters-IsSame}
use wirestead.Diagnostics.Ledger.Weight.{weight, counters-weight}
use wirestead.Diagnostics.Ledger.Conserve.{
  member, totals_of, epoch_of, share, Measure, oversized, IsCounted, update-totals, update-epoch,
  update-ledger_epoch, update-weight, update-IsSame, IsKept,
}
use wirestead.Diagnostics.Ledger.Tally.{kept-epoch_of}
use wirestead.Diagnostics.Ledger.{make_room, detach, grow, count_live}
use wirestead.Diagnostics.Ledger.Put.{IsMoved, moved-IsCounted, IsPut, put-IsCounted}
use wirestead.Diagnostics.Ledger.Detach.{ensure_room-IsSame}
use wirestead.Diagnostics.Ledger.Weight.{ensure_room-weight, append_entry-weight}
use wirestead.Diagnostics.Ledger.Refine.{append_entry-IsWritten}

pub ensure_room-IsKept : (l : Ledger) → IsKept l (ensure_room l)
unfolding ensure_room make_room detach grow
ensure_room-IsKept l =
    elim (l.count == l.capacity) as (λ b. IsKept l (if b then make_room l else l)) [
      | false ↦ record { epoch = refl; next_id = refl; totals = refl; groups = refl }
      | true ↦
          elim (not (l.capacity == 0) && leb (count_live l 0 l.count) (l.count / 2))
            as (λ b. IsKept l (if b then detach l else grow l)) [
              | true ↦ record { epoch = refl; next_id = refl; totals = refl; groups = refl }
              | false ↦ record { epoch = refl; next_id = refl; totals = refl; groups = refl }
            ]
    ]

pub ensure_room-fits : (l : Ledger) → IsLedger l → (ensure_room l).count < (ensure_room l).capacity
unfolding ensure_room make_room detach grow
ensure_room-fits l h = ground (arith, h.ring.fits)

pub ensure_room-IsMoved : (l : Ledger) → IsLedger l → IsMoved l (ensure_room l)
ensure_room-IsMoved l h = record {
  valid = (ensure_room-IsSame l h).valid;
  kept = ensure_room-IsKept l;
  big = ensure_room-weight oversized l h;
  weighs = λ ep c u. ensure_room-weight (share ep c u) l h;
}

-- A group of an older epoch starts from zero.
abbrev renewed : Ledger → ℕ → Ledger
renewed l g = record l {
  groups = λ j. if j == g then record { totals = no_sends; epoch = l.epoch } else l.groups j;
}

renewed-cases :
    (l : Ledger) (g : ℕ) (c : Option ℕ)
    → ((c ≡ some g) × (epoch_of (renewed l g) c ≡ l.epoch) × (totals_of (renewed l g) c ≡ no_sends))
      ⊎ ((epoch_of (renewed l g) c ≡ epoch_of l c) × (totals_of (renewed l g) c ≡ totals_of l c))
renewed-cases l g none = inr (refl, refl)
renewed-cases l g (some h) = elim (Bool-cases (h == g)) [
  | inl same ↦
      let eq : h ≡ g = ground arith in
      inl (ap some eq, rw (same, epoch_of) refl, rw (same, totals_of) refl)
  | inr apart ↦ inr (rw (apart, epoch_of) refl, rw (apart, totals_of) refl)
]

renewed-IsCounted :
    (l : Ledger) (g : ℕ) → IsCounted l → (l.groups g).epoch ≢ l.epoch → IsCounted (renewed l g)
renewed-IsCounted l g h old =
    let same : (w : Entry → ℕ) → weight w (renewed l g) ≡ weight w l =
      λ w. counters-weight w l _ _ _ in
    let empty : (c : Option ℕ)
        → c ≡ some g
        → (u : Measure) → weight (share l.epoch c u) (renewed l g) ≡ 0 =
      λ c eq u.
        same (share l.epoch c u) ∙ h.fresh c (subst (λ x. epoch_of l x ≢ l.epoch) (sym eq) old) u in
    record {
      valid = (counters-IsSame l _ _ _ h.valid).valid;
      small = same oversized ∙ h.small;
      current = λ c in_epoch. elim (renewed-cases l g c) [
        | inl (eq, now, zero_totals) ↦
            IsBalanced_along 0 _ 0 _ no_sends _ (empty c eq Measure.in_requests)
              (empty c eq Measure.in_bytes) zero_totals no_sends-IsBalanced
        | inr (ep, tot) ↦
            IsBalanced_along _ _ _ _ (totals_of l c) _ (same (share l.epoch c Measure.in_requests))
              (same (share l.epoch c Measure.in_bytes)) tot (h.current c (sym ep ∙ in_epoch))
      ];
      fresh = λ c out_epoch u. same (share l.epoch c u) ∙ (elim (renewed-cases l g c) [
        | inl (eq, now, zero_totals) ↦ absurd (out_epoch now)
        | inr (ep, tot) ↦ h.fresh c (λ at. out_epoch (ep ∙ at)) u
      ]);
      past = λ c. elim (renewed-cases l g c) [
        | inl (eq, now, zero_totals) ↦ omega (arith, now)
        | inr (ep, tot) ↦ omega (arith, ep, h.past c)
      ];
      later = λ ep c u lt. same (share ep c u) ∙ h.later ep c u lt;
    }

renew_group-IsCounted :
    (l : Ledger) (group : Option ℕ) → IsCounted l → IsCounted (renew_group l group)
unfolding renew_group
renew_group-IsCounted l none h = h
renew_group-IsCounted l (some g) h = elim (Bool-cases ((l.groups g).epoch == l.epoch)) [
  | inl now ↦ rw now h
  | inr old ↦ rw old (renewed-IsCounted l g h (ground arith))
]

-- The request goes to the ledger and to its group, which is of the current epoch.
renew_group-current :
    (l : Ledger) (bytes epoch : ℕ) (group c : Option ℕ)
    → member c (admitted bytes epoch group) ≡ true
    → epoch_of (renew_group l group) c ≡ (renew_group l group).epoch
unfolding renew_group
renew_group-current l bytes epoch group none mine = refl
renew_group-current l bytes epoch none (some g) mine = cc
renew_group-current l bytes epoch (some h) (some g) mine =
    let eq : h ≡ g = ground arith in
    let at : (g == h) ≡ true = ground arith in
    elim (Bool-cases ((l.groups h).epoch == l.epoch)) [
      | inl now ↦
          let here : (l.groups h).epoch ≡ l.epoch = ground arith in
          rw (now, epoch_of) (subst (λ (k : ℕ). (l.groups k).epoch ≡ l.epoch) eq here)
      | inr old ↦ rw (old, at, epoch_of) refl
    ]

append_entry-totals :
    (l : Ledger) (id : ℕ) (e : Entry) (c : Option ℕ)
    → totals_of (append_entry l id e) c ≡ totals_of l c
unfolding append_entry set_slot
append_entry-totals l id e none = refl
append_entry-totals l id e (some g) = refl

append_entry-epoch :
    (l : Ledger) (id : ℕ) (e : Entry) (c : Option ℕ)
    → epoch_of (append_entry l id e) c ≡ epoch_of l c
unfolding append_entry set_slot
append_entry-epoch l id e none = refl
append_entry-epoch l id e (some g) = refl

append-IsPut :
    (l : Ledger) (e : Entry) (apply : SendAccounting → SendAccounting)
    → IsLedger l
    → l.count < l.capacity
    → l.next_id + 2 < size_mod
    → e.live ≡ true
    → IsPut l (update (append_entry l (l.next_id + 1) e) e apply) e apply
append-IsPut l e apply h room bound live =
    let m = append_entry l (l.next_id + 1) e in
    let valid = (append_entry-IsWritten l e h room bound live).valid in
    let epoch = append_entry-epoch l (l.next_id + 1) e none in
    record {
      valid = (update-IsSame m e apply valid).valid;
      epoch = update-ledger_epoch m e apply ∙ epoch;
      epochs = λ c. update-epoch m e apply c ∙ append_entry-epoch l (l.next_id + 1) e c;
      totals = λ c.
          update-totals m e apply c
          ∙ ap
              (λ (n : ℕ).
                if e.epoch == n && member c e then apply (totals_of m c) else totals_of m c)
              epoch
          ∙ ap (λ t. if e.epoch == l.epoch && member c e then apply t else t)
              (append_entry-totals l (l.next_id + 1) e c);
      weighs =
          λ w. update-weight w m e apply ∙ append_entry-weight w l (l.next_id + 1) e h room live;
    }

pub renew_group-next_id :
    (l : Ledger) (group : Option ℕ) → (renew_group l group).next_id ≡ l.next_id
unfolding renew_group
renew_group-next_id l none = refl
renew_group-next_id l (some g) = elim (Bool-cases ((l.groups g).epoch == l.epoch)) [
  | inl now ↦ rw now refl
  | inr old ↦ rw old refl
]

pub renew_group-IsSame :
    (l : Ledger) (group : Option ℕ) → IsLedger l → IsSame l (renew_group l group)
unfolding renew_group
renew_group-IsSame l none h = record { valid = h; same = λ j. refl }
renew_group-IsSame l (some g) h =
    elim ((l.groups g).epoch == l.epoch) as (λ b. IsSame l (if b then l else renewed l g)) [
      | true ↦ record { valid = h; same = λ j. refl }
      | false ↦ counters-IsSame l _ _ _ h
    ]

pub renew_group-epoch : (l : Ledger) (group : Option ℕ) → (renew_group l group).epoch ≡ l.epoch
unfolding renew_group
renew_group-epoch l none = refl
renew_group-epoch l (some g) =
    elim ((l.groups g).epoch == l.epoch) as (λ b. (if b then l else renewed l g).epoch ≡ l.epoch) [
      | true ↦ refl
      | false ↦ refl
    ]

pub admit-IsCounted :
    (l : Ledger) (bytes : ℕ) (group : Option ℕ)
    → IsCounted l
    → bytes < size_mod
    → l.next_id + 2 < size_mod
    → IsCounted (admit l bytes group).0
unfolding admit
admit-IsCounted l bytes group h small bound =
    let r = renew_group l group in
    let counted = renew_group-IsCounted l group h in
    let room = ensure_room r in
    let moved = ensure_room-IsMoved r counted.valid in
    let e = admitted bytes room.epoch group in
    let kept = moved.kept.next_id ∙ renew_group-next_id l group in
    let number : add_size l.next_id 1 ≡ room.next_id + 1 =
      ap (λ (n : ℕ). add_size n 1) (sym kept)
      ∙ add_size-small room.next_id 1 (omega (arith, kept)) in
    rw number (
      put-IsCounted room _ e (moved-IsCounted r room counted moved)
        (append-IsPut room e (count_admitted bytes) moved.valid (ensure_room-fits r counted.valid)
          (omega (arith, kept)) refl)
        small refl
        (λ c mine.
          kept-epoch_of r room c moved.kept
          ∙ renew_group-current l bytes room.epoch group c mine
          ∙ sym moved.kept.epoch))
