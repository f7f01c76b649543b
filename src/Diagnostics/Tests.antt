-- ===== src/Diagnostics/Tests.antt =====
-- Runs of the ledger and of the totals on a few requests.
use wirestead.Prelude.{◌+◌, ◌≡◌, ◌%◌, refl, true, some, none, arith, size_mod}
use wirestead.Diagnostics.Accounting.{
  Cause, add, remove, count_completed, no_sends, count_admitted, accumulate_send_accounting,
}
use wirestead.Diagnostics.Accounting.Balance.{
  IsBalanced, ended_requests, ended_bytes, count_admitted-IsBalanced, no_sends-IsBalanced,
  accumulate_send_accounting-IsBalanced,
}
use wirestead.Diagnostics.Ledger.{
  Ledger, new_ledger, admit, admitted, begin_locked, complete_locked, discard, rollback, end,
  snapshot, snapshot_group, find, compact, compact_rounds, write, erase, erase_sparse, find_sparse,
  set_sparse, update, apply_group, ensure_room, renew_group, make_room, grow, detach, count_live,
  append_entry, set_slot, slot, slot_index,
}
use wirestead.Diagnostics.Ledger.Weight.{weight}
use wirestead.Diagnostics.Ledger.Conserve.{share, Measure}
use wirestead.Diagnostics.Ledger.Reach.{
  Reach, Step, Reach-IsCounted, Reach-snapshot, Reach-snapshot_group, end-outstanding,
}
use wirestead.Diagnostics.Ledger.Map.{
  without, with_entry, removals-without, begin_locked-with_entry, admit-with_entry,
}

-- A request of 5 bytes for the group 0, and one of 7 for the ledger only; the first is begun.
abbrev one_sent : Ledger
one_sent = (admit new_ledger 5 (some 0)).0

abbrev two_sent : Ledger
two_sent = (admit one_sent 7 none).0

abbrev one_active : Ledger
one_active = (begin_locked two_sent 1).0

two_sent_ids : find two_sent 2 ≡ some (admitted 7 0 none)
unfolding find admit update apply_group ensure_room renew_group make_room grow detach count_live
    append_entry set_slot slot slot_index
two_sent_ids = refl

-- Half of the first is confirmed: it counts as lost, and 7 bytes stay outstanding.
half_confirmed :
    ((snapshot (complete_locked one_active 1 2)).connection_loss.aborted_during_write.bytes ≡ 5)
    × ((snapshot (complete_locked one_active 1 2)).outstanding.bytes ≡ 7)
    × ((snapshot (complete_locked one_active 1 2)).confirmed_written_bytes ≡ 2)
unfolding find admit update apply_group ensure_room renew_group make_room grow detach count_live
    append_entry set_slot slot slot_index snapshot complete_locked begin_locked write erase compact
    compact_rounds add count_admitted count_completed remove erase_sparse find_sparse set_sparse
half_confirmed = (refl, refl, refl)

one_sent-next_id : one_sent.next_id ≡ 1
unfolding admit update apply_group ensure_room renew_group make_room grow detach count_live
    append_entry set_slot slot slot_index
one_sent-next_id = refl

one_sent-Reach : Reach one_sent
one_sent-Reach = Reach.steps Reach.starts (Step.admits 5 (some 0) (omega arith) (omega arith))

two_sent-Reach : Reach two_sent
two_sent-Reach =
    Reach.steps one_sent-Reach (Step.admits 7 none (omega arith) (omega (arith, one_sent-next_id)))

one_active-Reach : Reach one_active
one_active-Reach = Reach.steps two_sent-Reach (Step.begins 1)

Reach-snapshot_example :
    IsBalanced
      (weight (share one_active.epoch none Measure.in_requests) one_active)
      (weight (share one_active.epoch none Measure.in_bytes) one_active)
      (snapshot one_active)
Reach-snapshot_example = Reach-snapshot one_active one_active-Reach

Reach-snapshot_group_example :
    IsBalanced
      (weight (share one_active.epoch (some 0) Measure.in_requests) one_active)
      (weight (share one_active.epoch (some 0) Measure.in_bytes) one_active)
      (snapshot_group one_active (some 0))
Reach-snapshot_group_example = Reach-snapshot_group one_active 0 one_active-Reach

end-outstanding_example :
    let t = snapshot (end one_active Cause.connection_loss) in
    (t.outstanding.requests ≡ 0)
    × (t.outstanding.bytes ≡ 0)
    × (t.accepted.requests ≡ ended_requests t % size_mod)
    × (t.accepted.bytes ≡ ended_bytes t % size_mod)
end-outstanding_example = end-outstanding one_active Cause.connection_loss one_active-Reach

removals-without_example :
    (find (complete_locked one_active 1 5) 2 ≡ without (find one_active) 1 2)
    × (find (discard one_active 1 Cause.explicit_stop) 2 ≡ without (find one_active) 1 2)
    × (find (rollback one_active 1) 2 ≡ without (find one_active) 1 2)
removals-without_example =
    removals-without one_active 1 5 Cause.explicit_stop 2 (Reach-IsCounted one_active-Reach).valid

begin_locked-with_entry_example :
    ((begin_locked two_sent 2).1 ≡ true)
    × (find (begin_locked two_sent 2).0 2
        ≡ with_entry (find two_sent) 2 (record (admitted 7 0 none) { active = true }) 2)
begin_locked-with_entry_example =
    begin_locked-with_entry two_sent 2 (admitted 7 0 none) 2 (Reach-IsCounted two_sent-Reach).valid
      two_sent_ids

admit-with_entry_example :
    ((admit one_sent 7 none).1 ≡ one_sent.next_id + 1)
    × (find (admit one_sent 7 none).0 1
        ≡ with_entry (find one_sent) (one_sent.next_id + 1) (admitted 7 one_sent.epoch none) 1)
admit-with_entry_example =
    admit-with_entry one_sent 7 none 1 (Reach-IsCounted one_sent-Reach).valid
      (omega (arith, one_sent-next_id))

accumulate_send_accounting-IsBalanced_example :
    IsBalanced 2 8
      (accumulate_send_accounting (count_admitted 3 no_sends) (count_admitted 5 no_sends))
accumulate_send_accounting-IsBalanced_example =
    accumulate_send_accounting-IsBalanced 1 1 3 5 (count_admitted 3 no_sends)
      (count_admitted 5 no_sends) (count_admitted-IsBalanced 0 0 3 no_sends no_sends-IsBalanced)
      (count_admitted-IsBalanced 0 0 5 no_sends no_sends-IsBalanced)
