-- ===== src/Transport/Session/Sends.antt =====
-- The ledger of a session: every step of the session is steps of its ledger, so that the accounts
-- of a session hold.
use wirestead.Prelude.{
  ℕ, ◌≡◌, ◌%◌, min, size_mod, sym, subst, false, not, ◌&&◌, ◌||◌, Option, none, some, leb, ◌==◌,
  arith, Bool-cases, inl, inr, refl, true, Bool,
}
use wirestead.Transport.Backpressure.{EnqueueDecision, decide_enqueue}
use wirestead.Wrapper.Send.{SendResult, SendRejection}
use wirestead.Transport.Session.{
  Session, Limits, Task, TrackedBuffer, new_session, start, with_stats, failed_send, dropped,
  observe_queue, end_wait, unready, write_shared, try_write_shared,
}
use wirestead.Diagnostics.Stats.{RuntimeStatsCounters, record_sent}
use wirestead.Transport.Session.Strand.{
  do_close, do_write, is_empty, kick_write, report_backpressure, write_if_idle, reject_buffer,
  keep_pending, queue_buffer, route_enqueued_buffer, on_enqueue, on_enqueue_reserved,
  lose_connection, on_written, on_completed, on_stop, run, request_stop, cancel_write_wait,
  async_stop, reset_stats,
}
use wirestead.Transport.Session.Progress.{choose}
use wirestead.Diagnostics.Accounting.{Cause, SendAccounting}
use wirestead.Diagnostics.Accounting.Balance.{ended_requests, ended_bytes}
use wirestead.Diagnostics.Ledger
use wirestead.Diagnostics.Ledger.Reach as Accounts
use wirestead.Transport.Session.Strand.{release_queued, end_sends, sizes, stats}
use wirestead.Transport.Session.Steps.{Step, Reach, IsNumbered}
use wirestead.Transport.Session.Answers.{IsAnswered, write-IsAnswered, try_write-IsAnswered}

-- The ledger is one that its operations reach.
abbrev pub HasLedger : Session → Type 0
HasLedger s = Accounts.Reach s.ledger

answered-HasLedger :
    (s : Session) (added : ℕ) (task : TrackedBuffer → Task)
    {loss : Session → ℕ → SendRejection → RuntimeStatsCounters} (r : Session × SendResult)
    → IsNumbered s
    → HasLedger s
    → IsAnswered s added task loss r
    → HasLedger r.0
answered-HasLedger s added task r numbered h answer = elim (Bool-cases r.1.accepted) [
  | inl yes_sent ↦
      let sized = answer.sized yes_sent in
      subst Accounts.Reach (sym (answer.admitted yes_sent))
        (Accounts.Reach.steps h (Accounts.Step.admits added none (omega (arith, sized)) numbered))
  | inr refused ↦ subst HasLedger (sym (answer.refused refused)) h
]

end_sends-HasLedger : (s : Session) (cause : Cause) → HasLedger s → HasLedger (end_sends s cause)
end_sends-HasLedger s cause h = Accounts.Reach.steps h (Accounts.Step.ends cause)

do_close-HasLedger : (s : Session) → HasLedger s → HasLedger (do_close s)
unfolding do_close end_wait
do_close-HasLedger s h =
    choose HasLedger s.cleanup_done s _ (λ done. h)
      (λ first. end_sends-HasLedger s Cause.connection_loss h)

do_write-HasLedger : (s : Session) → HasLedger s → HasLedger (do_write s)
unfolding do_write
do_write-HasLedger s h =
    choose HasLedger (s.closing || (not s.alive || (is_empty s.link.tx || s.writing))) s _
      (λ held. h) (λ free. Accounts.Reach.steps h (Accounts.Step.begins_batch _))

write_if_idle-HasLedger : (s : Session) → HasLedger s → HasLedger (write_if_idle s)
unfolding write_if_idle
write_if_idle-HasLedger s h =
    choose HasLedger s.writing s (do_write s) (λ writing. h) (λ idle. do_write-HasLedger s h)

report_backpressure-HasLedger :
    (f : Limits) (s : Session) (queued : ℕ)
    → HasLedger s
    → HasLedger (report_backpressure f s queued)
unfolding report_backpressure kick_write observe_queue
report_backpressure-HasLedger f s queued h =
    choose HasLedger (unready s) s _ (λ out. h)
      (λ ready.
        choose HasLedger (s.link.counters.backpressure_active && leb queued f.bp_low) _ _
          (λ falls. choose HasLedger s.writing _ _ (λ writing. h) (λ idle. do_write-HasLedger _ h))
          (λ stays. h))

route_enqueued_buffer-HasLedger :
    (f : Limits) (s : Session) (buf : TrackedBuffer) (added : ℕ)
    → HasLedger s
    → HasLedger (route_enqueued_buffer f s buf added)
unfolding route_enqueued_buffer reject_buffer keep_pending queue_buffer observe_queue dropped
route_enqueued_buffer-HasLedger f s buf added h =
    elim (decide_enqueue s.link.counters added f.bp_limit)
      as (λ d. HasLedger (elim d [
        | EnqueueDecision.rejected ↦ reject_buffer f s buf added
        | EnqueueDecision.pending ↦ keep_pending s buf added
        | EnqueueDecision.immediate ↦ queue_buffer f s buf added
      ])) [
        | EnqueueDecision.rejected ↦
            report_backpressure-HasLedger f _ _
              (Accounts.Reach.steps h (Accounts.Step.discards buf.request Cause.queue_pressure))
        | EnqueueDecision.pending ↦ h
        | EnqueueDecision.immediate ↦
            write_if_idle-HasLedger _ (report_backpressure-HasLedger f _ _ h)
      ]

on_written-HasLedger :
    (f : Limits) (s : Session) (bytes_to_write n : ℕ)
    → HasLedger s
    → HasLedger (on_written f s bytes_to_write n)
unfolding on_written
on_written-HasLedger f s bytes_to_write n h =
    let freed = release_queued s bytes_to_write in
    let sent = with_stats freed (record_sent freed.link.stats n) in
    let told = report_backpressure f sent sent.link.counters.queue_bytes in
    let idle = record told { writing = false } in
    let kept : HasLedger told =
      report_backpressure-HasLedger f sent sent.link.counters.queue_bytes h in
    choose HasLedger (unready idle) idle (do_write idle) (λ out. kept)
      (λ still. do_write-HasLedger idle kept)

run-HasLedger : (f : Limits) (s : Session) (t : Task) → HasLedger s → HasLedger (run f s t)
unfolding run on_enqueue on_enqueue_reserved on_completed on_stop lose_connection end_wait
    failed_send observe_queue
run-HasLedger f s (Task.enqueue buf) h =
    choose HasLedger (unready s) _ _ (λ out. h)
      (λ ready. route_enqueued_buffer-HasLedger f s buf buf.size h)
run-HasLedger f s (Task.enqueue_reserved buf) h =
    choose HasLedger (unready s) _ _ (λ out. h)
      (λ ready. write_if_idle-HasLedger _ (report_backpressure-HasLedger f _ _ h))
run-HasLedger f s (Task.completed bytes_to_write ec n) h =
    let counted =
      Accounts.Reach.steps h
        (Accounts.Step.completes_batch (sizes s.current_write_batch) (min n bytes_to_write)) in
    choose HasLedger (unready s) _ _ (λ out. h)
      (λ ready.
        choose HasLedger (ec || not (n == bytes_to_write)) _ _
          (λ failed.
            do_close-HasLedger _
              (Accounts.Reach.steps counted (Accounts.Step.ends Cause.connection_loss)))
          (λ whole. on_written-HasLedger f _ bytes_to_write n counted))
run-HasLedger f s Task.stop h = do_close-HasLedger _ h

write_shared-HasLedger :
    (f : Limits) (s : Session) (bytes : Option ℕ)
    → IsNumbered s
    → HasLedger s
    → HasLedger (write_shared f s bytes).0 × HasLedger (try_write_shared f s bytes).0
unfolding write_shared try_write_shared failed_send
write_shared-HasLedger f s none numbered h = (h, h)
write_shared-HasLedger f s (some added) numbered h = (
  answered-HasLedger s added _ _ numbered h (write-IsAnswered f s added).2,
  answered-HasLedger s added _ _ numbered h (try_write-IsAnswered f s added).2,
)

step-HasLedger : (f : Limits) {s m : Session} → Step f s m → HasLedger s → HasLedger m
unfolding start request_stop cancel_write_wait async_stop reset_stats end_wait lose_connection
step-HasLedger f Step.starts h = h
step-HasLedger f (Step.copies {s} size numbered) h =
    answered-HasLedger s size _ _ numbered h (write-IsAnswered f s size).0
step-HasLedger f (Step.moves {s} added numbered) h =
    answered-HasLedger s added _ _ numbered h (write-IsAnswered f s added).1
step-HasLedger f (Step.shares {s} bytes numbered) h =
    (write_shared-HasLedger f s bytes numbered h).0
step-HasLedger f (Step.tries_copy {s} size numbered) h =
    answered-HasLedger s size _ _ numbered h (try_write-IsAnswered f s size).0
step-HasLedger f (Step.tries {s} added numbered) h =
    answered-HasLedger s added _ _ numbered h (try_write-IsAnswered f s added).1
step-HasLedger f (Step.tries_shared {s} bytes numbered) h =
    (write_shared-HasLedger f s bytes numbered h).1
step-HasLedger f Step.requests_stop h =
    Accounts.Reach.steps h (Accounts.Step.ends Cause.explicit_stop)
step-HasLedger f Step.cancels h = h
step-HasLedger f Step.stops h = Accounts.Reach.steps h (Accounts.Step.ends Cause.explicit_stop)
step-HasLedger f (Step.resets bound) h = Accounts.Reach.steps h (Accounts.Step.resets bound)
step-HasLedger f (Step.runs {s} t posted first) h =
    run-HasLedger f (record s { posted = posted }) t h
step-HasLedger f (Step.completes bytes_to_write ec n open_write) h = h
step-HasLedger f (Step.throws bytes_to_write open_write) h =
    do_close-HasLedger _ (Accounts.Reach.steps h (Accounts.Step.ends Cause.connection_loss))
step-HasLedger f (Step.closes {s}) h = do_close-HasLedger s h

pub Reach-HasLedger : (f : Limits) (s : Session) → Reach f s → HasLedger s
Reach-HasLedger f s (Reach.begins on_bp on_close) = unfold new_session in Accounts.Reach.starts
Reach-HasLedger f s (Reach.steps {s = l} r step) = step-HasLedger f step (Reach-HasLedger f l r)

-- Nothing is outstanding, and each request was written or lost.
abbrev pub IsEnded : SendAccounting → Type 0
IsEnded t =
    (t.outstanding.requests ≡ 0)
    × (t.outstanding.bytes ≡ 0)
    × (t.accepted.requests ≡ ended_requests t % size_mod)
    × (t.accepted.bytes ≡ ended_bytes t % size_mod)

-- Closing, with nothing outstanding at any time of asking.
pub record HasEnded (m : Session) : Type 0 where
  pub closing : m.closing ≡ true
  pub ended : (now_ns : ℕ) → IsEnded (stats m now_ns).1

HasEnded-of :
    (l : Ledger.Ledger) (cause : Cause) (m : Session)
    → Accounts.Reach l
    → m.closing ≡ true
    → m.ledger ≡ Ledger.end l cause
    → HasEnded m
unfolding stats
HasEnded-of l cause m h closing same = record {
  closing = closing;
  ended = λ now_ns.
      subst (λ e. IsEnded (Ledger.snapshot e)) (sym same) (Accounts.end-outstanding l cause h);
}

do_close-HasEnded : (s : Session) → HasLedger s → s.cleanup_done ≡ false → HasEnded (do_close s)
unfolding do_close end_wait
do_close-HasEnded s h first =
    choose HasEnded s.cleanup_done s _ (λ done. absurd (ground (arith, done, first)))
      (λ open_still. HasEnded-of s.ledger Cause.connection_loss _ h refl refl)

lose_connection-HasEnded :
    (s : Session) → HasLedger s → s.cleanup_done ≡ false → HasEnded (lose_connection s)
unfolding lose_connection end_wait
lose_connection-HasEnded s h first =
    do_close-HasEnded _ (end_sends-HasLedger s Cause.connection_loss h) first

-- In a reachable session that is not cleaned up: a request to stop, a stop and its handler, a close,
-- and a lost connection leave it closing, with nothing outstanding and each accepted request
-- written or lost.
pub ends-HasEnded :
    (f : Limits) (s : Session)
    → Reach f s
    → s.cleanup_done ≡ false
    → HasEnded (request_stop s)
      × HasEnded (async_stop s)
      × HasEnded (do_close s)
      × HasEnded (on_stop s)
      × HasEnded (lose_connection s)
unfolding request_stop async_stop on_stop end_wait
ends-HasEnded f s r first =
    let h = Reach-HasLedger f s r in
    (
      HasEnded-of s.ledger Cause.explicit_stop _ h refl refl,
      HasEnded-of s.ledger Cause.explicit_stop _ h refl refl,
      do_close-HasEnded s h first,
      do_close-HasEnded _ h first,
      lose_connection-HasEnded s h first,
    )

-- In a reachable session that is ready and not cleaned up: a completion with an error, or of another
-- number of bytes than was to be written, leaves it closing, with nothing outstanding and each
-- accepted request written or lost.
pub on_completed-HasEnded :
    (f : Limits) (s : Session) (bytes_to_write : ℕ) (ec : Bool) (n : ℕ)
    → Reach f s
    → s.cleanup_done ≡ false
    → unready s ≡ false
    → (ec || not (n == bytes_to_write)) ≡ true
    → HasEnded (on_completed f s bytes_to_write ec n)
unfolding on_completed
on_completed-HasEnded f s bytes_to_write ec n r first ready failed =
    let counted =
      Accounts.Reach.steps (Reach-HasLedger f s r)
        (Accounts.Step.completes_batch (sizes s.current_write_batch) (min n bytes_to_write)) in
    choose HasEnded (unready s) _ _ (λ out. absurd (ground (arith, out, ready)))
      (λ still.
        choose HasEnded (ec || not (n == bytes_to_write)) _ _
          (λ lost. lose_connection-HasEnded _ counted first)
          (λ whole. absurd (ground (arith, whole, failed))))
