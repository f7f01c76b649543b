-- ===== src/Transport/Session/Strand.antt =====
-- The handlers of the session on its strand, and how it ends
-- (wirestead/transport/tcp_server/tcp_server_session.cc).
use wirestead.Prelude.{
  ℕ, ◌+◌, Bool, true, false, not, ◌&&◌, ◌||◌, List, [], ◌∷◌, ◌++◌, map, Option, none, some, leb,
  ◌==◌, if◌then◌else◌, add_size, min,
}
use wirestead.Diagnostics.Accounting.{Cause, SendAccounting}
use wirestead.Diagnostics.Ledger
use wirestead.Diagnostics.Stats.{RuntimeStats, record_sent}
use wirestead.Diagnostics.Stats
use wirestead.Transport.Reservation.{
  Counter, release_reserved_limit_bytes, commit_reserved_limit_bytes, released,
}
use wirestead.Transport.Gather.{take_gather_batch}
use wirestead.Transport.Backpressure.{
  Link, EnqueueDecision, decide_enqueue, flush_pending_into_tx, drain_and_clear_backpressure,
}
use wirestead.Transport.Backpressure
use wirestead.Transport.Session.{
  Session, Limits, Task, TrackedBuffer, with_counters, with_stats, failed_send, dropped,
  observe_queue, end_wait, unready,
}
use wirestead.Wrapper.Send.{SendRejection, SendResult, accept, reject}

-- `send_accounting_.end(cause)`, by the session.
abbrev pub end_sends : Session → Cause → Session
end_sends s cause = record s { ledger = Ledger.end s.ledger cause }

-- The lambda that do_close gives to drain_and_clear_backpressure.
unfoldable pub clear_queues : Link TrackedBuffer → Link TrackedBuffer
clear_queues l = record l {
  tx = [];
  waiting = [];
  counters = record l.counters { queue_bytes = 0; pending_bytes = 0 };
}

unfoldable pub do_close : Session → Session
do_close s =
    let ended = end_wait (end_sends s Cause.connection_loss) SendRejection.not_ready in
    let drained = drain_and_clear_backpressure clear_queues ended.link in
    if s.cleanup_done then s else record ended {
      link = record drained { has_callback = false };
      alive = false;
      closing = true;
      cleanup_done = true;
      on_close = false;
      closed = s.closed + (if s.on_close then 1 else 0);
    }

-- The two projections of a batch.
abbrev pub requests : List TrackedBuffer → List ℕ
requests batch = map (λ b. b.request) batch

abbrev pub sizes : List TrackedBuffer → List (ℕ × ℕ)
sizes batch = map (λ b. (b.request, b.size)) batch

unfoldable pub is_empty : List TrackedBuffer → Bool
is_empty [] = true
is_empty (b ∷ tx) = false

-- The answer of begin_batch is not read.
unfoldable pub do_write : Session → Session
do_write s =
    let g = take_gather_batch (λ b. b.size) s.link.tx in
    if s.closing || (not s.alive || (is_empty s.link.tx || s.writing)) then s else record s {
      writing = true;
      link = record s.link { tx = g.tx };
      current_write_batch = g.batch;
      ledger = (Ledger.begin_batch s.ledger (requests g.batch)).0;
      in_flight = some g.total;
    }

-- Behind the change of the state machine: `if (!writing_) do_write()`, where the flush was.
unfoldable pub kick_write : Session → Session
kick_write s = let seen = observe_queue s in if seen.writing then seen else do_write seen

unfoldable pub report_backpressure : Limits → Session → ℕ → Session
report_backpressure f s queued_bytes =
    let seen = observe_queue s in
    let link =
      Backpressure.report_backpressure flush_pending_into_tx (λ l. l) seen.link queued_bytes
        f.bp_high f.bp_low in
    let told = record seen { link = link } in
    if unready s
    then s
    else if seen.link.counters.backpressure_active && leb queued_bytes f.bp_low
    then kick_write told
    else told

unfoldable pub write_if_idle : Session → Session
write_if_idle s = if s.writing then s else do_write s

-- The three outcomes of route_enqueued_buffer.
unfoldable pub reject_buffer : Limits → Session → TrackedBuffer → ℕ → Session
reject_buffer f s buf added =
    let lost =
      dropped (record s { ledger = Ledger.discard s.ledger buf.request Cause.queue_pressure })
        added in
    let freed = with_counters lost (release_reserved_limit_bytes lost.link.counters added) in
    report_backpressure f freed (add_size freed.link.counters.queue_bytes added)

unfoldable pub keep_pending : Session → TrackedBuffer → ℕ → Session
keep_pending s buf added =
    let c = commit_reserved_limit_bytes Counter.pending s.link.counters added in
    observe_queue
      (record s { link = record s.link { counters = c; waiting = s.link.waiting ++ buf ∷ [] } })

unfoldable pub queue_buffer : Limits → Session → TrackedBuffer → ℕ → Session
queue_buffer f s buf added =
    let c = commit_reserved_limit_bytes Counter.queue s.link.counters added in
    let queued =
      observe_queue
        (record s { link = record s.link { counters = c; tx = s.link.tx ++ buf ∷ [] } }) in
    write_if_idle (report_backpressure f queued queued.link.counters.queue_bytes)

unfoldable pub route_enqueued_buffer : Limits → Session → TrackedBuffer → ℕ → Session
route_enqueued_buffer f s buf added = elim (decide_enqueue s.link.counters added f.bp_limit) [
  | EnqueueDecision.rejected ↦ reject_buffer f s buf added
  | EnqueueDecision.pending ↦ keep_pending s buf added
  | EnqueueDecision.immediate ↦ queue_buffer f s buf added
]

-- `release_reserved_write_bytes(queue_bytes_, …)`
abbrev pub release_queued : Session → ℕ → Session
release_queued s bytes =
    with_counters s
      (record s.link.counters { queue_bytes = released s.link.counters.queue_bytes bytes })

unfoldable pub on_enqueue : Limits → Session → TrackedBuffer → Session
on_enqueue f s buf =
    if unready s
    then failed_send (with_counters s (release_reserved_limit_bytes s.link.counters buf.size))
    else route_enqueued_buffer f s buf buf.size

unfoldable pub on_enqueue_reserved : Limits → Session → TrackedBuffer → Session
on_enqueue_reserved f s buf =
    let queued = observe_queue (record s { link = record s.link { tx = s.link.tx ++ buf ∷ [] } }) in
    if unready s
    then failed_send (release_queued s buf.size)
    else write_if_idle (report_backpressure f queued queued.link.counters.queue_bytes)

-- A completion that failed, or an exception of `async_write`; and a completion that did not fail.
unfoldable pub lose_connection : Session → Session
lose_connection s = do_close (
    end_wait (record (end_sends s Cause.connection_loss) { closing = true })
      SendRejection.not_ready)

unfoldable pub on_written : Limits → Session → ℕ → ℕ → Session
on_written f s bytes_to_write n =
    let freed = release_queued s bytes_to_write in
    let sent = with_stats freed (record_sent freed.link.stats n) in
    let told = report_backpressure f sent sent.link.counters.queue_bytes in
    let idle = record told { writing = false } in if unready idle then idle else do_write idle

unfoldable pub on_completed : Limits → Session → ℕ → Bool → ℕ → Session
on_completed f s bytes_to_write ec n =
    let counted = record s {
      ledger = Ledger.complete_batch s.ledger (sizes s.current_write_batch) (min n bytes_to_write);
      current_write_batch = [];
    } in
    if unready s
    then record s { current_write_batch = [] }
    else if ec || not (n == bytes_to_write)
    then lose_connection counted
    else on_written f counted bytes_to_write n

unfoldable pub on_stop : Session → Session
on_stop s = do_close (record s { link = record s.link { has_callback = false }; on_close = false })

unfoldable pub run : Limits → Session → Task → Session
run f s (Task.enqueue buf) = on_enqueue f s buf
run f s (Task.enqueue_reserved buf) = on_enqueue_reserved f s buf
run f s (Task.completed bytes_to_write ec n) = on_completed f s bytes_to_write ec n
run f s Task.stop = on_stop s

-- `none` is `std::nullopt`.
unfoldable pub poll_write_wait : Session → Option SendResult
poll_write_wait s = elim s.wait_ended_by [
  | some reason ↦ some (reject reason)
  | none ↦
      if unready s
      then some (reject SendRejection.not_ready)
      else if not s.link.counters.backpressure_active
      then some accept
      else none
]

unfoldable pub request_stop : Session → Session
request_stop s =
    end_wait (record (end_sends s Cause.explicit_stop) { closing = true })
      SendRejection.cancelled_while_waiting

unfoldable pub cancel_write_wait : Session → Session
cancel_write_wait s = end_wait s SendRejection.cancelled_while_waiting

unfoldable pub async_stop : Session → Session
async_stop s =
    let ended =
      end_wait (record (end_sends s Cause.explicit_stop) { closing = true })
        SendRejection.not_ready in
    record ended { posted = ended.posted ++ Task.stop ∷ [] }

unfoldable pub stats : Session → ℕ → RuntimeStats × SendAccounting
stats s now_ns =
    let c = s.link.counters in
    (
      Stats.snapshot s.link.stats c.queue_bytes c.pending_bytes c.backpressure_active now_ns,
      Ledger.snapshot s.ledger,
    )

unfoldable pub reset_stats : Session → Session
reset_stats s =
    with_stats (record s { ledger = Ledger.reset s.ledger })
      (Stats.reset s.link.stats
        (add_size s.link.counters.queue_bytes s.link.counters.pending_bytes))
