-- ===== src/Transport/Session/Steps.antt =====
-- What each step does to the progress of a session, and the steps themselves.
use wirestead.Prelude.{
  ℕ, ◌+◌, ◌≡◌, ◌<◌, size_mod, refl, ◌∙◌, Bool, true, false, not, ◌||◌, List, [], ◌∷◌, ◌++◌, Option,
  none, some, ltb, ◌==◌, arith,
}
use wirestead.Transport.Gather.{BackpressureStrategy}
use wirestead.Transport.Backpressure.{EnqueueDecision, decide_enqueue}
use wirestead.Wrapper.Send.{SendResult, max_buffer_size}
use wirestead.Transport.Reservation.{try_reserve_limit_bytes, released}
use wirestead.Transport.Session.{
  pressed, try_reserve, Session, Limits, Task, TrackedBuffer, new_session, start, failed_send,
  dropped, observe_queue, end_wait, unready, submit, reserve_and_submit, write_move, write_copy,
  write_shared, reject_for_pressure, try_reserve_and_submit, try_write_move, try_write_copy,
  try_write_shared,
}
use wirestead.Transport.Session.Strand.{
  do_close, report_backpressure, reject_buffer, keep_pending, queue_buffer, route_enqueued_buffer,
  on_enqueue, on_enqueue_reserved, lose_connection, on_written, on_completed, on_stop, run,
  request_stop, cancel_write_wait, async_stop, reset_stats,
}
use wirestead.Transport.Session.Progress.{
  IsLive, choose, do_write-IsLive, write_if_idle-IsLive, report_backpressure-flags,
  report_backpressure-IsLive,
}

-- Once cleaned up, a session is closing.
do_close-IsLive : (s : Session) → IsLive s → IsLive (do_close s)
unfolding do_close
do_close-IsLive s live =
    choose IsLive s.cleanup_done s _ (λ done. live) (λ first going idle. absurd cc)

-- Changes of the counters only.
submit-IsLive :
    (s : Session) (added : ℕ) (task : TrackedBuffer → Task)
    → IsLive s
    → IsLive (submit s added task).0
unfolding submit
submit-IsLive s added task live = live

refuse-IsLive : (s : Session) → IsLive s → IsLive (failed_send s)
unfolding failed_send
refuse-IsLive s live = live

reserve_and_submit-IsLive :
    (f : Limits) (s : Session) (added : ℕ) → IsLive s → IsLive (reserve_and_submit f s added).0
unfolding reserve_and_submit
reserve_and_submit-IsLive f s added live =
    choose (λ (r : Session × SendResult). IsLive r.0)
      (try_reserve_limit_bytes s.link.counters added f.bp_limit).1 _ _
      (λ fits. submit-IsLive _ added Task.enqueue live) (λ full. refuse-IsLive s live)

write_move-IsLive :
    (f : Limits) (s : Session) (added : ℕ) → IsLive s → IsLive (write_move f s added).0
unfolding write_move
write_move-IsLive f s added live =
    let P : Session × SendResult → Type 0 = λ r. IsLive r.0 in
    let no = refuse-IsLive s live in
    choose P (unready s) _ _ (λ e. no)
      (λ e.
        choose P (added == 0) _ _ (λ e. no)
          (λ e.
            choose P (ltb max_buffer_size added) _ _ (λ e. no)
              (λ e. reserve_and_submit-IsLive f s added live)))

write_copy-IsLive :
    (f : Limits) (s : Session) (size : ℕ) → IsLive s → IsLive (write_copy f s size).0
unfolding write_copy write_move
write_copy-IsLive f s size live = write_move-IsLive f s size live

write_shared-IsLive :
    (f : Limits) (s : Session) (bytes : Option ℕ) → IsLive s → IsLive (write_shared f s bytes).0
unfolding write_shared
write_shared-IsLive f s none live = refuse-IsLive s live
write_shared-IsLive f s (some added) live = unfold write_move in (write_move-IsLive f s added live)

reject_for_pressure-IsLive :
    (f : Limits) (s : Session) (added : ℕ) → IsLive s → IsLive (reject_for_pressure f s added).0
unfolding reject_for_pressure dropped failed_send
reject_for_pressure-IsLive f s added live =
    elim f.bp_strategy
      as (λ b. IsLive (elim b [
        | BackpressureStrategy.best_effort ↦ dropped s added
        | BackpressureStrategy.reliable ↦ failed_send s
      ])) [ BackpressureStrategy.best_effort ↦ live | BackpressureStrategy.reliable ↦ live ]

try_reserve_and_submit-IsLive :
    (f : Limits) (s : Session) (added : ℕ) → IsLive s → IsLive (try_reserve_and_submit f s added).0
unfolding try_reserve_and_submit
try_reserve_and_submit-IsLive f s added live =
    let P : Session × SendResult → Type 0 = λ r. IsLive r.0 in
    let no = reject_for_pressure-IsLive f s added live in
    choose P (pressed f s.link.counters added) _ _ (λ e. no)
      (λ e.
        choose P (try_reserve f s.link.counters added).1 _ _
          (λ fits. submit-IsLive _ added Task.enqueue_reserved live) (λ full. no))

try_write_move-IsLive :
    (f : Limits) (s : Session) (added : ℕ) → IsLive s → IsLive (try_write_move f s added).0
unfolding try_write_move
try_write_move-IsLive f s added live =
    let P : Session × SendResult → Type 0 = λ r. IsLive r.0 in
    let no = refuse-IsLive s live in
    choose P (unready s) _ _ (λ e. no)
      (λ e.
        choose P (added == 0 || ltb max_buffer_size added) _ _ (λ e. no)
          (λ e. try_reserve_and_submit-IsLive f s added live))

try_write_copy-IsLive :
    (f : Limits) (s : Session) (size : ℕ) → IsLive s → IsLive (try_write_copy f s size).0
unfolding try_write_copy
try_write_copy-IsLive f s size live =
    choose (λ (r : Session × SendResult). IsLive r.0) (size == 0 || ltb max_buffer_size size) _ _
      (λ e. refuse-IsLive s live) (λ e. try_write_move-IsLive f s size live)

try_write_shared-IsLive :
    (f : Limits) (s : Session) (bytes : Option ℕ) → IsLive s → IsLive (try_write_shared f s bytes).0
unfolding try_write_shared
try_write_shared-IsLive f s none live = refuse-IsLive s live
try_write_shared-IsLive f s (some added) live =
    let P : Session × SendResult → Type 0 = λ r. IsLive r.0 in
    let no = refuse-IsLive s live in
    choose P (unready s) _ _ (λ e. no)
      (λ e.
        choose P (added == 0) _ _ (λ e. no)
          (λ e.
            choose P (ltb max_buffer_size added) _ _ (λ e. no)
              (λ e. try_reserve_and_submit-IsLive f s added live)))

-- The handlers.
route_enqueued_buffer-IsLive :
    (f : Limits) (s : Session) (buf : TrackedBuffer) (added : ℕ)
    → s.alive ≡ true
    → IsLive s
    → IsLive (route_enqueued_buffer f s buf added)
unfolding route_enqueued_buffer reject_buffer keep_pending queue_buffer observe_queue dropped
route_enqueued_buffer-IsLive f s buf added alive live =
    elim (decide_enqueue s.link.counters added f.bp_limit)
      as (λ d. IsLive (elim d [
        | EnqueueDecision.rejected ↦ reject_buffer f s buf added
        | EnqueueDecision.pending ↦ keep_pending s buf added
        | EnqueueDecision.immediate ↦ queue_buffer f s buf added
      ])) [
        | EnqueueDecision.rejected ↦ report_backpressure-IsLive f _ _ live
        | EnqueueDecision.pending ↦ live
        | EnqueueDecision.immediate ↦
            write_if_idle-IsLive _ ((report_backpressure-flags f _ _).0 ∙ alive)
      ]

on_enqueue-IsLive :
    (f : Limits) (s : Session) (buf : TrackedBuffer) → IsLive s → IsLive (on_enqueue f s buf)
unfolding on_enqueue failed_send
on_enqueue-IsLive f s buf live =
    choose IsLive (unready s) _ _ (λ out. live)
      (λ ready. route_enqueued_buffer-IsLive f s buf buf.size (ground arith) live)

on_enqueue_reserved-IsLive :
    (f : Limits) (s : Session) (buf : TrackedBuffer)
    → IsLive s
    → IsLive (on_enqueue_reserved f s buf)
unfolding on_enqueue_reserved failed_send observe_queue
on_enqueue_reserved-IsLive f s buf live =
    choose IsLive (unready s) _ _ (λ out. live)
      (λ ready. write_if_idle-IsLive _ ((report_backpressure-flags f _ _).0 ∙ ground arith))

on_written-IsLive :
    (f : Limits) (s : Session) (bytes_to_write n : ℕ)
    → unready s ≡ false
    → IsLive (on_written f s bytes_to_write n)
unfolding on_written
on_written-IsLive f s bytes_to_write n ready =
    let c = released s.link.counters.queue_bytes bytes_to_write in
    let told = report_backpressure f _ c in
    let flags = report_backpressure-flags f _ c in
    let alive : told.alive ≡ true = flags.0 ∙ ground (arith, ready) in
    let going : told.closing ≡ false = flags.1 ∙ ground (arith, ready) in
    choose IsLive (unready told) _ _ (λ out. absurd (ground (arith, out, alive, going)))
      (λ still. do_write-IsLive _ (ground arith))

on_completed-IsLive :
    (f : Limits) (s : Session) (bytes_to_write : ℕ) (ec : Bool) (n : ℕ)
    → IsLive s
    → IsLive (on_completed f s bytes_to_write ec n)
unfolding on_completed lose_connection end_wait
on_completed-IsLive f s bytes_to_write ec n live =
    choose IsLive (unready s) _ _ (λ out. live)
      (λ ready.
        choose IsLive (ec || not (n == bytes_to_write)) _ _
          (λ failed. do_close-IsLive _ (λ going idle. absurd cc))
          (λ whole. on_written-IsLive f _ bytes_to_write n ready))

run-IsLive : (f : Limits) (s : Session) (t : Task) → IsLive s → IsLive (run f s t)
unfolding run on_stop
run-IsLive f s (Task.enqueue buf) live = on_enqueue-IsLive f s buf live
run-IsLive f s (Task.enqueue_reserved buf) live = on_enqueue_reserved-IsLive f s buf live
run-IsLive f s (Task.completed b ec n) live = on_completed-IsLive f s b ec n live
run-IsLive f s Task.stop live = do_close-IsLive _ live

-- The numbers of requests do not wrap around.
abbrev pub IsNumbered : Session → Type 0
IsNumbered s = s.ledger.next_id + 2 < size_mod

-- The steps of a session: the calls of its methods, the handlers of the strand in their order, the
-- completion of a write, or the exception of its initiation, and an end that the peer, an error or the idle timer brings.
pub data Step (f : Limits) : Session → Session → Type 0 where
  starts : {s : Session} → Step f s (start s)
  copies : {s : Session} (size : ℕ) → IsNumbered s → Step f s (write_copy f s size).0
  moves : {s : Session} (added : ℕ) → IsNumbered s → Step f s (write_move f s added).0
  shares : {s : Session} (bytes : Option ℕ) → IsNumbered s → Step f s (write_shared f s bytes).0
  tries_copy : {s : Session} (size : ℕ) → IsNumbered s → Step f s (try_write_copy f s size).0
  tries : {s : Session} (added : ℕ) → IsNumbered s → Step f s (try_write_move f s added).0
  tries_shared :
      {s : Session} (bytes : Option ℕ) → IsNumbered s → Step f s (try_write_shared f s bytes).0
  requests_stop : {s : Session} → Step f s (request_stop s)
  cancels : {s : Session} → Step f s (cancel_write_wait s)
  stops : {s : Session} → Step f s (async_stop s)
  resets : {s : Session} → s.ledger.epoch + 1 < size_mod → Step f s (reset_stats s)
  runs :
      {s : Session} (t : Task) (posted : List Task)
      → s.posted ≡ t ∷ posted
      → Step f s (run f (record s { posted = posted }) t)
  completes :
      {s : Session} (bytes_to_write : ℕ) (ec : Bool) (n : ℕ)
      → s.in_flight ≡ some bytes_to_write
      → Step f s (record s {
        in_flight = none;
        posted = s.posted ++ Task.completed bytes_to_write ec n ∷ [];
      })
  throws :
      {s : Session} (bytes_to_write : ℕ)
      → s.in_flight ≡ some bytes_to_write
      → Step f s (lose_connection (record s { in_flight = none }))
  closes : {s : Session} → Step f s (do_close s)

pub data Reach (f : Limits) : Session → Type 0 where
  begins : (on_bp on_close : Bool) → Reach f (new_session on_bp on_close)
  steps : {s m : Session} → Reach f s → Step f s m → Reach f m

step-IsLive : (f : Limits) {s m : Session} → Step f s m → IsLive s → IsLive m
unfolding start request_stop cancel_write_wait async_stop reset_stats end_wait lose_connection
step-IsLive f Step.starts live = live
step-IsLive f (Step.copies {s} size numbered) live = write_copy-IsLive f s size live
step-IsLive f (Step.moves {s} added numbered) live = write_move-IsLive f s added live
step-IsLive f (Step.shares {s} bytes numbered) live = write_shared-IsLive f s bytes live
step-IsLive f (Step.tries_copy {s} size numbered) live = try_write_copy-IsLive f s size live
step-IsLive f (Step.tries {s} added numbered) live = try_write_move-IsLive f s added live
step-IsLive f (Step.tries_shared {s} bytes numbered) live = try_write_shared-IsLive f s bytes live
step-IsLive f Step.requests_stop live = λ going idle. absurd cc
step-IsLive f Step.cancels live = live
step-IsLive f Step.stops live = λ going idle. absurd cc
step-IsLive f (Step.resets bound) live = live
step-IsLive f (Step.runs {s} t posted first) live =
    run-IsLive f (record s { posted = posted }) t live
step-IsLive f (Step.completes bytes_to_write ec n open_write) live = live
step-IsLive f (Step.throws bytes_to_write open_write) live =
    do_close-IsLive _ (λ going idle. absurd cc)
step-IsLive f (Step.closes {s}) live = do_close-IsLive s live

-- Over any steps: while a session is not closing and no write is under way, nothing waits in the
-- queue.
pub Reach-IsLive :
    (f : Limits) (s : Session) → Reach f s → s.closing ≡ false → s.writing ≡ false → s.link.tx ≡ []
Reach-IsLive f s (Reach.begins on_bp on_close) = λ going idle. unfold new_session in refl
Reach-IsLive f s (Reach.steps {s = l} r step) = step-IsLive f step (Reach-IsLive f l r)
