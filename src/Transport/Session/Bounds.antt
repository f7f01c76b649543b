-- ===== src/Transport/Session/Bounds.antt =====
-- The bytes that a session holds stay within its hard limit.
pub mod Totals
use wirestead.Prelude.{
  ℕ, ◌+◌, ◌-◌, ◌<◌, size_mod, refl, Bool, false, not, ◌&&◌, ◌||◌, [], ◌∷◌, none, some, ltb, leb,
  ◌==◌, if◌then◌else◌, arith, Bool-cases, inl, inr, add_size,
}
use wirestead.Transport.Gather.{BackpressureStrategy}
use wirestead.Transport.Backpressure.{
  Link, EnqueueDecision, decide_enqueue, flush_pending_into_tx, turn_on, turn_off, set_active,
  notify, drain_and_clear_backpressure,
}
use wirestead.Transport.Backpressure
use wirestead.Wrapper.Send.{SendResult, SendRejection, reject, max_buffer_size}
use wirestead.Transport.Reservation.{try_reserve_limit_bytes, released}
use wirestead.Transport.Session.{
  limits, pressed, try_reserve, Session, Limits, Task, TrackedBuffer, new_session, start,
  with_stats, failed_send, dropped, observe_queue, end_wait, unready, submit, reserve_and_submit,
  write_move, write_copy, write_shared, reject_for_pressure, try_reserve_and_submit, try_write_move,
  try_write_copy, try_write_shared,
}
use wirestead.Diagnostics.Stats.{record_sent}
use wirestead.Transport.Session.Strand.{
  do_close, do_write, is_empty, kick_write, report_backpressure, write_if_idle, reject_buffer,
  keep_pending, queue_buffer, route_enqueued_buffer, on_enqueue, on_enqueue_reserved,
  lose_connection, on_written, on_completed, on_stop, run, request_stop, cancel_write_wait,
  async_stop, reset_stats,
}
use wirestead.Transport.Session.Progress.{choose}
use wirestead.Transport.Session.Strand.{release_queued}
use wirestead.Transport.Session.Steps.{Step, Reach}
use wirestead.Prelude.{All, ◌≡◌, ◌≤◌, ◌≢◌, size_mod, Option-cases, add_size-small}
use wirestead.Transport.Reservation.{
  Counter, commit_reserved_limit_bytes, release_reserved_limit_bytes, fetch_add,
  try_reserve_limit_bytes, try_reserve_write_locked, Counters,
}
use wirestead.Transport.Reservation.Loops.{
  OnlyReleases, total, alone, try_reserve_write_locked-Reserved,
}
use wirestead.Transport.Reservation.Limit.{try_reserve_limit_bytes-fits}
use wirestead.Transport.Backpressure.{add_moved, rearm}
use wirestead.Transport.Session.Strand.{clear_queues}
use wirestead.Transport.Session.Bounds.Totals.{
  released_le, reserve-IsWithin, try_reserve-IsWithin, commit-IsWithin, report-IsWithin,
  release-IsWithin, decide_enqueue-within,
}

-- `MAX_BACKPRESSURE_THRESHOLD` of wirestead/base/constants.hpp
abbrev pub max_threshold : ℕ
max_threshold = 104857600

abbrev pub IsWithin : Limits → Session → Type 0
IsWithin f s = total s.link.counters ≤ f.bp_limit

module _ (f : Limits) (bounded : f.bp_limit < size_mod) where
  pub do_write-IsWithin : (s : Session) → IsWithin f s → IsWithin f (do_write s)
  unfolding do_write
  do_write-IsWithin s h =
      choose (IsWithin f) (s.closing || (not s.alive || (is_empty s.link.tx || s.writing))) s _
        (λ held. h) (λ free. h)

  pub write_if_idle-IsWithin : (s : Session) → IsWithin f s → IsWithin f (write_if_idle s)
  unfolding write_if_idle
  write_if_idle-IsWithin s h =
      choose (IsWithin f) s.writing s (do_write s) (λ writing. h) (λ idle. do_write-IsWithin s h)

  pub report_backpressure-IsWithin :
      (s : Session) (queued : ℕ) → IsWithin f s → IsWithin f (report_backpressure f s queued)
  unfolding report_backpressure kick_write observe_queue
  report_backpressure-IsWithin s queued h =
      choose (IsWithin f) (unready s) s _ (λ out. h)
        (λ ready.
          choose (IsWithin f) (s.link.counters.backpressure_active && leb queued f.bp_low) _ _
            (λ falls.
              choose (IsWithin f) s.writing _ _ (λ writing. report-IsWithin f bounded _ queued h)
                (λ idle. do_write-IsWithin _ (report-IsWithin f bounded _ queued h)))
            (λ stays. report-IsWithin f bounded _ queued h))

  do_close-IsWithin : (s : Session) → IsWithin f s → IsWithin f (do_close s)
  unfolding do_close end_wait drain_and_clear_backpressure clear_queues set_active
  do_close-IsWithin s h =
      choose (IsWithin f) s.cleanup_done s _ (λ done. h)
        (λ first.
          choose (λ (l : Link TrackedBuffer). total l.counters ≤ f.bp_limit)
            (s.link.counters.backpressure_active && s.link.has_callback) _ _
            (λ told. omega (arith, h)) (λ silent. omega (arith, h)))

  routed-IsWithin :
      (s : Session) (buf : TrackedBuffer) (added : ℕ) (d : EnqueueDecision)
      → IsWithin f s
      → (d ≢ EnqueueDecision.rejected
          → s.link.counters.queue_bytes + s.link.counters.pending_bytes + added ≤ f.bp_limit)
      → IsWithin f (elim d [
        | EnqueueDecision.rejected ↦ reject_buffer f s buf added
        | EnqueueDecision.pending ↦ keep_pending s buf added
        | EnqueueDecision.immediate ↦ queue_buffer f s buf added
      ])
  unfolding reject_buffer keep_pending queue_buffer observe_queue dropped
  routed-IsWithin s buf added EnqueueDecision.rejected h fits =
      report_backpressure-IsWithin _ _ (release-IsWithin f bounded s.link.counters added h)
  routed-IsWithin s buf added EnqueueDecision.pending h fits =
      commit-IsWithin f bounded Counter.pending s.link.counters added h (fits (λ e. cc))
  routed-IsWithin s buf added EnqueueDecision.immediate h fits = write_if_idle-IsWithin _ (
      report_backpressure-IsWithin _ _
        (commit-IsWithin f bounded Counter.queue s.link.counters added h (fits (λ e. cc))))

  route_enqueued_buffer-IsWithin :
      (s : Session) (buf : TrackedBuffer) (added : ℕ)
      → IsWithin f s
      → IsWithin f (route_enqueued_buffer f s buf added)
  unfolding route_enqueued_buffer
  route_enqueued_buffer-IsWithin s buf added h =
      routed-IsWithin s buf added (decide_enqueue s.link.counters added f.bp_limit) h
        (decide_enqueue-within f bounded s.link.counters added)

  pub release_queued-IsWithin :
      (s : Session) (bytes : ℕ) → IsWithin f s → IsWithin f (release_queued s bytes)
  release_queued-IsWithin s bytes h =
      omega (arith, h, released_le f bounded s.link.counters.queue_bytes bytes)

  on_written-IsWithin :
      (s : Session) (bytes_to_write n : ℕ)
      → IsWithin f s
      → IsWithin f (on_written f s bytes_to_write n)
  unfolding on_written
  on_written-IsWithin s bytes_to_write n h =
      let freed = release_queued s bytes_to_write in
      let sent = with_stats freed (record_sent freed.link.stats n) in
      let told = report_backpressure f sent sent.link.counters.queue_bytes in
      let idle = record told { writing = false } in
      let kept : IsWithin f told =
        report_backpressure-IsWithin sent sent.link.counters.queue_bytes
          (release_queued-IsWithin s bytes_to_write h) in
      choose (IsWithin f) (unready idle) idle (do_write idle) (λ out. kept)
        (λ still. do_write-IsWithin idle kept)

  run-IsWithin : (s : Session) (t : Task) → IsWithin f s → IsWithin f (run f s t)
  unfolding run on_enqueue on_enqueue_reserved on_completed on_stop lose_connection end_wait
      failed_send observe_queue
  run-IsWithin s (Task.enqueue buf) h =
      choose (IsWithin f) (unready s) _ _
        (λ out. release-IsWithin f bounded s.link.counters buf.size h)
        (λ ready. route_enqueued_buffer-IsWithin s buf buf.size h)
  run-IsWithin s (Task.enqueue_reserved buf) h =
      choose (IsWithin f) (unready s) _ _ (λ out. release_queued-IsWithin s buf.size h)
        (λ ready. write_if_idle-IsWithin _ (report_backpressure-IsWithin _ _ h))
  run-IsWithin s (Task.completed bytes_to_write ec n) h =
      choose (IsWithin f) (unready s) _ _ (λ out. h)
        (λ ready.
          choose (IsWithin f) (ec || not (n == bytes_to_write)) _ _
            (λ failed. do_close-IsWithin _ h) (λ whole. on_written-IsWithin _ bytes_to_write n h))
  run-IsWithin s Task.stop h = do_close-IsWithin _ h

  reserve_and_submit-IsWithin :
      (s : Session) (added : ℕ) → IsWithin f s → IsWithin f (reserve_and_submit f s added).0
  unfolding reserve_and_submit submit failed_send
  reserve_and_submit-IsWithin s added h =
      choose (λ (r : Session × SendResult). IsWithin f r.0)
        (try_reserve_limit_bytes s.link.counters added f.bp_limit).1 _ _
        (λ fits. reserve-IsWithin f bounded s.link.counters added h) (λ full. h)

  reject_for_pressure-IsWithin :
      (s : Session) (added : ℕ) → IsWithin f s → IsWithin f (reject_for_pressure f s added).0
  unfolding reject_for_pressure dropped failed_send
  reject_for_pressure-IsWithin s added h =
      elim f.bp_strategy
        as (λ b. IsWithin f (elim b [
          | BackpressureStrategy.best_effort ↦ dropped s added
          | BackpressureStrategy.reliable ↦ failed_send s
        ])) [ BackpressureStrategy.best_effort ↦ h | BackpressureStrategy.reliable ↦ h ]

  try_reserve_and_submit-IsWithin :
      (s : Session) (added : ℕ) → IsWithin f s → IsWithin f (try_reserve_and_submit f s added).0
  unfolding try_reserve_and_submit submit
  try_reserve_and_submit-IsWithin s added h =
      let P : Session × SendResult → Type 0 = λ r. IsWithin f r.0 in
      choose P (pressed f s.link.counters added) _ _ (λ e. reject_for_pressure-IsWithin s added h)
        (λ e.
          choose P (try_reserve f s.link.counters added).1 _ _
            (λ fits. try_reserve-IsWithin f bounded s.link.counters added h)
            (λ full. reject_for_pressure-IsWithin s added h))

  -- The guards of a write, whatever stands behind them.
  guarded-IsWithin :
      (s : Session) (added : ℕ) (behind : Session × SendResult)
      → IsWithin f s
      → IsWithin f behind.0
      → IsWithin f
          (if unready s
            then (failed_send s, reject SendRejection.not_ready)
            else if added == 0
            then (failed_send s, reject SendRejection.invalid_argument)
            else if ltb max_buffer_size added
            then (failed_send s, reject SendRejection.too_large)
            else behind).0
  unfolding failed_send
  guarded-IsWithin s added behind h kept =
      let P : Session × SendResult → Type 0 = λ r. IsWithin f r.0 in
      choose P (unready s) _ _ (λ e. h)
        (λ e.
          choose P (added == 0) _ _ (λ e. h)
            (λ e. choose P (ltb max_buffer_size added) _ _ (λ e. h) (λ e. kept)))

  write_move-IsWithin :
      (s : Session) (added : ℕ) → IsWithin f s → IsWithin f (write_move f s added).0
  unfolding write_move
  write_move-IsWithin s added h =
      guarded-IsWithin s added _ h (reserve_and_submit-IsWithin s added h)

  try_write_move-IsWithin :
      (s : Session) (added : ℕ) → IsWithin f s → IsWithin f (try_write_move f s added).0
  unfolding try_write_move failed_send
  try_write_move-IsWithin s added h =
      let P : Session × SendResult → Type 0 = λ r. IsWithin f r.0 in
      choose P (unready s) _ _ (λ e. h)
        (λ e.
          choose P (added == 0 || ltb max_buffer_size added) _ _ (λ e. h)
            (λ e. try_reserve_and_submit-IsWithin s added h))

  step-IsWithin : {s m : Session} → Step f s m → IsWithin f s → IsWithin f m
  unfolding start request_stop cancel_write_wait async_stop reset_stats end_wait lose_connection
      write_copy write_move write_shared try_write_copy try_write_shared failed_send
  step-IsWithin Step.starts h = h
  step-IsWithin (Step.copies {s} size numbered) h = write_move-IsWithin s size h
  step-IsWithin (Step.moves {s} added numbered) h = write_move-IsWithin s added h
  step-IsWithin (Step.shares {s} none numbered) h = h
  step-IsWithin (Step.shares {s} (some added) numbered) h = write_move-IsWithin s added h
  step-IsWithin (Step.tries_copy {s} size numbered) h =
      choose (λ (r : Session × SendResult). IsWithin f r.0) (size == 0 || ltb max_buffer_size size)
        _ _ (λ e. h) (λ e. try_write_move-IsWithin s size h)
  step-IsWithin (Step.tries {s} added numbered) h = try_write_move-IsWithin s added h
  step-IsWithin (Step.tries_shared {s} none numbered) h = h
  step-IsWithin (Step.tries_shared {s} (some added) numbered) h =
      guarded-IsWithin s added _ h (try_reserve_and_submit-IsWithin s added h)
  step-IsWithin Step.requests_stop h = h
  step-IsWithin Step.cancels h = h
  step-IsWithin Step.stops h = h
  step-IsWithin (Step.resets bound) h = h
  step-IsWithin (Step.runs {s} t posted first) h = run-IsWithin (record s { posted = posted }) t h
  step-IsWithin (Step.completes bytes_to_write ec n open_write) h = h
  step-IsWithin (Step.throws bytes_to_write open_write) h = do_close-IsWithin _ h
  step-IsWithin (Step.closes {s}) h = do_close-IsWithin s h

-- Over any steps, the bytes that are queued, pending or reserved stay within the hard limit.
pub Reach-IsWithin :
    (f : Limits) (s : Session)
    → f.bp_limit < size_mod
    → Reach f s
    → total s.link.counters ≤ f.bp_limit
Reach-IsWithin f s bounded (Reach.begins on_bp on_close) = unfold new_session in (omega arith)
Reach-IsWithin f s bounded (Reach.steps {s = l} r step) =
    step-IsWithin f bounded step (Reach-IsWithin f l bounded r)

-- The limits that the constructor makes of any threshold above one byte that a configuration may
-- have, which is up to 100 MiB: the low one is positive and below the high one, the hard one lies
-- between 1 MiB and 64 MiB, and the high one is within the hard one just when the threshold is at
-- most 64 MiB.
pub limits-bounds :
    (threshold : ℕ) (strategy : BackpressureStrategy)
    → 1 < threshold
    → threshold ≤ max_threshold
    → (0 < (limits threshold strategy).bp_low)
      × ((limits threshold strategy).bp_low < (limits threshold strategy).bp_high)
      × (1048576 ≤ (limits threshold strategy).bp_limit)
      × ((limits threshold strategy).bp_limit ≤ 67108864)
      × (leb (limits threshold strategy).bp_high (limits threshold strategy).bp_limit
          ≡ leb threshold 67108864)
unfolding limits
limits-bounds threshold strategy more most =
    (ground arith, ground arith, ground arith, ground arith, ground arith)
