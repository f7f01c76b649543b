-- ===== src/Transport/Session/Pending.antt =====
-- What waits in `pending_` of a session (wirestead/transport/tcp_server/tcp_server_session.cc), and
-- when nothing does.
use wirestead.Prelude.{
  ℕ, ◌≡◌, refl, sym, ◌∙◌, Bool, true, false, not, ◌&&◌, ◌||◌, [], ◌∷◌, Option, none, some, ltb, leb,
  ◌==◌, if◌then◌else◌, add_size, ◌-◌,
}
use wirestead.Transport.Gather.{BackpressureStrategy}
use wirestead.Transport.Backpressure.{
  Link, EnqueueDecision, decide_enqueue, flush_pending_into_tx, turn_on, turn_off, add_moved, rearm,
  set_active, notify, drain_and_clear_backpressure,
}
use wirestead.Transport.Backpressure
use wirestead.Wrapper.Send.{SendResult, SendRejection, reject, max_buffer_size}
use wirestead.Transport.Reservation.{
  Counters, fits, reserve_rounds, try_reserve_write_bytes, try_reserve_write_locked,
  try_reserve_limit_bytes, release_reserved_limit_bytes, commit_reserved_limit_bytes, fetch_add,
}
use wirestead.Transport.Reservation.Loops.{alone}
use wirestead.Transport.Session.{
  Session, Limits, Task, TrackedBuffer, new_session, start, failed_send, dropped, observe_queue,
  end_wait, unready, submit, reserve_and_submit, write_move, write_copy, write_shared, pressed,
  try_reserve, reject_for_pressure, try_reserve_and_submit, try_write_move, try_write_copy,
  try_write_shared,
}
use wirestead.Transport.Session.Strand.{
  do_close, do_write, is_empty, kick_write, report_backpressure, write_if_idle, reject_buffer,
  keep_pending, queue_buffer, route_enqueued_buffer, on_enqueue, on_enqueue_reserved,
  lose_connection, on_written, on_completed, on_stop, run, request_stop, cancel_write_wait,
  async_stop, reset_stats, clear_queues,
}
use wirestead.Transport.Session.Progress.{choose}
use wirestead.Transport.Session.Steps.{Step, Reach}

-- Nothing is pending but under backpressure.
abbrev IsDrained : Link TrackedBuffer → Type 0
IsDrained l = l.counters.backpressure_active ≡ false → l.waiting ≡ []

abbrev IsCalm : Session → Type 0
IsCalm s = IsDrained s.link

-- The reservations do not touch the flag.
abbrev SameFlag : Counters → Option (Counters × Bool) → Type 0
SameFlag c none =
    (c.backpressure_active ≡ c.backpressure_active) × (c.inflight_bytes ≡ c.inflight_bytes)
SameFlag c (some r) =
    (r.0.backpressure_active ≡ c.backpressure_active) × (r.0.inflight_bytes ≡ c.inflight_bytes)

pub try_reserve-flag :
    (f : Limits) (c : Counters) (added : ℕ)
    → ((try_reserve f c added).0.backpressure_active ≡ c.backpressure_active)
      × ((try_reserve f c added).0.inflight_bytes ≡ c.inflight_bytes)
unfolding reserve_rounds try_reserve_write_locked try_reserve_write_bytes
try_reserve-flag f c added =
    go (try_reserve_write_locked (alone ∷ []) c added f.bp_high f.bp_limit) locked
  where
    round : (q bytes high limit : ℕ) → SameFlag c (reserve_rounds (alone ∷ []) c q bytes high limit)
    round q bytes high limit =
        choose (SameFlag c) (fits q c.pending_bytes bytes high limit) _ _
          (λ ok.
            elim (c.queue_bytes == q)
              as (λ b. SameFlag c (elim b [
                | true ↦ some (record c { queue_bytes = add_size q bytes }, true)
                | false ↦ none
              ])) [ true ↦ (refl, refl) | false ↦ (refl, refl) ])
          (λ no. (refl, refl))

    locked : SameFlag c (try_reserve_write_locked (alone ∷ []) c added f.bp_high f.bp_limit)
    locked =
        choose (SameFlag c) (ltb f.bp_limit c.inflight_bytes) _ _ (λ over. (refl, refl))
          (λ under.
            choose (SameFlag c)
              (added == 0 || (ltb (f.bp_limit - c.inflight_bytes) added || c.backpressure_active)) _
              _ (λ no. (refl, refl)) (λ yes. round c.queue_bytes added f.bp_high _))

    go :
        (o : Option (Counters × Bool))
        → SameFlag c o
        → let r = elim o as (λ _. Counters × Bool) [ none ↦ (c, false) | some r ↦ r ] in
          (r.0.backpressure_active ≡ c.backpressure_active)
          × (r.0.inflight_bytes ≡ c.inflight_bytes)
    go none h = (refl, refl)
    go (some r) h = h

pub try_reserve_limit_bytes-flag :
    (c : Counters) (added bp_limit : ℕ)
    → (try_reserve_limit_bytes c added bp_limit).0.backpressure_active ≡ c.backpressure_active
unfolding try_reserve_limit_bytes
try_reserve_limit_bytes-flag c added bp_limit =
    let P : Counters × Bool → Type 0 = λ r. r.0.backpressure_active ≡ c.backpressure_active in
    choose P (added == 0 || ltb bp_limit added) _ _ (λ no. refl)
      (λ yes.
        choose P
          (ltb bp_limit c.queue_bytes
            || (ltb (bp_limit - c.queue_bytes) c.pending_bytes
                || (ltb (bp_limit - c.queue_bytes - c.pending_bytes) c.inflight_bytes
                    || ltb (bp_limit - c.queue_bytes - c.pending_bytes - c.inflight_bytes) added)))
          _ _ (λ full. refl) (λ free. refl))

do_write-IsCalm : (s : Session) → IsCalm s → IsCalm (do_write s)
unfolding do_write
do_write-IsCalm s h =
    choose IsCalm (s.closing || (not s.alive || (is_empty s.link.tx || s.writing))) s _ (λ held. h)
      (λ free. h)

write_if_idle-IsCalm : (s : Session) → IsCalm s → IsCalm (write_if_idle s)
unfolding write_if_idle
write_if_idle-IsCalm s h =
    choose IsCalm s.writing s (do_write s) (λ writing. h) (λ idle. do_write-IsCalm s h)

-- A report that turns backpressure off leaves nothing behind.
report-IsDrained :
    (f : Limits) (l : Link TrackedBuffer) (queued : ℕ)
    → IsDrained l
    → IsDrained (
        Backpressure.report_backpressure flush_pending_into_tx (λ l. l) l queued f.bp_high f.bp_low)
unfolding Backpressure.report_backpressure turn_on turn_off add_moved flush_pending_into_tx rearm
    set_active notify
report-IsDrained f l queued h =
    choose IsDrained (not l.counters.backpressure_active && leb f.bp_high queued) _ _
      (λ rise off. absurd cc)
      (λ stay.
        choose IsDrained (l.counters.backpressure_active && leb queued f.bp_low) _ _
          (λ fall.
            choose IsDrained
              (leb f.bp_high (add_size l.counters.queue_bytes l.counters.pending_bytes)) _ _
              (λ again off. refl) (λ settled off. refl))
          (λ keep. h))

report_backpressure-IsCalm :
    (f : Limits) (s : Session) (queued : ℕ) → IsCalm s → IsCalm (report_backpressure f s queued)
unfolding report_backpressure kick_write observe_queue
report_backpressure-IsCalm f s queued h =
    choose IsCalm (unready s) s _ (λ out. h)
      (λ ready.
        choose IsCalm (s.link.counters.backpressure_active && leb queued f.bp_low) _ _
          (λ falls.
            choose IsCalm s.writing _ _ (λ writing. report-IsDrained f _ queued h)
              (λ idle. do_write-IsCalm _ (report-IsDrained f _ queued h)))
          (λ stays. report-IsDrained f _ queued h))

do_close-IsCalm : (s : Session) → IsCalm s → IsCalm (do_close s)
unfolding do_close end_wait drain_and_clear_backpressure clear_queues set_active
do_close-IsCalm s h =
    choose IsCalm s.cleanup_done s _ (λ done. h)
      (λ first.
        choose IsDrained (s.link.counters.backpressure_active && s.link.has_callback) _ _
          (λ told off. refl) (λ silent off. refl))

-- What is kept pending is kept so under backpressure.
decide_enqueue-active :
    (c : Counters) (added bp_limit : ℕ)
    → decide_enqueue c added bp_limit ≡ EnqueueDecision.pending
    → c.backpressure_active ≡ true
unfolding decide_enqueue
decide_enqueue-active c added bp_limit =
    choose (λ d. d ≡ EnqueueDecision.pending → c.backpressure_active ≡ true)
      (ltb bp_limit c.queue_bytes
        || (ltb (bp_limit - c.queue_bytes) c.pending_bytes
            || ltb (bp_limit - c.queue_bytes - c.pending_bytes) added))
      _ _ (λ over e. absurd cc)
      (λ fit.
        choose (λ d. d ≡ EnqueueDecision.pending → c.backpressure_active ≡ true)
          c.backpressure_active _ _ (λ on e. on) (λ off e. absurd cc))

routed-IsCalm :
    (f : Limits) (s : Session) (buf : TrackedBuffer) (added : ℕ) (d : EnqueueDecision)
    → IsCalm s
    → (d ≡ EnqueueDecision.pending → s.link.counters.backpressure_active ≡ true)
    → IsCalm (elim d [
      | EnqueueDecision.rejected ↦ reject_buffer f s buf added
      | EnqueueDecision.pending ↦ keep_pending s buf added
      | EnqueueDecision.immediate ↦ queue_buffer f s buf added
    ])
unfolding reject_buffer keep_pending queue_buffer observe_queue dropped release_reserved_limit_bytes
    commit_reserved_limit_bytes fetch_add
routed-IsCalm f s buf added EnqueueDecision.rejected h on = report_backpressure-IsCalm f _ _ h
routed-IsCalm f s buf added EnqueueDecision.pending h on = λ off. let active = on refl in absurd cc
routed-IsCalm f s buf added EnqueueDecision.immediate h on =
    write_if_idle-IsCalm _ (report_backpressure-IsCalm f _ _ h)

run-IsCalm : (f : Limits) (s : Session) (t : Task) → IsCalm s → IsCalm (run f s t)
unfolding run on_enqueue on_enqueue_reserved on_completed on_written on_stop lose_connection
    end_wait failed_send observe_queue release_reserved_limit_bytes route_enqueued_buffer
run-IsCalm f s (Task.enqueue buf) h =
    choose IsCalm (unready s) _ _ (λ out. h)
      (λ ready.
        routed-IsCalm f s buf buf.size (decide_enqueue s.link.counters buf.size f.bp_limit) h
          (decide_enqueue-active s.link.counters buf.size f.bp_limit))
run-IsCalm f s (Task.enqueue_reserved buf) h =
    choose IsCalm (unready s) _ _ (λ out. h)
      (λ ready. write_if_idle-IsCalm _ (report_backpressure-IsCalm f _ _ h))
run-IsCalm f s (Task.completed bytes_to_write ec n) h =
    choose IsCalm (unready s) _ _ (λ out. h)
      (λ ready.
        choose IsCalm (ec || not (n == bytes_to_write)) _ _ (λ failed. do_close-IsCalm _ h)
          (λ whole.
            choose IsCalm (unready (report_backpressure f _ _)) _ _
              (λ out. report_backpressure-IsCalm f _ _ h)
              (λ still. do_write-IsCalm _ (report_backpressure-IsCalm f _ _ h))))
run-IsCalm f s Task.stop h = do_close-IsCalm _ h

reserve_and_submit-IsCalm :
    (f : Limits) (s : Session) (added : ℕ) → IsCalm s → IsCalm (reserve_and_submit f s added).0
unfolding reserve_and_submit submit failed_send
reserve_and_submit-IsCalm f s added h =
    choose (λ (r : Session × SendResult). IsCalm r.0)
      (try_reserve_limit_bytes s.link.counters added f.bp_limit).1 _ _
      (λ fits off. h (sym (try_reserve_limit_bytes-flag s.link.counters added f.bp_limit) ∙ off))
      (λ full. h)

reject_for_pressure-IsCalm :
    (f : Limits) (s : Session) (added : ℕ) → IsCalm s → IsCalm (reject_for_pressure f s added).0
unfolding reject_for_pressure dropped failed_send
reject_for_pressure-IsCalm f s added h =
    elim f.bp_strategy
      as (λ b. IsCalm (elim b [
        | BackpressureStrategy.best_effort ↦ dropped s added
        | BackpressureStrategy.reliable ↦ failed_send s
      ])) [ BackpressureStrategy.best_effort ↦ h | BackpressureStrategy.reliable ↦ h ]

try_reserve_and_submit-IsCalm :
    (f : Limits) (s : Session) (added : ℕ) → IsCalm s → IsCalm (try_reserve_and_submit f s added).0
unfolding try_reserve_and_submit submit
try_reserve_and_submit-IsCalm f s added h =
    let P : Session × SendResult → Type 0 = λ r. IsCalm r.0 in
    choose P (pressed f s.link.counters added) _ _ (λ e. reject_for_pressure-IsCalm f s added h)
      (λ e.
        choose P (try_reserve f s.link.counters added).1 _ _
          (λ fits off. h (sym (try_reserve-flag f s.link.counters added).0 ∙ off))
          (λ full. reject_for_pressure-IsCalm f s added h))

-- The guards of a write, whatever stands behind them.
guarded-IsCalm :
    (s : Session) (added : ℕ) (behind : Session × SendResult)
    → IsCalm s
    → IsCalm behind.0
    → IsCalm
        (if unready s
          then (failed_send s, reject SendRejection.not_ready)
          else if added == 0
          then (failed_send s, reject SendRejection.invalid_argument)
          else if ltb max_buffer_size added
          then (failed_send s, reject SendRejection.too_large)
          else behind).0
unfolding failed_send
guarded-IsCalm s added behind h kept =
    let P : Session × SendResult → Type 0 = λ r. IsCalm r.0 in
    choose P (unready s) _ _ (λ e. h)
      (λ e.
        choose P (added == 0) _ _ (λ e. h)
          (λ e. choose P (ltb max_buffer_size added) _ _ (λ e. h) (λ e. kept)))

write_move-IsCalm :
    (f : Limits) (s : Session) (added : ℕ) → IsCalm s → IsCalm (write_move f s added).0
unfolding write_move
write_move-IsCalm f s added h = guarded-IsCalm s added _ h (reserve_and_submit-IsCalm f s added h)

try_write_move-IsCalm :
    (f : Limits) (s : Session) (added : ℕ) → IsCalm s → IsCalm (try_write_move f s added).0
unfolding try_write_move failed_send
try_write_move-IsCalm f s added h =
    let P : Session × SendResult → Type 0 = λ r. IsCalm r.0 in
    choose P (unready s) _ _ (λ e. h)
      (λ e.
        choose P (added == 0 || ltb max_buffer_size added) _ _ (λ e. h)
          (λ e. try_reserve_and_submit-IsCalm f s added h))

step-IsCalm : (f : Limits) {s m : Session} → Step f s m → IsCalm s → IsCalm m
unfolding start request_stop cancel_write_wait async_stop reset_stats end_wait lose_connection
    write_copy write_move write_shared try_write_copy try_write_shared failed_send
step-IsCalm f Step.starts h = h
step-IsCalm f (Step.copies {s} size numbered) h = write_move-IsCalm f s size h
step-IsCalm f (Step.moves {s} added numbered) h = write_move-IsCalm f s added h
step-IsCalm f (Step.shares {s} none numbered) h = h
step-IsCalm f (Step.shares {s} (some added) numbered) h = write_move-IsCalm f s added h
step-IsCalm f (Step.tries_copy {s} size numbered) h =
    choose (λ (r : Session × SendResult). IsCalm r.0) (size == 0 || ltb max_buffer_size size) _ _
      (λ e. h) (λ e. try_write_move-IsCalm f s size h)
step-IsCalm f (Step.tries {s} added numbered) h = try_write_move-IsCalm f s added h
step-IsCalm f (Step.tries_shared {s} none numbered) h = h
step-IsCalm f (Step.tries_shared {s} (some added) numbered) h =
    guarded-IsCalm s added _ h (try_reserve_and_submit-IsCalm f s added h)
step-IsCalm f Step.requests_stop h = h
step-IsCalm f Step.cancels h = h
step-IsCalm f Step.stops h = h
step-IsCalm f (Step.resets bound) h = h
step-IsCalm f (Step.runs {s} t posted first) h = run-IsCalm f (record s { posted = posted }) t h
step-IsCalm f (Step.completes bytes_to_write ec n open_write) h = h
step-IsCalm f (Step.throws bytes_to_write open_write) h = do_close-IsCalm _ h
step-IsCalm f (Step.closes {s}) h = do_close-IsCalm s h

pub Reach-IsCalm : (f : Limits) (s : Session) → Reach f s → IsCalm s
Reach-IsCalm f s (Reach.begins on_bp on_close) = λ off. unfold new_session in refl
Reach-IsCalm f s (Reach.steps {s = l} r step) = step-IsCalm f step (Reach-IsCalm f l r)
