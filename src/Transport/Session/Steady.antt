-- ===== src/Transport/Session/Steady.antt =====
-- When backpressure of a session is on, and which reservations its posted writes hold, over the
-- handlers and steps (wirestead/transport/tcp_server/tcp_server_session.cc).
use wirestead.Prelude.{
  ℕ, ◌+◌, ◌≡◌, ◌<◌, ◌≤◌, refl, sym, ap, ◌∙◌, Bool, true, false, not, ◌&&◌, ◌||◌, List, [], ◌∷◌,
  ◌++◌, none, some, ltb, leb, ◌==◌, if◌then◌else◌, arith, add_size, ◌-◌, size_mod,
}
use wirestead.Transport.Gather.{BackpressureStrategy}
use wirestead.Transport.Backpressure.{
  Link, EnqueueDecision, decide_enqueue, flush_pending_into_tx, turn_on, turn_off, add_moved, rearm,
  set_active, notify, drain_and_clear_backpressure,
}
use wirestead.Transport.Backpressure
use wirestead.Wrapper.Send.{SendResult, SendRejection, reject, max_buffer_size}
use wirestead.Transport.Reservation.{
  Counters, released, try_reserve_limit_bytes, release_reserved_limit_bytes,
  commit_reserved_limit_bytes, fetch_add,
}
use wirestead.Transport.Reservation.Loops.{total}
use wirestead.Transport.Session.{
  Session, Limits, Task, TrackedBuffer, new_session, start, failed_send, dropped, observe_queue,
  end_wait, unready, submit, reserve_and_submit, write_move, write_copy, write_shared, pressed,
  try_reserve, reject_for_pressure, try_reserve_and_submit, try_write_move, try_write_copy,
  try_write_shared,
}
use wirestead.Transport.Session.Strand.{
  do_close, do_write, is_empty, kick_write, report_backpressure, write_if_idle, reject_buffer,
  keep_pending, queue_buffer, route_enqueued_buffer, on_enqueue, on_enqueue_reserved,
  lose_connection, on_written, on_completed, on_stop, run, request_stop, cancel_write_wait,
  async_stop, reset_stats, clear_queues,
}
use wirestead.Transport.Session.Progress.{choose}
use wirestead.Transport.Session.Steps.{Step, Reach}
use wirestead.Transport.Session.Bounds.{Reach-IsWithin}
use wirestead.Transport.Session.Pending.{try_reserve-flag, try_reserve_limit_bytes-flag}

-- The bytes of the plain writes that are posted.
abbrev pub held : List Task → ℕ
held [] = 0
held (Task.enqueue buf ∷ posted) = buf.size + held posted
held (Task.enqueue_reserved buf ∷ posted) = held posted
held (Task.completed b ec n ∷ posted) = held posted
held (Task.stop ∷ posted) = held posted

held-append : (l m : List Task) → held (l ++ m) ≡ held l + held m
held-append [] m = omega arith
held-append (Task.enqueue buf ∷ l) m = omega (arith, held-append l m)
held-append (Task.enqueue_reserved buf ∷ l) m = held-append l m
held-append (Task.completed b ec n ∷ l) m = held-append l m
held-append (Task.stop ∷ l) m = held-append l m

-- Backpressure of a session that is not closing is that of one that was started, above `bp_low`.
abbrev IsHigh : Limits → Session → Type 0
IsHigh f s =
    s.closing ≡ false
    → s.link.counters.backpressure_active ≡ true
    → (s.alive ≡ true) × (f.bp_low < s.link.counters.queue_bytes)

-- The reservations are those of the posted writes.
abbrev IsSteady : Limits → Session → Type 0
IsSteady f s = (held s.posted ≡ s.link.counters.inflight_bytes) × IsHigh f s

module _ (f : Limits) (apart : f.bp_low < f.bp_high) where
  do_write-IsSteady : (s : Session) → IsSteady f s → IsSteady f (do_write s)
  unfolding do_write
  do_write-IsSteady s h =
      choose (IsSteady f) (s.closing || (not s.alive || (is_empty s.link.tx || s.writing))) s _
        (λ held. h) (λ free. h)

  write_if_idle-IsSteady : (s : Session) → IsSteady f s → IsSteady f (write_if_idle s)
  unfolding write_if_idle
  write_if_idle-IsSteady s h =
      choose (IsSteady f) s.writing s (do_write s) (λ writing. h) (λ idle. do_write-IsSteady s h)

  -- Behind a report of what is queued, backpressure is on above `bp_low` only.
  report-high :
      (l : Link TrackedBuffer)
      → let m =
          Backpressure.report_backpressure flush_pending_into_tx
            (λ l. l)
            l
            l.counters.queue_bytes
            f.bp_high
            f.bp_low in
        (m.counters.inflight_bytes ≡ l.counters.inflight_bytes)
        × (m.counters.backpressure_active ≡ true → f.bp_low < m.counters.queue_bytes)
  unfolding Backpressure.report_backpressure turn_on turn_off add_moved flush_pending_into_tx rearm
      set_active notify
  report-high l =
      let P : Link TrackedBuffer → Type 0 = λ m.
        (m.counters.inflight_bytes ≡ l.counters.inflight_bytes)
        × (m.counters.backpressure_active ≡ true → f.bp_low < m.counters.queue_bytes) in
      let q = l.counters.queue_bytes in
      choose P (not l.counters.backpressure_active && leb f.bp_high q) _ _
        (λ rise. (refl, λ on. ground (arith, rise, apart)))
        (λ stay.
          choose P (l.counters.backpressure_active && leb q f.bp_low) _ _
            (λ fall.
              choose P (leb f.bp_high (add_size q l.counters.pending_bytes)) _ _
                (λ again. (refl, λ on. ground (arith, again, apart)))
                (λ settled. (refl, λ on. absurd cc)))
            (λ keep. (refl, λ on. ground (arith, keep, on))))

  report_backpressure-IsSteady :
      (s : Session)
      → unready s ≡ false
      → held s.posted ≡ s.link.counters.inflight_bytes
      → IsSteady f (report_backpressure f s s.link.counters.queue_bytes)
  unfolding report_backpressure kick_write observe_queue
  report_backpressure-IsSteady s ready same =
      let alive : s.alive ≡ true = ground (arith, ready) in
      choose (IsSteady f) (unready s) s _ (λ out. absurd (ground (arith, out, ready)))
        (λ still.
          choose (IsSteady f)
            (s.link.counters.backpressure_active && leb s.link.counters.queue_bytes f.bp_low) _ _
            (λ falls.
              choose (IsSteady f) s.writing _ _
                (λ writing.
                  (same ∙ sym (report-high _).0, λ going on. (alive, (report-high _).1 on)))
                (λ idle.
                  do_write-IsSteady _
                    (same ∙ sym (report-high _).0, λ going on. (alive, (report-high _).1 on))))
            (λ stays. (same ∙ sym (report-high _).0, λ going on. (alive, (report-high _).1 on))))

  do_close-IsSteady : (s : Session) → IsSteady f s → IsSteady f (do_close s)
  unfolding do_close end_wait drain_and_clear_backpressure clear_queues set_active
  do_close-IsSteady s h =
      choose (IsSteady f) s.cleanup_done s _ (λ done. h)
        (λ first. (
          h.0
              ∙ sym (
                  choose
                    (λ (l : Link TrackedBuffer).
                      l.counters.inflight_bytes ≡ s.link.counters.inflight_bytes)
                    (s.link.counters.backpressure_active && s.link.has_callback) _ _ (λ told. refl)
                    (λ silent. refl)),
          λ going on. absurd cc,
        ))

  -- What is admitted is never rejected, and the reservation is given back.
  pub decide_enqueue-rejected :
      (c : Counters) (added : ℕ)
      → added ≤ c.inflight_bytes
      → total c ≤ f.bp_limit
      → decide_enqueue c added f.bp_limit ≡ EnqueueDecision.rejected
      → ⊥
  unfolding decide_enqueue
  decide_enqueue-rejected c added part within =
      choose (λ d. d ≡ EnqueueDecision.rejected → ⊥)
        (ltb f.bp_limit c.queue_bytes
          || (ltb (f.bp_limit - c.queue_bytes) c.pending_bytes
              || ltb (f.bp_limit - c.queue_bytes - c.pending_bytes) added))
        _ _ (λ over e. ground (arith, over, part, within))
        (λ fits.
          choose (λ d. d ≡ EnqueueDecision.rejected → ⊥) c.backpressure_active _ _
            (λ on e. absurd cc) (λ off e. absurd cc))

  given_back : (n rest inflight : ℕ) → n + rest ≡ inflight → rest ≡ released inflight n
  unfolding released
  given_back n rest inflight h = ground (arith, h)

  routed-IsSteady :
      (s : Session) (buf : TrackedBuffer) (d : EnqueueDecision)
      → unready s ≡ false
      → buf.size + held s.posted ≡ s.link.counters.inflight_bytes
      → IsHigh f s
      → total s.link.counters ≤ f.bp_limit
      → f.bp_limit < size_mod
      → (d ≡ EnqueueDecision.rejected → ⊥)
      → IsSteady f (elim d [
        | EnqueueDecision.rejected ↦ reject_buffer f s buf buf.size
        | EnqueueDecision.pending ↦ keep_pending s buf buf.size
        | EnqueueDecision.immediate ↦ queue_buffer f s buf buf.size
      ])
  unfolding keep_pending queue_buffer observe_queue release_reserved_limit_bytes
      commit_reserved_limit_bytes fetch_add
  routed-IsSteady s buf EnqueueDecision.rejected ready same high within bounded never =
      absurd (never refl)
  routed-IsSteady s buf EnqueueDecision.pending ready same high within bounded never =
      (given_back buf.size (held s.posted) _ same, high)
  routed-IsSteady s buf EnqueueDecision.immediate ready same high within bounded never =
      write_if_idle-IsSteady _
        (report_backpressure-IsSteady _ ready (given_back buf.size (held s.posted) _ same))

  run-IsSteady :
      (s : Session) (t : Task)
      → held (t ∷ s.posted) ≡ s.link.counters.inflight_bytes
      → IsHigh f s
      → total s.link.counters ≤ f.bp_limit
      → f.bp_limit < size_mod
      → IsSteady f (run f s t)
  unfolding run on_enqueue on_enqueue_reserved on_completed on_written on_stop lose_connection
      end_wait failed_send observe_queue release_reserved_limit_bytes route_enqueued_buffer
  run-IsSteady s (Task.enqueue buf) same high within bounded =
      choose (IsSteady f) (unready s) _ _
        (λ out. (given_back buf.size (held s.posted) _ same, high))
        (λ ready.
          routed-IsSteady s buf (decide_enqueue s.link.counters buf.size f.bp_limit) ready same high
            within bounded
            (decide_enqueue-rejected s.link.counters buf.size (omega (arith, same)) within))
  run-IsSteady s (Task.enqueue_reserved buf) same high within bounded =
      choose (IsSteady f) (unready s) _ _
        (λ out. (
          same,
          λ going on. let alive = (high going on).0 in absurd (ground (arith, out, going, alive)),
        ))
        (λ ready. write_if_idle-IsSteady _ (report_backpressure-IsSteady _ ready same))
  run-IsSteady s (Task.completed bytes_to_write ec n) same high within bounded =
      choose (IsSteady f) (unready s) _ _ (λ out. (same, high))
        (λ ready.
          choose (IsSteady f) (ec || not (n == bytes_to_write)) _ _
            (λ failed. do_close-IsSteady _ (same, λ going on. absurd cc))
            (λ whole.
              choose (IsSteady f) (unready (report_backpressure f _ _)) _ _
                (λ out. report_backpressure-IsSteady _ ready same)
                (λ still. do_write-IsSteady _ (report_backpressure-IsSteady _ ready same))))
  run-IsSteady s Task.stop same high within bounded = do_close-IsSteady _ (same, high)

  reserve_inflight :
      (c : Counters) (added : ℕ)
      → total c ≤ f.bp_limit
      → f.bp_limit < size_mod
      → (try_reserve_limit_bytes c added f.bp_limit).1 ≡ true
      → ((try_reserve_limit_bytes c added f.bp_limit).0.inflight_bytes ≡ c.inflight_bytes + added)
        × ((try_reserve_limit_bytes c added f.bp_limit).0.queue_bytes ≡ c.queue_bytes)
  unfolding try_reserve_limit_bytes
  reserve_inflight c added within bounded =
      let P : Counters × Bool → Type 0 = λ r.
        r.1 ≡ true
        → (r.0.inflight_bytes ≡ c.inflight_bytes + added) × (r.0.queue_bytes ≡ c.queue_bytes) in
      choose P (added == 0 || ltb f.bp_limit added) _ _ (λ no e. absurd cc)
        (λ yes.
          choose P
            (ltb f.bp_limit c.queue_bytes
              || (ltb (f.bp_limit - c.queue_bytes) c.pending_bytes
                  || (ltb (f.bp_limit - c.queue_bytes - c.pending_bytes) c.inflight_bytes
                      || ltb (f.bp_limit - c.queue_bytes - c.pending_bytes - c.inflight_bytes)
                          added)))
            _ _ (λ full e. absurd cc) (λ free e. (ground (arith, free, within, bounded), refl)))

  module _ (s : Session) (within : total s.link.counters ≤ f.bp_limit)
      (bounded : f.bp_limit < size_mod) (h : IsSteady f s) where
    reserve_and_submit-IsSteady : (added : ℕ) → IsSteady f (reserve_and_submit f s added).0
    unfolding reserve_and_submit submit failed_send
    reserve_and_submit-IsSteady added =
        let r = try_reserve_limit_bytes s.link.counters added f.bp_limit in
        choose (λ (r : Session × SendResult). IsSteady f r.0) r.1 _ _
          (λ fits.
            let (more, queue) = reserve_inflight s.link.counters added within bounded fits in
            let flag = try_reserve_limit_bytes-flag s.link.counters added f.bp_limit in
            (
              held-append s.posted _ ∙ omega (arith, more, h.0),
              λ going on.
                  let (alive, low) = h.1 going (sym flag ∙ on) in
                  (alive, omega (arith, low, queue)),
            ))
          (λ full. h)

    reject_for_pressure-IsSteady : (added : ℕ) → IsSteady f (reject_for_pressure f s added).0
    unfolding reject_for_pressure dropped failed_send
    reject_for_pressure-IsSteady added =
        elim f.bp_strategy
          as (λ b. IsSteady f (elim b [
            | BackpressureStrategy.best_effort ↦ dropped s added
            | BackpressureStrategy.reliable ↦ failed_send s
          ])) [ BackpressureStrategy.best_effort ↦ h | BackpressureStrategy.reliable ↦ h ]

    try_reserve_and_submit-IsSteady : (added : ℕ) → IsSteady f (try_reserve_and_submit f s added).0
    unfolding try_reserve_and_submit submit
    try_reserve_and_submit-IsSteady added =
        let P : Session × SendResult → Type 0 = λ r. IsSteady f r.0 in
        choose P (pressed f s.link.counters added) _ _ (λ e. reject_for_pressure-IsSteady added)
          (λ free.
            choose P (try_reserve f s.link.counters added).1 _ _
              (λ fits.
                let (flag, same) = try_reserve-flag f s.link.counters added in
                (
                  held-append s.posted _ ∙ omega (arith, same, h.0),
                  λ going on. let was = sym flag ∙ on in absurd (ground (arith, free, was)),
                ))
              (λ full. reject_for_pressure-IsSteady added))

    -- The guards of a write, whatever stands behind them.
    guarded-IsSteady :
        (added : ℕ) (behind : Session × SendResult)
        → IsSteady f behind.0
        → IsSteady f
            (if unready s
              then (failed_send s, reject SendRejection.not_ready)
              else if added == 0
              then (failed_send s, reject SendRejection.invalid_argument)
              else if ltb max_buffer_size added
              then (failed_send s, reject SendRejection.too_large)
              else behind).0
    unfolding failed_send
    guarded-IsSteady added behind kept =
        let P : Session × SendResult → Type 0 = λ r. IsSteady f r.0 in
        choose P (unready s) _ _ (λ e. h)
          (λ e.
            choose P (added == 0) _ _ (λ e. h)
              (λ e. choose P (ltb max_buffer_size added) _ _ (λ e. h) (λ e. kept)))

    write_move-IsSteady : (added : ℕ) → IsSteady f (write_move f s added).0
    unfolding write_move
    write_move-IsSteady added = guarded-IsSteady added _ (reserve_and_submit-IsSteady added)

    try_write_move-IsSteady : (added : ℕ) → IsSteady f (try_write_move f s added).0
    unfolding try_write_move failed_send
    try_write_move-IsSteady added =
        let P : Session × SendResult → Type 0 = λ r. IsSteady f r.0 in
        choose P (unready s) _ _ (λ e. h)
          (λ e.
            choose P (added == 0 || ltb max_buffer_size added) _ _ (λ e. h)
              (λ e. try_reserve_and_submit-IsSteady added))

  step-IsSteady :
      {s m : Session}
      → Step f s m
      → total s.link.counters ≤ f.bp_limit
      → f.bp_limit < size_mod
      → IsSteady f s
      → IsSteady f m
  unfolding start request_stop cancel_write_wait async_stop reset_stats end_wait lose_connection
      write_copy write_move write_shared try_write_copy try_write_shared failed_send
  step-IsSteady Step.starts within bounded h = (h.0, λ going on. (refl, (h.1 going on).1))
  step-IsSteady (Step.copies {s} size numbered) within bounded h =
      write_move-IsSteady s within bounded h size
  step-IsSteady (Step.moves {s} added numbered) within bounded h =
      write_move-IsSteady s within bounded h added
  step-IsSteady (Step.shares {s} none numbered) within bounded h = h
  step-IsSteady (Step.shares {s} (some added) numbered) within bounded h =
      write_move-IsSteady s within bounded h added
  step-IsSteady (Step.tries_copy {s} size numbered) within bounded h =
      choose (λ (r : Session × SendResult). IsSteady f r.0) (size == 0 || ltb max_buffer_size size)
        _ _ (λ e. h) (λ e. try_write_move-IsSteady s within bounded h size)
  step-IsSteady (Step.tries {s} added numbered) within bounded h =
      try_write_move-IsSteady s within bounded h added
  step-IsSteady (Step.tries_shared {s} none numbered) within bounded h = h
  step-IsSteady (Step.tries_shared {s} (some added) numbered) within bounded h =
      guarded-IsSteady s within bounded h added _
        (try_reserve_and_submit-IsSteady s within bounded h added)
  step-IsSteady Step.requests_stop within bounded h = (h.0, λ going on. absurd cc)
  step-IsSteady Step.cancels within bounded h = h
  step-IsSteady (Step.stops {s}) within bounded h =
      (held-append s.posted _ ∙ omega (arith, h.0), λ going on. absurd cc)
  step-IsSteady (Step.resets bound) within bounded h = h
  step-IsSteady (Step.runs {s} t posted first) within bounded h =
      run-IsSteady (record s { posted = posted }) t (sym (ap held first) ∙ h.0) h.1 within bounded
  step-IsSteady (Step.completes {s} bytes_to_write ec n open_write) within bounded h =
      (held-append s.posted _ ∙ omega (arith, h.0), h.1)
  step-IsSteady (Step.throws bytes_to_write open_write) within bounded h =
      do_close-IsSteady _ (h.0, λ going on. absurd cc)
  step-IsSteady (Step.closes {s}) within bounded h = do_close-IsSteady s h

  pub Reach-IsSteady : (s : Session) → f.bp_limit < size_mod → Reach f s → IsSteady f s
  Reach-IsSteady s bounded (Reach.begins on_bp on_close) =
      unfold new_session in (refl, λ going on. absurd cc)
  Reach-IsSteady s bounded (Reach.steps {s = l} r step) =
      step-IsSteady step (Reach-IsWithin f l bounded r) bounded (Reach-IsSteady l bounded r)
