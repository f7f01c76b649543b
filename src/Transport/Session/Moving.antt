-- ===== src/Transport/Session/Moving.antt =====
-- What may still wait in a session while no write is under way: its counters over the steps
-- (wirestead/transport/tcp_server/tcp_server_session.cc).
use wirestead.Prelude.{
  ℕ, ◌+◌, ◌≡◌, ◌<◌, ◌≤◌, refl, sym, ap, ◌∙◌, false, ◌||◌, List, [], ◌∷◌, none, some, ltb, ◌==◌,
  arith, ◌⊎◌, inl, inr, Bool-cases, size_mod, Option,
}
use wirestead.Transport.Gather.{BackpressureStrategy}
use wirestead.Diagnostics.Ledger
use wirestead.Diagnostics.Stats.{RuntimeStatsCounters}
use wirestead.Wrapper.Send.{SendResult, max_buffer_size}
use wirestead.Transport.Reservation.{try_reserve_limit_bytes}
use wirestead.Transport.Reservation.Loops.{total}
use wirestead.Transport.Session.{
  Session, Limits, Task, TrackedBuffer, new_session, start, with_stats, failed_send, dropped,
  end_wait, unready, submit, reserve_and_submit, write_move, write_copy, write_shared, pressed,
  try_reserve, reject_for_pressure, try_reserve_and_submit, try_write_move, try_write_copy,
  try_write_shared,
}
use wirestead.Transport.Session.Strand.{
  lose_connection, request_stop, cancel_write_wait, async_stop, reset_stats,
}
use wirestead.Transport.Session.Progress.{choose}
use wirestead.Transport.Session.Steps.{Step, Reach, Reach-IsLive}
use wirestead.Transport.Session.Bounds.{Reach-IsWithin}
use wirestead.Transport.Session.Pending.{Reach-IsCalm}
use wirestead.Transport.Session.Steady.{held, Reach-IsSteady}
use wirestead.Transport.Session.Exact.{
  bytes, flight, in_air, owed, completions, posted-append, IsExact, one_if, grounded,
}
use wirestead.Transport.Session.Idle.{
  do_close-IsExact, run-IsExact, reserve_others, try_reserve_others,
}

-- The bytes of the try-writes that are posted.
abbrev pub tried : List Task → ℕ
tried [] = 0
tried (Task.enqueue buf ∷ posted) = tried posted
tried (Task.enqueue_reserved buf ∷ posted) = buf.size + tried posted
tried (Task.completed b ec n ∷ posted) = tried posted
tried (Task.stop ∷ posted) = tried posted

tried-owed : (posted : List Task) → completions posted ≡ 0 → owed posted ≡ tried posted
tried-owed [] h = refl
tried-owed (Task.enqueue buf ∷ posted) h = tried-owed posted h
tried-owed (Task.enqueue_reserved buf ∷ posted) h = ap (λ n. buf.size + n) (tried-owed posted h)
tried-owed (Task.completed b ec n ∷ posted) h = absurd (omega (arith, h))
tried-owed (Task.stop ∷ posted) h = tried-owed posted h

-- The statistics do not count.
with_stats-IsExact :
    (s : Session) (stats : RuntimeStatsCounters) → IsExact s → IsExact (with_stats s stats)
with_stats-IsExact s stats h going =
    let e = h going in record { queued = e.queued; kept = e.kept; once = e.once; fresh = e.fresh }

-- The buffer that an admission posts.
abbrev item : Session → ℕ → TrackedBuffer
item s added = record { size = added; request = (Ledger.admit s.ledger added none).1 }

module _ (f : Limits) (apart : f.bp_low < f.bp_high) (bounded : f.bp_limit < size_mod) where
  module _ (s : Session) (h : IsExact s) where
    reserve_and_submit-IsExact :
        (added : ℕ) → unready s ≡ false → IsExact (reserve_and_submit f s added).0
    unfolding reserve_and_submit submit failed_send
    reserve_and_submit-IsExact added ready =
        choose (λ (r : Session × SendResult). IsExact r.0)
          (try_reserve_limit_bytes s.link.counters added f.bp_limit).1 _ _
          (λ fits going.
            let e = h going in
            let (queue, pending) = reserve_others f bounded s.link.counters added in
            let (more, ends) = posted-append s.posted (Task.enqueue (item s added) ∷ []) in
            record {
              queued = omega (arith, queue, e.queued, more);
              kept = omega (arith, pending, e.kept);
              once = omega (arith, ends, e.once);
              fresh = λ dead. absurd (ground (arith, ready, dead));
            })
          (λ full. with_stats-IsExact s _ h)

    reject_for_pressure-IsExact : (added : ℕ) → IsExact (reject_for_pressure f s added).0
    unfolding reject_for_pressure dropped failed_send
    reject_for_pressure-IsExact added =
        elim f.bp_strategy
          as (λ b. IsExact (elim b [
            | BackpressureStrategy.best_effort ↦ dropped s added
            | BackpressureStrategy.reliable ↦ failed_send s
          ])) [
            | BackpressureStrategy.best_effort ↦ with_stats-IsExact s _ h
            | BackpressureStrategy.reliable ↦ with_stats-IsExact s _ h
          ]

    try_reserve_and_submit-IsExact :
        (added : ℕ) → unready s ≡ false → IsExact (try_reserve_and_submit f s added).0
    unfolding try_reserve_and_submit submit
    try_reserve_and_submit-IsExact added ready =
        let P : Session × SendResult → Type 0 = λ r. IsExact r.0 in
        choose P (pressed f s.link.counters added) _ _ (λ e. reject_for_pressure-IsExact added)
          (λ free.
            choose P (try_reserve f s.link.counters added).1 _ _
              (λ fits going.
                let e = h going in
                let (queue, pending) = try_reserve_others f bounded s.link.counters added fits in
                let (more, ends) =
                  posted-append s.posted (Task.enqueue_reserved (item s added) ∷ []) in
                record {
                  queued = omega (arith, queue, e.queued, more);
                  kept = omega (arith, pending, e.kept);
                  once = omega (arith, ends, e.once);
                  fresh = λ dead. absurd (ground (arith, ready, dead));
                })
              (λ full. reject_for_pressure-IsExact added))

    write_move-IsExact : (added : ℕ) → IsExact (write_move f s added).0
    unfolding write_move failed_send
    write_move-IsExact added =
        let P : Session × SendResult → Type 0 = λ r. IsExact r.0 in
        let no = with_stats-IsExact s _ h in
        choose P (unready s) _ _ (λ e. no)
          (λ ready.
            choose P (added == 0) _ _ (λ e. no)
              (λ e.
                choose P (ltb max_buffer_size added) _ _ (λ e. no)
                  (λ e. reserve_and_submit-IsExact added ready)))

    try_write_move-IsExact : (added : ℕ) → IsExact (try_write_move f s added).0
    unfolding try_write_move failed_send
    try_write_move-IsExact added =
        let P : Session × SendResult → Type 0 = λ r. IsExact r.0 in
        let no = with_stats-IsExact s _ h in
        choose P (unready s) _ _ (λ e. no)
          (λ ready.
            choose P (added == 0 || ltb max_buffer_size added) _ _ (λ e. no)
              (λ e. try_reserve_and_submit-IsExact added ready))

    try_write_shared-IsExact : (bytes : Option ℕ) → IsExact (try_write_shared f s bytes).0
    unfolding try_write_shared failed_send
    try_write_shared-IsExact none = with_stats-IsExact s _ h
    try_write_shared-IsExact (some added) =
        let P : Session × SendResult → Type 0 = λ r. IsExact r.0 in
        let no = with_stats-IsExact s _ h in
        choose P (unready s) _ _ (λ e. no)
          (λ ready.
            choose P (added == 0) _ _ (λ e. no)
              (λ e.
                choose P (ltb max_buffer_size added) _ _ (λ e. no)
                  (λ e. try_reserve_and_submit-IsExact added ready)))

  step-IsExact :
      {s m : Session}
      → Step f s m
      → total s.link.counters ≤ f.bp_limit
      → held s.posted ≡ s.link.counters.inflight_bytes
      → IsExact s
      → IsExact m
  unfolding start request_stop cancel_write_wait async_stop reset_stats end_wait lose_connection
      write_copy write_move write_shared try_write_copy failed_send
  step-IsExact (Step.starts {s}) within same h = λ going.
      let e = h going in
      record { queued = e.queued; kept = e.kept; once = e.once; fresh = λ dead. absurd cc }
  step-IsExact (Step.copies {s} size numbered) within same h = write_move-IsExact s h size
  step-IsExact (Step.moves {s} added numbered) within same h = write_move-IsExact s h added
  step-IsExact (Step.shares {s} none numbered) within same h = with_stats-IsExact s _ h
  step-IsExact (Step.shares {s} (some added) numbered) within same h = write_move-IsExact s h added
  step-IsExact (Step.tries_copy {s} size numbered) within same h =
      choose (λ (r : Session × SendResult). IsExact r.0) (size == 0 || ltb max_buffer_size size) _ _
        (λ e. with_stats-IsExact s _ h) (λ e. try_write_move-IsExact s h size)
  step-IsExact (Step.tries {s} added numbered) within same h = try_write_move-IsExact s h added
  step-IsExact (Step.tries_shared {s} bytes numbered) within same h =
      try_write_shared-IsExact s h bytes
  step-IsExact Step.requests_stop within same h = λ going. absurd cc
  step-IsExact (Step.cancels {s}) within same h = λ going.
      let e = h going in record { queued = e.queued; kept = e.kept; once = e.once; fresh = e.fresh }
  step-IsExact Step.stops within same h = λ going. absurd cc
  step-IsExact (Step.resets {s} bound) within same h = λ going.
      let e = h going in record { queued = e.queued; kept = e.kept; once = e.once; fresh = e.fresh }
  step-IsExact (Step.runs {s} t posted first) within same h =
      run-IsExact f bounded (record s { posted = posted }) t
        (λ going.
          let e = h going in
          record {
            queued = e.queued ∙ ap (λ l. bytes s.link.tx + flight s.in_flight + owed l) first;
            kept = e.kept;
            once = ap (λ l. in_air s.in_flight + completions l) (sym first) ∙ e.once;
            fresh = λ dead. let (none_posted, off) = e.fresh dead in (sym first ∙ none_posted, off);
          })
        (ap held (sym first) ∙ same) apart within
  step-IsExact (Step.completes {s} bytes_to_write ec n open_write) within same h = λ going.
      let e = h going in
      let (more, ends) = posted-append s.posted (Task.completed bytes_to_write ec n ∷ []) in
      let size : flight s.in_flight ≡ bytes_to_write = ap flight open_write in
      let one : in_air s.in_flight ≡ 1 = ap in_air open_write in
      record {
        queued = omega (arith, e.queued, more, size);
        kept = e.kept;
        once = omega (arith, e.once, ends, one);
        fresh = λ dead. let off = (e.fresh dead).1 in absurd (some_none (sym open_write ∙ off));
      }
    where
      some_none : {n : ℕ} → some n ≡ none → ⊥
      some_none e = cc
  step-IsExact (Step.throws bytes_to_write open_write) within same h =
      do_close-IsExact f bounded _ (λ going. absurd cc)
  step-IsExact (Step.closes {s}) within same h = do_close-IsExact f bounded s h

  Reach-IsExact : (s : Session) → Reach f s → IsExact s
  Reach-IsExact s (Reach.begins on_bp on_close) =
      unfold new_session in
      (λ going. record {
        queued = omega arith;
        kept = refl;
        once = omega arith;
        fresh = λ dead. (refl, refl);
      })
  Reach-IsExact s (Reach.steps {s = l} r step) =
      step-IsExact step (Reach-IsWithin f l bounded r) (Reach-IsSteady f apart l bounded r).0
        (Reach-IsExact l r)

-- Over any steps, with limits in their order, while a session is not closing and no write is under
-- way: nothing waits in the queue, the bytes that count as queued are those of the try-writes whose
-- handler has not run, and nothing is kept pending unless these are more than the low limit.
pub Reach-IsMoving :
    (f : Limits) (s : Session)
    → f.bp_low < f.bp_high
    → f.bp_limit < size_mod
    → Reach f s
    → s.closing ≡ false
    → s.writing ≡ false
    → (s.link.tx ≡ [])
      × (s.link.counters.queue_bytes ≡ tried s.posted)
      × ((s.link.waiting ≡ []) ⊎ (f.bp_low < tried s.posted))
Reach-IsMoving f s apart bounded r going idle =
    let e = Reach-IsExact f apart bounded s r going in
    let rest : one_if s.writing ≡ 0 = ap one_if idle in
    let nothing = ap bytes (Reach-IsLive f s r going idle) in
    let left : s.link.counters.queue_bytes ≡ tried s.posted = omega (
      arith,
      e.queued,
      nothing,
      grounded s.in_flight (omega (arith, e.once, rest)),
      tried-owed s.posted (omega (arith, e.once, rest)),
    ) in
    (
      Reach-IsLive f s r going idle,
      left,
      elim (Bool-cases s.link.counters.backpressure_active) [
        | inl on ↦ inr (omega (arith, left, ((Reach-IsSteady f apart s bounded r).1 going on).1))
        | inr off ↦ inl (Reach-IsCalm f s r off)
      ],
    )
