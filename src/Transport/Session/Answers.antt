-- ===== src/Transport/Session/Answers.antt =====
-- What a write of a session is answered with, and what it changes
-- (wirestead/transport/tcp_server/tcp_server_session.cc).
use wirestead.Prelude.{
  ℕ, ◌≡◌, ◌<◌, ◌≤◌, refl, true, false, ◌||◌, [], ◌∷◌, ◌++◌, none, some, ltb, ◌==◌, arith, ◌+◌, ◌%◌,
  size_mod, sym, ap, if◌then◌else◌,
}
use wirestead.Diagnostics.Stats.{RuntimeStatsCounters, record_failed_send, record_dropped}
use wirestead.Transport.Gather.{BackpressureStrategy}
use wirestead.Wrapper.Send.{SendResult, SendRejection, reject, max_buffer_size}
use wirestead.Transport.Reservation.{Counters, try_reserve_limit_bytes}
use wirestead.Transport.Session.{
  pressed, try_reserve, Session, Limits, Task, TrackedBuffer, with_counters, with_stats,
  failed_send, dropped, unready, submit, reserve_and_submit, write_move, write_copy, write_shared,
  reject_for_pressure, try_reserve_and_submit, try_write_move, try_write_copy, try_write_shared,
}
use wirestead.Transport.Session.Progress.{choose}
use wirestead.Diagnostics.Ledger

-- The statistics with one failed send more, and with one dropped message more.
abbrev pub one_failed : RuntimeStatsCounters → RuntimeStatsCounters
one_failed t = record t { failed_sends = (t.failed_sends + 1) % size_mod }

abbrev pub one_dropped : RuntimeStatsCounters → ℕ → RuntimeStatsCounters
one_dropped t added = record t {
  dropped_messages = (t.dropped_messages + 1) % size_mod;
  dropped_bytes = (t.dropped_bytes + added) % size_mod;
  drop_warned = true;
}

-- What a refused plain write counts, and what a refused try-write counts.
abbrev pub plain_loss : Session → ℕ → SendRejection → RuntimeStatsCounters
plain_loss s added reason = one_failed s.link.stats

abbrev pub try_loss : BackpressureStrategy → Session → ℕ → SendRejection → RuntimeStatsCounters
try_loss strategy s added SendRejection.would_block = elim strategy [
  | BackpressureStrategy.best_effort ↦ one_dropped s.link.stats added
  | BackpressureStrategy.reliable ↦ one_failed s.link.stats
]
try_loss strategy s added reason = one_failed s.link.stats

-- The answer to a write of so many bytes that would be posted as such a task, and that counts such
-- a loss where it is refused.
pub record IsAnswered (s : Session) (added : ℕ) (task : TrackedBuffer → Task)
    (loss : Session → ℕ → SendRejection → RuntimeStatsCounters) (r : Session × SendResult)
    : Type 0 where
  pub refused : r.1.accepted ≡ false → r.0 ≡ with_stats s (loss s added r.1.reason)
  pub ready : r.1.accepted ≡ true → unready s ≡ false
  pub sized : r.1.accepted ≡ true → (0 < added) × (added ≤ max_buffer_size)
  pub admitted : r.1.accepted ≡ true → r.0.ledger ≡ (Ledger.admit s.ledger added none).0
  pub posted :
      r.1.accepted ≡ true
      → r.0.posted
        ≡ s.posted
          ++ task (record { size = added; request = (Ledger.admit s.ledger added none).1 }) ∷ []

abbrev Loss : Type 0
Loss = Session → ℕ → SendRejection → RuntimeStatsCounters

refuse-IsAnswered :
    (s : Session) (added : ℕ) (task : TrackedBuffer → Task) (loss : Loss) (m : Session)
    (reason : SendRejection)
    → m ≡ with_stats s (loss s added reason)
    → IsAnswered s added task loss (m, reject reason)
refuse-IsAnswered s added task loss m reason same = record {
  refused = λ e. same;
  ready = λ e. absurd cc;
  sized = λ e. absurd cc;
  admitted = λ e. absurd cc;
  posted = λ e. absurd cc;
}

submit-IsAnswered :
    (s : Session) (added : ℕ) (task : TrackedBuffer → Task) (loss : Loss) (c : Counters)
    → unready s ≡ false
    → (0 < added) × (added ≤ max_buffer_size)
    → IsAnswered s added task loss (submit (with_counters s c) added task)
unfolding submit
submit-IsAnswered s added task loss c ready sized = record {
  refused = λ e. absurd cc;
  ready = λ e. ready;
  sized = λ e. sized;
  admitted = λ e. refl;
  posted = λ e. refl;
}

failed-IsAnswered :
    (s : Session) (added : ℕ) (task : TrackedBuffer → Task) (loss : Loss) (reason : SendRejection)
    → loss s added reason ≡ one_failed s.link.stats
    → IsAnswered s added task loss (failed_send s, reject reason)
unfolding failed_send record_failed_send
failed-IsAnswered s added task loss reason one =
    refuse-IsAnswered s added task loss _ reason (ap (with_stats s) (sym one))

reserve_and_submit-IsAnswered :
    (f : Limits) (s : Session) (added : ℕ)
    → unready s ≡ false
    → (0 < added) × (added ≤ max_buffer_size)
    → IsAnswered s added Task.enqueue plain_loss (reserve_and_submit f s added)
unfolding reserve_and_submit
reserve_and_submit-IsAnswered f s added ready sized =
    choose (IsAnswered s added Task.enqueue plain_loss)
      (try_reserve_limit_bytes s.link.counters added f.bp_limit).1 _ _
      (λ fits. submit-IsAnswered s added Task.enqueue _ _ ready sized)
      (λ full. failed-IsAnswered s added Task.enqueue _ _ refl)

reject_for_pressure-IsAnswered :
    (f : Limits) (s : Session) (added : ℕ)
    → IsAnswered s added Task.enqueue_reserved
        (try_loss f.bp_strategy)
        (reject_for_pressure f s added)
unfolding reject_for_pressure dropped failed_send record_dropped record_failed_send
reject_for_pressure-IsAnswered f s added =
    elim f.bp_strategy
      as (λ b. IsAnswered s added Task.enqueue_reserved (try_loss b) (
        elim b [
          | BackpressureStrategy.best_effort ↦ dropped s added
          | BackpressureStrategy.reliable ↦ failed_send s
        ],
        reject SendRejection.would_block,
      )) [
        | BackpressureStrategy.best_effort ↦ refuse-IsAnswered s added _ _ _ _ refl
        | BackpressureStrategy.reliable ↦ refuse-IsAnswered s added _ _ _ _ refl
      ]

try_reserve_and_submit-IsAnswered :
    (f : Limits) (s : Session) (added : ℕ)
    → unready s ≡ false
    → (0 < added) × (added ≤ max_buffer_size)
    → IsAnswered s added Task.enqueue_reserved
        (try_loss f.bp_strategy)
        (try_reserve_and_submit f s added)
unfolding try_reserve_and_submit
try_reserve_and_submit-IsAnswered f s added ready sized =
    let P = IsAnswered s added Task.enqueue_reserved (try_loss f.bp_strategy) in
    choose P (pressed f s.link.counters added) _ _ (λ e. reject_for_pressure-IsAnswered f s added)
      (λ e.
        choose P (try_reserve f s.link.counters added).1 _ _
          (λ fits. submit-IsAnswered s added Task.enqueue_reserved _ _ ready sized)
          (λ full. reject_for_pressure-IsAnswered f s added))

pub write-IsAnswered :
    (f : Limits) (s : Session) (added : ℕ)
    → IsAnswered s added Task.enqueue plain_loss (write_copy f s added)
      × IsAnswered s added Task.enqueue plain_loss (write_move f s added)
      × IsAnswered s added Task.enqueue plain_loss (write_shared f s (some added))
unfolding write_copy write_move write_shared
write-IsAnswered f s added =
    let P = IsAnswered s added Task.enqueue plain_loss in
    let no : (reason : SendRejection) → P (failed_send s, reject reason) =
      λ reason. failed-IsAnswered s added Task.enqueue plain_loss reason refl in
    let all =
      choose P (unready s) _ _ (λ e. no _)
        (λ ready.
          choose P (added == 0) _ _ (λ e. no _)
            (λ pos.
              choose P (ltb max_buffer_size added) _ _ (λ e. no _)
                (λ small. reserve_and_submit-IsAnswered f s added ready (ground arith)))) in
    (all, all, all)

-- The refusal of a size that is out of bounds.
missized-IsAnswered :
    (f : Limits) (s : Session) (added : ℕ)
    → IsAnswered s added Task.enqueue_reserved (try_loss f.bp_strategy) (
      failed_send s,
      reject (if added == 0 then SendRejection.invalid_argument else SendRejection.too_large),
    )
missized-IsAnswered f s added =
    choose
      (λ reason.
        IsAnswered s added Task.enqueue_reserved (try_loss f.bp_strategy)
          (failed_send s, reject reason))
      (added == 0) _ _ (λ e. failed-IsAnswered s added _ _ _ refl)
      (λ e. failed-IsAnswered s added _ _ _ refl)

try_write_move-IsAnswered :
    (f : Limits) (s : Session) (added : ℕ)
    → IsAnswered s added Task.enqueue_reserved (try_loss f.bp_strategy) (try_write_move f s added)
unfolding try_write_move
try_write_move-IsAnswered f s added =
    let P = IsAnswered s added Task.enqueue_reserved (try_loss f.bp_strategy) in
    choose P (unready s) _ _ (λ e. failed-IsAnswered s added _ _ _ refl)
      (λ ready.
        choose P (added == 0 || ltb max_buffer_size added) _ _ (λ e. missized-IsAnswered f s added)
          (λ sized. try_reserve_and_submit-IsAnswered f s added ready (ground arith)))

pub try_write-IsAnswered :
    (f : Limits) (s : Session) (added : ℕ)
    → IsAnswered s added Task.enqueue_reserved (try_loss f.bp_strategy) (try_write_copy f s added)
      × IsAnswered s added Task.enqueue_reserved (try_loss f.bp_strategy) (try_write_move f s added)
      × IsAnswered s added Task.enqueue_reserved
          (try_loss f.bp_strategy)
          (try_write_shared f s (some added))
unfolding try_write_copy try_write_shared
try_write-IsAnswered f s added =
    let P = IsAnswered s added Task.enqueue_reserved (try_loss f.bp_strategy) in
    (
      choose P (added == 0 || ltb max_buffer_size added) _ _ (λ e. missized-IsAnswered f s added)
          (λ sized. try_write_move-IsAnswered f s added),
      try_write_move-IsAnswered f s added,
      choose P (unready s) _ _ (λ e. failed-IsAnswered s added _ _ _ refl)
          (λ ready.
            choose P (added == 0) _ _ (λ e. failed-IsAnswered s added _ _ _ refl)
              (λ pos.
                choose P (ltb max_buffer_size added) _ _ (λ e. failed-IsAnswered s added _ _ _ refl)
                  (λ small. try_reserve_and_submit-IsAnswered f s added ready (ground arith)))),
    )
