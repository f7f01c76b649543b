-- ===== src/Transport/Session.antt =====
-- The write side of wirestead/transport/tcp_server/tcp_server_session.cc: what is admitted, queued,
-- written and lost over the life of a session. A call of a method and a handler of the strand are
-- one step each. `posted` is what waits on the strand; `in_flight` is the write that the socket was
-- given, whose completion comes with a step of its own, as does an exception of its initiation,
-- since nothing that follows a write in a handler acts on a session that is closing. A buffer is
-- its size, and a null `shared_ptr` is `none`. The idle timer, the reads, the callbacks other than
-- whether they are set, and the log are left out.
pub mod Strand
pub mod Progress
pub mod Steps
pub mod Answers
pub mod Sends
pub mod Bounds
pub mod Pending
pub mod Exact
pub mod Steady
pub mod Idle
pub mod Moving
use wirestead.Prelude.{
  ℕ, ◌+◌, ◌-◌, ◌*◌, ◌/◌, ◌%◌, Bool, true, false, not, ◌&&◌, ◌||◌, List, [], ◌∷◌, ◌++◌, map, Option,
  none, some, ltb, leb, ◌==◌, if◌then◌else◌, add_size, size_mod, min, max,
}
use wirestead.Diagnostics.Accounting.{Cause}
use wirestead.Diagnostics.Ledger.{Ledger, new_ledger}
use wirestead.Diagnostics.Ledger
use wirestead.Diagnostics.Stats.{
  RuntimeStatsCounters, zeroed, record_accepted, record_sent, record_failed_send, record_dropped,
}
use wirestead.Diagnostics.Stats
use wirestead.Transport.Reservation.{
  Counters, Counter, try_reserve_limit_bytes, try_reserve_write_locked,
  release_reserved_limit_bytes, commit_reserved_limit_bytes, released,
}
use wirestead.Transport.Reservation.Loops.{alone}
use wirestead.Transport.Gather.{BackpressureStrategy, take_gather_batch, max_gather_bytes}
use wirestead.Transport.Backpressure.{
  Link, EnqueueDecision, decide_enqueue, flush_pending_into_tx, drain_and_clear_backpressure,
}
use wirestead.Transport.Backpressure
use wirestead.Wrapper.Send.{SendRejection, SendResult, accept, reject, max_buffer_size}

-- `TrackedBuffer`
pub record TrackedBuffer : Type 0 where
  pub size : ℕ
  pub request : ℕ

-- The lambdas that are posted to the strand.
pub data Task : Type 0 where
  enqueue enqueue_reserved : TrackedBuffer → Task
  completed : ℕ → Bool → ℕ → Task
  stop : Task

pub record Limits : Type 0 where
  pub bp_high : ℕ
  pub bp_low : ℕ
  pub bp_limit : ℕ
  pub bp_strategy : BackpressureStrategy

pub record Session : Type 0 where
  pub link : Link TrackedBuffer
  pub ledger : Ledger
  pub alive : Bool
  pub closing : Bool
  pub cleanup_done : Bool
  pub writing : Bool
  pub current_write_batch : List TrackedBuffer
  pub wait_ended_by : Option SendRejection
  pub on_close : Bool
  pub closed : ℕ
  pub in_flight : Option ℕ
  pub posted : List Task

abbrev pub default_backpressure_threshold : ℕ
default_backpressure_threshold = 1024 * 1024

-- The constructor.
unfoldable pub limits : ℕ → BackpressureStrategy → Limits
limits backpressure_threshold strategy = record {
  bp_high = backpressure_threshold;
  bp_low =
      let half =
        if ltb 1 backpressure_threshold
        then backpressure_threshold / 2
        else backpressure_threshold in
      if half == 0 then 1 else half;
  bp_limit =
      min (max (backpressure_threshold * 4 % size_mod) default_backpressure_threshold)
        max_buffer_size;
  bp_strategy = strategy;
}

abbrev pub idle_counters : Counters
idle_counters = record {
  queue_bytes = 0;
  pending_bytes = 0;
  inflight_bytes = 0;
  backpressure_active = false;
}

unfoldable pub new_session : Bool → Bool → Session
new_session on_bp on_close = record {
  link = record {
    counters = idle_counters;
    tx = [];
    waiting = [];
    stats = zeroed;
    has_callback = on_bp;
    reported = [];
  };
  ledger = new_ledger;
  alive = false;
  closing = false;
  cleanup_done = false;
  writing = false;
  current_write_batch = [];
  wait_ended_by = none;
  on_close = on_close;
  closed = 0;
  in_flight = none;
  posted = [];
}

-- `alive_.exchange(true)`
unfoldable pub start : Session → Session
start s = record s { alive = true }

-- Calls of the counters.
abbrev pub with_counters : Session → Counters → Session
with_counters s c = record s { link = record s.link { counters = c } }

abbrev pub with_stats : Session → RuntimeStatsCounters → Session
with_stats s stats = record s { link = record s.link { stats = stats } }

unfoldable pub failed_send : Session → Session
failed_send s = with_stats s (record_failed_send s.link.stats)

unfoldable pub dropped : Session → ℕ → Session
dropped s bytes = with_stats s (record_dropped s.link.stats 1 bytes).0

unfoldable pub observe_queue : Session → Session
observe_queue s = with_stats s (
    Stats.observe_queue s.link.stats
      (add_size s.link.counters.queue_bytes s.link.counters.pending_bytes))

-- `if (!wait_ended_by_) …`
unfoldable pub end_wait : Session → SendRejection → Session
end_wait s reason = record s {
  wait_ended_by = elim s.wait_ended_by [ none ↦ some reason | some r ↦ some r ];
}

abbrev pub unready : Session → Bool
unready s = not s.alive || s.closing

-- Refusals.
abbrev pub refuse : Session → SendRejection → Session × SendResult
refuse s reason = (failed_send s, reject reason)

-- Behind a reservation: the admission, the post, and its commit.
unfoldable pub submit : Session → ℕ → (TrackedBuffer → Task) → Session × SendResult
submit s added task =
    let admission = Ledger.admit s.ledger added none in
    let item : TrackedBuffer = record { size = added; request = admission.1 } in
    (
      record s {
        link = record s.link { stats = record_accepted s.link.stats added };
        ledger = admission.0;
        posted = s.posted ++ task item ∷ [];
      },
      accept,
    )

-- The part of the three plain writes behind their guards.
unfoldable pub reserve_and_submit : Limits → Session → ℕ → Session × SendResult
reserve_and_submit f s added =
    let r = try_reserve_limit_bytes s.link.counters added f.bp_limit in
    if r.1
    then submit (with_counters s r.0) added Task.enqueue
    else refuse s SendRejection.would_block

unfoldable pub write_move : Limits → Session → ℕ → Session × SendResult
write_move f s added =
    if unready s
    then refuse s SendRejection.not_ready
    else if added == 0
    then refuse s SendRejection.invalid_argument
    else if ltb max_buffer_size added
    then refuse s SendRejection.too_large
    else reserve_and_submit f s added

-- The two ways to hold the copy, a pooled buffer or a vector, do the same.
unfoldable pub write_copy : Limits → Session → ℕ → Session × SendResult
write_copy f s size =
    if unready s
    then refuse s SendRejection.not_ready
    else if size == 0
    then refuse s SendRejection.invalid_argument
    else if ltb max_buffer_size size
    then refuse s SendRejection.too_large
    else reserve_and_submit f s size

unfoldable pub write_shared : Limits → Session → Option ℕ → Session × SendResult
write_shared f s none =
    refuse s (if unready s then SendRejection.not_ready else SendRejection.invalid_argument)
write_shared f s (some added) =
    if unready s
    then refuse s SendRejection.not_ready
    else if added == 0
    then refuse s SendRejection.invalid_argument
    else if ltb max_buffer_size added
    then refuse s SendRejection.too_large
    else reserve_and_submit f s added

-- `reject_for_pressure`, and the answer behind it.
unfoldable pub reject_for_pressure : Limits → Session → ℕ → Session × SendResult
reject_for_pressure f s added = (
  elim f.bp_strategy [
    | BackpressureStrategy.best_effort ↦ dropped s added
    | BackpressureStrategy.reliable ↦ failed_send s
  ],
  reject SendRejection.would_block,
)

-- The checks before the reservation.
abbrev pub pressed : Limits → Counters → ℕ → Bool
pressed f c added =
    c.backpressure_active
    || (ltb f.bp_high (add_size c.queue_bytes added)
        || ltb f.bp_limit (add_size (add_size c.queue_bytes c.pending_bytes) added))

-- One round of the loop: no other thread changes the counters within a step.
abbrev pub try_reserve : Limits → Counters → ℕ → Counters × Bool
try_reserve f c added = elim (try_reserve_write_locked (alone ∷ []) c added f.bp_high f.bp_limit) [
  | none ↦ (c, false)
  | some r ↦ r
]

unfoldable pub try_reserve_and_submit : Limits → Session → ℕ → Session × SendResult
try_reserve_and_submit f s added =
    let r = try_reserve f s.link.counters added in
    if pressed f s.link.counters added
    then reject_for_pressure f s added
    else if r.1
    then submit (with_counters s r.0) added Task.enqueue_reserved
    else reject_for_pressure f s added

unfoldable pub try_write_move : Limits → Session → ℕ → Session × SendResult
try_write_move f s added =
    if unready s
    then refuse s SendRejection.not_ready
    else if added == 0 || ltb max_buffer_size added
    then refuse s (if added == 0 then SendRejection.invalid_argument else SendRejection.too_large)
    else try_reserve_and_submit f s added

unfoldable pub try_write_copy : Limits → Session → ℕ → Session × SendResult
try_write_copy f s size =
    if size == 0 || ltb max_buffer_size size
    then refuse s (if size == 0 then SendRejection.invalid_argument else SendRejection.too_large)
    else try_write_move f s size

unfoldable pub try_write_shared : Limits → Session → Option ℕ → Session × SendResult
try_write_shared f s none =
    refuse s (if unready s then SendRejection.not_ready else SendRejection.invalid_argument)
try_write_shared f s (some added) =
    if unready s
    then refuse s SendRejection.not_ready
    else if added == 0
    then refuse s SendRejection.invalid_argument
    else if ltb max_buffer_size added
    then refuse s SendRejection.too_large
    else try_reserve_and_submit f s added
