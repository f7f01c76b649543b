-- ===== src/Transport/Tests.antt =====
-- A session that writes 5 bytes: each step of its write side, run.
use wirestead.Prelude.{
  ◌≡◌, ◌<◌, ◌≤◌, ◌++◌, refl, true, false, some, none, [], ◌∷◌, arith, size_mod, leb, ◌⊎◌,
}
use wirestead.Diagnostics.Ledger
use wirestead.Transport.Gather.{BackpressureStrategy}
use wirestead.Transport.Reservation.Loops.{total}
use wirestead.Transport.Session.{
  Session, Limits, Task, TrackedBuffer, limits, new_session, start, unready, write_move,
}
use wirestead.Transport.Session.Strand.{
  run, request_stop, async_stop, do_close, on_stop, lose_connection, on_completed,
}
use wirestead.Transport.Session.Steps.{Step, Reach, IsNumbered}
use wirestead.Transport.Session.Moving.{tried, Reach-IsMoving}
use wirestead.Transport.Session.Sends.{HasEnded, ends-HasEnded, on_completed-HasEnded}
use wirestead.Transport.Session.Bounds.{limits-bounds, Reach-IsWithin}

abbrev kilobyte : Limits
kilobyte = limits 1024 BackpressureStrategy.reliable

abbrev largest : Limits
largest = limits 104857600 BackpressureStrategy.reliable

abbrev started : Session
started = start (new_session true true)

abbrev sent : Session
sent = (write_move kilobyte started 5).0

abbrev first_buffer : TrackedBuffer
first_buffer = record { size = 5; request = 1 }

abbrev under_way : Session
under_way = run kilobyte (record sent { posted = [] }) (Task.enqueue first_buffer)

abbrev confirmed : Session
confirmed = record under_way {
  in_flight = none;
  posted = under_way.posted ++ Task.completed 5 false 5 ∷ [];
}

abbrev written : Session
written = run kilobyte (record confirmed { posted = [] }) (Task.completed 5 false 5)

started-IsNumbered : IsNumbered started
unfolding start new_session
started-IsNumbered = omega arith

sent-posted : sent.posted ≡ Task.enqueue first_buffer ∷ []
unfolding write_move start new_session limits wirestead.Transport.Session.reserve_and_submit
    wirestead.Transport.Session.submit wirestead.Transport.Reservation.try_reserve_limit_bytes
    Ledger.admit
sent-posted = refl

under_way-write : under_way.in_flight ≡ some 5
unfolding run write_move start new_session limits wirestead.Transport.Session.reserve_and_submit
    wirestead.Transport.Session.submit wirestead.Transport.Reservation.try_reserve_limit_bytes
    Ledger.admit wirestead.Transport.Session.Strand.on_enqueue
    wirestead.Transport.Session.Strand.route_enqueued_buffer
    wirestead.Transport.Session.Strand.queue_buffer wirestead.Transport.Session.Strand.write_if_idle
    wirestead.Transport.Session.Strand.report_backpressure
    wirestead.Transport.Session.Strand.do_write wirestead.Transport.Session.Strand.is_empty
    wirestead.Transport.Session.Strand.kick_write wirestead.Transport.Session.observe_queue
    wirestead.Transport.Backpressure.decide_enqueue
    wirestead.Transport.Backpressure.report_backpressure wirestead.Transport.Backpressure.turn_on
    wirestead.Transport.Backpressure.turn_off
    wirestead.Transport.Reservation.commit_reserved_limit_bytes
    wirestead.Transport.Reservation.release_reserved_limit_bytes
    wirestead.Transport.Reservation.fetch_add wirestead.Transport.Reservation.released
    wirestead.Transport.Gather.take_gather_batch wirestead.Transport.Gather.gather
under_way-write = refl

confirmed-posted : confirmed.posted ≡ Task.completed 5 false 5 ∷ []
unfolding run write_move start new_session limits wirestead.Transport.Session.reserve_and_submit
    wirestead.Transport.Session.submit wirestead.Transport.Reservation.try_reserve_limit_bytes
    Ledger.admit wirestead.Transport.Session.Strand.on_enqueue
    wirestead.Transport.Session.Strand.route_enqueued_buffer
    wirestead.Transport.Session.Strand.queue_buffer wirestead.Transport.Session.Strand.write_if_idle
    wirestead.Transport.Session.Strand.report_backpressure
    wirestead.Transport.Session.Strand.do_write wirestead.Transport.Session.Strand.is_empty
    wirestead.Transport.Session.Strand.kick_write wirestead.Transport.Session.observe_queue
    wirestead.Transport.Backpressure.decide_enqueue
    wirestead.Transport.Backpressure.report_backpressure wirestead.Transport.Backpressure.turn_on
    wirestead.Transport.Backpressure.turn_off
    wirestead.Transport.Reservation.commit_reserved_limit_bytes
    wirestead.Transport.Reservation.release_reserved_limit_bytes
    wirestead.Transport.Reservation.fetch_add wirestead.Transport.Reservation.released
    wirestead.Transport.Gather.take_gather_batch wirestead.Transport.Gather.gather
confirmed-posted = refl

written-idle : (written.closing ≡ false) × (written.writing ≡ false)
unfolding run write_move start new_session limits wirestead.Transport.Session.reserve_and_submit
    wirestead.Transport.Session.submit wirestead.Transport.Reservation.try_reserve_limit_bytes
    Ledger.admit wirestead.Transport.Session.Strand.on_enqueue
    wirestead.Transport.Session.Strand.route_enqueued_buffer
    wirestead.Transport.Session.Strand.queue_buffer wirestead.Transport.Session.Strand.write_if_idle
    wirestead.Transport.Session.Strand.report_backpressure
    wirestead.Transport.Session.Strand.do_write wirestead.Transport.Session.Strand.is_empty
    wirestead.Transport.Session.Strand.kick_write wirestead.Transport.Session.observe_queue
    wirestead.Transport.Backpressure.decide_enqueue
    wirestead.Transport.Backpressure.report_backpressure wirestead.Transport.Backpressure.turn_on
    wirestead.Transport.Backpressure.turn_off
    wirestead.Transport.Reservation.commit_reserved_limit_bytes
    wirestead.Transport.Reservation.release_reserved_limit_bytes
    wirestead.Transport.Reservation.fetch_add wirestead.Transport.Reservation.released
    wirestead.Transport.Gather.take_gather_batch wirestead.Transport.Gather.gather
    wirestead.Transport.Session.Strand.on_completed wirestead.Transport.Session.Strand.on_written
written-idle = (refl, refl)

kilobyte-apart : kilobyte.bp_low < kilobyte.bp_high
unfolding limits
kilobyte-apart = omega arith

kilobyte-bounded : kilobyte.bp_limit < size_mod
unfolding limits
kilobyte-bounded = omega arith

under_way-open : under_way.cleanup_done ≡ false
unfolding run write_move start new_session limits wirestead.Transport.Session.reserve_and_submit
    wirestead.Transport.Session.submit wirestead.Transport.Reservation.try_reserve_limit_bytes
    Ledger.admit wirestead.Transport.Session.Strand.on_enqueue
    wirestead.Transport.Session.Strand.route_enqueued_buffer
    wirestead.Transport.Session.Strand.queue_buffer wirestead.Transport.Session.Strand.write_if_idle
    wirestead.Transport.Session.Strand.report_backpressure
    wirestead.Transport.Session.Strand.do_write wirestead.Transport.Session.Strand.is_empty
    wirestead.Transport.Session.Strand.kick_write wirestead.Transport.Session.observe_queue
    wirestead.Transport.Backpressure.decide_enqueue
    wirestead.Transport.Backpressure.report_backpressure wirestead.Transport.Backpressure.turn_on
    wirestead.Transport.Backpressure.turn_off
    wirestead.Transport.Reservation.commit_reserved_limit_bytes
    wirestead.Transport.Reservation.release_reserved_limit_bytes
    wirestead.Transport.Reservation.fetch_add wirestead.Transport.Reservation.released
    wirestead.Transport.Gather.take_gather_batch wirestead.Transport.Gather.gather
under_way-open = refl

under_way-ready : unready under_way ≡ false
unfolding run write_move start new_session limits wirestead.Transport.Session.reserve_and_submit
    wirestead.Transport.Session.submit wirestead.Transport.Reservation.try_reserve_limit_bytes
    Ledger.admit wirestead.Transport.Session.Strand.on_enqueue
    wirestead.Transport.Session.Strand.route_enqueued_buffer
    wirestead.Transport.Session.Strand.queue_buffer wirestead.Transport.Session.Strand.write_if_idle
    wirestead.Transport.Session.Strand.report_backpressure
    wirestead.Transport.Session.Strand.do_write wirestead.Transport.Session.Strand.is_empty
    wirestead.Transport.Session.Strand.kick_write wirestead.Transport.Session.observe_queue
    wirestead.Transport.Backpressure.decide_enqueue
    wirestead.Transport.Backpressure.report_backpressure wirestead.Transport.Backpressure.turn_on
    wirestead.Transport.Backpressure.turn_off
    wirestead.Transport.Reservation.commit_reserved_limit_bytes
    wirestead.Transport.Reservation.release_reserved_limit_bytes
    wirestead.Transport.Reservation.fetch_add wirestead.Transport.Reservation.released
    wirestead.Transport.Gather.take_gather_batch wirestead.Transport.Gather.gather
under_way-ready = refl

sent-Reach : Reach kilobyte sent
sent-Reach =
    Reach.steps (Reach.steps (Reach.begins true true) Step.starts) (Step.moves 5 started-IsNumbered)

under_way-Reach : Reach kilobyte under_way
under_way-Reach = Reach.steps sent-Reach (Step.runs (Task.enqueue first_buffer) [] sent-posted)

written-Reach : Reach kilobyte written
written-Reach =
    Reach.steps (Reach.steps under_way-Reach (Step.completes 5 false 5 under_way-write))
      (Step.runs (Task.completed 5 false 5) [] confirmed-posted)

Reach-IsMoving_example :
    (written.link.tx ≡ [])
    × (written.link.counters.queue_bytes ≡ tried written.posted)
    × ((written.link.waiting ≡ []) ⊎ (kilobyte.bp_low < tried written.posted))
Reach-IsMoving_example =
    Reach-IsMoving kilobyte written kilobyte-apart kilobyte-bounded written-Reach written-idle.0
      written-idle.1

Reach-IsWithin_example : total under_way.link.counters ≤ kilobyte.bp_limit
Reach-IsWithin_example = Reach-IsWithin kilobyte under_way kilobyte-bounded under_way-Reach

ends-HasEnded_example :
    HasEnded (request_stop under_way)
    × HasEnded (async_stop under_way)
    × HasEnded (do_close under_way)
    × HasEnded (on_stop under_way)
    × HasEnded (lose_connection under_way)
ends-HasEnded_example = ends-HasEnded kilobyte under_way under_way-Reach under_way-open

-- Two bytes of the five are written.
on_completed-HasEnded_example : HasEnded (on_completed kilobyte under_way 5 false 2)
on_completed-HasEnded_example =
    on_completed-HasEnded kilobyte under_way 5 false 2 under_way-Reach under_way-open
      under_way-ready refl

-- The largest threshold that a configuration may have.
limits-bounds_example :
    (0 < largest.bp_low)
    × (largest.bp_low < largest.bp_high)
    × (1048576 ≤ largest.bp_limit)
    × (largest.bp_limit ≤ 67108864)
    × (leb largest.bp_high largest.bp_limit ≡ leb 104857600 67108864)
limits-bounds_example =
    limits-bounds 104857600 BackpressureStrategy.reliable (omega arith) (omega arith)
