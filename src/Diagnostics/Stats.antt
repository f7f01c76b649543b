-- ===== src/Diagnostics/Stats.antt =====
-- wirestead/diagnostics/runtime_stats_counter.hpp and wirestead/wrapper/runtime_stats.hpp.
-- Counters are `uint64_t` and wrap around. Times are nanoseconds of the steady clock, an argument
-- of the functions that read it; the optional accounting snapshot is not part of these counters.
use wirestead.Prelude.{
  ℕ, ◌-◌, ◌/◌, ◌≡◌, refl, ap, ◌∙◌, Bool, true, false, List, [], ◌∷◌, Option, none, some, ltb, ◌==◌,
  if◌then◌else◌, add_size, arith,
}

pub record RuntimeStatsCounters : Type 0 where
  pub bytes_accepted : ℕ
  pub messages_accepted : ℕ
  pub bytes_sent : ℕ
  pub messages_sent : ℕ
  pub bytes_received : ℕ
  pub messages_received : ℕ
  pub last_receive_ns : ℕ
  pub failed_sends : ℕ
  pub dropped_messages : ℕ
  pub dropped_bytes : ℕ
  pub backpressure_events : ℕ
  pub max_queued_bytes : ℕ
  pub drop_warned : Bool

pub record RuntimeStats : Type 0 where
  pub bytes_accepted : ℕ
  pub messages_accepted : ℕ
  pub bytes_sent : ℕ
  pub messages_sent : ℕ
  pub bytes_received : ℕ
  pub messages_received : ℕ
  pub failed_sends : ℕ
  pub dropped_messages : ℕ
  pub dropped_bytes : ℕ
  pub backpressure_events : ℕ
  pub queued_bytes : ℕ
  pub pending_bytes : ℕ
  pub max_queued_bytes : ℕ
  pub backpressure_active : Bool
  pub last_receive_age_ms : Option ℕ

abbrev pub zeroed : RuntimeStatsCounters
zeroed = record {
  bytes_accepted = 0;
  messages_accepted = 0;
  bytes_sent = 0;
  messages_sent = 0;
  bytes_received = 0;
  messages_received = 0;
  last_receive_ns = 0;
  failed_sends = 0;
  dropped_messages = 0;
  dropped_bytes = 0;
  backpressure_events = 0;
  max_queued_bytes = 0;
  drop_warned = false;
}

unfoldable pub record_accepted : RuntimeStatsCounters → ℕ → RuntimeStatsCounters
record_accepted s bytes = record s {
  messages_accepted = add_size s.messages_accepted 1;
  bytes_accepted = add_size s.bytes_accepted bytes;
}

unfoldable pub record_sent : RuntimeStatsCounters → ℕ → RuntimeStatsCounters
record_sent s bytes = record s {
  messages_sent = add_size s.messages_sent 1;
  bytes_sent = add_size s.bytes_sent bytes;
}

unfoldable pub record_received : RuntimeStatsCounters → ℕ → ℕ → RuntimeStatsCounters
record_received s bytes now_ns = record s {
  messages_received = add_size s.messages_received 1;
  bytes_received = add_size s.bytes_received bytes;
  last_receive_ns = now_ns;
}

unfoldable pub record_failed_send : RuntimeStatsCounters → RuntimeStatsCounters
record_failed_send s = record s { failed_sends = add_size s.failed_sends 1 }

-- The flag says whether the warning is logged.
unfoldable pub record_dropped : RuntimeStatsCounters → ℕ → ℕ → RuntimeStatsCounters × Bool
record_dropped s messages bytes = (
  record s {
    dropped_messages = add_size s.dropped_messages messages;
    dropped_bytes = add_size s.dropped_bytes bytes;
    drop_warned = true;
  },
  if s.drop_warned then false else true,
)

unfoldable pub record_backpressure_event : RuntimeStatsCounters → RuntimeStatsCounters
record_backpressure_event s = record s { backpressure_events = add_size s.backpressure_events 1 }

-- The loop of `compare_exchange_weak`, with no other thread between the load and the exchange.
unfoldable pub observe_queue : RuntimeStatsCounters → ℕ → RuntimeStatsCounters
observe_queue s queued = record s {
  max_queued_bytes = if ltb s.max_queued_bytes queued then queued else s.max_queued_bytes;
}

unfoldable pub absorb : RuntimeStatsCounters → RuntimeStats → RuntimeStatsCounters
absorb s other =
    observe_queue
      (record s {
        bytes_accepted = add_size s.bytes_accepted other.bytes_accepted;
        messages_accepted = add_size s.messages_accepted other.messages_accepted;
        bytes_sent = add_size s.bytes_sent other.bytes_sent;
        messages_sent = add_size s.messages_sent other.messages_sent;
        bytes_received = add_size s.bytes_received other.bytes_received;
        messages_received = add_size s.messages_received other.messages_received;
        failed_sends = add_size s.failed_sends other.failed_sends;
        dropped_messages = add_size s.dropped_messages other.dropped_messages;
        dropped_bytes = add_size s.dropped_bytes other.dropped_bytes;
        backpressure_events = add_size s.backpressure_events other.backpressure_events;
      })
      other.max_queued_bytes

-- `age > 0 ? age / 1'000'000 : 0`, and none where nothing has arrived.
unfoldable pub receive_age_ms : ℕ → ℕ → Option ℕ
receive_age_ms last now_ns =
    if last == 0 then none else some (if ltb last now_ns then (now_ns - last) / 1000000 else 0)

unfoldable pub snapshot : RuntimeStatsCounters → ℕ → ℕ → Bool → ℕ → RuntimeStats
snapshot s queued_bytes pending_bytes backpressure_active now_ns = record {
  bytes_accepted = s.bytes_accepted;
  messages_accepted = s.messages_accepted;
  bytes_sent = s.bytes_sent;
  messages_sent = s.messages_sent;
  bytes_received = s.bytes_received;
  messages_received = s.messages_received;
  failed_sends = s.failed_sends;
  dropped_messages = s.dropped_messages;
  dropped_bytes = s.dropped_bytes;
  backpressure_events = s.backpressure_events;
  queued_bytes = queued_bytes;
  pending_bytes = pending_bytes;
  max_queued_bytes = s.max_queued_bytes;
  backpressure_active = backpressure_active;
  last_receive_age_ms = receive_age_ms s.last_receive_ns now_ns;
}

unfoldable pub reset : RuntimeStatsCounters → ℕ → RuntimeStatsCounters
reset s current_queued_bytes = record s {
  bytes_accepted = 0;
  messages_accepted = 0;
  bytes_sent = 0;
  messages_sent = 0;
  bytes_received = 0;
  messages_received = 0;
  last_receive_ns = 0;
  failed_sends = 0;
  dropped_messages = 0;
  dropped_bytes = 0;
  backpressure_events = 0;
  max_queued_bytes = current_queued_bytes;
}

-- The events of a measurement.
pub data Event : Type 0 where
  accepted sent : ℕ → Event
  received : ℕ → ℕ → Event
  failed backpressure : Event
  dropped : ℕ → ℕ → Event
  queued : ℕ → Event

unfoldable pub apply : RuntimeStatsCounters → Event → RuntimeStatsCounters
apply s (accepted bytes) = record_accepted s bytes
apply s (sent bytes) = record_sent s bytes
apply s (received bytes now_ns) = record_received s bytes now_ns
apply s failed = record_failed_send s
apply s backpressure = record_backpressure_event s
apply s (dropped messages bytes) = (record_dropped s messages bytes).0
apply s (queued bytes) = observe_queue s bytes

unfoldable pub run : RuntimeStatsCounters → List Event → RuntimeStatsCounters
run s [] = s
run s (e ∷ events) = run (apply s e) events

-- Without the time of the last receive and the latch of the warning, which are not absorbed.
unfoldable pub counted : RuntimeStatsCounters → RuntimeStatsCounters
counted s = record s { last_receive_ns = 0; drop_warned = false }

add_size_assoc : (a b c : ℕ) → add_size a (add_size b c) ≡ add_size (add_size a b) c
add_size_assoc a b c = omega arith

peak_assoc :
    (a b c : ℕ)
    → (let m = if ltb b c then c else b in if ltb a m then m else a)
      ≡ (let m = if ltb a b then b else a in if ltb m c then c else m)
peak_assoc a b c = ground arith

module _ (queued_bytes pending_bytes : ℕ) (active : Bool) (now_ns : ℕ) where
  absorb-apply :
      (s c : RuntimeStatsCounters) (e : Event)
      → counted (absorb s (snapshot (apply c e) queued_bytes pending_bytes active now_ns))
        ≡ counted (apply (absorb s (snapshot c queued_bytes pending_bytes active now_ns)) e)
  unfolding counted absorb snapshot apply record_accepted record_sent record_received
      record_failed_send record_backpressure_event record_dropped observe_queue
  absorb-apply s c (accepted bytes) =
      rw
        (
          add_size_assoc s.messages_accepted c.messages_accepted 1,
          add_size_assoc s.bytes_accepted c.bytes_accepted bytes,
        )
        refl
  absorb-apply s c (sent bytes) =
      rw
        (
          add_size_assoc s.messages_sent c.messages_sent 1,
          add_size_assoc s.bytes_sent c.bytes_sent bytes,
        )
        refl
  absorb-apply s c (received bytes now) =
      rw
        (
          add_size_assoc s.messages_received c.messages_received 1,
          add_size_assoc s.bytes_received c.bytes_received bytes,
        )
        refl
  absorb-apply s c failed = rw (add_size_assoc s.failed_sends c.failed_sends 1) refl
  absorb-apply s c backpressure =
      rw (add_size_assoc s.backpressure_events c.backpressure_events 1) refl
  absorb-apply s c (dropped messages bytes) =
      rw
        (
          add_size_assoc s.dropped_messages c.dropped_messages messages,
          add_size_assoc s.dropped_bytes c.dropped_bytes bytes,
        )
        refl
  absorb-apply s c (queued bytes) = rw (peak_assoc s.max_queued_bytes c.max_queued_bytes bytes) refl

  counted-apply :
      (s t : RuntimeStatsCounters) (e : Event)
      → counted s ≡ counted t
      → counted (apply s e) ≡ counted (apply t e)
  unfolding counted apply record_accepted record_sent record_received record_failed_send
      record_backpressure_event record_dropped observe_queue
  counted-apply s t (accepted bytes) h =
      ap (λ (c : RuntimeStatsCounters). record_accepted c bytes) h
  counted-apply s t (sent bytes) h = ap (λ (c : RuntimeStatsCounters). record_sent c bytes) h
  counted-apply s t (received bytes now) h =
      ap (λ (c : RuntimeStatsCounters). counted (record_received c bytes now)) h
  counted-apply s t failed h = ap record_failed_send h
  counted-apply s t backpressure h = ap record_backpressure_event h
  counted-apply s t (dropped messages bytes) h =
      ap (λ (c : RuntimeStatsCounters). counted ((record_dropped c messages bytes).0)) h
  counted-apply s t (queued bytes) h = ap (λ (c : RuntimeStatsCounters). observe_queue c bytes) h

  counted-run :
      (s t : RuntimeStatsCounters) (events : List Event)
      → counted s ≡ counted t
      → counted (run s events) ≡ counted (run t events)
  unfolding run
  counted-run s t [] h = h
  counted-run s t (e ∷ events) h =
      counted-run (apply s e) (apply t e) events (counted-apply s t e h)

  -- Counting events in a session and absorbing its snapshot counts the same as absorbing the
  -- session before them and counting the events at the server: no event is lost or doubled, modulo
  -- the width of the counters, and the peak of the queue is the deeper one.
  pub absorb-run :
      (s c : RuntimeStatsCounters) (events : List Event)
      → counted (absorb s (snapshot (run c events) queued_bytes pending_bytes active now_ns))
        ≡ counted (run (absorb s (snapshot c queued_bytes pending_bytes active now_ns)) events)
  unfolding run
  absorb-run s c [] = refl
  absorb-run s c (e ∷ events) =
      absorb-run s (apply c e) events ∙ counted-run _ _ events (absorb-apply s c e)
