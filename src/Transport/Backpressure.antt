-- ===== src/Transport/Backpressure.antt =====
-- wirestead/transport/base/bp_state_machine.hpp: backpressure on and off, and what becomes of an
-- accepted write. The functions that a transport passes in are arguments here too; the flush is the
-- one of wirestead/transport/tcp_server/tcp_server_session.cc, which the stream transports share.
use wirestead.Prelude.{
  ℕ, ◌-◌, ◌≤◌, ◌<◌, ◌≡◌, refl, Bool, true, false, not, ◌&&◌, ◌||◌, List, [], ◌∷◌, ◌++◌, ltb, leb,
  if◌then◌else◌, add_size, add_size-small, size_mod, arith, Bool-cases, ◌⊎◌, inl, inr, append-nil,
}
use wirestead.Diagnostics.Stats.{RuntimeStatsCounters, record_backpressure_event}
use wirestead.Transport.Reservation.{Counters}
use wirestead.Transport.Reservation.Loops.{total}
use wirestead.Transport.Reservation.Limit.{System, IsValid, sum-held}

pub data EnqueueDecision : Type 0 where
  immediate pending rejected : EnqueueDecision

unfoldable pub decide_enqueue : Counters → ℕ → ℕ → EnqueueDecision
decide_enqueue c added bp_limit =
    if ltb bp_limit c.queue_bytes
      || (ltb (bp_limit - c.queue_bytes) c.pending_bytes
          || ltb (bp_limit - c.queue_bytes - c.pending_bytes) added)
    then EnqueueDecision.rejected
    else (if c.backpressure_active then EnqueueDecision.pending else EnqueueDecision.immediate)

-- What the state machine reads and changes of a transport, and the calls of `on_bp`.
pub record Link (A : Type 0) : Type 0 where
  pub counters : Counters
  pub tx : List A
  pub waiting : List A
  pub stats : RuntimeStatsCounters
  pub has_callback : Bool
  pub reported : List ℕ

unfoldable pub set_active : {A : Type 0} → Link A → Bool → Link A
set_active l active = record l { counters = record l.counters { backpressure_active = active } }

-- `stats.record_backpressure_event(); if (on_bp) …`
unfoldable pub notify : {A : Type 0} → Link A → ℕ → Link A
notify l queued = record l {
  stats = record_backpressure_event l.stats;
  reported = if l.has_callback then l.reported ++ queued ∷ [] else l.reported;
}

-- The lambda of TcpServerSession::report_backpressure: `pending_` to the end of `tx_`.
unfoldable pub flush_pending_into_tx : {A : Type 0} → Link A → Link A × ℕ
flush_pending_into_tx l = (
  record l {
    counters = record l.counters { pending_bytes = 0 };
    tx = l.tx ++ l.waiting;
    waiting = [];
  },
  l.counters.pending_bytes,
)

-- `queue_bytes.fetch_add(moved)`, behind the flush.
unfoldable pub add_moved : {A : Type 0} → Link A × ℕ → Link A
add_moved (l, moved) = record l {
  counters = record l.counters { queue_bytes = add_size l.counters.queue_bytes moved };
}

unfoldable pub turn_on : {A : Type 0} → Link A → ℕ → Link A
turn_on l queued = notify (set_active l true) queued

-- `post_flush >= f.bp_high`
unfoldable pub rearm : {A : Type 0} → Link A → ℕ → Link A
rearm l bp_high = if leb bp_high l.counters.queue_bytes then turn_on l l.counters.queue_bytes else l

-- The branch that turns backpressure off.
unfoldable pub turn_off : {A : Type 0} → (Link A → Link A × ℕ) → Link A → ℕ → ℕ → Link A
turn_off flush l queued bp_high =
    rearm (notify (set_active (add_moved (flush l)) false) queued) bp_high

unfoldable pub report_backpressure :
    {A : Type 0} → (Link A → Link A × ℕ) → (Link A → Link A) → Link A → ℕ → ℕ → ℕ → Link A
report_backpressure flush kick_write l queued bp_high bp_low =
    let off = kick_write (turn_off flush l queued bp_high) in
    if not l.counters.backpressure_active && leb bp_high queued
    then turn_on l queued
    else if l.counters.backpressure_active && leb queued bp_low
    then off
    else l

unfoldable pub drain_and_clear_backpressure : {A : Type 0} → (Link A → Link A) → Link A → Link A
drain_and_clear_backpressure clear_queues l =
    let cleared = clear_queues l in
    let off = set_active cleared false in
    if cleared.counters.backpressure_active && off.has_callback
    then record off { reported = off.reported ++ 0 ∷ [] }
    else off

-- A write that holds a reservation, among any others, is never rejected when it is routed: under
-- the invariant of the counters it is queued or, while backpressure is on, kept pending.
pub decide_enqueue-held :
    (bp_limit : ℕ) (s : System) (front back : List ℕ) (n : ℕ)
    → IsValid bp_limit s
    → s.held ≡ front ++ n ∷ back
    → decide_enqueue s.counters n bp_limit ≡ (
        if s.counters.backpressure_active
        then EnqueueDecision.pending
        else EnqueueDecision.immediate)
unfolding decide_enqueue
decide_enqueue-held bp_limit s front back n v e =
    let part : n ≤ s.counters.inflight_bytes =
      omega (arith, v.counted, sum-held s front back n e) in
    let all = v.within in ground arith

-- What is pending is pending because backpressure is on.
pub record IsRouted {A : Type 0} (l : Link A) : Type 0 where
  pub none_waiting : l.counters.backpressure_active ≡ false → l.waiting ≡ []
  pub none_counted : l.counters.backpressure_active ≡ false → l.counters.pending_bytes ≡ 0

-- What backpressure is to mean behind a report, and what a report keeps.
pub record Settled {A : Type 0} (bp_high bp_low : ℕ) (l m : Link A) : Type 0 where
  pub routed : IsRouted m
  pub order : m.tx ++ m.waiting ≡ l.tx ++ l.waiting
  pub bytes : total m.counters ≡ total l.counters
  pub on : m.counters.backpressure_active ≡ true → bp_low < m.counters.queue_bytes
  pub off : m.counters.backpressure_active ≡ false → m.counters.queue_bytes < bp_high

module _ {A : Type 0} (l : Link A) (bp_high bp_low : ℕ) (apart : bp_low < bp_high)
    (small : total l.counters < size_mod) (routed : IsRouted l) where
  turn_off-Settled :
      Settled bp_high bp_low l (turn_off flush_pending_into_tx l l.counters.queue_bytes bp_high)
  unfolding turn_off add_moved flush_pending_into_tx rearm turn_on set_active notify
  turn_off-Settled =
      let sum = add_size-small l.counters.queue_bytes l.counters.pending_bytes (omega arith) in
      let after : ℕ = add_size l.counters.queue_bytes l.counters.pending_bytes in
      elim (Bool-cases (leb bp_high after)) [
        | inl high ↦ rw high (record {
          routed = record { none_waiting = λ _. refl; none_counted = λ _. refl };
          order = append-nil (l.tx ++ l.waiting);
          bytes = omega arith;
          on = λ _. ground arith;
          off = λ e. cc;
        })
        | inr under ↦ rw under (record {
          routed = record { none_waiting = λ _. refl; none_counted = λ _. refl };
          order = append-nil (l.tx ++ l.waiting);
          bytes = omega arith;
          on = λ e. cc;
          off = λ _. ground arith;
        })
      ]

  turn_on-Settled :
      leb bp_high l.counters.queue_bytes ≡ true
      → Settled bp_high bp_low l (turn_on l l.counters.queue_bytes)
  unfolding turn_on set_active notify
  turn_on-Settled high = record {
    routed = record { none_waiting = λ e. cc; none_counted = λ e. cc };
    order = refl;
    bytes = refl;
    on = λ _. ground arith;
    off = λ e. cc;
  }

  unchanged-Settled :
      (not l.counters.backpressure_active && leb bp_high l.counters.queue_bytes) ≡ false
      → (l.counters.backpressure_active && leb l.counters.queue_bytes bp_low) ≡ false
      → Settled bp_high bp_low l l
  unchanged-Settled stay keep = record {
    routed = routed;
    order = refl;
    bytes = refl;
    on = λ e. ground arith;
    off = λ e. ground arith;
  }

  -- Behind a report of the queued bytes, up to the start of a write where it turns backpressure
  -- off: backpressure is on only above `bp_low` and off only below `bp_high`, nothing is pending
  -- while it is off, the accepted writes are all there in their order, and the bytes that count
  -- against the limit are the same.
  pub report_backpressure-Settled :
      (kick_write : Link A → Link A)
      → (m : Link A) × Settled bp_high bp_low l m
        × ((report_backpressure flush_pending_into_tx kick_write l l.counters.queue_bytes bp_high
                bp_low
              ≡ m)
            ⊎ (report_backpressure flush_pending_into_tx kick_write l l.counters.queue_bytes bp_high
                  bp_low
                ≡ kick_write m))
  unfolding report_backpressure
  report_backpressure-Settled kick_write =
      let q : ℕ = l.counters.queue_bytes in
      elim (Bool-cases (not l.counters.backpressure_active && leb bp_high q)) [
        | inl rise ↦ (turn_on l q, turn_on-Settled (second _ _ rise), inl (rw rise))
        | inr stay ↦ elim (Bool-cases (l.counters.backpressure_active && leb q bp_low)) [
          | inl fall ↦ (
            turn_off flush_pending_into_tx l q bp_high,
            turn_off-Settled,
            inr (rw (stay, fall, report_backpressure)),
          )
          | inr keep ↦ (l, unchanged-Settled stay keep, inl (rw (stay, keep, report_backpressure)))
        ]
      ]
    where
      second : (a b : Bool) → (not a && b) ≡ true → b ≡ true
      second true b h = cc
      second false b h = h
