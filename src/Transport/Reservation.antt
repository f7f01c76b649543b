-- ===== src/Transport/Reservation.antt =====
-- wirestead/transport/base/bp_utils.hpp: admission of writes against the byte limits.
-- The atomics that the reservation functions share are a record. What other threads do to them
-- while a compare-and-swap loop runs is an argument: an `Interference` for each round.
pub mod Loops
pub mod Limit
use wirestead.Prelude.{
  ℕ, ◌+◌, ◌-◌, Bool, true, false, not, ◌&&◌, ◌||◌, List, [], ◌∷◌, Option, none, some, ltb, ◌==◌,
  if◌then◌else◌, add_size,
}

pub record Counters : Type 0 where
  pub queue_bytes : ℕ
  pub pending_bytes : ℕ
  pub inflight_bytes : ℕ
  pub backpressure_active : Bool

-- One round of a loop: what happens before its other load, what happens between that load and the
-- compare-and-swap, and whether `compare_exchange_weak` fails spuriously.
pub record Interference : Type 0 where
  pub before : Counters → Counters
  pub during : Counters → Counters
  pub spurious : Bool

-- The conditions of a round.
unfoldable pub fits : ℕ → ℕ → ℕ → ℕ → ℕ → Bool
fits current pending bytes bp_high bp_limit =
    not (ltb bp_high current || ltb (bp_high - current) bytes)
    && not (
        ltb bp_limit current
        || (ltb (bp_limit - current) pending || ltb (bp_limit - current - pending) bytes))

-- `for (;;)`; `none` says that the rounds given are over before the loop is.
unfoldable pub reserve_rounds :
    List Interference → Counters → ℕ → ℕ → ℕ → ℕ → Option (Counters × Bool)
reserve_rounds [] c current bytes bp_high bp_limit = none
reserve_rounds (i ∷ rounds) c current bytes bp_high bp_limit =
    let loaded = i.before c in
    let d = i.during loaded in
    if fits current loaded.pending_bytes bytes bp_high bp_limit
    then elim (not i.spurious && d.queue_bytes == current) [
      | true ↦ some (record d { queue_bytes = add_size current bytes }, true)
      | false ↦ reserve_rounds rounds d d.queue_bytes bytes bp_high bp_limit
    ]
    else some (loaded, false)

-- The lock-free overload.
unfoldable pub try_reserve_write_bytes :
    List Interference → Counters → ℕ → ℕ → ℕ → Option (Counters × Bool)
try_reserve_write_bytes rounds c bytes bp_high bp_limit =
    if bytes == 0 || (ltb bp_limit bytes || c.backpressure_active)
    then some (c, false)
    else reserve_rounds rounds c c.queue_bytes bytes bp_high bp_limit

-- The overload that holds the reservation mutex.
unfoldable pub try_reserve_write_locked :
    List Interference → Counters → ℕ → ℕ → ℕ → Option (Counters × Bool)
try_reserve_write_locked rounds c bytes bp_high bp_limit =
    if ltb bp_limit c.inflight_bytes
    then some (c, false)
    else try_reserve_write_bytes rounds c bytes bp_high (bp_limit - c.inflight_bytes)

-- `current > bytes ? current - bytes : 0`
unfoldable pub released : ℕ → ℕ → ℕ
released current bytes = if ltb bytes current then current - bytes else 0

-- The `for (;;)` of the release.
unfoldable pub release_rounds : List Interference → Counters → ℕ → ℕ → Option Counters
release_rounds [] c current bytes = none
release_rounds (i ∷ rounds) c current bytes =
    let d = i.during (i.before c) in
    elim (not i.spurious && d.queue_bytes == current) [
      | true ↦ some (record d { queue_bytes = released current bytes })
      | false ↦ release_rounds rounds d d.queue_bytes bytes
    ]

unfoldable pub release_reserved_write_bytes : List Interference → Counters → ℕ → Option Counters
release_reserved_write_bytes rounds c bytes = release_rounds rounds c c.queue_bytes bytes

-- The functions below run under the reservation mutex.
unfoldable pub try_reserve_limit_bytes : Counters → ℕ → ℕ → Counters × Bool
try_reserve_limit_bytes c added bp_limit =
    let queue = c.queue_bytes in
    let pending = c.pending_bytes in
    let inflight = c.inflight_bytes in
    if added == 0 || ltb bp_limit added
    then (c, false)
    else if ltb bp_limit queue
        || (ltb (bp_limit - queue) pending
            || (ltb (bp_limit - queue - pending) inflight
                || ltb (bp_limit - queue - pending - inflight) added))
    then (c, false)
    else (record c { inflight_bytes = add_size inflight added }, true)

unfoldable pub release_reserved_limit_bytes : Counters → ℕ → Counters
release_reserved_limit_bytes c bytes = record c { inflight_bytes = released c.inflight_bytes bytes }

-- `counter` of a commit.
pub data Counter : Type 0 where
  queue pending : Counter

unfoldable pub fetch_add : Counter → Counters → ℕ → Counters
fetch_add queue c bytes = record c { queue_bytes = add_size c.queue_bytes bytes }
fetch_add pending c bytes = record c { pending_bytes = add_size c.pending_bytes bytes }

unfoldable pub commit_reserved_limit_bytes : Counter → Counters → ℕ → Counters
commit_reserved_limit_bytes counter c bytes =
    release_reserved_limit_bytes (fetch_add counter c bytes) bytes

unfoldable pub commit_unreserved_limit_bytes : Counter → Counters → ℕ → Counters
commit_unreserved_limit_bytes counter c bytes = fetch_add counter c bytes

-- What report_backpressure does under the mutex, with the flush of a transport: all pending bytes
-- become queued.
unfoldable pub flush_pending : Counters → Counters
flush_pending c = record c {
  queue_bytes = add_size c.queue_bytes c.pending_bytes;
  pending_bytes = 0;
}
