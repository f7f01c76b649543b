-- ===== src/Transport/Session/Bounds/Totals.antt =====
-- What each operation on the counters of a session leaves within the hard limit.
use wirestead.Prelude.{
  ℕ, ◌+◌, ◌-◌, ◌<◌, size_mod, refl, Bool, not, ◌&&◌, ◌||◌, [], ◌∷◌, ltb, leb, arith, Bool-cases,
  inl, inr, add_size,
}
use wirestead.Transport.Backpressure.{
  Link, EnqueueDecision, decide_enqueue, flush_pending_into_tx, turn_on, turn_off, set_active,
  notify, drain_and_clear_backpressure,
}
use wirestead.Transport.Backpressure
use wirestead.Transport.Reservation.{try_reserve_limit_bytes, released}
use wirestead.Transport.Session.{try_reserve, Limits, TrackedBuffer}
use wirestead.Transport.Session.Progress.{choose}
use wirestead.Prelude.{All, ◌≤◌, ◌≢◌, size_mod, Option-cases, add_size-small}
use wirestead.Transport.Reservation.{
  Counter, commit_reserved_limit_bytes, release_reserved_limit_bytes, fetch_add,
  try_reserve_limit_bytes, try_reserve_write_locked, Counters,
}
use wirestead.Transport.Reservation.Loops.{
  OnlyReleases, total, alone, try_reserve_write_locked-Reserved,
}
use wirestead.Transport.Reservation.Limit.{try_reserve_limit_bytes-fits}
use wirestead.Transport.Backpressure.{add_moved, rearm}

alone-quiet : All OnlyReleases (alone ∷ [])
alone-quiet = (
  (
    λ c. record { queue = omega arith; pending = omega arith; inflight = refl },
    λ c. record { queue = omega arith; pending = omega arith; inflight = refl },
  ),
  tt,
)

module _ (f : Limits) (bounded : f.bp_limit < size_mod) where
  pub released_le : (current bytes : ℕ) → released current bytes ≤ current
  unfolding released
  released_le current bytes = ground arith

  pub reserve-IsWithin :
      (c : Counters) (added : ℕ)
      → total c ≤ f.bp_limit
      → total (try_reserve_limit_bytes c added f.bp_limit).0 ≤ f.bp_limit
  reserve-IsWithin c added h = rw (try_reserve_limit_bytes-fits c added f.bp_limit bounded) (
      choose (λ (r : Counters × Bool). total r.0 ≤ f.bp_limit)
        (ltb 0 added && leb (total c + added) f.bp_limit) _ _ (λ fits. ground (arith, fits))
        (λ full. h))

  pub try_reserve-IsWithin :
      (c : Counters) (added : ℕ)
      → total c ≤ f.bp_limit
      → total (try_reserve f c added).0 ≤ f.bp_limit
  try_reserve-IsWithin c added h =
      elim (Option-cases (try_reserve_write_locked (alone ∷ []) c added f.bp_high f.bp_limit)) [
        | inl over ↦ rw (over, try_reserve) h
        | inr ((r, ok), e) ↦
            rw (e, try_reserve)
              (elim (try_reserve_write_locked-Reserved (alone ∷ []) c added f.bp_high f.bp_limit
                alone-quiet bounded r ok e) [
                  | inl (no_luck, less) ↦ omega (arith, h, less.queue, less.pending, less.inflight)
                  | inr (luck, how, fits) ↦ fits
                ])
      ]

  -- A commit behind the check of decide_enqueue.
  pub commit-IsWithin :
      (counter : Counter) (c : Counters) (added : ℕ)
      → total c ≤ f.bp_limit
      → c.queue_bytes + c.pending_bytes + added ≤ f.bp_limit
      → total (commit_reserved_limit_bytes counter c added) ≤ f.bp_limit
  unfolding commit_reserved_limit_bytes release_reserved_limit_bytes fetch_add released
  commit-IsWithin Counter.queue c added h fits = ground arith
  commit-IsWithin Counter.pending c added h fits = ground arith

  -- A report moves bytes from pending to queued.
  pub report-IsWithin :
      (l : Link TrackedBuffer) (queued : ℕ)
      → total l.counters ≤ f.bp_limit
      → total
          (Backpressure.report_backpressure flush_pending_into_tx
            (λ l. l)
            l
            queued
            f.bp_high
            f.bp_low).counters
        ≤ f.bp_limit
  unfolding Backpressure.report_backpressure turn_on turn_off add_moved flush_pending_into_tx rearm
      set_active notify
  report-IsWithin l queued h =
      let P : Link TrackedBuffer → Type 0 = λ m. total m.counters ≤ f.bp_limit in
      choose P (not l.counters.backpressure_active && leb f.bp_high queued) _ _ (λ rise. h)
        (λ stay.
          choose P (l.counters.backpressure_active && leb queued f.bp_low) _ _
            (λ fall.
              let sum =
                add_size-small l.counters.queue_bytes l.counters.pending_bytes (omega arith) in
              choose P (leb f.bp_high (add_size l.counters.queue_bytes l.counters.pending_bytes)) _
                _ (λ again. omega (arith, sum, h)) (λ settled. omega (arith, sum, h)))
            (λ keep. h))

  pub release-IsWithin :
      (c : Counters) (added : ℕ)
      → total c ≤ f.bp_limit
      → total (release_reserved_limit_bytes c added) ≤ f.bp_limit
  unfolding release_reserved_limit_bytes
  release-IsWithin c added h = omega (arith, h, released_le c.inflight_bytes added)

  pub decide_enqueue-within :
      (c : Counters) (added : ℕ)
      → decide_enqueue c added f.bp_limit ≢ EnqueueDecision.rejected
      → c.queue_bytes + c.pending_bytes + added ≤ f.bp_limit
  unfolding decide_enqueue
  decide_enqueue-within c added kept =
      elim (Bool-cases (
        ltb f.bp_limit c.queue_bytes
        || (ltb (f.bp_limit - c.queue_bytes) c.pending_bytes
            || ltb (f.bp_limit - c.queue_bytes - c.pending_bytes) added))) [
              | inl over ↦ absurd (kept (rw over refl))
              | inr fits ↦ ground (arith, fits)
            ]
