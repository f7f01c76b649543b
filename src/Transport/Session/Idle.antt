-- ===== src/Transport/Session/Idle.antt =====
-- What an idle session holds (wirestead/transport/tcp_server/tcp_server_session.cc): the counters
-- over its handlers.
use wirestead.Prelude.{
  ℕ, ◌+◌, ◌≡◌, ◌<◌, ◌≤◌, ◌≢◌, refl, Bool, true, false, not, ◌||◌, List, [], ◌∷◌, none, some, ltb,
  ◌==◌, arith, add_size, add_size-small, ◌-◌, size_mod, Option,
}
use wirestead.Transport.Gather.{bytes_of-append}
use wirestead.Transport.Backpressure.{EnqueueDecision, decide_enqueue}
use wirestead.Diagnostics.Stats.{record_sent}
use wirestead.Transport.Reservation.{
  Counters, Counter, released, fits, reserve_rounds, try_reserve_write_bytes,
  try_reserve_write_locked, try_reserve_limit_bytes, release_reserved_limit_bytes,
  commit_reserved_limit_bytes, fetch_add,
}
use wirestead.Transport.Reservation.Loops.{total, alone}
use wirestead.Transport.Session.{
  Session, Limits, Task, TrackedBuffer, with_stats, failed_send, observe_queue, end_wait, unready,
  try_reserve,
}
use wirestead.Transport.Session.Strand.{
  do_close, do_write, report_backpressure, reject_buffer, keep_pending, queue_buffer,
  route_enqueued_buffer, on_enqueue, on_enqueue_reserved, lose_connection, on_written, on_completed,
  on_stop, run, release_queued,
}
use wirestead.Transport.Session.Progress.{choose}
use wirestead.Transport.Session.Bounds.{report_backpressure-IsWithin, release_queued-IsWithin}
use wirestead.Transport.Session.Bounds.Totals.{commit-IsWithin, decide_enqueue-within}
use wirestead.Transport.Session.Steady.{held, decide_enqueue-rejected}
use wirestead.Transport.Session.Exact.{
  bytes, flight, in_air, owed, completions, Exact, IsExact, one_if, do_write-IsExact,
  write_if_idle-IsExact, report_backpressure-Exact, report_backpressure-IsExact,
}

module _ (f : Limits) (bounded : f.bp_limit < size_mod) where
  pub do_close-IsExact : (s : Session) → IsExact s → IsExact (do_close s)
  unfolding do_close
  do_close-IsExact s h = choose IsExact s.cleanup_done s _ (λ done. h) (λ first going. absurd cc)

  routed-IsExact :
      (s : Session) (buf : TrackedBuffer) (d : EnqueueDecision)
      → s.alive ≡ true
      → Exact s (Task.enqueue buf ∷ s.posted) (one_if s.writing)
      → total s.link.counters ≤ f.bp_limit
      → (d ≢ EnqueueDecision.rejected
          → s.link.counters.queue_bytes + s.link.counters.pending_bytes + buf.size ≤ f.bp_limit)
      → d ≢ EnqueueDecision.rejected
      → IsExact (elim d [
        | EnqueueDecision.rejected ↦ reject_buffer f s buf buf.size
        | EnqueueDecision.pending ↦ keep_pending s buf buf.size
        | EnqueueDecision.immediate ↦ queue_buffer f s buf buf.size
      ])
  unfolding keep_pending queue_buffer observe_queue release_reserved_limit_bytes
      commit_reserved_limit_bytes fetch_add
  routed-IsExact s buf EnqueueDecision.rejected alive e within fit never = absurd (never refl)
  routed-IsExact s buf EnqueueDecision.pending alive e within fit never =
      let room = fit never in
      let sum =
        add_size-small s.link.counters.pending_bytes buf.size (omega (arith, room, bounded)) in
      let joined = bytes_of-append (λ (b : TrackedBuffer). b.size) s.link.waiting (buf ∷ []) in
      λ going. record {
        queued = e.queued;
        kept = omega (arith, sum, joined, e.kept);
        once = e.once;
        fresh = λ dead. absurd (ground (arith, alive, dead));
      }
  routed-IsExact s buf EnqueueDecision.immediate alive e within fit never =
      let room = fit never in
      let sum =
        add_size-small s.link.counters.queue_bytes buf.size (omega (arith, room, bounded)) in
      let joined = bytes_of-append (λ (b : TrackedBuffer). b.size) s.link.tx (buf ∷ []) in
      let kept = commit-IsWithin f bounded Counter.queue s.link.counters buf.size within room in
      write_if_idle-IsExact _
        (omega (arith, bounded, report_backpressure-IsWithin f bounded _ _ kept))
        (report_backpressure-IsExact f _ _ bounded kept (λ going. record {
          queued = omega (arith, sum, joined, e.queued);
          kept = e.kept;
          once = e.once;
          fresh = λ dead. absurd (ground (arith, alive, dead));
        }))

  on_written-IsExact :
      (s : Session) (bytes_to_write n : ℕ) (ec : Bool)
      → s.alive ≡ true
      → Exact s (Task.completed bytes_to_write ec n ∷ s.posted) (one_if s.writing)
      → total s.link.counters ≤ f.bp_limit
      → IsExact (on_written f s bytes_to_write n)
  unfolding on_written
  on_written-IsExact s bytes_to_write n ec alive e within =
      let freed = release_queued s bytes_to_write in
      let sent = with_stats freed (record_sent freed.link.stats n) in
      let q = sent.link.counters.queue_bytes in
      let told = report_backpressure f sent q in
      let idle = record told { writing = false } in
      let less = release_queued-IsWithin f bounded s bytes_to_write within in
      let sent_exact : Exact sent sent.posted 0 = record {
        queued = freed_bytes e.queued (landed s.in_flight s.writing (omega (arith, e.once)));
        kept = e.kept;
        once = last s.writing (in_air s.in_flight) (completions s.posted) (omega (arith, e.once));
        fresh = λ dead. absurd (ground (arith, alive, dead));
      } in
      let t =
        report_backpressure-Exact f sent q 0 (busy s.writing (omega (arith, e.once)))
          (omega (arith, less, bounded)) sent_exact in
      let now : IsExact idle =
        λ going. record { queued = t.queued; kept = t.kept; once = t.once; fresh = t.fresh } in
      choose IsExact (unready idle) idle (do_write idle) (λ out. now)
        (λ still.
          do_write-IsExact idle
            (omega (arith, bounded, report_backpressure-IsWithin f bounded sent q less)) now)
    where
      busy : (b : Bool) → 1 ≤ one_if b → b ≡ true
      busy true h = refl
      busy false h = absurd (omega (arith, h))

      landed : (o : Option ℕ) (b : Bool) → in_air o + 1 ≤ one_if b → flight o ≡ 0
      landed none b h = refl
      landed (some m) true h = absurd (omega (arith, h))
      landed (some m) false h = absurd (omega (arith, h))

      last : (b : Bool) (i c : ℕ) → i + (1 + c) ≡ one_if b → i + c ≡ 0
      last true i c h = omega (arith, h)
      last false i c h = absurd (omega (arith, h))

      freed_bytes :
          s.link.counters.queue_bytes
            ≡ bytes s.link.tx + flight s.in_flight + (bytes_to_write + owed s.posted)
          → flight s.in_flight ≡ 0
          → released s.link.counters.queue_bytes bytes_to_write
            ≡ bytes s.link.tx + flight s.in_flight + owed s.posted
      freed_bytes h z = unfold released in ground (arith, h, z)

  pub run-IsExact :
      (s : Session) (t : Task)
      → (s.closing ≡ false → Exact s (t ∷ s.posted) (one_if s.writing))
      → held (t ∷ s.posted) ≡ s.link.counters.inflight_bytes
      → f.bp_low < f.bp_high
      → total s.link.counters ≤ f.bp_limit
      → IsExact (run f s t)
  unfolding run on_enqueue on_enqueue_reserved on_completed on_stop lose_connection end_wait
      failed_send observe_queue release_reserved_limit_bytes route_enqueued_buffer
  run-IsExact s t h same apart within = go t h same
    where
      cons_nil : {t : Task} {l : List Task} → (t ∷ l) ≡ [] → ⊥
      cons_nil e = cc

      -- Nothing is posted before the session is started.
      unstarted :
          {t : Task} {n : ℕ} → unready s ≡ true → s.closing ≡ false → Exact s (t ∷ s.posted) n → ⊥
      unstarted out going e = cons_nil (e.fresh (ground (arith, out, going))).0

      go :
          (t : Task)
          → (s.closing ≡ false → Exact s (t ∷ s.posted) (one_if s.writing))
          → held (t ∷ s.posted) ≡ s.link.counters.inflight_bytes
          → IsExact (run f s t)
      go (Task.enqueue buf) h same =
          choose IsExact (unready s) _ _ (λ out going. absurd (unstarted out going (h going)))
            (λ ready.
              let d = decide_enqueue s.link.counters buf.size f.bp_limit in
              routed-IsExact s buf d (ground (arith, ready)) (h (ground (arith, ready))) within
                (decide_enqueue-within f bounded s.link.counters buf.size)
                (decide_enqueue-rejected f apart s.link.counters buf.size (omega (arith, same))
                  within))
      go (Task.enqueue_reserved buf) h same =
          choose IsExact (unready s) _ _ (λ out going. absurd (unstarted out going (h going)))
            (λ ready.
              let e = h (ground (arith, ready)) in
              let joined = bytes_of-append (λ (b : TrackedBuffer). b.size) s.link.tx (buf ∷ []) in
              write_if_idle-IsExact _
                (omega (arith, bounded, report_backpressure-IsWithin f bounded _ _ within))
                (report_backpressure-IsExact f _ _ bounded within (λ going. record {
                  queued = omega (arith, joined, e.queued);
                  kept = e.kept;
                  once = e.once;
                  fresh = λ dead. absurd (ground (arith, ready, dead));
                })))
      go (Task.completed bytes_to_write ec n) h same =
          choose IsExact (unready s) _ _ (λ out going. absurd (unstarted out going (h going)))
            (λ ready.
              choose IsExact (ec || not (n == bytes_to_write)) _ _
                (λ failed. do_close-IsExact _ (λ going. absurd cc))
                (λ whole.
                  let e = h (ground (arith, ready)) in
                  on_written-IsExact _ bytes_to_write n ec (ground (arith, ready))
                    (record { queued = e.queued; kept = e.kept; once = e.once; fresh = e.fresh })
                    within))
      go Task.stop h same = do_close-IsExact _ (λ going.
          let e = h going in
          record {
            queued = e.queued;
            kept = e.kept;
            once = e.once;
            fresh = λ dead. absurd (cons_nil (e.fresh dead).0);
          })

  -- A plain reservation leaves the other counters, and a try-write adds to the queued bytes.
  pub reserve_others :
      (c : Counters) (added : ℕ)
      → let r = (try_reserve_limit_bytes c added f.bp_limit).0 in
        (r.queue_bytes ≡ c.queue_bytes) × (r.pending_bytes ≡ c.pending_bytes)
  unfolding try_reserve_limit_bytes
  reserve_others c added =
      let P : Counters × Bool → Type 0 =
        λ r. (r.0.queue_bytes ≡ c.queue_bytes) × (r.0.pending_bytes ≡ c.pending_bytes) in
      choose P (added == 0 || ltb f.bp_limit added) _ _ (λ no. (refl, refl))
        (λ yes.
          choose P
            (ltb f.bp_limit c.queue_bytes
              || (ltb (f.bp_limit - c.queue_bytes) c.pending_bytes
                  || (ltb (f.bp_limit - c.queue_bytes - c.pending_bytes) c.inflight_bytes
                      || ltb (f.bp_limit - c.queue_bytes - c.pending_bytes - c.inflight_bytes)
                          added)))
            _ _ (λ full. (refl, refl)) (λ free. (refl, refl)))

  pub try_reserve_others :
      (c : Counters) (added : ℕ)
      → (try_reserve f c added).1 ≡ true
      → let r = (try_reserve f c added).0 in
        (r.queue_bytes ≡ c.queue_bytes + added) × (r.pending_bytes ≡ c.pending_bytes)
  unfolding reserve_rounds try_reserve_write_locked try_reserve_write_bytes
  try_reserve_others c added =
      go (try_reserve_write_locked (alone ∷ []) c added f.bp_high f.bp_limit) locked
    where
      Adds : Option (Counters × Bool) → Type 0
      Adds none = false ≡ false
      Adds (some r) =
          r.1 ≡ true
          → (r.0.queue_bytes ≡ c.queue_bytes + added) × (r.0.pending_bytes ≡ c.pending_bytes)

      small :
          (limit : ℕ)
          → limit ≤ f.bp_limit
          → fits c.queue_bytes c.pending_bytes added f.bp_high limit ≡ true
          → add_size c.queue_bytes added ≡ c.queue_bytes + added
      small limit le ok =
          unfold fits in add_size-small c.queue_bytes added (ground (arith, le, ok, bounded))

      round :
          (limit : ℕ)
          → limit ≤ f.bp_limit
          → Adds (reserve_rounds (alone ∷ []) c c.queue_bytes added f.bp_high limit)
      round limit le =
          choose Adds (fits c.queue_bytes c.pending_bytes added f.bp_high limit) _ _
            (λ ok.
              elim (c.queue_bytes == c.queue_bytes)
                as (λ b. Adds (elim b [
                  | true ↦ some (record c { queue_bytes = add_size c.queue_bytes added }, true)
                  | false ↦ none
                ])) [ true ↦ (λ e. (small limit le ok, refl)) | false ↦ refl ])
            (λ no e. absurd cc)

      locked : Adds (try_reserve_write_locked (alone ∷ []) c added f.bp_high f.bp_limit)
      locked =
          choose Adds (ltb f.bp_limit c.inflight_bytes) _ _ (λ over e. absurd cc)
            (λ under.
              choose Adds
                (added == 0 || (ltb (f.bp_limit - c.inflight_bytes) added || c.backpressure_active))
                _ _ (λ no e. absurd cc)
                (λ yes. round (f.bp_limit - c.inflight_bytes) (omega arith)))

      go :
          (o : Option (Counters × Bool))
          → Adds o
          → let r = elim o as (λ _. Counters × Bool) [ none ↦ (c, false) | some r ↦ r ] in
            r.1 ≡ true
            → (r.0.queue_bytes ≡ c.queue_bytes + added) × (r.0.pending_bytes ≡ c.pending_bytes)
      go none h e = absurd cc
      go (some r) h e = h e
