-- ===== src/Transport/Session/Exact.antt =====
-- Where the queued bytes of a session are: in its queue, in the write under way, and in what is
-- posted (wirestead/transport/tcp_server/tcp_server_session.cc).
use wirestead.Prelude.{
  ℕ, ◌+◌, ◌≡◌, ◌<◌, ◌≤◌, refl, sym, ap, ◌∙◌, Bool, true, false, not, ◌&&◌, ◌||◌, List, [], ◌∷◌,
  ◌++◌, none, some, leb, if◌then◌else◌, arith, add_size, add_size-small, size_mod, Option,
}
use wirestead.Transport.Gather.{
  bytes_of, take_gather_batch, take_gather_batch-return, return_gather_batch-append,
  bytes_of-append,
}
use wirestead.Transport.Backpressure.{
  Link, flush_pending_into_tx, turn_on, turn_off, add_moved, rearm, set_active, notify,
}
use wirestead.Transport.Backpressure
use wirestead.Transport.Reservation.Loops.{total}
use wirestead.Transport.Session.{Session, Limits, Task, TrackedBuffer, observe_queue, unready}
use wirestead.Transport.Session.Strand.{
  do_write, is_empty, kick_write, report_backpressure, write_if_idle,
}
use wirestead.Transport.Session.Progress.{choose}
use wirestead.Transport.Session.Bounds.Totals.{report-IsWithin}

abbrev pub bytes : List TrackedBuffer → ℕ
bytes l = bytes_of (λ b. b.size) l

-- The bytes, and the count, of the write that the socket has.
abbrev pub flight : Option ℕ → ℕ
flight none = 0
flight (some n) = n

abbrev pub in_air : Option ℕ → ℕ
in_air none = 0
in_air (some n) = 1

-- What is posted: the bytes that count as queued, and the completions.
abbrev pub owed : List Task → ℕ
owed [] = 0
owed (Task.enqueue buf ∷ posted) = owed posted
owed (Task.enqueue_reserved buf ∷ posted) = buf.size + owed posted
owed (Task.completed b ec n ∷ posted) = b + owed posted
owed (Task.stop ∷ posted) = owed posted

abbrev pub completions : List Task → ℕ
completions [] = 0
completions (Task.enqueue buf ∷ posted) = completions posted
completions (Task.enqueue_reserved buf ∷ posted) = completions posted
completions (Task.completed b ec n ∷ posted) = 1 + completions posted
completions (Task.stop ∷ posted) = completions posted

pub posted-append :
    (l m : List Task)
    → (owed (l ++ m) ≡ owed l + owed m) × (completions (l ++ m) ≡ completions l + completions m)
posted-append [] m = (omega arith, omega arith)
posted-append (Task.enqueue buf ∷ l) m = posted-append l m
posted-append (Task.enqueue_reserved buf ∷ l) m =
    let (a, b) = posted-append l m in (omega (arith, a), b)
posted-append (Task.completed b ec n ∷ l) m =
    let (a, c) = posted-append l m in (omega (arith, a), omega (arith, c))
posted-append (Task.stop ∷ l) m = posted-append l m

-- The counters of a session with such tasks posted; so many writes are under way.
pub record Exact (s : Session) (posted : List Task) (writes : ℕ) : Type 0 where
  pub queued : s.link.counters.queue_bytes ≡ bytes s.link.tx + flight s.in_flight + owed posted
  pub kept : s.link.counters.pending_bytes ≡ bytes s.link.waiting
  pub once : in_air s.in_flight + completions posted ≡ writes
  pub fresh : s.alive ≡ false → (posted ≡ []) × (s.in_flight ≡ none)

abbrev pub one_if : Bool → ℕ
one_if b = if b then 1 else 0

-- That of a session, unless it is closing.
abbrev pub IsExact : Session → Type 0
IsExact s = s.closing ≡ false → Exact s s.posted (one_if s.writing)

pub grounded : (o : Option ℕ) → in_air o ≡ 0 → flight o ≡ 0
grounded none h = refl
grounded (some n) h = absurd (omega (arith, h))

-- A gather takes the bytes that it counts.
gathered :
    (tx : List TrackedBuffer)
    → bytes tx < size_mod
    → let g = take_gather_batch (λ b. b.size) tx in bytes tx ≡ bytes g.tx + g.total
gathered tx small =
    let g = take_gather_batch (λ (b : TrackedBuffer). b.size) tx in
    let (back, sum, few, some_taken) = take_gather_batch-return (λ b. b.size) tx small in
    let parts =
      ap bytes (sym back ∙ return_gather_batch-append (λ b. b.size) g.batch g.tx)
      ∙ bytes_of-append (λ b. b.size) g.batch g.tx in
    omega (arith, parts, sum)

pub do_write-IsExact :
    (s : Session) → s.link.counters.queue_bytes < size_mod → IsExact s → IsExact (do_write s)
unfolding do_write
do_write-IsExact s small h =
    choose IsExact (s.closing || (not s.alive || (is_empty s.link.tx || s.writing))) s _ (λ held. h)
      (λ free going.
        let e = h going in
        let idle : s.writing ≡ false = ground (arith, free) in
        let nothing : one_if s.writing ≡ 0 = ap one_if idle in
        let off = grounded s.in_flight (omega (arith, e.once, nothing)) in
        let g = gathered s.link.tx (omega (arith, small, e.queued)) in
        record {
          queued = omega (arith, e.queued, off, g);
          kept = e.kept;
          once = omega (arith, e.once, nothing);
          fresh = λ dead. absurd (ground (arith, free, dead));
        })

pub write_if_idle-IsExact :
    (s : Session) → s.link.counters.queue_bytes < size_mod → IsExact s → IsExact (write_if_idle s)
unfolding write_if_idle
write_if_idle-IsExact s small h =
    choose IsExact s.writing s (do_write s) (λ writing. h) (λ idle. do_write-IsExact s small h)

-- A report moves what is pending with its bytes.
report-moves :
    (l : Link TrackedBuffer) (queued bp_high bp_low : ℕ)
    → total l.counters < size_mod
    → l.counters.pending_bytes ≡ bytes l.waiting
    → let m =
        Backpressure.report_backpressure flush_pending_into_tx (λ l. l) l queued bp_high bp_low in
      (m.counters.queue_bytes + bytes l.tx ≡ l.counters.queue_bytes + bytes m.tx)
      × (m.counters.pending_bytes ≡ bytes m.waiting)
unfolding Backpressure.report_backpressure turn_on turn_off add_moved flush_pending_into_tx rearm
    set_active notify
report-moves l queued bp_high bp_low small kept =
    let P : Link TrackedBuffer → Type 0 = λ m.
      (m.counters.queue_bytes + bytes l.tx ≡ l.counters.queue_bytes + bytes m.tx)
      × (m.counters.pending_bytes ≡ bytes m.waiting) in
    let q = l.counters.queue_bytes in
    let sum = add_size-small q l.counters.pending_bytes (omega (arith, small)) in
    let joined = bytes_of-append (λ (b : TrackedBuffer). b.size) l.tx l.waiting in
    let moved : add_size q l.counters.pending_bytes + bytes l.tx ≡ q + bytes (l.tx ++ l.waiting) =
      omega (arith, sum, joined, kept) in
    choose P (not l.counters.backpressure_active && leb bp_high queued) _ _ (λ rise. (refl, kept))
      (λ stay.
        choose P (l.counters.backpressure_active && leb queued bp_low) _ _
          (λ fall.
            let flat = notify (set_active (add_moved (flush_pending_into_tx l)) false) queued in
            choose P (leb bp_high flat.counters.queue_bytes)
              (turn_on flat flat.counters.queue_bytes) flat (λ again. (moved, refl))
              (λ settled. (moved, refl)))
          (λ keep. (refl, kept)))

-- The same of a session whose link a report has changed.
told-Exact :
    (f : Limits) (s : Session) (queued writes : ℕ)
    → total s.link.counters < size_mod
    → Exact s s.posted writes
    → let link =
        Backpressure.report_backpressure flush_pending_into_tx
          (λ l. l)
          (observe_queue s).link
          queued
          f.bp_high
          f.bp_low in
      Exact (record (observe_queue s) { link = link }) s.posted writes
unfolding observe_queue
told-Exact f s queued writes small e =
    let (moved, kept) =
      report-moves (observe_queue s).link queued f.bp_high f.bp_low small e.kept in
    record { queued = omega (arith, moved, e.queued); kept = kept; once = e.once; fresh = e.fresh }

kick_write-IsExact :
    (s : Session) → s.link.counters.queue_bytes < size_mod → IsExact s → IsExact (kick_write s)
unfolding kick_write observe_queue write_if_idle
kick_write-IsExact s small h = write_if_idle-IsExact (observe_queue s) small (λ going.
    let e = h going in record { queued = e.queued; kept = e.kept; once = e.once; fresh = e.fresh })

kick_write-Exact :
    (s : Session) (writes : ℕ)
    → s.writing ≡ true
    → Exact s s.posted writes
    → let m = kick_write s in Exact m m.posted writes
unfolding kick_write observe_queue
kick_write-Exact s writes busy e =
    choose (λ (m : Session). Exact m m.posted writes) s.writing (observe_queue s)
      (do_write (observe_queue s))
      (λ writing. record { queued = e.queued; kept = e.kept; once = e.once; fresh = e.fresh })
      (λ idle. absurd (ground (arith, idle, busy)))

-- A report while a write is under way, and any other.
pub report_backpressure-Exact :
    (f : Limits) (s : Session) (queued writes : ℕ)
    → s.writing ≡ true
    → total s.link.counters < size_mod
    → Exact s s.posted writes
    → let m = report_backpressure f s queued in Exact m m.posted writes
unfolding report_backpressure observe_queue
report_backpressure-Exact f s queued writes busy small e =
    let P : Session → Type 0 = λ m. Exact m m.posted writes in
    let told = told-Exact f s queued writes small e in
    choose P (unready s) s _ (λ out. e)
      (λ ready.
        choose P (s.link.counters.backpressure_active && leb queued f.bp_low) _ _
          (λ falls. kick_write-Exact _ writes busy told) (λ stays. told))

pub report_backpressure-IsExact :
    (f : Limits) (s : Session) (queued : ℕ)
    → f.bp_limit < size_mod
    → total s.link.counters ≤ f.bp_limit
    → IsExact s
    → IsExact (report_backpressure f s queued)
unfolding report_backpressure observe_queue
report_backpressure-IsExact f s queued bounded within h =
    let told = told-Exact f s queued _ (omega (arith, bounded, within)) in
    choose IsExact (unready s) s _ (λ out. h)
      (λ ready.
        choose IsExact (s.link.counters.backpressure_active && leb queued f.bp_low) _ _
          (λ falls.
            kick_write-IsExact _
              (omega
                (arith, bounded, report-IsWithin f bounded (observe_queue s).link queued within))
              (λ going. told (h going)))
          (λ stays going. told (h going)))
