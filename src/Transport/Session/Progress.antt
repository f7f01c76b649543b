-- ===== src/Transport/Session/Progress.antt =====
-- A session does not stall: as long as it is not closing, what is queued is being written.
use wirestead.Prelude.{
  ℕ, ◌≡◌, refl, sym, ◌∙◌, Bool, true, false, not, ◌&&◌, ◌||◌, List, [], ◌∷◌, leb, if◌then◌else◌,
  arith,
}
use wirestead.Transport.Backpressure.{
  Link, EnqueueDecision, decide_enqueue, flush_pending_into_tx, turn_on, turn_off, set_active,
  notify, drain_and_clear_backpressure,
}
use wirestead.Transport.Backpressure
use wirestead.Transport.Session.{Session, Limits, TrackedBuffer, observe_queue, unready}
use wirestead.Transport.Session.Strand.{
  do_write, is_empty, kick_write, report_backpressure, write_if_idle,
}

-- Nothing waits in `tx_` while no write is under way.
abbrev pub IsLive : Session → Type 0
IsLive s = s.closing ≡ false → s.writing ≡ false → s.link.tx ≡ []

is_empty_lem : (tx : List TrackedBuffer) → is_empty tx ≡ true → tx ≡ []
unfolding is_empty
is_empty_lem [] h = refl
is_empty_lem (b ∷ tx) h = cc

-- A property of what a test chooses.
pub choose :
    {A : Type 0} (P : A → Type 0) (c : Bool) (a b : A)
    → (c ≡ true → P a)
    → (c ≡ false → P b)
    → P (if c then a else b)
choose P true a b on off = on refl
choose P false a b on off = off refl

busy : {A : Type 0} → true ≡ false → A
busy e = absurd (cc)

pub do_write-IsLive : (s : Session) → s.alive ≡ true → IsLive (do_write s)
unfolding do_write
do_write-IsLive s alive =
    choose IsLive (s.closing || (not s.alive || (is_empty s.link.tx || s.writing))) s _
      (λ held going idle. is_empty_lem s.link.tx (ground arith)) (λ free going idle. busy idle)

-- Behind it nothing waits, whether a write is under way or is started.
pub write_if_idle-IsLive : (s : Session) → s.alive ≡ true → IsLive (write_if_idle s)
unfolding write_if_idle
write_if_idle-IsLive s alive =
    choose IsLive s.writing s (do_write s) (λ writing going idle. busy (sym writing ∙ idle))
      (λ idle. do_write-IsLive s alive)

kick_write-IsLive : (s : Session) → s.alive ≡ true → IsLive (kick_write s)
unfolding kick_write observe_queue write_if_idle
kick_write-IsLive s alive = write_if_idle-IsLive (observe_queue s) alive

do_write-flags : (s : Session) → ((do_write s).alive ≡ s.alive) × ((do_write s).closing ≡ s.closing)
unfolding do_write
do_write-flags s =
    choose (λ m. (m.alive ≡ s.alive) × (m.closing ≡ s.closing))
      (s.closing || (not s.alive || (is_empty s.link.tx || s.writing))) s _ (λ held. (refl, refl))
      (λ free. (refl, refl))

-- The report changes neither flag.
pub report_backpressure-flags :
    (f : Limits) (s : Session) (queued : ℕ)
    → ((report_backpressure f s queued).alive ≡ s.alive)
      × ((report_backpressure f s queued).closing ≡ s.closing)
unfolding report_backpressure kick_write observe_queue
report_backpressure-flags f s queued =
    let P : Session → Type 0 = λ m. (m.alive ≡ s.alive) × (m.closing ≡ s.closing) in
    choose P (unready s) s _ (λ out. (refl, refl))
      (λ ready.
        choose P (s.link.counters.backpressure_active && leb queued f.bp_low) _ _
          (λ falls. choose P s.writing _ _ (λ writing. (refl, refl)) (λ idle. do_write-flags _))
          (λ stays. (refl, refl)))

-- Without a flush the report leaves the queue as it is.
report-tx :
    (l : Link TrackedBuffer) (queued bp_high bp_low : ℕ)
    → (l.counters.backpressure_active && leb queued bp_low) ≡ false
    → (Backpressure.report_backpressure flush_pending_into_tx (λ l. l) l queued bp_high bp_low).tx
      ≡ l.tx
unfolding Backpressure.report_backpressure turn_on set_active notify
report-tx l queued bp_high bp_low stays = ground (arith, stays)

pub report_backpressure-IsLive :
    (f : Limits) (s : Session) (queued : ℕ) → IsLive s → IsLive (report_backpressure f s queued)
unfolding report_backpressure observe_queue
report_backpressure-IsLive f s queued live =
    choose IsLive (unready s) s _ (λ out. live)
      (λ ready.
        choose IsLive (s.link.counters.backpressure_active && leb queued f.bp_low) _ _
          (λ falls. kick_write-IsLive _ (ground arith))
          (λ stays going idle. report-tx _ queued f.bp_high f.bp_low stays ∙ live going idle))
