-- ===== src/Transport/Reservation/Limit.antt =====
-- The hard limit, over any interleaving of the operations that share the counters.
use wirestead.Prelude.{
  ℕ, ◌+◌, ◌≤◌, ◌<◌, ◌≡◌, refl, sym, ap, subst, ◌∙◌, Bool, true, false, ◌&&◌, List, [], ◌∷◌, ◌++◌,
  some, ltb, leb, if◌then◌else◌, add_size-small, size_mod, All, arith, inl, inr,
}
use wirestead.Transport.Reservation.{
  Counters, Interference, Counter, queue, pending, fetch_add, flush_pending, released,
  try_reserve_write_locked, try_reserve_limit_bytes, release_reserved_limit_bytes,
  commit_reserved_limit_bytes,
}
use wirestead.Transport.Reservation.Loops.{
  total, Releases, OnlyReleases, try_reserve_write_locked-Reserved,
}

-- The bytes that a plain write asks for are reserved exactly if there are some and the limit holds
-- with them, and then nothing but `inflight_bytes` changes.
pub try_reserve_limit_bytes-fits :
    (c : Counters) (added bp_limit : ℕ)
    → bp_limit < size_mod
    → try_reserve_limit_bytes c added bp_limit ≡ (
        if ltb 0 added && leb (total c + added) bp_limit
        then (record c { inflight_bytes = c.inflight_bytes + added }, true)
        else (c, false))
unfolding try_reserve_limit_bytes
try_reserve_limit_bytes-fits c added bp_limit bounded = ground arith

chosen :
    (cond : Bool) (a c r : Counters)
    → ◌≡◌ {A = Counters × Bool} (if cond then (a, true) else (c, false)) (r, true)
    → (cond ≡ true) × (a ≡ r)
chosen true a c r e = (refl, ap (λ (p : Counters × Bool). p.0) e)
chosen false a c r e = cc

reserved :
    (c r : Counters) (added bp_limit : ℕ)
    → bp_limit < size_mod
    → try_reserve_limit_bytes c added bp_limit ≡ (r, true)
    → (record c { inflight_bytes = c.inflight_bytes + added } ≡ r) × (total c + added ≤ bp_limit)
reserved c r added bp_limit bounded e =
    let (fits, same) =
      chosen (ltb 0 added && leb (total c + added) bp_limit) _ c r
        (sym (try_reserve_limit_bytes-fits c added bp_limit bounded) ∙ e) in
    (same, ground arith)

-- The reservations that plain writes hold are a ghost of the model.
pub record System : Type 0 where
  pub counters : Counters
  pub held : List ℕ

abbrev pub sum : List ℕ → ℕ
sum [] = 0
sum (n ∷ l) = n + sum l

sum-append : (l m : List ℕ) → sum (l ++ m) ≡ sum l + sum m
sum-append [] m = omega arith
sum-append (n ∷ l) m = omega (arith, sum-append l m)

-- One operation of any thread. A plain write gives back or commits its reservation once.
pub data Step (bp_high bp_limit : ℕ) : System → System → Type 0 where
  try_write :
      (s : System) (rounds : List Interference) (bytes : ℕ) (r : Counters) (ok : Bool)
      → All OnlyReleases rounds
      → try_reserve_write_locked rounds s.counters bytes bp_high bp_limit ≡ some (r, ok)
      → Step bp_high bp_limit s (record s { counters = r })
  reserve :
      (s : System) (added : ℕ) (r : Counters)
      → try_reserve_limit_bytes s.counters added bp_limit ≡ (r, true)
      → Step bp_high bp_limit s (record { counters = r; held = added ∷ s.held })
  give_back :
      (s : System) (front back : List ℕ) (n : ℕ)
      → s.held ≡ front ++ n ∷ back
      → Step bp_high bp_limit s
          (record { counters = release_reserved_limit_bytes s.counters n; held = front ++ back })
  commit :
      (s : System) (counter : Counter) (front back : List ℕ) (n : ℕ)
      → s.held ≡ front ++ n ∷ back
      → Step bp_high bp_limit s (record {
        counters = commit_reserved_limit_bytes counter s.counters n;
        held = front ++ back;
      })
  flush : (s : System) → Step bp_high bp_limit s (record s { counters = flush_pending s.counters })
  -- A write completes, or the queues are dropped.
  release :
      (s : System) (r : Counters)
      → Releases s.counters r
      → Step bp_high bp_limit s (record s { counters = r })
  set_backpressure :
      (s : System) (active : Bool)
      → Step bp_high bp_limit s
          (record s { counters = record s.counters { backpressure_active = active } })

pub data Reach (bp_high bp_limit : ℕ) (s : System) : System → Type 0 where
  here : Reach bp_high bp_limit s s
  next :
      {t u : System}
      → Reach bp_high bp_limit s t
      → Step bp_high bp_limit t u
      → Reach bp_high bp_limit s u

pub record IsValid (bp_limit : ℕ) (s : System) : Type 0 where
  pub counted : s.counters.inflight_bytes ≡ sum s.held
  pub within : total s.counters ≤ bp_limit

pub sum-held :
    (s : System) (front back : List ℕ) (n : ℕ)
    → s.held ≡ front ++ n ∷ back
    → sum s.held ≡ n + sum (front ++ back)
sum-held s front back n e =
    omega (arith, ap sum e, sum-append front (n ∷ back), sum-append front back)

released-le : (current bytes : ℕ) → bytes ≤ current → released current bytes + bytes ≡ current
unfolding released
released-le current bytes h = ground arith

-- A commit moves a reservation to the other counter: the sum is the same, with no gap.
pub commit_reserved_limit_bytes-total :
    (counter : Counter) (c : Counters) (n : ℕ)
    → n ≤ c.inflight_bytes
    → total c < size_mod
    → (total (commit_reserved_limit_bytes counter c n) ≡ total c)
      × ((commit_reserved_limit_bytes counter c n).inflight_bytes + n ≡ c.inflight_bytes)
unfolding commit_reserved_limit_bytes release_reserved_limit_bytes fetch_add
commit_reserved_limit_bytes-total queue c n h small =
    let left = released-le c.inflight_bytes n h in
    let sum = add_size-small c.queue_bytes n (omega arith) in (omega (arith, left, sum), left)
commit_reserved_limit_bytes-total pending c n h small =
    let left = released-le c.inflight_bytes n h in
    let sum = add_size-small c.pending_bytes n (omega arith) in (omega (arith, left, sum), left)

Step-IsValid :
    (bp_high bp_limit : ℕ) {s t : System}
    → bp_limit < size_mod
    → Step bp_high bp_limit s t
    → IsValid bp_limit s
    → IsValid bp_limit t
Step-IsValid bp_high bp_limit bounded (try_write s rounds bytes r ok quiet e) v =
    elim (try_reserve_write_locked-Reserved rounds s.counters bytes bp_high bp_limit quiet bounded r
      ok e) [
        | inl (refused, left) ↦ record {
          counted = left.inflight ∙ v.counted;
          within = omega (arith, left.queue, left.pending, left.inflight, v.within);
        }
        | inr (admitted, g, within) ↦ record {
          counted = ap (λ (c : Counters). c.inflight_bytes) g.counted ∙ g.left.inflight ∙ v.counted;
          within = within;
        }
      ]
Step-IsValid bp_high bp_limit bounded (reserve s added r e) v =
    let (same, fits) = reserved s.counters r added bp_limit bounded e in
    subst (λ (c : Counters). IsValid bp_limit (record { counters = c; held = added ∷ s.held })) same
      (record { counted = omega (arith, v.counted); within = omega arith })
Step-IsValid bp_high bp_limit bounded (give_back s front back n e) v =
    let held = sum-held s front back n e in
    let left = released-le s.counters.inflight_bytes n (omega (arith, v.counted)) in
    unfold release_reserved_limit_bytes in
    record { counted = omega (arith, v.counted); within = omega (arith, v.within) }
Step-IsValid bp_high bp_limit bounded (commit s counter front back n e) v =
    let held = sum-held s front back n e in
    let (same, left) =
      commit_reserved_limit_bytes-total counter s.counters n (omega (arith, v.counted))
        (omega (arith, v.within)) in
    record { counted = omega (arith, v.counted); within = omega (arith, v.within) }
Step-IsValid bp_high bp_limit bounded (flush s) v =
    let sum =
      add_size-small s.counters.queue_bytes s.counters.pending_bytes (omega (arith, v.within)) in
    unfold flush_pending in record { counted = v.counted; within = omega (arith, v.within) }
Step-IsValid bp_high bp_limit bounded (release s r left) v = record {
  counted = left.inflight ∙ v.counted;
  within = omega (arith, left.queue, left.pending, left.inflight, v.within);
}
Step-IsValid bp_high bp_limit bounded (set_backpressure s active) v = record {
  counted = v.counted;
  within = v.within;
}

-- Over any interleaving of try-writes, reservations, commits, flushes and completed writes, from a
-- valid state: the queued, pending and reserved bytes never exceed the hard limit, and
-- `inflight_bytes` is the sum of the reservations that are held.
pub Reach-IsValid :
    (bp_high bp_limit : ℕ) {s t : System}
    → bp_limit < size_mod
    → IsValid bp_limit s
    → Reach bp_high bp_limit s t
    → IsValid bp_limit t
Reach-IsValid bp_high bp_limit bounded v here = v
Reach-IsValid bp_high bp_limit bounded v (next r step) =
    Step-IsValid bp_high bp_limit bounded step (Reach-IsValid bp_high bp_limit bounded v r)
