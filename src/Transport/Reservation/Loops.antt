-- ===== src/Transport/Reservation/Loops.antt =====
-- The compare-and-swap loops, with other threads running: what a loop gives, whatever happened
-- between its loads, and what it gives alone.
use wirestead.Prelude.{
  ℕ, ◌+◌, ◌-◌, ◌≤◌, ◌<◌, ◌≡◌, refl, sym, ap, subst, ◌∙◌, Bool, true, false, not, ◌&&◌, ◌||◌, List,
  [], ◌∷◌, Option, none, some, ltb, leb, ◌==◌, if◌then◌else◌, add_size-small, size_mod, All, arith,
  Bool-cases, ltb→lt, lt→ltb, le→ltb, ltb→le, ◌⊎◌, inl, inr,
}
use wirestead.Transport.Reservation.{
  Counters, Interference, fits, reserve_rounds, try_reserve_write_bytes, try_reserve_write_locked,
}

-- The bytes that the hard limit counts.
abbrev pub total : Counters → ℕ
total c = c.queue_bytes + c.pending_bytes + c.inflight_bytes

-- What other threads do while the reservation mutex is held: writes complete, queues are dropped.
-- Reservations are made and ended under the mutex only.
pub record Releases (c d : Counters) : Type 0 where
  pub queue : d.queue_bytes ≤ c.queue_bytes
  pub pending : d.pending_bytes ≤ c.pending_bytes
  pub inflight : d.inflight_bytes ≡ c.inflight_bytes

Releases-refl : (c : Counters) → Releases c c
Releases-refl c = record { queue = omega arith; pending = omega arith; inflight = refl }

Releases-trans : {a b c : Counters} → Releases a b → Releases b c → Releases a c
Releases-trans r s = record {
  queue = omega (arith, r.queue, s.queue);
  pending = omega (arith, r.pending, s.pending);
  inflight = s.inflight ∙ r.inflight;
}

abbrev pub OnlyReleases : Interference → Type 0
OnlyReleases i =
    ((c : Counters) → Releases c (i.before c)) × ((c : Counters) → Releases c (i.during c))

-- What an admission means: the bytes are added to what the other threads left, within both limits.
pub record Reserved (c : Counters) (bytes bp_high bp_limit : ℕ) (r : Counters) : Type 0 where
  pub at : Counters
  pub left : Releases c at
  pub counted : r ≡ record at { queue_bytes = at.queue_bytes + bytes }
  pub within_high : r.queue_bytes ≤ bp_high
  pub within_limit : r.queue_bytes + r.pending_bytes ≤ bp_limit

-- A loop that is not over, an admission, a refusal.
abbrev Gives : Counters → ℕ → ℕ → ℕ → Option (Counters × Bool) → Type 0
Gives c bytes bp_high bp_limit none = Unit
Gives c bytes bp_high bp_limit (some (r, true)) = Reserved c bytes bp_high bp_limit r
Gives c bytes bp_high bp_limit (some (r, false)) = Releases c r

Gives-trans :
    {c d : Counters} (bytes bp_high bp_limit : ℕ) (o : Option (Counters × Bool))
    → Releases c d
    → Gives d bytes bp_high bp_limit o
    → Gives c bytes bp_high bp_limit o
Gives-trans bytes bp_high bp_limit none a g = tt
Gives-trans bytes bp_high bp_limit (some (r, true)) a g = record {
  at = g.at;
  left = Releases-trans a g.left;
  counted = g.counted;
  within_high = g.within_high;
  within_limit = g.within_limit;
}
Gives-trans bytes bp_high bp_limit (some (r, false)) a g = Releases-trans a g

fits-le :
    (current pending bytes bp_high bp_limit : ℕ)
    → fits current pending bytes bp_high bp_limit ≡ true
    → (current + bytes ≤ bp_high) × (current + pending + bytes ≤ bp_limit)
unfolding fits
fits-le current pending bytes bp_high bp_limit h = (ground arith, ground arith)

le-fits :
    (current pending bytes bp_high bp_limit : ℕ)
    → current + bytes ≤ bp_high
    → current + pending + bytes ≤ bp_limit
    → fits current pending bytes bp_high bp_limit ≡ true
unfolding fits
le-fits current pending bytes bp_high bp_limit h l = ground arith

eq_of_test : (a b : ℕ) → (a == b) ≡ true → a ≡ b
eq_of_test a b h = ground arith

reserve_rounds-Gives :
    (rounds : List Interference) (c : Counters) (current bytes bp_high bp_limit : ℕ)
    → All OnlyReleases rounds
    → bp_limit < size_mod
    → Gives c bytes bp_high bp_limit (reserve_rounds rounds c current bytes bp_high bp_limit)
unfolding reserve_rounds
reserve_rounds-Gives [] c current bytes bp_high bp_limit quiet bounded = tt
reserve_rounds-Gives (i ∷ rounds) c current bytes bp_high bp_limit (q, quiet) bounded =
    let loaded = i.before c in
    let d = i.during loaded in
    let late = q.1 loaded in
    let all = Releases-trans (q.0 c) late in
    elim (Bool-cases (fits current loaded.pending_bytes bytes bp_high bp_limit)) [
      | inr full ↦ rw (full, reserve_rounds) (q.0 c)
      | inl room ↦ elim (Bool-cases (not i.spurious && d.queue_bytes == current)) [
        | inr lost ↦
            rw (room, lost, reserve_rounds)
              (Gives-trans bytes bp_high bp_limit _ all
                (reserve_rounds-Gives rounds d d.queue_bytes bytes bp_high bp_limit quiet bounded))
        | inl won ↦
            let (high, limit) = fits-le current loaded.pending_bytes bytes bp_high bp_limit room in
            let same : d.queue_bytes ≡ current = eq_of_test _ _ (second _ _ won) in
            let sum = add_size-small current bytes (omega arith) in
            rw (room, won, sum, reserve_rounds)
              (record {
                at = d;
                left = all;
                counted = ap (λ (n : ℕ). record d { queue_bytes = n + bytes }) (sym same);
                within_high = high;
                within_limit = omega (arith, late.pending);
              })
      ]
    ]
  where
    second : (a b : Bool) → (not a && b) ≡ true → b ≡ true
    second true b h = cc
    second false b h = h

locked-Gives :
    (rounds : List Interference) (c : Counters) (bytes bp_high bp_limit : ℕ)
    → All OnlyReleases rounds
    → bp_limit < size_mod
    → Gives c bytes bp_high
        (bp_limit - c.inflight_bytes)
        (try_reserve_write_locked rounds c bytes bp_high bp_limit)
unfolding try_reserve_write_locked try_reserve_write_bytes
locked-Gives rounds c bytes bp_high bp_limit quiet bounded =
    let left : ℕ = bp_limit - c.inflight_bytes in
    elim (Bool-cases (ltb bp_limit c.inflight_bytes)) [
      | inl over ↦ rw over (Releases-refl c)
      | inr under ↦ elim (Bool-cases (bytes == 0 || (ltb left bytes || c.backpressure_active))) [
        | inl refused ↦ rw (under, refused) (Releases-refl c)
        | inr tried ↦
            rw (under, tried)
              (reserve_rounds-Gives rounds c c.queue_bytes bytes bp_high left quiet (omega arith))
      ]
    ]

locked-refused :
    (rounds : List Interference) (c : Counters) (bytes bp_high bp_limit : ℕ)
    → bp_limit < c.inflight_bytes
    → try_reserve_write_locked rounds c bytes bp_high bp_limit ≡ some (c, false)
unfolding try_reserve_write_locked
locked-refused rounds c bytes bp_high bp_limit h = rw (lt→ltb _ _ h)

-- Whatever the rounds: while other threads only release bytes, an admission under the lock adds
-- exactly the bytes to what they left, `queue_bytes` is within `bp_high`, and all that the hard
-- limit counts is within `bp_limit`; a refusal adds nothing.
pub try_reserve_write_locked-Reserved :
    (rounds : List Interference) (c : Counters) (bytes bp_high bp_limit : ℕ)
    → All OnlyReleases rounds
    → bp_limit < size_mod
    → (r : Counters) (ok : Bool)
    → try_reserve_write_locked rounds c bytes bp_high bp_limit ≡ some (r, ok)
    → ((ok ≡ false) × Releases c r)
      ⊎ ((ok ≡ true)
          × Reserved c bytes bp_high (bp_limit - c.inflight_bytes) r
          × (total r ≤ bp_limit))
try_reserve_write_locked-Reserved rounds c bytes bp_high bp_limit quiet bounded r ok e =
    go ok
      (subst (Gives c bytes bp_high (bp_limit - c.inflight_bytes)) e
        (locked-Gives rounds c bytes bp_high bp_limit quiet bounded))
      e
  where
    true-ne-false : {o : Option (Counters × Bool)} → o ≡ some (c, false) → o ≡ some (r, true) → ⊥
    true-ne-false a b = cc

    go :
        (ok : Bool)
        → Gives c bytes bp_high (bp_limit - c.inflight_bytes) (some (r, ok))
        → try_reserve_write_locked rounds c bytes bp_high bp_limit ≡ some (r, ok)
        → ((ok ≡ false) × Releases c r)
          ⊎ ((ok ≡ true)
              × Reserved c bytes bp_high (bp_limit - c.inflight_bytes) r
              × (total r ≤ bp_limit))
    go false g e = inl (refl, g)
    go true g e = elim (Bool-cases (ltb bp_limit c.inflight_bytes)) [
      | inl over ↦
          absurd
            (true-ne-false (locked-refused rounds c bytes bp_high bp_limit (ltb→lt _ _ over)) e)
      | inr under ↦
          let inflight : r.inflight_bytes ≡ g.at.inflight_bytes =
            ap (λ (x : Counters). x.inflight_bytes) g.counted in
          inr (refl, g, omega (arith, g.left.inflight, g.within_limit, inflight, ltb→le _ _ under))
    ]

-- What an admission asks for, in sums.
abbrev pub admits : Counters → ℕ → ℕ → ℕ → Bool
admits c bytes bp_high bp_limit =
    ltb 0 bytes
    && (not c.backpressure_active
        && (leb (c.queue_bytes + bytes) bp_high && leb (total c + bytes) bp_limit))

-- No other thread meddles, and the swap does not fail.
abbrev pub alone : Interference
alone = record { before = λ c. c; during = λ c. c; spurious = false }

fits-refused :
    (current pending bytes bp_high bp_limit : ℕ)
    → (leb (current + bytes) bp_high && leb (current + pending + bytes) bp_limit) ≡ false
    → fits current pending bytes bp_high bp_limit ≡ false
fits-refused current pending bytes bp_high bp_limit h =
    elim (Bool-cases (fits current pending bytes bp_high bp_limit)) [
      | inr n ↦ n
      | inl y ↦ let (high, limit) = fits-le current pending bytes bp_high bp_limit y in ground arith
    ]

same-test : (a : ℕ) → (a == a) ≡ true
same-test a = ground arith

reserve_rounds-alone :
    (rounds : List Interference) (c : Counters) (bytes bp_high bp_limit : ℕ)
    → c.queue_bytes + bytes < size_mod
    → fits c.queue_bytes c.pending_bytes bytes bp_high bp_limit ≡ true
    → reserve_rounds (alone ∷ rounds) c c.queue_bytes bytes bp_high bp_limit
      ≡ some (record c { queue_bytes = c.queue_bytes + bytes }, true)
unfolding reserve_rounds
reserve_rounds-alone rounds c bytes bp_high bp_limit small h =
    rw (h, same-test c.queue_bytes, add_size-small c.queue_bytes bytes small, reserve_rounds)

reserve_rounds-full :
    (rounds : List Interference) (c : Counters) (bytes bp_high bp_limit : ℕ)
    → fits c.queue_bytes c.pending_bytes bytes bp_high bp_limit ≡ false
    → reserve_rounds (alone ∷ rounds) c c.queue_bytes bytes bp_high bp_limit ≡ some (c, false)
unfolding reserve_rounds
reserve_rounds-full rounds c bytes bp_high bp_limit h = rw (h, reserve_rounds)

-- A round alone decides: the bytes are admitted exactly if there are some, backpressure is off, and
-- both limits hold with them, and then nothing but `queue_bytes` changes.
pub try_reserve_write_locked-admits :
    (rounds : List Interference) (c : Counters) (bytes bp_high bp_limit : ℕ)
    → bp_limit < size_mod
    → try_reserve_write_locked (alone ∷ rounds) c bytes bp_high bp_limit
      ≡ some (
          if admits c bytes bp_high bp_limit
          then (record c { queue_bytes = c.queue_bytes + bytes }, true)
          else (c, false))
unfolding try_reserve_write_locked try_reserve_write_bytes
try_reserve_write_locked-admits rounds c bytes bp_high bp_limit bounded =
    elim (Bool-cases (admits c bytes bp_high bp_limit)) [
      | inl y ↦ rw (y, admitted y)
      | inr n ↦ rw (n, refused n)
    ]
  where
    left : ℕ
    left = bp_limit - c.inflight_bytes

    over_limit :
        admits c bytes bp_high bp_limit ≡ false
        → ltb bp_limit c.inflight_bytes ≡ false
        → (bytes == 0 || (ltb left bytes || c.backpressure_active)) ≡ false
        → (leb (c.queue_bytes + bytes) bp_high
            && leb (c.queue_bytes + c.pending_bytes + bytes) left)
          ≡ false
    over_limit h under tried = ground arith

    admitted :
        admits c bytes bp_high bp_limit ≡ true
        → try_reserve_write_locked (alone ∷ rounds) c bytes bp_high bp_limit
          ≡ some (record c { queue_bytes = c.queue_bytes + bytes }, true)
    admitted h =
        let pos : 0 < bytes = ground arith in
        let off : c.backpressure_active ≡ false = ground arith in
        let high : c.queue_bytes + bytes ≤ bp_high = ground arith in
        let limit : total c + bytes ≤ bp_limit = ground arith in
        let guard : (bytes == 0 || (ltb left bytes || c.backpressure_active)) ≡ false =
          ground arith in
        rw
          (
            le→ltb bp_limit c.inflight_bytes (omega arith),
            guard,
            try_reserve_write_locked,
            try_reserve_write_bytes,
          )
          (reserve_rounds-alone rounds c bytes bp_high left (omega arith)
            (le-fits c.queue_bytes c.pending_bytes bytes bp_high left high (omega arith)))

    refused :
        admits c bytes bp_high bp_limit ≡ false
        → try_reserve_write_locked (alone ∷ rounds) c bytes bp_high bp_limit ≡ some (c, false)
    refused h = elim (Bool-cases (ltb bp_limit c.inflight_bytes)) [
      | inl over ↦ rw (over, try_reserve_write_locked)
      | inr under ↦ elim (Bool-cases (bytes == 0 || (ltb left bytes || c.backpressure_active))) [
        | inl stopped ↦ rw (under, stopped, try_reserve_write_locked, try_reserve_write_bytes)
        | inr tried ↦
            rw (under, tried, try_reserve_write_locked, try_reserve_write_bytes)
              (reserve_rounds-full rounds c bytes bp_high left (
                fits-refused c.queue_bytes c.pending_bytes bytes bp_high left
                  (over_limit h under tried)))
      ]
    ]
