-- ===== src/Framer/Packet/Calls.antt =====
-- push_bytes on any bytes, with any patterns and any callback, also one that resets the framer:
-- it returns, hands over packets only, and keeps the buffer bounded.
use wirestead.Prelude.{
  ℕ, zero, suc, ◌+◌, ◌-◌, ◌*◌, ◌≤◌, ◌<◌, ◌≡◌, refl, sym, ap, subst, ◌∙◌, Bool, true, false, [], ◌∷◌,
  ◌++◌, Option, some, Bytes, length, take, drop, arith, ltb, leb, ltb→lt, ltb→le, Bool-cases,
  Option-cases, ◌⊎◌, inl, inr, length-drop, length-append, drop-drop, max, if◌then◌else◌,
}
use wirestead.Framer.Delivery.{Extends, AtMost, Extends-map}
use wirestead.Framer.Search.{
  search, starts_with, starts_with-take, starts_with-le, search-starts_with,
  starts_with-append_true,
}
use wirestead.Framer.Packet.{
  State, sync, collect, Config, PacketFramer, is_empty, keep_length, skip_unmatched, fast_packet,
  fast_loop, enter_collect, cap_collected, keep_unprocessed, push_fast, push_slow, push_bytes,
}
use wirestead.Framer.Packet.Rounds.{
  IsPacket, start_only, enclosed, cut-IsPacket, is_empty-nil, is_empty-cons, Follows, Follows-refl,
  Follows-trans, rebuffered, Untouched, kept, cleared, deliver-Follows,
}
use wirestead.Framer.Packet.Bounds.{cap, IsSynced, HasPattern, Good, slow_loop-Good}

-- A framer with nothing in its buffer, as the fast path finds and keeps it.
record Idle (f g : PacketFramer) : Type 0 where
  follows : Follows f g
  empty : g.buffer ≡ []
  synced : IsSynced g.state g.config [] g.scanned_idx

Untouched-Idle : {f g h : PacketFramer} → Idle f g → Follows g h × Untouched g h → Idle f h
Untouched-Idle {f} {g} {h} i (follows, kept b t z) = record {
  follows = Follows-trans i.follows follows;
  empty = b ∙ i.empty;
  synced =
      subst (λ (c : Config). IsSynced h.state c [] h.scanned_idx) (sym follows.same_config)
        (subst (λ (n : ℕ). IsSynced h.state g.config [] n) (sym z)
          (subst (λ (s : State). IsSynced s g.config [] g.scanned_idx) (sym t) i.synced));
}
Untouched-Idle {f} {g} {h} i (follows, cleared b t z) = record {
  follows = Follows-trans i.follows follows;
  empty = b;
  synced =
      subst (λ (s : State). IsSynced s h.config [] h.scanned_idx) (sym t) (λ _. omega (arith, z));
}

-- What is not processed begins with the start pattern, or is shorter than it.
abbrev Tail : Config → Bytes → ℕ → Type 0
Tail c bytes n =
    (starts_with c.start_pattern (drop n bytes) ≡ true)
    ⊎ (length bytes ≤ n + (length c.start_pattern - 1))

abbrev PacketSafe : PacketFramer → Bytes → ℕ → PacketFramer × ℕ × Bool → Type 0
PacketSafe f bytes start_idx r =
    Idle f r.0
    × ((r.2 ≡ true) → start_idx < r.1)
    × ((r.2 ≡ false) → starts_with f.start_pattern (drop r.1 bytes) ≡ true)

fast_packet-PacketSafe :
    (f : PacketFramer) (bytes : Bytes) (start_idx : ℕ)
    → HasPattern f.config
    → Idle f f
    → starts_with f.start_pattern (drop start_idx bytes) ≡ true
    → PacketSafe f bytes start_idx (fast_packet f bytes start_idx)
unfolding fast_packet
fast_packet-PacketSafe f bytes start_idx usable idle front =
    let s : ℕ = length f.start_pattern in
    elim (Bool-cases (is_empty f.end_pattern)) [
      | inl empty ↦
          let nil = is_empty-nil f.end_pattern empty in
          rw (empty, fast_packet)
            (
              Untouched-Idle idle (
                  deliver-Follows f (take s (drop start_idx bytes)) (
                    start_only nil
                      (starts_with-take f.start_pattern (drop start_idx bytes) front))),
              λ _. omega (arith, ap (λ c. length c) nil),
              λ h. cc,
            )
      | inr full ↦ elim (Option-cases (search f.end_pattern (drop (start_idx + s) bytes))) [
        | inl nowhere ↦ rw (full, nowhere, fast_packet) (idle, λ h. cc, λ _. front)
        | inr (j, found) ↦
            let n : ℕ = s + j + length f.end_pattern in
            let at : start_idx + s + j + length f.end_pattern - start_idx ≡ n = omega arith in
            let found' = ap (search f.end_pattern) (drop-drop start_idx s bytes) ∙ found in
            rw (full, found, at, fast_packet)
              (
                elim (Bool-cases (leb n f.max_length)) [
                  | inl fits ↦ rw fits (
                      Untouched-Idle idle (
                        deliver-Follows f (take n (drop start_idx bytes)) (
                          cut-IsPacket f.config (drop start_idx bytes) s j n front (omega arith)
                            found' refl (ground arith))))
                  | inr long ↦ rw long idle
                ],
                λ _. omega (arith, is_empty-cons _ full),
                λ h. cc,
              )
      ]
    ]

skip_unmatched-Tail : (c : Config) (bytes : Bytes) (n : ℕ) → Tail c bytes (skip_unmatched c bytes n)
unfolding skip_unmatched keep_length
skip_unmatched-Tail c bytes n = inr (ground arith)

abbrev FastSafe : PacketFramer → Bytes → Option (PacketFramer × ℕ) → Type 0
FastSafe f bytes r =
    (g : PacketFramer) × (n : ℕ) × (r ≡ some (g, n)) × Idle f g × Tail f.config bytes n

FastSafe-trans :
    {f g : PacketFramer} (bytes : Bytes) {r : Option (PacketFramer × ℕ)}
    → Follows f g
    → FastSafe g bytes r
    → FastSafe f bytes r
FastSafe-trans bytes a (h, n, e, i, t) = (
  h,
  n,
  e,
  record { follows = Follows-trans a i.follows; empty = i.empty; synced = i.synced },
  subst (λ (c : Config). Tail c bytes n) a.same_config t,
)

self : {f g : PacketFramer} → Idle f g → Idle g g
self {g = g} i = record { follows = Follows-refl g; empty = i.empty; synced = i.synced }

fast_loop-FastSafe :
    (fuel : ℕ) (f : PacketFramer) (bytes : Bytes) (processed : ℕ)
    → HasPattern f.config
    → Idle f f
    → length bytes < processed + fuel
    → 0 < fuel
    → FastSafe f bytes (fast_loop fuel f bytes processed)
unfolding fast_loop
fast_loop-FastSafe zero f bytes processed usable idle enough pos = absurd (omega arith)
fast_loop-FastSafe (suc fuel) f bytes processed usable idle enough pos =
    elim (Bool-cases (leb (length bytes) processed)) [
      | inl over ↦ (f, processed, rw (over, fast_loop), idle, inr (all_done over))
      | inr more ↦ elim (Option-cases (search f.start_pattern (drop processed bytes))) [
        | inl nowhere ↦ (
          f,
          skip_unmatched f.config bytes processed,
          rw (more, nowhere, fast_loop),
          idle,
          skip_unmatched-Tail f.config bytes processed,
        )
        | inr (i, found) ↦
            let r = fast_packet f bytes (processed + i) in
            let front =
              ap (starts_with f.start_pattern) (sym (drop-drop processed i bytes))
              ∙ search-starts_with f.start_pattern (drop processed bytes) found in
            let (idle', moves, stops) =
              fast_packet-PacketSafe f bytes (processed + i) usable idle front in
            elim (Bool-cases r.2) [
              | inl on ↦ subst (FastSafe f bytes) (sym (step i more found ∙ rw on)) (
                  FastSafe-trans bytes idle'.follows (
                    fast_loop-FastSafe fuel r.0 bytes r.1
                      (subst HasPattern (sym idle'.follows.same_config) usable) (self idle')
                      (omega (arith, moves on)) (some_left more)))
              | inr off ↦ (r.0, r.1, step i more found ∙ rw off, idle', inl (stops off))
            ]
      ]
    ]
  where
    all_done :
        leb (length bytes) processed ≡ true
        → length bytes ≤ processed + (length f.start_pattern - 1)
    all_done h = ground arith

    some_left : leb (length bytes) processed ≡ false → 0 < fuel
    some_left h = ground arith

    step :
        (i : ℕ)
        → leb (length bytes) processed ≡ false
        → search f.start_pattern (drop processed bytes) ≡ some i
        → let r = fast_packet f bytes (processed + i) in
          fast_loop (suc fuel) f bytes processed
          ≡ (elim r.2 [ true ↦ fast_loop fuel r.0 bytes r.1 | false ↦ some (r.0, r.1) ])
    step i more found = rw (more, found, fast_loop)

abbrev Kept : PacketFramer → PacketFramer → Type 0
Kept f g = Good f g × (length g.buffer ≤ cap f.config)

cap_collected-Kept : (f g : PacketFramer) → Good f g → g.state ≡ collect → Kept f (cap_collected g)
unfolding cap_collected
cap_collected-Kept f g good s = elim (Bool-cases (ltb g.max_length (length g.buffer))) [
  | inl long ↦ subst (Kept f) (sym (cleared_is long)) (
    record {
      follows = Follows-trans good.follows (rebuffered g [] sync 0);
      synced = λ _. omega arith;
    },
    omega arith,
  )
  | inr short ↦ subst (Kept f) (sym (kept_is short)) (
    good,
    subst (λ (c : Config). length g.buffer ≤ cap c) good.follows.same_config
        (omega (arith, ltb→le _ _ short)),
  )
]
  where
    cleared_is :
        ltb g.max_length (length g.buffer) ≡ true
        → cap_collected g ≡ record g { buffer = []; state = sync; scanned_idx = 0 }
    cleared_is h = ground arith

    kept_is : ltb g.max_length (length g.buffer) ≡ false → cap_collected g ≡ g
    kept_is h = ground arith

is_empty-pos : (b : Bytes) → 0 < length b → is_empty b ≡ false
is_empty-pos [] h = absurd (omega arith)
is_empty-pos (x ∷ b) h = refl

-- A begun packet goes to the collecting state; what is shorter than a start pattern stays.
enter_collect-Kept :
    (f g : PacketFramer)
    → Good f g
    → ((starts_with g.start_pattern g.buffer ≡ true)
        ⊎ (length g.buffer ≤ length g.start_pattern - 1))
    → 0 < length g.buffer
    → Kept f (cap_collected (enter_collect g))
enter_collect-Kept f g good tail pos = go g.state refl
  where
    same : g.config ≡ f.config
    same = good.follows.same_config

    collected :
        g.state ≡ sync
        → starts_with g.start_pattern g.buffer ≡ true
        → enter_collect g ≡ record g { state = collect; scanned_idx = length g.start_pattern }
    collected s h =
        let le = starts_with-le g.start_pattern g.buffer h in
        let full = is_empty-pos g.buffer pos in unfold enter_collect in ground arith

    at_collect : g.state ≡ collect → enter_collect g ≡ g
    at_collect s = unfold enter_collect in ground arith

    missed :
        g.state ≡ sync
        → starts_with g.start_pattern g.buffer ≡ false
        → cap_collected (enter_collect g) ≡ g
    missed s h = unfold enter_collect cap_collected in ground (arith, is_empty-pos g.buffer pos)

    go : (t : State) → g.state ≡ t → Kept f (cap_collected (enter_collect g))
    go collect s =
        subst (λ h. Kept f (cap_collected h)) (sym (at_collect s)) (cap_collected-Kept f g good s)
    go sync s = elim (Bool-cases (starts_with g.start_pattern g.buffer)) [
      | inl front ↦
          subst (λ h. Kept f (cap_collected h)) (sym (collected s front))
            (cap_collected-Kept f _
              (record {
                follows =
                    Follows-trans good.follows
                      (rebuffered g g.buffer collect (length g.start_pattern));
                synced = (front, starts_with-le g.start_pattern g.buffer front);
              })
              refl)
      | inr other ↦
          subst (Kept f) (sym (missed s other))
            (good, subst (λ (c : Config). length g.buffer ≤ cap c) same (short other))
    ]
      where
        true_or_false : true ≡ false → ⊥
        true_or_false e = cc

        short : starts_with g.start_pattern g.buffer ≡ false → length g.buffer ≤ cap g.config
        short other = elim tail [
          | inl front ↦ absurd (true_or_false (sym front ∙ other))
          | inr le ↦ omega arith
        ]

keep_unprocessed-Kept :
    (f g : PacketFramer) (bytes : Bytes) (n : ℕ)
    → Idle f g
    → Tail g.config bytes n
    → Kept f (keep_unprocessed bytes (g, n))
unfolding keep_unprocessed
keep_unprocessed-Kept f g bytes n idle tail = elim (Bool-cases (ltb n (length bytes))) [
  | inl more ↦
      let rest = drop n bytes in
      let h = record g { buffer = rest } in
      let size = length-drop n bytes in
      subst (Kept f) (sym (continues more)) (
        enter_collect-Kept f h
          (record {
            follows = Follows-trans idle.follows (rebuffered g rest g.state g.scanned_idx);
            synced = grown g.state rest idle.synced;
          })
          (elim tail [ inl front ↦ inl front | inr short ↦ inr (omega (arith, size)) ])
          (omega (arith, size, ltb→lt _ _ more)))
  | inr all ↦ subst (Kept f) (sym (stays all)) (
    record { follows = idle.follows; synced = at_rest },
    omega (arith, ap (λ b. length b) idle.empty),
  )
]
  where
    continues :
        ltb n (length bytes) ≡ true
        → keep_unprocessed bytes (g, n)
          ≡ cap_collected (enter_collect (record g { buffer = drop n bytes }))
    continues h =
        let e : g.buffer ++ drop n bytes ≡ drop n bytes = ap (λ b. b ++ drop n bytes) idle.empty in
        rw (h, e, keep_unprocessed)

    stays : ltb n (length bytes) ≡ false → keep_unprocessed bytes (g, n) ≡ g
    stays h = rw (h, keep_unprocessed)

    at_rest : IsSynced g.state g.config g.buffer g.scanned_idx
    at_rest =
        subst (λ (b : Bytes). IsSynced g.state g.config b g.scanned_idx) (sym idle.empty)
          idle.synced

    grown :
        (t : State) (rest : Bytes)
        → IsSynced t g.config [] g.scanned_idx
        → IsSynced t g.config rest g.scanned_idx
    grown collect rest (h, le) = (starts_with-append_true g.start_pattern [] rest h, omega arith)
    grown sync rest h = λ e. omega (arith, h e)

-- The longest packet: `max_length`, but for a start pattern that stands alone.
abbrev pub longest : Config → ℕ
longest c = max c.max_length (if is_empty c.end_pattern then length c.start_pattern else 0)

Follows-longest :
    {f g : PacketFramer} → Follows f g → Extends (AtMost (longest f.config)) f.delivered g.delivered
Follows-longest {f} a = Extends-map short a.extends
  where
    alone :
        (m : Bytes) (b : Bool)
        → b ≡ true
        → length m ≡ length f.start_pattern
        → length m ≤ max f.max_length (if b then length f.start_pattern else 0)
    alone m true e same = omega (arith, same)
    alone m false e same = absurd cc

    short : (m : Bytes) → IsPacket f.config m → length m ≤ longest f.config
    short m (start_only nil same) =
        alone m (is_empty f.end_pattern) (ap is_empty nil) (ap (λ b. length b) same)
    short m (enclosed body same le) = omega (arith, le)

-- For patterns that are not both empty, and a framer as `make`, `reset` and `push_bytes` leave it:
-- for any input and any callback, also one that resets the framer, `push_bytes` returns, the
-- configuration is kept, all that is newly delivered are packets between the two patterns (or start
-- patterns, where there is no end pattern) and within `max_length`, or, where there is no end
-- pattern, within the longer of `max_length` and the start pattern; the framer is left in such a
-- state again, and the buffer, unless the input is empty, is no longer than `max_length` or a
-- start pattern less one byte.
pub push_bytes-Kept :
    (f : PacketFramer) (bytes : Bytes)
    → HasPattern f.config
    → IsSynced f.state f.config f.buffer f.scanned_idx
    → (g : PacketFramer) × (push_bytes f bytes ≡ some g)
      × Follows f g
      × Extends (AtMost (longest f.config)) f.delivered g.delivered
      × IsSynced g.state g.config g.buffer g.scanned_idx
      × ((bytes ≡ []) ⊎ (length g.buffer ≤ cap f.config))
unfolding push_bytes push_fast push_slow
push_bytes-Kept f bytes usable synced = elim (Bool-cases (is_empty bytes)) [
  | inl empty ↦ (
    f,
    rw (empty, push_bytes),
    Follows-refl f,
    Follows-longest (Follows-refl f),
    synced,
    inl (is_empty-nil bytes empty),
  )
  | inr more ↦ elim (Bool-cases (is_empty f.buffer)) [
    | inl idle ↦
        let nil = is_empty-nil f.buffer idle in
        let (g, n, e, i, tail) =
          fast_loop-FastSafe (suc (length bytes)) f bytes 0 usable (idle_now nil) (omega arith)
            (omega arith) in
        let (good, short) =
          keep_unprocessed-Kept f g bytes n i
            (subst (λ (c : Config). Tail c bytes n) (sym i.follows.same_config) tail) in
        (
          keep_unprocessed bytes (g, n),
          rw (more, idle, push_bytes) (rw (e, push_fast)),
          good.follows,
          Follows-longest good.follows,
          good.synced,
          inr short,
        )
    | inr busy ↦
        let whole = f.buffer ++ bytes in
        let h = record f { buffer = whole } in
        let (g, e, good, short) =
          slow_loop-Good (2 * length whole + 2) h usable (grown f.state synced) (ground arith) in
        (
          g,
          rw (more, busy, push_bytes) e,
          Follows-trans (rebuffered f whole f.state f.scanned_idx) good.follows,
          Follows-longest (Follows-trans (rebuffered f whole f.state f.scanned_idx) good.follows),
          good.synced,
          inr short,
        )
  ]
]
  where
    idle_now : f.buffer ≡ [] → Idle f f
    idle_now nil = record {
      follows = Follows-refl f;
      empty = nil;
      synced = subst (λ (b : Bytes). IsSynced f.state f.config b f.scanned_idx) nil synced;
    }

    grown :
        (t : State)
        → IsSynced t f.config f.buffer f.scanned_idx
        → IsSynced t f.config (f.buffer ++ bytes) f.scanned_idx
    grown collect (h, le) = (
      starts_with-append_true f.start_pattern f.buffer bytes h,
      omega (arith, length-append f.buffer bytes),
    )
    grown sync h = λ e. omega (arith, h e, length-append f.buffer bytes)
