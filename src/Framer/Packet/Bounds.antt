-- ===== src/Framer/Packet/Bounds.antt =====
-- The rounds of the slow path: each takes bytes from the buffer or is the last, hands over packets
-- only, and keeps the buffer bounded.
use wirestead.Prelude.{
  ℕ, zero, suc, ◌+◌, ◌-◌, ◌*◌, ◌≤◌, ◌<◌, ◌≡◌, refl, sym, ap, subst, true, [], some, Bytes, length,
  take, drop, arith, ltb, leb, le→ltb, ltb→le, if◌then◌else◌, Bool-cases, Option-cases, inl, inr,
  length-drop, max,
}
use wirestead.Framer.Search.{
  search, starts_with, starts_with-take, starts_with-le, search-le, search-starts_with,
}
use wirestead.Framer.Packet.{
  State, sync, collect, Config, PacketFramer, is_empty, is_sync, deliver, Round, done, continue,
  keep_tail, sync_round, search_offset, erase_packet, collect_packet, collect_more, collect_round,
  round, slow_loop,
}
use wirestead.Framer.Packet.Rounds.{
  start_only, cut-IsPacket, is_empty-nil, is_empty-cons, Follows, Follows-trans, rebuffered,
  Untouched, kept, cleared, deliver-Follows,
}

-- The most that is kept between two calls.
abbrev pub cap : Config → ℕ
cap c = max c.max_length (length c.start_pattern - 1)

-- While a packet is collected, the buffer begins with the start pattern.
abbrev pub IsSynced : State → Config → Bytes → ℕ → Type 0
IsSynced collect c b i = (starts_with c.start_pattern b ≡ true) × (i ≤ length b)
IsSynced sync c b i = length c.start_pattern ≡ 0 → i ≤ length b

-- What the constructor ensures of the patterns.
abbrev pub HasPattern : Config → Type 0
HasPattern c = 0 < length c.start_pattern + length c.end_pattern

abbrev pub measure : PacketFramer → ℕ
measure f = 2 * length f.buffer + (if is_sync f.state then 1 else 0)

-- A framer that follows `f`, in a good state.
pub record Good (f g : PacketFramer) : Type 0 where
  pub follows : Follows f g
  pub synced : IsSynced g.state g.config g.buffer g.scanned_idx

abbrev RoundSafe : PacketFramer → Round → Type 0
RoundSafe f (done g) = Good f g × (length g.buffer ≤ cap f.config)
RoundSafe f (continue g) = Good f g × (measure g < measure f)

keep_tail-le :
    (c : Config) (b : Bytes)
    → 0 < length c.start_pattern
    → length (keep_tail c b) ≤ length c.start_pattern - 1
unfolding keep_tail
keep_tail-le c b pos = ground (arith, length-drop (length b - (length c.start_pattern - 1)) b)

module _ (f : PacketFramer) (usable : HasPattern f.config)
    (synced : IsSynced f.state f.config f.buffer f.scanned_idx) where
  sync_round-RoundSafe : f.state ≡ sync → RoundSafe f (sync_round f)
  unfolding sync_round
  sync_round-RoundSafe s = elim (Bool-cases (is_empty f.start_pattern)) [
    | inl empty ↦
        let nil = is_empty-nil f.start_pattern empty in
        rw (empty, sync_round)
          (
            record {
              follows = rebuffered f f.buffer collect f.scanned_idx;
              synced = (no_start nil, at_start nil);
            },
            rw s (omega arith),
          )
    | inr full ↦ elim (Option-cases (search f.start_pattern f.buffer)) [
      | inl nowhere ↦
          rw (full, nowhere, sync_round)
            (
              record {
                follows = rebuffered f _ f.state f.scanned_idx;
                synced =
                    subst (λ t. IsSynced t f.config (keep_tail f.config f.buffer) f.scanned_idx)
                      (sym s) (λ h. absurd (omega (arith, is_empty-cons _ full)));
              },
              omega (arith, keep_tail-le f.config f.buffer (is_empty-cons _ full)),
            )
      | inr (i, found) ↦
          let front = search-starts_with f.start_pattern f.buffer found in
          rw (full, found, sync_round)
            (
              record {
                follows = rebuffered f (drop i f.buffer) collect (length f.start_pattern);
                synced = (front, starts_with-le f.start_pattern (drop i f.buffer) front);
              },
              rw s (omega (arith, length-drop i f.buffer)),
            )
    ]
  ]
    where
      no_start : f.start_pattern ≡ [] → starts_with f.start_pattern f.buffer ≡ true
      no_start nil = rw nil (unfold starts_with in refl)

      at_start : f.start_pattern ≡ [] → f.scanned_idx ≤ length f.buffer
      at_start nil =
          subst (λ t. IsSynced t f.config f.buffer f.scanned_idx) s synced (ap (λ b. length b) nil)

  search_offset_bounds :
      f.state ≡ collect
      → (length f.start_pattern ≤ search_offset f.config f.scanned_idx)
        × (search_offset f.config f.scanned_idx ≤ length f.buffer)
  unfolding search_offset
  search_offset_bounds s =
      let (front, le) = subst (λ t. IsSynced t f.config f.buffer f.scanned_idx) s synced in
      let room = starts_with-le f.start_pattern f.buffer front in ground arith

  -- A packet of `n` bytes at the front of the buffer, with what is behind it.
  erase_packet-RoundSafe :
      (g : PacketFramer) (n i : ℕ)
      → f.state ≡ collect
      → 0 < n
      → n ≤ length f.buffer
      → (length f.start_pattern ≡ 0 → i ≡ 0)
      → Follows f g × Untouched f g
      → RoundSafe f (erase_packet g n i)
  unfolding erase_packet
  erase_packet-RoundSafe g n i s pos le from (follows, cleared b t z) =
      let gone : is_empty g.buffer ≡ true = ap is_empty b in
      rw (gone, erase_packet)
        (
          record {
            follows = follows;
            synced =
                subst (λ q. IsSynced q g.config g.buffer g.scanned_idx) (sym t)
                  (λ _. omega (arith, z));
          },
          omega (arith, ap (λ c. length c) b),
        )
  erase_packet-RoundSafe g n i s pos le from (follows, kept b t z) =
      elim (Bool-cases (is_empty g.buffer)) [
        | inl empty ↦
            absurd (
              omega (arith, ap (λ c. length c) (is_empty-nil g.buffer empty), ap (λ c. length c) b))
        | inr full ↦
            rw (full, erase_packet)
              (
                record {
                  follows = Follows-trans follows (rebuffered g (drop n g.buffer) sync i);
                  synced = λ h. omega (
                    arith,
                    from (subst (λ (c : Config). length c.start_pattern ≡ 0) follows.same_config h),
                  );
                },
                rw s (omega (arith, length-drop n g.buffer, ap (λ c. length c) b)),
              )
      ]

  collect_packet-RoundSafe :
      (offset j : ℕ)
      → f.state ≡ collect
      → 0 < length f.end_pattern
      → length f.start_pattern ≤ offset
      → offset ≤ length f.buffer
      → starts_with f.start_pattern f.buffer ≡ true
      → search f.end_pattern (drop offset f.buffer) ≡ some j
      → RoundSafe f (collect_packet f (offset + j + length f.end_pattern))
  unfolding collect_packet
  collect_packet-RoundSafe offset j s pos low high front found =
      let n : ℕ = offset + j + length f.end_pattern in
      let le : n ≤ length f.buffer = omega (
        arith,
        search-le f.end_pattern (drop offset f.buffer) found,
        length-drop offset f.buffer,
      ) in
      elim (Bool-cases (leb n f.max_length)) [
        | inl fits ↦
            rw (fits, collect_packet)
              (erase_packet-RoundSafe (deliver f (take n f.buffer)) n 0 s (omega arith) le
                (λ _. refl)
                (deliver-Follows f (take n f.buffer)
                  (cut-IsPacket f.config f.buffer offset j n front low found refl (fit n fits))))
        | inr long ↦
            rw (long, collect_packet)
              (
                record {
                  follows = rebuffered f (drop n f.buffer) sync 0;
                  synced = λ _. omega arith;
                },
                rw s (omega (arith, length-drop n f.buffer)),
              )
      ]
    where
      fit : (n : ℕ) → leb n f.max_length ≡ true → n ≤ f.max_length
      fit n h = ground arith

  collect_more-RoundSafe :
      f.state ≡ collect → starts_with f.start_pattern f.buffer ≡ true → RoundSafe f (collect_more f)
  unfolding collect_more
  collect_more-RoundSafe s front = elim (Bool-cases (ltb f.max_length (length f.buffer))) [
    | inl long ↦
        rw (long, collect_more)
          (record { follows = rebuffered f [] sync 0; synced = λ _. omega arith }, omega arith)
    | inr short ↦
        rw (short, collect_more)
          (
            record {
              follows = rebuffered f f.buffer f.state (length f.buffer);
              synced =
                  subst (λ t. IsSynced t f.config f.buffer (length f.buffer)) (sym s)
                    (front, omega arith);
            },
            omega (arith, ltb→le _ _ short),
          )
  ]

  collect_round-RoundSafe : f.state ≡ collect → RoundSafe f (collect_round f)
  unfolding collect_round
  collect_round-RoundSafe s =
      let (front, _) = subst (λ t. IsSynced t f.config f.buffer f.scanned_idx) s synced in
      let room = starts_with-le f.start_pattern f.buffer front in
      let (low, high) = search_offset_bounds s in
      let offset : ℕ = search_offset f.config f.scanned_idx in
      elim (Bool-cases (is_empty f.end_pattern)) [
        | inl empty ↦
            let nil = is_empty-nil f.end_pattern empty in
            let pos : 0 < length f.start_pattern = omega (arith, ap (λ c. length c) nil) in
            let m = take (length f.start_pattern) f.buffer in
            rw (empty, collect_round)
              (erase_packet-RoundSafe (deliver f m) (length f.start_pattern)
                (deliver f m).scanned_idx s pos room (λ h. absurd (omega arith))
                (deliver-Follows f m
                  (start_only nil (starts_with-take f.start_pattern f.buffer front))))
        | inr full ↦ elim (Option-cases (search f.end_pattern (drop offset f.buffer))) [
          | inl nowhere ↦
              rw (full, le→ltb (length f.buffer) offset high, nowhere, collect_round)
                (collect_more-RoundSafe s front)
          | inr (j, found) ↦
              rw (full, le→ltb (length f.buffer) offset high, found, collect_round)
                (collect_packet-RoundSafe offset j s (is_empty-cons _ full) low high front found)
        ]
      ]

  round-RoundSafe : RoundSafe f (round f)
  unfolding round
  round-RoundSafe = go f.state refl
    where
      go : (t : State) → f.state ≡ t → RoundSafe f (round f)
      go sync e = subst (RoundSafe f) (sym (at_sync e)) (sync_round-RoundSafe e)
        where
          at_sync : f.state ≡ sync → round f ≡ sync_round f
          at_sync e = ground arith
      go collect e = subst (RoundSafe f) (sym (at_collect e)) (collect_round-RoundSafe e)
        where
          at_collect : f.state ≡ collect → round f ≡ collect_round f
          at_collect e = ground arith

pub slow_loop-Good :
    (fuel : ℕ) (f : PacketFramer)
    → HasPattern f.config
    → IsSynced f.state f.config f.buffer f.scanned_idx
    → measure f < fuel
    → (g : PacketFramer) × (slow_loop fuel f ≡ some g) × Good f g × (length g.buffer ≤ cap f.config)
unfolding slow_loop
slow_loop-Good zero f usable synced enough = absurd (omega arith)
slow_loop-Good (suc fuel) f usable synced enough =
    go (round f) refl (round-RoundSafe f usable synced) (λ g. slow_loop-Good fuel g)
  where
    go :
        (r : Round)
        → round f ≡ r
        → RoundSafe f r
        → ((g : PacketFramer)
            → HasPattern g.config
            → IsSynced g.state g.config g.buffer g.scanned_idx
            → measure g < fuel
            → (h : PacketFramer) × (slow_loop fuel g ≡ some h)
              × Good g h
              × (length h.buffer ≤ cap g.config))
        → (g : PacketFramer) × (slow_loop (suc fuel) f ≡ some g)
          × Good f g
          × (length g.buffer ≤ cap f.config)
    go (done g) e (good, short) ih = (g, rw (e, slow_loop), good, short)
    go (continue g) e (good, less) ih =
        let same = good.follows.same_config in
        let (h, e', good', short) =
          ih g (subst HasPattern (sym same) usable) good.synced (omega arith) in
        (
          h,
          rw (e, slow_loop) e',
          record { follows = Follows-trans good.follows good'.follows; synced = good'.synced },
          subst (λ (c : Config). length h.buffer ≤ cap c) same short,
        )
