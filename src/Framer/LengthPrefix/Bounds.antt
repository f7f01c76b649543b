-- ===== src/Framer/LengthPrefix/Bounds.antt =====
-- push_bytes on any bytes, with any callback: it returns, and memory and messages are bounded.
use wirestead.Prelude.{
  ℕ, zero, suc, ◌+◌, ◌≤◌, ◌<◌, ◌≡◌, refl, sym, ap, subst, ◌∙◌, ◌⊎◌, inl, inr, [], ◌∷◌, ◌++◌, Option,
  none, some, Bytes, length, take, drop, arith, ltb, ltb→lt, ltb→le, Bool-cases, Option-cases,
  length-drop, length-take,
}
use wirestead.Framer.Delivery.{AtMost, Callback, Extends, Extends-refl, Extends-trans}
use wirestead.Framer.LengthPrefix.{
  Config, LengthPrefixFramer, read_length, payload_length, reset, deliver, after_delivery, erase,
  Round, break, continue, return, take_frame, round, loop, push_bytes,
}

-- A message goes to the callback or nowhere, and the buffer stays or is cleared.
record Delivers (f g : LengthPrefixFramer) : Type 0 where
  same_config : g.config ≡ f.config
  extends : Extends (AtMost f.max_length) f.delivered g.delivered
  buffer_kept : (g.buffer ≡ f.buffer) ⊎ (g.buffer ≡ [])
  silent : g.on_message ≡ none → g.buffer ≡ f.buffer

deliver-Delivers :
    (f : LengthPrefixFramer) (m : Bytes) → length m ≤ f.max_length → Delivers f (deliver f m)
unfolding deliver reset
deliver-Delivers f m h = go f.on_message refl
  where
    one : Extends (AtMost f.max_length) f.delivered (f.delivered ++ m ∷ [])
    one = record { sent = m ∷ []; gives = refl; each = (h, tt) }

    go : (cb : Option Callback) → f.on_message ≡ cb → Delivers f (deliver f m)
    go none e =
        rw (e, deliver)
          (record {
            same_config = refl;
            extends = Extends-refl (AtMost f.max_length) f.delivered;
            buffer_kept = inl refl;
            silent = λ _. refl;
          })
    go (some cb) e = elim (Bool-cases (cb (f.delivered ++ m ∷ []))) [
      | inl resets ↦
          rw (e, resets, deliver)
            (record { same_config = refl; extends = one; buffer_kept = inr refl; silent = λ h. cc })
      | inr quiet ↦
          rw (e, quiet, deliver)
            (record { same_config = refl; extends = one; buffer_kept = inl refl; silent = λ h. cc })
    ]

record Returned (f g : LengthPrefixFramer) : Type 0 where
  same_config : g.config ≡ f.config
  extends : Extends (AtMost f.max_length) f.delivered g.delivered
  short : length g.buffer < f.prefix_bytes + f.max_length

-- What each outcome of a round means.
abbrev RoundSafe : LengthPrefixFramer → ℕ → Round → Type 0
RoundSafe f consumed break = length f.buffer < consumed + f.prefix_bytes + f.max_length
RoundSafe f consumed (return g) = Returned f g
RoundSafe f consumed (continue g next) =
    (g.config ≡ f.config)
    × Extends (AtMost f.max_length) f.delivered g.delivered
    × (consumed + f.prefix_bytes ≤ next)
    × (next ≤ length g.buffer)
    × (length g.buffer ≤ length f.buffer)

module _ (f : LengthPrefixFramer) (pos : 0 < f.prefix_bytes) (consumed : ℕ)
    (room : consumed ≤ length f.buffer) where
  reset-Returned : Returned f (reset f)
  unfolding reset
  reset-Returned = record {
    same_config = refl;
    extends = Extends-refl (AtMost f.max_length) f.delivered;
    short = omega arith;
  }

  after_delivery-RoundSafe :
      (g : LengthPrefixFramer) (b : Bytes) (frame_end : ℕ)
      → g.buffer ≡ b
      → Delivers f g
      → consumed + f.prefix_bytes ≤ frame_end
      → frame_end ≤ length f.buffer
      → RoundSafe f consumed (after_delivery g b frame_end)
  unfolding after_delivery
  after_delivery-RoundSafe g [] frame_end e d h k = elim (Option-cases g.on_message) [
    | inl unset ↦
        absurd (omega (arith, ap (λ b. length b) (sym (d.silent unset)), ap (λ b. length b) e))
    | inr (cb, set) ↦
        rw (set, after_delivery)
          (record {
            same_config = d.same_config;
            extends = d.extends;
            short = omega (arith, ap (λ b. length b) e);
          })
  ]
  after_delivery-RoundSafe g (x ∷ b) frame_end e d h k =
      let kept : x ∷ b ≡ f.buffer = elim d.buffer_kept [
        | inl p ↦ sym e ∙ p
        | inr p ↦ cc (sym e ∙ p)
      ] in
      (
        d.same_config,
        d.extends,
        h,
        omega (arith, ap (λ c. length c) (e ∙ kept)),
        omega (arith, ap (λ c. length c) (e ∙ kept)),
      )

  take_frame-RoundSafe :
      (payload_len : ℕ) → RoundSafe f consumed (take_frame f consumed payload_len)
  unfolding take_frame
  take_frame-RoundSafe n = elim (Bool-cases (ltb f.max_length n)) [
    | inl large ↦ rw (large, take_frame) reset-Returned
    | inr fits ↦ elim (Bool-cases (ltb (length f.buffer) (consumed + f.prefix_bytes + n))) [
      | inl short ↦ rw (fits, short, take_frame) (omega (arith, ltb→lt _ _ short, ltb→le _ _ fits))
      | inr whole ↦
          let m = take n (drop (consumed + f.prefix_bytes) f.buffer) in
          let size : length m ≤ f.max_length =
            omega
              (arith, length-take n (drop (consumed + f.prefix_bytes) f.buffer), ltb→le _ _ fits) in
          rw (fits, whole, take_frame)
            (after_delivery-RoundSafe (deliver f m) (deliver f m).buffer
              (consumed + f.prefix_bytes + n) refl (deliver-Delivers f m size) (omega arith)
              (ltb→le _ _ whole))
    ]
  ]

  round-RoundSafe : RoundSafe f consumed (round f consumed)
  unfolding round
  round-RoundSafe = elim (Option-cases (read_length f consumed)) [
    | inl header ↦ rw (header, round) (no_header header)
    | inr (n, read) ↦ elim (Option-cases (payload_length f.config n)) [
      | inl bad ↦ rw (read, bad, round) reset-Returned
      | inr (m, good) ↦ rw (read, good, round) (take_frame-RoundSafe m)
    ]
  ]
    where
      no_header :
          read_length f consumed ≡ none → length f.buffer < consumed + f.prefix_bytes + f.max_length
      no_header h = unfold read_length in ground arith

Returned-trans :
    (f g h : LengthPrefixFramer)
    → g.config ≡ f.config
    → Extends (AtMost f.max_length) f.delivered g.delivered
    → Returned g h
    → Returned f h
Returned-trans f g h same e r = record {
  same_config = r.same_config ∙ same;
  extends = Extends-trans e (
      subst (λ (c : Config). Extends (AtMost c.max_length) g.delivered h.delivered) same r.extends);
  short = subst (λ (c : Config). length h.buffer < c.prefix_bytes + c.max_length) same r.short;
}

loop-Returned :
    (fuel : ℕ) (f : LengthPrefixFramer) (consumed : ℕ)
    → 0 < f.prefix_bytes
    → consumed ≤ length f.buffer
    → length f.buffer < consumed + fuel
    → (g : LengthPrefixFramer) × (loop fuel f consumed ≡ some g) × Returned f g
unfolding loop erase
loop-Returned zero f consumed pos room enough = absurd (omega arith)
loop-Returned (suc fuel) f consumed pos room enough =
    go (round f consumed) refl (round-RoundSafe f pos consumed room)
      λ g next q. loop-Returned fuel g next q
  where
    go :
        (r : Round)
        → round f consumed ≡ r
        → RoundSafe f consumed r
        → ((g : LengthPrefixFramer) (next : ℕ)
            → 0 < g.prefix_bytes
            → next ≤ length g.buffer
            → length g.buffer < next + fuel
            → (h : LengthPrefixFramer) × (loop fuel g next ≡ some h) × Returned g h)
        → (g : LengthPrefixFramer) × (loop (suc fuel) f consumed ≡ some g) × Returned f g
    go break e safe ih = (
      erase f consumed,
      rw (e, loop),
      record {
        same_config = refl;
        extends = Extends-refl (AtMost f.max_length) f.delivered;
        short = omega (arith, length-drop consumed f.buffer);
      },
    )
    go (return g) e safe ih = (g, rw (e, loop), safe)
    go (continue g next) e safe ih =
        let (h, gives, r) =
          ih g next (subst (λ (c : Config). 0 < c.prefix_bytes) (sym safe.0) pos) safe.3
            (omega arith) in
        (h, rw (e, loop) gives, Returned-trans f g h safe.0 safe.1 r)

-- For a framer with a non-empty prefix, any input and any callback, also one that resets the
-- framer: `push_bytes` returns, the configuration is kept, each message newly delivered has at
-- most `max_length` bytes, and the buffer ends shorter than a prefix and a longest payload.
pub push_bytes-Returned :
    (f : LengthPrefixFramer) (bytes : Bytes)
    → 0 < f.prefix_bytes
    → (g : LengthPrefixFramer) × (push_bytes f bytes ≡ some g)
      × (g.config ≡ f.config)
      × Extends (AtMost f.max_length) f.delivered g.delivered
      × (length g.buffer < f.prefix_bytes + f.max_length)
unfolding push_bytes
push_bytes-Returned f bytes pos =
    let f' = record f { buffer = f.buffer ++ bytes } in
    let (g, e, r) = loop-Returned (suc (length f'.buffer)) f' 0 pos (omega arith) (omega arith) in
    (g, e, r.same_config, r.extends, r.short)
