-- ===== src/Framer/LengthPrefix/RoundTrip.antt =====
-- push_bytes on well-formed input: what the length field says is what the callback gets, however
-- the stream is cut into calls.
use wirestead.Prelude.{
  ℕ, zero, suc, ◌+◌, ◌≤◌, ◌<◌, ◌^◌, ◌≡◌, refl, sym, ap, subst, ◌∙◌, inl, inr, true, List, [], ◌∷◌,
  ◌++◌, Option, none, some, Bytes, length, drop, flatten, All, All-append_right, arith, ltb, ltb→lt,
  ltb→le, le→ltb, Bool-cases, append-nil, append_assoc, length-append, length-drop, drop-drop,
  drop-length_append, take-length_append, append-split,
}
use wirestead.Framer.Delivery.{Callback, NeverResets}
use wirestead.Framer.LengthPrefix.{
  Config, LengthPrefixFramer, read_length, deliver, after_delivery, erase, break, continue,
  take_frame, round, loop, push_bytes, push_all,
}
use wirestead.Framer.LengthPrefix.Encoding.{
  IsWidth, encode, length-encode, read_value-encode, declared_length, frame, frames, Fits,
  length-frame, payload_length-declared,
}

-- What is left in the buffer is less than the next frame.
abbrev IsIncomplete : Config → List Bytes → Bytes → Type 0
IsIncomplete c [] b = Unit {0}
IsIncomplete c (p ∷ ps) b = length b < c.prefix_bytes + length p

-- The framer has delivered a front part of the payloads, and holds a part of the rest.
record Took (f : LengthPrefixFramer) (ps : List Bytes) (r : Bytes)
    (result : Option LengthPrefixFramer) : Type 0 where
  sent : List Bytes
  left : List Bytes
  buffer : Bytes
  splits : ps ≡ sent ++ left
  gives : result ≡ some (record f { buffer = buffer; delivered = f.delivered ++ sent })
  next : buffer ++ r ≡ frames f.config left
  incomplete : IsIncomplete f.config left buffer

after_delivery-cons :
    (f : LengthPrefixFramer) (b : Bytes) (e : ℕ)
    → 0 < length b
    → after_delivery f b e ≡ continue f e
unfolding after_delivery
after_delivery-cons f [] e h = absurd (omega arith)
after_delivery-cons f (x ∷ b) e h = refl

IsWidth-pos : (k : ℕ) → IsWidth k → 0 < k
IsWidth-pos k w = ground arith

read_length-encode :
    (f : LengthPrefixFramer) (consumed declared : ℕ) (tail : Bytes)
    → IsWidth f.prefix_bytes
    → declared < 256 ^ f.prefix_bytes
    → drop consumed f.buffer ≡ encode f.endian f.prefix_bytes declared ++ tail
    → read_length f consumed ≡ some declared
unfolding read_length
read_length-encode f consumed declared tail w h d =
    let value = read_value-encode f.endian f.prefix_bytes consumed declared f.buffer tail w h d in
    let room : f.prefix_bytes + consumed ≤ length f.buffer = omega (
      arith,
      ap length d,
      length-drop consumed f.buffer,
      length-append (encode f.endian f.prefix_bytes declared) tail,
      length-encode f.endian f.prefix_bytes declared,
      IsWidth-pos f.prefix_bytes w,
    ) in
    ground (arith, value, room)

-- The bytes behind a length field at `consumed`.
drop-encode :
    (f : LengthPrefixFramer) (consumed declared : ℕ) (tail : Bytes)
    → drop consumed f.buffer ≡ encode f.endian f.prefix_bytes declared ++ tail
    → drop (consumed + f.prefix_bytes) f.buffer ≡ tail
drop-encode f consumed declared tail d =
    sym (drop-drop consumed f.prefix_bytes f.buffer)
    ∙ ap (drop f.prefix_bytes) d
    ∙ subst (λ (k : ℕ). drop k (encode f.endian f.prefix_bytes declared ++ tail) ≡ tail)
        (length-encode f.endian f.prefix_bytes declared)
        (drop-length_append (encode f.endian f.prefix_bytes declared) tail)

module _ (cb : Callback) (quiet : NeverResets cb) where
  deliver_quiet :
      (f : LengthPrefixFramer) (p : Bytes)
      → f.on_message ≡ some cb
      → deliver f p ≡ record f { delivered = f.delivered ++ p ∷ [] }
  unfolding deliver
  deliver_quiet f p h = ground (arith, quiet (f.delivered ++ p ∷ []))

  module _ (f : LengthPrefixFramer) (set : f.on_message ≡ some cb) (consumed : ℕ) where
    take_frame_whole :
        (p tail : Bytes)
        → 0 < f.prefix_bytes
        → length p ≤ f.max_length
        → drop (consumed + f.prefix_bytes) f.buffer ≡ p ++ tail
        → consumed + f.prefix_bytes ≤ length f.buffer
        → take_frame f consumed (length p)
          ≡ continue
              (record f { delivered = f.delivered ++ p ∷ [] })
              (consumed + f.prefix_bytes + length p)
    unfolding take_frame
    take_frame_whole p tail pos fits d room =
        let enough : consumed + f.prefix_bytes + length p ≤ length f.buffer = omega (
          arith,
          ap length d,
          length-drop (consumed + f.prefix_bytes) f.buffer,
          length-append p tail,
        ) in
        rw
          (
            d,
            take-length_append p tail,
            le→ltb f.max_length (length p) fits,
            le→ltb (length f.buffer) (consumed + f.prefix_bytes + length p) enough,
            deliver_quiet f p set,
          )
          (after_delivery-cons (record f { delivered = f.delivered ++ p ∷ [] }) f.buffer
            (consumed + f.prefix_bytes + length p) (omega arith))

    -- A round at a whole frame delivers its payload and goes on behind it.
    round_whole :
        (p tail : Bytes)
        → IsWidth f.prefix_bytes
        → Fits f.config p
        → drop consumed f.buffer ≡ frame f.config p ++ tail
        → round f consumed
          ≡ continue
              (record f { delivered = f.delivered ++ p ∷ [] })
              (consumed + f.prefix_bytes + length p)
    unfolding round
    round_whole p tail w fits d =
        let n : ℕ = declared_length f.config p in
        let d' = d ∙ append_assoc (encode f.endian f.prefix_bytes n) p tail in
        let room : f.prefix_bytes + consumed ≤ length f.buffer = omega (
          arith,
          ap length d',
          length-drop consumed f.buffer,
          length-append (encode f.endian f.prefix_bytes n) (p ++ tail),
          length-encode f.endian f.prefix_bytes n,
          IsWidth-pos f.prefix_bytes w,
        ) in
        rw
          (
            read_length-encode f consumed n (p ++ tail) w fits.1 d',
            payload_length-declared f.config p,
            round,
          )
          (take_frame_whole p tail (IsWidth-pos f.prefix_bytes w) fits.0
            (drop-encode f consumed n (p ++ tail) d') (omega arith))

    -- A round at less than a frame waits for more.
    round_partial :
        (p rest r : Bytes)
        → IsWidth f.prefix_bytes
        → Fits f.config p
        → consumed ≤ length f.buffer
        → drop consumed f.buffer ++ r ≡ frame f.config p ++ rest
        → length (drop consumed f.buffer) < f.prefix_bytes + length p
        → round f consumed ≡ break
    unfolding round
    round_partial p rest r w fits room d short =
        elim (Bool-cases (ltb (length (drop consumed f.buffer)) f.prefix_bytes)) [
          | inl header ↦ rw (no_header header, round)
          | inr read ↦
              let n : ℕ = declared_length f.config p in
              let field = encode f.endian f.prefix_bytes n in
              let (t, d', _) =
                append-split (drop consumed f.buffer) field (d ∙ append_assoc field p rest)
                  (omega (arith, length-encode f.endian f.prefix_bytes n, ltb→le _ _ read)) in
              rw
                (
                  read_length-encode f consumed n t w fits.1 d',
                  payload_length-declared f.config p,
                  round,
                )
                short_payload
        ]
      where
        no_header :
            ltb (length (drop consumed f.buffer)) f.prefix_bytes ≡ true
            → read_length f consumed ≡ none
        no_header h = unfold read_length in ground (arith, length-drop consumed f.buffer)

        short_payload : take_frame f consumed (length p) ≡ break
        short_payload = unfold take_frame in ground (arith, length-drop consumed f.buffer, fits.0)

  Took-break :
      (fuel : ℕ) (f : LengthPrefixFramer) (consumed : ℕ) (ps : List Bytes) (r : Bytes)
      → round f consumed ≡ break
      → drop consumed f.buffer ++ r ≡ frames f.config ps
      → IsIncomplete f.config ps (drop consumed f.buffer)
      → Took f ps r (loop (suc fuel) f consumed)
  unfolding loop erase
  Took-break fuel f consumed ps r stop e short = record {
    sent = [];
    left = ps;
    buffer = drop consumed f.buffer;
    splits = refl;
    gives = rw (stop, append-nil f.delivered, loop);
    next = e;
    incomplete = short;
  }

  Took-cons :
      (fuel : ℕ) (f : LengthPrefixFramer) (consumed next : ℕ) (p : Bytes) (ps : List Bytes)
      (r : Bytes)
      → let g = record f { delivered = f.delivered ++ p ∷ [] } in
        round f consumed ≡ continue g next
        → Took g ps r (loop fuel g next)
        → Took f (p ∷ ps) r (loop (suc fuel) f consumed)
  unfolding loop
  Took-cons fuel f consumed next p ps r go t = record {
    sent = p ∷ t.sent;
    left = t.left;
    buffer = t.buffer;
    splits = ap (◌∷◌ p) t.splits;
    gives = rw (go, loop) (t.gives ∙ rw (append_assoc f.delivered (p ∷ []) t.sent));
    next = t.next;
    incomplete = t.incomplete;
  }

  round_nothing :
      (f : LengthPrefixFramer) (consumed : ℕ)
      → IsWidth f.prefix_bytes
      → consumed ≤ length f.buffer
      → length (drop consumed f.buffer) ≡ 0
      → round f consumed ≡ break
  unfolding round read_length
  round_nothing f consumed w room h =
      ground (arith, length-drop consumed f.buffer, IsWidth-pos f.prefix_bytes w)

  loop-Took :
      (fuel : ℕ) (f : LengthPrefixFramer) (consumed : ℕ) (ps : List Bytes) (r : Bytes)
      → f.on_message ≡ some cb
      → IsWidth f.prefix_bytes
      → All (Fits f.config) ps
      → consumed ≤ length f.buffer
      → length f.buffer < consumed + fuel
      → drop consumed f.buffer ++ r ≡ frames f.config ps
      → Took f ps r (loop fuel f consumed)
  loop-Took zero f consumed ps r set w fits room enough e = absurd (omega arith)
  loop-Took (suc fuel) f consumed [] r set w fits room enough e =
      Took-break fuel f consumed [] r
        (round_nothing f consumed w room
          (omega (arith, ap length e, length-append (drop consumed f.buffer) r)))
        e tt
  loop-Took (suc fuel) f consumed (p ∷ ps) r set w fits room enough e =
      elim (Bool-cases (ltb (length (drop consumed f.buffer)) (f.prefix_bytes + length p))) [
        | inl short ↦
            Took-break fuel f consumed (p ∷ ps) r
              (round_partial f set consumed p (frames f.config ps) r w fits.0 room e
                (ltb→lt _ _ short))
              e (ltb→lt _ _ short)
        | inr whole ↦
            let (t, d, e') =
              append-split (drop consumed f.buffer) (frame f.config p) e
                (omega (arith, length-frame f.config p, ltb→le _ _ whole)) in
            let g = record f { delivered = f.delivered ++ p ∷ [] } in
            let next : ℕ = consumed + f.prefix_bytes + length p in
            let ends : next ≤ length f.buffer =
              omega (arith, length-drop consumed f.buffer, ltb→le _ _ whole) in
            Took-cons fuel f consumed next p ps r (round_whole f set consumed p t w fits.0 d) (
              loop-Took fuel g next ps r set w fits.1 ends
                (omega (arith, IsWidth-pos f.prefix_bytes w))
                (ap (λ (b : Bytes). b ++ r) (behind f consumed p t d) ∙ e'))
      ]
    where
      behind :
          (f : LengthPrefixFramer) (consumed : ℕ) (p t : Bytes)
          → drop consumed f.buffer ≡ frame f.config p ++ t
          → drop (consumed + f.prefix_bytes + length p) f.buffer ≡ t
      behind f consumed p t d =
          ap (λ (k : ℕ). drop k f.buffer)
            (let k : consumed + f.prefix_bytes + length p ≡ consumed + length (frame f.config p) =
                omega (arith, length-frame f.config p) in
              k)
          ∙ sym (drop-drop consumed (length (frame f.config p)) f.buffer)
          ∙ ap (drop (length (frame f.config p))) d
          ∙ drop-length_append (frame f.config p) t

  -- One call, on any piece of a stream of frames of which the framer holds the front.
  push_bytes-Took :
      (f : LengthPrefixFramer) (bytes r : Bytes) (ps : List Bytes)
      → f.on_message ≡ some cb
      → IsWidth f.prefix_bytes
      → All (Fits f.config) ps
      → f.buffer ++ bytes ++ r ≡ frames f.config ps
      → Took f ps r (push_bytes f bytes)
  unfolding push_bytes
  push_bytes-Took f bytes r ps set w fits e =
      let g = record f { buffer = f.buffer ++ bytes } in
      let t = loop-Took (suc (length g.buffer)) g 0 ps r set w fits (omega arith) (omega arith) e in
      record {
        sent = t.sent;
        left = t.left;
        buffer = t.buffer;
        splits = t.splits;
        gives = t.gives;
        next = t.next;
        incomplete = t.incomplete;
      }

  -- A buffer that holds all that is left, and less than a frame, is empty.
  nothing_left :
      (c : Config) (ps : List Bytes) (b : Bytes)
      → b ++ [] ≡ frames c ps
      → IsIncomplete c ps b
      → (ps ≡ []) × (b ≡ [])
  nothing_left c [] b e short = (refl, sym (append-nil b) ∙ e)
  nothing_left c (p ∷ ps) b e short = absurd (
      omega (
        arith,
        ap length e,
        length-append b [],
        length-append (frame c p) (frames c ps),
        length-frame c p,
      ))

  push_all-incomplete :
      (f : LengthPrefixFramer) (chunks : List Bytes) (ps : List Bytes)
      → f.on_message ≡ some cb
      → IsWidth f.prefix_bytes
      → All (Fits f.config) ps
      → f.buffer ++ flatten chunks ≡ frames f.config ps
      → IsIncomplete f.config ps f.buffer
      → push_all f chunks ≡ some (record f { buffer = []; delivered = f.delivered ++ ps })
  unfolding push_all
  push_all-incomplete f [] ps set w fits e short =
      let (none_left, empty) = nothing_left f.config ps f.buffer e short in
      ground (arith, none_left, empty, append-nil f.delivered)
  push_all-incomplete f (bytes ∷ rest) ps set w fits e short =
      let t =
        push_bytes-Took f bytes (flatten rest) ps set w fits
          (append_assoc f.buffer bytes (flatten rest) ∙ e) in
      let g = record f { buffer = t.buffer; delivered = f.delivered ++ t.sent } in
      rw (t.gives, push_all)
        (push_all-incomplete g rest t.left set w
            (All-append_right (Fits f.config) t.sent t.left
              (subst (All (Fits f.config)) t.splits fits))
            t.next t.incomplete
          ∙ ap (λ (l : List Bytes). some (record f { buffer = []; delivered = l }))
              (append_assoc f.delivered t.sent t.left ∙ ap (◌++◌ f.delivered) (sym t.splits)))

-- A framer with an empty buffer and a callback that does not reset it, given the frames of
-- payloads that fit it, cut into calls of `push_bytes` at any places, calls the callback with
-- exactly these payloads, in order, and ends with an empty buffer and nothing else changed.
pub push_all-frames :
    (f : LengthPrefixFramer) (cb : Callback) (payloads chunks : List Bytes)
    → NeverResets cb
    → f.on_message ≡ some cb
    → IsWidth f.prefix_bytes
    → f.buffer ≡ []
    → All (Fits f.config) payloads
    → flatten chunks ≡ frames f.config payloads
    → push_all f chunks ≡ some (record f { buffer = []; delivered = f.delivered ++ payloads })
push_all-frames f cb payloads chunks quiet set w empty fits e =
    push_all-incomplete cb quiet f chunks payloads set w fits
      (ap (λ b. b ++ flatten chunks) empty ∙ e) (start payloads)
  where
    start : (ps : List Bytes) → IsIncomplete f.config ps f.buffer
    start [] = tt
    start (p ∷ ps) = omega (arith, ap length empty, IsWidth-pos f.prefix_bytes w)
