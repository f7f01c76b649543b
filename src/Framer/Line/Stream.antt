-- ===== src/Framer/Line/Stream.antt =====
-- push_bytes over a whole stream, cut into calls at any places: the state behind it is a function
-- of the stream.
use wirestead.Prelude.{
  ℕ, zero, suc, ◌+◌, ◌-◌, ◌≤◌, ◌<◌, ◌≡◌, refl, sym, ap, subst, ◌∙◌, false, List, [], ◌∷◌, ◌++◌,
  some, Bytes, length, take, drop, flatten, arith, ltb, le→ltb, ltb→lt, ltb→le, Bool-cases,
  Option-cases, length-append, inl, inr, append-nil, append_assoc, length-take, length-drop,
  take-append-drop, take_all, take-add, min, size_mod,
}
use wirestead.Framer.Search.{search}
use wirestead.Framer.Delivery.{Callback, NeverResets}
use wirestead.Framer.Line.{
  LineFramer, push_bytes_internal, push_chunks, push_bytes, push_all, chunk_limit,
}
use wirestead.Framer.Line.Split.{remainder}
use wirestead.Framer.Line.Settle.{max_partial, after, push-held, push-lost}

-- A state that one call of push_bytes_internal keeps in step with the stream.
module _ (A : Bytes → LineFramer) (Ok : Bytes → Type 0) (front : (s b : Bytes) → Ok (s ++ b) → Ok s)
    (step : (s b : Bytes)
      → Ok (s ++ b)
      → 0 < length b
      → push_bytes_internal (A s) b ≡ some (A (s ++ b))) where
  push_chunks_lem :
      (fuel : ℕ) (s bytes : Bytes) (offset : ℕ)
      → offset ≤ length bytes
      → length bytes ≤ offset + fuel
      → Ok (s ++ bytes)
      → push_chunks fuel (A (s ++ take offset bytes)) bytes offset ≡ some (A (s ++ bytes))
  unfolding push_chunks
  push_chunks_lem zero s bytes offset room enough good =
      rw (le→ltb offset (length bytes) (omega arith), take_all offset bytes (omega arith))
  push_chunks_lem (suc fuel) s bytes offset room enough good =
      elim (Bool-cases (ltb offset (length bytes))) [
        | inl more ↦
            let len : ℕ =
              min (length bytes - offset) (chunk_limit (A (s ++ take offset bytes)).max_length) in
            let size : (0 < len) × (offset + len ≤ length bytes) =
              unfold chunk_limit in omega (arith, ltb→lt _ _ more) in
            let chunk = take len (drop offset bytes) in
            let joined : (s ++ take offset bytes) ++ chunk ≡ s ++ take (offset + len) bytes =
              append_assoc s (take offset bytes) chunk ∙ ap (◌++◌ s) (take-add offset len bytes) in
            let whole : s ++ bytes ≡ (s ++ take (offset + len) bytes) ++ drop (offset + len) bytes =
              ap (◌++◌ s) (sym (take-append-drop (offset + len) bytes))
              ∙ sym (append_assoc s (take (offset + len) bytes) (drop (offset + len) bytes)) in
            let reached = front _ _ (subst Ok whole good) in
            rw
              (
                more,
                step (s ++ take offset bytes) chunk (subst Ok (sym joined) reached)
                    (omega (arith, length-take len (drop offset bytes), length-drop offset bytes)),
                joined,
                push_chunks,
              )
              (push_chunks_lem fuel s bytes (offset + len) size.1 (omega arith) good)
        | inr done ↦ rw (done, take_all offset bytes (ltb→le _ _ done), push_chunks)
      ]

  push_bytes_lem :
      (s bytes : Bytes) → Ok (s ++ bytes) → push_bytes (A s) bytes ≡ some (A (s ++ bytes))
  unfolding push_bytes
  push_bytes_lem s [] good = rw (append-nil s)
  push_bytes_lem s (x ∷ bytes) good =
      ap (λ b. push_chunks (length (x ∷ bytes)) (A b) (x ∷ bytes) 0) (sym (append-nil s))
      ∙ push_chunks_lem (length (x ∷ bytes)) s (x ∷ bytes) 0 (omega arith) (omega arith) good

  push_all_lem :
      (s : Bytes) (chunks : List Bytes)
      → Ok (s ++ flatten chunks)
      → push_all (A s) chunks ≡ some (A (s ++ flatten chunks))
  unfolding push_all
  push_all_lem s [] good = rw (append-nil s)
  push_all_lem s (bytes ∷ rest) good =
      let same = append_assoc s bytes (flatten rest) in
      let good' = subst Ok (sym same) good in
      rw (push_bytes_lem s bytes (front _ _ good'), push_all)
        (push_all_lem (s ++ bytes) rest good' ∙ ap (λ b. some (A b)) same)

-- A framer as the constructor or `reset()` leaves it: no begun message.
pub record IsFresh (f : LineFramer) : Type 0 where
  pub empty : f.buffer ≡ []
  pub at_start : f.scanned_idx ≡ 0
  pub keeping : f.discarding ≡ false

IsFresh-after : (f : LineFramer) → IsFresh f → f ≡ after f []
IsFresh-after f h =
    rw (le→ltb (max_partial f.config) 0 (omega arith), append-nil f.delivered) (ground (arith))

-- With a one-byte delimiter, a callback that does not reset the framer, and no begun message, the
-- framer after any calls of `push_bytes` depends only on the bytes in them, not on how they are
-- cut: it has handed over exactly the messages that the delimiters cut off, without those longer
-- than `max_length`, and holds the begun message, or discards it where it is longer than that.
pub push_all-one_byte :
    (f : LineFramer) (cb : Callback) (chunks : List Bytes)
    → NeverResets cb
    → f.on_message ≡ some cb
    → length f.delimiter ≡ 1
    → f.max_length < size_mod
    → IsFresh f
    → push_all f chunks ≡ some (after f (flatten chunks))
push_all-one_byte f cb chunks quiet set one bounded fresh =
    ap (λ g. push_all g chunks) (IsFresh-after f fresh)
    ∙ push_all_lem (after f) (λ _. Unit {0}) (λ _ _ _. tt) step [] chunks tt
  where
    step :
        (s b : Bytes)
        → Unit {0}
        → 0 < length b
        → push_bytes_internal (after f s) b ≡ some (after f (s ++ b))
    step s b _ some_bytes =
        elim (Bool-cases (ltb (max_partial f.config) (length (remainder f.config [] s)))) [
          | inl long ↦ push-lost cb quiet f set one bounded s b long some_bytes
          | inr held ↦ push-held cb quiet f set (omega arith) s b held some_bytes
        ]

-- Every begun message on the way fits the buffer.
abbrev pub StaysShort : LineFramer → Bytes → Type 0
StaysShort f s =
    (front back : Bytes)
    → front ++ back ≡ s
    → length (remainder f.config [] front) ≤ max_partial f.config

remainder-le :
    (f : LineFramer) (partial s : Bytes)
    → length (remainder f.config partial s) ≤ length partial + length s
remainder-le f partial [] = omega arith
remainder-le f partial (x ∷ s) = elim (Option-cases (search f.delimiter (partial ++ x ∷ []))) [
  | inl nowhere ↦
      rw (nowhere, remainder)
        (omega (arith, remainder-le f (partial ++ x ∷ []) s, length-append partial (x ∷ [])))
  | inr (k, found) ↦ rw (found, remainder) (omega (arith, remainder-le f [] s))
]

-- A stream shorter than what the framer keeps of a begun message.
pub StaysShort-length :
    (f : LineFramer) (s : Bytes) → length s ≤ max_partial f.config → StaysShort f s
StaysShort-length f s short front back e =
    omega (arith, remainder-le f [] front, length-append front back, ap (λ (b : Bytes). length b) e)

-- With any delimiter, the same holds where no begun message on the way is longer than what the
-- framer keeps: then no call discards.
pub push_all-short :
    (f : LineFramer) (cb : Callback) (chunks : List Bytes)
    → NeverResets cb
    → f.on_message ≡ some cb
    → 0 < length f.delimiter
    → StaysShort f (flatten chunks)
    → IsFresh f
    → push_all f chunks ≡ some (after f (flatten chunks))
push_all-short f cb chunks quiet set pos short fresh =
    ap (λ g. push_all g chunks) (IsFresh-after f fresh)
    ∙ push_all_lem (after f) (StaysShort f)
        (λ s b ok front back e.
          ok front (back ++ b) (sym (append_assoc front back b) ∙ ap (λ t. t ++ b) e))
        (λ s b ok some_bytes.
          push-held cb quiet f set pos s b (le→ltb _ _ (ok s b refl)) some_bytes)
        [] chunks short
