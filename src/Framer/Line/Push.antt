-- ===== src/Framer/Line/Push.antt =====
-- One call of push_bytes_internal outside discard mode, on either path.
use mathlib.Core.Path.{ap₂}
use wirestead.Prelude.{
  ℕ, zero, suc, ◌+◌, ◌≤◌, ◌<◌, ◌≡◌, refl, sym, ap, ◌∙◌, true, false, List, [], ◌∷◌, ◌++◌, none,
  some, Bytes, length, drop, arith, ltb, leb, le→ltb, ltb→le, Bool-cases, inl, inr, length-append,
  length-drop,
}
use wirestead.Framer.Search.{search, search-append_near}
use wirestead.Framer.Delivery.{Callback, NeverResets}
use wirestead.Framer.Line.{
  LineFramer, is_empty, append_bytes, max_partial_length, drop_oversized, keep_unprocessed,
  erase_processed, push_fast, push_slow, resume_index, push_scanning,
}
use wirestead.Framer.Line.Split.{messages, remainder, split_none, messages-append, remainder-append}
use wirestead.Framer.Line.Scan.{sends, scan_and_process-Scanned}

pub is_empty-pos : (b : Bytes) → 0 < length b → is_empty b ≡ false
is_empty-pos [] h = absurd (omega arith)
is_empty-pos (x ∷ b) h = refl

pub is_empty-nil : (b : Bytes) → is_empty b ≡ true → b ≡ []
is_empty-nil [] h = refl
is_empty-nil (x ∷ b) h = cc

pub is_empty-cons : (b : Bytes) → is_empty b ≡ false → 0 < length b
is_empty-cons [] h = cc
is_empty-cons (x ∷ b) h = omega arith

nil_of_length : (b : Bytes) → length b ≡ 0 → b ≡ []
nil_of_length [] h = refl
nil_of_length (x ∷ b) h = absurd (omega arith)

append_bytes_zero : (b bytes : Bytes) → 0 < length bytes → append_bytes b bytes 0 ≡ b ++ bytes
unfolding append_bytes
append_bytes_zero b bytes h = ground arith

resume_index-le : (scanned d k b : ℕ) → 0 < d → scanned ≡ b → b < k + d → resume_index scanned d ≤ k
unfolding resume_index
resume_index-le scanned d k b pos e h = ground arith

-- The framer after these messages, with a begun message in its buffer.
abbrev pub holding : LineFramer → List Bytes → Bytes → LineFramer
holding f ms rest = record f {
  buffer = rest;
  scanned_idx = length rest;
  delivered = f.delivered ++ ms;
}

-- Nothing is dropped from an empty buffer.
pub drop_oversized-nil : (f : LineFramer) → f.buffer ≡ [] → drop_oversized f ≡ f
unfolding drop_oversized
drop_oversized-nil f e =
    rw (e, drop_oversized)
      (rw (le→ltb (max_partial_length f.max_length (length f.delimiter)) 0 (omega arith)))

keep_unprocessed_lem :
    (f : LineFramer) (bytes rest : Bytes) (n : ℕ)
    → f.buffer ≡ []
    → n ≤ length bytes
    → drop n bytes ≡ rest
    → keep_unprocessed bytes (f, n)
      ≡ drop_oversized (record f { buffer = rest; scanned_idx = length rest })
unfolding keep_unprocessed append_bytes
keep_unprocessed_lem f bytes rest n empty h e = elim (Bool-cases (ltb n (length bytes))) [
  | inl more ↦
      let early : leb (length bytes) n ≡ false = ground arith in
      rw (more, early, empty, e, keep_unprocessed)
  | inr all ↦
      let gone : rest ≡ [] =
        nil_of_length rest
          (omega (arith, ap (λ b. length b) e, length-drop n bytes, ltb→le _ _ all)) in
      rw (all, keep_unprocessed, gone, empty)
        (sym (drop_oversized-nil (record f { buffer = []; scanned_idx = 0 }) refl))
]

erase_processed_lem :
    (f : LineFramer) (rest : Bytes) (n : ℕ)
    → drop n f.buffer ≡ rest
    → erase_processed (f, n)
      ≡ drop_oversized (record f { buffer = rest; scanned_idx = length rest })
unfolding erase_processed
erase_processed_lem f rest zero e = rw (e, erase_processed)
erase_processed_lem f rest (suc n) e =
    let positive : ltb 0 (suc n) ≡ true = ground arith in rw (positive, e, erase_processed)

module _ (cb : Callback) (quiet : NeverResets cb) where
  push_fast_lem :
      (f : LineFramer) (bytes : Bytes)
      → f.on_message ≡ some cb
      → 0 < length f.delimiter
      → f.buffer ≡ []
      → push_fast f bytes
        ≡ some
            (drop_oversized (holding f (messages f.config [] bytes) (remainder f.config [] bytes)))
  unfolding push_fast
  push_fast_lem f bytes set pos empty =
      let (n, e, h, r) =
        scan_and_process-Scanned cb quiet f false bytes 0 set refl pos (λ k _. omega arith) in
      rw (e, push_fast)
        (ap some (
          keep_unprocessed_lem (sends f (messages f.config [] bytes)) bytes
            (remainder f.config [] bytes) n empty h r))

  push_slow_lem :
      (f : LineFramer) (bytes : Bytes)
      → f.on_message ≡ some cb
      → 0 < length f.delimiter
      → search f.delimiter f.buffer ≡ none
      → f.scanned_idx ≡ length f.buffer
      → 0 < length bytes
      → push_slow f bytes
        ≡ some (
            drop_oversized
              (holding f (messages f.config f.buffer bytes) (remainder f.config f.buffer bytes)))
  unfolding push_slow
  push_slow_lem f bytes set pos closed scanned some_bytes =
      let whole = f.buffer ++ bytes in
      let g = record f { buffer = whole } in
      let (n, e, h, r) =
        scan_and_process-Scanned cb quiet g true whole
          (resume_index f.scanned_idx (length f.delimiter)) set
          (is_empty-pos whole (omega (arith, length-append f.buffer bytes))) pos
          (λ k found.
            resume_index-le f.scanned_idx (length f.delimiter) k (length f.buffer) pos scanned
              (search-append_near f.delimiter f.buffer bytes pos closed found)) in
      let (none_yet, all_left) = split_none f.config [] f.buffer closed in
      rw (append_bytes_zero f.buffer bytes some_bytes, e, push_slow)
        (ap some (
          erase_processed_lem (sends g (messages f.config [] whole)) (remainder f.config [] whole) n
            r
          ∙ ap₂ (λ ms rest. drop_oversized (holding f ms rest))
              (messages-append f.config [] f.buffer bytes
                ∙ ap₂ (λ ms rest. ms ++ messages f.config rest bytes) none_yet all_left)
              (remainder-append f.config [] f.buffer bytes
                ∙ ap (λ rest. remainder f.config rest bytes) all_left)))

  -- Outside discard mode one call, on any bytes, does what Split says of the begun message in the
  -- buffer, and then drops what is left where it is too long.
  pub push_scanning_lem :
      (f : LineFramer) (bytes : Bytes)
      → f.on_message ≡ some cb
      → 0 < length f.delimiter
      → search f.delimiter f.buffer ≡ none
      → f.scanned_idx ≡ length f.buffer
      → 0 < length bytes
      → push_scanning f bytes
        ≡ some (
            drop_oversized
              (holding f (messages f.config f.buffer bytes) (remainder f.config f.buffer bytes)))
  unfolding push_scanning
  push_scanning_lem f bytes set pos closed scanned some_bytes =
      elim (Bool-cases (is_empty f.buffer)) [
        | inl empty ↦
            let nil = is_empty-nil f.buffer empty in
            rw (empty, push_scanning)
              (push_fast_lem f bytes set pos nil
                ∙ ap
                    (λ b. some (
                      drop_oversized
                        (holding f (messages f.config b bytes) (remainder f.config b bytes))))
                    (sym nil))
        | inr full ↦
            rw (full, push_scanning) (push_slow_lem f bytes set pos closed scanned some_bytes)
      ]
