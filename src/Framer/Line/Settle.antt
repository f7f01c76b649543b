-- ===== src/Framer/Line/Settle.antt =====
-- One call of push_bytes_internal, in terms of the stream before it: in and out of discard mode.
use mathlib.Core.Path.{ap₂}
use wirestead.Prelude.{
  ℕ, ◌+◌, ◌≤◌, ◌<◌, ◌≡◌, refl, sym, ap, ◌∙◌, true, false, List, [], ◌++◌, none, some, Bytes, length,
  take, drop, arith, ltb, le→ltb, lt→ltb, ltb→lt, if◌then◌else◌, Bool-cases, Option-cases, inl, inr,
  append-nil, append_assoc, length-append, length-take, drop-drop, drop-length_append, size_mod,
}
use wirestead.Framer.Search.{search, search-append_near, search-drop, search-le, shift}
use wirestead.Framer.Delivery.{Callback, NeverResets}
use wirestead.Framer.Line.{
  Config, LineFramer, is_empty, max_partial_length, skip_until_delimiter, drop_oversized,
  push_scanning, push_discarding, push_bytes_internal,
}
use wirestead.Framer.Line.Split.{
  message, messages, remainder, split_none, split_some, messages-append, remainder-append,
  remainder_open,
}
use wirestead.Framer.Line.Scan.{find_delimiter-search}
use wirestead.Framer.Line.Push.{
  holding, push_scanning_lem, is_empty-pos, is_empty-nil, is_empty-cons,
}

-- The bytes that the framer keeps of a begun message at most.
abbrev pub max_partial : Config → ℕ
max_partial c = max_partial_length c.max_length (length c.delimiter)

-- The framer after these messages and with this begun message: in the buffer, or discarded.
abbrev pub settled : LineFramer → List Bytes → Bytes → LineFramer
settled f ms rest =
    if ltb (max_partial f.config) (length rest)
    then record f { buffer = []; scanned_idx = 0; discarding = true; delivered = f.delivered ++ ms }
    else record f {
      buffer = rest;
      scanned_idx = length rest;
      discarding = false;
      delivered = f.delivered ++ ms;
    }

-- The framer after a stream.
abbrev pub after : LineFramer → Bytes → LineFramer
after f s = settled f (messages f.config [] s) (remainder f.config [] s)

drop_oversized-settled :
    (f : LineFramer) (b : Bytes) (i : ℕ) (sent ms : List Bytes) (rest : Bytes)
    → let g = record f {
      buffer = b;
      scanned_idx = i;
      discarding = false;
      delivered = f.delivered ++ sent;
    } in
      drop_oversized (holding g ms rest) ≡ settled f (sent ++ ms) rest
unfolding drop_oversized
drop_oversized-settled f b i sent ms rest = rw (append_assoc f.delivered sent ms)

module _ (cb : Callback) (quiet : NeverResets cb) (f : LineFramer) (set : f.on_message ≡ some cb)
    (pos : 0 < length f.delimiter) where
  -- A framer that holds the begun message `rest`, given more.
  scanning-settled :
      (sent : List Bytes) (rest bytes : Bytes)
      → search f.delimiter rest ≡ none
      → 0 < length bytes
      → push_scanning
          (record f {
            buffer = rest;
            scanned_idx = length rest;
            discarding = false;
            delivered = f.delivered ++ sent;
          })
          bytes
        ≡ some (settled f (sent ++ messages f.config rest bytes) (remainder f.config rest bytes))
  scanning-settled sent rest bytes closed some_bytes =
      push_scanning_lem cb quiet _ bytes set pos closed refl some_bytes
      ∙ ap some (
          drop_oversized-settled f rest (length rest) sent (messages f.config rest bytes)
            (remainder f.config rest bytes))

  after-append :
      (s bytes : Bytes)
      → settled f
          (messages f.config [] s ++ messages f.config (remainder f.config [] s) bytes)
          (remainder f.config (remainder f.config [] s) bytes)
        ≡ after f (s ++ bytes)
  after-append s bytes =
      ap₂ (settled f) (sym (messages-append f.config [] s bytes))
        (sym (remainder-append f.config [] s bytes))

  begun_open : (s : Bytes) → search f.delimiter (remainder f.config [] s) ≡ none
  unfolding search
  begun_open s = remainder_open f.config [] s refl

  -- A call while a begun message is held.
  pub push-held :
      (s bytes : Bytes)
      → ltb (max_partial f.config) (length (remainder f.config [] s)) ≡ false
      → 0 < length bytes
      → push_bytes_internal (after f s) bytes ≡ some (after f (s ++ bytes))
  unfolding push_bytes_internal
  push-held s bytes held some_bytes =
      rw (held, is_empty-pos bytes some_bytes, push_bytes_internal)
        (scanning-settled (messages f.config [] s) (remainder f.config [] s) bytes (begun_open s)
            some_bytes
          ∙ ap some (after-append s bytes))

max_partial_one :
    (c : Config) → length c.delimiter ≡ 1 → c.max_length < size_mod → max_partial c ≡ c.max_length
unfolding max_partial_length
max_partial_one c one h = ground arith

-- A one-byte delimiter is not split, so bytes before it can be passed over.
search_beyond :
    (d p bytes : Bytes)
    → length d ≡ 1
    → search d p ≡ none
    → search d (p ++ bytes) ≡ shift (length p) (search d bytes)
search_beyond d p bytes one closed =
    search-drop d (length p) (p ++ bytes) (omega (arith, length-append p bytes))
      (λ k found. omega (arith, search-append_near d p bytes {k = k} (omega arith) closed found))
    ∙ ap (λ b. shift (length p) (search d b)) (drop-length_append p bytes)

-- The end of an oversized message gives nothing.
message_oversized :
    (c : Config) (content : Bytes) → c.max_length < length content → message c content ≡ []
message_oversized c content h = rw (lt→ltb c.max_length (length content) h)

module _ (c : Config) (one : length c.delimiter ≡ 1) (p bytes : Bytes)
    (large : c.max_length < length p) (closed : search c.delimiter p ≡ none) where
  oversized_goes_on :
      search c.delimiter bytes ≡ none
      → (messages c p bytes ≡ []) × (remainder c p bytes ≡ p ++ bytes)
  oversized_goes_on nowhere =
      split_none c p bytes
        (search_beyond c.delimiter p bytes one closed ∙ ap (shift (length p)) nowhere)

  -- An oversized message ends at its delimiter, with nothing handed over.
  oversized_ends :
      {k : ℕ}
      → search c.delimiter bytes ≡ some k
      → let rest = drop (k + length c.delimiter) bytes in
        (messages c p bytes ≡ messages c [] rest) × (remainder c p bytes ≡ remainder c [] rest)
  oversized_ends {k} found =
      let at = search_beyond c.delimiter p bytes one closed ∙ ap (shift (length p)) found in
      let (ms, rest) = split_some c p bytes (omega arith) closed at in
      let size : c.max_length < length (take (length p + k) (p ++ bytes)) = omega (
        arith,
        length-take (length p + k) (p ++ bytes),
        length-append p bytes,
        search-le c.delimiter bytes found,
      ) in
      let behind : drop (length p + k + length c.delimiter) (p ++ bytes)
          ≡ drop (k + length c.delimiter) bytes =
        (let e : length p + k + length c.delimiter ≡ length p + (k + length c.delimiter) =
            omega arith in
          ap (λ i. drop i (p ++ bytes)) e)
        ∙ sym (drop-drop (length p) (k + length c.delimiter) (p ++ bytes))
        ∙ ap (drop (k + length c.delimiter)) (drop-length_append p bytes) in
      (
        ms ∙ ap₂ (λ m b. m ++ messages c [] b) (message_oversized c _ size) behind,
        rest ∙ ap (remainder c []) behind,
      )

-- The framer in discard mode.
abbrev lost : LineFramer → List Bytes → LineFramer
lost f sent = record f {
  buffer = [];
  scanned_idx = 0;
  discarding = true;
  delivered = f.delivered ++ sent;
}

discarding_goes_on :
    (f : LineFramer) (sent : List Bytes) (bytes : Bytes)
    → search f.delimiter bytes ≡ none
    → push_discarding (lost f sent) bytes ≡ some (lost f sent)
unfolding push_discarding skip_until_delimiter
discarding_goes_on f sent bytes nowhere =
    rw (find_delimiter-search f.delimiter bytes, nowhere, push_discarding, skip_until_delimiter)

settled-nil :
    (f : LineFramer) (sent : List Bytes)
    → record f { buffer = []; scanned_idx = 0; discarding = false; delivered = f.delivered ++ sent }
      ≡ settled f (sent ++ []) []
settled-nil f sent = rw (append-nil sent, le→ltb (max_partial f.config) 0 (omega arith))

discarding_ends :
    (cb : Callback) (f : LineFramer) (sent : List Bytes) (bytes : Bytes) {k : ℕ}
    → NeverResets cb
    → f.on_message ≡ some cb
    → 0 < length f.delimiter
    → search f.delimiter bytes ≡ some k
    → let rest = drop (k + length f.delimiter) bytes in
      push_discarding (lost f sent) bytes
      ≡ some (settled f (sent ++ messages f.config [] rest) (remainder f.config [] rest))
unfolding push_discarding skip_until_delimiter
discarding_ends cb f sent bytes {k} quiet set pos found =
    elim (Bool-cases (is_empty (drop (k + length f.delimiter) bytes))) [
      | inl empty ↦
          let nil = is_empty-nil (drop (k + length f.delimiter) bytes) empty in
          rw
            (
              find_delimiter-search f.delimiter bytes,
              found,
              nil,
              push_discarding,
              skip_until_delimiter,
            )
            (ap some (settled-nil f sent))
      | inr full ↦
          rw
            (
              find_delimiter-search f.delimiter bytes,
              found,
              full,
              push_discarding,
              skip_until_delimiter,
            )
            (scanning-settled cb quiet f set pos sent [] (drop (k + length f.delimiter) bytes)
              (unfold search in refl) (is_empty-cons _ full))
    ]

module _ (cb : Callback) (quiet : NeverResets cb) (f : LineFramer) (set : f.on_message ≡ some cb)
    (one : length f.delimiter ≡ 1) (bounded : f.max_length < size_mod) where
  settled-lost :
      (ms : List Bytes) (rest : Bytes)
      → ltb (max_partial f.config) (length rest) ≡ true
      → settled f ms rest ≡ lost f ms
  settled-lost ms rest h = rw h

  -- A call while a begun message is discarded.
  pub push-lost :
      (s bytes : Bytes)
      → ltb (max_partial f.config) (length (remainder f.config [] s)) ≡ true
      → 0 < length bytes
      → push_bytes_internal (after f s) bytes ≡ some (after f (s ++ bytes))
  unfolding push_bytes_internal
  push-lost s bytes long some_bytes =
      ap (λ g. push_bytes_internal g bytes) (settled-lost ms p long)
      ∙ rw (is_empty-pos bytes some_bytes, push_bytes_internal)
          (elim (Option-cases (search f.delimiter bytes)) [
            | inl nowhere ↦
                let (none_sent, all_left) =
                  oversized_goes_on f.config one p bytes large closed nowhere in
                discarding_goes_on f ms bytes nowhere
                ∙ ap some (
                    sym (
                      settled-lost ms (p ++ bytes)
                        (still_long (p ++ bytes) (omega (arith, length-append p bytes))))
                    ∙ ap₂ (settled f) (sym (append-nil ms) ∙ ap (◌++◌ ms) (sym none_sent))
                        (sym all_left)
                    ∙ after-append cb quiet f set pos s bytes)
            | inr (k, found) ↦
                let (sent, rest) = oversized_ends f.config one p bytes large closed found in
                discarding_ends cb f ms bytes quiet set pos found
                ∙ ap some (
                    ap₂ (settled f) (ap (◌++◌ ms) (sym sent)) (sym rest)
                    ∙ after-append cb quiet f set pos s bytes)
          ])
    where
      p : Bytes
      p = remainder f.config [] s

      ms : List Bytes
      ms = messages f.config [] s

      pos : 0 < length f.delimiter
      pos = omega arith

      closed : search f.delimiter p ≡ none
      closed = begun_open cb quiet f set pos s

      large : f.max_length < length p
      large = omega (arith, ltb→lt _ _ long, max_partial_one f.config one bounded)

      still_long : (b : Bytes) → length p ≤ length b → ltb (max_partial f.config) (length b) ≡ true
      still_long b h = lt→ltb _ _ (omega (arith, ltb→lt _ _ long))
