-- ===== src/Framer/Line/Scan.antt =====
-- scan_and_process hands over the messages that Split cuts off, and stops at what it leaves.
use wirestead.Prelude.{
  ℕ, zero, suc, ◌+◌, ◌-◌, ◌≤◌, ◌<◌, ◌≡◌, refl, sym, ap, ◌∙◌, Bool, false, ◌&&◌, List, [], ◌∷◌, ◌++◌,
  Option, none, some, Bytes, length, take, drop, arith, sub_size, le→ltb, Option-cases, inl, inr,
  append-nil, append_assoc, length-take, length-drop, drop-drop, min,
}
use wirestead.Framer.Search.{search, search-drop, search-le, search-take, shift, find_byte-search}
use wirestead.Framer.Delivery.{Callback, NeverResets}
use wirestead.Framer.Line.{
  LineFramer, is_empty, find_delimiter, deliver, emit, hand_over, scan, scan_and_process,
}
use wirestead.Framer.Line.Split.{message, messages, remainder, split_none, split_some}

-- The two ways to look for a delimiter agree.
pub find_delimiter-search : (d xs : Bytes) → find_delimiter d xs ≡ search d xs
unfolding find_delimiter
find_delimiter-search [] xs = refl
find_delimiter-search (x ∷ []) xs = find_byte-search x xs
find_delimiter-search (x ∷ y ∷ d) xs = refl

-- The framer after the messages have been handed over.
abbrev pub sends : LineFramer → List Bytes → LineFramer
sends f ms = record f { delivered = f.delivered ++ ms }

module _ (cb : Callback) (quiet : NeverResets cb) where
  emit_quiet :
      (f : LineFramer) (on_buffer : Bool) (bytes : Bytes) (processed k : ℕ)
      → f.on_message ≡ some cb
      → on_buffer && is_empty f.buffer ≡ false
      → search f.delimiter (drop processed bytes) ≡ some k
      → emit f on_buffer bytes processed (processed + k + length f.delimiter)
        ≡ (sends f (message f.config (take k (drop processed bytes))), false)
  unfolding emit hand_over deliver
  emit_quiet f on_buffer bytes processed k set keep found =
      let le = search-le f.delimiter (drop processed bytes) found in
      let size = length-take k (drop processed bytes) in
      let cut = search-take f.delimiter (drop processed bytes) found in
      let total : sub_size (processed + k + length f.delimiter) processed ≡ k + length f.delimiter =
        ground arith in
      let content : sub_size (k + length f.delimiter) (length f.delimiter) ≡ k = ground arith in
      ground (
        arith,
        set,
        append-nil f.delivered,
        quiet (f.delivered ++ take k (drop processed bytes) ∷ []),
        quiet (f.delivered ++ (take k (drop processed bytes) ++ f.delimiter) ∷ []),
      )

  -- What a scan from `processed` gives: all the messages, and where the rest begins.
  abbrev pub Scanned : LineFramer → Bytes → Bytes → Option (LineFramer × ℕ) → Type 0
  Scanned f bytes open_part r =
      (n : ℕ) × (r ≡ some (sends f (messages f.config [] open_part), n))
      × (n ≤ length bytes)
      × (drop n bytes ≡ remainder f.config [] open_part)

  scan_stop :
      (fuel : ℕ) (f : LineFramer) (on_buffer : Bool) (bytes : Bytes) (processed cursor : ℕ)
      → cursor ≤ length bytes
      → processed ≤ cursor
      → search f.delimiter (drop cursor bytes) ≡ none
      → search f.delimiter (drop processed bytes) ≡ none
      → Scanned f bytes (drop processed bytes) (scan (suc fuel) f on_buffer bytes processed cursor)
  unfolding scan
  scan_stop fuel f on_buffer bytes processed cursor room le here nowhere =
      let (m, r) = split_none f.config [] (drop processed bytes) nowhere in
      (
        processed,
        rw (
          le→ltb (length bytes) cursor room,
          find_delimiter-search f.delimiter (drop cursor bytes),
          here,
          scan,
          m,
          append-nil f.delivered,
        ),
        omega arith,
        sym r,
      )

  scan_step :
      (fuel : ℕ) (f : LineFramer) (on_buffer : Bool) (bytes : Bytes) (processed cursor j k : ℕ)
      → f.on_message ≡ some cb
      → on_buffer && is_empty f.buffer ≡ false
      → cursor ≤ length bytes
      → processed + k ≡ cursor + j
      → search f.delimiter (drop cursor bytes) ≡ some j
      → search f.delimiter (drop processed bytes) ≡ some k
      → let next = cursor + j + length f.delimiter in
        scan (suc fuel) f on_buffer bytes processed cursor
        ≡ scan fuel
            (sends f (message f.config (take k (drop processed bytes))))
            on_buffer
            bytes
            next
            next
  unfolding scan
  scan_step fuel f on_buffer bytes processed cursor j k set keep room same here found =
      let at : processed + k + length f.delimiter ≡ cursor + j + length f.delimiter = omega arith in
      let sent =
        ap (emit f on_buffer bytes processed) (sym at)
        ∙ emit_quiet f on_buffer bytes processed k set keep found in
      rw
        (
          le→ltb (length bytes) cursor room,
          find_delimiter-search f.delimiter (drop cursor bytes),
          here,
          scan,
          sent,
        )
        (ap
          (λ (r : LineFramer × Bool).
            scan fuel r.0 on_buffer bytes (cursor + j + length f.delimiter)
              (cursor + j + length f.delimiter))
          sent)

  -- The loop from `cursor`, where no match starts between `processed` and `cursor`.
  scan-Scanned :
      (fuel : ℕ) (f : LineFramer) (on_buffer : Bool) (bytes : Bytes) (processed cursor : ℕ)
      → f.on_message ≡ some cb
      → on_buffer && is_empty f.buffer ≡ false
      → 0 < length f.delimiter
      → processed ≤ cursor
      → cursor ≤ length bytes
      → length bytes < cursor + fuel
      → ((k : ℕ) → search f.delimiter (drop processed bytes) ≡ some k → cursor - processed ≤ k)
      → Scanned f bytes (drop processed bytes) (scan fuel f on_buffer bytes processed cursor)
  scan-Scanned zero f on_buffer bytes processed cursor set keep pos le room enough before =
      absurd (omega arith)
  scan-Scanned (suc fuel) f on_buffer bytes processed cursor set keep pos le room enough before =
      elim (Option-cases (search f.delimiter (drop cursor bytes))) [
        | inl here ↦
            scan_stop fuel f on_buffer bytes processed cursor room le here
              (later ∙ ap (shift (cursor - processed)) here)
        | inr (j, here) ↦
            let k : ℕ = cursor - processed + j in
            let found = later ∙ ap (shift (cursor - processed)) here in
            let next : ℕ = cursor + j + length f.delimiter in
            let m = message f.config (take k (drop processed bytes)) in
            let ends : next ≤ length bytes =
              omega
                (arith, search-le f.delimiter (drop cursor bytes) here, length-drop cursor bytes) in
            let (n, e, h, r) =
              scan-Scanned fuel (sends f m) on_buffer bytes next next set keep pos (omega arith)
                ends (omega arith) (λ i _. omega arith) in
            let (ms, rest) =
              split_some f.config [] (drop processed bytes) pos (unfold search in refl) found in
            let tail : drop (k + length f.delimiter) (drop processed bytes) ≡ drop next bytes =
              drop-drop processed (k + length f.delimiter) bytes
              ∙ (let e : processed + (k + length f.delimiter) ≡ next = omega arith in
                  ap (λ i. drop i bytes) e) in
            (
              n,
              scan_step fuel f on_buffer bytes processed cursor j k set keep room (omega arith) here
                    found
                  ∙ e
                  ∙ ap (λ l. some (record f { delivered = l }, n))
                      (append_assoc f.delivered m (messages f.config [] (drop next bytes))
                        ∙ ap (◌++◌ f.delivered)
                            (ap (λ b. m ++ messages f.config [] b) (sym tail) ∙ sym ms)),
              h,
              r ∙ ap (remainder f.config []) (sym tail) ∙ sym rest,
            )
      ]
    where
      later :
          search f.delimiter (drop processed bytes)
          ≡ shift (cursor - processed) (search f.delimiter (drop cursor bytes))
      later =
          search-drop f.delimiter (cursor - processed) (drop processed bytes)
            (omega (arith, length-drop processed bytes)) before
          ∙ ap (λ b. shift (cursor - processed) (search f.delimiter b))
              (drop-drop processed (cursor - processed) bytes
                ∙ (let e : processed + (cursor - processed) ≡ cursor = omega arith in
                    ap (λ i. drop i bytes) e))

  -- scan_and_process, started where no match starts before.
  pub scan_and_process-Scanned :
      (f : LineFramer) (on_buffer : Bool) (bytes : Bytes) (start : ℕ)
      → f.on_message ≡ some cb
      → on_buffer && is_empty f.buffer ≡ false
      → 0 < length f.delimiter
      → ((k : ℕ) → search f.delimiter bytes ≡ some k → start ≤ k)
      → Scanned f bytes bytes (scan_and_process f on_buffer bytes start)
  unfolding scan_and_process
  scan_and_process-Scanned f on_buffer bytes start set keep pos before =
      scan-Scanned (suc (length bytes)) f on_buffer bytes 0 (min start (length bytes)) set keep pos
        (omega arith) (omega arith) (omega arith) (λ k e. omega (arith, before k e))
