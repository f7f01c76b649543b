-- ===== src/Framer/Line/Bounds.antt =====
-- push_bytes on any bytes, with any delimiter and any callback, also one that resets the framer:
-- it returns, and memory and messages are bounded.
use wirestead.Prelude.{
  ℕ, zero, suc, ◌+◌, ◌-◌, ◌≤◌, ◌<◌, ◌≡◌, refl, sym, ap, subst, ◌∙◌, Bool, true, false, ◌&&◌, [],
  ◌∷◌, ◌++◌, Option, none, some, Bytes, length, take, drop, arith, ltb, le→ltb, ltb→lt, ltb→le,
  if◌then◌else◌, Bool-cases, Option-cases, ◌⊎◌, inl, inr, length-take, length-drop, min, sub_size,
}
use wirestead.Framer.Delivery.{AtMost, Callback, Extends, Extends-refl, Extends-one, Extends-trans}
use wirestead.Framer.Search.{search, search-le}
use wirestead.Framer.Line.{
  Config, LineFramer, is_empty, reset, deliver, hand_over, emit, scan, scan_and_process,
  drop_oversized, append_bytes, resume_index, skip_until_delimiter, keep_unprocessed,
  erase_processed, push_fast, push_slow, push_scanning, push_discarding, push_bytes_internal,
  push_chunks, push_bytes, chunk_limit,
}
use wirestead.Framer.Line.Push.{is_empty-nil}
use wirestead.Framer.Line.Scan.{find_delimiter-search}
use wirestead.Framer.Line.Settle.{max_partial}

-- The longest message: the content and, where it is included, the delimiter.
abbrev pub message_limit : Config → ℕ
message_limit c = if c.include_delimiter then c.max_length + length c.delimiter else c.max_length

-- The configuration is kept, and what is handed over is bounded.
pub record Follows (f g : LineFramer) : Type 0 where
  pub same_config : g.config ≡ f.config
  pub extends : Extends (AtMost (message_limit f.config)) f.delivered g.delivered

Follows-refl : (f : LineFramer) → Follows f f
Follows-refl f = record {
  same_config = refl;
  extends = Extends-refl (AtMost (message_limit f.config)) f.delivered;
}

Follows-trans : {f g h : LineFramer} → Follows f g → Follows g h → Follows f h
Follows-trans {f} {g} {h} a b = record {
  same_config = b.same_config ∙ a.same_config;
  extends = Extends-trans a.extends (
      subst (λ (c : Config). Extends (AtMost (message_limit c)) g.delivered h.delivered)
        a.same_config b.extends);
}

-- A state of the buffer that later steps of the loop rely on.
abbrev Untouched : LineFramer → LineFramer → Type 0
Untouched f g = (g.buffer ≡ f.buffer) ⊎ (g.buffer ≡ [])

deliver-Follows :
    (f : LineFramer) (cb : Callback) (m : Bytes)
    → length m ≤ message_limit f.config
    → Follows f (deliver f cb m) × Untouched f (deliver f cb m)
unfolding deliver reset
deliver-Follows f cb m h = elim (Bool-cases (cb (f.delivered ++ m ∷ []))) [
  | inl resets ↦
      rw (resets, deliver)
        (record { same_config = refl; extends = Extends-one _ f.delivered m h }, inr refl)
  | inr quiet ↦
      rw (quiet, deliver)
        (record { same_config = refl; extends = Extends-one _ f.delivered m h }, inl refl)
]

hand_over-Follows :
    (f : LineFramer) (on_buffer : Bool) (m : Bytes)
    → length m ≤ message_limit f.config
    → Follows f (hand_over f on_buffer m).0 × Untouched f (hand_over f on_buffer m).0
unfolding hand_over
hand_over-Follows f on_buffer m h = elim (Option-cases f.on_message) [
  | inl unset ↦ subst (Good f) (sym (silent unset)) (Follows-refl f, inl refl)
  | inr (cb, set) ↦ subst (Good f) (sym (called cb set)) (deliver-Follows f cb m h)
]
  where
    Good : LineFramer → LineFramer × Bool → Type 0
    Good f r = Follows f r.0 × Untouched f r.0

    silent : f.on_message ≡ none → hand_over f on_buffer m ≡ (f, false)
    silent e = ground arith

    called :
        (cb : Callback)
        → f.on_message ≡ some cb
        → hand_over f on_buffer m ≡ (deliver f cb m, on_buffer && is_empty (deliver f cb m).buffer)
    called cb e = ground arith

emit-Follows :
    (f : LineFramer) (on_buffer : Bool) (bytes : Bytes) (processed match_end : ℕ)
    → processed + length f.delimiter ≤ match_end
    → Follows f (emit f on_buffer bytes processed match_end).0
      × Untouched f (emit f on_buffer bytes processed match_end).0
unfolding emit
emit-Follows f on_buffer bytes processed match_end h =
    let content : ℕ = match_end - processed - length f.delimiter in
    let total_is : sub_size match_end processed ≡ content + length f.delimiter = ground arith in
    let content_is : sub_size (content + length f.delimiter) (length f.delimiter) ≡ content =
      ground arith in
    elim (Bool-cases (ltb f.max_length content)) [
      | inl long ↦ rw (total_is, content_is, long, emit) (Follows-refl f, inl refl)
      | inr fits ↦
          rw (total_is, content_is, fits, emit)
            (hand_over-Follows f on_buffer _
              (short (content + length f.delimiter) content (ltb→le _ _ fits) refl))
    ]
  where
    short :
        (total content : ℕ)
        → content ≤ f.max_length
        → total ≡ content + length f.delimiter
        → length (take (if f.include_delimiter then total else content) (drop processed bytes))
          ≤ message_limit f.config
    short total content le e =
        let size =
          length-take (if f.include_delimiter then total else content) (drop processed bytes) in
        ground arith

-- A scan comes back with a place in the bytes, and a buffer that is as it was or empty.
abbrev ScanSafe : LineFramer → Bytes → Option (LineFramer × ℕ) → Type 0
ScanSafe f bytes r =
    (g : LineFramer) × (n : ℕ) × (r ≡ some (g, n))
    × (n ≤ length bytes)
    × Follows f g
    × Untouched f g

scan-ScanSafe :
    (fuel : ℕ) (f : LineFramer) (on_buffer : Bool) (bytes : Bytes) (processed cursor : ℕ)
    → 0 < length f.delimiter
    → processed ≤ cursor
    → cursor ≤ length bytes
    → length bytes < cursor + fuel
    → ScanSafe f bytes (scan fuel f on_buffer bytes processed cursor)
unfolding scan
scan-ScanSafe zero f on_buffer bytes processed cursor pos le room enough = absurd (omega arith)
scan-ScanSafe (suc fuel) f on_buffer bytes processed cursor pos le room enough =
    elim (Option-cases (search f.delimiter (drop cursor bytes))) [
      | inl nowhere ↦ (
        f,
        processed,
        rw (
          le→ltb (length bytes) cursor room,
          find_delimiter-search f.delimiter (drop cursor bytes),
          nowhere,
          scan,
        ),
        omega arith,
        Follows-refl f,
        inl refl,
      )
      | inr (k, found) ↦
          let next : ℕ = cursor + k + length f.delimiter in
          let ends : next ≤ length bytes =
            omega
              (arith, search-le f.delimiter (drop cursor bytes) found, length-drop cursor bytes) in
          let r = emit f on_buffer bytes processed next in
          let (follows, buffer) = emit-Follows f on_buffer bytes processed next (omega arith) in
          elim (Bool-cases r.1) [
            | inl cleared ↦ (r.0, 0, step k found ∙ rw cleared, omega arith, follows, buffer)
            | inr on ↦
                let (g, n, e, le', follows', buffer') =
                  scan-ScanSafe fuel r.0 on_buffer bytes next next
                    (subst (λ (c : Config). 0 < length c.delimiter) (sym follows.same_config) pos)
                    (omega arith) ends (omega arith) in
                (
                  g,
                  n,
                  step k found ∙ rw on e,
                  le',
                  Follows-trans follows follows',
                  untouched f r.0 g buffer buffer',
                )
          ]
    ]
  where
    step :
        (k : ℕ)
        → search f.delimiter (drop cursor bytes) ≡ some k
        → let next = cursor + k + length f.delimiter in
          let r = emit f on_buffer bytes processed next in
          scan (suc fuel) f on_buffer bytes processed cursor
          ≡ (elim r.1 [ true ↦ some (r.0, 0) | false ↦ scan fuel r.0 on_buffer bytes next next ])
    step k found = rw (
      le→ltb (length bytes) cursor room,
      find_delimiter-search f.delimiter (drop cursor bytes),
      found,
      scan,
    )

    untouched : (f g h : LineFramer) → Untouched f g → Untouched g h → Untouched f h
    untouched f g h a b = ground arith

-- A call that returns, keeps what Follows says, and leaves a bounded buffer.
abbrev pub Safe : LineFramer → Option LineFramer → Type 0
Safe f r = (g : LineFramer) × (r ≡ some g) × Follows f g × (length g.buffer ≤ max_partial f.config)

drop_oversized-Safe : (f : LineFramer) → Safe f (some (drop_oversized f))
unfolding drop_oversized
drop_oversized-Safe f = elim (Bool-cases (ltb (max_partial f.config) (length f.buffer))) [
  | inl long ↦ (
    record f { buffer = []; scanned_idx = 0; discarding = true },
    rw (long, drop_oversized),
    record { same_config = refl; extends = Extends-refl _ f.delivered },
    omega arith,
  )
  | inr short ↦ (f, rw (short, drop_oversized), Follows-refl f, ltb→le _ _ short)
]

Safe-trans : {f g : LineFramer} {r : Option LineFramer} → Follows f g → Safe g r → Safe f r
Safe-trans {f} {g} a (h, e, b, short) = (
  h,
  e,
  Follows-trans a b,
  subst (λ (c : Config). length h.buffer ≤ max_partial c) a.same_config short,
)

-- A change of the buffer alone.
rebuffered :
    (f : LineFramer) (b : Bytes) (i : ℕ) (d : Bool)
    → Follows f (record f { buffer = b; scanned_idx = i; discarding = d })
rebuffered f b i d = record { same_config = refl; extends = Extends-refl _ f.delivered }

keep_unprocessed-Safe :
    (f : LineFramer) (bytes : Bytes) (n : ℕ)
    → f.buffer ≡ []
    → Safe f (some (keep_unprocessed bytes (f, n)))
unfolding keep_unprocessed
keep_unprocessed-Safe f bytes n empty = elim (Bool-cases (ltb n (length bytes))) [
  | inl more ↦
      rw (more, keep_unprocessed)
        (Safe-trans (rebuffered f _ _ f.discarding) (drop_oversized-Safe _))
  | inr all ↦ (
    record f { scanned_idx = 0 },
    rw (all, keep_unprocessed),
    rebuffered f f.buffer 0 f.discarding,
    omega (arith, ap (λ b. length b) empty),
  )
]

erase_processed-Safe : (f : LineFramer) (n : ℕ) → Safe f (some (erase_processed (f, n)))
unfolding erase_processed
erase_processed-Safe f n = Safe-trans (rebuffered f _ _ f.discarding) (drop_oversized-Safe _)

push_fast-Safe :
    (f : LineFramer) (bytes : Bytes)
    → 0 < length f.delimiter
    → f.buffer ≡ []
    → Safe f (push_fast f bytes)
unfolding push_fast scan_and_process
push_fast-Safe f bytes pos empty =
    let (g, n, e, _, follows, buffer) =
      scan-ScanSafe (suc (length bytes)) f false bytes 0 (min 0 (length bytes)) pos (omega arith)
        (omega arith) (omega arith) in
    let gone : g.buffer ≡ [] = elim buffer [ inl same ↦ same ∙ empty | inr nil ↦ nil ] in
    rw (e, push_fast) (Safe-trans follows (keep_unprocessed-Safe g bytes n gone))

push_slow-Safe :
    (f : LineFramer) (bytes : Bytes) → 0 < length f.delimiter → Safe f (push_slow f bytes)
unfolding push_slow scan_and_process
push_slow-Safe f bytes pos =
    let whole = append_bytes f.buffer bytes 0 in
    let start : ℕ = min (resume_index f.scanned_idx (length f.delimiter)) (length whole) in
    let f' = record f { buffer = whole } in
    let (g, n, e, _, follows, _) =
      scan-ScanSafe (suc (length whole)) f' true whole 0 start pos (omega arith) (omega arith)
        (omega arith) in
    rw (e, push_slow)
      (Safe-trans (Follows-trans (rebuffered f whole f.scanned_idx f.discarding) follows)
        (erase_processed-Safe g n))

push_scanning-Safe :
    (f : LineFramer) (bytes : Bytes) → 0 < length f.delimiter → Safe f (push_scanning f bytes)
unfolding push_scanning
push_scanning-Safe f bytes pos = elim (Bool-cases (is_empty f.buffer)) [
  | inl empty ↦ rw (empty, push_scanning) (push_fast-Safe f bytes pos (is_empty-nil f.buffer empty))
  | inr full ↦ rw (full, push_scanning) (push_slow-Safe f bytes pos)
]

push_discarding-Safe :
    (f : LineFramer) (bytes : Bytes)
    → 0 < length f.delimiter
    → length f.buffer ≤ max_partial f.config
    → Safe f (push_discarding f bytes)
unfolding push_discarding
push_discarding-Safe f bytes pos short = elim (Option-cases (skip_until_delimiter f.config bytes)) [
  | inl nowhere ↦ (f, rw (nowhere, push_discarding), Follows-refl f, short)
  | inr (consumed, found) ↦
      let rest = drop consumed bytes in
      let g = record f { discarding = false } in
      let follows = rebuffered f f.buffer f.scanned_idx false in
      elim (Bool-cases (is_empty rest)) [
        | inl empty ↦ (g, rw (found, empty, push_discarding), follows, short)
        | inr more ↦
            rw (found, more, push_discarding) (Safe-trans follows (push_scanning-Safe g rest pos))
      ]
]

push_bytes_internal-Safe :
    (f : LineFramer) (bytes : Bytes)
    → 0 < length f.delimiter
    → length f.buffer ≤ max_partial f.config
    → Safe f (push_bytes_internal f bytes)
unfolding push_bytes_internal
push_bytes_internal-Safe f bytes pos short = elim (Bool-cases (is_empty bytes)) [
  | inl empty ↦ (f, rw (empty, push_bytes_internal), Follows-refl f, short)
  | inr more ↦ elim (Bool-cases f.discarding) [
    | inl on ↦ subst (Safe f) (sym (enter more true on)) (push_discarding-Safe f bytes pos short)
    | inr off ↦ subst (Safe f) (sym (enter more false off)) (push_scanning-Safe f bytes pos)
  ]
]
  where
    enter :
        is_empty bytes ≡ false
        → (b : Bool) → f.discarding ≡ b
        → push_bytes_internal f bytes
          ≡ (if b then push_discarding f bytes else push_scanning f bytes)
    enter more b e = ground arith

push_chunks-Safe :
    (fuel : ℕ) (f : LineFramer) (bytes : Bytes) (offset : ℕ)
    → 0 < length f.delimiter
    → length f.buffer ≤ max_partial f.config
    → length bytes ≤ offset + fuel
    → Safe f (push_chunks fuel f bytes offset)
unfolding push_chunks chunk_limit
push_chunks-Safe zero f bytes offset pos short enough =
    (f, rw (le→ltb offset (length bytes) (omega arith)), Follows-refl f, short)
push_chunks-Safe (suc fuel) f bytes offset pos short enough =
    elim (Bool-cases (ltb offset (length bytes))) [
      | inl more ↦
          let len : ℕ = min (length bytes - offset) (chunk_limit f.max_length) in
          let (g, e, follows, short') =
            push_bytes_internal-Safe f (take len (drop offset bytes)) pos short in
          rw (more, e, push_chunks)
            (Safe-trans follows (
              push_chunks-Safe fuel g bytes (offset + len)
                (subst (λ (c : Config). 0 < length c.delimiter) (sym follows.same_config) pos)
                (subst (λ (c : Config). length g.buffer ≤ max_partial c) (sym follows.same_config)
                  short')
                (omega (arith, ltb→lt _ _ more))))
      | inr done ↦ (f, rw (done, push_chunks), Follows-refl f, short)
    ]

-- For a framer with a delimiter and a buffer within its bound, any input and any callback, also
-- one that resets the framer: `push_bytes` returns, the configuration is kept, each message newly
-- delivered is within `message_limit`, and the buffer stays within its bound.
pub push_bytes-Safe :
    (f : LineFramer) (bytes : Bytes)
    → 0 < length f.delimiter
    → length f.buffer ≤ max_partial f.config
    → (g : LineFramer) × (push_bytes f bytes ≡ some g)
      × Follows f g
      × (length g.buffer ≤ max_partial f.config)
unfolding push_bytes
push_bytes-Safe f bytes pos short = elim (Bool-cases (is_empty bytes)) [
  | inl empty ↦ (f, rw (empty, push_bytes), Follows-refl f, short)
  | inr more ↦
      rw (more, push_bytes) (push_chunks-Safe (length bytes) f bytes 0 pos short (omega arith))
]
