-- ===== src/Framer/Line/Split.antt =====
-- What LineFramer is to compute: a stream cut at its delimiters, byte by byte, with no buffer
-- management.
use wirestead.Prelude.{
  ℕ, ◌+◌, ◌<◌, ◌≡◌, refl, sym, ap, ◌∙◌, List, [], ◌∷◌, ◌++◌, Option, none, some, Bytes, length,
  take, drop, arith, ltb, if◌then◌else◌, Option-cases, inl, inr, append-nil, append_assoc,
  length-append, take-append_le, drop-length_append,
}
use mathlib.Core.Path.{ap₂}
use wirestead.Framer.Search.{search, search-append, search-append_near, search-le}
use wirestead.Framer.Line.{Config}

-- What a message with this content is handed over as: nothing above `max_length`.
abbrev pub message : Config → Bytes → List Bytes
message c content =
    if ltb c.max_length (length content)
    then []
    else (if c.include_delimiter then content ++ c.delimiter else content) ∷ []

-- The messages that end within `bytes`, behind the begun message `partial`: a message ends as
-- soon as a delimiter stands in what has been read of it.
abbrev pub messages : Config → Bytes → Bytes → List Bytes
messages c partial [] = []
messages c partial (x ∷ bytes) = elim (search c.delimiter (partial ++ x ∷ [])) [
  | none ↦ messages c (partial ++ x ∷ []) bytes
  | some k ↦ message c (take k (partial ++ x ∷ [])) ++ messages c [] bytes
]

-- The message that is begun and not ended.
abbrev pub remainder : Config → Bytes → Bytes → Bytes
remainder c partial [] = partial
remainder c partial (x ∷ bytes) = elim (search c.delimiter (partial ++ x ∷ [])) [
  | none ↦ remainder c (partial ++ x ∷ []) bytes
  | some k ↦ remainder c [] bytes
]

none-ne-some {ℓ} : {A : Type ℓ} {a : A} → ◌≡◌ {A = Option A} none (some a) → ⊥
none-ne-some e = cc

module _ (c : Config) where
  -- Reading on from what is left is reading the whole.
  pub messages-append :
      (partial xs ys : Bytes)
      → messages c partial (xs ++ ys)
        ≡ messages c partial xs ++ messages c (remainder c partial xs) ys
  messages-append partial [] ys = refl
  messages-append partial (x ∷ xs) ys =
      elim (Option-cases (search c.delimiter (partial ++ x ∷ []))) [
        | inl nowhere ↦
            rw (nowhere, messages, remainder) (messages-append (partial ++ x ∷ []) xs ys)
        | inr (k, found) ↦
            rw (found, messages, remainder)
              (ap (◌++◌ (message c (take k (partial ++ x ∷ [])))) (messages-append [] xs ys)
                ∙ sym (append_assoc (message c (take k (partial ++ x ∷ []))) _ _))
      ]

  pub remainder-append :
      (partial xs ys : Bytes)
      → remainder c partial (xs ++ ys) ≡ remainder c (remainder c partial xs) ys
  remainder-append partial [] ys = refl
  remainder-append partial (x ∷ xs) ys =
      elim (Option-cases (search c.delimiter (partial ++ x ∷ []))) [
        | inl nowhere ↦ rw (nowhere, remainder) (remainder-append (partial ++ x ∷ []) xs ys)
        | inr (k, found) ↦ rw (found, remainder) (remainder-append [] xs ys)
      ]

  -- No delimiter stands in a begun message.
  pub remainder_open :
      (partial xs : Bytes)
      → search c.delimiter partial ≡ none
      → search c.delimiter (remainder c partial xs) ≡ none
  remainder_open partial [] h = h
  remainder_open partial (x ∷ xs) h = elim (Option-cases (search c.delimiter (partial ++ x ∷ []))) [
    | inl nowhere ↦ rw (nowhere, remainder) (remainder_open (partial ++ x ∷ []) xs nowhere)
    | inr (k, found) ↦ rw (found, remainder) (remainder_open [] xs (unfold search in refl))
  ]

  -- Bytes with no delimiter are all left.
  pub split_none :
      (partial xs : Bytes)
      → search c.delimiter (partial ++ xs) ≡ none
      → (messages c partial xs ≡ []) × (remainder c partial xs ≡ partial ++ xs)
  split_none partial [] h = (refl, sym (append-nil partial))
  split_none partial (x ∷ xs) h = elim (Option-cases (search c.delimiter (partial ++ x ∷ []))) [
    | inl nowhere ↦
        let (m, r) =
          split_none (partial ++ x ∷ []) xs
            (ap (search c.delimiter) (append_assoc partial (x ∷ []) xs) ∙ h) in
        (rw (nowhere, messages) m, rw (nowhere, remainder) (r ∙ append_assoc partial (x ∷ []) xs))
    | inr (k, found) ↦ absurd (none-ne-some (sym h ∙ early k found))
  ]
    where
      early :
          (k : ℕ)
          → search c.delimiter (partial ++ x ∷ []) ≡ some k
          → search c.delimiter (partial ++ x ∷ xs) ≡ some k
      early k found =
          ap (search c.delimiter) (sym (append_assoc partial (x ∷ []) xs))
          ∙ search-append c.delimiter (partial ++ x ∷ []) xs found

  -- The first delimiter ends the begun message, and the rest is read afresh.
  pub split_some :
      (partial xs : Bytes) {k : ℕ}
      → 0 < length c.delimiter
      → search c.delimiter partial ≡ none
      → search c.delimiter (partial ++ xs) ≡ some k
      → let behind = drop (k + length c.delimiter) (partial ++ xs) in
        (messages c partial xs ≡ message c (take k (partial ++ xs)) ++ messages c [] behind)
        × (remainder c partial xs ≡ remainder c [] behind)
  split_some partial [] pos h e =
      absurd (none-ne-some (sym h ∙ ap (search c.delimiter) (sym (append-nil partial)) ∙ e))
  split_some partial (x ∷ xs) {k} pos h e =
      elim (Option-cases (search c.delimiter (partial ++ x ∷ []))) [
        | inl nowhere ↦
            let ih =
              split_some (partial ++ x ∷ []) xs pos nowhere
                (ap (search c.delimiter) (append_assoc partial (x ∷ []) xs) ∙ e) in
            let same = append_assoc partial (x ∷ []) xs in
            (
              rw (nowhere, messages)
                  (ih.0
                    ∙ ap
                        (λ w.
                          message c (take k w) ++ messages c [] (drop (k + length c.delimiter) w))
                        same),
              rw (nowhere, remainder)
                  (ih.1 ∙ ap (λ w. remainder c [] (drop (k + length c.delimiter) w)) same),
            )
        | inr (j, found) ↦
            let here = ends j found in
            (
              rw (found, messages)
                  (ap₂ (λ u v. message c u ++ messages c [] v) (sym here.0) (sym here.1)),
              rw (found, remainder) (ap (remainder c []) (sym here.1)),
            )
      ]
    where
      ends :
          (j : ℕ)
          → search c.delimiter (partial ++ x ∷ []) ≡ some j
          → (take k (partial ++ x ∷ xs) ≡ take j (partial ++ x ∷ []))
            × (drop (k + length c.delimiter) (partial ++ x ∷ xs) ≡ xs)
      ends j found =
          let same = append_assoc partial (x ∷ []) xs in
          let early = search-append c.delimiter (partial ++ x ∷ []) xs found in
          let found_same : some k ≡ some j = sym e ∙ ap (search c.delimiter) (sym same) ∙ early in
          let at : k ≡ j = cc in
          let up = search-le c.delimiter (partial ++ x ∷ []) found in
          let low = search-append_near c.delimiter partial (x ∷ []) pos h found in
          let size = length-append partial (x ∷ []) in
          let stop : k + length c.delimiter ≡ length (partial ++ x ∷ []) = omega arith in
          (
            ap (λ n. take n (partial ++ x ∷ xs)) at
                ∙ ap (take j) (sym same)
                ∙ take-append_le j (partial ++ x ∷ []) xs (omega arith),
            ap (drop (k + length c.delimiter)) (sym same)
                ∙ ap (λ n. drop n ((partial ++ x ∷ []) ++ xs)) stop
                ∙ drop-length_append (partial ++ x ∷ []) xs,
          )
