-- ===== src/Framer/Search.antt =====
-- `std::search` and `memchr`, as the framers use them: the first place of a pattern. The lemmas
-- say how a search over a stream depends on the part of it that has arrived.
use wirestead.Prelude.{
  ℕ, zero, suc, ◌+◌, ◌≤◌, ◌<◌, ◌≡◌, refl, ap, ◌∙◌, Bool, true, false, ◌&&◌, [], ◌∷◌, ◌++◌, Option,
  none, some, Bytes, length, drop, take, arith, ◌==◌, if◌then◌else◌, Bool-cases, Option-cases, ltb,
  ltb→lt, ltb→le, ◌⊎◌, inl, inr,
}

-- The bytes begin with the pattern.
unfoldable pub starts_with : Bytes → Bytes → Bool
starts_with [] xs = true
starts_with (d ∷ ds) [] = false
starts_with (d ∷ ds) (x ∷ xs) = d == x && starts_with ds xs

abbrev pub shift : ℕ → Option ℕ → Option ℕ
shift n none = none
shift n (some k) = some (n + k)

-- The offset that `std::search` finds, `none` where it returns the end.
unfoldable pub search : Bytes → Bytes → Option ℕ
search pattern [] = none
search pattern (x ∷ xs) =
    if starts_with pattern (x ∷ xs) then some 0 else shift 1 (search pattern xs)

-- The offset that `memchr` finds.
unfoldable pub find_byte : ℕ → Bytes → Option ℕ
find_byte d [] = none
find_byte d (x ∷ xs) = if d == x then some 0 else shift 1 (find_byte d xs)

pub find_byte-search : (d : ℕ) (xs : Bytes) → find_byte d xs ≡ search (d ∷ []) xs
unfolding search find_byte starts_with
find_byte-search d [] = refl
find_byte-search d (x ∷ xs) = ground (arith, find_byte-search d xs)

pub starts_with-le : (p xs : Bytes) → starts_with p xs ≡ true → length p ≤ length xs
unfolding starts_with
starts_with-le [] xs h = omega arith
starts_with-le (d ∷ ds) [] h = cc
starts_with-le (d ∷ ds) (x ∷ xs) h = ground (arith, starts_with-le ds xs)

pub starts_with-append_le :
    (p xs ys : Bytes) → length p ≤ length xs → starts_with p (xs ++ ys) ≡ starts_with p xs
unfolding starts_with
starts_with-append_le [] xs ys h = refl
starts_with-append_le (d ∷ ds) [] ys h = absurd (omega arith)
starts_with-append_le (d ∷ ds) (x ∷ xs) ys h =
    ap (λ b. d == x && b) (starts_with-append_le ds xs ys (omega arith))

pub starts_with-append_true :
    (p xs ys : Bytes) → starts_with p xs ≡ true → starts_with p (xs ++ ys) ≡ true
starts_with-append_true p xs ys h = starts_with-append_le p xs ys (starts_with-le p xs h) ∙ h

-- Whether the pattern starts at an offset.
abbrev pub starts_at : Bytes → Bytes → ℕ → Bool
starts_at p xs k = starts_with p (drop k xs)

pub search-le : (p xs : Bytes) {k : ℕ} → search p xs ≡ some k → k + length p ≤ length xs
unfolding search
search-le p [] e = cc
search-le p (x ∷ xs) {k} e = elim (Bool-cases (starts_with p (x ∷ xs))) [
  | inl hit ↦ ground (arith, starts_with-le p (x ∷ xs) hit)
  | inr miss ↦ elim (Option-cases (search p xs)) [
    | inl nowhere ↦ ground arith
    | inr (j, found) ↦ let ih = search-le p xs found in ground arith
  ]
]

-- A match found early is not moved by what arrives later.
pub search-append : (p xs ys : Bytes) {k : ℕ} → search p xs ≡ some k → search p (xs ++ ys) ≡ some k
unfolding search
search-append p [] ys e = cc
search-append p (x ∷ xs) ys e = elim (Bool-cases (starts_with p (x ∷ xs))) [
  | inl hit ↦ ground (arith, starts_with-append_true p (x ∷ xs) ys hit)
  | inr miss ↦ elim (Option-cases (search p xs)) [
    | inl nowhere ↦ ground arith
    | inr (j, found) ↦
        let ih = search-append p xs ys found in
        let fits : length p ≤ length (x ∷ xs) = omega (arith, search-le p xs found) in
        let same = starts_with-append_le p (x ∷ xs) ys fits in ground arith
  ]
]

-- A match that ends within the front part was there before the rest arrived.
pub search-append_le :
    (p xs ys : Bytes) {k : ℕ}
    → search p (xs ++ ys) ≡ some k
    → 0 < length p
    → k + length p ≤ length xs
    → search p xs ≡ some k
unfolding search
search-append_le p [] ys e pos h = absurd (omega arith)
search-append_le p (x ∷ xs) ys {k} e pos h = elim (Bool-cases (starts_with p (x ∷ xs ++ ys))) [
  | inl hit ↦
      let at : k ≡ 0 = ground arith in
      let same = starts_with-append_le p (x ∷ xs) ys (omega arith) in ground arith
  | inr miss ↦ elim (Option-cases (search p (xs ++ ys))) [
    | inl nowhere ↦ ground arith
    | inr (j, found) ↦
        let at : k ≡ 1 + j = ground arith in
        let ih = search-append_le p xs ys found pos (omega arith) in
        let same = starts_with-append_le p (x ∷ xs) ys (omega arith) in ground arith
  ]
]

-- A search may start later, where no match starts before.
pub search-drop :
    (p : Bytes) (n : ℕ) (xs : Bytes)
    → n ≤ length xs
    → ((k : ℕ) → search p xs ≡ some k → n ≤ k)
    → search p xs ≡ shift n (search p (drop n xs))
unfolding search
search-drop p zero xs h before = shift_zero (search p xs)
  where
    shift_zero : (o : Option ℕ) → o ≡ shift 0 o
    shift_zero none = refl
    shift_zero (some k) = ap some (omega arith)
search-drop p (suc n) [] h before = absurd (omega arith)
search-drop p (suc n) (x ∷ xs) h before = elim (Bool-cases (starts_with p (x ∷ xs))) [
  | inl hit ↦ absurd (omega (arith, before 0 (rw hit)))
  | inr miss ↦ rw miss (
      ap (shift 1) (
        search-drop p n xs (omega arith)
          (λ k e. omega (arith, before (suc k) (rw (miss, e) (ap some (omega arith))))))
      ∙ shift-shift (search p (drop n xs)))
]
  where
    shift-shift : (o : Option ℕ) → shift 1 (shift n o) ≡ shift (suc n) o
    shift-shift none = refl
    shift-shift (some k) = ap some (omega arith)

-- The bytes before what arrived last hold no match, so a match starts near their end.
pub search-append_near :
    (p b xs : Bytes) {k : ℕ}
    → 0 < length p
    → search p b ≡ none
    → search p (b ++ xs) ≡ some k
    → length b < k + length p
search-append_near p b xs {k} pos nowhere e = go (Bool-cases (ltb (length b) (k + length p)))
  where
    go :
        (ltb (length b) (k + length p) ≡ true) ⊎ (ltb (length b) (k + length p) ≡ false)
        → length b < k + length p
    go (inl h) = ltb→lt _ _ h
    go (inr h) = cc (search-append_le p b xs e pos (ltb→le _ _ h))

pub starts_with-take : (p xs : Bytes) → starts_with p xs ≡ true → take (length p) xs ≡ p
unfolding starts_with
starts_with-take [] xs h = refl
starts_with-take (d ∷ ds) [] h = cc
starts_with-take (d ∷ ds) (x ∷ xs) h = ground (arith, starts_with-take ds xs)

-- What stands at a match is the pattern.
pub search-take :
    (p xs : Bytes) {k : ℕ} → search p xs ≡ some k → take (k + length p) xs ≡ take k xs ++ p
unfolding search
search-take p [] e = cc
search-take p (x ∷ xs) {k} e = elim (Bool-cases (starts_with p (x ∷ xs))) [
  | inl hit ↦
      let at : k ≡ 0 = ground arith in
      rw at (
        (let e : 0 + length p ≡ length p = omega arith in ap (λ n. take n (x ∷ xs)) e)
        ∙ starts_with-take p (x ∷ xs) hit)
  | inr miss ↦ elim (Option-cases (search p xs)) [
    | inl nowhere ↦ ground arith
    | inr (j, found) ↦
        let at : k ≡ suc j = ground arith in
        rw at (
          (let e : suc j + length p ≡ suc (j + length p) = omega arith in
            ap (λ n. take n (x ∷ xs)) e)
          ∙ ap (◌∷◌ x) (search-take p xs found))
  ]
]

pub search-starts_with :
    (p xs : Bytes) {k : ℕ} → search p xs ≡ some k → starts_with p (drop k xs) ≡ true
unfolding search
search-starts_with p [] e = cc
search-starts_with p (x ∷ xs) {k} e = elim (Bool-cases (starts_with p (x ∷ xs))) [
  | inl hit ↦ let at : k ≡ 0 = ground arith in rw at hit
  | inr miss ↦ elim (Option-cases (search p xs)) [
    | inl nowhere ↦ absurd (ground arith)
    | inr (j, found) ↦ let at : k ≡ suc j = ground arith in rw at (search-starts_with p xs found)
  ]
]

-- A match of some length is found in bytes that are not empty.
pub search-pos : (p xs : Bytes) {k : ℕ} → search p xs ≡ some k → 0 < length xs
unfolding search
search-pos p [] e = cc
search-pos p (x ∷ xs) e = omega arith
