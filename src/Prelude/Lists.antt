-- ===== src/Prelude/Lists.antt =====
-- Lists measured and indexed by native numbers, under the library's names; `do` over `Option`.
use Prim.Native.Nat.{ℕ, zero, suc, ◌+◌, ◌-◌, ◌≤◌, ◌<◌, min}
use mathlib.Core.Path.{◌≡◌, refl, sym, ap, ◌∙◌}
use mathlib.Core.List.{List, [], ◌∷◌, ◌++◌}
use mathlib.Core.Option.{Option, none, some}
use native.Mathlib.Omega.{arith}

abbrev pub Bytes : Type 0
Bytes = List ℕ

infixl 5 ◌>>=◌
abbrev pub ◌>>=◌ {ℓ κ} : {A : Type ℓ} {B : Type κ} → Option A → (A → Option B) → Option B
none >>= f = none
some a >>= f = f a

module _ {ℓ} {A : Type ℓ} where
  abbrev pub length : List A → ℕ
  length [] = 0
  length (x ∷ xs) = suc (length xs)

  abbrev pub get_or : List A → ℕ → A → A
  get_or [] i d = d
  get_or (x ∷ xs) zero d = x
  get_or (x ∷ xs) (suc i) d = get_or xs i d

  abbrev pub take : ℕ → List A → List A
  take zero xs = []
  take (suc n) [] = []
  take (suc n) (x ∷ xs) = x ∷ take n xs

  abbrev pub drop : ℕ → List A → List A
  drop zero xs = xs
  drop (suc n) [] = []
  drop (suc n) (x ∷ xs) = drop n xs

  abbrev pub flatten : List (List A) → List A
  flatten [] = []
  flatten (x ∷ xs) = x ++ flatten xs

  -- Every element satisfies the predicate.
  abbrev pub All {κ} : (A → Type κ) → List A → Type κ
  All P [] = Unit
  All P (x ∷ xs) = P x × All P xs

  pub All-append_right {κ} : (P : A → Type κ) (xs ys : List A) → All P (xs ++ ys) → All P ys
  All-append_right P [] ys h = h
  All-append_right P (x ∷ xs) ys h = All-append_right P xs ys h.1

  pub All-append {κ} : (P : A → Type κ) (xs ys : List A) → All P xs → All P ys → All P (xs ++ ys)
  All-append P [] ys h k = k
  All-append P (x ∷ xs) ys h k = (h.0, All-append P xs ys h.1 k)

  pub length-append : (xs ys : List A) → length (xs ++ ys) ≡ length xs + length ys
  length-append [] ys = omega arith
  length-append (x ∷ xs) ys = omega (arith, length-append xs ys)

  pub length-drop : (n : ℕ) (xs : List A) → length (drop n xs) ≡ length xs - n
  length-drop zero xs = omega arith
  length-drop (suc n) [] = omega arith
  length-drop (suc n) (x ∷ xs) = omega (arith, length-drop n xs)

  pub length-take : (n : ℕ) (xs : List A) → length (take n xs) ≡ min n (length xs)
  length-take zero xs = omega arith
  length-take (suc n) [] = omega arith
  length-take (suc n) (x ∷ xs) = omega (arith, length-take n xs)

  pub take-append-drop : (n : ℕ) (xs : List A) → take n xs ++ drop n xs ≡ xs
  take-append-drop zero xs = refl
  take-append-drop (suc n) [] = refl
  take-append-drop (suc n) (x ∷ xs) = rw (take-append-drop n xs)

  pub drop-nil : (n : ℕ) → drop n [] ≡ []
  drop-nil zero = refl
  drop-nil (suc n) = refl

  pub drop-drop : (m n : ℕ) (xs : List A) → drop n (drop m xs) ≡ drop (m + n) xs
  drop-drop zero n xs = ap (λ k. drop k xs) (omega arith)
  drop-drop (suc m) n [] = drop-nil n ∙ sym (drop-nil (suc m + n))
  drop-drop (suc m) n (x ∷ xs) =
      drop-drop m n xs
      ∙ (let e : suc (m + n) ≡ suc m + n = omega arith in ap (λ k. drop k (x ∷ xs)) e)

  pub drop-length_append : (xs ys : List A) → drop (length xs) (xs ++ ys) ≡ ys
  drop-length_append [] ys = refl
  drop-length_append (x ∷ xs) ys = drop-length_append xs ys

  pub take-length_append : (xs ys : List A) → take (length xs) (xs ++ ys) ≡ xs
  take-length_append [] ys = refl
  take-length_append (x ∷ xs) ys = ap (◌∷◌ x) (take-length_append xs ys)

  pub drop-append_le :
      (n : ℕ) (xs ys : List A) → n ≤ length xs → drop n (xs ++ ys) ≡ drop n xs ++ ys
  drop-append_le zero xs ys h = refl
  drop-append_le (suc n) [] ys h = absurd (omega arith)
  drop-append_le (suc n) (x ∷ xs) ys h = drop-append_le n xs ys (omega arith)

  pub take-append_le : (n : ℕ) (xs ys : List A) → n ≤ length xs → take n (xs ++ ys) ≡ take n xs
  take-append_le zero xs ys h = refl
  take-append_le (suc n) [] ys h = absurd (omega arith)
  take-append_le (suc n) (x ∷ xs) ys h = ap (◌∷◌ x) (take-append_le n xs ys (omega arith))

  pub get_or-drop : (m i : ℕ) (xs : List A) (d : A) → get_or xs (m + i) d ≡ get_or (drop m xs) i d
  get_or-drop zero i xs d = ap (λ k. get_or xs k d) (omega arith)
  get_or-drop (suc m) i [] d = refl
  get_or-drop (suc m) i (x ∷ xs) d =
      let e : suc m + i ≡ suc (m + i) = omega arith in
      ap (λ k. get_or (x ∷ xs) k d) e ∙ get_or-drop m i xs d

  pub get_or-append_lt :
      (i : ℕ) (xs ys : List A) (d : A) → i < length xs → get_or (xs ++ ys) i d ≡ get_or xs i d
  get_or-append_lt i [] ys d h = absurd (omega arith)
  get_or-append_lt zero (x ∷ xs) ys d h = refl
  get_or-append_lt (suc i) (x ∷ xs) ys d h = get_or-append_lt i xs ys d (omega arith)

  -- Two ways to split one list: the longer front part begins with the shorter one.
  pub append-split :
      (xs us : List A) {ys vs : List A}
      → xs ++ ys ≡ us ++ vs
      → length us ≤ length xs
      → (t : List A) × (xs ≡ us ++ t) × (t ++ ys ≡ vs)
  append-split xs [] e h = (xs, refl, e)
  append-split [] (u ∷ us) e h = absurd (omega arith)
  append-split (x ∷ xs) (u ∷ us) {ys = ys} {vs = vs} e h =
      let le : length us ≤ length xs = omega arith in
      let tails : xs ++ ys ≡ us ++ vs = cc in
      let same : x ≡ u = cc in
      let (t, p, q) = append-split xs us {ys = ys} {vs = vs} tails le in (t, cc, q)

  pub length-flatten_cons :
      (x : List A) (xs : List (List A)) → length (flatten (x ∷ xs)) ≡ length x + length (flatten xs)
  length-flatten_cons x xs = length-append x (flatten xs)

  pub ne-nil_of_pos : (xs : List A) → 0 < length xs → (x : A) × (rest : List A) × (xs ≡ x ∷ rest)
  ne-nil_of_pos [] h = absurd (omega arith)
  ne-nil_of_pos (x ∷ xs) h = (x, xs, refl)

  pub take_all : (n : ℕ) (xs : List A) → length xs ≤ n → take n xs ≡ xs
  take_all zero [] h = refl
  take_all zero (x ∷ xs) h = absurd (omega arith)
  take_all (suc n) [] h = refl
  take_all (suc n) (x ∷ xs) h = ap (◌∷◌ x) (take_all n xs (omega arith))

  pub take-nil : (n : ℕ) → take n [] ≡ []
  take-nil zero = refl
  take-nil (suc n) = refl

  pub take-add : (m n : ℕ) (xs : List A) → take m xs ++ take n (drop m xs) ≡ take (m + n) xs
  take-add zero n xs = ap (λ k. take k xs) (omega arith)
  take-add (suc m) n [] = take-nil n ∙ sym (take-nil (suc m + n))
  take-add (suc m) n (x ∷ xs) =
      ap (◌∷◌ x) (take-add m n xs)
      ∙ (let e : suc (m + n) ≡ suc m + n = omega arith in ap (λ k. take k (x ∷ xs)) e)
