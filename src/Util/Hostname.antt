-- ===== src/Util/Hostname.antt =====
-- wirestead/util/input_validator.cc: hostnames and paths. A string is a list of character codes;
-- `isalnum` is that of the C locale. Addresses are parsed by Boost and are not here.
use wirestead.Prelude.{
  ℕ, zero, suc, ◌+◌, ◌≤◌, ◌<◌, ◌≡◌, refl, sym, ap, subst, ◌∙◌, Bool, true, false, not, ◌&&◌, ◌||◌,
  List, [], ◌∷◌, Option, none, some, Bytes, length, take, drop, ltb, leb, ◌==◌, if◌then◌else◌,
  arith, Bool-cases, Option-cases, inl, inr, length-drop, drop-drop,
}
use wirestead.Framer.Search.{find_byte, shift}

abbrev pub max_hostname_length : ℕ
max_hostname_length = 253

-- `MAX_UDS_PATH_LENGTH` on Linux.
abbrev pub max_uds_path_length : ℕ
max_uds_path_length = 107

abbrev is_digit : ℕ → Bool
is_digit c = leb 48 c && leb c 57

abbrev pub is_alnum : ℕ → Bool
is_alnum c = is_digit c || ((leb 65 c && leb c 90) || (leb 97 c && leb c 122))

abbrev pub all {ℓ} : {A : Type ℓ} → (A → Bool) → List A → Bool
all p [] = true
all p (x ∷ l) = p x && all p l

abbrev pub starts_with_hyphen : Bytes → Bool
starts_with_hyphen [] = false
starts_with_hyphen (c ∷ s) = c == b'-'

abbrev pub ends_with_hyphen : Bytes → Bool
ends_with_hyphen [] = false
ends_with_hyphen (c ∷ []) = c == b'-'
ends_with_hyphen (c ∷ d ∷ s) = ends_with_hyphen (d ∷ s)

-- What the loop asks of each label, and of the last.
unfoldable pub is_valid_label : Bytes → Bool
is_valid_label label =
    if length label == 0 || ltb 63 (length label)
    then false
    else if starts_with_hyphen label || ends_with_hyphen label
    then false
    else all (λ c. is_alnum c || c == b'-') label

-- `while ((end = hostname.find('.', start)) != npos)`, and what follows it; a label and its dot are
-- at least one character, so the length bounds the rounds.
unfoldable pub labels_valid : ℕ → Bytes → ℕ → Bool
labels_valid zero hostname start = false
labels_valid (suc fuel) hostname start =
    let rest = drop start hostname in
    elim (find_byte b'.' rest) [
      | none ↦ is_valid_label rest
      | some k ↦
          let others = labels_valid fuel hostname (start + k + 1) in
          if is_valid_label (take k rest) then others else false
    ]

unfoldable pub is_valid_hostname : Bytes → Bool
is_valid_hostname hostname =
    if length hostname == 0 || ltb max_hostname_length (length hostname)
    then false
    else if starts_with_hyphen hostname || ends_with_hyphen hostname
    then false
    else labels_valid (suc (length hostname)) hostname 0

unfoldable pub is_valid_uds_path : Bytes → Bool
is_valid_uds_path path =
    if length path == 0 || ltb max_uds_path_length (length path)
    then false
    else elim (find_byte 0 path) [ none ↦ true | some _ ↦ false ]

-- A character in front of the first label.
abbrev push : ℕ → List Bytes → List Bytes
push c [] = (c ∷ []) ∷ []
push c (label ∷ labels) = (c ∷ label) ∷ labels

-- The text between the dots.
abbrev pub labels : Bytes → List Bytes
labels [] = [] ∷ []
labels (c ∷ s) = if b'.' == c then [] ∷ labels s else push c (labels s)

-- What the first dot says of the labels.
abbrev Splits : Bytes → Option ℕ → Type 0
Splits s none = labels s ≡ s ∷ []
Splits s (some k) = (labels s ≡ take k s ∷ labels (drop (k + 1) s)) × (k < length s)

Splits-push :
    (c : ℕ) (s : Bytes) (o : Option ℕ)
    → (b'.' == c) ≡ false
    → Splits s o
    → Splits (c ∷ s) (shift 1 o)
Splits-push c s none other h = rw other (ap (push c) h)
Splits-push c s (some k) other (h, le) =
    let next : 1 + k ≡ suc k = omega arith in
    let behind : suc k + 1 ≡ suc (k + 1) = omega arith in
    rw (other, next, behind) (ap (push c) h, omega arith)

find_byte-Splits : (s : Bytes) → Splits s (find_byte b'.' s)
unfolding find_byte
find_byte-Splits [] = refl
find_byte-Splits (c ∷ s) = elim (Bool-cases (b'.' == c)) [
  | inl dot ↦ rw (dot, find_byte) (rw dot refl, omega arith)
  | inr other ↦
      rw (other, find_byte) (Splits-push c s (find_byte b'.' s) other (find_byte-Splits s))
]

labels_valid-all :
    (fuel : ℕ) (hostname : Bytes) (start : ℕ)
    → start ≤ length hostname
    → length hostname < start + fuel
    → labels_valid fuel hostname start ≡ all is_valid_label (labels (drop start hostname))
unfolding labels_valid
labels_valid-all zero hostname start room enough = absurd (omega arith)
labels_valid-all (suc fuel) hostname start room enough =
    let rest = drop start hostname in
    elim (Option-cases (find_byte b'.' rest)) [
      | inl nowhere ↦
          let split = subst (Splits rest) nowhere (find_byte-Splits rest) in
          rw (nowhere, split, labels_valid) (ground arith)
      | inr (k, found) ↦
          let split = subst (Splits rest) found (find_byte-Splits rest) in
          let size = length-drop start hostname in
          let at : start + k + 1 ≡ start + (k + 1) = omega arith in
          let ih =
            labels_valid-all fuel hostname (start + k + 1) (omega (arith, split.1, size))
              (omega arith) in
          let same = ap (λ n. drop n hostname) at ∙ sym (drop-drop start (k + 1) hostname) in
          rw (found, split.0, ih, same, labels_valid) (ground arith)
    ]

-- A name is accepted exactly if it has 1 to 253 characters, no hyphen at either end, and each
-- label between its dots has 1 to 63 characters, letters, digits and hyphens, with none of these at
-- either end: the loop sees every label, and none twice.
pub is_valid_hostname-labels :
    (hostname : Bytes)
    → is_valid_hostname hostname ≡ (
        (leb 1 (length hostname) && leb (length hostname) max_hostname_length)
        && (not (starts_with_hyphen hostname || ends_with_hyphen hostname)
            && all is_valid_label (labels hostname)))
unfolding is_valid_hostname
is_valid_hostname-labels hostname =
    let loop = labels_valid-all (suc (length hostname)) hostname 0 (omega arith) (omega arith) in
    rw loop (ground arith)
