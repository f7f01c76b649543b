-- ===== src/Framer/LengthPrefix/Encoding.antt =====
-- The wire format that LengthPrefixFramer reads: a length field in either byte order, and frames.
use wirestead.Prelude.{
  ℕ, zero, suc, ◌+◌, ◌/◌, ◌%◌, ◌^◌, ◌≤◌, ◌<◌, ◌≡◌, refl, sym, ap, subst, ◌∙◌, ◌⊎◌, inl, inr, List,
  [], ◌∷◌, ◌++◌, some, Bytes, length, get_or-drop, drop, arith, if◌then◌else◌, length-append,
}
use wirestead.Framer.LengthPrefix.{Endian, big, little, Config, read_value, payload_length}

-- The width of a length field that the constructor takes.
abbrev pub IsWidth : ℕ → Type 0
IsWidth k = (k ≡ 1) ⊎ ((k ≡ 2) ⊎ (k ≡ 4))

-- `n` in `k` bytes, highest first.
abbrev pub be_bytes : ℕ → ℕ → Bytes
be_bytes zero n = []
be_bytes (suc k) n = (n / 256 ^ k % 256) ∷ be_bytes k n

-- `n` in `k` bytes, lowest first.
abbrev pub le_bytes : ℕ → ℕ → Bytes
le_bytes zero n = []
le_bytes (suc k) n = (n % 256) ∷ le_bytes k (n / 256)

abbrev pub encode : Endian → ℕ → ℕ → Bytes
encode big k n = be_bytes k n
encode little k n = le_bytes k n

length-be_bytes : (k n : ℕ) → length (be_bytes k n) ≡ k
length-be_bytes zero n = refl
length-be_bytes (suc k) n = ap suc (length-be_bytes k n)

length-le_bytes : (k n : ℕ) → length (le_bytes k n) ≡ k
length-le_bytes zero n = refl
length-le_bytes (suc k) n = ap suc (length-le_bytes k (n / 256))

pub length-encode : (e : Endian) (k n : ℕ) → length (encode e k n) ≡ k
length-encode big k n = length-be_bytes k n
length-encode little k n = length-le_bytes k n

module _ (offset n : ℕ) (buffer tail : Bytes) where
  read_one :
      (e : Endian)
      → n < 256
      → drop offset buffer ≡ encode e 1 n ++ tail
      → read_value e 1 offset buffer 1 0 0 ≡ n
  unfolding read_value
  read_one big h d = rw (get_or-drop offset 0 buffer 0, d) (omega arith)
  read_one little h d = rw (get_or-drop offset 0 buffer 0, d) (omega arith)

  read_two :
      (e : Endian)
      → n < 256 ^ 2
      → drop offset buffer ≡ encode e 2 n ++ tail
      → read_value e 2 offset buffer 2 0 0 ≡ n
  unfolding read_value
  read_two big h d =
      rw (get_or-drop offset 0 buffer 0, get_or-drop offset 1 buffer 0, d) (omega arith)
  read_two little h d =
      rw (get_or-drop offset 0 buffer 0, get_or-drop offset 1 buffer 0, d) (omega arith)

  read_four :
      (e : Endian)
      → n < 256 ^ 4
      → drop offset buffer ≡ encode e 4 n ++ tail
      → read_value e 4 offset buffer 4 0 0 ≡ n
  unfolding read_value
  read_four big h d =
      rw
        (
          get_or-drop offset 0 buffer 0,
          get_or-drop offset 1 buffer 0,
          get_or-drop offset 2 buffer 0,
          get_or-drop offset 3 buffer 0,
          d,
        )
        (omega arith)
  read_four little h d =
      rw
        (
          get_or-drop offset 0 buffer 0,
          get_or-drop offset 1 buffer 0,
          get_or-drop offset 2 buffer 0,
          get_or-drop offset 3 buffer 0,
          d,
        )
        (omega arith)

-- The loop over the bytes of a length field gives back the number that was written.
pub read_value-encode :
    (e : Endian) (k offset n : ℕ) (buffer tail : Bytes)
    → IsWidth k
    → n < 256 ^ k
    → drop offset buffer ≡ encode e k n ++ tail
    → read_value e k offset buffer k 0 0 ≡ n
read_value-encode e k offset n buffer tail w = elim w [
  | inl p ↦
      subst
        (λ (k : ℕ).
          n < 256 ^ k
          → drop offset buffer ≡ encode e k n ++ tail
          → read_value e k offset buffer k 0 0 ≡ n)
        (sym p) (read_one offset n buffer tail e)
  | inr (inl p) ↦
      subst
        (λ (k : ℕ).
          n < 256 ^ k
          → drop offset buffer ≡ encode e k n ++ tail
          → read_value e k offset buffer k 0 0 ≡ n)
        (sym p) (read_two offset n buffer tail e)
  | inr (inr p) ↦
      subst
        (λ (k : ℕ).
          n < 256 ^ k
          → drop offset buffer ≡ encode e k n ++ tail
          → read_value e k offset buffer k 0 0 ≡ n)
        (sym p) (read_four offset n buffer tail e)
]

-- What the length field of a payload holds.
abbrev pub declared_length : Config → Bytes → ℕ
declared_length c payload =
    if c.length_includes_prefix then length payload + c.prefix_bytes else length payload

-- A payload behind its length field.
abbrev pub frame : Config → Bytes → Bytes
frame c payload = encode c.endian c.prefix_bytes (declared_length c payload) ++ payload

abbrev pub frames : Config → List Bytes → Bytes
frames c [] = []
frames c (p ∷ ps) = frame c p ++ frames c ps

-- A payload that the framer accepts and whose length fits the field.
abbrev pub Fits : Config → Bytes → Type 0
Fits c p = (length p ≤ c.max_length) × (declared_length c p < 256 ^ c.prefix_bytes)

pub length-frame : (c : Config) (p : Bytes) → length (frame c p) ≡ c.prefix_bytes + length p
length-frame c p =
    length-append (encode c.endian c.prefix_bytes (declared_length c p)) p
    ∙ ap (λ (k : ℕ). k + length p) (length-encode c.endian c.prefix_bytes (declared_length c p))

pub payload_length-declared :
    (c : Config) (p : Bytes) → payload_length c (declared_length c p) ≡ some (length p)
unfolding payload_length
payload_length-declared c p = ground arith
