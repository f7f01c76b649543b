-- ===== src/Diagnostics/Ledger/Sparse.antt =====
-- The sparse map of the ledger: what is found behind each write, and sums over its entries.
use wirestead.Prelude.{
  ℕ, ◌+◌, ◌<◌, ◌≤◌, ◌≡◌, refl, ◌∙◌, List, [], ◌∷◌, none, some, ◌==◌, if◌then◌else◌, arith,
  Bool-cases, inl, inr,
}
use wirestead.Diagnostics.Ledger.{Entry, find_sparse, set_sparse, erase_sparse}

-- Each key stands once, below a bound.
abbrev pub AreKeys : ℕ → List (ℕ × Entry) → Type 0
AreKeys base [] = Unit
AreKeys base ((k, e) ∷ m) = (k < base) × (find_sparse m k ≡ none) × AreKeys base m

abbrev pub sparse_sum : (Entry → ℕ) → List (ℕ × Entry) → ℕ
sparse_sum w [] = 0
sparse_sum w ((k, e) ∷ m) = w e + sparse_sum w m

pub find_sparse-above :
    (base : ℕ) (m : List (ℕ × Entry)) (id : ℕ)
    → AreKeys base m
    → base ≤ id
    → find_sparse m id ≡ none
unfolding find_sparse
find_sparse-above base [] id h le = refl
find_sparse-above base ((k, e) ∷ m) id h le = ground (arith, find_sparse-above base m id)

pub find_sparse-erase :
    (base : ℕ) (m : List (ℕ × Entry)) (id j : ℕ)
    → AreKeys base m
    → find_sparse (erase_sparse m id) j ≡ (if j == id then none else find_sparse m j)
unfolding find_sparse erase_sparse
find_sparse-erase base [] id j h = ground arith
find_sparse-erase base ((k, e) ∷ m) id j (lt, fresh, h) =
    ground (arith, find_sparse-erase base m id j h)

pub erase_sparse-AreKeys :
    (base : ℕ) (m : List (ℕ × Entry)) (id : ℕ) → AreKeys base m → AreKeys base (erase_sparse m id)
unfolding erase_sparse
erase_sparse-AreKeys base [] id h = tt
erase_sparse-AreKeys base ((k, e) ∷ m) id (lt, fresh, h) = elim (Bool-cases (k == id)) [
  | inl here ↦ rw here h
  | inr there ↦
      rw there
        (lt, find_sparse-erase base m id k h ∙ rw there fresh, erase_sparse-AreKeys base m id h)
]

pub sparse_sum-erase :
    (w : Entry → ℕ) (m : List (ℕ × Entry)) (id : ℕ) (e : Entry)
    → find_sparse m id ≡ some e
    → sparse_sum w (erase_sparse m id) + w e ≡ sparse_sum w m
unfolding find_sparse erase_sparse
sparse_sum-erase w [] id e h = cc
sparse_sum-erase w ((k, d) ∷ m) id e h = elim (Bool-cases (k == id)) [
  | inl here ↦ let same : d ≡ e = ground arith in rw (here, same) (omega arith)
  | inr there ↦ let ih = sparse_sum-erase w m id e (ground arith) in rw there (omega (arith, ih))
]

pub find_sparse-set :
    (m : List (ℕ × Entry)) (id j : ℕ) (d e : Entry)
    → find_sparse m id ≡ some d
    → find_sparse (set_sparse m id e) j ≡ (if j == id then some e else find_sparse m j)
unfolding find_sparse set_sparse
find_sparse-set [] id j d e h = cc
find_sparse-set ((k, c) ∷ m) id j d e h = elim (Bool-cases (k == id)) [
  | inl here ↦ rw here (ground arith)
  | inr there ↦ let ih = find_sparse-set m id j d e (ground arith) in rw there (ground (arith, ih))
]

pub set_sparse-AreKeys :
    (base : ℕ) (m : List (ℕ × Entry)) (id : ℕ) (d e : Entry)
    → find_sparse m id ≡ some d
    → AreKeys base m
    → AreKeys base (set_sparse m id e)
unfolding find_sparse set_sparse
set_sparse-AreKeys base [] id d e h a = tt
set_sparse-AreKeys base ((k, c) ∷ m) id d e h (lt, fresh, a) = elim (Bool-cases (k == id)) [
  | inl here ↦ rw here (lt, fresh, a)
  | inr there ↦
      let found : find_sparse m id ≡ some d = ground arith in
      rw there (
        lt,
        find_sparse-set m id k d e found ∙ rw there fresh,
        set_sparse-AreKeys base m id d e found a,
      )
]

pub sparse_sum-set :
    (w : Entry → ℕ) (m : List (ℕ × Entry)) (id : ℕ) (d e : Entry)
    → find_sparse m id ≡ some d
    → sparse_sum w (set_sparse m id e) + w d ≡ sparse_sum w m + w e
unfolding find_sparse set_sparse
sparse_sum-set w [] id d e h = cc
sparse_sum-set w ((k, c) ∷ m) id d e h = elim (Bool-cases (k == id)) [
  | inl here ↦ let same : c ≡ d = ground arith in rw (here, same) (omega arith)
  | inr there ↦ let ih = sparse_sum-set w m id d e (ground arith) in rw there (omega (arith, ih))
]
