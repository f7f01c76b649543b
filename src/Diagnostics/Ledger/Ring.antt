-- ===== src/Diagnostics/Ledger/Ring.antt =====
-- The ring of the ledger: its slots behind a write, a step of compact and a growth, and sums over
-- them.
use wirestead.Prelude.{
  ℕ, zero, suc, subst, ◌+◌, ◌-◌, ◌*◌, ◌%◌, ◌≤◌, ◌<◌, ◌≡◌, refl, ap, ◌∙◌, Bool, ◌==◌, ltb,
  if◌then◌else◌, arith, Bool-cases, ◌⊎◌, inl, inr, ltb→lt, ltb→le,
}
use native.Mathlib.Numerals.{unary_clauses}
use native.Mathlib.Nat.{mod-add-mod, mod-eq_of_lt, mod-eq-sub-mod}
use wirestead.Diagnostics.Ledger.{Entry, Ledger, slot_index, slot, set_slot, grow}

-- The index is in bounds: no write outside the vector.
pub record IsRing (l : Ledger) : Type 0 where
  pub fits : l.count ≤ l.capacity
  pub inside : 0 < l.capacity → l.head < l.capacity

slot_index-cases :
    (l : Ledger) (i : ℕ)
    → l.head < l.capacity
    → i < l.capacity
    → ((l.head + i < l.capacity) × (slot_index l i ≡ l.head + i))
      ⊎ ((l.capacity ≤ l.head + i) × (slot_index l i ≡ l.head + i - l.capacity))
unfolding slot_index
slot_index-cases l i h le = elim (Bool-cases (ltb (l.head + i) l.capacity)) [
  | inl under ↦ let lt = ltb→lt _ _ under in inl (lt, mod-eq_of_lt lt)
  | inr over ↦
      let ge = ltb→le _ _ over in
      inr (
        ge,
        mod-eq-sub-mod {n = l.head + i} {m = l.capacity} ge
            ∙ mod-eq_of_lt {n = l.head + i - l.capacity} {m = l.capacity} (omega arith),
      )
]

slot_index-inj :
    (l : Ledger) (i j : ℕ)
    → l.head < l.capacity
    → i < l.capacity
    → j < l.capacity
    → (slot_index l j == slot_index l i) ≡ (j == i)
slot_index-inj l i j h li lj = ground (arith, slot_index-cases l i h li, slot_index-cases l j h lj)

pub slot-set_slot :
    (l : Ledger) (i j : ℕ) (e : Entry)
    → l.head < l.capacity
    → i < l.capacity
    → j < l.capacity
    → slot (set_slot l i e) j ≡ (if j == i then e else slot l j)
unfolding slot set_slot slot_index
slot-set_slot l i j e h li lj =
    let same = slot_index-inj l i j h li lj in
    ap (λ (b : Bool). if b then e else slot l j) (unfold slot_index in same)

-- A step of compact moves the window on.
pub slot-advanced :
    (l : Ledger) (count base i : ℕ)
    → slot (record l { head = (l.head + 1) % l.capacity; count = count; base = base }) i
      ≡ slot l (i + 1)
unfolding slot slot_index
slot-advanced l count base i =
    ap l.slots
      (mod-add-mod (l.head + 1) l.capacity i ∙ ap (λ (n : ℕ). n % l.capacity) (omega arith))

pub slot-grow : (l : Ledger) (j : ℕ) → IsRing l → j < l.count → slot (grow l) j ≡ slot l j
unfolding slot slot_index grow
slot-grow l j r lt =
    let fits = r.fits in
    let small : (0 + j) % (if l.capacity == 0 then 16 else l.capacity * 2) ≡ 0 + j =
      mod-eq_of_lt (ground arith) in
    rw small (ground arith)

-- The sum of a weight over the live entries of `n` slots.
abbrev pub live_weight : (Entry → ℕ) → Entry → ℕ
live_weight w e = if e.live then w e else 0

unfoldable pub ring_sum : (Entry → ℕ) → Ledger → ℕ → ℕ → ℕ
ring_sum w l i zero = 0
ring_sum w l i (suc n) = live_weight w (slot l i) + ring_sum w l (i + 1) n

-- It reads the slots only.
pub ring_sum-ext :
    (w : Entry → ℕ) (l m : Ledger) (i k n : ℕ)
    → ((j : ℕ) → j < n → slot l (i + j) ≡ slot m (k + j))
    → ring_sum w l i n ≡ ring_sum w m k n
unfolding ring_sum
ring_sum-ext w l m i k zero same = refl
ring_sum-ext w l m i k (suc n) same =
    let here : slot l (i + 0) ≡ slot m (k + 0) = same 0 (omega arith) in
    let first : slot l i ≡ slot m k = simp unary_clauses at here in
    let ih = ring_sum-ext w l m (i + 1) (k + 1) n (λ j lt.
      let at : i + (1 + j) ≡ i + 1 + j = omega arith in
      let to : k + (1 + j) ≡ k + 1 + j = omega arith in
      subst (λ (x : ℕ). slot l x ≡ slot m (k + 1 + j)) at
        (subst (λ (y : ℕ). slot l (i + (1 + j)) ≡ slot m y) to (same (1 + j) (omega arith)))) in
    rw first (ap (λ r. live_weight w (slot m k) + r) ih)

-- A write at a slot of the range swaps its weight.
pub ring_sum-set_slot :
    (w : Entry → ℕ) (l : Ledger) (i n j : ℕ) (e : Entry)
    → IsRing l
    → i ≤ j
    → j < i + n
    → i + n ≤ l.capacity
    → ring_sum w (set_slot l j e) i n + live_weight w (slot l j)
      ≡ ring_sum w l i n + live_weight w e
unfolding ring_sum
ring_sum-set_slot w l i zero j e r ge lt cap = omega arith
ring_sum-set_slot w l i (suc n) j e r ge lt cap =
    let h = r.inside (omega arith) in
    let first = slot-set_slot l j i e h (omega arith) (omega arith) in
    elim (Bool-cases (i == j)) [
      | inl same ↦
          let rest = ring_sum-ext w (set_slot l j e) l (i + 1) (i + 1) n (λ k lk.
            slot-set_slot l j (i + 1 + k) e h (omega arith) (omega arith) ∙ (ground arith)) in
          let eq : i ≡ j = ground arith in rw (first, same, rest, eq) (omega arith)
      | inr apart ↦
          let ih =
            ring_sum-set_slot w l (i + 1) n j e r (ground arith) (omega arith) (omega arith) in
          rw (first, apart) (omega (arith, ih))
    ]
