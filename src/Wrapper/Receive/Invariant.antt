-- ===== src/Wrapper/Receive/Invariant.antt =====
-- The receive budget, over any sequence of operations on its charges.
use wirestead.Prelude.{
  ℕ, ◌+◌, ◌-◌, ◌≤◌, ◌<◌, ◌≡◌, refl, sym, subst, ◌∙◌, true, List, [], ◌∷◌, ◌++◌, Option, none, some,
  ltb, leb, ◌==◌, if◌then◌else◌, add_size-small, size_mod, max, arith, Bool-cases, inl, inr, ltb→le,
}
use wirestead.Wrapper.Receive.{
  ReceiveLimits, ReceiveCharge, Budget, ReceiveOverflowReason, raised, acquire, reserve, release,
  set_scope, make, validate, destroy, merge, shrink, reset_stats, overflow,
}

-- What the charges of a scope hold, and all charges.
abbrev pub held_by : ℕ → List ReceiveCharge → ℕ
held_by i [] = 0
held_by i (c ∷ l) = (if i == c.scope then c.bytes else 0) + held_by i l

abbrev pub held : List ReceiveCharge → ℕ
held [] = 0
held (c ∷ l) = c.bytes + held l

held-append : (l m : List ReceiveCharge) → held (l ++ m) ≡ held l + held m
held-append [] m = omega arith
held-append (c ∷ l) m = omega (arith, held-append l m)

held_by-append : (i : ℕ) (l m : List ReceiveCharge) → held_by i (l ++ m) ≡ held_by i l + held_by i m
held_by-append i [] m = omega arith
held_by-append i (c ∷ l) m = omega (arith, held_by-append i l m)

held_by-le : (i : ℕ) (l : List ReceiveCharge) → held_by i l ≤ held l
held_by-le i [] = omega arith
held_by-le i (c ∷ l) = ground (arith, held_by-le i l)

-- The counters are what the charges hold, and the limit and the peak are kept.
pub record IsBudget (b : Budget) (charges : List ReceiveCharge) : Type 0 where
  pub counted : b.used ≡ held charges
  pub by_scope : (i : ℕ) → (b.scopes i).used ≡ held_by i charges
  pub within : b.used ≤ b.limits.max_bytes
  pub below_peak : b.used ≤ b.peak
  pub bounded : b.limits.max_bytes < size_mod

-- One operation: a charge is any of those that live, wherever they stand.
pub data Step : Budget × List ReceiveCharge → Budget × List ReceiveCharge → Type 0 where
  reserved :
      (b c : Budget) (charges : List ReceiveCharge) (i bytes : ℕ) (charge : ReceiveCharge)
      → reserve b i bytes ≡ some (c, charge)
      → Step (b, charges) (c, charge ∷ charges)
  destroyed :
      (b : Budget) (front back : List ReceiveCharge) (charge : ReceiveCharge)
      → Step (b, front ++ charge ∷ back) (destroy b charge, front ++ back)
  shrunk :
      (b c : Budget) (front back : List ReceiveCharge) (charge less : ReceiveCharge) (bytes : ℕ)
      → shrink b charge bytes ≡ some (c, less)
      → Step (b, front ++ charge ∷ back) (c, front ++ less ∷ back)
  -- `merge`, into the charge that stands first, and into the other.
  merged :
      (b : Budget) (front mid back : List ReceiveCharge) (c d c' d' : ReceiveCharge)
      → merge c d ≡ some (c', d')
      → Step (b, front ++ c ∷ (mid ++ d ∷ back)) (b, front ++ c' ∷ (mid ++ d' ∷ back))
  merged_back :
      (b : Budget) (front mid back : List ReceiveCharge) (c d c' d' : ReceiveCharge)
      → merge d c ≡ some (d', c')
      → Step (b, front ++ c ∷ (mid ++ d ∷ back)) (b, front ++ c' ∷ (mid ++ d' ∷ back))
  reset : (b : Budget) (charges : List ReceiveCharge) → Step (b, charges) (reset_stats b, charges)
  overflowed :
      (b : Budget) (charges : List ReceiveCharge) (reason : ReceiveOverflowReason) (bytes : ℕ)
      → Step (b, charges) (overflow b reason bytes, charges)

pub data Reach (s : Budget × List ReceiveCharge) : Budget × List ReceiveCharge → Type 0 where
  here : Reach s s
  next : {t u : Budget × List ReceiveCharge} → Reach s t → Step t u → Reach s u

-- A reservation succeeds exactly where the bytes are left, and then they are counted.
acquire-fits :
    (b : Budget) (bytes : ℕ)
    → b.used ≤ b.limits.max_bytes
    → b.limits.max_bytes < size_mod
    → acquire b bytes ≡ (
        if leb (b.used + bytes) b.limits.max_bytes
        then some (record b { used = b.used + bytes; peak = max b.peak (b.used + bytes) })
        else none)
unfolding acquire raised
acquire-fits b bytes within bounded = ground arith

release-IsBudget :
    (b : Budget) (front back : List ReceiveCharge) (c : ReceiveCharge) (bytes : ℕ)
    → bytes ≤ c.bytes
    → IsBudget b (front ++ c ∷ back)
    → IsBudget (release b c.scope bytes) (front ++ record c { bytes = c.bytes - bytes } ∷ back)
unfolding release set_scope
release-IsBudget b front back c bytes le v =
    let all = held-append front (c ∷ back) in
    record {
      counted =
          ground
            (arith, v.counted, held-append front (record c { bytes = c.bytes - bytes } ∷ back));
      by_scope = λ i. ground (
        arith,
        v.by_scope i,
        v.by_scope c.scope,
        held_by-append i front (c ∷ back),
        held_by-append c.scope front (c ∷ back),
        held_by-append i front (record c { bytes = c.bytes - bytes } ∷ back),
      );
      within = ground (arith, v.within, v.counted);
      below_peak = ground (arith, v.below_peak, v.counted);
      bounded = v.bounded;
    }

-- Charges that hold the same bytes leave the same invariant.
same-IsBudget :
    (b : Budget) (l m : List ReceiveCharge)
    → held l ≡ held m
    → ((i : ℕ) → held_by i l ≡ held_by i m)
    → IsBudget b l
    → IsBudget b m
same-IsBudget b l m e es v = record {
  counted = v.counted ∙ e;
  by_scope = λ i. v.by_scope i ∙ es i;
  within = v.within;
  below_peak = v.below_peak;
  bounded = v.bounded;
}

-- What is reserved is counted in the budget and in the scope.
abbrev ReserveValid : List ReceiveCharge → Option (Budget × ReceiveCharge) → Type 0
ReserveValid charges none = Unit
ReserveValid charges (some (c, charge)) = IsBudget c (charge ∷ charges)

reserve-ReserveValid :
    (b : Budget) (charges : List ReceiveCharge) (i bytes : ℕ)
    → IsBudget b charges
    → ReserveValid charges (reserve b i bytes)
unfolding reserve set_scope raised
reserve-ReserveValid b charges i bytes v =
    let fits = acquire-fits b bytes v.within v.bounded in
    elim (Bool-cases (leb (b.used + bytes) b.limits.max_bytes)) [
      | inr full ↦ rw (fits, full, reserve) tt
      | inl room ↦
          rw (fits, room, reserve)
            (record {
              counted = omega (arith, v.counted);
              by_scope = λ j. ground (
                arith,
                v.by_scope j,
                v.by_scope i,
                v.counted,
                held_by-le i charges,
                v.bounded,
                below room,
              );
              within = below room;
              below_peak = omega arith;
              bounded = v.bounded;
            })
    ]
  where
    below : leb (b.used + bytes) b.limits.max_bytes ≡ true → b.used + bytes ≤ b.limits.max_bytes
    below h = ground arith

destroy-IsBudget :
    (b : Budget) (front back : List ReceiveCharge) (c : ReceiveCharge)
    → IsBudget b (front ++ c ∷ back)
    → IsBudget (destroy b c) (front ++ back)
unfolding destroy
destroy-IsBudget b front back c v =
    let rest = record c { bytes = c.bytes - c.bytes } in
    same-IsBudget _ (front ++ rest ∷ back) (front ++ back)
      (omega (arith, held-append front (rest ∷ back), held-append front back))
      (λ i. ground (arith, held_by-append i front (rest ∷ back), held_by-append i front back))
      (release-IsBudget b front back c c.bytes (omega arith) v)

abbrev ShrinkValid :
    List ReceiveCharge → List ReceiveCharge → Option (Budget × ReceiveCharge) → Type 0
ShrinkValid front back none = Unit
ShrinkValid front back (some (c, charge)) = IsBudget c (front ++ charge ∷ back)

shrink-ShrinkValid :
    (b : Budget) (front back : List ReceiveCharge) (c : ReceiveCharge) (bytes : ℕ)
    → IsBudget b (front ++ c ∷ back)
    → ShrinkValid front back (shrink b c bytes)
unfolding shrink
shrink-ShrinkValid b front back c bytes v = elim (Bool-cases (ltb c.bytes bytes)) [
  | inl grown ↦ rw grown tt
  | inr less ↦
      let le = ltb→le c.bytes bytes less in
      let now = record c { bytes = c.bytes - (c.bytes - bytes) } in
      let new = record c { bytes = bytes } in
      rw less (
        same-IsBudget _ (front ++ now ∷ back) (front ++ new ∷ back)
          (omega (arith, held-append front (now ∷ back), held-append front (new ∷ back)))
          (λ i.
            ground
              (arith, le, held_by-append i front (now ∷ back), held_by-append i front (new ∷ back)))
          (release-IsBudget b front back c (c.bytes - bytes) (omega arith) v))
]

-- A merge moves bytes within a scope.
record Moved (c d c' d' : ReceiveCharge) : Type 0 where
  same : c.scope ≡ d.scope
  first : c'.scope ≡ c.scope
  second : d'.scope ≡ c.scope
  bytes : c'.bytes + d'.bytes ≡ c.bytes + d.bytes

abbrev MergeMoved : ReceiveCharge → ReceiveCharge → Option (ReceiveCharge × ReceiveCharge) → Type 0
MergeMoved c d none = Unit
MergeMoved c d (some (c', d')) = Moved c d c' d'

merge-MergeMoved : (c d : ReceiveCharge) → c.bytes + d.bytes < size_mod → MergeMoved c d (merge c d)
unfolding merge
merge-MergeMoved c d small = elim (Bool-cases (c.scope == d.scope)) [
  | inr other ↦ rw other tt
  | inl same ↦
      let scopes : c.scope ≡ d.scope = ground arith in
      let sum = add_size-small c.bytes d.bytes small in
      rw same
        (record { same = scopes; first = refl; second = sym scopes; bytes = omega (arith, sum) })
]

Moved-IsBudget :
    (b : Budget) (front mid back : List ReceiveCharge) (c d c' d' : ReceiveCharge)
    → Moved c d c' d'
    → IsBudget b (front ++ c ∷ (mid ++ d ∷ back))
    → IsBudget b (front ++ c' ∷ (mid ++ d' ∷ back))
Moved-IsBudget b front mid back c d c' d' m v =
    same-IsBudget b _ _
      (omega (
        arith,
        m.bytes,
        held-append front (c ∷ (mid ++ d ∷ back)),
        held-append mid (d ∷ back),
        held-append front (c' ∷ (mid ++ d' ∷ back)),
        held-append mid (d' ∷ back),
      ))
      (λ i. ground (
        arith,
        m.bytes,
        m.same,
        m.first,
        m.second,
        held_by-append i front (c ∷ (mid ++ d ∷ back)),
        held_by-append i mid (d ∷ back),
        held_by-append i front (c' ∷ (mid ++ d' ∷ back)),
        held_by-append i mid (d' ∷ back),
      ))
      v

two-small :
    (b : Budget) (front mid back : List ReceiveCharge) (c d : ReceiveCharge)
    → IsBudget b (front ++ c ∷ (mid ++ d ∷ back))
    → c.bytes + d.bytes < size_mod
two-small b front mid back c d v = omega (
  arith,
  v.counted,
  v.within,
  v.bounded,
  held-append front (c ∷ (mid ++ d ∷ back)),
  held-append mid (d ∷ back),
)

Moved-swap : {c d c' d' : ReceiveCharge} → Moved d c d' c' → Moved c d c' d'
Moved-swap m = record {
  same = sym m.same;
  first = m.second ∙ m.same;
  second = m.first ∙ m.same;
  bytes = omega (arith, m.bytes);
}

Step-IsBudget : {s t : Budget × List ReceiveCharge} → Step s t → IsBudget s.0 s.1 → IsBudget t.0 t.1
Step-IsBudget (reserved b c charges i bytes charge e) v =
    subst (ReserveValid charges) e (reserve-ReserveValid b charges i bytes v)
Step-IsBudget (destroyed b front back charge) v = destroy-IsBudget b front back charge v
Step-IsBudget (shrunk b c front back charge less bytes e) v =
    subst (ShrinkValid front back) e (shrink-ShrinkValid b front back charge bytes v)
Step-IsBudget (merged b front mid back c d c' d' e) v =
    Moved-IsBudget b front mid back c d c' d'
      (subst (MergeMoved c d) e (merge-MergeMoved c d (two-small b front mid back c d v))) v
Step-IsBudget (merged_back b front mid back c d c' d' e) v =
    let small = two-small b front mid back c d v in
    Moved-IsBudget b front mid back c d c' d'
      (Moved-swap (subst (MergeMoved d c) e (merge-MergeMoved d c (omega (arith, small))))) v
Step-IsBudget (reset b charges) v =
    unfold reset_stats in
    record {
      counted = v.counted;
      by_scope = v.by_scope;
      within = v.within;
      below_peak = omega arith;
      bounded = v.bounded;
    }
Step-IsBudget (overflowed b charges reason bytes) v =
    unfold overflow in
    record {
      counted = v.counted;
      by_scope = v.by_scope;
      within = v.within;
      below_peak = v.below_peak;
      bounded = v.bounded;
    }

-- Over any sequence of reservations, merges, shrinks and destructions of charges, resets of the
-- statistics and overflows, from a valid state: `used` of the budget is what the living charges
-- hold, `used` of each scope is what its charges hold, and both the byte limit and the peak are at
-- least that.
pub Reach-IsBudget :
    {s t : Budget × List ReceiveCharge} → IsBudget s.0 s.1 → Reach s t → IsBudget t.0 t.1
Reach-IsBudget v here = v
Reach-IsBudget v (next r step) = Step-IsBudget step (Reach-IsBudget v r)

abbrev MakeValid : Option Budget → Type 0
MakeValid none = Unit
MakeValid (some b) = IsBudget b []

make-MakeValid : (l : ReceiveLimits) → l.max_bytes < size_mod → MakeValid (make l)
unfolding make
make-MakeValid l bounded = elim (Bool-cases (validate l)) [
  | inr bad ↦ rw (bad, make) tt
  | inl good ↦
      rw (good, make)
        (record {
          counted = refl;
          by_scope = λ i. refl;
          within = omega arith;
          below_peak = omega arith;
          bounded = bounded;
        })
]

-- The constructor gives such a state.
pub make-IsBudget :
    (l : ReceiveLimits) (b : Budget) → l.max_bytes < size_mod → make l ≡ some b → IsBudget b []
make-IsBudget l b bounded e = subst MakeValid e (make-MakeValid l bounded)
