-- ===== src/Framer/Delivery.antt =====
-- wirestead/framer/iframer.hpp: the message callback, and what a framer hands over to it.
use wirestead.Prelude.{
  ℕ, ◌≤◌, ◌≡◌, refl, sym, ap, ◌∙◌, Bool, false, List, [], ◌∷◌, ◌++◌, Bytes, length, All, All-append,
  append-nil, append_assoc,
}

-- `MessageCallback`: it sees the messages delivered so far, its own last; the result says whether
-- it calls `reset()`.
abbrev pub Callback : Type 0
Callback = List Bytes → Bool

-- A callback that never calls `reset()`.
abbrev pub NeverResets : Callback → Type 0
NeverResets cb = (sent : List Bytes) → cb sent ≡ false

-- The messages delivered on the way from `old` to `new`, each of which satisfies `P`.
pub record Extends (P : Bytes → Type 0) (old new : List Bytes) : Type 0 where
  pub sent : List Bytes
  pub gives : new ≡ old ++ sent
  pub each : All P sent

-- At most this long.
abbrev pub AtMost : ℕ → Bytes → Type 0
AtMost n m = length m ≤ n

pub Extends-refl : (P : Bytes → Type 0) (old : List Bytes) → Extends P old old
Extends-refl P old = record { sent = []; gives = sym (append-nil old); each = tt }

pub Extends-one :
    (P : Bytes → Type 0) (old : List Bytes) (m : Bytes) → P m → Extends P old (old ++ m ∷ [])
Extends-one P old m h = record { sent = m ∷ []; gives = refl; each = (h, tt) }

pub Extends-trans :
    {P : Bytes → Type 0} {a b c : List Bytes} → Extends P a b → Extends P b c → Extends P a c
Extends-trans {P} {a} e f = record {
  sent = e.sent ++ f.sent;
  gives = f.gives ∙ ap (λ (l : List Bytes). l ++ f.sent) e.gives ∙ append_assoc a e.sent f.sent;
  each = All-append P e.sent f.sent e.each f.each;
}

All-map :
    {P Q : Bytes → Type 0}
    → ((m : Bytes) → P m → Q m)
    → (sent : List Bytes) → All P sent
    → All Q sent
All-map h [] all = tt
All-map h (m ∷ sent) (p, all) = (h m p, All-map h sent all)

pub Extends-map :
    {P Q : Bytes → Type 0} {old new : List Bytes}
    → ((m : Bytes) → P m → Q m)
    → Extends P old new
    → Extends Q old new
Extends-map h e = record { sent = e.sent; gives = e.gives; each = All-map h e.sent e.each }
