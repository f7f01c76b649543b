-- ===== src/Framer/Packet/Rounds.antt =====
-- A packet as the source cuts it out of the bytes, and what one round of the slow path does.
use wirestead.Prelude.{
  ℕ, ◌+◌, ◌-◌, ◌≤◌, ◌<◌, ◌≡◌, refl, sym, ap, subst, ◌∙◌, true, false, [], ◌∷◌, ◌++◌, none, some,
  Bytes, length, take, drop, arith, Bool-cases, Option-cases, inl, inr, length-take, append_assoc,
  take-add, drop-drop,
}
use wirestead.Framer.Delivery.{Callback, Extends, Extends-refl, Extends-one, Extends-trans}
use wirestead.Framer.Search.{search, starts_with, starts_with-take, search-take}
use wirestead.Framer.Packet.{State, sync, Config, PacketFramer, is_empty, reset, deliver}

-- A packet: the start pattern alone where there is no end pattern, else a body between the two,
-- within the maximal length.
pub data IsPacket (c : Config) (m : Bytes) : Type 0 where
  start_only : c.end_pattern ≡ [] → m ≡ c.start_pattern → IsPacket c m
  enclosed :
      (body : Bytes)
      → m ≡ c.start_pattern ++ (body ++ c.end_pattern)
      → length m ≤ c.max_length
      → IsPacket c m

pub is_empty-nil : (b : Bytes) → is_empty b ≡ true → b ≡ []
is_empty-nil [] h = refl
is_empty-nil (x ∷ b) h = cc

pub is_empty-cons : (b : Bytes) → is_empty b ≡ false → 0 < length b
is_empty-cons [] h = cc
is_empty-cons (x ∷ b) h = omega arith

-- What is cut at an end pattern found at or behind the start pattern.
packet_cut :
    (s e b : Bytes) (x j : ℕ)
    → starts_with s b ≡ true
    → search e (drop x (drop (length s) b)) ≡ some j
    → take (length s + (x + (j + length e))) b
      ≡ s ++ ((take x (drop (length s) b) ++ take j (drop x (drop (length s) b))) ++ e)
packet_cut s e b x j front found =
    let rest = drop (length s) b in
    sym (take-add (length s) (x + (j + length e)) b)
    ∙ ap (λ t. t ++ take (x + (j + length e)) rest) (starts_with-take s b front)
    ∙ ap (◌++◌ s) (
        sym (take-add x (j + length e) rest)
        ∙ ap (◌++◌ (take x rest)) (search-take e (drop x rest) found)
        ∙ sym (append_assoc (take x rest) (take j (drop x rest)) e))

-- At a start pattern, what is cut at the first end pattern from an offset behind it is a packet.
pub cut-IsPacket :
    (c : Config) (b : Bytes) (offset j n : ℕ)
    → starts_with c.start_pattern b ≡ true
    → length c.start_pattern ≤ offset
    → search c.end_pattern (drop offset b) ≡ some j
    → n ≡ offset + j + length c.end_pattern
    → n ≤ c.max_length
    → IsPacket c (take n b)
cut-IsPacket c b offset j n front le found e fits =
    let x : ℕ = offset - length c.start_pattern in
    let at : length c.start_pattern + x ≡ offset = omega arith in
    let found' : search c.end_pattern (drop x (drop (length c.start_pattern) b)) ≡ some j =
      ap (search c.end_pattern) (drop-drop (length c.start_pattern) x b ∙ ap (λ i. drop i b) at)
      ∙ found in
    let size : n ≡ length c.start_pattern + (x + (j + length c.end_pattern)) = omega arith in
    enclosed _
      (ap (λ i. take i b) size ∙ packet_cut c.start_pattern c.end_pattern b x j front found')
      (omega (arith, length-take n b))

-- The configuration is kept, and all that is handed over are packets.
pub record Follows (f g : PacketFramer) : Type 0 where
  pub same_config : g.config ≡ f.config
  pub extends : Extends (IsPacket f.config) f.delivered g.delivered

pub Follows-refl : (f : PacketFramer) → Follows f f
Follows-refl f = record {
  same_config = refl;
  extends = Extends-refl (IsPacket f.config) f.delivered;
}

pub Follows-trans : {f g h : PacketFramer} → Follows f g → Follows g h → Follows f h
Follows-trans {f} {g} {h} a b = record {
  same_config = b.same_config ∙ a.same_config;
  extends = Extends-trans a.extends (
      subst (λ (c : Config). Extends (IsPacket c) g.delivered h.delivered) a.same_config b.extends);
}

pub rebuffered :
    (f : PacketFramer) (b : Bytes) (s : State) (i : ℕ)
    → Follows f (record f { buffer = b; state = s; scanned_idx = i })
rebuffered f b s i = record {
  same_config = refl;
  extends = Extends-refl (IsPacket f.config) f.delivered;
}

-- Behind a callback the framer is reset, or its buffer and state are as they were.
pub data Untouched (f g : PacketFramer) : Type 0 where
  kept : g.buffer ≡ f.buffer → g.state ≡ f.state → g.scanned_idx ≡ f.scanned_idx → Untouched f g
  cleared : g.buffer ≡ [] → g.state ≡ sync → g.scanned_idx ≡ 0 → Untouched f g

pub deliver-Follows :
    (f : PacketFramer) (m : Bytes)
    → IsPacket f.config m
    → Follows f (deliver f m) × Untouched f (deliver f m)
unfolding deliver reset
deliver-Follows f m h = elim (Option-cases f.on_message) [
  | inl unset ↦ subst (Good f) (sym (silent unset)) (Follows-refl f, kept refl refl refl)
  | inr (cb, set) ↦ elim (Bool-cases (cb (f.delivered ++ m ∷ []))) [
    | inl resets ↦ subst (Good f) (sym (called_resets cb set resets)) (
      record { same_config = refl; extends = Extends-one _ f.delivered m h },
      cleared refl refl refl,
    )
    | inr quiet ↦ subst (Good f) (sym (called_quiet cb set quiet)) (
      record { same_config = refl; extends = Extends-one _ f.delivered m h },
      kept refl refl refl,
    )
  ]
]
  where
    Good : PacketFramer → PacketFramer → Type 0
    Good f g = Follows f g × Untouched f g

    silent : f.on_message ≡ none → deliver f m ≡ f
    silent e = ground arith

    called_resets :
        (cb : Callback)
        → f.on_message ≡ some cb
        → cb (f.delivered ++ m ∷ []) ≡ true
        → deliver f m ≡ record f {
          delivered = f.delivered ++ m ∷ [];
          buffer = [];
          state = sync;
          scanned_idx = 0;
        }
    called_resets cb e h = ground arith

    called_quiet :
        (cb : Callback)
        → f.on_message ≡ some cb
        → cb (f.delivered ++ m ∷ []) ≡ false
        → deliver f m ≡ record f { delivered = f.delivered ++ m ∷ [] }
    called_quiet cb e h = ground arith
