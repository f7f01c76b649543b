-- ===== src/Framer/LengthPrefix.antt =====
-- wirestead/framer/length_prefix_framer.{hpp,cc}: frames with a length field in front.
-- A byte is a number below 256. `delivered` is the history of the calls of `on_message_`.
pub mod Encoding
pub mod RoundTrip
pub mod Bounds
use wirestead.Prelude.{
  ℕ, zero, suc, ◌+◌, ◌-◌, ◌*◌, ◌%◌, ◌<◌, ◌≡◌, Bool, true, false, not, ◌&&◌, List, [], ◌∷◌, ◌++◌,
  Option, none, some, Bytes, length, get_or, take, drop, ltb, ◌==◌, if◌then◌else◌, size_mod,
  sub_size, ◌>>=◌,
}
use wirestead.Framer.Delivery.{Callback}

pub data Endian : Type 0 where
  big little : Endian

-- The members that the constructor sets once.
pub record Config : Type 0 where
  pub prefix_bytes : ℕ
  pub endian : Endian
  pub max_length : ℕ
  pub length_includes_prefix : Bool

pub record LengthPrefixFramer : Type 0 where
  pub config : Config
  pub open config use *
  pub buffer : Bytes
  pub on_message : Option Callback
  pub delivered : List Bytes

-- The constructor; `none` is `std::invalid_argument`.
pub make : ℕ → Endian → ℕ → Bool → Option LengthPrefixFramer
make prefix_bytes endian max_length length_includes_prefix =
    if not (prefix_bytes == 1) && (not (prefix_bytes == 2) && not (prefix_bytes == 4))
    then none
    else if max_length == 0
    then none
    else some (record {
      config = record {
        prefix_bytes = prefix_bytes;
        endian = endian;
        max_length = max_length;
        length_includes_prefix = length_includes_prefix;
      };
      buffer = [];
      on_message = none;
      delivered = [];
    })

pub set_on_message : LengthPrefixFramer → Option Callback → LengthPrefixFramer
set_on_message f cb = record f { on_message = cb }

unfoldable pub reset : LengthPrefixFramer → LengthPrefixFramer
reset f = record f { buffer = [] }

-- `idx` of round `i`, of `prefix_bytes` rounds.
abbrev pub byte_index : Endian → ℕ → ℕ → ℕ → ℕ
byte_index big prefix_bytes offset i = offset + i
byte_index little prefix_bytes offset i = offset + (prefix_bytes - 1 - i)

-- The `for` loop, with `rounds` rounds left from round `i`. `(value << 8) | byte` is
-- `value * 256 + byte`, on a `uint64_t`.
pub read_value : Endian → ℕ → ℕ → Bytes → ℕ → ℕ → ℕ → ℕ
read_value endian prefix_bytes offset buffer zero i value = value
read_value endian prefix_bytes offset buffer (suc rounds) i value =
    read_value endian prefix_bytes offset buffer rounds (i + 1)
      (value * 256 % size_mod + get_or buffer (byte_index endian prefix_bytes offset i) 0)

-- `none` where the method returns false.
pub read_length : LengthPrefixFramer → ℕ → Option ℕ
read_length f offset =
    if ltb (sub_size (length f.buffer) offset) f.prefix_bytes
    then none
    else some (read_value f.endian f.prefix_bytes offset f.buffer f.prefix_bytes 0 0)

-- `payload_len`; `none` for a length shorter than the prefix that it counts.
pub payload_length : Config → ℕ → Option ℕ
payload_length c declared =
    if c.length_includes_prefix
    then (if ltb declared c.prefix_bytes then none else some (declared - c.prefix_bytes))
    else some declared

-- The call of `on_message_`, and the `reset()` that it may make.
pub deliver : LengthPrefixFramer → Bytes → LengthPrefixFramer
deliver f message = elim f.on_message [
  | none ↦ f
  | some cb ↦
      let sent = f.delivered ++ message ∷ [] in
      if cb sent then reset (record f { delivered = sent }) else record f { delivered = sent }
]

-- What follows the loop: the erase of what was consumed.
unfoldable pub erase : LengthPrefixFramer → ℕ → LengthPrefixFramer
erase f consumed = record f { buffer = drop consumed f.buffer }

-- What one round of `while (true)` does.
pub data Round : Type 0 where
  break : Round
  return : LengthPrefixFramer → Round
  continue : LengthPrefixFramer → ℕ → Round

-- Behind `on_message_`: `if (buffer_.empty()) return;`, checked only where there is a callback.
pub after_delivery : LengthPrefixFramer → Bytes → ℕ → Round
after_delivery f [] frame_end = elim f.on_message [
  | none ↦ continue f frame_end
  | some _ ↦ return f
]
after_delivery f (_ ∷ _) frame_end = continue f frame_end

pub take_frame : LengthPrefixFramer → ℕ → ℕ → Round
take_frame f consumed payload_len =
    let frame_end = consumed + f.prefix_bytes + payload_len in
    let payload = take payload_len (drop (consumed + f.prefix_bytes) f.buffer) in
    let g = deliver f payload in
    if ltb f.max_length payload_len
    then return (reset f)
    else if ltb (length f.buffer) frame_end
    then break
    else after_delivery g g.buffer frame_end

pub round : LengthPrefixFramer → ℕ → Round
round f consumed = elim (read_length f consumed) [
  | none ↦ break
  | some declared ↦ elim (payload_length f.config declared) [
    | none ↦ return (reset f)
    | some payload_len ↦ take_frame f consumed payload_len
  ]
]

-- `while (true)` on fuel, which `none` says ran out.
pub loop : ℕ → LengthPrefixFramer → ℕ → Option LengthPrefixFramer
loop zero f consumed = none
loop (suc fuel) f consumed = elim (round f consumed) [
  | break ↦ some (erase f consumed)
  | return g ↦ some g
  | continue g next ↦ loop fuel g next
]

-- A round takes at least the prefix from the buffer, so its length bounds the rounds.
pub push_bytes : LengthPrefixFramer → Bytes → Option LengthPrefixFramer
push_bytes f bytes =
    let g = record f { buffer = f.buffer ++ bytes } in loop (suc (length g.buffer)) g 0

-- A sequence of `push_bytes` calls.
pub push_all : LengthPrefixFramer → List Bytes → Option LengthPrefixFramer
push_all f [] = some f
push_all f (bytes ∷ rest) = do g ← push_bytes f bytes; push_all g rest
