-- ===== src/Framer/Packet.antt =====
-- wirestead/framer/packet_framer.{hpp,cc}: packets between a start and an end pattern.
-- A byte is a number below 256. `delivered` is the history of the calls of `on_message_`.
pub mod Rounds
pub mod Bounds
pub mod Calls
use wirestead.Prelude.{
  ℕ, zero, suc, ◌+◌, ◌-◌, ◌*◌, Bool, true, false, not, ◌&&◌, List, [], ◌∷◌, ◌++◌, Option, none,
  some, Bytes, length, take, drop, ltb, leb, if◌then◌else◌, max, ◌>>=◌,
}
use wirestead.Framer.Delivery.{Callback}
use wirestead.Framer.Search.{search, starts_with}

pub data State : Type 0 where
  sync collect : State

-- The members that the constructor sets once.
pub record Config : Type 0 where
  pub start_pattern : Bytes
  pub end_pattern : Bytes
  pub max_length : ℕ

pub record PacketFramer : Type 0 where
  pub config : Config
  pub open config use *
  pub state : State
  pub buffer : Bytes
  pub on_message : Option Callback
  pub scanned_idx : ℕ
  pub delivered : List Bytes

abbrev pub is_empty : Bytes → Bool
is_empty [] = true
is_empty (_ ∷ _) = false

abbrev pub is_sync : State → Bool
is_sync sync = true
is_sync collect = false

-- The constructor; `none` is `std::invalid_argument`.
unfoldable pub make : Bytes → Bytes → ℕ → Option PacketFramer
make start_pattern end_pattern max_length =
    if is_empty start_pattern && is_empty end_pattern
    then none
    else some (record {
      config = record {
        start_pattern = start_pattern;
        end_pattern = end_pattern;
        max_length = max_length;
      };
      state = sync;
      buffer = [];
      on_message = none;
      scanned_idx = 0;
      delivered = [];
    })

unfoldable pub set_on_message : PacketFramer → Option Callback → PacketFramer
set_on_message f cb = record f { on_message = cb }

unfoldable pub reset : PacketFramer → PacketFramer
reset f = record f { buffer = []; state = sync; scanned_idx = 0 }

-- The call of `on_message_`, and the `reset()` that it may make.
unfoldable pub deliver : PacketFramer → Bytes → PacketFramer
deliver f message = elim f.on_message [
  | none ↦ f
  | some cb ↦
      let sent = f.delivered ++ message ∷ [] in
      if cb sent then reset (record f { delivered = sent }) else record f { delivered = sent }
]

-- The bytes that may be the front of a start pattern.
unfoldable pub keep_length : Config → ℕ
keep_length c = if ltb 1 (length c.start_pattern) then length c.start_pattern - 1 else 0

-- Where `processed_count` stands if no start pattern is found behind it.
unfoldable pub skip_unmatched : Config → Bytes → ℕ → ℕ
skip_unmatched c bytes processed =
    if ltb (keep_length c) (length bytes - processed)
    then length bytes - keep_length c
    else processed

-- The rest of a round of the fast path, from a start pattern at `start_idx`: the framer, the
-- new `processed_count`, and whether the loop goes on.
unfoldable pub fast_packet : PacketFramer → Bytes → ℕ → PacketFramer × ℕ × Bool
fast_packet f bytes start_idx =
    let s = length f.start_pattern in
    if is_empty f.end_pattern
    then (deliver f (take s (drop start_idx bytes)), start_idx + s, true)
    else elim (search f.end_pattern (drop (start_idx + s) bytes)) [
      | none ↦ (f, start_idx, false)
      | some j ↦
          let packet_len = start_idx + s + j + length f.end_pattern - start_idx in
          (
            (if leb packet_len f.max_length
                then deliver f (take packet_len (drop start_idx bytes))
                else f),
            start_idx + packet_len,
            true,
          )
    ]

-- `while (processed_count < data.size())`, on fuel: `none` says that it ran out.
unfoldable pub fast_loop : ℕ → PacketFramer → Bytes → ℕ → Option (PacketFramer × ℕ)
fast_loop zero f bytes processed = none
fast_loop (suc fuel) f bytes processed =
    if leb (length bytes) processed
    then some (f, processed)
    else elim (search f.start_pattern (drop processed bytes)) [
      | none ↦ some (f, skip_unmatched f.config bytes processed)
      | some i ↦
          let r = fast_packet f bytes (processed + i) in
          elim r.2 [ true ↦ fast_loop fuel r.0 bytes r.1 | false ↦ some (r.0, r.1) ]
    ]

-- `state_` and `scanned_idx_` behind the append: a partial packet is to be collected.
unfoldable pub enter_collect : PacketFramer → PacketFramer
enter_collect f =
    if is_sync f.state
      && not (is_empty f.buffer)
      && (leb (length f.start_pattern) (length f.buffer) && starts_with f.start_pattern f.buffer)
    then record f { state = collect; scanned_idx = length f.start_pattern }
    else f

-- The cap on a packet that is being collected.
unfoldable pub cap_collected : PacketFramer → PacketFramer
cap_collected f = elim f.state [
  | sync ↦ f
  | collect ↦
      if ltb f.max_length (length f.buffer)
      then record f { buffer = []; state = sync; scanned_idx = 0 }
      else f
]

-- What the fast path does behind its loop.
unfoldable pub keep_unprocessed : Bytes → PacketFramer × ℕ → PacketFramer
keep_unprocessed bytes (f, processed) =
    if ltb processed (length bytes)
    then cap_collected (enter_collect (record f { buffer = f.buffer ++ drop processed bytes }))
    else f

unfoldable pub push_fast : PacketFramer → Bytes → Option PacketFramer
push_fast f bytes = do r ← fast_loop (suc (length bytes)) f bytes 0; some (keep_unprocessed bytes r)

-- What a round of the slow path's `while (true)` does.
pub data Round : Type 0 where
  done : PacketFramer → Round
  continue : PacketFramer → Round

-- The end of the buffer that may be the front of a start pattern.
unfoldable pub keep_tail : Config → Bytes → Bytes
keep_tail c buffer =
    if ltb 1 (length c.start_pattern)
    then (let keep = length c.start_pattern - 1 in
        if ltb keep (length buffer) then drop (length buffer - keep) buffer else buffer)
    else []

unfoldable pub sync_round : PacketFramer → Round
sync_round f =
    if is_empty f.start_pattern
    then continue (record f { state = collect })
    else elim (search f.start_pattern f.buffer) [
      | some i ↦ continue (record f {
        buffer = drop i f.buffer;
        state = collect;
        scanned_idx = length f.start_pattern;
      })
      | none ↦ done (record f { buffer = keep_tail f.config f.buffer })
    ]

-- Where the search for the end pattern resumes: back by a pattern less one byte, and not inside
-- the start pattern.
unfoldable pub search_offset : Config → ℕ → ℕ
search_offset c scanned_idx =
    let s = length c.start_pattern in
    let from = max s scanned_idx in
    let overlap = if ltb 1 (length c.end_pattern) then length c.end_pattern - 1 else 0 in
    let resumed = if ltb s from then (if leb overlap from then from - overlap else 0) else from in
    if ltb resumed s then s else resumed

-- `if (buffer_.empty()) return;` behind a callback, else the erase of the packet.
unfoldable pub erase_packet : PacketFramer → ℕ → ℕ → Round
erase_packet f packet_len scanned_idx =
    if is_empty f.buffer
    then done f
    else continue
        (record f { buffer = drop packet_len f.buffer; state = sync; scanned_idx = scanned_idx })

-- A packet that ends at `packet_len`.
unfoldable pub collect_packet : PacketFramer → ℕ → Round
collect_packet f packet_len =
    if leb packet_len f.max_length
    then erase_packet (deliver f (take packet_len f.buffer)) packet_len 0
    else continue (record f { buffer = drop packet_len f.buffer; state = sync; scanned_idx = 0 })

-- No end pattern yet: what is collected is dropped where it is too long.
unfoldable pub collect_more : PacketFramer → Round
collect_more f =
    if ltb f.max_length (length f.buffer)
    then done (record f { buffer = []; state = sync; scanned_idx = 0 })
    else done (record f { scanned_idx = length f.buffer })

unfoldable pub collect_round : PacketFramer → Round
collect_round f =
    let s = length f.start_pattern in
    let offset = search_offset f.config f.scanned_idx in
    if is_empty f.end_pattern
    then (let g = deliver f (take s f.buffer) in erase_packet g s g.scanned_idx)
    else if ltb (length f.buffer) offset
    then done f
    else elim (search f.end_pattern (drop offset f.buffer)) [
      | some j ↦ collect_packet f (offset + j + length f.end_pattern)
      | none ↦ collect_more f
    ]

unfoldable pub round : PacketFramer → Round
round f = elim f.state [ sync ↦ sync_round f | collect ↦ collect_round f ]

unfoldable pub slow_loop : ℕ → PacketFramer → Option PacketFramer
slow_loop zero f = none
slow_loop (suc fuel) f = elim (round f) [ done g ↦ some g | continue g ↦ slow_loop fuel g ]

-- Two rounds, one in each state, take at least one byte from the buffer.
unfoldable pub push_slow : PacketFramer → Bytes → Option PacketFramer
push_slow f bytes =
    let whole = f.buffer ++ bytes in slow_loop (2 * length whole + 2) (record f { buffer = whole })

unfoldable pub push_bytes : PacketFramer → Bytes → Option PacketFramer
push_bytes f bytes =
    if is_empty bytes
    then some f
    else if is_empty f.buffer
    then push_fast f bytes
    else push_slow f bytes
