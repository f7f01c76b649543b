-- ===== src/Framer/Line.antt =====
-- wirestead/framer/line_framer.{hpp,cc}: messages that end with a delimiter.
-- A byte is a number below 256. `delivered` is the history of the calls of `on_message_`.
pub mod Split
pub mod Scan
pub mod Push
pub mod Settle
pub mod Stream
pub mod Bounds
use wirestead.Prelude.{
  ℕ, zero, suc, ◌+◌, ◌-◌, ◌≡◌, Bool, true, false, ◌&&◌, List, [], ◌∷◌, ◌++◌, Option, none, some,
  Bytes, length, take, drop, ltb, leb, ◌==◌, if◌then◌else◌, size_mod, sub_size, min, max, ◌>>=◌,
}
use wirestead.Framer.Delivery.{Callback}
use wirestead.Framer.Search.{search, find_byte}

-- The members that the constructor sets once.
pub record Config : Type 0 where
  pub delimiter : Bytes
  pub include_delimiter : Bool
  pub max_length : ℕ

pub record LineFramer : Type 0 where
  pub config : Config
  pub open config use *
  pub scanned_idx : ℕ
  pub buffer : Bytes
  pub on_message : Option Callback
  pub discarding : Bool
  pub delivered : List Bytes

abbrev is_empty : Bytes → Bool
is_empty [] = true
is_empty (_ ∷ _) = false

-- The constructor: an empty delimiter becomes a newline.
unfoldable pub make : Bytes → Bool → ℕ → LineFramer
make delimiter include_delimiter max_length = record {
  config = record {
    delimiter = if is_empty delimiter then b'\n' ∷ [] else delimiter;
    include_delimiter = include_delimiter;
    max_length = max_length;
  };
  scanned_idx = 0;
  buffer = [];
  on_message = none;
  discarding = false;
  delivered = [];
}

unfoldable pub set_on_message : LineFramer → Option Callback → LineFramer
set_on_message f cb = record f { on_message = cb }

unfoldable pub reset : LineFramer → LineFramer
reset f = record f { buffer = []; scanned_idx = 0; discarding = false }

-- The throw on a sum of sizes above `size_t` is left out: the two vectors are in memory.
unfoldable pub append_bytes : Bytes → Bytes → ℕ → Bytes
append_bytes buffer bytes offset =
    if leb (length bytes) offset then buffer else buffer ++ drop offset bytes

-- The sum saturates at the largest `size_t`.
unfoldable pub max_partial_length : ℕ → ℕ → ℕ
max_partial_length max_length delimiter_length =
    let split = sub_size delimiter_length 1 in
    if ltb (size_mod - 1 - split) max_length then size_mod - 1 else max_length + split

-- The first delimiter: by `memchr` for a single byte, else by `std::search`.
unfoldable pub find_delimiter : Bytes → Bytes → Option ℕ
find_delimiter (d ∷ []) bytes = find_byte d bytes
find_delimiter delimiter bytes = search delimiter bytes

-- The offset behind the first delimiter.
unfoldable pub skip_until_delimiter : Config → Bytes → Option ℕ
skip_until_delimiter c bytes = elim (find_delimiter c.delimiter bytes) [
  | none ↦ none
  | some k ↦ some (k + length c.delimiter)
]

-- The call of `on_message_`, and the `reset()` that it may make.
unfoldable pub deliver : LineFramer → Callback → Bytes → LineFramer
deliver f cb message =
    let sent = f.delivered ++ message ∷ [] in
    if cb sent then reset (record f { delivered = sent }) else record f { delivered = sent }

-- `if (on_message_) …`: the flag says that the callback has cleared the buffer being scanned.
unfoldable pub hand_over : LineFramer → Bool → Bytes → LineFramer × Bool
hand_over f on_buffer message = elim f.on_message [
  | none ↦ (f, false)
  | some cb ↦ let g = deliver f cb message in (g, on_buffer && is_empty g.buffer)
]

-- A found message, from `processed` to `match_end`: skipped where it is too long.
unfoldable pub emit : LineFramer → Bool → Bytes → ℕ → ℕ → LineFramer × Bool
emit f on_buffer bytes processed match_end =
    let current_msg_total_len = sub_size match_end processed in
    let content_len = sub_size current_msg_total_len (length f.delimiter) in
    let payload_len = if f.include_delimiter then current_msg_total_len else content_len in
    if ltb f.max_length content_len
    then (f, false)
    else hand_over f on_buffer (take payload_len (drop processed bytes))

-- `while (true)` of scan_and_process, with the bytes processed; `none` says that the fuel ran out.
-- `on_buffer` is `data.data() == buffer_.data()`.
unfoldable pub scan : ℕ → LineFramer → Bool → Bytes → ℕ → ℕ → Option (LineFramer × ℕ)
scan zero f on_buffer bytes processed cursor = none
scan (suc fuel) f on_buffer bytes processed cursor =
    if ltb (length bytes) cursor
    then some (f, processed)
    else elim (find_delimiter f.delimiter (drop cursor bytes)) [
      | none ↦ some (f, processed)
      | some k ↦
          let match_end = cursor + k + length f.delimiter in
          let (g, cleared) = emit f on_buffer bytes processed match_end in
          elim cleared [
            | true ↦ some (g, 0)
            | false ↦ scan fuel g on_buffer bytes match_end match_end
          ]
    ]

-- A round moves the cursor over at least one byte, so the length bounds the rounds.
unfoldable pub scan_and_process : LineFramer → Bool → Bytes → ℕ → Option (LineFramer × ℕ)
scan_and_process f on_buffer bytes search_start_offset =
    scan (suc (length bytes)) f on_buffer bytes 0 (min search_start_offset (length bytes))

-- The check against unbounded growth, behind either path.
unfoldable pub drop_oversized : LineFramer → LineFramer
drop_oversized f =
    if ltb (max_partial_length f.max_length (length f.delimiter)) (length f.buffer)
    then record f { buffer = []; scanned_idx = 0; discarding = true }
    else f

-- What push_bytes_internal does behind the scan of the input itself.
unfoldable pub keep_unprocessed : Bytes → LineFramer × ℕ → LineFramer
keep_unprocessed bytes (f, processed_count) =
    let kept = append_bytes f.buffer bytes processed_count in
    if ltb processed_count (length bytes)
    then drop_oversized (record f { buffer = kept; scanned_idx = length kept })
    else record f { scanned_idx = 0 }

-- The path with an empty buffer: the input is scanned in place, and its end kept.
unfoldable pub push_fast : LineFramer → Bytes → Option LineFramer
push_fast f bytes = do
  scanned ← scan_and_process f false bytes 0
  some (keep_unprocessed bytes scanned)

-- Where a search resumes: back by a delimiter less one byte.
unfoldable pub resume_index : ℕ → ℕ → ℕ
resume_index scanned_idx delimiter_length =
    if leb delimiter_length scanned_idx then scanned_idx - sub_size delimiter_length 1 else 0

-- What push_bytes_internal does behind the scan of the buffer.
unfoldable pub erase_processed : LineFramer × ℕ → LineFramer
erase_processed (f, processed_count) =
    let kept = if ltb 0 processed_count then drop processed_count f.buffer else f.buffer in
    drop_oversized (record f { buffer = kept; scanned_idx = length kept })

-- The path with a partial message in the buffer.
unfoldable pub push_slow : LineFramer → Bytes → Option LineFramer
push_slow f bytes = do
  let whole = append_bytes f.buffer bytes 0
  scanned ←
      scan_and_process (record f { buffer = whole }) true whole
        (resume_index f.scanned_idx (length f.delimiter))
  some (erase_processed scanned)

unfoldable pub push_scanning : LineFramer → Bytes → Option LineFramer
push_scanning f bytes = if is_empty f.buffer then push_fast f bytes else push_slow f bytes

-- While discarding, nothing is kept up to the delimiter that ends the discarded message.
unfoldable pub push_discarding : LineFramer → Bytes → Option LineFramer
push_discarding f bytes = elim (skip_until_delimiter f.config bytes) [
  | none ↦ some f
  | some consumed ↦
      let rest = drop consumed bytes in
      let g = record f { discarding = false } in
      if is_empty rest then some g else push_scanning g rest
]

unfoldable pub push_bytes_internal : LineFramer → Bytes → Option LineFramer
push_bytes_internal f bytes =
    if is_empty bytes
    then some f
    else if f.discarding
    then push_discarding f bytes
    else push_scanning f bytes

unfoldable pub chunk_limit : ℕ → ℕ
chunk_limit max_length = max max_length 4096

-- `while (offset < data.size())` on fuel; a round takes at least one byte.
unfoldable pub push_chunks : ℕ → LineFramer → Bytes → ℕ → Option LineFramer
push_chunks zero f bytes offset = if ltb offset (length bytes) then none else some f
push_chunks (suc fuel) f bytes offset =
    let len = min (length bytes - offset) (chunk_limit f.max_length) in
    elim (ltb offset (length bytes)) [
      | false ↦ some f
      | true ↦ do
        g ← push_bytes_internal f (take len (drop offset bytes))
        push_chunks fuel g bytes (offset + len)
    ]

unfoldable pub push_bytes : LineFramer → Bytes → Option LineFramer
push_bytes f bytes = if is_empty bytes then some f else push_chunks (length bytes) f bytes 0

-- A sequence of `push_bytes` calls.
unfoldable pub push_all : LineFramer → List Bytes → Option LineFramer
push_all f [] = some f
push_all f (bytes ∷ rest) = do g ← push_bytes f bytes; push_all g rest
