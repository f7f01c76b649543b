-- ===== src/Framer/Tests.antt =====
-- wirestead/framer: runs of the three framers on small streams.
use Prim.Native.Char.{code}
use Prim.Native.String.{String}
use wirestead.Prelude.{
  ◌+◌, ◌≡◌, ◌⊎◌, refl, inl, inr, ◌<◌, ◌≤◌, true, false, List, [], ◌∷◌, ◌++◌, some, Bytes, length,
  flatten, arith,
}
use wirestead.Framer.Delivery.{Callback, Extends, AtMost}
use wirestead.Framer.Search.{search, find_byte, starts_with}
use wirestead.Framer.LengthPrefix.{Endian, big, little, LengthPrefixFramer}
use wirestead.Framer.LengthPrefix
use wirestead.Framer.LengthPrefix.Encoding.{encode, frames}
use wirestead.Framer.LengthPrefix.RoundTrip.{push_all-frames}
use wirestead.Framer.LengthPrefix.Bounds.{push_bytes-Returned}
use wirestead.Framer.Line.{LineFramer}
use wirestead.Framer.Line
use wirestead.Framer.Line.Settle.{after, max_partial}
use wirestead.Framer.Line.Stream.{push_all-one_byte, push_all-short, StaysShort-length}
use wirestead.Framer.Line.Bounds.{push_bytes-Safe, message_limit}
use wirestead.Framer.Packet.{PacketFramer, sync}
use wirestead.Framer.Packet
use wirestead.Framer.Packet.Rounds
use wirestead.Framer.Packet.Bounds.{IsSynced}
use wirestead.Framer.Packet.Calls.{longest, push_bytes-Kept}

-- Code points; every literal below is ASCII.
abbrev codes : String → Bytes
codes String.[] = []
codes (String.◌∷◌ c s) = code c ∷ codes s

-- A callback that never resets, and one that resets behind its first message.
abbrev quiet : Callback
quiet _ = false

abbrev impatient : Callback
impatient _ = true

abbrev prefixed : Callback → LengthPrefixFramer
prefixed cb = record {
  config = record {
    prefix_bytes = 2;
    endian = little;
    max_length = 16;
    length_includes_prefix = true;
  };
  buffer = [];
  on_message = some cb;
  delivered = [];
}

abbrev lines : Callback → Bytes → LineFramer
lines cb delimiter = record {
  config = record { delimiter = delimiter; include_delimiter = false; max_length = 4 };
  scanned_idx = 0;
  buffer = [];
  on_message = some cb;
  discarding = false;
  delivered = [];
}

abbrev packets : Callback → PacketFramer
packets cb = record {
  config = record { start_pattern = codes "<<"; end_pattern = codes ">"; max_length = 8 };
  state = sync;
  buffer = [];
  on_message = some cb;
  scanned_idx = 0;
  delivered = [];
}

abbrev words : List Bytes
words = codes "hi" ∷ [] ∷ codes "there" ∷ []

encode-words :
    frames (prefixed quiet).config words ≡ 4 ∷ 0 ∷ codes "hi" ++ 2 ∷ 0 ∷ 7 ∷ 0 ∷ codes "there"
encode-words = refl

big_endian : encode big 4 258 ≡ 0 ∷ 0 ∷ 1 ∷ 2 ∷ []
big_endian = refl

abbrev word_chunks : List Bytes
word_chunks = (4 ∷ []) ∷ (0 ∷ codes "hi" ++ 2 ∷ []) ∷ (0 ∷ 7 ∷ 0 ∷ codes "there") ∷ []

push_all-frames_example :
    LengthPrefix.push_all (prefixed quiet) word_chunks
    ≡ some (record (prefixed quiet) { buffer = []; delivered = words })
push_all-frames_example =
    push_all-frames (prefixed quiet) quiet words word_chunks (λ _. refl) refl (inr (inl refl)) refl
      ((omega arith, omega arith), ((omega arith, omega arith), ((omega arith, omega arith), tt)))
      refl

-- A declared length of 255 is above the limit: the buffer is reset.
push_bytes-Returned_example :
    (g : LengthPrefixFramer) × (LengthPrefix.push_bytes (prefixed impatient) (255 ∷ 0 ∷ 1 ∷ [])
      ≡ some g)
    × (g.config ≡ (prefixed impatient).config)
    × Extends (AtMost 16) [] g.delivered
    × (length g.buffer < 2 + 16)
push_bytes-Returned_example =
    push_bytes-Returned (prefixed impatient) (255 ∷ 0 ∷ 1 ∷ []) (omega arith)

abbrev line_chunks : List Bytes
line_chunks = codes "ab" ∷ codes "c\n" ∷ codes "too lo" ∷ codes "ng\n\nxy" ∷ []

-- The line above the limit is discarded, over two calls.
after-line_chunks :
    after (lines quiet (codes "\n")) (flatten line_chunks) ≡ record (lines quiet (codes "\n")) {
      buffer = codes "xy";
      scanned_idx = 2;
      delivered = codes "abc" ∷ [] ∷ [];
    }
unfolding search starts_with Line.max_partial_length
after-line_chunks = refl

push_all-one_byte_example :
    Line.push_all (lines quiet (codes "\n")) line_chunks
    ≡ some (after (lines quiet (codes "\n")) (flatten line_chunks))
push_all-one_byte_example =
    push_all-one_byte (lines quiet (codes "\n")) quiet line_chunks (λ _. refl) refl refl
      (omega arith) (record { empty = refl; at_start = refl; keeping = refl })

abbrev crlf : LineFramer
crlf = lines quiet (codes "\r\n")

max_partial-crlf : max_partial crlf.config ≡ 5
unfolding Line.max_partial_length
max_partial-crlf = refl

push_all-short_example :
    Line.push_all crlf (codes "a\r" ∷ codes "\nb" ∷ []) ≡ some (after crlf (codes "a\r\nb"))
push_all-short_example =
    push_all-short crlf quiet (codes "a\r" ∷ codes "\nb" ∷ []) (λ _. refl) refl (omega arith)
      (StaysShort-length crlf (codes "a\r\nb") (omega (arith, max_partial-crlf)))
      (record { empty = refl; at_start = refl; keeping = refl })

push_bytes-Safe_example :
    (g : LineFramer) × (Line.push_bytes (lines impatient (codes "\r\n")) (codes "a\r\nlonger")
      ≡ some g)
    × Line.Bounds.Follows (lines impatient (codes "\r\n")) g
    × (length g.buffer ≤ max_partial (lines impatient (codes "\r\n")).config)
push_bytes-Safe_example =
    push_bytes-Safe (lines impatient (codes "\r\n")) (codes "a\r\nlonger") (omega arith)
      (omega arith)

push_bytes-Kept_example :
    (g : PacketFramer) × (Packet.push_bytes (packets impatient) (codes "x<<a><<b") ≡ some g)
    × Packet.Rounds.Follows (packets impatient) g
    × Extends (AtMost (longest (packets impatient).config)) [] g.delivered
    × IsSynced g.state g.config g.buffer g.scanned_idx
    × ((codes "x<<a><<b" ≡ []) ⊎ (length g.buffer ≤ 8))
push_bytes-Kept_example =
    push_bytes-Kept (packets impatient) (codes "x<<a><<b") (omega arith) (λ e. omega (arith, e))

find_byte-newline : find_byte 10 (codes "ab\n") ≡ some 2
unfolding find_byte
find_byte-newline = refl
