-- ===== src/Sync/Protocol.antt =====
-- apps/krymux-sync/src/sync/protocol.rs: frames of the sync protocol and their incremental parser.
-- `from_slice` is the JSON parser of serde_json and `to_string` its printer.
pub mod Messages
pub mod Splitting
pub mod Splits
pub mod RoundTrip
pub mod Chunks
pub mod Frames
mod Tests
use krymux.Base.{
  ℕ, zero, suc, ◌+◌, ◌-◌, ◌*◌, ◌%◌, ◌^◌, List, [], ◌∷◌, ◌++◌, Option, none, some, Result, ok, err,
  ltb, ◌==◌, if◌then◌else◌, length, get_or, take, drop,
}
use krymux.Base.Bytes.{Bytes, to_be32, from_be32}
use krymux.Base.Json.{Json}

abbrev pub msg_json : ℕ
msg_json = 1

abbrev pub msg_bin : ℕ
msg_bin = 2

abbrev pub header : ℕ
header = 5

abbrev pub max_msg : ℕ
max_msg = 8 * 1024 * 1024

-- `payload.len() as u32` keeps the low 32 bits.
unfoldable pub encode_frame : ℕ → Bytes → Bytes
encode_frame frame_type payload = to_be32 (length payload % 2 ^ 32) ++ frame_type ∷ payload

unfoldable pub encode_json : (Json → Bytes) → Json → Bytes
encode_json to_string obj = encode_frame msg_json (to_string obj)

unfoldable pub encode_bin : Bytes → Bytes
encode_bin chunk = encode_frame msg_bin chunk

pub data SyncMessage : Type 0 where
  json : Json → SyncMessage
  bin : Bytes → SyncMessage

pub data SyncError : Type 0 where
  too_large : ℕ → SyncError
  bad_json : SyncError
  unknown_type : ℕ → SyncError

pub record SyncParser : Type 0 where
  pub buf : Bytes

abbrev pub new : SyncParser
new = record { buf = [] }

-- The match on the type of a whole frame.
unfoldable pub decode : (Bytes → Option Json) → ℕ → Bytes → Result SyncError SyncMessage
decode from_slice frame_type payload =
    if frame_type == msg_json
    then elim (from_slice payload) [ some v ↦ ok (json v) | none ↦ err bad_json ]
    else if frame_type == msg_bin
    then ok (bin payload)
    else err (unknown_type frame_type)

-- One turn of the loop: it waits for more bytes, fails, or takes a message of `total` bytes.
pub data Turn : Type 0 where
  wait : Turn
  failed : SyncError → Turn
  message : SyncMessage → ℕ → Turn

unfoldable pub decoded_turn : Result SyncError SyncMessage → ℕ → Turn
decoded_turn (ok m) total = message m total
decoded_turn (err e) total = failed e

-- The tests of one turn on a frame header and on the bytes `body` behind it.
unfoldable pub check : (Bytes → Option Json) → ℕ → ℕ → ℕ → Bytes → Turn
check from_slice avail len frame_type body =
    if ltb avail header
    then wait
    else if ltb max_msg len
    then failed (too_large len)
    else if ltb avail (header + len)
    then wait
    else decoded_turn (decode from_slice frame_type (take len body)) (header + len)

unfoldable pub turn : (Bytes → Option Json) → Bytes → ℕ → Turn
turn from_slice buf cursor =
    check from_slice (length buf - cursor)
      (from_be32 (get_or buf cursor 0) (get_or buf (cursor + 1) 0) (get_or buf (cursor + 2) 0)
        (get_or buf (cursor + 3) 0))
      (get_or buf (cursor + 4) 0) (drop (cursor + header) buf)

-- The loop of `push`, on fuel. Where the fuel ends it stops as it does to wait.
unfoldable pub push_loop :
    (Bytes → Option Json)
    → ℕ
    → Bytes
    → ℕ
    → List SyncMessage
    → Result SyncError (ℕ × List SyncMessage)
push_loop from_slice zero buf cursor messages = ok (cursor, messages)
push_loop from_slice (suc fuel) buf cursor messages = elim (turn from_slice buf cursor) [
  | wait ↦ ok (cursor, messages)
  | failed e ↦ err e
  | message m total ↦ push_loop from_slice fuel buf (cursor + total) (messages ++ m ∷ [])
]

unfoldable pub finish :
    Bytes
    → Result SyncError (ℕ × List SyncMessage)
    → SyncParser × Result SyncError (List SyncMessage)
finish buf (err e) = (record { buf = buf }, err e)
finish buf (ok (cursor, messages)) =
    (record { buf = if ltb 0 cursor then drop cursor buf else buf }, ok messages)

-- A turn takes five bytes or more, so the length of the buffer is fuel enough.
unfoldable pub push :
    (Bytes → Option Json) → SyncParser → Bytes → SyncParser × Result SyncError (List SyncMessage)
push from_slice p chunk =
    let buf = p.buf ++ chunk in finish buf (push_loop from_slice (suc (length buf)) buf 0 [])
