-- ===== src/Sync/Protocol/RoundTrip.antt =====
-- sync/protocol.rs: messages that were encoded come back out of the parser, whatever the chunks.
use krymux.Base.{
  ℕ, ◌+◌, ◌%◌, ◌^◌, ◌≤◌, ◌≡◌, refl, sym, ◌∙◌, List, [], ◌∷◌, ◌++◌, Option, some, ok, length, drop,
  drop-drop, take-append, drop-append, length-append, arith, All,
}
use krymux.Base.Bytes.{Bytes, from_be32-to_be32}
use krymux.Base.Json.{Json}
use krymux.Sync.Protocol.{
  SyncMessage, json, bin, new, message, turn, check, decode, decoded_turn, encode_frame,
  encode_json, encode_bin, max_msg,
}
use krymux.Sync.Protocol.Splitting.{turn_front, check_whole}
use krymux.Sync.Protocol.Splits.{Splits, rest, more, Splits-to}
use krymux.Sync.Protocol.Chunks.{join, feed, feed-Splits}

module _ (from_slice : Bytes → Option Json) (to_string : Json → Bytes) where
  abbrev pub encode : SyncMessage → Bytes
  encode (json v) = encode_json to_string v
  encode (bin b) = encode_bin b

  abbrev pub encode_all : List SyncMessage → Bytes
  encode_all [] = []
  encode_all (m ∷ ms) = encode m ++ encode_all ms

  -- A message that the parser can take: within the cap, and with JSON that reads back as printed.
  abbrev pub Fits : SyncMessage → Type 0
  Fits (json v) = (length (to_string v) ≤ max_msg) × (from_slice (to_string v) ≡ some v)
  Fits (bin b) = length b ≤ max_msg

  -- The parser takes a whole frame apart again.
  turn-encode_frame :
      (t : ℕ) (payload tail : Bytes)
      → length payload ≤ max_msg
      → turn from_slice (encode_frame t payload ++ tail) 0
        ≡ decoded_turn (decode from_slice t payload) (5 + length payload)
  unfolding encode_frame
  turn-encode_frame t payload tail h =
      let kept : length payload % 2 ^ 32 ≡ length payload = omega arith in
      rw kept (
        turn_front from_slice _
        ∙ rw (from_be32-to_be32 (length payload) (omega arith)) (
            check_whole from_slice _ (length payload) t (payload ++ tail) h
              (omega (arith, length-append payload tail))
            ∙ rw (take-append payload tail) refl))

  drop-encode_frame :
      (t : ℕ) (payload tail : Bytes)
      → drop (5 + length payload) (encode_frame t payload ++ tail) ≡ tail
  unfolding encode_frame
  drop-encode_frame t payload tail =
      sym (drop-drop (length payload) 5 (encode_frame t payload ++ tail)) ∙ drop-append payload tail

  turn-encode :
      (m : SyncMessage) (tail : Bytes)
      → Fits m
      → (n : ℕ) × (turn from_slice (encode m ++ tail) 0 ≡ message m n)
        × (drop n (encode m ++ tail) ≡ tail)
  unfolding encode_json encode_bin decode decoded_turn
  turn-encode (json v) tail h = (
    5 + length (to_string v),
    turn-encode_frame 1 (to_string v) tail h.0 ∙ rw (h.1, decode) refl,
    drop-encode_frame 1 (to_string v) tail,
  )
  turn-encode (bin b) tail h =
      (5 + length b, turn-encode_frame 2 b tail h, drop-encode_frame 2 b tail)

  Splits-encode_all :
      (ms : List SyncMessage) → All Fits ms → Splits from_slice (encode_all ms) ms []
  unfolding turn check
  Splits-encode_all [] h = rest refl
  Splits-encode_all (m ∷ ms) h =
      let (n, e, left) = turn-encode m (encode_all ms) h.0 in
      more e (Splits-to from_slice (sym left) (Splits-encode_all ms h.1))

  -- Messages within the cap that are encoded one after another, and reach a new parser in chunks of
  -- any sizes, come out as they were and in order, and leave the parser empty.
  pub feed-encode_all :
      (ms : List SyncMessage) (cs : List Bytes)
      → All Fits ms
      → join cs ≡ encode_all ms
      → feed from_slice new cs ≡ ok (new, ms)
  unfolding turn check
  feed-encode_all ms cs h e =
      (feed-Splits from_slice new new cs ms refl).1
        (Splits-to from_slice (sym e) (Splits-encode_all ms h))
