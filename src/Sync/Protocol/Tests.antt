-- ===== src/Sync/Protocol/Tests.antt =====
-- Runs of the parser of the sync protocol, and the theorems at concrete input.
use krymux.Base.{
  ◌≡◌, refl, ◌↔◌, List, [], ◌∷◌, ◌++◌, Option, none, some, ok, err, arith, if◌then◌else◌,
}
use krymux.Base.Bytes.{Bytes, codes, bytes_eq}
use krymux.Base.Json.{Json, null}
use krymux.Sync.Protocol.{
  SyncMessage, json, bin, too_large, unknown_type, new, push, push_loop, turn, check, decode,
  decoded_turn, finish, encode_json, encode_bin, encode_frame,
}
use krymux.Sync.Protocol.Chunks.{feed, feed-push}
use krymux.Sync.Protocol.RoundTrip.{encode_all, feed-encode_all}
use krymux.Sync.Protocol.Frames.{Frames, push-Frames}

-- A parser that knows `null` alone.
abbrev read_null : Bytes → Option Json
read_null s = if bytes_eq s (codes "null") then some null else none

abbrev print_any : Json → Bytes
print_any v = codes "null"

abbrev two : List SyncMessage
two = json null ∷ bin (7 ∷ 8 ∷ []) ∷ []

abbrev wire : Bytes
wire = 0 ∷ 0 ∷ 0 ∷ 4 ∷ 1 ∷ 110 ∷ 117 ∷ 108 ∷ 108 ∷ 0 ∷ 0 ∷ 0 ∷ 2 ∷ 2 ∷ 7 ∷ 8 ∷ []

two_encoded : encode_all read_null print_any two ≡ wire
unfolding encode_json encode_bin encode_frame
two_encoded = refl

one_push : push read_null new (wire ++ 0 ∷ 0 ∷ []) ≡ (record { buf = 0 ∷ 0 ∷ [] }, ok two)
unfolding push push_loop turn check decode decoded_turn finish
one_push = refl

refused :
    (push read_null new (0 ∷ 128 ∷ 0 ∷ 1 ∷ 1 ∷ [])
      ≡ (record { buf = 0 ∷ 128 ∷ 0 ∷ 1 ∷ 1 ∷ [] }, err (too_large 8388609)))
    × (push read_null new (0 ∷ 0 ∷ 0 ∷ 0 ∷ 9 ∷ [])
        ≡ (record { buf = 0 ∷ 0 ∷ 0 ∷ 0 ∷ 9 ∷ [] }, err (unknown_type 9)))
unfolding push push_loop turn check decode decoded_turn finish
refused = (refl, refl)

push-Frames_example :
    (push read_null new (0 ∷ 0 ∷ 0 ∷ 1 ∷ 2 ∷ 7 ∷ 0 ∷ [])
      ≡ (record { buf = 0 ∷ [] }, ok (bin (7 ∷ []) ∷ [])))
    ↔ Frames read_null (0 ∷ 0 ∷ 0 ∷ 1 ∷ 2 ∷ 7 ∷ 0 ∷ []) (bin (7 ∷ []) ∷ []) (0 ∷ [])
push-Frames_example =
    push-Frames read_null new (record { buf = 0 ∷ [] }) (0 ∷ 0 ∷ 0 ∷ 1 ∷ 2 ∷ 7 ∷ 0 ∷ [])
      (bin (7 ∷ []) ∷ [])

feed-push_example :
    (feed read_null new ((0 ∷ 0 ∷ []) ∷ (0 ∷ 0 ∷ 2 ∷ []) ∷ []) ≡ ok (new, bin [] ∷ []))
    ↔ (push read_null new (0 ∷ 0 ∷ 0 ∷ 0 ∷ 2 ∷ []) ≡ (new, ok (bin [] ∷ [])))
unfolding turn check
feed-push_example =
    feed-push read_null new new ((0 ∷ 0 ∷ []) ∷ (0 ∷ 0 ∷ 2 ∷ []) ∷ []) (bin [] ∷ []) refl

feed-encode_all_example :
    feed read_null new ((0 ∷ 0 ∷ 0 ∷ []) ∷ (2 ∷ 2 ∷ 7 ∷ 8 ∷ []) ∷ [])
    ≡ ok (new, bin (7 ∷ 8 ∷ []) ∷ [])
unfolding encode_bin encode_frame
feed-encode_all_example =
    feed-encode_all read_null print_any (bin (7 ∷ 8 ∷ []) ∷ [])
      ((0 ∷ 0 ∷ 0 ∷ []) ∷ (2 ∷ 2 ∷ 7 ∷ 8 ∷ []) ∷ []) (omega arith, tt) refl
