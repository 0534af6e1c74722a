-- ===== src/Ws/Codec.antt =====
-- ws.rs, `WsFrame`, `ws_encode` and `ws_decode`.
use krymux.Base.{
  ℕ, zero, suc, ◌+◌, ◌*◌, ◌/◌, ◌%◌, ◌^◌, List, [], ◌∷◌, ◌++◌, Option, none, some, Bool, true, false,
  ltb, leb, ◌==◌, if◌then◌else◌, length, get_or, take, drop,
}
use krymux.Base.Bytes.{Bytes, to_be16, to_be32, from_be16, from_be32}

abbrev pub max_ws_message : ℕ
max_ws_message = 2 * 1024 * 1024

pub record WsFrame : Type 0 where
  pub opcode : ℕ
  pub fin : Bool
  pub payload : Bytes

-- `u64::to_be_bytes` and `u64::from_be_bytes`.
abbrev pub to_be64 : ℕ → Bytes
to_be64 v = to_be32 (v / 2 ^ 32 % 2 ^ 32) ++ to_be32 (v % 2 ^ 32)

abbrev pub from_be64 : Bytes → ℕ
from_be64 b =
    from_be32 (get_or b 0 0) (get_or b 1 0) (get_or b 2 0) (get_or b 3 0) * 2 ^ 32
    + from_be32 (get_or b 4 0) (get_or b 5 0) (get_or b 6 0) (get_or b 7 0)

unfoldable pub length_bytes : ℕ → Bytes
length_bytes len =
    if ltb len 126 then len ∷ [] else if ltb len 65536 then 126 ∷ to_be16 len else 127 ∷ to_be64 len

-- `0x80 | (opcode & 0x0f)` is a sum: the bits are apart.
unfoldable pub ws_encode : ℕ → Bytes → Bytes
ws_encode opcode payload = (128 + opcode % 16) ∷ length_bytes (length payload) ++ payload

-- `^` of two numbers below 2 ^ bits.
abbrev pub xor : ℕ → ℕ → ℕ → ℕ
xor zero a b = 0
xor (suc bits) a b = (a + b) % 2 + 2 * xor bits (a / 2) (b / 2)

-- The byte at `i` of the payload with the byte at `i & 3` of the mask.
unfoldable pub unmask : Bytes → ℕ → Bytes → Bytes
unmask mask i [] = []
unmask mask i (b ∷ bs) = xor 8 b (get_or mask (i % 4) 0) ∷ unmask mask (suc i) bs

-- One turn of the loop: it ends, gives up, or takes a frame of `total` bytes.
pub data Turn : Type 0 where
  incomplete : Turn
  oversized : Turn
  decoded : WsFrame → ℕ → Turn

-- The length that the second byte stands for, and the bytes it takes behind the first two.
unfoldable pub extended_length : ℕ → Bytes → Option (ℕ × ℕ)
extended_length len body =
    if len == 126
    then if ltb (length body) 2
      then none
      else some (from_be16 (get_or body 0 0) (get_or body 1 0), 2)
    else if len == 127
    then if ltb (length body) 8 then none else some (from_be64 (take 8 body), 8)
    else some (len, 0)

-- `body` is what stands behind the length.
unfoldable pub take_payload : ℕ → Bool → ℕ → Bytes → ℕ → Turn
take_payload b0 masked len body ptr =
    if ltb max_ws_message len
    then oversized
    else let mask_len = if masked then 4 else 0 in
      if ltb (length body) (mask_len + len)
      then incomplete
      else let payload = take len (drop mask_len body) in
        decoded
          record {
            opcode = b0 % 16;
            fin = leb 128 b0;
            payload = if masked then unmask (take 4 body) 0 payload else payload;
          }
          (ptr + mask_len + len)

unfoldable pub take_frame : ℕ → Bool → Option (ℕ × ℕ) → Bytes → Turn
take_frame b0 masked none body = incomplete
take_frame b0 masked (some (len, used)) body =
    take_payload b0 masked len (drop used body) (2 + used)

-- A turn on the bytes from `off` on.
unfoldable pub turn : Bytes → Turn
turn [] = incomplete
turn (b0 ∷ []) = incomplete
turn (b0 ∷ b1 ∷ body) = take_frame b0 (leb 128 b1) (extended_length (b1 % 128) body) body

-- The loop, on fuel. Where the fuel ends it stops as it does at the end of the bytes.
unfoldable pub decode_loop : ℕ → Bytes → List WsFrame → ℕ → List WsFrame × ℕ × Bool
decode_loop zero buf frames off = (frames, off, false)
decode_loop (suc fuel) buf frames off = elim (turn (drop off buf)) [
  | incomplete ↦ (frames, off, false)
  | oversized ↦ (frames, 0, true)
  | decoded f total ↦ decode_loop fuel buf (frames ++ f ∷ []) (off + total)
]

-- A turn takes two bytes or more, so the length of the buffer is fuel enough.
unfoldable pub ws_decode : Bytes → List WsFrame × ℕ × Bool
ws_decode buf = decode_loop (suc (length buf)) buf [] 0
