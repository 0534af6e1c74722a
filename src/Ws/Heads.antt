-- ===== src/Ws/Heads.antt =====
-- ws.rs: the first bytes of a frame, its mask and its payload, as `ws_decode` reads them.
use krymux.Base.{
  ℕ, zero, suc, ◌+◌, ◌*◌, ◌/◌, ◌%◌, ◌^◌, ◌≤◌, ◌<◌, ◌≡◌, refl, sym, ap, [], ◌∷◌, ◌++◌, some, Bool,
  true, false, ltb, leb, length, take, drop, ltb→lt, ge→ltb, if◌then◌else◌, if_both, take-append,
  drop-append, length-append, arith,
}
use krymux.Base.Bytes.{Bytes, to_be16, from_be16-to_be16}
use krymux.Ws.Codec.{
  to_be64, from_be64, decoded, turn, take_frame, take_payload, extended_length, length_bytes,
  unmask, xor, max_ws_message,
}

half : (x y : ℕ) → (y % 2 + 2 * x) / 2 ≡ x
half x y = omega arith

-- A byte that is masked twice is as it was.
pub xor-xor : (bits a b : ℕ) → a < 2 ^ bits → xor bits (xor bits a b) b ≡ a
xor-xor zero a b h = omega arith
xor-xor (suc bits) a b h =
    let ih : xor bits (xor bits (a / 2) (b / 2)) (b / 2) ≡ a / 2 =
      xor-xor bits (a / 2) (b / 2) (omega (arith, h)) in
    rw (half (xor bits (a / 2) (b / 2)) (a + b), ih) (omega arith)

-- The mask bit of the second byte.
abbrev pub mark : Bool → Bytes → Bytes
mark true (b ∷ bs) = (128 + b) ∷ bs
mark _ bs = bs

from_be64-to_be64 : (v : ℕ) → v < 2 ^ 64 → from_be64 (to_be64 v) ≡ v
from_be64-to_be64 v h = omega (arith, h)

-- A length that is written is read back.
abbrev Reads : ℕ → Bytes → Bytes → Type 0
Reads len body written =
    (b : ℕ) × (ext : Bytes) × (written ≡ b ∷ ext)
    × (b < 128)
    × (extended_length b (ext ++ body) ≡ some (len, length ext))

short_length :
    (len : ℕ) (body : Bytes) → ltb len 126 ≡ true → extended_length len body ≡ some (len, 0)
unfolding extended_length
short_length len body h = ground arith

long_length :
    (len : ℕ) (body : Bytes)
    → len ≤ max_ws_message
    → extended_length 127 (to_be64 len ++ body) ≡ some (len, 8)
unfolding extended_length
long_length len body h =
    rw (ge→ltb (length (to_be64 len ++ body)) 8 (omega arith))
      (ap (λ v. some (v, 8)) (from_be64-to_be64 len (omega (arith, h))))

medium_length :
    (len : ℕ) (body : Bytes)
    → ltb len 65536 ≡ true
    → extended_length 126 (to_be16 len ++ body) ≡ some (len, 2)
unfolding extended_length
medium_length len body h =
    rw (ge→ltb (length (to_be16 len ++ body)) 2 (omega arith))
      (ap (λ v. some (v, 2)) (from_be16-to_be16 len (ltb→lt len 65536 h)))

length_bytes-Reads :
    (len : ℕ) (body : Bytes) → len ≤ max_ws_message → Reads len body (length_bytes len)
unfolding length_bytes
length_bytes-Reads len body h =
    if_both (Reads len body) (ltb len 126) _ _
      (λ e. (len, [], refl, omega (arith, ltb→lt len 126 e), short_length len body e))
      (λ e.
        if_both (Reads len body) (ltb len 65536) _ _
          (λ e'. (126, to_be16 len, refl, omega arith, medium_length len body e'))
          (λ e'. (127, to_be64 len, refl, omega arith, long_length len body h)))

turn_second :
    (b0 b1 b len : ℕ) (masked : Bool) (ext body : Bytes)
    → leb 128 b1 ≡ masked
    → b1 % 128 ≡ b
    → extended_length b (ext ++ body) ≡ some (len, length ext)
    → turn (b0 ∷ b1 ∷ ext ++ body) ≡ take_payload b0 masked len body (1 + suc (length ext))
unfolding turn take_frame
turn_second b0 b1 b len masked ext body hm hb x =
    rw (hm, hb, x, drop-append ext body) (ap (λ n. take_payload b0 masked len body n) (omega arith))

-- The first two bytes and the length of a frame, then what they leave.
pub turn-head :
    (b0 len : ℕ) (masked : Bool) (body : Bytes)
    → len ≤ max_ws_message
    → turn (b0 ∷ mark masked (length_bytes len) ++ body)
      ≡ take_payload b0 masked len body (1 + length (mark masked (length_bytes len)))
turn-head b0 len true body h =
    let (b, ext, e, lt, x) = length_bytes-Reads len body h in
    rw e (turn_second b0 (128 + b) b len true ext body (ground (arith, lt)) (omega (arith, lt)) x)
turn-head b0 len false body h =
    let (b, ext, e, lt, x) = length_bytes-Reads len body h in
    rw e (turn_second b0 b b len false ext body (ground (arith, lt)) (omega (arith, lt)) x)

take_prefix :
    (n : ℕ) (xs ys : Bytes) → length xs ≡ n → (take n (xs ++ ys) ≡ xs) × (drop n (xs ++ ys) ≡ ys)
take_prefix n xs ys e = rw (sym e) (take-append xs ys, drop-append xs ys)

take_payload_lem :
    (b0 ptr : ℕ) (masked : Bool) (mask data_ tail : Bytes)
    → length mask ≡ (if masked then 4 else 0)
    → length data_ ≤ max_ws_message
    → take_payload b0 masked (length data_) (mask ++ (data_ ++ tail)) ptr
      ≡ decoded
          record {
            opcode = b0 % 16;
            fin = leb 128 b0;
            payload = if masked then unmask mask 0 data_ else data_;
          }
          (ptr + length mask + length data_)
unfolding take_payload
take_payload_lem b0 ptr true mask data_ tail e h =
    let fits : ltb (length (mask ++ (data_ ++ tail))) (4 + length data_) ≡ false =
      ge→ltb _ _ (omega (arith, e, length-append mask (data_ ++ tail), length-append data_ tail)) in
    rw
      (
        ge→ltb max_ws_message (length data_) h,
        fits,
        (take_prefix 4 mask (data_ ++ tail) e).1,
        (take_prefix 4 mask (data_ ++ tail) e).0,
        take-append data_ tail,
        e,
      )
      refl
take_payload_lem b0 ptr false [] data_ tail e h =
    let fits : ltb (length (data_ ++ tail)) (0 + length data_) ≡ false =
      ge→ltb _ _ (omega (arith, length-append data_ tail)) in
    rw (ge→ltb max_ws_message (length data_) h, fits, take-append data_ tail) refl
take_payload_lem b0 ptr false (m ∷ mask) data_ tail e h = ground (arith, e)

pub take_payload_at :
    (b0 ptr len : ℕ) (masked : Bool) (mask data_ tail : Bytes)
    → length mask ≡ (if masked then 4 else 0)
    → length data_ ≡ len
    → len ≤ max_ws_message
    → take_payload b0 masked len (mask ++ (data_ ++ tail)) ptr
      ≡ decoded
          record {
            opcode = b0 % 16;
            fin = leb 128 b0;
            payload = if masked then unmask mask 0 data_ else data_;
          }
          (ptr + length mask + len)
take_payload_at b0 ptr len masked mask data_ tail e el h =
    rw (sym el) (take_payload_lem b0 ptr masked mask data_ tail e (omega (arith, el, h)))
