-- ===== src/Ws/RoundTrip.antt =====
-- ws.rs: frames that were encoded come back out of `ws_decode`, masked or not.
use krymux.Base.{
  ℕ, zero, suc, ◌+◌, ◌%◌, ◌≤◌, ◌<◌, ◌≡◌, refl, sym, ap, ◌∙◌, List, [], ◌∷◌, ◌++◌, Option, none,
  some, Bool, true, false, length, drop, get_or, append_assoc, append-nil, if◌then◌else◌,
  drop-append, length-append, drop-drop, arith, All, map,
}
use krymux.Base.Bytes.{Bytes, IsByte}
use krymux.Ws.Codec.{
  WsFrame, incomplete, decoded, ws_encode, ws_decode, decode_loop, turn, length_bytes, unmask, xor,
  max_ws_message,
}
use krymux.Ws.Heads.{mark, xor-xor, turn-head, take_payload_at}

-- What a peer may send: a frame of the server, or one of a client, with its mask.
pub record Sent : Type 0 where
  pub mask : Option Bytes
  pub opcode : ℕ
  pub payload : Bytes

-- The masking of RFC 6455: each byte by the next of the mask, which goes round.
abbrev pub masked : Bytes → Bytes → Bytes
masked mask [] = []
masked [] (b ∷ bs) = b ∷ masked [] bs
masked (m ∷ ms) (b ∷ bs) = xor 8 b m ∷ masked (ms ++ m ∷ []) bs

abbrev pub encode_with : Option Bytes → ℕ → Bytes → Bytes
encode_with none opcode payload = ws_encode opcode payload
encode_with (some mask) opcode payload =
    (128 + opcode % 16) ∷ mark true (length_bytes (length payload)) ++ (mask ++ masked mask payload)

abbrev pub encode : Sent → Bytes
encode f = encode_with f.mask f.opcode f.payload

abbrev pub encode_all : List Sent → Bytes
encode_all [] = []
encode_all (f ∷ fs) = encode f ++ encode_all fs

abbrev pub IsMask : Option Bytes → Type 0
IsMask none = Unit
IsMask (some mask) = length mask ≡ 4

pub record Fits (f : Sent) : Type 0 where
  pub masked : IsMask f.mask
  pub nibble : f.opcode < 16
  pub bytes : All IsByte f.payload
  pub within : length f.payload ≤ max_ws_message

-- What the receiver is to see.
abbrev pub received : Sent → WsFrame
received f = record { opcode = f.opcode; fin = true; payload = f.payload }

length-masked : (mask bs : Bytes) → length (masked mask bs) ≡ length bs
length-masked mask [] = refl
length-masked [] (b ∷ bs) = ap suc (length-masked [] bs)
length-masked (m ∷ ms) (b ∷ bs) = ap suc (length-masked (ms ++ m ∷ []) bs)

-- The receiver takes the same byte of the mask as the sender, from each place in the round.
module _ (a b c d : ℕ) where
  abbrev key : Bytes
  key = a ∷ b ∷ c ∷ d ∷ []

  unmask_step :
      (i k m x : ℕ) (bs rest : Bytes)
      → i % 4 ≡ k
      → get_or key k 0 ≡ m
      → IsByte x
      → unmask key (suc i) rest ≡ bs
      → unmask key i (xor 8 x m ∷ rest) ≡ x ∷ bs
  unfolding unmask
  unmask_step i k m x bs rest at_ is byte later =
      let same : get_or key (i % 4) 0 ≡ m = ap (λ j. get_or key j 0) at_ ∙ is in
      rw (same, xor-xor 8 x m byte, later) refl

  unmask-masked :
      (bs : Bytes) (i : ℕ)
      → All IsByte bs
      → (i % 4 ≡ 0 → unmask key i (masked (a ∷ b ∷ c ∷ d ∷ []) bs) ≡ bs)
        × (i % 4 ≡ 1 → unmask key i (masked (b ∷ c ∷ d ∷ a ∷ []) bs) ≡ bs)
        × (i % 4 ≡ 2 → unmask key i (masked (c ∷ d ∷ a ∷ b ∷ []) bs) ≡ bs)
        × (i % 4 ≡ 3 → unmask key i (masked (d ∷ a ∷ b ∷ c ∷ []) bs) ≡ bs)
  unfolding unmask
  unmask-masked [] i h = (λ e. refl, λ e. refl, λ e. refl, λ e. refl)
  unmask-masked (x ∷ bs) i h =
      let next = unmask-masked bs (suc i) h.1 in
      (
        λ e. unmask_step i 0 a x bs _ e refl h.0 (next.1 (omega (arith, e))),
        λ e. unmask_step i 1 b x bs _ e refl h.0 (next.2 (omega (arith, e))),
        λ e. unmask_step i 2 c x bs _ e refl h.0 (next.3 (omega (arith, e))),
        λ e. unmask_step i 3 d x bs _ e refl h.0 (next.0 (omega (arith, e))),
      )

unmask-round :
    (mask bs : Bytes) → length mask ≡ 4 → All IsByte bs → unmask mask 0 (masked mask bs) ≡ bs
unmask-round (a ∷ b ∷ c ∷ d ∷ []) bs four h = (unmask-masked a b c d bs 0 h).0 refl
unmask-round [] bs four h = ground (arith, four)
unmask-round (a ∷ []) bs four h = ground (arith, four)
unmask-round (a ∷ b ∷ []) bs four h = ground (arith, four)
unmask-round (a ∷ b ∷ c ∷ []) bs four h = ground (arith, four)
unmask-round (a ∷ b ∷ c ∷ d ∷ e ∷ rest) bs four h = ground (arith, four)

decoded_to :
    {a b : ℕ} {fin : Bool} (p : Bytes) {n m : ℕ}
    → a ≡ b
    → fin ≡ true
    → n ≡ m
    → decoded record { opcode = a; fin = fin; payload = p } n
      ≡ decoded record { opcode = b; fin = true; payload = p } m
decoded_to p ea ef en = rw (ea, ef, en) refl

turn-parts :
    (opcode len : ℕ) (masked : Bool) (mask data_ tail : Bytes)
    → length mask ≡ (if masked then 4 else 0)
    → opcode < 16
    → length data_ ≡ len
    → len ≤ max_ws_message
    → let whole = (128 + opcode % 16) ∷ mark masked (length_bytes len) ++ (mask ++ data_) in
      turn (whole ++ tail)
      ≡ decoded
          record {
            opcode = opcode;
            fin = true;
            payload = if masked then unmask mask 0 data_ else data_;
          }
          (length whole)
turn-parts opcode len masked mask data_ tail e o el h =
    let m = mark masked (length_bytes len) in
    rw (append_assoc m (mask ++ data_) tail, append_assoc mask data_ tail)
      (turn-head (128 + opcode % 16) len masked (mask ++ (data_ ++ tail)) h
        ∙ take_payload_at (128 + opcode % 16) (1 + length m) len masked mask data_ tail e el h
        ∙ decoded_to _ (omega (arith, o)) (ground arith)
            (omega (arith, el, length-append m (mask ++ data_), length-append mask data_)))

turn-encode_with :
    (mask : Option Bytes) (opcode : ℕ) (p tail : Bytes)
    → Fits record { mask = mask; opcode = opcode; payload = p }
    → turn (encode_with mask opcode p ++ tail)
      ≡ decoded
          record { opcode = opcode; fin = true; payload = p }
          (length (encode_with mask opcode p))
unfolding ws_encode
turn-encode_with none opcode p tail h =
    turn-parts opcode (length p) false [] p tail refl h.nibble refl h.within
turn-encode_with (some mask) opcode p tail h =
    turn-parts opcode (length p) true mask (masked mask p) tail h.masked h.nibble
      (length-masked mask p) h.within
    ∙ rw (unmask-round mask p h.masked h.bytes) refl

loop-encode_all :
    (fuel off : ℕ) (buf tail : Bytes) (seen : List WsFrame) (fs : List Sent)
    → All Fits fs
    → turn tail ≡ incomplete
    → drop off buf ≡ encode_all fs ++ tail
    → length fs ≤ fuel
    → decode_loop (suc fuel) buf seen off
      ≡ (seen ++ map received fs, off + length (encode_all fs), false)
unfolding decode_loop
loop-encode_all fuel off buf tail seen [] h t e l =
    rw (decode_loop, e, t, append-nil seen) (ap (λ n. (seen, n, false)) (omega arith))
loop-encode_all zero off buf tail seen (f ∷ fs) h t e l = ground (arith, l)
loop-encode_all (suc fuel) off buf tail seen (f ∷ fs) h t e l =
    let split = e ∙ append_assoc (encode f) (encode_all fs) tail in
    let step =
      ap turn split ∙ turn-encode_with f.mask f.opcode f.payload (encode_all fs ++ tail) h.0 in
    rw (decode_loop, step)
      (loop-encode_all fuel (off + length (encode f)) buf tail (seen ++ received f ∷ []) fs h.1 t
          (sym (drop-drop (length (encode f)) off buf)
            ∙ ap (drop (length (encode f))) split
            ∙ drop-append (encode f) (encode_all fs ++ tail))
          (omega (arith, l))
        ∙ rw (append_assoc seen (received f ∷ []) (map received fs)) (
            ap (λ n. (seen ++ received f ∷ map received fs, n, false))
              (omega (arith, length-append (encode f) (encode_all fs)))))

encode_length : (mask : Option Bytes) (o : ℕ) (p : Bytes) → 1 ≤ length (encode_with mask o p)
unfolding ws_encode
encode_length none o p = omega arith
encode_length (some mask) o p = omega arith

encode_all_length : (fs : List Sent) → length fs ≤ length (encode_all fs)
encode_all_length [] = omega arith
encode_all_length (f ∷ fs) = omega (
  arith,
  encode_length f.mask f.opcode f.payload,
  encode_all_length fs,
  length-append (encode f) (encode_all fs),
)

-- Frames within the cap, of a server or masked by a client, that stand one after another in the
-- buffer, before bytes that are not yet a frame, are decoded as they were and in order, and exactly
-- their bytes are consumed.
pub ws_decode-encode_all :
    (fs : List Sent) (tail : Bytes)
    → All Fits fs
    → turn tail ≡ incomplete
    → ws_decode (encode_all fs ++ tail) ≡ (map received fs, length (encode_all fs), false)
unfolding ws_decode
ws_decode-encode_all fs tail h t =
    loop-encode_all (length (encode_all fs ++ tail)) 0 (encode_all fs ++ tail) tail [] fs h t refl
      (omega (arith, encode_all_length fs, length-append (encode_all fs) tail))
    ∙ ap (λ n. (map received fs, n, false)) (omega arith)
