-- ===== src/Mux/Reading.antt =====
-- mux.rs, `reader_task`: frames cut out of the byte stream, their caps, and the end of the loop.
use krymux.Base.{
  ℕ, zero, suc, ◌+◌, ◌%◌, ◌^◌, ◌≤◌, ◌<◌, ◌≡◌, refl, ◌∙◌, ◌≢◌, ◌⊎◌, inl, inr, List, ◌++◌, Option,
  length, length-append, length-take, length-drop, take, drop, take-append, drop-append,
  take-append-drop, arith, Result-cases,
}
use krymux.Base.Bytes.{Bytes, IsU32}
use krymux.Base.Json.{Json}
use krymux.Frame.{FrameHeader, parse, frame_header, encode_frame}
use krymux.Frame.Codec.{parse_type}
use krymux.Compress.{Registry}
use krymux.Mux.State.{Shared, Inbound}
use krymux.Mux.Handle.{MuxError, Handled, handled, failed, parked, handle_frame}
use krymux.Mux.Tasks.{
  ReadFrame, short, bad_frame, oversized, frame, frame_cap, read_frame, read_payload, no_fuel,
  reader_loop,
}

pub frame_cap-le : (t : ℕ) → frame_cap t ≤ 2 ^ 20
unfolding frame_cap
frame_cap-le t = ground arith

-- The ten bytes of a header come off the front of an input.
read_header :
    (t flags sid len : ℕ) (body : Bytes)
    → 1 ≤ t
    → t ≤ 9
    → IsU32 sid
    → IsU32 len
    → read_frame (frame_header t flags sid len ++ body)
      ≡ read_payload (record { frame_type = t; flags = flags; stream_id = sid; length = len }) body
unfolding read_frame frame_header parse
read_header t flags sid len body lo hi hs hl = ground arith

read_payload_fits :
    (fh : FrameHeader) (payload rest : Bytes)
    → fh.length ≡ length payload
    → length payload ≤ frame_cap fh.frame_type
    → read_payload fh (payload ++ rest) ≡ frame fh payload rest
unfolding read_payload
read_payload_fits fh payload rest e fits =
    rw (e, length-append payload rest, take-append payload rest, drop-append payload rest)
      (ground arith)

-- For every frame type, flags and 32-bit id, the reader takes back a frame that `encode_frame` wrote,
-- with its payload and whatever follows it, when the payload is within the cap of its type.
pub read_frame-encode_frame :
    (t flags sid : ℕ) (payload rest : Bytes)
    → 1 ≤ t
    → t ≤ 9
    → IsU32 sid
    → length payload ≤ frame_cap t
    → read_frame (encode_frame t flags sid payload ++ rest)
      ≡ frame
          (record { frame_type = t; flags = flags; stream_id = sid; length = length payload })
          payload
          rest
read_frame-encode_frame t flags sid payload rest lo hi hs fits =
    let small : length payload < 2 ^ 32 = omega (arith, frame_cap-le t) in
    let kept : length payload % 2 ^ 32 ≡ length payload = omega arith in
    unfold encode_frame in
    rw kept (
      read_header t flags sid (length payload) (payload ++ rest) lo hi hs small
      ∙ read_payload_fits _ payload rest refl fits)

read_payload_bounds :
    (fh g : FrameHeader) (body payload rest : Bytes)
    → read_payload fh body ≡ frame g payload rest
    → (g ≡ fh)
      × (length payload ≡ fh.length)
      × (fh.length ≤ frame_cap fh.frame_type)
      × (payload ++ rest ≡ body)
unfolding read_payload
read_payload_bounds fh g body payload rest e =
    ground (arith, take-append-drop fh.length body, length-take fh.length body)

-- A frame that the reader takes has a known type and a payload of the length that its header names,
-- within the cap of its type and at most 2^20; the input is the ten bytes of the header, the payload
-- and the rest, so the rest is shorter by ten bytes at least.
pub read_frame_bounds :
    (input payload rest : Bytes) (fh : FrameHeader)
    → read_frame input ≡ frame fh payload rest
    → (1 ≤ fh.frame_type)
      × (fh.frame_type ≤ 9)
      × (length payload ≡ fh.length)
      × (fh.length ≤ frame_cap fh.frame_type)
      × (fh.length ≤ 2 ^ 20)
      × (take 10 input ++ payload ++ rest ≡ input)
unfolding read_frame
read_frame_bounds input payload rest fh e = elim (Result-cases (parse (take 10 input))) [
  | inl (g, p) ↦ ground (
    arith,
    p,
    parse_type (take 10 input) g p,
    frame_cap-le fh.frame_type,
    read_payload_bounds g fh (drop 10 input) payload rest,
    take-append-drop 10 input,
  )
  | inr (x, p) ↦ ground (arith, p)
]

read_frame_shorter :
    (input payload rest : Bytes) (fh : FrameHeader)
    → read_frame input ≡ frame fh payload rest
    → length rest + 10 ≤ length input
unfolding read_frame
read_frame_shorter input payload rest fh e = elim (Result-cases (parse (take 10 input))) [
  | inl (g, p) ↦ ground (
    arith,
    p,
    read_payload_bounds g fh (drop 10 input) payload rest,
    length-drop 10 input,
    length-append payload rest,
  )
  | inr (x, p) ↦ ground (arith, p)
]

pub ReadFrame-cases :
    (f : ReadFrame)
    → ((f ≡ short) ⊎ (f ≡ bad_frame) ⊎ (f ≡ oversized))
      ⊎ ((fh : FrameHeader) × (payload : Bytes) × (rest : Bytes) × (f ≡ frame fh payload rest))
ReadFrame-cases short = inl (inl refl)
ReadFrame-cases bad_frame = inl (inr (inl refl))
ReadFrame-cases oversized = inl (inr (inr refl))
ReadFrame-cases (frame fh payload rest) = inr (fh, payload, rest, refl)

pub Handled-cases :
    (h : Handled)
    → ((sh : Shared) × (h ≡ handled sh))
      ⊎ ((e : MuxError) × (h ≡ failed e))
      ⊎ ((sh : Shared) × (r : ℕ) × (ms : List Inbound) × (h ≡ parked sh r ms))
Handled-cases (handled sh) = inl (sh, refl)
Handled-cases (failed e) = inr (inl (e, refl))
Handled-cases (parked sh r ms) = inr (inr (sh, r, ms, refl))

-- With more fuel than input bytes the loop of the reader never runs out of fuel, on every input and
-- whatever the session does with the frames: it ends, or it waits for room in an inbound queue.
pub reader_loop-ne-no_fuel :
    (reg : Registry) (from_slice : Bytes → Option Json) (to_string : Json → Bytes) (now fuel : ℕ)
    (sh : Shared) (input : Bytes)
    → length input < fuel
    → reader_loop reg from_slice to_string now fuel sh input ≢ no_fuel
unfolding reader_loop
reader_loop-ne-no_fuel reg from_slice to_string now zero sh input h = elim h [ ]
reader_loop-ne-no_fuel reg from_slice to_string now (suc fuel) sh input h =
    elim (ReadFrame-cases (read_frame input)) [
      | inl (inl e) ↦ rw (e, reader_loop) (λ x. cc)
      | inl (inr (inl e)) ↦ rw (e, reader_loop) (λ x. cc)
      | inl (inr (inr e)) ↦ rw (e, reader_loop) (λ x. cc)
      | inr (fh, payload, rest, e) ↦
          let shorter = read_frame_shorter input payload rest fh e in
          elim (Handled-cases (handle_frame reg from_slice to_string now sh fh payload)) [
            | inl (sh', p) ↦
                rw (e, reader_loop, p)
                  (reader_loop-ne-no_fuel reg from_slice to_string now fuel sh' rest (omega arith))
            | inr (inl (x, p)) ↦ rw (e, reader_loop, p) (λ x. cc)
            | inr (inr (sh', r, ms, p)) ↦ rw (e, reader_loop, p) (λ x. cc)
          ]
    ]
