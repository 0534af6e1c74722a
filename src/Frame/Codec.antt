-- ===== src/Frame/Codec.antt =====
-- frame.rs: a header read back, and what a parsed header says of its bytes.
use krymux.Base.{ℕ, ◌≤◌, ◌≡◌, [], ◌∷◌, ◌++◌, ok, All, arith}
use krymux.Base.Bytes.{Bytes, IsByte, IsU32}
use krymux.Frame.{FrameHeader, parse, frame_header}

-- Reading back the header that `frame_header` wrote gives its four fields, for every known frame
-- type and for ids and lengths that fit 32 bits, whatever follows the header.
pub parse-frame_header :
    (t flags sid len : ℕ) (rest : Bytes)
    → 1 ≤ t
    → t ≤ 9
    → IsU32 sid
    → IsU32 len
    → parse (frame_header t flags sid len ++ rest)
      ≡ ok (record { frame_type = t; flags = flags; stream_id = sid; length = len })
unfolding parse frame_header
parse-frame_header t flags sid len rest lo hi hs hl = ground arith

-- A header that parses has one of the nine known frame types.
pub parse_type :
    (buf : Bytes) (fh : FrameHeader) → parse buf ≡ ok fh → (1 ≤ fh.frame_type) × (fh.frame_type ≤ 9)
unfolding parse
parse_type buf fh e = ground arith

-- Ten bytes that parse are the header that `frame_header` writes for the parsed fields, so no two
-- headers parse to the same fields.
pub frame_header-parse :
    (a b c d e f g h i j : ℕ) (fh : FrameHeader)
    → All IsByte (a ∷ b ∷ c ∷ d ∷ e ∷ f ∷ g ∷ h ∷ i ∷ j ∷ [])
    → parse (a ∷ b ∷ c ∷ d ∷ e ∷ f ∷ g ∷ h ∷ i ∷ j ∷ []) ≡ ok fh
    → frame_header fh.frame_type fh.flags fh.stream_id fh.length
      ≡ a ∷ b ∷ c ∷ d ∷ e ∷ f ∷ g ∷ h ∷ i ∷ j ∷ []
unfolding parse frame_header
frame_header-parse a b c d e f g h i j fh bytes p = ground arith
