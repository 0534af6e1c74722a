-- ===== src/Frame.antt =====
-- crates/krymux/src/frame.rs: the 10-byte frame header of the multiplexer and whole frames.
pub mod Codec
mod Tests
use krymux.Base.{
  ℕ, ◌%◌, ◌^◌, List, [], ◌∷◌, ◌++◌, ◌&&◌, leb, get_or, length, if◌then◌else◌, Result, ok, err,
}
use krymux.Base.Bytes.{Bytes, to_be32, from_be32}

abbrev pub ft_hello : ℕ
ft_hello = 1

abbrev pub ft_open : ℕ
ft_open = 2

abbrev pub ft_open_ack : ℕ
ft_open_ack = 3

abbrev pub ft_data : ℕ
ft_data = 4

abbrev pub ft_window : ℕ
ft_window = 5

abbrev pub ft_close : ℕ
ft_close = 6

abbrev pub ft_ping : ℕ
ft_ping = 7

abbrev pub ft_pong : ℕ
ft_pong = 8

abbrev pub ft_goaway : ℕ
ft_goaway = 9

abbrev pub flag_compressed : ℕ
flag_compressed = 1

abbrev pub flag_fin : ℕ
flag_fin = 2

abbrev pub header_size : ℕ
header_size = 10

abbrev pub hard_max_frame : ℕ
hard_max_frame = 2 ^ 20

abbrev pub default_max_data : ℕ
default_max_data = 65536

abbrev pub max_hello : ℕ
max_hello = 8192

abbrev pub max_open : ℕ
max_open = 8192

abbrev pub max_control : ℕ
max_control = 8192

pub record FrameHeader : Type 0 where
  pub frame_type : ℕ
  pub flags : ℕ
  pub stream_id : ℕ
  pub length : ℕ

-- The error of `FrameHeader::parse` carries the unknown type.
pub data FrameError : Type 0 where
  unknown_frame_type : ℕ → FrameError

-- The argument is an array of ten bytes; a read beyond a shorter list gives 0.
unfoldable pub parse : Bytes → Result FrameError FrameHeader
parse buf =
    let frame_type = get_or buf 0 0 in
    if leb ft_hello frame_type && leb frame_type ft_goaway
    then ok (record {
      frame_type = frame_type;
      flags = get_or buf 1 0;
      stream_id = from_be32 (get_or buf 2 0) (get_or buf 3 0) (get_or buf 4 0) (get_or buf 5 0);
      length = from_be32 (get_or buf 6 0) (get_or buf 7 0) (get_or buf 8 0) (get_or buf 9 0);
    })
    else err (unknown_frame_type frame_type)

unfoldable pub frame_header : ℕ → ℕ → ℕ → ℕ → Bytes
frame_header frame_type flags stream_id len =
    frame_type ∷ flags ∷ (to_be32 stream_id ++ to_be32 len)

-- `payload.len() as u32` keeps the low 32 bits.
unfoldable pub encode_frame : ℕ → ℕ → ℕ → Bytes → Bytes
unfolding frame_header
encode_frame frame_type flags stream_id payload =
    frame_header frame_type flags stream_id (length payload % 2 ^ 32) ++ payload
