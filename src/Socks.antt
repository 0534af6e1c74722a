-- ===== src/Socks.antt =====
-- crates/krymux/src/socks5.rs, the UDP relay: the frames of a UDP stream and the headers of datagrams.
pub mod Codec
mod Tests
use krymux.Base.{
  ℕ, ◌+◌, ◌%◌, ◌^◌, List, [], ◌∷◌, ◌++◌, Bool, true, false, not, Option, none, some, length, ltb,
  ◌==◌, if◌then◌else◌, take, drop, get_or,
}
use krymux.Base.Bytes.{Bytes, to_be16, from_be16, to_be32, from_be32}

abbrev pub max_udp_payload : ℕ
max_udp_payload = 65535

pub record UdpFrame : Type 0 where
  pub atyp : ℕ
  pub addr : Bytes
  pub port : ℕ
  pub payload : Bytes

-- The address as both encoders write it: a domain has its length in front, as a u8.
unfoldable pub encode_addr : ℕ → Bytes → Bytes
encode_addr atyp addr = if atyp == 3 then length addr % 256 ∷ addr else addr

unfoldable pub encode_udp_frame : UdpFrame → Bytes
encode_udp_frame f =
    f.atyp ∷ encode_addr f.atyp f.addr
    ++ to_be16 f.port
    ++ to_be32 (length f.payload % 2 ^ 32)
    ++ f.payload

unfoldable pub build_udp_reply : UdpFrame → Bytes
build_udp_reply f = 0 ∷ 0 ∷ 0 ∷ f.atyp ∷ encode_addr f.atyp f.addr ++ to_be16 f.port ++ f.payload

-- What `read_udp_frame` finds at the front of its input: a frame and the rest, the end of the input
-- before the frame ends, or an error.
pub data ReadUdp : Type 0 where
  got_frame : UdpFrame → Bytes → ReadUdp
  ended bad_atyp too_large : ReadUdp

-- The part that follows the address.
unfoldable pub read_udp_tail : ℕ → Bytes → Bytes → ReadUdp
read_udp_tail atyp addr input =
    let rest = drop 6 input in
    let len =
      from_be32 (get_or input 2 0) (get_or input 3 0) (get_or input 4 0) (get_or input 5 0) in
    if ltb (length input) 6
    then ended
    else if ltb max_udp_payload len
    then too_large
    else if ltb (length rest) len
    then ended
    else got_frame
        (record {
          atyp = atyp;
          addr = addr;
          port = from_be16 (get_or input 0 0) (get_or input 1 0);
          payload = take len rest;
        })
        (drop len rest)

-- An address of `n` bytes.
unfoldable pub read_udp_addr : ℕ → ℕ → Bytes → ReadUdp
read_udp_addr atyp n input =
    if ltb (length input) n then ended else read_udp_tail atyp (take n input) (drop n input)

unfoldable pub read_udp_frame : Bytes → ReadUdp
read_udp_frame [] = ended
read_udp_frame (atyp ∷ input) =
    if atyp == 1
    then read_udp_addr atyp 4 input
    else if atyp == 4
    then read_udp_addr atyp 16 input
    else if atyp == 3
    then elim input [ [] ↦ ended | n ∷ rest ↦ read_udp_addr atyp n rest ]
    else bad_atyp

-- What `parse_udp_header` does with a datagram; `panics` is an index out of range.
pub data UdpHeader : Type 0 where
  parsed : UdpFrame → UdpHeader
  refused panics : UdpHeader

-- The port and the payload, behind the address.
unfoldable pub parse_udp_rest : ℕ → Bytes → Bytes → UdpHeader
parse_udp_rest atyp addr rest =
    if ltb (length rest) 2
    then refused
    else parsed (record {
      atyp = atyp;
      addr = addr;
      port = from_be16 (get_or rest 0 0) (get_or rest 1 0);
      payload = drop 2 rest;
    })

-- A domain: `pkt[4]` is its length.
unfoldable pub parse_udp_domain : Bytes → UdpHeader
parse_udp_domain pkt =
    let n = get_or pkt 4 0 in
    if ltb (length pkt) 5
    then panics
    else if ltb (length pkt) (5 + n + 2)
    then refused
    else parse_udp_rest 3 (take n (drop 5 pkt)) (drop (5 + n) pkt)

unfoldable pub parse_udp_header : Bytes → UdpHeader
parse_udp_header pkt =
    let atyp = get_or pkt 3 0 in
    if ltb (length pkt) 4
    then refused
    else if not (get_or pkt 2 0 == 0)
    then refused
    else if atyp == 1
    then (if ltb (length pkt) 8
        then refused
        else parse_udp_rest 1 (take 4 (drop 4 pkt)) (drop 8 pkt))
    else if atyp == 4
    then (if ltb (length pkt) 20
        then refused
        else parse_udp_rest 4 (take 16 (drop 4 pkt)) (drop 20 pkt))
    else if atyp == 3
    then parse_udp_domain pkt
    else refused
