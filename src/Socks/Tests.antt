-- ===== src/Socks/Tests.antt =====
-- socks5.rs, the UDP relay: runs of the codec, and its theorems at concrete inputs.
use krymux.Base.{◌≡◌, ◌↔◌, refl, [], ◌∷◌, ◌++◌, length, get_or, inr, arith}
use krymux.Base.Bytes.{Bytes, codes}
use krymux.Socks.{
  UdpFrame, encode_addr, encode_udp_frame, build_udp_reply, got_frame, read_udp_frame, parsed,
  refused, panics, parse_udp_header, parse_udp_domain,
}
use krymux.Socks.Codec.{
  IsUdpFrame, read_udp_frame-encode_udp_frame, parse_udp_header-panics,
  parse_udp_header-build_udp_reply,
}

abbrev bad : Bytes
bad = 0 ∷ 0 ∷ 0 ∷ 3 ∷ []

abbrev dns : UdpFrame
dns = record { atyp = 3; addr = codes "a.b"; port = 53; payload = 1 ∷ 2 ∷ [] }

dns-IsUdpFrame : IsUdpFrame dns
dns-IsUdpFrame = record {
  address = inr (inr (refl, omega arith));
  port_fits = omega arith;
  small = omega arith;
}

run_encode_udp :
    encode_udp_frame dns ≡ 3 ∷ 3 ∷ b'a' ∷ b'.' ∷ b'b' ∷ 0 ∷ 53 ∷ 0 ∷ 0 ∷ 0 ∷ 2 ∷ 1 ∷ 2 ∷ []
unfolding encode_udp_frame encode_addr
run_encode_udp = refl

run_fragment : parse_udp_header (0 ∷ 0 ∷ 1 ∷ 1 ∷ 127 ∷ 0 ∷ 0 ∷ 1 ∷ 0 ∷ 53 ∷ []) ≡ refused
unfolding parse_udp_header
run_fragment = refl

run_panics : parse_udp_header (0 ∷ 0 ∷ 0 ∷ 3 ∷ []) ≡ panics
unfolding parse_udp_header parse_udp_domain
run_panics = refl

read_udp_frame-encode_udp_frame_example :
    read_udp_frame (encode_udp_frame dns ++ 9 ∷ []) ≡ got_frame dns (9 ∷ [])
read_udp_frame-encode_udp_frame_example =
    read_udp_frame-encode_udp_frame dns (9 ∷ []) dns-IsUdpFrame

parse_udp_header-build_udp_reply_example : parse_udp_header (build_udp_reply dns) ≡ parsed dns
parse_udp_header-build_udp_reply_example = parse_udp_header-build_udp_reply dns dns-IsUdpFrame

parse_udp_header-panics_example :
    (parse_udp_header bad ≡ panics)
    ↔ ((length bad ≡ 4) × ((get_or bad 2 0 ≡ 0) × (get_or bad 3 0 ≡ 3)))
parse_udp_header-panics_example = parse_udp_header-panics bad
