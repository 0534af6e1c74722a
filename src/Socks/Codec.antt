-- ===== src/Socks/Codec.antt =====
-- socks5.rs, the UDP relay: what one side writes, the other reads back.
use krymux.Base.{
  ℕ, suc, ◌+◌, ◌%◌, ◌^◌, ◌≤◌, ◌<◌, ◌≡◌, ◌⊎◌, ◌↔◌, inl, inr, refl, sym, ap, ◌∙◌, ◌∷◌, ◌++◌, false,
  length, ltb, take, drop, get_or, arith, take-append, drop-append, length-append, append_assoc,
  drop-drop, if_false,
}
use mathlib.Core.Path.{subst}
use krymux.Base.Bytes.{
  Bytes, IsU16, IsU32, to_be16, from_be16, to_be32, from_be32, from_be16-to_be16, from_be32-to_be32,
}
use krymux.Socks.{
  UdpFrame, max_udp_payload, encode_addr, encode_udp_frame, build_udp_reply, got_frame,
  read_udp_tail, read_udp_addr, read_udp_frame, parsed, panics, parse_udp_rest, parse_udp_domain,
  parse_udp_header,
}

-- A frame of which the address has the length that its type wants, and which fits its fields.
pub record IsUdpFrame (f : UdpFrame) : Type 0 where
  pub address :
      ((f.atyp ≡ 1) × (length f.addr ≡ 4))
      ⊎ (((f.atyp ≡ 4) × (length f.addr ≡ 16)) ⊎ ((f.atyp ≡ 3) × (length f.addr < 256)))
  pub port_fits : IsU16 f.port
  pub small : length f.payload ≤ max_udp_payload

-- The payload behind a port and a length.
tail_read :
    (f : UdpFrame) (a b c d e g : ℕ) (rest : Bytes)
    → from_be16 a b ≡ f.port
    → from_be32 c d e g ≡ length f.payload
    → length f.payload ≤ max_udp_payload
    → read_udp_tail f.atyp f.addr (a ∷ b ∷ c ∷ d ∷ e ∷ g ∷ (f.payload ++ rest)) ≡ got_frame f rest
unfolding read_udp_tail
tail_read f a b c d e g rest port len small =
    let long : ltb (length (f.payload ++ rest)) (length f.payload) ≡ false =
      ground (arith, length-append f.payload rest) in
    let short : ltb max_udp_payload (length f.payload) ≡ false = ground arith in
    let more : ltb (suc (suc (suc (suc (suc (suc (length (f.payload ++ rest)))))))) 6 ≡ false =
      ground arith in
    rw (port, len, more, short, long, take-append f.payload rest, drop-append f.payload rest) refl

-- What both encoders write behind the address.
abbrev behind : UdpFrame → Bytes → Bytes
behind f rest = to_be16 f.port ++ to_be32 (length f.payload % 2 ^ 32) ++ (f.payload ++ rest)

addr_read :
    (f : UdpFrame) (rest : Bytes)
    → IsU16 f.port
    → length f.payload ≤ max_udp_payload
    → read_udp_addr f.atyp (length f.addr) (f.addr ++ behind f rest) ≡ got_frame f rest
unfolding read_udp_addr
addr_read f rest port small =
    let long : ltb (length (f.addr ++ behind f rest)) (length f.addr) ≡ false =
      ground (arith, length-append f.addr (behind f rest)) in
    let p = from_be16-to_be16 f.port port in
    let l : length f.payload % 2 ^ 32 ≡ length f.payload = omega arith in
    let n : IsU32 (length f.payload % 2 ^ 32) = omega arith in
    let back = from_be32-to_be32 (length f.payload % 2 ^ 32) n ∙ l in
    rw (long, take-append f.addr (behind f rest), drop-append f.addr (behind f rest))
      (tail_read f _ _ _ _ _ _ rest p back small)

regroup : (a p l q r : Bytes) → a ++ p ++ l ++ q ++ r ≡ a ++ (p ++ (l ++ (q ++ r)))
regroup a p l q r =
    append_assoc (a ++ p ++ l) q r
    ∙ append_assoc (a ++ p) l (q ++ r)
    ∙ append_assoc a p (l ++ (q ++ r))

-- A frame of the relay is read back from the front of any input, with its address, port and payload, and
-- the rest of the input is left; this holds for every address type and every payload within the limit.
pub read_udp_frame-encode_udp_frame :
    (f : UdpFrame) (rest : Bytes)
    → IsUdpFrame f
    → read_udp_frame (encode_udp_frame f ++ rest) ≡ got_frame f rest
unfolding read_udp_frame encode_udp_frame encode_addr
read_udp_frame-encode_udp_frame f rest v =
    let read = addr_read f rest v.port_fits v.small in
    let join =
      regroup f.addr (to_be16 f.port) (to_be32 (length f.payload % 2 ^ 32)) f.payload rest in
    elim v.address [
      | inl (t, l) ↦ rw (t, join) (rw (t, l) at read)
      | inr (inl (t, l)) ↦ rw (t, join) (rw (t, l) at read)
      | inr (inr (t, l)) ↦
          let byte : length f.addr % 256 ≡ length f.addr = omega arith in
          rw (t, join, byte) (rw t (rw t at read))
    ]

-- The only datagram that makes `parse_udp_header` panic is one of four bytes that names a domain: it
-- reads the length of the name without looking whether it is there.
pub parse_udp_header-panics :
    (pkt : Bytes)
    → (parse_udp_header pkt ≡ panics)
      ↔ ((length pkt ≡ 4) × ((get_or pkt 2 0 ≡ 0) × (get_or pkt 3 0 ≡ 3)))
unfolding parse_udp_header parse_udp_domain parse_udp_rest
parse_udp_header-panics pkt = ground arith

take_prefix : (n : ℕ) (xs ys : Bytes) → length xs ≡ n → take n (xs ++ ys) ≡ xs
take_prefix n xs ys e = subst (λ k. take k (xs ++ ys) ≡ xs) e (take-append xs ys)

drop_prefix : (n : ℕ) (xs ys : Bytes) → length xs ≡ n → drop n (xs ++ ys) ≡ ys
drop_prefix n xs ys e = subst (λ k. drop k (xs ++ ys) ≡ ys) e (drop-append xs ys)

rest_parsed :
    (f : UdpFrame)
    → IsU16 f.port
    → parse_udp_rest f.atyp f.addr (to_be16 f.port ++ f.payload) ≡ parsed f
unfolding parse_udp_rest
rest_parsed f port =
    let more : ltb (suc (suc (length f.payload))) 2 ≡ false = ground arith in
    rw (more, from_be16-to_be16 f.port port) refl

-- An address of known length at the front of what follows the header of a datagram.
fixed_parsed :
    (f : UdpFrame) (n : ℕ)
    → length f.addr ≡ n
    → IsU16 f.port
    → parse_udp_rest f.atyp
        (take n (f.addr ++ (to_be16 f.port ++ f.payload)))
        (drop n (f.addr ++ (to_be16 f.port ++ f.payload)))
      ≡ parsed f
fixed_parsed f n e port =
    let behind = to_be16 f.port ++ f.payload in
    rw (take_prefix n f.addr behind e, drop_prefix n f.addr behind e) (rest_parsed f port)

long_enough :
    (f : UdpFrame)
    → length (f.addr ++ (to_be16 f.port ++ f.payload)) ≡ length f.addr + (length f.payload + 2)
long_enough f = omega (arith, length-append f.addr (to_be16 f.port ++ f.payload))

domain_parsed :
    (f : UdpFrame)
    → parse_udp_domain (0 ∷ 0 ∷ 0 ∷ 3 ∷ length f.addr ∷ (f.addr ++ (to_be16 f.port ++ f.payload)))
      ≡ parse_udp_rest 3 f.addr (to_be16 f.port ++ f.payload)
unfolding parse_udp_domain
domain_parsed f =
    let n = length f.addr in
    let behind = to_be16 f.port ++ f.payload in
    let size = long_enough f in
    let pkt : Bytes = 0 ∷ 0 ∷ 0 ∷ 3 ∷ n ∷ (f.addr ++ behind) in
    let five : ltb (length pkt) 5 ≡ false = ground (arith, size) in
    let fits : ltb (length pkt) (5 + n + 2) ≡ false = ground (arith, size) in
    let skip : drop (5 + n) pkt ≡ behind = sym (drop-drop n 5 pkt) ∙ drop-append f.addr behind in
    if_false _ _ _ five
    ∙ if_false _ _ _ fits
    ∙ ap (λ x. parse_udp_rest 3 x (drop (5 + n) pkt)) (take-append f.addr behind)
    ∙ ap (parse_udp_rest 3 f.addr) skip

-- A reply that the relay builds parses, as a datagram of a client would, to the same address, port and
-- payload, for every address type.
pub parse_udp_header-build_udp_reply :
    (f : UdpFrame) → IsUdpFrame f → parse_udp_header (build_udp_reply f) ≡ parsed f
unfolding parse_udp_header build_udp_reply encode_addr
parse_udp_header-build_udp_reply f v =
    let join = append_assoc f.addr (to_be16 f.port) f.payload in
    let size = long_enough f in
    elim v.address [
      | inl (t, l) ↦
          let fits : ltb (suc (suc (suc (suc (length (f.addr ++ (to_be16 f.port ++ f.payload)))))))
                8
              ≡ false =
            ground (arith, size) in
          let four : ltb (suc (suc (suc (suc (length (f.addr ++ (to_be16 f.port ++ f.payload)))))))
                4
              ≡ false =
            ground (arith, size) in
          rw (t, join, four, fits) (rw t at (fixed_parsed f 4 l v.port_fits))
      | inr (inl (t, l)) ↦
          let fits : ltb (suc (suc (suc (suc (length (f.addr ++ (to_be16 f.port ++ f.payload)))))))
                20
              ≡ false =
            ground (arith, size) in
          let four : ltb (suc (suc (suc (suc (length (f.addr ++ (to_be16 f.port ++ f.payload)))))))
                4
              ≡ false =
            ground (arith, size) in
          rw (t, join, four, fits) (rw t at (fixed_parsed f 16 l v.port_fits))
      | inr (inr (t, l)) ↦
          let byte : length f.addr % 256 ≡ length f.addr = omega arith in
          let four : ltb
                (suc (suc (suc (suc (suc (length (f.addr ++ (to_be16 f.port ++ f.payload)))))))) 4
              ≡ false =
            ground (arith, size) in
          rw (t, join, byte, four) (domain_parsed f ∙ rw t at (rest_parsed f v.port_fits))
    ]
