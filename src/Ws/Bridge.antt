-- ===== src/Ws/Bridge.antt =====
-- ws.rs, `handle_http_or_ws`: admission, the request, the exchange, and the bridge to a session.
use krymux.Base.{
  ℕ, ◌+◌, ◌-◌, List, [], ◌∷◌, ◌++◌, Option, none, some, Bool, true, false, ltb, leb, ◌==◌, ◌||◌,
  if◌then◌else◌, length, drop,
}
use krymux.Base.Bytes.{Bytes, codes, bytes_eq}
use krymux.Base.Text.{to_lower}
use krymux.Ws.Auth.{Env, Auth, Read, chunk, auth_phase}
use krymux.Ws.Codec.{WsFrame, ws_encode, ws_decode, max_ws_message}
use krymux.Ws.Http.{
  HttpHead, parse_http_head, header, ws_accept_key, write_http, serve_static, max_header, crlf,
}

abbrev pub max_unauth_ws_conns : ℕ
max_unauth_ws_conns = 256

-- The loop of `try_acquire`. The list has, for each exchange that fails, the value it met; one that
-- finds the value it expects succeeds. It gives the value that the exchange leaves in the counter.
unfoldable pub try_acquire : ℕ → List ℕ → Option ℕ
try_acquire cur [] = if leb max_unauth_ws_conns cur then none else some (cur + 1)
try_acquire cur (c ∷ cs) =
    let later = try_acquire c cs in if leb max_unauth_ws_conns cur then none else later

-- `drop` of a slot.
unfoldable pub release : ℕ → ℕ
release conns = conns - 1

-- The reader task of the bridge.
pub record Reader : Type 0 where
  pub buf : Bytes
  pub fragment : Option Bytes
  pub delivered : List Bytes
  pub pongs : List Bytes

pub data Reading : Type 0 where
  reading : Reader → Reading
  done : Reader → Reading

unfoldable pub continued : Option Bytes → Bytes → Bytes
continued none payload = payload
continued (some prev) payload = prev ++ payload

unfoldable pub next_reading : Reading → (Reader → Reading) → Reading
next_reading (reading s) k = k s
next_reading (done s) k = done s

-- `deliver` is the outcome of the write to the session, after the messages before; `has_room` that of
-- `try_send` to the queue of pongs.
module _ (deliver : List Bytes → Bytes → Bool) (has_room : List Bytes → Bool) where
  unfoldable pub on_data : Bool → Bytes → Reader → Reading
  on_data fin cur s =
      if ltb max_ws_message (length cur)
      then done record s { fragment = none }
      else if fin
      then if deliver s.delivered cur
        then reading record s { fragment = none; delivered = s.delivered ++ cur ∷ [] }
        else done record s { fragment = none }
      else reading record s { fragment = some cur }

  unfoldable pub bridge_frame : WsFrame → Reader → Reading
  bridge_frame f s =
      if (f.opcode == 2) || (f.opcode == 0)
      then on_data f.fin (continued s.fragment f.payload) s
      else if f.opcode == 8
      then done s
      else if f.opcode == 9
      then if has_room s.pongs
        then reading record s { pongs = s.pongs ++ ws_encode 10 f.payload ∷ [] }
        else reading s
      else reading s

  unfoldable pub bridge_frames : List WsFrame → Reader → Reading
  bridge_frames [] s = reading s
  bridge_frames (f ∷ fs) s = next_reading (bridge_frame f s) (bridge_frames fs)

  unfoldable pub bridge_decoded : List WsFrame × ℕ × Bool → Reader → Reading
  bridge_decoded (frames, consumed, true) s = done record s { buf = drop consumed s.buf }
  bridge_decoded (frames, consumed, false) s =
      bridge_frames frames record s { buf = drop consumed s.buf }

  -- The loop of the task; it waits where the list of reads ends.
  unfoldable pub read_loop : List Read → Reader → Reading
  read_loop [] s = bridge_decoded (ws_decode s.buf) s
  read_loop (chunk (b ∷ bs) ∷ reads) s =
      next_reading (bridge_decoded (ws_decode s.buf) s)
        (λ s1. read_loop reads record s1 { buf = s1.buf ++ b ∷ bs })
  read_loop (_ ∷ reads) s = next_reading (bridge_decoded (ws_decode s.buf) s) done

-- The writer task of the bridge: what its `select!` finds, a pong, the end of the pongs, or a read from
-- the session, which ends with no bytes or an error.
pub data WriterEvent : Type 0 where
  pong : Bytes → WriterEvent
  pongs_gone : WriterEvent
  session_read : Read → WriterEvent

pub record Writer : Type 0 where
  pub pongs_open : Bool
  pub out : List Bytes

pub data Writing : Type 0 where
  writing : Writer → Writing
  stopped : Writer → Writing

unfoldable pub next_writing : Writing → (Writer → Writing) → Writing
next_writing (writing s) k = k s
next_writing (stopped s) k = stopped s

-- `write out frame` is the outcome of a write after those before; the flush is not looked at.
module _ (write : List Bytes → Bytes → Bool) where
  unfoldable pub put_frame : Bytes → Writer → Writing
  put_frame frame s =
      if write s.out frame then writing record s { out = s.out ++ frame ∷ [] } else stopped s

  -- The arm of the pongs is off once they are gone.
  unfoldable pub on_event : WriterEvent → Writer → Writing
  on_event (pong frame) s = if s.pongs_open then put_frame frame s else writing s
  on_event pongs_gone s = writing record s { pongs_open = false }
  on_event (session_read (chunk (b ∷ bs))) s = put_frame (ws_encode 2 (b ∷ bs)) s
  on_event (session_read _) s = stopped s

  unfoldable pub write_loop : List WriterEvent → Writer → Writing
  write_loop [] s = writing s
  write_loop (e ∷ es) s = next_writing (on_event e s) (write_loop es)

-- The reads of the request, up to its blank line.
unfoldable pub read_head : (Bytes → Bytes) → List Read → Bytes → Option (Bytes × List Read)
read_head lossy [] buf = none
read_head lossy (chunk (b ∷ bs) ∷ reads) buf =
    let got = buf ++ b ∷ bs in
    let later = read_head lossy reads got in
    if ltb max_header (length got)
    then none
    else elim (parse_http_head lossy got) [ none ↦ later | some head ↦ some (got, reads) ]
read_head lossy (_ ∷ reads) buf = none

unfoldable pub is_upgrade : HttpHead → Bool
is_upgrade head = elim (header head (codes "upgrade")) [
  | none ↦ false
  | some v ↦ bytes_eq (to_lower v) (codes "websocket")
]

-- What the handler is given besides `env`: the value of the counter at each failed exchange of
-- `try_acquire`, the outcome of the write of the upgrade, and the page and the module it serves.
pub record Host : Type 0 where
  pub lossy : Bytes → Bytes
  pub launcher_page : Bytes → Bytes
  pub browser_sdk : Bytes
  pub sha1 : Bytes → Bytes
  pub met : List ℕ
  pub write_response : Bytes → Bool

abbrev pub refusal : Bytes
refusal =
    write_http (codes "503 Service Unavailable") (codes "text/plain")
      (codes "too many concurrent websocket auth attempts" ++ 10 ∷ [])

-- The end of a connection: a failure, with what was written before it, a page, or the exchange, with
-- the value of the counter it started from.
pub data Outcome : Type 0 where
  failed_with : Bytes → Outcome
  static_page : Bytes → Outcome
  exchange : ℕ → Auth → Outcome

module _ (env : Env) (host : Host) where
  unfoldable pub switching : Bytes → Bytes
  switching key =
      codes "HTTP/1.1 101 Switching Protocols"
      ++ crlf
      ++ codes "Upgrade: websocket"
      ++ crlf
      ++ codes "Connection: Upgrade"
      ++ crlf
      ++ codes "Sec-WebSocket-Accept: "
      ++ ws_accept_key host.sha1 env.crypto.b64_encode key
      ++ crlf
      ++ crlf

  unfoldable pub admitted : Option ℕ → Bytes → Bytes → List Read → Outcome
  admitted none key rest reads = failed_with refusal
  admitted (some conns) key rest reads =
      if host.write_response (switching key)
      then exchange conns (auth_phase env rest reads)
      else failed_with []

  unfoldable pub with_key : ℕ → Option Bytes → Bytes → List Read → Outcome
  with_key conns none rest reads = failed_with []
  with_key conns (some key) rest reads = admitted (try_acquire conns host.met) key rest reads

  unfoldable pub handle_head : ℕ → Option HttpHead → List Read → Outcome
  handle_head conns none reads = failed_with []
  handle_head conns (some head) reads =
      if is_upgrade head
      then with_key conns (header head (codes "sec-websocket-key")) head.rest reads
      else static_page
          (serve_static host.launcher_page host.browser_sdk head.req_line env.identity.fingerprint)

  unfoldable pub after_head : ℕ → Option (Bytes × List Read) → Outcome
  after_head conns none = failed_with []
  after_head conns (some (buf, reads)) = handle_head conns (parse_http_head host.lossy buf) reads

  -- `conns` is the counter as the handler first reads it.
  unfoldable pub handle_http_or_ws : ℕ → List Read → Outcome
  handle_http_or_ws conns reads = after_head conns (read_head host.lossy reads [])
