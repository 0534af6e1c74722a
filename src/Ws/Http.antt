-- ===== src/Ws/Http.antt =====
-- ws.rs, the HTTP request that opens a connection, and the pages it may ask for. `from_utf8_lossy` and
-- `launcher_page` are parameters, and so are the hash and the encoding of `ws_accept_key`.
use krymux.Base.{
  ℕ, suc, ◌+◌, ◌*◌, List, [], ◌∷◌, ◌++◌, Option, none, some, Bool, ◌==◌, ◌&&◌, if◌then◌else◌,
  length, take, drop, get_elem?,
}
use krymux.Base.Bytes.{Bytes, codes, bytes_eq}
use krymux.Base.Json.{unwrap_or}
use krymux.Base.Text.{starts_with, find, trim, to_lower, split_on, take_until, decimal}

abbrev pub ws_guid : Bytes
ws_guid = codes "258EAFA5-E914-47DA-95CA-C5AB0DC85B11"

abbrev pub max_header : ℕ
max_header = 16 * 1024

abbrev pub crlf : Bytes
crlf = 13 ∷ 10 ∷ []

abbrev pub sdk_placeholder_prefix : Bytes
sdk_placeholder_prefix = codes "// ectun-browser placeholder"

unfoldable pub sdk_is_placeholder : Bytes → Bool
sdk_is_placeholder browser_sdk = starts_with browser_sdk sdk_placeholder_prefix

pub record HttpHead : Type 0 where
  pub req_line : Bytes
  pub headers : List (Bytes × Bytes)
  pub rest : Bytes

-- `windows(4).position(...)`.
abbrev pub blank_line : Bytes → Option ℕ
blank_line [] = none
blank_line (c ∷ s) =
    let later = blank_line s in
    if starts_with (c ∷ s) (crlf ++ crlf)
    then some 0
    else elim later [ none ↦ none | some i ↦ some (suc i) ]

-- `split("\r\n")`.
abbrev pub add_to_line : ℕ → List Bytes → List Bytes
add_to_line c [] = (c ∷ []) ∷ []
add_to_line c (l ∷ ls) = (c ∷ l) ∷ ls

abbrev pub split_lines : Bytes → List Bytes
split_lines [] = [] ∷ []
split_lines (c ∷ []) = (c ∷ []) ∷ []
split_lines (c ∷ d ∷ s) =
    let later = split_lines (d ∷ s) in
    let skipped = split_lines s in
    if (c == 13) && (d == 10) then [] ∷ skipped else add_to_line c later

unfoldable pub header_line : Bytes → List (Bytes × Bytes)
header_line l = elim (find l b':') [
  | none ↦ []
  | some c ↦ (to_lower (trim (take c l)), trim (drop (c + 1) l)) ∷ []
]

unfoldable pub header_lines : List Bytes → List (Bytes × Bytes)
header_lines [] = []
header_lines (l ∷ ls) = header_line l ++ header_lines ls

unfoldable pub head_of_lines : List Bytes → Bytes → Option HttpHead
head_of_lines [] rest = none
head_of_lines (l ∷ ls) rest = some record { req_line = l; headers = header_lines ls; rest = rest }

unfoldable pub parse_http_head : (Bytes → Bytes) → Bytes → Option HttpHead
parse_http_head from_utf8_lossy buf = elim (blank_line buf) [
  | none ↦ none
  | some idx ↦ head_of_lines (split_lines (from_utf8_lossy (take idx buf))) (drop (idx + 4) buf)
]

unfoldable pub header_in : List (Bytes × Bytes) → Bytes → Option Bytes
header_in [] name = none
header_in ((k, v) ∷ hs) name = if bytes_eq k name then some v else header_in hs name

unfoldable pub header : HttpHead → Bytes → Option Bytes
header head name = header_in head.headers name

unfoldable pub ws_accept_key : (Bytes → Bytes) → (Bytes → Bytes) → Bytes → Bytes
ws_accept_key sha1 b64 client_key = b64 (sha1 (client_key ++ ws_guid))

-- What `write_http` writes, where no write fails.
unfoldable pub write_http : Bytes → Bytes → Bytes → Bytes
write_http status ct body =
    codes "HTTP/1.1 "
    ++ status
    ++ crlf
    ++ codes "Content-Type: "
    ++ ct
    ++ crlf
    ++ codes "Content-Length: "
    ++ decimal (length body)
    ++ crlf
    ++ codes "Cache-Control: no-store"
    ++ crlf
    ++ crlf
    ++ body

unfoldable pub static_path : Bytes → Bytes
static_path req_line =
    take_until b'?' (unwrap_or (get_elem? (split_on (λ c. c == b' ') req_line) 1) (codes "/"))

unfoldable pub serve_static : (Bytes → Bytes) → Bytes → Bytes → Bytes → Bytes
serve_static launcher_page browser_sdk req_line ws_fingerprint =
    let path = static_path req_line in
    if bytes_eq path (codes "/")
    then write_http (codes "200 OK") (codes "text/html; charset=utf-8")
        (launcher_page ws_fingerprint)
    else if bytes_eq path (codes "/sdk/ectun-browser.mjs")
    then write_http (codes "200 OK") (codes "text/javascript; charset=utf-8") browser_sdk
    else write_http (codes "404 Not Found") (codes "text/plain") (codes "not found" ++ 10 ∷ [])
