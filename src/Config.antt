-- ===== src/Config.antt =====
-- crates/krymux/src/config.rs, what it makes of the JSON of a configuration, and
-- `normalize_fingerprint` of crates/krymux/src/keys.rs. Reading the file and deserializing it are
-- parameters; the fields that only pass through are left out.
pub mod Policy
pub mod Fingerprints
mod Tests
use krymux.Base.{
  ℕ, ◌+◌, ◌%◌, ◌^◌, List, [], ◌∷◌, ◌++◌, Option, none, some, Bool, true, false, not, ◌&&◌, ◌||◌,
  ◌==◌, if◌then◌else◌, length, take, drop, all, keep_if, is_empty,
}
use krymux.Base.Bytes.{Bytes, codes, bytes_eq}
use krymux.Base.Json.{
  Json, null, bool, number, other_number, string, array, object, Items, nil, cons, string_items,
  item_list, lookup_field, as_u64, as_str, unwrap_or,
}
use krymux.Base.Text.{
  find, rfind, starts_with, strip_prefix, trim, to_lower, is_hex_digit, parse_unsigned,
}
use krymux.Router.{Upstream, PortPattern, exact, range, any_port, Route, ClientTargets, Router}

unfoldable pub value_strings : Option Json → List Bytes
value_strings (some (string s)) = s ∷ []
value_strings (some (array vs)) = string_items vs
value_strings _ = []

-- `s.parse::<u16>()`.
abbrev pub parse_u16 : Bytes → Option ℕ
parse_u16 s = parse_unsigned 65535 s

unfoldable pub range_of : Option ℕ → Option ℕ → List PortPattern
range_of (some a) (some b) = range a b ∷ []
range_of _ _ = []

unfoldable pub exact_of : Option ℕ → List PortPattern
exact_of none = []
exact_of (some p) = exact p ∷ []

-- A port as text: `*`, a range, or a number.
unfoldable pub port_text : Bytes → List PortPattern
port_text s = if bytes_eq s (codes "*") then any_port ∷ [] else elim (find s b'-') [
  | some i ↦ range_of (parse_u16 (take i s)) (parse_u16 (drop (i + 1) s))
  | none ↦ exact_of (parse_u16 s)
]

-- `as u16` keeps the low 16 bits.
unfoldable pub as_u16 : Option ℕ → Option ℕ
as_u16 none = none
as_u16 (some n) = some (n % 2 ^ 16)

unfoldable pub port_item : Json → List PortPattern
port_item (number n) = exact_of (as_u16 (some n))
port_item (string s) = port_text s
port_item (array (cons a (cons b nil))) = range_of (as_u16 (as_u64 a)) (as_u16 (as_u64 b))
port_item _ = []

unfoldable pub port_items : List Json → List PortPattern
port_items [] = []
port_items (v ∷ vs) = port_item v ++ port_items vs

unfoldable pub parse_ports : Option Json → List PortPattern
parse_ports none = []
parse_ports (some (array vs)) = port_items (item_list vs)
parse_ports (some v) = port_items (v ∷ [])

unfoldable pub unix_upstream : Bytes → Upstream
unix_upstream path = record { host = none; port = 0; unix = some path }

unfoldable pub host_upstream : Option Bytes → Option ℕ → Option Upstream
host_upstream (some host) (some port) = some record { host = some host; port = port; unix = none }
host_upstream _ _ = none

unfoldable pub upstream_text : Bytes → Option Upstream
upstream_text s = elim (strip_prefix s (codes "unix:")) [
  | some path ↦ some (unix_upstream path)
  | none ↦ elim (rfind s b':') [
    | none ↦ none
    | some i ↦ host_upstream (some (take i s)) (parse_u16 (drop (i + 1) s))
  ]
]

abbrev pub and_str : Option Json → Option Bytes
and_str none = none
and_str (some v) = as_str v

abbrev pub and_u64 : Option Json → Option ℕ
and_u64 none = none
and_u64 (some v) = as_u64 v

unfoldable pub upstream_object : Option Bytes → Option Json → Option Json → Option Upstream
upstream_object (some u) host port = some (unix_upstream u)
upstream_object none host port =
    host_upstream (some (unwrap_or (and_str host) (codes "127.0.0.1")))
      (as_u16 (some (unwrap_or (and_u64 port) 0)))

unfoldable pub upstream_value : Json → Option Upstream
upstream_value (string s) = upstream_text s
upstream_value (array (cons host (cons port more))) =
    host_upstream (as_str host) (as_u16 (as_u64 port))
upstream_value (object o) =
    upstream_object (and_str (lookup_field o (codes "unix"))) (lookup_field o (codes "host"))
      (lookup_field o (codes "port"))
upstream_value _ = none

unfoldable pub parse_upstream : Option Json → Option Upstream
parse_upstream none = none
parse_upstream (some v) = upstream_value v

-- What stands in a file, before it is compiled.
pub record RawRoute : Type 0 where
  pub host : Option Json
  pub hosts_alt : Option Json
  pub port : Option Json
  pub ports_alt : Option Json
  pub upstream : Option Json

pub record RawClientTargets : Type 0 where
  pub enabled : Bool
  pub allow_hosts : Option Json
  pub allow_ports : Option Json

pub record AuthCfg : Type 0 where
  pub mode : Bytes
  pub fingerprints : List Bytes
  pub clients : List Bytes

pub record ServerCfg : Type 0 where
  pub auth : AuthCfg
  pub routes : List RawRoute
  pub fallback_upstream : Option Json
  pub fallback_upstream2 : Option Json
  pub client_targets : Option RawClientTargets

pub record CompiledServer : Type 0 where
  pub cfg : ServerCfg
  pub fingerprints : List Bytes
  pub routes : List Route
  pub fallback : Option Upstream
  pub client_targets : ClientTargets

abbrev pub or_else : Option Json → Option Json → Option Json
or_else none b = b
or_else (some a) b = some a

unfoldable pub compile_route : RawRoute → Route
compile_route r = record {
  hosts = value_strings (or_else r.host r.hosts_alt);
  ports = parse_ports (or_else r.port r.ports_alt);
  upstream = parse_upstream r.upstream;
}

unfoldable pub compile_routes : List RawRoute → List Route
compile_routes [] = []
compile_routes (r ∷ rs) = compile_route r ∷ compile_routes rs

-- `ClientTargets::default()`.
abbrev pub no_targets : ClientTargets
no_targets = record { enabled = false; allow_hosts = []; allow_ports = [] }

unfoldable pub or_any_host : List Bytes → List Bytes
or_any_host [] = codes "*" ∷ []
or_any_host (h ∷ hs) = h ∷ hs

unfoldable pub compile_targets : Option RawClientTargets → ClientTargets
compile_targets none = no_targets
compile_targets (some ct) = record {
  enabled = ct.enabled;
  allow_hosts = or_any_host (value_strings ct.allow_hosts);
  allow_ports = parse_ports ct.allow_ports;
}

-- What `normalize_fingerprint` asks of files: whether a path exists, and the fingerprint of the
-- certificate or the public key in it.
pub record KeyFiles : Type 0 where
  pub exists : Bytes → Bool
  pub cert : Bytes → Option (Option Bytes)
  pub spki : Bytes → Option Bytes

abbrev pub sha256_prefix : Bytes
sha256_prefix = codes "sha256:"

unfoldable pub hex_fingerprint : Bytes → Option Bytes
hex_fingerprint h =
    if (length h == 64) && all is_hex_digit h then some (sha256_prefix ++ h) else none

unfoldable pub key_file : KeyFiles → Bytes → Option Bytes
key_file files s =
    if starts_with s (codes "-----BEGIN") || files.exists s
    then elim (files.cert s) [ some fp ↦ fp | none ↦ files.spki s ]
    else none

unfoldable pub plain_fingerprint : KeyFiles → Bytes → Option Bytes
plain_fingerprint files s =
    if (length s == 64) && all is_hex_digit s
    then some (sha256_prefix ++ to_lower s)
    else key_file files s

unfoldable pub normalize_fingerprint : KeyFiles → Bytes → Option Bytes
normalize_fingerprint files input =
    let s = trim input in
    elim (strip_prefix s sha256_prefix) [
      | some hexpart ↦
          hex_fingerprint (to_lower (keep_if (λ c. not (c == b':') && not (c == b' ')) hexpart))
      | none ↦ plain_fingerprint files s
    ]

abbrev pub push_first : Option Bytes → Option (List Bytes) → Option (List Bytes)
push_first (some f) (some fs) = some (f ∷ fs)
push_first _ _ = none

unfoldable pub normalize_all : KeyFiles → List Bytes → Option (List Bytes)
normalize_all files [] = some []
normalize_all files (f ∷ fs) = push_first (normalize_fingerprint files f) (normalize_all files fs)

unfoldable pub compiled : ServerCfg → Option (List Bytes) → Option CompiledServer
compiled cfg none = none
compiled cfg (some fingerprints) = some record {
  cfg = cfg;
  fingerprints = fingerprints;
  routes = compile_routes cfg.routes;
  fallback = parse_upstream (or_else cfg.fallback_upstream cfg.fallback_upstream2);
  client_targets = compile_targets cfg.client_targets;
}

unfoldable pub load_server_cfg : KeyFiles → Option ServerCfg → Option CompiledServer
load_server_cfg files none = none
load_server_cfg files (some cfg) =
    compiled cfg (normalize_all files (cfg.auth.fingerprints ++ cfg.auth.clients))

abbrev pub listening : Bytes → Option ℕ → Option (Bytes × ℕ)
listening host none = none
listening host (some port) = some (host, port)

abbrev pub trim_colons : Bytes → Bytes
trim_colons [] = []
trim_colons (c ∷ s) = if c == b':' then trim_colons s else c ∷ s

unfoldable pub listen_bracket : Bytes → Option (Bytes × ℕ)
listen_bracket rest = elim (find rest b']') [
  | none ↦ none
  | some end ↦ listening (take end rest) (parse_u16 (trim_colons (drop (end + 1) rest)))
]

unfoldable pub listen_plain : Bytes → Option (Bytes × ℕ)
listen_plain s = elim (rfind s b':') [
  | none ↦ listening (codes "0.0.0.0") (parse_u16 s)
  | some i ↦
      listening (if is_empty (take i s) then codes "127.0.0.1" else take i s)
        (parse_u16 (drop (i + 1) s))
]

unfoldable pub parse_listen : Bytes → Option (Bytes × ℕ)
parse_listen s = elim (strip_prefix s (codes "[")) [
  | some rest ↦ listen_bracket rest
  | none ↦ listen_plain s
]
