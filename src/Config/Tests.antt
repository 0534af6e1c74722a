-- ===== src/Config/Tests.antt =====
-- config.rs: runs of the parsers, and the theorems at concrete inputs.
use krymux.Base.{◌≡◌, refl, [], ◌∷◌, ◌++◌, none, some, true, false}
use krymux.Base.Bytes.{Bytes, codes}
use krymux.Base.Json.{number, string, items, array}
use krymux.Config.{
  KeyFiles, RawClientTargets, ServerCfg, CompiledServer, parse_listen, listen_plain, listen_bracket,
  parse_ports, port_items, port_item, port_text, exact_of, range_of, as_u16, parse_upstream,
  or_else, upstream_value, upstream_text, host_upstream, load_server_cfg, compiled, compile_routes,
  compile_targets, or_any_host, value_strings, normalize_all, normalize_fingerprint,
  plain_fingerprint,
}
use krymux.Config.Policy.{router_of, load_server_cfg-dial}
use krymux.Config.Fingerprints.{AreCanonical}
use krymux.Mux.State.{Target}
use krymux.Router.{exact, range, any_port, resolve, resolve_from, no_route, dial, port_matches}

run_listen : parse_listen (codes "[::1]:443") ≡ some (codes "::1", 443)
unfolding parse_listen listen_bracket
run_listen = refl

run_listen_bare : parse_listen (codes ":8080") ≡ some (codes "127.0.0.1", 8080)
unfolding parse_listen listen_plain
run_listen_bare = refl

run_ports :
    parse_ports
      (some (array (items (number 80 ∷ string (codes "1000-2000") ∷ string (codes "*") ∷ []))))
    ≡ exact 80 ∷ range 1000 2000 ∷ any_port ∷ []
unfolding parse_ports port_items port_item port_text exact_of range_of as_u16
run_ports = refl

-- A number above the ports wraps, and what is not a port is left out.
run_ports_wrap : parse_ports (some (number 65616)) ≡ exact 80 ∷ []
unfolding parse_ports port_items port_item exact_of as_u16
run_ports_wrap = refl

run_ports_dropped : port_matches (parse_ports (some (string (codes "https")))) 22 ≡ true
unfolding parse_ports port_items port_item port_text exact_of port_matches
run_ports_dropped = refl

run_upstream :
    parse_upstream (some (string (codes "10.0.0.1:80")))
    ≡ some record { host = some (codes "10.0.0.1"); port = 80; unix = none }
unfolding parse_upstream upstream_value upstream_text host_upstream
run_upstream = refl

abbrev no_files : KeyFiles
no_files = record { exists = λ s. false; cert = λ s. none; spki = λ s. none }

no_files-AreCanonical : AreCanonical no_files
no_files-AreCanonical = record { certs = λ s fp e. cc e; spkis = λ s fp e. cc e }

abbrev open_cfg : ServerCfg
open_cfg = record {
  auth = record { mode = codes "open"; fingerprints = []; clients = [] };
  routes = [];
  fallback_upstream = none;
  fallback_upstream2 = none;
  client_targets = some record { enabled = true; allow_hosts = none; allow_ports = none };
}

abbrev open_server : CompiledServer
open_server = record {
  cfg = open_cfg;
  fingerprints = [];
  routes = [];
  fallback = none;
  client_targets = record { enabled = true; allow_hosts = codes "*" ∷ []; allow_ports = [] };
}

open_loads : load_server_cfg no_files (some open_cfg) ≡ some open_server
unfolding load_server_cfg compiled compile_routes compile_targets or_any_host value_strings
    parse_ports parse_upstream normalize_all
open_loads = refl

abbrev nameless : Target
nameless = record { host = none; port = 22; unix = none; hint = codes "raw" }

open_dials : resolve (router_of open_server) nameless ≡ dial
unfolding resolve resolve_from no_route port_matches
open_dials = refl

load_server_cfg-dial_example :
    (some open_cfg ≡ some open_server.cfg)
    × ((ct : RawClientTargets) × (open_server.cfg.client_targets ≡ some ct) × (ct.enabled ≡ true))
    × (parse_upstream (or_else open_cfg.fallback_upstream open_cfg.fallback_upstream2) ≡ none)
load_server_cfg-dial_example =
    load_server_cfg-dial no_files (some open_cfg) open_server nameless open_loads open_dials

abbrev hex : Bytes
hex = codes "00112233445566778899AABBCCDDEEFF00112233445566778899aabbccddeeff"

abbrev lower_hex : Bytes
lower_hex = codes "00112233445566778899aabbccddeeff00112233445566778899aabbccddeeff"

hex_reads : normalize_fingerprint no_files (codes " " ++ hex) ≡ some (codes "sha256:" ++ lower_hex)
unfolding normalize_fingerprint plain_fingerprint
hex_reads = refl
