-- ===== src/Router/Tests.antt =====
-- router.rs: runs of the matching and of `resolve`, and the theorems at concrete inputs.
use krymux.Base.{◌≡◌, refl, [], ◌∷◌, true, false, none, some}
use krymux.Base.Bytes.{Bytes, codes}
use krymux.Mux.State.{Target}
use krymux.Router.{
  Upstream, exact, range, ClientTargets, Router, route, dial, deny, strip_port, normalize_host,
  pattern_matches, suffix_matches, host_matches, port_matches, route_matches, take_route, no_route,
  resolve_from, resolve, label,
}
use krymux.Router.Decisions.{NoMatch, Admitted, FirstMatch, resolve_route, resolve-dial}

run_normalize : normalize_host (codes " Example.COM.:443 ") ≡ some (codes "example.com")
unfolding normalize_host strip_port
run_normalize = refl

run_v6 : normalize_host (codes "[::1]:80") ≡ some (codes "::1")
unfolding normalize_host
run_v6 = refl

run_label : label (record { host = none; port = 8080; unix = none }) ≡ codes "127.0.0.1:8080"
unfolding label
run_label = refl

run_matches : host_matches (codes "*.example.com") (codes "a.b.example.com") ≡ true
unfolding host_matches normalize_host strip_port pattern_matches suffix_matches
run_matches = refl

run_bare : host_matches (codes "*.example.com") (codes "example.com") ≡ false
unfolding host_matches normalize_host strip_port pattern_matches suffix_matches
run_bare = refl

abbrev web : Upstream
web = record { host = some (codes "10.0.0.1"); port = 80; unix = none }

abbrev closed_policy : ClientTargets
closed_policy = record { enabled = false; allow_hosts = []; allow_ports = [] }

abbrev two_routes : Router
two_routes = record {
  routes =
      record { hosts = codes "other.net" ∷ []; ports = []; upstream = none }
      ∷ record {
        hosts = codes "*.example.com" ∷ [];
        ports = range 1 1023 ∷ [];
        upstream = some web;
      }
      ∷ [];
  fallback = none;
  client_targets = closed_policy;
}

abbrev target_for : Bytes → Target
target_for host = record { host = some host; port = 443; unix = none; hint = codes "raw" }

run_second : resolve two_routes (target_for (codes "www.example.com")) ≡ route (some 1) web
unfolding resolve resolve_from route_matches take_route port_matches host_matches normalize_host
    strip_port pattern_matches suffix_matches
run_second = refl

resolve_route_example :
    FirstMatch (normalize_host (codes "www.example.com")) 443 two_routes.routes 1 web
resolve_route_example =
    resolve_route two_routes (target_for (codes "www.example.com")) 1 web run_second

abbrev dialing : Router
dialing = record {
  routes = [];
  fallback = none;
  client_targets = record {
    enabled = true;
    allow_hosts = codes "*.example.com" ∷ [];
    allow_ports = exact 443 ∷ [];
  };
}

run_dial : resolve dialing (target_for (codes "www.example.com")) ≡ dial
unfolding resolve resolve_from no_route port_matches host_matches normalize_host strip_port
    pattern_matches suffix_matches
run_dial = refl

run_denied :
    resolve dialing (target_for (codes "evil.net")) ≡ deny (codes "client target not allowed")
unfolding resolve resolve_from no_route port_matches host_matches normalize_host strip_port
    pattern_matches suffix_matches
run_denied = refl

resolve-dial_example :
    NoMatch (normalize_host (codes "www.example.com")) 443 []
    × Admitted dialing (target_for (codes "www.example.com"))
resolve-dial_example = resolve-dial dialing (target_for (codes "www.example.com")) run_dial

abbrev no_ports : Router
no_ports = record {
  routes = [];
  fallback = none;
  client_targets = record {
    enabled = true;
    allow_hosts = codes "*.example.com" ∷ [];
    allow_ports = [];
  };
}

abbrev nameless : Target
nameless = record { host = none; port = 22; unix = none; hint = codes "raw" }
