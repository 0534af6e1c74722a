-- ===== src/Router/Decisions.antt =====
-- router.rs, `resolve`: the first route that matches decides, and a client's own target is dialed only
-- when nothing else applies and the policy admits it.
use krymux.Base.{
  ℕ, suc, ◌+◌, ◌<◌, ◌≡◌, ◌≢◌, inl, inr, refl, sym, ap, ◌∙◌, List, [], ◌∷◌, ◌++◌, true, false,
  Option, none, some, length, All, arith, Bool-cases, Option-cases, if_true, if_false,
}
use krymux.Base.Bytes.{Bytes}
use krymux.Mux.State.{Target}
use krymux.Router.{
  Upstream, Route, Router, route, dial, normalize_host, hosts_admit, port_matches, and_then,
  route_matches, take_route, no_route, resolve_from, resolve,
}

-- No route of the list matches.
abbrev pub NoMatch : Option Bytes → ℕ → List Route → Type 0
NoMatch host port = All (λ r. route_matches r host port ≡ false)

-- The first route that matches, with its place and its upstream.
pub record FirstMatch (host : Option Bytes) (port : ℕ) (rs : List Route) (j : ℕ) (up : Upstream)
    : Type 0 where
  pub before : List Route
  pub at : Route
  pub behind : List Route
  pub splits : rs ≡ before ++ at ∷ behind
  pub none_before : NoMatch host port before
  pub matches : route_matches at host port ≡ true
  pub upstream_is : at.upstream ≡ some up
  pub place : j ≡ length before

-- What lets a client's target be dialed.
pub record Admitted (router : Router) (target : Target) : Type 0 where
  pub no_fallback : router.fallback ≡ none
  pub enabled : router.client_targets.enabled ≡ true
  pub no_unix : target.unix ≡ none
  pub host_admitted :
      hosts_admit router.client_targets.allow_hosts (and_then target.host normalize_host) true
      ≡ true
  pub port_admitted : port_matches router.client_targets.allow_ports target.port ≡ true
  pub port_positive : 0 < target.port

take_route_place :
    (fallback : Option Upstream) (i j : ℕ) (r : Route) (up : Upstream)
    → take_route fallback i r ≡ route (some j) up
    → (r.upstream ≡ some up) × (j ≡ i)
unfolding take_route
take_route_place fallback i j r up e =
    ground (arith, Option-cases r.upstream, Option-cases fallback)

take_route-dial : (fallback : Option Upstream) (i : ℕ) (r : Route) → take_route fallback i r ≢ dial
unfolding take_route
take_route-dial fallback i r e = ground (arith, Option-cases r.upstream, Option-cases fallback)

no_route_place :
    (router : Router) (target : Target) (host : Option Bytes) (j : ℕ) (up : Upstream)
    → no_route router target host ≢ route (some j) up
unfolding no_route
no_route_place router target host j up e = ground (arith, Option-cases router.fallback)

no_route-dial :
    (router : Router) (target : Target)
    → no_route router target (and_then target.host normalize_host) ≡ dial
    → Admitted router target
unfolding no_route
no_route-dial router target e =
    ground (arith, Option-cases router.fallback, Option-cases target.unix)

module _ (router : Router) (target : Target) (host : Option Bytes) where
  first_from :
      (i j : ℕ) (rs : List Route) (up : Upstream)
      → resolve_from router target host i rs ≡ route (some j) up
      → (k : ℕ) × (FirstMatch host target.port rs k up × (j ≡ i + k))
  unfolding resolve_from
  first_from i j [] up e = elim (no_route_place router target host j up e) [ ]
  first_from i j (r ∷ rs) up e = elim (Bool-cases (route_matches r host target.port)) [
    | inl m ↦
        let placed = take_route_place router.fallback i j r up (sym (if_true _ _ _ m) ∙ e) in
        let first : FirstMatch host target.port (r ∷ rs) 0 up = record {
          before = [];
          at = r;
          behind = rs;
          splits = refl;
          none_before = _;
          matches = m;
          upstream_is = placed.0;
          place = refl;
        } in
        (0, (first, omega (arith, placed.1)))
    | inr n ↦
        let (k, (f, q)) = first_from (suc i) j rs up (sym (if_false _ _ _ n) ∙ e) in
        let first : FirstMatch host target.port (r ∷ rs) (suc k) up = record {
          before = r ∷ f.before;
          at = f.at;
          behind = f.behind;
          splits = ap (◌∷◌ r) f.splits;
          none_before = (n, f.none_before);
          matches = f.matches;
          upstream_is = f.upstream_is;
          place = omega (arith, f.place);
        } in
        (suc k, (first, omega (arith, q)))
  ]

  dial_from :
      (i : ℕ) (rs : List Route)
      → resolve_from router target host i rs ≡ dial
      → NoMatch host target.port rs × (no_route router target host ≡ dial)
  unfolding resolve_from
  dial_from i [] e = (_, e)
  dial_from i (r ∷ rs) e = elim (Bool-cases (route_matches r host target.port)) [
    | inl m ↦ elim (take_route-dial router.fallback i r (sym (if_true _ _ _ m) ∙ e)) [ ]
    | inr n ↦ let rest = dial_from (suc i) rs (sym (if_false _ _ _ n) ∙ e) in ((n, rest.0), rest.1)
  ]

-- A decision for the route at place `j` means that this is the first route that matches the target, and
-- that the upstream is its own.
pub resolve_route :
    (router : Router) (target : Target) (j : ℕ) (up : Upstream)
    → resolve router target ≡ route (some j) up
    → FirstMatch (and_then target.host normalize_host) target.port router.routes j up
unfolding resolve
resolve_route router target j up e =
    let (k, (f, q)) = first_from router target _ 0 j router.routes up e in
    let same : k ≡ j = omega (arith, q) in rw (← same) f

-- A client's own target is dialed only if no route matches and there is no fallback, the policy is
-- enabled, the target is no unix socket, its port is positive and allowed, and its host is allowed
-- where it has one that does not normalize to nothing.
pub resolve-dial :
    (router : Router) (target : Target)
    → resolve router target ≡ dial
    → NoMatch (and_then target.host normalize_host) target.port router.routes
      × Admitted router target
unfolding resolve
resolve-dial router target e =
    let d = dial_from router target _ 0 router.routes e in (d.0, no_route-dial router target d.1)

-- With no routes and no fallback, under an enabled policy that restricts no ports, a target with no
-- host, no unix socket and a positive port is dialed, whatever the list of allowed hosts.
pub resolve_no_host :
    (router : Router) (target : Target)
    → target.host ≡ none
    → target.unix ≡ none
    → router.routes ≡ []
    → router.fallback ≡ none
    → router.client_targets.enabled ≡ true
    → router.client_targets.allow_ports ≡ []
    → 0 < target.port
    → resolve router target ≡ dial
unfolding resolve resolve_from no_route port_matches
resolve_no_host router target h u r f en ports pos = rw (h, r) (ground arith)
