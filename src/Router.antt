-- ===== src/Router.antt =====
-- crates/krymux/src/router.rs: the targets of streams matched against routes, and the decision.
pub mod Matching
pub mod Decisions
mod Tests
use krymux.Base.{
  ℕ, suc, ◌+◌, ◌-◌, ◌≤◌, List, [], ◌∷◌, ◌++◌, Bool, true, false, ◌&&◌, ◌||◌, not, Option, none,
  some, length, any, take, drop, leb, ltb, ◌==◌, if◌then◌else◌, is_empty,
}
use krymux.Base.Bytes.{Bytes, bytes_eq, codes}
use krymux.Base.Text.{
  starts_with, strip_prefix, ends_with, find, rfind, count, to_lower, trim, trim_end_matches,
  decimal,
}
use krymux.Mux.State.{Target}

pub record Upstream : Type 0 where
  pub host : Option Bytes
  pub port : ℕ
  pub unix : Option Bytes

abbrev unwrap_str : Option Bytes → Bytes → Bytes
unwrap_str none d = d
unwrap_str (some s) d = s

-- `Upstream::label`.
unfoldable pub label : Upstream → Bytes
label u = elim u.unix [
  | some path ↦ codes "unix:" ++ path
  | none ↦ unwrap_str u.host (codes "127.0.0.1") ++ b':' ∷ decimal u.port
]

pub data PortPattern : Type 0 where
  exact : ℕ → PortPattern
  range : ℕ → ℕ → PortPattern
  any_port : PortPattern

pub record Route : Type 0 where
  pub hosts : List Bytes
  pub ports : List PortPattern
  pub upstream : Option Upstream

pub record ClientTargets : Type 0 where
  pub enabled : Bool
  pub allow_hosts : List Bytes
  pub allow_ports : List PortPattern

pub record Router : Type 0 where
  pub routes : List Route
  pub fallback : Option Upstream
  pub client_targets : ClientTargets

-- `none` as the order of a route stands for `usize::MAX`, the order of the fallback.
pub data Decision : Type 0 where
  route : Option ℕ → Upstream → Decision
  dial : Decision
  deny : Bytes → Decision

-- The `:port` of `host:port` is cut off, when there is a host and just one colon.
unfoldable pub strip_port : Bytes → Bytes
strip_port s = elim (rfind s b':') [
  | none ↦ s
  | some i ↦ if not (is_empty (take i s)) && (count b':' s == 1) then take i s else s
]

unfoldable pub normalize_host : Bytes → Option Bytes
normalize_host h =
    let s = to_lower (trim h) in
    let stripped = trim_end_matches (λ c. c == b'.') (strip_port s) in
    if starts_with s (b'[' ∷ [])
    then elim (find s b']') [ none ↦ none | some end ↦ some (drop 1 (take end s)) ]
    else if is_empty stripped
    then none
    else some stripped

-- The branch for `*.suffix`, of what `strip_prefix("*.")` gave.
unfoldable pub suffix_matches : Bytes → Option Bytes → Bool
suffix_matches h none = false
suffix_matches h (some suffix) =
    let suf = b'.' ∷ suffix in
    ends_with h suf && not (ends_with (take (length h - length suf) h) (b'.' ∷ []))

-- The comparison of a normalized pattern with a normalized host.
unfoldable pub pattern_matches : Bytes → Bytes → Bool
pattern_matches p h =
    if bytes_eq p (b'*' ∷ []) || bytes_eq p h
    then true
    else suffix_matches h (strip_prefix p (b'*' ∷ b'.' ∷ []))

unfoldable pub host_matches : Bytes → Bytes → Bool
host_matches pattern host = elim (normalize_host pattern) [
  | none ↦ false
  | some p ↦ elim (normalize_host host) [ none ↦ false | some h ↦ pattern_matches p h ]
]

abbrev pub port_pattern_matches : ℕ → PortPattern → Bool
port_pattern_matches port (exact p) = p == port
port_pattern_matches port (range lo hi) = leb lo port && leb port hi
port_pattern_matches port any_port = true

unfoldable pub port_matches : List PortPattern → ℕ → Bool
port_matches patterns port = is_empty patterns || any (port_pattern_matches port) patterns

-- Whether a list of host patterns admits a normalized host; `missing` is the answer for no host.
abbrev pub hosts_admit : List Bytes → Option Bytes → Bool → Bool
hosts_admit patterns none missing = missing
hosts_admit patterns (some h) missing = any (λ p. host_matches p h) patterns

unfoldable pub route_matches : Route → Option Bytes → ℕ → Bool
route_matches r host port =
    (is_empty r.hosts || hosts_admit r.hosts host false) && port_matches r.ports port

unfoldable pub take_route : Option Upstream → ℕ → Route → Decision
take_route fallback i r = elim r.upstream [
  | some up ↦ route (some i) up
  | none ↦ elim fallback [ some f ↦ route none f | none ↦ deny (codes "route has no upstream") ]
]

-- What follows the routes.
unfoldable pub no_route : Router → Target → Option Bytes → Decision
no_route router target host = elim router.fallback [
  | some f ↦ route none f
  | none ↦
      let c = router.client_targets in
      let unix_target : Bool = elim target.unix [ some path ↦ true | none ↦ false ] in
      if c.enabled
      then (if unix_target
          then deny (codes "client-chosen unix sockets are not allowed")
          else if hosts_admit c.allow_hosts host true
              && (port_matches c.allow_ports target.port && ltb 0 target.port)
          then dial
          else deny (codes "client target not allowed"))
      else deny (codes "no route matched and client targets are disabled")
]

-- The loop over the routes from the place `i` on.
unfoldable pub resolve_from : Router → Target → Option Bytes → ℕ → List Route → Decision
resolve_from router target host i [] = no_route router target host
resolve_from router target host i (r ∷ rs) =
    let rest = resolve_from router target host (suc i) rs in
    if route_matches r host target.port then take_route router.fallback i r else rest

abbrev pub and_then : Option Bytes → (Bytes → Option Bytes) → Option Bytes
and_then none f = none
and_then (some s) f = f s

unfoldable pub resolve : Router → Target → Decision
resolve router target =
    resolve_from router target (and_then target.host normalize_host) 0 router.routes
