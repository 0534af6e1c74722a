-- ===== src/Config/Policy.antt =====
-- config.rs with router.rs: what a configuration must say for a client's own target to be dialed.
use krymux.Base.{◌≡◌, refl, sym, ◌∙◌, ap, List, Option, none, some, true}
use mathlib.Core.Option.{some-injective}
use krymux.Base.Bytes.{Bytes}
use krymux.Config.{
  KeyFiles, ServerCfg, CompiledServer, RawClientTargets, compiled, load_server_cfg, compile_targets,
  normalize_all, parse_upstream, or_else,
}
use krymux.Mux.State.{Target}
use krymux.Router.{Router, resolve, dial}
use krymux.Router.Decisions.{resolve-dial}

-- The router of a server, as it is built from its configuration.
abbrev pub router_of : CompiledServer → Router
router_of c = record { routes = c.routes; fallback = c.fallback; client_targets = c.client_targets }

-- The configuration is held, and the policy and the fallback are those that it gives.
IsCompiled : ServerCfg → CompiledServer → Type 0
IsCompiled cfg c =
    (c.cfg ≡ cfg)
    × (c.client_targets ≡ compile_targets c.cfg.client_targets)
    × (c.fallback ≡ parse_upstream (or_else c.cfg.fallback_upstream c.cfg.fallback_upstream2))

compiled-IsCompiled :
    (cfg : ServerCfg) (o : Option (List Bytes)) (c : CompiledServer)
    → compiled cfg o ≡ some c
    → IsCompiled cfg c
unfolding compiled IsCompiled
compiled-IsCompiled cfg none c e = cc e
compiled-IsCompiled cfg (some fs) c e = rw (sym (some-injective _ _ e)) (refl, refl, refl)

enabled_only :
    (o : Option RawClientTargets)
    → (compile_targets o).enabled ≡ true
    → (ct : RawClientTargets) × (o ≡ some ct) × (ct.enabled ≡ true)
unfolding compile_targets
enabled_only none e = cc e
enabled_only (some ct) e = (ct, refl, e)

-- A server keeps the configuration that it read, and dials a target of a client's own only if that has a
-- `clientTargets` block that says `enabled: true`, and its `fallback`, or else its other spelling, is
-- no upstream.
pub load_server_cfg-dial :
    (files : KeyFiles) (read : Option ServerCfg) (c : CompiledServer) (target : Target)
    → load_server_cfg files read ≡ some c
    → resolve (router_of c) target ≡ dial
    → (read ≡ some c.cfg)
      × ((ct : RawClientTargets) × (c.cfg.client_targets ≡ some ct) × (ct.enabled ≡ true))
      × (parse_upstream (or_else c.cfg.fallback_upstream c.cfg.fallback_upstream2) ≡ none)
unfolding load_server_cfg IsCompiled
load_server_cfg-dial files none c target e d = cc e
load_server_cfg-dial files (some cfg) c target e d =
    let a = (resolve-dial (router_of c) target d).1 in
    let same = compiled-IsCompiled cfg (normalize_all files _) c e in
    let (ct, is, on) =
      enabled_only c.cfg.client_targets (ap (λ t. t.enabled) (sym same.1) ∙ a.enabled) in
    (ap some (sym same.0), (ct, is, on), sym same.2 ∙ a.no_fallback)
