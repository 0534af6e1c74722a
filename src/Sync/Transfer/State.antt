-- ===== src/Sync/Transfer/State.antt =====
-- sync/mod.rs, the client: the state of a pass, and the answers it waits for.
use krymux.Base.{ℕ, Option, none, some, List, [], ◌∷◌, ◌++◌, if◌then◌else◌}
use krymux.Base.Bytes.{Bytes, bytes_eq}
use krymux.Base.Json.{Json}
use krymux.Base.Maps.{insert_key}
use krymux.Sync.Collect.{PassError, text_of}
use krymux.Sync.Protocol.{SyncMessage, json, bin}
use krymux.Sync.Server.State.{Env}
use krymux.Sync.Tombstones
use krymux.Sync.Tombstones.{Stamps}

-- `inbox` is what `next_message` will give, one after another; it fails where the list ends. `out` is
-- what was written. A write that fails ends the pass and is not modelled.
pub record Pass (D : Type 0) : Type 0 where
  pub disk : D
  pub seq : ℕ
  pub local_tombs : Stamps
  pub inbox : List SyncMessage
  pub out : List SyncMessage
  pub downloaded : ℕ
  pub uploaded : ℕ
  pub deleted_local : ℕ
  pub deleted_remote : ℕ
  pub locked_skipped : ℕ

-- A step of the pass, which goes on or fails.
pub data Passing (D : Type 0) : Type 0 where
  onward : Pass D → Passing D
  stopped : PassError → Passing D

module _ {D : Type 0} where
  unfoldable pub then_pass : Passing D → (Pass D → Passing D) → Passing D
  then_pass (onward s) k = k s
  then_pass (stopped e) k = stopped e

  abbrev pub say : Json → Pass D → Pass D
  say v s = record s { out = s.out ++ json v ∷ [] }

  -- The bodies of the loops, for one item after another.
  unfoldable pub for_each {ℓ} :
      {A : Type ℓ} → (A → Pass D → Passing D) → List A → Pass D → Passing D
  for_each body [] s = onward s
  for_each body (a ∷ rest) s = then_pass (body a s) (λ s'. for_each body rest s')

-- The next answer of this type; all other messages are skipped.
unfoldable pub await : Bytes → List SyncMessage → Option (Json × List SyncMessage)
await t [] = none
await t (bin b ∷ ms) = await t ms
await t (json m ∷ ms) =
    let later = await t ms in if bytes_eq (text_of m) t then some (m, ms) else later

module _ {D W : Type 0} (env : Env D W) where
  -- `tombstones::record_with` for one path, and the copy of the pass.
  unfoldable pub remember_deletion : ℕ → Bytes → ℕ → Pass D → Pass D
  remember_deletion now path ts s = record s {
    disk =
        Tombstones.record_with env.disk env.parse_store env.print_store env.root env.pid now
          ((path, ts) ∷ []) s.disk;
    local_tombs = insert_key s.local_tombs path ts;
  }
