-- ===== src/Sync/Transfer/Run.antt =====
-- sync/mod.rs, the client: a whole pass, from what the handshake settled to `sync_complete`.
use krymux.Base.{ℕ, Option, none, some, List, [], Bool, if◌then◌else◌, Result, ok, err}
use krymux.Base.Bytes.{Bytes, bytes_eq}
use krymux.Base.Json.{Json}
use krymux.Sync.Collect.{PassError, scan_failed, Greeted, handshake}
use krymux.Sync.Plan.{Plan, readonly, case_collisions, diff, settle_plan}
use krymux.Sync.Protocol.{SyncMessage}
use krymux.Sync.Protocol.Messages.{sync_complete}
use krymux.Sync.Scanner.{FileEntry}
use krymux.Sync.Server.State.{Env}
use krymux.Sync.Tombstones
use krymux.Sync.Tombstones.{Stamps}
use krymux.Sync.Transfer.Apply.{delete_here_too, delete_on_peer, upload_file}
use krymux.Sync.Transfer.Download.{download_file}
use krymux.Sync.Transfer.State.{Pass, Passing, onward, stopped, then_pass, say, for_each}

-- What a pass is given besides `env`: whether it runs on Windows, the reader of a listed entry, the
-- clock, whose one reading stands for all those of a pass, and the tombstones that the watcher queues
-- before the diff and before the transfers.
pub record Setting (W : Type 0) : Type 0 where
  pub windows : Bool
  pub from_value : Json → Option (FileEntry W)
  pub now : ℕ
  pub queued : Stamps
  pub queued_later : Stamps

module _ {D W : Type 0} (env : Env D W) (setting : Setting W) where
  abbrev pub flush_store : Stamps → D → D
  flush_store pending d =
      (Tombstones.flush env.disk env.parse_store env.print_store env.root env.pid setting.now
        pending d).1

  abbrev pub load_store : D → Stamps
  load_store d = Tombstones.load env.disk env.parse_store env.print_store env.root env.pid d

  -- The loops of the transfers, and the counts that end a pass.
  unfoldable pub apply_plan : Bytes → W → Stamps → Plan W → Pass D → Passing D
  apply_plan mode offset server_tombs plan s =
      then_pass
        (if bytes_eq mode readonly
          then onward s
          else for_each (delete_here_too env setting.now offset server_tombs) plan.local_deletes s)
        (λ s1. then_pass (for_each (download_file env) plan.downloads s1) (λ s2.
          then_pass
            (if bytes_eq mode readonly
              then onward s2
              else for_each (delete_on_peer env setting.now offset) plan.server_deletes s2)
            (λ s3. then_pass (for_each (upload_file env setting.now offset) plan.uploads s3) (λ s4.
              onward (
                say (sync_complete s4.downloaded s4.uploaded plan.conflicts s4.locked_skipped)
                  s4)))))

  -- The plan against the tombstones at hand, and the guard against deletions since.
  unfoldable pub plan_of :
      Greeted setting.from_value → Stamps → Stamps → List (FileEntry W) → Plan W
  plan_of g local_tombs fresh_tombs client_files =
      settle_plan env.float g.mode g.time_offset_ms setting.windows
        (case_collisions [] g.listing.server_files) fresh_tombs
        (diff env.float g.mode g.time_offset_ms g.listing.server_knows_tombstones local_tombs
          g.listing.server_tombs g.listing.server_files client_files)

  unfoldable pub start_pass : D → ℕ → Stamps → Greeted setting.from_value → Pass D
  start_pass d seq local_tombs g = record {
    disk = d;
    seq = seq;
    local_tombs = local_tombs;
    inbox = g.later;
    out = [];
    downloaded = 0;
    uploaded = 0;
    deleted_local = 0;
    deleted_remote = 0;
    locked_skipped = 0;
  }

  unfoldable pub scanned_tree :
      Greeted setting.from_value → ℕ → D × Option (List (FileEntry W)) → Passing D
  scanned_tree g seq (d, none) = stopped scan_failed
  scanned_tree g seq (d, some client_files) =
      let d1 = flush_store setting.queued d in
      let local_tombs = Tombstones.prune setting.now (load_store d1) in
      let d2 = flush_store setting.queued_later d1 in
      apply_plan g.mode g.time_offset_ms g.listing.server_tombs
        (plan_of g local_tombs (load_store d2) client_files) (start_pass d2 seq local_tombs g)

  unfoldable pub after_handshake : ℕ → D → Result PassError (Greeted setting.from_value) → Passing D
  after_handshake seq d (err e) = stopped e
  after_handshake seq d (ok g) = scanned_tree g seq (env.scan_and_hash d)

  -- A pass over the messages that the server will send; `hello` and `request_scan` went out first.
  unfoldable pub run_sync_client : Bytes → ℕ → List SyncMessage → D → Passing D
  run_sync_client mode seq messages d =
      after_handshake seq d (handshake setting.from_value env.float setting.now mode messages)
