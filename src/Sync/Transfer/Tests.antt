-- ===== src/Sync/Transfer/Tests.antt =====
-- sync/mod.rs, the client: transfers between trees in memory.
mod Mirroring
use krymux.Base.{
  ℕ, ◌+◌, ◌≡◌, refl, sym, ap, ◌∙◌, inl, inr, Option, none, some, List, [], ◌∷◌, ◌++◌, Bool, true,
  false, Bool-cases, In, All, ok, length, if_true, if_false, if◌then◌else◌, arith,
}
use krymux.Base.Bytes.{Bytes, codes, bytes_eq, bytes_eq→eq}
use krymux.Sync.Collect.{
  Greeted, handshake, greeted, after_ack, on_scan_ready, first_listing, collect, collect_json,
  add_files, with_entry,
}
use krymux.Sync.Memory.{
  Tree, place, one_file, idle, memory_env, memory_disk, whole_float, memory_disk-IsLawful,
  memory_disk-IsHealthy, memory_disk-IsLocal,
}
use krymux.Sync.Plan.{
  Plan, readonly, settle_plan, diff, run_decisions, decide_server, decide_readable, decide_hashed,
  decide_absent, decide_shared, decide_both, representable,
}
use krymux.Sync.Protocol.{SyncMessage, json, bin}
use krymux.Sync.Protocol.Messages.{
  get_file, file_meta, file_done, put_ack, hello_ack, scan_ready, scan_batch, scan_end,
  tombstone_end,
}
use krymux.Sync.Scanner.{FileEntry}
use krymux.Sync.Server.Files.{handle_get_file}
use krymux.Sync.Server.Paths.{safe_join}
use krymux.Sync.Server.Scan.{negotiate_mode}
use krymux.Sync.Server.Session.{handle_batch}
use krymux.Sync.Server.State.{Env, Session, going}
use krymux.Sync.Transfer.Apply.{upload_file}
use krymux.Sync.Transfer.Delivery.{IsDelivered}
use krymux.Sync.Transfer.Download.{
  on_reply, stored_chunk, on_data_chunk, take_reply, receive_file, placed_file, check_file,
  received_file, opened_tmp, made_dir, try_download, download_loop, download_file,
}
use krymux.Sync.Transfer.Exchange.{upload_messages, upload_file-handle_batch}
use krymux.Sync.Transfer.Apart.{IsApart}
use krymux.Sync.Transfer.Mirrored.{requests, IsOffered, SameFile, for_each-handle_batch}
use krymux.Sync.Transfer.Mirror.{HasListed, IsScanned, apply_plan-HasListed}
use mathlib.Core.Option.{some-injective}
use krymux.Sync.Server.Paths.{join_path}
use krymux.Sync.Transfer.Quiet.{Quiet}
use krymux.Sync.Transfer.Readonly.{run_sync_client-readonly}
use krymux.Sync.Transfer.Run.{Setting, plan_of, apply_plan, run_sync_client}
use krymux.Sync.Transfer.State.{Pass, Passing, onward, stopped, for_each, then_pass}
use krymux.Sync.Transfer.Verified.{Fetched, download_file-Fetched}

abbrev pub entry : Bytes → Bytes → FileEntry ℕ
entry path content = record {
  path = path;
  size = length content;
  mtime_ms = 9;
  hash = some content;
}

-- A pass over a tree, with these messages to read.
abbrev pub pass : Tree → List SyncMessage → Pass Tree
pass tree messages = record {
  disk = tree;
  seq = 0;
  local_tombs = [];
  inbox = messages;
  out = [];
  downloaded = 0;
  uploaded = 0;
  deleted_local = 0;
  deleted_remote = 0;
  locked_skipped = 0;
}

abbrev pub nothing : Tree
nothing p = none

-- What a server sends for a file.
abbrev answer : Bytes → Bytes → List SyncMessage
answer path content =
    json (file_meta whole_float path (length content) content 9)
    ∷ bin content
    ∷ json (file_done path)
    ∷ []

download_file-Fetched_example :
    Fetched memory_env
      (λ m. In m (answer (codes "a") (codes "xyz")))
      (codes "/r/a")
      0
      (download_file memory_env
        (entry (codes "a") (codes "xyz"))
        (pass nothing (answer (codes "a") (codes "xyz"))))
download_file-Fetched_example =
    download_file-Fetched memory_env memory_disk-IsLawful (entry (codes "a") (codes "xyz"))
      (pass nothing (answer (codes "a") (codes "xyz")))

upload_file-handle_batch_example :
    (t : Session Tree ℕ) × (answered : SyncMessage) × (s' : Pass Tree) × (handle_batch memory_env 0
        (upload_messages memory_env (entry (codes "a") (codes "xyz")) (codes "xyz"))
        (record (idle (codes "bidir")) { disk = nothing })
      ≡ going t)
    × (t.disk (codes "/r/a") ≡ some (codes "xyz"))
    × (t.incoming ≡ none)
    × (t.out ≡ answered ∷ [])
    × (upload_file memory_env 0 0 (entry (codes "a") (codes "xyz")) (pass one_file (answered ∷ []))
        ≡ onward s')
    × (s'.inbox ≡ [])
    × (s'.out ≡ upload_messages memory_env (entry (codes "a") (codes "xyz")) (codes "xyz"))
    × (s'.uploaded ≡ 1)
upload_file-handle_batch_example =
    upload_file-handle_batch memory_env memory_env refl memory_disk-IsLawful memory_disk-IsHealthy 0
      0 0 (entry (codes "a") (codes "xyz")) (codes "xyz")
      (record (idle (codes "bidir")) { disk = nothing }) (pass one_file []) [] refl refl refl
      (omega arith) (inr refl) (refl, ((λ e. cc e, λ e. cc e, λ e. cc e, refl), tt)) refl

-- A listing of one file, and the file.
abbrev listed : List SyncMessage
listed =
    json (scan_ready 1)
    ∷ json (scan_batch whole_float (entry (codes "a") (codes "xyz") ∷ []) 0)
    ∷ json (scan_end 1)
    ∷ json (tombstone_end 0)
    ∷ answer (codes "a") (codes "xyz")

abbrev pub setting : Setting ℕ
setting = record {
  windows = false;
  from_value = λ v. some (entry (codes "a") (codes "xyz"));
  now = 0;
  queued = [];
  queued_later = [];
}

abbrev greeting : Greeted setting.from_value
greeting = record {
  mode = readonly;
  time_offset_ms = 7;
  listing = record {
    server_files = entry (codes "a") (codes "xyz") ∷ [];
    server_tombs = [];
    server_knows_tombstones = true;
    scan_done = true;
    tombs_done = true;
  };
  later = answer (codes "a") (codes "xyz");
}

abbrev greetings : List SyncMessage
greetings =
    json (hello_ack 7 (negotiate_mode memory_env readonly (some (codes "bidir"))) 1) ∷ listed

greets : handshake setting.from_value whole_float 0 (codes "bidir") greetings ≡ ok greeting
unfolding handshake greeted after_ack on_scan_ready first_listing collect collect_json add_files
    with_entry negotiate_mode
greets = refl

run_sync_client-readonly_example :
    Quiet memory_env
      (entry (codes "a") (codes "xyz") ∷ [])
      (run_sync_client memory_env setting (codes "bidir") 0 greetings nothing)
run_sync_client-readonly_example =
    run_sync_client-readonly memory_env memory_env setting readonly (codes "bidir") (inl refl) 7 1 0
      listed nothing greeting greets

-- What a step leaves at a path, and how many files it counted.
abbrev read_after : Passing Tree → Bytes → Option Bytes × ℕ
read_after (onward s) p = (s.disk p, s.downloaded)
read_after (stopped e) p = (none, 0)

-- No directory can be made at `/r/d`.
abbrev blocked : Env Tree ℕ
blocked = record memory_env {
  disk = record memory_disk {
    create_dir_all =
        λ p d. if bytes_eq p (codes "/r/d") then (d, some (codes "denied")) else (d, none);
  };
}

-- Two tries for `d/x` fail before the answer is read, so that the download of `a` takes the answer for
-- `d/x` as its own.
run_mixed_up :
    read_after
      (for_each
        (download_file blocked)
        (entry (codes "d/x") (codes "no") ∷ entry (codes "a") (codes "xyz") ∷ [])
        (pass nothing (
          answer (codes "d/x") (codes "no")
          ++ answer (codes "d/x") (codes "no")
          ++ answer (codes "a") (codes "xyz"))))
      (codes "/r/a")
    ≡ (some (codes "no"), 1)
unfolding for_each then_pass download_file download_loop try_download made_dir opened_tmp
    received_file check_file placed_file receive_file take_reply on_reply on_data_chunk stored_chunk
run_mixed_up = refl

-- A file that is shorter than announced is asked for twice, and the temporary file is gone.
run_short :
    read_after
      (download_file memory_env (entry (codes "a") (codes "xyz")) (
        pass nothing (
          json (file_meta whole_float (codes "a") 3 (codes "xyz") 9)
          ∷ bin (codes "xy")
          ∷ json (file_done (codes "a"))
          ∷ answer (codes "a") (codes "xyz"))))
      (codes "/r/a")
    ≡ (some (codes "xyz"), 1)
unfolding download_file download_loop try_download made_dir opened_tmp received_file check_file
    placed_file receive_file take_reply on_reply on_data_chunk stored_chunk
run_short = refl
