-- ===== src/Sync/Transfer/Apply.antt =====
-- sync/mod.rs, the client: the loops that delete on either side and that upload. `now` is the clock of
-- the tombstones.
use krymux.Base.{ℕ, ◌+◌, Option, none, some, List, [], ◌++◌, Bool, true, false, map, if◌then◌else◌}
use krymux.Base.Bytes.{Bytes, codes}
use krymux.Base.Json.{Json, index, as_bool, unwrap_or}
use krymux.Base.Maps.{lookup_key}
use krymux.Sync.Collect.{stream_ended}
use krymux.Sync.Disk.{Outcome}
use krymux.Sync.Protocol.{SyncMessage, bin}
use krymux.Sync.Protocol.Messages.{t_delete_ack, t_put_ack, delete_file, put_start, put_done}
use krymux.Sync.Scanner.{FileEntry}
use krymux.Sync.Server.Files.{stream_chunk}
use krymux.Sync.Server.Paths.{join_path}
use krymux.Sync.Server.Scan.{chunks}
use krymux.Sync.Server.State.{Env}
use krymux.Sync.Tombstones.{Stamps}
use krymux.Sync.Transfer.Download.{skip_locked}
use krymux.Sync.Transfer.State.{Pass, Passing, onward, stopped, say, await, remember_deletion}

module _ {D W : Type 0} (env : Env D W) (now : ℕ) (time_offset_ms : W) where
  -- A time of the server's clock in ours, and back; a time before the epoch is 0.
  abbrev pub to_our_clock : ℕ → ℕ
  to_our_clock ts =
      env.float.to_nat
        (env.float.max (env.float.sub (env.float.of_nat ts) time_offset_ms) env.float.nought)

  abbrev pub to_server_clock : ℕ → ℕ
  to_server_clock ts =
      env.float.to_nat
        (env.float.max (env.float.add (env.float.of_nat ts) time_offset_ms) env.float.nought)

  abbrev pub deletion_time : Option ℕ → ℕ
  deletion_time none = now
  deletion_time (some sts) = to_our_clock sts

  -- The outcome of `remove_file`.
  unfoldable pub deleted_here : Stamps → Bytes → Outcome D → Pass D → Pass D
  deleted_here server_tombs path (d, some e) s = record s { disk = d }
  deleted_here server_tombs path (d, none) s =
      remember_deletion env now path (deletion_time (lookup_key server_tombs path))
        (record s { disk = d; deleted_local = s.deleted_local + 1 })

  unfoldable pub delete_here_too : Stamps → Bytes → Pass D → Passing D
  delete_here_too server_tombs path s =
      let full = join_path env.root path in
      if env.disk.is_file_locked s.disk full
      then skip_locked env s
      else onward (deleted_here server_tombs path (env.disk.remove_file full s.disk) s)

  -- The verdict of the server on a deletion. Our own tombstone is kept with its time.
  unfoldable pub acked_delete : Bytes → Option (Json × List SyncMessage) → Pass D → Passing D
  acked_delete path none s = stopped stream_ended
  acked_delete path (some (m, ms)) s =
      let here = record s { inbox = ms } in
      if unwrap_or (as_bool (index m (codes "ok"))) false
      then onward (
          remember_deletion env now path (unwrap_or (lookup_key here.local_tombs path) now)
            (record here { deleted_remote = here.deleted_remote + 1 }))
      else onward here

  unfoldable pub delete_on_peer : Bytes × ℕ → Pass D → Passing D
  delete_on_peer (path, ts) s =
      acked_delete path (await t_delete_ack s.inbox) (say (delete_file path (to_server_clock ts)) s)

  abbrev pub count_upload : Bool → Pass D → Pass D
  count_upload true s = record s { uploaded = s.uploaded + 1 }
  count_upload false s = s

  -- `wait_put_ack`. An upload that could not be opened counts for nothing, whatever the verdict.
  unfoldable pub acked_put : Bool → Option (Json × List SyncMessage) → Pass D → Passing D
  acked_put sent none s = stopped stream_ended
  acked_put true (some (m, ms)) s =
      onward
        (count_upload (unwrap_or (as_bool (index m (codes "ok"))) false) (record s { inbox = ms }))
  acked_put false (some (m, ms)) s = onward (record s { inbox = ms })

  -- The file is opened after the announcement. A read that fails ends the pass and is not modelled.
  unfoldable pub send_upload : FileEntry W → Option Bytes → Pass D → Passing D
  send_upload ul none s = acked_put false (await t_put_ack s.inbox) (say (put_done ul.path) s)
  send_upload ul (some content) s =
      acked_put true (await t_put_ack s.inbox)
        (say (put_done ul.path) (record s { out = s.out ++ map bin (chunks stream_chunk content) }))

  unfoldable pub upload_file : FileEntry W → Pass D → Passing D
  upload_file ul s =
      let full = join_path env.root ul.path in
      if env.disk.is_file_locked s.disk full
      then skip_locked env s
      else send_upload ul (env.disk.read s.disk full)
          (say (put_start env.float ul.path ul.size (unwrap_or ul.hash []) ul.mtime_ms) s)
