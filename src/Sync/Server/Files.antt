-- ===== src/Sync/Server/Files.antt =====
-- sync/mod.rs, `serve_file` and the handlers of `get_file` and `delete_file`.
use krymux.Base.{
  ℕ, ◌*◌, Option, none, some, List, [], ◌∷◌, true, false, Result, ok, err, if◌then◌else◌,
}
use krymux.Base.Bytes.{Bytes, codes, bytes_eq}
use krymux.Base.Json.{Json, index, as_u64, as_str, unwrap_or}
use krymux.Sync.Disk.{Metadata}
use krymux.Sync.Plan.{readonly}
use krymux.Sync.Protocol.Messages.{file_meta, file_done, file_error, delete_ack}
use krymux.Sync.Server.Paths.{PathError, safe_join, path_error_text}
use krymux.Sync.Server.Scan.{chunks}
use krymux.Sync.Server.State.{
  Env, Session, Handling, going, broken, write_json, write_bin, record_tombstone,
}

-- The buffer of the loop that streams a file.
abbrev pub stream_chunk : ℕ
stream_chunk = 64 * 1024

module _ {D W : Type 0} (env : Env D W) where
  unfoldable pub send_chunks : List Bytes → Session D W → Session D W
  send_chunks [] s = s
  send_chunks (chunk ∷ cs) s = send_chunks cs (write_bin chunk s)

  -- Hash and contents come from one handle. Each read fills the buffer while the file lasts.
  unfoldable pub stream_file : Bytes → Metadata W → Bytes → Session D W → Session D W
  stream_file path meta content s =
      let hash = env.sha1_hex content in
      let announced = write_json (file_meta env.float path meta.size hash meta.mtime_ms) s in
      write_json (file_done path) (send_chunks (chunks stream_chunk content) announced)

  -- A file that cannot be opened or read ends the session with an error.
  unfoldable pub serve_open : Bytes → Metadata W → Option Bytes → Session D W → Handling D W
  serve_open path meta none s = broken s
  serve_open path meta (some content) s = going (stream_file path meta content s)

  unfoldable pub serve_found : Bytes → Bytes → Option (Metadata W) → Session D W → Handling D W
  serve_found full path none s = going (write_json (file_error path (codes "not found")) s)
  serve_found full path (some meta) s =
      if meta.is_file
      then if env.disk.is_file_locked s.disk full
        then going (write_json (file_error path (codes "locked")) s)
        else serve_open path meta (env.disk.read s.disk full) s
      else going (write_json (file_error path (codes "not found")) s)

  unfoldable pub serve_file : Bytes → Bytes → Session D W → Handling D W
  serve_file full path s = serve_found full path (env.disk.metadata s.disk full) s

  unfoldable pub serve_joined : Bytes → Result PathError Bytes → Session D W → Handling D W
  serve_joined path (ok full) s = serve_file full path s
  serve_joined path (err e) s = going (write_json (file_error path (path_error_text env.debug e)) s)

  unfoldable pub handle_get_file : Json → Session D W → Handling D W
  handle_get_file m s =
      let path = unwrap_or (as_str (index m (codes "path"))) [] in
      serve_joined path (safe_join env.root path) s

  abbrev pub refuse_delete : Bytes → Bytes → Session D W → Session D W
  refuse_delete path reason s = write_json (delete_ack path false reason) s

  -- The outcome of `remove_file`.
  unfoldable pub removed : ℕ → Bytes → D × Option Bytes → Session D W → Session D W
  removed now path (d, none) s =
      write_json (delete_ack path true []) (record_tombstone env now path (record s { disk = d }))
  removed now path (d, some e) s = refuse_delete path e (record s { disk = d })

  -- A path that is gone counts as deleted. A file that is newer than the deletion is kept.
  unfoldable pub delete_found :
      ℕ → Bytes → Bytes → ℕ → Option (Metadata W) → Session D W → Session D W
  delete_found now full path ts none s =
      write_json (delete_ack path true []) (record_tombstone env now path s)
  delete_found now full path ts (some meta) s =
      if meta.is_file
      then if env.float.gt meta.mtime_ms (env.float.of_nat ts)
        then refuse_delete path (codes "modified since delete") s
        else removed now path (env.disk.remove_file full s.disk) s
      else refuse_delete path (codes "not a file") s

  unfoldable pub delete_joined : ℕ → Bytes → ℕ → Result PathError Bytes → Session D W → Session D W
  delete_joined now path ts (ok full) s =
      delete_found now full path ts (env.disk.metadata s.disk full) s
  delete_joined now path ts (err e) s = refuse_delete path (path_error_text env.debug e) s

  unfoldable pub handle_delete_file : ℕ → Json → Session D W → Session D W
  handle_delete_file now m s =
      let path = unwrap_or (as_str (index m (codes "path"))) [] in
      let ts = unwrap_or (as_u64 (index m (codes "ts"))) 0 in
      if bytes_eq s.mode readonly
      then refuse_delete path (codes "server is readonly") s
      else delete_joined now path ts (safe_join env.root path) s
