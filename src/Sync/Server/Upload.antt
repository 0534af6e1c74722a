-- ===== src/Sync/Server/Upload.antt =====
-- sync/mod.rs, the handlers of `put_start`, binary chunks and `put_done`.
use krymux.Base.{
  ℕ, zero, suc, ◌+◌, Option, none, some, [], ◌++◌, Bool, true, false, not, ◌&&◌, ◌==◌, ltb, length,
  is_empty, Result, ok, err, if◌then◌else◌,
}
use krymux.Base.Bytes.{Bytes, codes, bytes_eq}
use krymux.Base.Json.{Json, index, as_u64, as_str, unwrap_or}
use krymux.Base.Text.{decimal}
use krymux.Sync.Disk.{Outcome}
use krymux.Sync.Plan.{readonly}
use krymux.Sync.Protocol.Messages.{put_ack}
use krymux.Sync.Server.Paths.{PathError, safe_join, path_error_text, unique_tmp, parent}
use krymux.Sync.Server.State.{Env, IncomingFile, Session, max_file_bytes, write_json}

-- `rename` is tried five times.
abbrev pub rename_tries : ℕ
rename_tries = 5

module _ {D W : Type 0} (env : Env D W) where
  abbrev pub reject_put : Bytes → Bytes → Session D W → Session D W
  reject_put path error s = write_json (put_ack path false error) s

  abbrev pub incoming_file : Json → Bytes → Bytes → ℕ → IncomingFile W
  incoming_file m path tmp declared = record {
    rel = path;
    tmp = tmp;
    hashed = [];
    expected_size = declared;
    expected_hash = unwrap_or (as_str (index m (codes "hash"))) [];
    mtime_ms = unwrap_or (env.float.as_f64 (index m (codes "mtimeMs"))) env.float.nought;
    received = 0;
  }

  -- The outcome of `File::create`.
  unfoldable pub created : Json → Bytes → Bytes → ℕ → Outcome D → Session D W → Session D W
  created m path tmp declared (d, none) s = record s {
    disk = d;
    incoming = some (incoming_file m path tmp declared);
  }
  created m path tmp declared (d, some e) s =
      reject_put path (codes "create tmp: " ++ e) (record s { disk = d })

  abbrev pub made : Outcome D → D × Bool
  made (d, none) = (d, true)
  made (d, some e) = (d, false)

  abbrev pub make_parent : Option Bytes → D → D × Bool
  make_parent none d = (d, false)
  make_parent (some p) d = made (env.disk.create_dir_all p d)

  unfoldable pub start_transfer : Json → Bytes → Bytes → D × Bool → Session D W → Session D W
  start_transfer m path tmp (d, parent_ok) s =
      let here = record s { disk = d } in
      let declared = unwrap_or (as_u64 (index m (codes "size"))) 0 in
      if parent_ok
      then if ltb max_file_bytes declared
        then reject_put path (codes "file too large") here
        else created m path tmp declared (env.disk.create tmp d) here
      else reject_put path (codes "cannot create directory") here

  unfoldable pub put_joined : Json → Bytes → Result PathError Bytes → Session D W → Session D W
  put_joined m path (err e) s = reject_put path (path_error_text env.debug e) s
  put_joined m path (ok full) s =
      if env.disk.is_file_locked s.disk full
      then reject_put path (codes "locked") s
      else let tmp = unique_tmp full s.seq in
        start_transfer m path tmp (make_parent (parent tmp) s.disk) (record s { seq = s.seq + 1 })

  unfoldable pub handle_put_start : Json → Session D W → Session D W
  handle_put_start m s =
      let path = unwrap_or (as_str (index m (codes "path"))) [] in
      if bytes_eq s.mode readonly
      then reject_put path (codes "server is readonly") s
      else put_joined m path (safe_join env.root path) s

  -- A transfer that failed is given up, and its temporary file removed.
  unfoldable pub abort_put : IncomingFile W → Session D W → Session D W
  abort_put inc s =
      reject_put inc.rel (codes "aborted mid-transfer")
        (record s { disk = (env.disk.remove_file inc.tmp s.disk).0; incoming = none })

  -- The outcome of `write_all`. `inc` counts the chunk, but has not hashed it.
  unfoldable pub written : IncomingFile W → Bytes → Outcome D → Session D W → Session D W
  written inc chunk (d, some e) s = abort_put inc (record s { disk = d })
  written inc chunk (d, none) s =
      let inc' = record inc { hashed = inc.hashed ++ chunk } in
      if ltb inc.expected_size inc.received
      then abort_put inc' (record s { disk = d })
      else record s { disk = d; incoming = some inc' }

  unfoldable pub receive_chunk : Option (IncomingFile W) → Bytes → Session D W → Session D W
  receive_chunk none chunk s = s
  receive_chunk (some inc) chunk s =
      let inc' = record inc { received = inc.received + length chunk } in
      if ltb max_file_bytes inc'.received
      then abort_put inc' s
      else written inc' chunk (env.disk.append inc.tmp chunk s.disk) s

  unfoldable pub handle_bin : Bytes → Session D W → Session D W
  handle_bin chunk s = receive_chunk s.incoming chunk s

  -- The verdict on size and hash: the text of the error, if there is one.
  unfoldable pub verify : IncomingFile W → Option Bytes
  verify inc =
      let got_hash = env.sha1_hex inc.hashed in
      if not (inc.received == inc.expected_size)
      then some (
          codes "size mismatch: expected "
          ++ decimal inc.expected_size
          ++ codes ", got "
          ++ decimal inc.received)
      else if not (is_empty inc.expected_hash) && not (bytes_eq got_hash inc.expected_hash)
      then some
          (codes "hash mismatch: expected " ++ inc.expected_hash ++ codes ", got " ++ got_hash)
      else none

  -- An error of the flush takes the place of the verdict.
  abbrev pub flush_error : Option Bytes → Option Bytes → Option Bytes
  flush_error verdict none = verdict
  flush_error verdict (some e) = some (codes "flush: " ++ e)

  abbrev pub refuse_put : IncomingFile W → Bytes → Session D W → Session D W
  refuse_put inc error s =
      write_json (put_ack inc.rel false error)
        (record s { disk = (env.disk.remove_file inc.tmp s.disk).0 })

  abbrev pub after_rename : Outcome D → D × Bool → D × Bool
  after_rename (d, none) again = (d, true)
  after_rename (d, some e) again = again

  -- The pause of 150 ms between two tries is left out.
  unfoldable pub rename_loop : ℕ → Bytes → Bytes → D → D × Bool
  rename_loop zero tmp dest d = (d, false)
  rename_loop (suc n) tmp dest d =
      let o = env.disk.rename tmp dest d in
      let again = rename_loop n tmp dest o.0 in after_rename o again

  unfoldable pub renamed : IncomingFile W → Bytes → D × Bool → Session D W → Session D W
  renamed inc dest (d, true) s =
      write_json (put_ack inc.rel true [])
        (record s { disk = env.disk.set_file_times dest inc.mtime_ms d })
  renamed inc dest (d, false) s =
      refuse_put inc (codes "rename busy (held by a concurrent reader)") (record s { disk = d })

  unfoldable pub install : IncomingFile W → Result PathError Bytes → Session D W → Session D W
  install inc (err e) s = refuse_put inc (path_error_text env.debug e) s
  install inc (ok dest) s = renamed inc dest (rename_loop rename_tries inc.tmp dest s.disk) s

  unfoldable pub judged : IncomingFile W → Option Bytes → Session D W → Session D W
  judged inc none s = install inc (safe_join env.root inc.rel) s
  judged inc (some error) s = refuse_put inc error s

  unfoldable pub finish_put : Option (IncomingFile W) → Session D W → Session D W
  finish_put none s = s
  finish_put (some inc) s =
      let (d, e) = env.disk.flush inc.tmp s.disk in
      judged inc (flush_error (verify inc) e) (record s { disk = d; incoming = none })

  unfoldable pub handle_put_done : Session D W → Session D W
  handle_put_done s = finish_put s.incoming s
