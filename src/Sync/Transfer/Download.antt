-- ===== src/Sync/Transfer/Download.antt =====
-- sync/mod.rs, the client: the loop that downloads. A write to the temporary file is complete when the
-- call returns; tokio leaves that open until a flush.
use krymux.Base.{
  ℕ, zero, suc, ◌+◌, Option, none, some, List, [], ◌∷◌, Bool, true, false, not, ◌&&◌, ◌||◌, ◌==◌,
  ltb, length, is_empty, if◌then◌else◌,
}
use krymux.Base.Bytes.{Bytes, codes, bytes_eq}
use krymux.Base.Json.{Json, index, as_u64, as_str, unwrap_or}
use krymux.Sync.Collect.{PassError, stream_ended, text_of}
use krymux.Sync.Disk.{Outcome}
use krymux.Sync.Protocol.{SyncMessage, json, bin}
use krymux.Sync.Protocol.Messages.{t_file_meta, t_file_done, t_file_error, get_file}
use krymux.Sync.Scanner.{FileEntry}
use krymux.Sync.Server.Paths.{join_path, unique_tmp, parent}
use krymux.Sync.Server.State.{Env, max_file_bytes}
use krymux.Sync.Transfer.State.{Pass, Passing, onward, stopped, say}

-- The local variables of the loop that receives a file.
pub record Receiving (D W : Type 0) : Type 0 where
  pub disk : D
  pub meta_size : ℕ
  pub meta_hash : Bytes
  pub meta_mtime : W
  pub received : ℕ
  pub failed : Bool

-- A message is taken, and the loop goes on or ends.
pub data Reply (D W : Type 0) : Type 0 where
  more : Receiving D W → Reply D W
  ended : Receiving D W → Reply D W

-- Tries a download: the pass ends, or the file was installed or not.
pub data Attempt (D : Type 0) : Type 0 where
  given_up : PassError → Attempt D
  tried : Bool → Pass D → Attempt D

abbrev pub attempts : ℕ
attempts = 2

module _ {D W : Type 0} (env : Env D W) where
  unfoldable pub on_reply : Json → Receiving D W → Reply D W
  on_reply m r =
      if bytes_eq (text_of m) t_file_meta
      then more (record r {
        meta_size = unwrap_or (as_u64 (index m (codes "size"))) 0;
        meta_hash = unwrap_or (as_str (index m (codes "hash"))) [];
        meta_mtime = unwrap_or (env.float.as_f64 (index m (codes "mtimeMs"))) env.float.nought;
      })
      else if bytes_eq (text_of m) t_file_done
      then ended r
      else if bytes_eq (text_of m) t_file_error
      then ended (record r { failed = true })
      else more r

  -- The outcome of `write_all`.
  unfoldable pub stored_chunk : Outcome D → Receiving D W → Receiving D W
  stored_chunk (d, none) r = record r { disk = d }
  stored_chunk (d, some e) r = record r { disk = d; failed = true }

  unfoldable pub on_data_chunk : Bytes → Bytes → Receiving D W → Receiving D W
  on_data_chunk tmp chunk r =
      if r.failed
      then r
      else let r' = record r { received = r.received + length chunk } in
        if ltb r'.meta_size r'.received || ltb max_file_bytes r'.received
        then record r' { failed = true }
        else stored_chunk (env.disk.append tmp chunk r'.disk) r'

  unfoldable pub take_reply : Bytes → SyncMessage → Receiving D W → Reply D W
  take_reply tmp (json m) r = on_reply m r
  take_reply tmp (bin chunk) r = more (on_data_chunk tmp chunk r)

  -- The loop over the answers, up to `file_done` or `file_error`.
  unfoldable pub receive_file :
      Bytes → List SyncMessage → Receiving D W → Option (Receiving D W × List SyncMessage)
  receive_file tmp [] r = none
  receive_file tmp (m ∷ ms) r = elim (take_reply tmp m r) [
    | more r' ↦ receive_file tmp ms r'
    | ended r' ↦ some (r', ms)
  ]

  -- A download that came to nothing removes its temporary file.
  abbrev pub drop_tmp : Bytes → Pass D → Attempt D
  drop_tmp tmp s = tried false (record s { disk = (env.disk.remove_file tmp s.disk).0 })

  -- `hash_file`, with an empty text for an error.
  abbrev pub hash_of_file : Option Bytes → Bytes
  hash_of_file none = []
  hash_of_file (some content) = env.sha1_hex content

  -- The outcome of `rename`.
  unfoldable pub placed_file : Bytes → Bytes → W → Outcome D → Pass D → Attempt D
  placed_file tmp full mtime_ms (d, none) s =
      tried true (record s { disk = env.disk.set_file_times full mtime_ms d })
  placed_file tmp full mtime_ms (d, some e) s = drop_tmp tmp (record s { disk = d })

  unfoldable pub check_file : Bytes → Bytes → Receiving D W → Pass D → Attempt D
  check_file tmp full r s =
      if r.failed || not (r.received == r.meta_size)
      then drop_tmp tmp s
      else if not (is_empty r.meta_hash)
          && not (bytes_eq (hash_of_file (env.disk.read s.disk tmp)) r.meta_hash)
      then drop_tmp tmp s
      else placed_file tmp full r.meta_mtime (env.disk.rename tmp full s.disk) s

  unfoldable pub received_file :
      Bytes → Bytes → Option (Receiving D W × List SyncMessage) → Pass D → Attempt D
  received_file tmp full none s = given_up stream_ended
  received_file tmp full (some (r, ms)) s =
      check_file tmp full r (record s { disk = r.disk; inbox = ms })

  -- The variables before the first answer.
  abbrev pub at_start : D → Receiving D W
  at_start d = record {
    disk = d;
    meta_size = 0;
    meta_hash = [];
    meta_mtime = env.float.nought;
    received = 0;
    failed = false;
  }

  -- The outcome of `File::create`.
  unfoldable pub opened_tmp : Bytes → Bytes → Outcome D → Pass D → Attempt D
  opened_tmp tmp full (d, some e) s = tried false (record s { disk = d })
  opened_tmp tmp full (d, none) s =
      received_file tmp full (receive_file tmp s.inbox (at_start d)) (record s { disk = d })

  -- The outcome of `create_dir_all`, which is not called for a path without a parent.
  unfoldable pub made_dir : Bytes → Bytes → Outcome D → Pass D → Attempt D
  made_dir tmp full (d, some e) s = tried false (record s { disk = d })
  made_dir tmp full (d, none) s =
      opened_tmp tmp full (env.disk.create tmp d) (record s { disk = d })

  abbrev pub make_dir : Option Bytes → D → Outcome D
  make_dir none d = (d, none)
  make_dir (some p) d = env.disk.create_dir_all p d

  unfoldable pub try_download : FileEntry W → Bytes → Pass D → Attempt D
  try_download dl full s =
      let tmp = unique_tmp full s.seq in
      let asked = say (get_file dl.path) (record s { seq = s.seq + 1 }) in
      made_dir tmp full (make_dir (parent tmp) s.disk) asked

  -- The two tries; the pause between them is left out.
  unfoldable pub download_loop : ℕ → FileEntry W → Bytes → Pass D → Passing D
  download_loop zero dl full s = onward s
  download_loop (suc n) dl full s = elim (try_download dl full s) [
    | given_up e ↦ stopped e
    | tried true s' ↦ onward (record s' { downloaded = s'.downloaded + 1 })
    | tried false s' ↦ download_loop n dl full s'
  ]

  abbrev pub skip_locked : Pass D → Passing D
  skip_locked s = onward (record s { locked_skipped = s.locked_skipped + 1 })

  -- The path of a file that the server listed goes to the root as it is, without `safe_join`.
  unfoldable pub download_file : FileEntry W → Pass D → Passing D
  download_file dl s =
      let full = join_path env.root dl.path in
      if env.disk.is_file_locked s.disk full
      then skip_locked s
      else download_loop attempts dl full s
