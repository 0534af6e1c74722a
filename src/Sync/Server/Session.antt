-- ===== src/Sync/Server/Session.antt =====
-- sync/mod.rs, `handle_sync_server`: the loop over the messages of a session.
use krymux.Base.{ℕ, Option, List, [], ◌∷◌, Result, ok, err, if◌then◌else◌}
use krymux.Base.Bytes.{Bytes, codes, bytes_eq}
use krymux.Base.Json.{Json, index, as_str, unwrap_or}
use krymux.Sync.Protocol.{SyncMessage, json, bin, SyncParser, SyncError, push}
use krymux.Sync.Protocol.Messages.{
  t_hello, t_request_scan, t_get_file, t_delete_file, t_put_start, t_put_done, t_sync_complete,
}
use krymux.Sync.Server.Files.{handle_get_file, handle_delete_file}
use krymux.Sync.Server.Scan.{handle_hello, request_scan}
use krymux.Sync.Server.State.{Env, Session, Handling, going, finished, broken}
use krymux.Sync.Server.Upload.{handle_put_start, handle_put_done, handle_bin}

module _ {D W : Type 0} (env : Env D W) where
  unfoldable pub handle_json : ℕ → Json → Session D W → Handling D W
  handle_json now m s =
      let t = unwrap_or (as_str (index m (codes "t"))) [] in
      if bytes_eq t t_hello
      then handle_hello env now m s
      else if bytes_eq t t_request_scan
      then request_scan env now s
      else if bytes_eq t t_get_file
      then handle_get_file env m s
      else if bytes_eq t t_delete_file
      then going (handle_delete_file env now m s)
      else if bytes_eq t t_put_start
      then going (handle_put_start env m s)
      else if bytes_eq t t_put_done
      then going (handle_put_done env s)
      else if bytes_eq t t_sync_complete
      then finished s
      else going s

  unfoldable pub handle_message : ℕ → SyncMessage → Session D W → Handling D W
  handle_message now (json m) s = handle_json now m s
  handle_message now (bin chunk) s = going (handle_bin env chunk s)

  unfoldable pub next_after : Handling D W → (Session D W → Handling D W) → Handling D W
  next_after (going s) k = k s
  next_after (finished s) k = finished s
  next_after (broken s) k = broken s

  -- `for msg in messages.drain(..)`.
  unfoldable pub handle_batch : ℕ → List SyncMessage → Session D W → Handling D W
  handle_batch now [] s = going s
  handle_batch now (m ∷ ms) s = next_after (handle_message now m s) (λ s'. handle_batch now ms s')

  abbrev pub parsed_or_broken :
      Result SyncError (List SyncMessage)
      → Session D W
      → (List SyncMessage → Handling D W)
      → Handling D W
  parsed_or_broken (err e) s k = broken s
  parsed_or_broken (ok ms) s k = k ms

  -- The outer loop: the messages at hand, then the next read, with its time. The stream ends where the
  -- list of reads does.
  unfoldable pub serve :
      (Bytes → Option Json)
      → ℕ
      → SyncParser
      → List SyncMessage
      → List (ℕ × Bytes)
      → Session D W
      → Handling D W
  serve from_slice now p messages [] s =
      next_after (handle_batch now messages s) (λ s'. finished s')
  serve from_slice now p messages ((later, chunk) ∷ reads) s =
      next_after (handle_batch now messages s) (λ s'.
        let (q, r) = push from_slice p chunk in
        parsed_or_broken r s' (λ ms. serve from_slice later q ms reads s'))
