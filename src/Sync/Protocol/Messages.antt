-- ===== src/Sync/Protocol/Messages.antt =====
-- sync/protocol.rs: the JSON messages of both sides. A key stands where `json!` has it; the order in
-- which serde_json keeps the keys of an object does not matter to the code that reads them.
use krymux.Base.{ℕ, List, [], ◌∷◌, Bool, true, map}
use krymux.Base.Bytes.{Bytes, codes}
use krymux.Base.Json.{Json, bool, number, string, array, object, members, items}
use krymux.Sync.Float.{Float}
use krymux.Sync.Scanner.{FileEntry, entry_json}

abbrev pub t_hello : Bytes
t_hello = codes "hello"

abbrev pub t_hello_ack : Bytes
t_hello_ack = codes "hello_ack"

abbrev pub t_scan_ready : Bytes
t_scan_ready = codes "scan_ready"

abbrev pub t_request_scan : Bytes
t_request_scan = codes "request_scan"

abbrev pub t_scan_batch : Bytes
t_scan_batch = codes "scan_batch"

abbrev pub t_scan_end : Bytes
t_scan_end = codes "scan_end"

abbrev pub t_tombstone_batch : Bytes
t_tombstone_batch = codes "tombstone_batch"

abbrev pub t_tombstone_end : Bytes
t_tombstone_end = codes "tombstone_end"

abbrev pub t_get_file : Bytes
t_get_file = codes "get_file"

abbrev pub t_file_meta : Bytes
t_file_meta = codes "file_meta"

abbrev pub t_file_done : Bytes
t_file_done = codes "file_done"

abbrev pub t_file_error : Bytes
t_file_error = codes "file_error"

abbrev pub t_put_start : Bytes
t_put_start = codes "put_start"

abbrev pub t_put_done : Bytes
t_put_done = codes "put_done"

abbrev pub t_put_ack : Bytes
t_put_ack = codes "put_ack"

abbrev pub t_delete_file : Bytes
t_delete_file = codes "delete_file"

abbrev pub t_delete_ack : Bytes
t_delete_ack = codes "delete_ack"

abbrev pub t_sync_complete : Bytes
t_sync_complete = codes "sync_complete"

abbrev pub t_notify_listen : Bytes
t_notify_listen = codes "notify_listen"

abbrev pub t_notify_ack : Bytes
t_notify_ack = codes "notify_ack"

abbrev pub t_rescan_hint : Bytes
t_rescan_hint = codes "rescan_hint"

abbrev pub t_error : Bytes
t_error = codes "error"

-- An object whose member `t` is the name of the message.
abbrev tagged : Bytes → List (Bytes × Json) → Json
tagged t fs = object (members ((codes "t", string t) ∷ fs))

abbrev one_path : Bytes → Bytes → Json
one_path t path = tagged t ((codes "path", string path) ∷ [])

abbrev verdict : Bytes → Bytes → Bool → Bytes → Json
verdict t path ok error =
    tagged t
      ((codes "path", string path) ∷ (codes "ok", bool ok) ∷ (codes "error", string error) ∷ [])

abbrev pub hello : ℕ → Bytes → Json
hello version mode =
    tagged t_hello ((codes "version", number version) ∷ (codes "mode", string mode) ∷ [])

abbrev pub hello_ack : ℕ → Bytes → ℕ → Json
hello_ack server_time_ms mode version = tagged t_hello_ack (
    (codes "serverTime", number server_time_ms)
    ∷ (codes "mode", string mode)
    ∷ (codes "version", number version)
    ∷ [])

abbrev pub error_msg : Bytes → Json
error_msg message = tagged t_error ((codes "message", string message) ∷ [])

abbrev pub scan_ready : ℕ → Json
scan_ready count =
    tagged t_scan_ready ((codes "count", number count) ∷ (codes "tombstones", bool true) ∷ [])

abbrev pub request_scan : Json
request_scan = tagged t_request_scan []

abbrev pub scan_end : ℕ → Json
scan_end total = tagged t_scan_end ((codes "total", number total) ∷ [])

-- A map of paths to times.
abbrev times : List (Bytes × ℕ) → List (Bytes × Json)
times [] = []
times ((p, ts) ∷ es) = (p, number ts) ∷ times es

abbrev pub tombstone_batch : List (Bytes × ℕ) → Json
tombstone_batch entries =
    tagged t_tombstone_batch ((codes "entries", object (members (times entries))) ∷ [])

abbrev pub tombstone_end : ℕ → Json
tombstone_end count = tagged t_tombstone_end ((codes "count", number count) ∷ [])

abbrev pub get_file : Bytes → Json
get_file path = one_path t_get_file path

abbrev pub file_done : Bytes → Json
file_done path = one_path t_file_done path

abbrev pub file_error : Bytes → Bytes → Json
file_error path error =
    tagged t_file_error ((codes "path", string path) ∷ (codes "error", string error) ∷ [])

abbrev pub put_done : Bytes → Json
put_done path = one_path t_put_done path

abbrev pub put_ack : Bytes → Bool → Bytes → Json
put_ack path ok error = verdict t_put_ack path ok error

abbrev pub delete_file : Bytes → ℕ → Json
delete_file path ts =
    tagged t_delete_file ((codes "path", string path) ∷ (codes "ts", number ts) ∷ [])

abbrev pub delete_ack : Bytes → Bool → Bytes → Json
delete_ack path ok error = verdict t_delete_ack path ok error

abbrev pub sync_complete : ℕ → ℕ → ℕ → ℕ → Json
sync_complete downloaded uploads conflicts locked_skipped = tagged t_sync_complete (
    (
      codes "stats",
      object (
          members (
            (codes "downloaded", number downloaded)
            ∷ (codes "uploads", number uploads)
            ∷ (codes "conflicts", number conflicts)
            ∷ (codes "lockedSkipped", number locked_skipped)
            ∷ [])),
    )
    ∷ [])

abbrev pub notify_listen : Json
notify_listen = tagged t_notify_listen []

abbrev pub notify_ack : Json
notify_ack = tagged t_notify_ack []

abbrev pub rescan_hint : Json
rescan_hint = tagged t_rescan_hint []

module _ {W : Type 0} (F : Float W) where
  abbrev pub scan_batch : List (FileEntry W) → ℕ → Json
  scan_batch files offset = tagged t_scan_batch (
      (codes "files", array (items (map (entry_json F) files)))
      ∷ (codes "offset", number offset)
      ∷ [])

  -- The four facts of a file that is about to stream.
  abbrev file_facts : Bytes → Bytes → ℕ → Bytes → W → Json
  file_facts t path size hash mtime_ms = tagged t (
      (codes "path", string path)
      ∷ (codes "size", number size)
      ∷ (codes "hash", string hash)
      ∷ (codes "mtimeMs", F.to_json mtime_ms)
      ∷ [])

  abbrev pub file_meta : Bytes → ℕ → Bytes → W → Json
  file_meta path size hash mtime_ms = file_facts t_file_meta path size hash mtime_ms

  abbrev pub put_start : Bytes → ℕ → Bytes → W → Json
  put_start path size hash mtime_ms = file_facts t_put_start path size hash mtime_ms
