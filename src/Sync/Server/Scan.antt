-- ===== src/Sync/Server/Scan.antt =====
-- sync/mod.rs, the handlers of `hello` and `request_scan`.
use krymux.Base.{
  ℕ, zero, suc, ◌*◌, ◌%◌, ◌^◌, Option, none, some, List, [], ◌∷◌, ◌++◌, not, ◌==◌, leb, length,
  take, drop, is_empty, if◌then◌else◌,
}
use krymux.Base.Bytes.{Bytes, codes, bytes_eq}
use krymux.Base.Json.{Json, index, as_u64, as_str, unwrap_or}
use krymux.Base.Maps.{insert_key}
use krymux.Base.Text.{decimal}
use krymux.Sync.Protocol.Messages.{
  hello_ack, error_msg, scan_ready, scan_batch, scan_end, tombstone_batch, tombstone_end,
}
use krymux.Sync.Scanner.{FileEntry}
use krymux.Sync.Tombstones.{Stamps, prune}
use krymux.Sync.Server.State.{
  Env, Session, Handling, going, finished, broken, version, write_json, flush_tombstones,
  load_tombstones,
}

abbrev pub batch_size : ℕ
batch_size = 100

abbrev pub tombstone_batch_size : ℕ
tombstone_batch_size = 1000

-- `files.chunks(batch_size)`; the length of the list is fuel enough.
abbrev pub chunk_loop {ℓ} : {A : Type ℓ} → ℕ → ℕ → List A → List (List A)
chunk_loop zero n xs = []
chunk_loop (suc fuel) n [] = []
chunk_loop (suc fuel) n (x ∷ xs) = take n (x ∷ xs) ∷ chunk_loop fuel n (drop n (x ∷ xs))

abbrev pub chunks {ℓ} : {A : Type ℓ} → ℕ → List A → List (List A)
chunks n xs = chunk_loop (length xs) n xs

module _ {D W : Type 0} (env : Env D W) where
  unfoldable pub send_batches : ℕ → List (List (FileEntry W)) → Session D W → Session D W
  send_batches i [] s = s
  send_batches i (chunk ∷ cs) s =
      send_batches (suc i) cs (write_json (scan_batch env.float chunk (i * batch_size)) s)

  -- The loop over the tombstones: a batch is sent when it has a thousand entries, and the last one
  -- when it is not empty.
  unfoldable pub send_tombstones : Stamps → Stamps → Session D W → Session D W
  send_tombstones [] batch s = if is_empty batch then s else write_json (tombstone_batch batch) s
  send_tombstones ((p, ts) ∷ tombs) batch s =
      let full = insert_key batch p ts in
      let sent = send_tombstones tombs [] (write_json (tombstone_batch full) s) in
      let waits = send_tombstones tombs full s in
      if leb tombstone_batch_size (length full) then sent else waits

  unfoldable pub send_scan : ℕ → List (FileEntry W) → Session D W → Session D W
  send_scan now files s =
      let listed =
        write_json (scan_end (length files)) (send_batches 0 (chunks batch_size files) s) in
      let flushed = flush_tombstones env now listed in
      let tombs = prune now (load_tombstones env flushed) in
      write_json (tombstone_end (length tombs)) (send_tombstones tombs [] flushed)

  -- `scan not ready` is an error.
  unfoldable pub scan_ready_files : ℕ → Option (List (FileEntry W)) → Session D W → Handling D W
  scan_ready_files now none s = broken s
  scan_ready_files now (some files) s = going (send_scan now files s)

  unfoldable pub request_scan : ℕ → Session D W → Handling D W
  request_scan now s = scan_ready_files now s.local_files s

  -- The mode that a client asks for counts only at a server that serves both directions.
  unfoldable pub negotiate_mode : Bytes → Option Bytes → Bytes
  negotiate_mode mode none = mode
  negotiate_mode mode (some cm) = if bytes_eq mode (codes "bidir") then cm else mode

  unfoldable pub scanned : Session D W → Option (List (FileEntry W)) → Handling D W
  scanned s none = broken s
  scanned s (some files) =
      going (write_json (scan_ready (length files)) (record s { local_files = some files }))

  -- `as u32` keeps the low 32 bits of the version.
  unfoldable pub handle_hello : ℕ → Json → Session D W → Handling D W
  handle_hello now m s =
      let client_version = unwrap_or (as_u64 (index m (codes "version"))) 0 % 2 ^ 32 in
      if not (client_version == version)
      then finished
          (write_json (error_msg (codes "version mismatch: " ++ decimal client_version)) s)
      else let mode = negotiate_mode s.mode (as_str (index m (codes "mode"))) in
        let ready =
          flush_tombstones env now
            (write_json (hello_ack now mode version) (record s { mode = mode })) in
        let (d, files) = env.scan_and_hash ready.disk in scanned (record ready { disk = d }) files
