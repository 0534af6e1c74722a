-- ===== src/Sync/Server/Kept.antt =====
-- sync/mod.rs: handlers that only write frames, and handlers that leave the mode and the upload alone.
use krymux.Base.{
  ℕ, suc, ◌%◌, ◌^◌, ◌==◌, not, ◌⊎◌, inl, inr, if_false, Bool-cases, ◌≡◌, refl, ◌∙◌, Option, none,
  some, List, [], ◌∷◌, true, Result, ok, err, if_both, leb, length,
}
use krymux.Base.Bytes.{Bytes, codes, bytes_eq}
use krymux.Base.Json.{Json, index, as_u64, as_str, unwrap_or}
use krymux.Base.Maps.{insert_key}
use krymux.Sync.Disk.{Outcome, Metadata}
use krymux.Sync.Plan.{readonly}
use krymux.Sync.Protocol.Messages.{scan_end, tombstone_batch}
use krymux.Sync.Scanner.{FileEntry}
use krymux.Sync.Tombstones
use krymux.Sync.Tombstones.{Stamps, prune}
use krymux.Sync.Server.Paths.{PathError, safe_join}
use krymux.Sync.Server.Files.{
  send_chunks, stream_file, serve_open, serve_found, serve_file, serve_joined, handle_get_file,
  removed, delete_found, delete_joined, handle_delete_file,
}
use krymux.Sync.Server.Scan.{
  batch_size, chunks, tombstone_batch_size, send_batches, send_tombstones, send_scan,
  scan_ready_files, negotiate_mode, request_scan, scanned, handle_hello,
}
use krymux.Sync.Server.State.{
  Env, Session, Handling, going, finished, broken, version, write_json, write_bin, flush_tombstones,
  load_tombstones, record_tombstone,
}

ap2 : {A B C : Type 0} (f : A → B → C) {a a' : A} {b b' : B} → a ≡ a' → b ≡ b' → f a b ≡ f a' b'
ap2 f p q = rw (p, q) refl

module _ {D W : Type 0} where
  -- A predicate on the state in which the handler goes on or ends.
  abbrev pub Holds : (Session D W → Type 0) → Handling D W → Type 0
  Holds P (going s) = P s
  Holds P (finished s) = P s
  Holds P (broken s) = P s

  pub Holds-imp :
      (P Q : Session D W → Type 0) (a : Handling D W)
      → ((t : Session D W) → P t → Q t)
      → Holds P a
      → Holds Q a
  Holds-imp P Q (going t) f h = f t h
  Holds-imp P Q (finished t) f h = f t h
  Holds-imp P Q (broken t) f h = f t h

  abbrev pub Same : Session D W → Session D W → Type 0
  Same s t =
      (t.disk ≡ s.disk) × (t.pending ≡ s.pending) × (t.mode ≡ s.mode) × (t.incoming ≡ s.incoming)

  abbrev pub Kept : Session D W → Session D W → Type 0
  Kept s t = (t.mode ≡ s.mode) × (t.incoming ≡ s.incoming)

  Same-trans : (s t u : Session D W) → Same s t → Same t u → Same s u
  Same-trans s t u a b = (b.0 ∙ a.0, b.1 ∙ a.1, b.2 ∙ a.2, b.3 ∙ a.3)

module _ {D W : Type 0} (env : Env D W) where
  send_chunks-Same : (cs : List Bytes) (s : Session D W) → Same s (send_chunks env cs s)
  unfolding send_chunks
  send_chunks-Same [] s = (refl, refl, refl, refl)
  send_chunks-Same (chunk ∷ cs) s = send_chunks-Same cs (write_bin chunk s)

  serve_open-Same :
      (path : Bytes) (meta : Metadata W) (o : Option Bytes) (s : Session D W)
      → Holds (Same s) (serve_open env path meta o s)
  unfolding serve_open stream_file
  serve_open-Same path meta none s = (refl, refl, refl, refl)
  serve_open-Same path meta (some content) s = send_chunks-Same _ (write_json _ s)

  serve_found-Same :
      (full path : Bytes) (o : Option (Metadata W)) (s : Session D W)
      → Holds (Same s) (serve_found env full path o s)
  unfolding serve_found
  serve_found-Same full path none s = (refl, refl, refl, refl)
  serve_found-Same full path (some meta) s =
      if_both (Holds (Same s)) meta.is_file _ _
        (λ e.
          if_both (Holds (Same s)) (env.disk.is_file_locked s.disk full) _ _
            (λ l. (refl, refl, refl, refl))
            (λ l. serve_open-Same path meta (env.disk.read s.disk full) s))
        (λ e. (refl, refl, refl, refl))

  serve_joined-Same :
      (path : Bytes) (r : Result PathError Bytes) (s : Session D W)
      → Holds (Same s) (serve_joined env path r s)
  unfolding serve_joined serve_file
  serve_joined-Same path (ok full) s = serve_found-Same full path (env.disk.metadata s.disk full) s
  serve_joined-Same path (err e) s = (refl, refl, refl, refl)

  -- A download changes nothing but what is written to the stream.
  pub handle_get_file-Same : (m : Json) (s : Session D W) → Holds (Same s) (handle_get_file env m s)
  unfolding handle_get_file
  handle_get_file-Same m s =
      let path = unwrap_or (as_str (index m (codes "path"))) [] in
      serve_joined-Same path (safe_join env.root path) s

  send_batches-Same :
      (i : ℕ) (cs : List (List (FileEntry W))) (s : Session D W) → Same s (send_batches env i cs s)
  unfolding send_batches
  send_batches-Same i [] s = (refl, refl, refl, refl)
  send_batches-Same i (chunk ∷ cs) s = send_batches-Same (suc i) cs (write_json _ s)

  send_tombstones-Same :
      (tombs batch : Stamps) (s : Session D W) → Same s (send_tombstones env tombs batch s)
  unfolding send_tombstones
  send_tombstones-Same [] [] s = (refl, refl, refl, refl)
  send_tombstones-Same [] (e ∷ batch) s = (refl, refl, refl, refl)
  send_tombstones-Same ((p, ts) ∷ tombs) batch s =
      if_both (Same s) (leb tombstone_batch_size (length (insert_key batch p ts))) _ _
        (λ e.
          send_tombstones-Same tombs [] (write_json (tombstone_batch (insert_key batch p ts)) s))
        (λ e. send_tombstones-Same tombs (insert_key batch p ts) s)

  flush_tombstones-Same :
      (now : ℕ) (s t : Session D W)
      → Same s t
      → Same (flush_tombstones env now s) (flush_tombstones env now t)
  unfolding flush_tombstones
  flush_tombstones-Same now s t h = (
    ap2
        (λ q d.
          (Tombstones.flush env.disk env.parse_store env.print_store env.root env.pid now q d).1)
        h.1 h.0,
    ap2
        (λ q d.
          (Tombstones.flush env.disk env.parse_store env.print_store env.root env.pid now q d).0)
        h.1 h.0,
    h.2,
    h.3,
  )

  flush_tombstones-Kept : (now : ℕ) (s : Session D W) → Kept s (flush_tombstones env now s)
  unfolding flush_tombstones
  flush_tombstones-Kept now s = (refl, refl)

  -- The scan leaves the disk as the flush of the tombstones leaves it.
  pub send_scan-Same :
      (now : ℕ) (files : List (FileEntry W)) (s : Session D W)
      → Same (flush_tombstones env now s) (send_scan env now files s)
  unfolding send_scan
  send_scan-Same now files s =
      let batches = send_batches env 0 (chunks batch_size files) s in
      let listed = write_json (scan_end (length files)) batches in
      let flushed = flush_tombstones env now listed in
      Same-trans (flush_tombstones env now s) flushed
        (send_tombstones env (prune now (load_tombstones env flushed)) [] flushed)
        (flush_tombstones-Same now s listed (send_batches-Same 0 (chunks batch_size files) s))
        (send_tombstones-Same (prune now (load_tombstones env flushed)) [] flushed)

  removed-Kept :
      (now : ℕ) (path : Bytes) (o : Outcome D) (s : Session D W) → Kept s (removed env now path o s)
  unfolding removed record_tombstone
  removed-Kept now path (d, none) s = (refl, refl)
  removed-Kept now path (d, some e) s = (refl, refl)

  pub scanned-Same :
      (o : Option (List (FileEntry W))) (s : Session D W) → Holds (Same s) (scanned env s o)
  unfolding scanned
  scanned-Same none s = (refl, refl, refl, refl)
  scanned-Same (some files) s = (refl, refl, refl, refl)

  delete_found-Kept :
      (now : ℕ) (full path : Bytes) (ts : ℕ) (o : Option (Metadata W)) (s : Session D W)
      → Kept s (delete_found env now full path ts o s)
  unfolding delete_found record_tombstone
  delete_found-Kept now full path ts none s = (refl, refl)
  delete_found-Kept now full path ts (some meta) s =
      if_both (Kept s) meta.is_file _ _
        (λ e.
          if_both (Kept s) (env.float.gt meta.mtime_ms (env.float.of_nat ts)) _ _
            (λ l. (refl, refl)) (λ l. removed-Kept now path (env.disk.remove_file full s.disk) s))
        (λ e. (refl, refl))

  delete_joined-Kept :
      (now : ℕ) (path : Bytes) (ts : ℕ) (r : Result PathError Bytes) (s : Session D W)
      → Kept s (delete_joined env now path ts r s)
  unfolding delete_joined
  delete_joined-Kept now path ts (ok full) s =
      delete_found-Kept now full path ts (env.disk.metadata s.disk full) s
  delete_joined-Kept now path ts (err e) s = (refl, refl)

  pub handle_delete_file-Kept :
      (now : ℕ) (m : Json) (s : Session D W) → Kept s (handle_delete_file env now m s)
  unfolding handle_delete_file
  handle_delete_file-Kept now m s =
      let path = unwrap_or (as_str (index m (codes "path"))) [] in
      if_both (Kept s) (bytes_eq s.mode readonly) _ _ (λ e. (refl, refl))
        (λ e. delete_joined-Kept now path _ (safe_join env.root path) s)

  scan_ready_files-Kept :
      (now : ℕ) (o : Option (List (FileEntry W))) (s : Session D W)
      → Holds
          (λ t. Kept s t × ((t.disk ≡ s.disk) ⊎ (t.disk ≡ (flush_tombstones env now s).disk)))
          (scan_ready_files env now o s)
  unfolding scan_ready_files
  scan_ready_files-Kept now none s = ((refl, refl), inl refl)
  scan_ready_files-Kept now (some files) s =
      let same = send_scan-Same now files s in
      let keeps = flush_tombstones-Kept now s in ((same.2 ∙ keeps.0, same.3 ∙ keeps.1), inr same.0)

  -- A request for the scan leaves the mode and the upload alone, and the disk but for the flush.
  pub request_scan-Kept :
      (now : ℕ) (s : Session D W)
      → Holds
          (λ t. Kept s t × ((t.disk ≡ s.disk) ⊎ (t.disk ≡ (flush_tombstones env now s).disk)))
          (request_scan env now s)
  unfolding request_scan
  request_scan-Kept now s = scan_ready_files-Kept now s.local_files s

  -- What `hello` may change.
  pub record Greeted (now : ℕ) (s t : Session D W) : Type 0 where
    pub upload : t.incoming ≡ s.incoming
    pub mode : (t.mode ≡ s.mode) ⊎ (bytes_eq s.mode (codes "bidir") ≡ true)
    pub disk :
        (t.disk ≡ s.disk) ⊎ (t.disk ≡ (env.scan_and_hash (flush_tombstones env now s).disk).0)

  negotiated :
      (mode : Bytes) (o : Option Bytes)
      → (negotiate_mode env mode o ≡ mode) ⊎ (bytes_eq mode (codes "bidir") ≡ true)
  unfolding negotiate_mode
  negotiated mode none = inl refl
  negotiated mode (some cm) = elim (Bool-cases (bytes_eq mode (codes "bidir"))) [
    | inl e ↦ inr e
    | inr e ↦ inl (if_false _ cm mode e)
  ]

  scanned-Greeted :
      (now : ℕ) (s : Session D W) (o : Option (List (FileEntry W))) (t : Session D W)
      → Greeted now s t
      → Holds (Greeted now s) (scanned env t o)
  unfolding scanned
  scanned-Greeted now s none t g = g
  scanned-Greeted now s (some files) t g = record {
    upload = g.upload;
    mode = g.mode;
    disk = g.disk;
  }

  pub handle_hello-Greeted :
      (now : ℕ) (m : Json) (s : Session D W) → Holds (Greeted now s) (handle_hello env now m s)
  unfolding handle_hello flush_tombstones
  handle_hello-Greeted now m s =
      let client_version = unwrap_or (as_u64 (index m (codes "version"))) 0 % 2 ^ 32 in
      if_both (Holds (Greeted now s)) (not (client_version == version)) _ _
        (λ e. record { upload = refl; mode = inl refl; disk = inl refl })
        (λ e. scanned-Greeted now s _ _ (record {
          upload = refl;
          mode = negotiated s.mode (as_str (index m (codes "mode")));
          disk = inr refl;
        }))
