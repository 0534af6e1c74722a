-- ===== src/Sync/Collect/Listed.antt =====
-- sync/mod.rs: a client collects the listing that a server sends.
use krymux.Base.{
  ℕ, zero, suc, ◌+◌, ◌*◌, ◌≤◌, ◌≡◌, refl, sym, ap, ◌∙◌, List, [], ◌∷◌, ◌++◌, Option, some, true,
  false, leb, length, length-append, append-nil, append_assoc, ok, arith, map, take, drop,
  take-append-drop, length-drop,
}
use krymux.Base.Json.{Json, items, item_list}
use krymux.Sync.Collect.{Listing, with_entry, add_files, collect_json, collect, max_scan_files}
use krymux.Sync.Float.{Float}
use krymux.Sync.Protocol.{SyncMessage, json}
use krymux.Sync.Protocol.Messages.{scan_batch, scan_end, tombstone_end}
use krymux.Sync.Scanner.{FileEntry, entry_json}
use krymux.Sync.Server.Scan.{
  batch_size, chunk_loop, chunks, send_batches, send_tombstones, send_scan,
}
use krymux.Sync.Server.State.{Env, Session, write_json, flush_tombstones, load_tombstones}
use krymux.Sync.Tombstones.{prune}

item_list-items : (vs : List Json) → item_list (items vs) ≡ vs
item_list-items [] = refl
item_list-items (v ∷ vs) = ap (◌∷◌ v) (item_list-items vs)

module _ {W : Type 0} (F : Float W) (from_value : Json → Option (FileEntry W)) where
  -- serde_json reads an entry back as it printed it.
  abbrev pub ReadsBack : Type 0
  ReadsBack = (e : FileEntry W) → from_value (entry_json F e) ≡ some e

  add_files-listed :
      (fs : List (FileEntry W)) (c : Listing W)
      → ReadsBack
      → length c.server_files + length fs ≤ max_scan_files
      → add_files from_value (map (entry_json F) fs) c
        ≡ ok record c { server_files = c.server_files ++ fs }
  unfolding add_files with_entry
  add_files-listed [] c r h = rw (append-nil c.server_files) refl
  add_files-listed (f ∷ fs) c r h =
      let not_full : leb max_scan_files (length c.server_files) ≡ false = ground (arith, h) in
      rw (not_full, r f)
        (add_files-listed fs record c { server_files = c.server_files ++ f ∷ [] } r
            (omega (arith, h, length-append c.server_files (f ∷ [])))
          ∙ rw (append_assoc c.server_files (f ∷ []) fs) refl)

  -- The messages of `send_batches`, and their files.
  abbrev pub batch_messages : ℕ → List (List (FileEntry W)) → List SyncMessage
  batch_messages i [] = []
  batch_messages i (fs ∷ cs) = json (scan_batch F fs (i * batch_size)) ∷ batch_messages (suc i) cs

  abbrev pub all_files : List (List (FileEntry W)) → List (FileEntry W)
  all_files [] = []
  all_files (fs ∷ cs) = fs ++ all_files cs

  collect_json-scan_batch :
      (fs : List (FileEntry W)) (offset : ℕ) (c : Listing W)
      → ReadsBack
      → length c.server_files + length fs ≤ max_scan_files
      → collect_json from_value (scan_batch F fs offset) c
        ≡ ok record c { server_files = c.server_files ++ fs }
  unfolding collect_json
  collect_json-scan_batch fs offset c r h =
      ap (λ vs. add_files from_value vs c) (item_list-items (map (entry_json F) fs))
      ∙ add_files-listed fs c r h

  -- A listing before its end, with these files.
  abbrev pub open_listing : List (FileEntry W) → Listing W
  open_listing fs = record {
    server_files = fs;
    server_tombs = [];
    server_knows_tombstones = false;
    scan_done = false;
    tombs_done = false;
  }

  collect-batches :
      (i : ℕ) (cs : List (List (FileEntry W))) (later : List SyncMessage) (had : List (FileEntry W))
      → ReadsBack
      → length had + length (all_files cs) ≤ max_scan_files
      → collect from_value (batch_messages i cs ++ later) (open_listing had)
        ≡ collect from_value later (open_listing (had ++ all_files cs))
  unfolding collect
  collect-batches i [] later had r h = rw (append-nil had) refl
  collect-batches i (fs ∷ cs) later had r h =
      let size = length-append fs (all_files cs) in
      rw
        (
          collect,
          collect_json-scan_batch fs (i * batch_size) (open_listing had) r (omega (arith, h, size)),
        )
        (collect-batches (suc i) cs later (had ++ fs) r
            (omega (arith, h, size, length-append had fs))
          ∙ rw (append_assoc had fs (all_files cs)) refl)

  all_files-chunk_loop :
      (fuel n : ℕ) (fs : List (FileEntry W))
      → 1 ≤ n
      → length fs ≤ fuel
      → all_files (chunk_loop fuel n fs) ≡ fs
  all_files-chunk_loop zero n [] one h = refl
  all_files-chunk_loop zero n (f ∷ fs) one h = ground (arith, h)
  all_files-chunk_loop (suc fuel) n [] one h = refl
  all_files-chunk_loop (suc fuel) n (f ∷ fs) one h =
      let later =
        all_files-chunk_loop fuel n (drop n (f ∷ fs)) one
          (omega (arith, one, h, length-drop n (f ∷ fs))) in
      ap (λ r. take n (f ∷ fs) ++ r) later ∙ take-append-drop n (f ∷ fs)

  -- A client that is sent the files of a scan in the server's batches, the end of the scan and the end
  -- of the tombstones collects exactly these files, in their order, and nothing of what comes later, if
  -- serde_json reads back the entries it printed and the files are within the cap.
  pub collect-chunks :
      (files : List (FileEntry W)) (total count : ℕ) (later : List SyncMessage)
      → ReadsBack
      → length files ≤ max_scan_files
      → collect from_value
          (batch_messages 0 (chunks batch_size files)
            ++ json (scan_end total) ∷ json (tombstone_end count) ∷ later)
          (open_listing [])
        ≡ ok (
          record {
            server_files = files;
            server_tombs = [];
            server_knows_tombstones = true;
            scan_done = true;
            tombs_done = true;
          },
          later,
        )
  unfolding collect collect_json
  collect-chunks files total count later r h =
      let whole : all_files (chunks batch_size files) ≡ files =
        all_files-chunk_loop (length files) batch_size files (omega arith) (omega arith) in
      collect-batches 0 (chunks batch_size files)
        (json (scan_end total) ∷ json (tombstone_end count) ∷ later) [] r
        (rw whole (omega (arith, h)))
      ∙ rw whole refl

module _ {D W : Type 0} (env : Env D W) (from_value : Json → Option (FileEntry W)) where
  send_batches-out :
      (i : ℕ) (cs : List (List (FileEntry W))) (s : Session D W)
      → (send_batches env i cs s).out ≡ s.out ++ batch_messages env.float from_value i cs
  unfolding send_batches
  send_batches-out i [] s = sym (append-nil s.out)
  send_batches-out i (fs ∷ cs) s =
      send_batches-out (suc i) cs (write_json (scan_batch env.float fs (i * batch_size)) s)
      ∙ append_assoc s.out (json (scan_batch env.float fs (i * batch_size)) ∷ []) _

  flush_tombstones-out : (now : ℕ) (s : Session D W) → (flush_tombstones env now s).out ≡ s.out
  unfolding flush_tombstones
  flush_tombstones-out now s = refl

  send_scan-out :
      (now : ℕ) (files : List (FileEntry W)) (s : Session D W)
      → s.out ≡ []
      → prune now (
          load_tombstones env (
            flush_tombstones env now (
              write_json
                (scan_end (length files))
                (send_batches env 0 (chunks batch_size files) s))))
        ≡ []
      → (send_scan env now files s).out
        ≡ batch_messages env.float from_value 0 (chunks batch_size files)
          ++ json (scan_end (length files)) ∷ json (tombstone_end 0) ∷ []
  unfolding send_scan send_tombstones flush_tombstones
  send_scan-out now files s o none_left =
      rw (none_left, send_batches-out 0 (chunks batch_size files) s, o)
        (append_assoc (batch_messages env.float from_value 0 (chunks batch_size files)) _ _)

  -- A client collects exactly the files that a server scanned, in their order, from what `send_scan`
  -- writes to a new stream, if the server has no tombstones, the files are within the cap, and
  -- serde_json reads back the entries it printed.
  pub collect-send_scan :
      (now : ℕ) (files : List (FileEntry W)) (s : Session D W)
      → s.out ≡ []
      → prune now (
          load_tombstones env (
            flush_tombstones env now (
              write_json
                (scan_end (length files))
                (send_batches env 0 (chunks batch_size files) s))))
        ≡ []
      → ReadsBack env.float from_value
      → length files ≤ max_scan_files
      → collect from_value (send_scan env now files s).out (open_listing env.float from_value [])
        ≡ ok (
          record {
            server_files = files;
            server_tombs = [];
            server_knows_tombstones = true;
            scan_done = true;
            tombs_done = true;
          },
          [],
        )
  collect-send_scan now files s o none_left r h =
      ap (λ out. collect from_value out (open_listing env.float from_value []))
        (send_scan-out now files s o none_left)
      ∙ collect-chunks env.float from_value files (length files) 0 [] r h
