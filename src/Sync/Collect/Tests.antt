-- ===== src/Sync/Collect/Tests.antt =====
-- sync/mod.rs: runs of the collection of a listing.
use krymux.Base.{
  ℕ, ◌≡◌, refl, ap, List, [], ◌∷◌, Option, none, some, true, false, ok, err, length, arith,
}
use krymux.Base.Bytes.{Bytes, codes}
use krymux.Base.Json.{Json, string, number, object, field, end}
use krymux.Sync.Collect.Listed.{ReadsBack, open_listing, collect-send_scan}
use krymux.Sync.Memory.{idle, memory_env, whole_float}
use krymux.Sync.Scanner.{hash_json}
use krymux.Sync.Server.Scan.{batch_size, chunks, send_batches, send_scan}
use krymux.Sync.Server.State.{write_json, flush_tombstones, load_tombstones}
use krymux.Sync.Tombstones.{prune, load, flush}
use krymux.Sync.Collect.{
  Listing, collect, collect_json, add_files, add_tombs, with_tomb, with_entry, stream_ended,
}
use krymux.Sync.Protocol.{json}
use krymux.Sync.Protocol.Messages.{scan_end, tombstone_batch, tombstone_end}
use krymux.Sync.Scanner.{FileEntry}

abbrev nothing : Json → Option (FileEntry ℕ)
nothing v = none

abbrev empty : Listing ℕ
empty = record {
  server_files = [];
  server_tombs = [];
  server_knows_tombstones = false;
  scan_done = false;
  tombs_done = false;
}

-- The end of the tombstones may come before that of the files.
run_collect :
    collect nothing
      (json (tombstone_batch ((codes "a", 5) ∷ []))
        ∷ json (tombstone_end 1)
        ∷ json (scan_end 0)
        ∷ json (scan_end 0)
        ∷ [])
      empty
    ≡ ok (
      record {
        server_files = [];
        server_tombs = (codes "a", 5) ∷ [];
        server_knows_tombstones = true;
        scan_done = true;
        tombs_done = true;
      },
      json (scan_end 0) ∷ [],
    )
unfolding collect collect_json add_files add_tombs with_tomb with_entry
run_collect = refl

run_stalled : collect nothing (json (scan_end 0) ∷ []) empty ≡ err stream_ended
unfolding collect collect_json
run_stalled = refl

abbrev hash_of : Json → Option Bytes
hash_of (string h) = some h
hash_of _ = none

abbrev four : Bytes → ℕ → ℕ → Json → FileEntry ℕ
four p n w h = record { path = p; size = n; mtime_ms = w; hash = hash_of h }

-- An entry as `entry_json` prints it.
abbrev parse_entry : Json → Option (FileEntry ℕ)
parse_entry
      (object (field k (string p) (field l (number n) (field i (number w) (field j h end))))) =
    some (four p n w h)
parse_entry _ = none

hash_of-hash_json : (o : Option Bytes) → hash_of (hash_json o) ≡ o
hash_of-hash_json none = refl
hash_of-hash_json (some h) = refl

parse_entry-ReadsBack : ReadsBack whole_float parse_entry
parse_entry-ReadsBack e =
    ap (λ h. some record { path = e.path; size = e.size; mtime_ms = e.mtime_ms; hash = h })
      (hash_of-hash_json e.hash)

abbrev files : List (FileEntry ℕ)
files = record { path = codes "a"; size = 3; mtime_ms = 9; hash = some (codes "xyz") } ∷ []

no_tombstones :
    prune 0 (
      load_tombstones memory_env (
        flush_tombstones memory_env 0 (
          write_json
            (scan_end (length files))
            (send_batches memory_env 0 (chunks batch_size files) (idle (codes "bidir"))))))
    ≡ []
unfolding prune load flush load_tombstones flush_tombstones send_batches
no_tombstones = refl

collect-send_scan_example :
    collect parse_entry
      (send_scan memory_env 0 files (idle (codes "bidir"))).out
      (open_listing whole_float parse_entry [])
    ≡ ok (
      record {
        server_files = files;
        server_tombs = [];
        server_knows_tombstones = true;
        scan_done = true;
        tombs_done = true;
      },
      [],
    )
collect-send_scan_example =
    collect-send_scan memory_env parse_entry 0 files (idle (codes "bidir")) refl no_tombstones
      parse_entry-ReadsBack (omega arith)
