-- ===== src/Sync/Server/Tests.antt =====
-- A session on a file system in memory, and the theorems at concrete messages.
use krymux.Base.{ℕ, ◌≡◌, refl, ◌↔◌, ◌⊎◌, inr, none, some, [], ◌∷◌, ◌++◌, true, ok, err, arith}
use krymux.Base.Bytes.{codes}
use krymux.Sync.Memory.{
  Tree, place, one_file, idle, memory_env, memory_disk, whole_float, memory_disk-IsLawful,
  memory_disk-IsLocal, memory_disk-IsFlushLocal, memory_disk-IsHealthy,
}
use krymux.Sync.Plan.{readonly}
use krymux.Sync.Protocol.{json, bin, new}
use krymux.Sync.Protocol.Messages.{
  hello, get_file, put_start, put_done, put_ack, delete_file, file_meta, file_done,
}
use krymux.Sync.Tombstones
use krymux.Sync.Tombstones.{Stamps}
use krymux.Sync.Server.Files.{
  stream_file, send_chunks, serve_open, serve_found, serve_file, serve_joined, handle_get_file,
}
use krymux.Sync.Server.Installed.{upload_lem}
use krymux.Sync.Server.Joining.{IsSafe, safe_join_lem}
use krymux.Sync.Server.Kept.{Holds}
use krymux.Sync.Server.Paths.{safe_join, unsafe_component}
use krymux.Sync.Server.Session.{handle_batch, serve}
use krymux.Sync.Server.Sound.{IsSound, IsSteady, serve-IsSteady}
use krymux.Sync.Server.State.{Session, IncomingFile, going, flush_tombstones}
use krymux.Sync.Server.Untouched.{IsReadonly, serve-IsReadonly}
use krymux.Sync.Server.Upload.{handle_put_done}
use krymux.Sync.Server.Verified.{Installed, Refused, handle_put_done_lem}

accepted : safe_join (codes "/r") (codes "a/b") ≡ ok (codes "/r/a/b")
unfolding safe_join
accepted = refl

escapes : safe_join (codes "/r") (codes "a/../../b") ≡ err (unsafe_component (codes "a/../../b"))
unfolding safe_join
escapes = refl

served :
    handle_get_file memory_env (get_file (codes "a")) (idle (codes "bidir"))
    ≡ going (record (idle (codes "bidir")) {
      out =
          json (file_meta whole_float (codes "a") 3 (codes "xyz") 0)
          ∷ bin (codes "xyz")
          ∷ json (file_done (codes "a"))
          ∷ [];
    })
unfolding handle_get_file serve_joined serve_file serve_found serve_open stream_file send_chunks
    safe_join
served = refl

safe_join_lem_example :
    (safe_join (codes "/r") (codes "a") ≡ ok (codes "/r/a"))
    ↔ (IsSafe (codes "a") × (codes "/r/a" ≡ codes "/r" ++ codes "/" ++ codes "a"))
safe_join_lem_example = safe_join_lem (codes "/r") (codes "a") (codes "/r/a")

abbrev inc : IncomingFile ℕ
inc = record {
  rel = codes "b";
  tmp = codes "/r/b.0.sync-tmp";
  hashed = codes "hi";
  expected_size = 2;
  expected_hash = codes "hi";
  mtime_ms = 5;
  received = 2;
}

abbrev uploading : Session Tree ℕ
uploading = record (idle (codes "bidir")) {
  disk = place one_file (codes "/r/b.0.sync-tmp") (some (codes "hi"));
  incoming = some inc;
}

sound : IsSound inc
sound = record { counted = refl; within = omega arith; capped = omega arith }

handle_put_done_lem_example :
    let t = handle_put_done memory_env uploading in
    (t.incoming ≡ none)
    × (Installed memory_env inc uploading.disk [] t ⊎ Refused memory_env inc uploading.disk [] t)
handle_put_done_lem_example =
    handle_put_done_lem memory_env memory_disk-IsLawful memory_disk-IsLocal memory_disk-IsFlushLocal
      inc uploading refl sound refl

serve-IsSteady_example : Holds (IsSteady memory_env) (
    serve memory_env
      (λ s. none)
      0
      new
      (bin (codes "!") ∷ json (put_done (codes "b")) ∷ [])
      []
      uploading)
serve-IsSteady_example =
    serve-IsSteady memory_env (λ s. none) 0 new (bin (codes "!") ∷ json (put_done (codes "b")) ∷ [])
      [] uploading sound

abbrev HasA : Tree → Type 0
HasA d = d (codes "/r/a") ≡ some (codes "xyz")

flushed-HasA :
    (now : ℕ) (q : Stamps) (d : Tree)
    → HasA d
    → HasA (Tombstones.flush memory_disk (λ s. none) (λ s. none) (codes "/r") (codes "1") now q d).1
unfolding Tombstones.flush Tombstones.record_with Tombstones.save
flushed-HasA now [] d h = h
flushed-HasA now (e ∷ q) d h = h

flush-HasA :
    (now : ℕ) (s : Session Tree ℕ) → HasA s.disk → HasA (flush_tombstones memory_env now s).disk
unfolding flush_tombstones
flush-HasA now s h = flushed-HasA now s.pending s.disk h

serve-IsReadonly_example : Holds (IsReadonly memory_env HasA) (
    serve memory_env
      (λ s. none)
      0
      new
      (json (hello 1 (codes "bidir")) ∷ json (delete_file (codes "a") 9) ∷ [])
      []
      (idle readonly))
serve-IsReadonly_example =
    serve-IsReadonly memory_env HasA flush-HasA (λ d h. h) (λ s. none) 0 new
      (json (hello 1 (codes "bidir")) ∷ json (delete_file (codes "a") 9) ∷ []) [] (idle readonly)
      (record { mode = refl; idle = refl; tree = refl })

b-IsSafe : IsSafe (codes "b")
b-IsSafe = (refl, ((λ e. cc e, λ e. cc e, λ e. cc e, refl), tt))

upload_lem_example :
    (t : Session Tree ℕ) × (handle_batch memory_env 0
        (json (put_start whole_float (codes "b") 3 (codes "hi!") 5)
          ∷ bin (codes "hi")
          ∷ bin (codes "!")
          ∷ json (put_done (codes "b"))
          ∷ [])
        (idle (codes "bidir"))
      ≡ going t)
    × (t.disk (codes "/r/b") ≡ some (codes "hi!"))
    × (t.incoming ≡ none)
    × (t.out ≡ json (put_ack (codes "b") true []) ∷ [])
upload_lem_example =
    upload_lem memory_env memory_disk-IsLawful memory_disk-IsHealthy 0 (codes "b") (codes "hi!") 5
      (codes "hi" ∷ codes "!" ∷ []) (idle (codes "bidir")) b-IsSafe (omega arith) (inr refl) refl
