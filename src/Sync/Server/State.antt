-- ===== src/Sync/Server/State.antt =====
-- sync/mod.rs: the state of a server session, and what the session is given.
use krymux.Base.{ℕ, ◌*◌, Option, List, [], ◌∷◌, ◌++◌}
use krymux.Base.Bytes.{Bytes}
use krymux.Base.Json.{Json}
use krymux.Sync.Disk.{Disk}
use krymux.Sync.Float.{Float}
use krymux.Sync.Protocol.{SyncMessage, json, bin}
use krymux.Sync.Scanner.{FileEntry}
use krymux.Sync.Tombstones
use krymux.Sync.Tombstones.{Stamps, Store}

abbrev pub version : ℕ
version = 1

abbrev pub max_file_bytes : ℕ
max_file_bytes = 8 * 1024 * 1024 * 1024

-- What the session calls: the file system, f64, serde_json on the file of tombstones, the root and
-- the number of the process, `hex::encode` of a SHA-1 digest, `{:?}` of a text, and `scan_and_hash`
-- of scanner.rs, which may leave a new cache on the disk.
pub record Env (D W : Type 0) : Type 1 where
  pub disk : Disk D W
  pub float : Float W
  pub parse_store : Bytes → Option Store
  pub print_store : Store → Option Bytes
  pub root : Bytes
  pub pid : Bytes
  pub sha1_hex : Bytes → Bytes
  pub debug : Bytes → Bytes
  pub scan_and_hash : D → D × Option (List (FileEntry W))

-- `hashed` is what the hasher was given.
pub record IncomingFile (W : Type 0) : Type 0 where
  pub rel : Bytes
  pub tmp : Bytes
  pub hashed : Bytes
  pub expected_size : ℕ
  pub expected_hash : Bytes
  pub mtime_ms : W
  pub received : ℕ

-- The local variables of the handler, with the disk, the queue of tombstones, the sequence number of
-- temporary files and the frames written so far. A write to the stream that fails ends the handler
-- and is not modelled.
pub record Session (D W : Type 0) : Type 0 where
  pub disk : D
  pub pending : Stamps
  pub seq : ℕ
  pub mode : Bytes
  pub local_files : Option (List (FileEntry W))
  pub incoming : Option (IncomingFile W)
  pub out : List SyncMessage

-- The loop goes on, returns `Ok(())`, or returns an error.
pub data Handling (D W : Type 0) : Type 0 where
  going : Session D W → Handling D W
  finished : Session D W → Handling D W
  broken : Session D W → Handling D W

module _ {D W : Type 0} where
  abbrev pub write_json : Json → Session D W → Session D W
  write_json v s = record s { out = s.out ++ json v ∷ [] }

  abbrev pub write_bin : Bytes → Session D W → Session D W
  write_bin chunk s = record s { out = s.out ++ bin chunk ∷ [] }

module _ {D W : Type 0} (env : Env D W) where
  -- `tombstones::flush`, `load` and `record` at this root.
  unfoldable pub flush_tombstones : ℕ → Session D W → Session D W
  flush_tombstones now s =
      let (left, d) =
        Tombstones.flush env.disk env.parse_store env.print_store env.root env.pid now s.pending
          s.disk in
      record s { pending = left; disk = d }

  unfoldable pub load_tombstones : Session D W → Stamps
  load_tombstones s =
      Tombstones.load env.disk env.parse_store env.print_store env.root env.pid s.disk

  unfoldable pub record_tombstone : ℕ → Bytes → Session D W → Session D W
  record_tombstone now path s = record s {
    disk =
        Tombstones.record_path env.disk env.parse_store env.print_store env.root env.pid now path
          s.disk;
  }
