-- ===== src/Sync/Disk.antt =====
-- The file system as the sync engine calls it: std::fs, tokio::fs and the filetime crate.
use krymux.Base.{ℕ, ◌≡◌, [], ◌++◌, Option, none, some, Bool}
use krymux.Base.Bytes.{Bytes}

-- An operation returns the new state and the text of its error, if it fails.
abbrev pub Outcome : Type 0 → Type 0
Outcome D = D × Option Bytes

-- `mtime_ms` is the modification time as the code reads it, 0.0 where there is none.
pub record Metadata (W : Type 0) : Type 0 where
  pub is_file : Bool
  pub size : ℕ
  pub mtime_ms : W

-- `create` makes an empty file or empties one, `append` is a `write_all` to a file that is open, and
-- `is_file_locked` is the probe of scanner.rs, which opens the file.
pub record Disk (D W : Type 0) : Type 0 where
  pub read : D → Bytes → Option Bytes
  pub write : Bytes → Bytes → D → Outcome D
  pub rename : Bytes → Bytes → D → Outcome D
  pub remove_file : Bytes → D → Outcome D
  pub metadata : D → Bytes → Option (Metadata W)
  pub create_dir_all : Bytes → D → Outcome D
  pub create : Bytes → D → Outcome D
  pub append : Bytes → Bytes → D → Outcome D
  pub flush : Bytes → D → Outcome D
  pub set_file_times : Bytes → W → D → D
  pub is_file_locked : D → Bytes → Bool

-- What the engine relies on where the calls succeed: a file reads as it was written, and a rename
-- gives the contents to its target, or fails and leaves the files as they are.
pub record IsLawful {D W : Type 0} (S : Disk D W) : Type 0 where
  pub read-write :
      (d e : D) (p text : Bytes) → S.write p text d ≡ (e, none) → S.read e p ≡ some text
  pub read-rename : (d e : D) (p q : Bytes) → S.rename p q d ≡ (e, none) → S.read e q ≡ S.read d p
  pub rename_failed :
      (d e : D) (p q r x : Bytes) → S.rename p q d ≡ (e, some x) → S.read e r ≡ S.read d r
  pub read-create : (d e : D) (p : Bytes) → S.create p d ≡ (e, none) → S.read e p ≡ some []
  pub read-append :
      (d e : D) (p old text : Bytes)
      → S.read d p ≡ some old
      → S.append p text d ≡ (e, none)
      → S.read e p ≡ some (old ++ text)
  pub read-flush : (d e : D) (p q : Bytes) → S.flush p d ≡ (e, none) → S.read e q ≡ S.read d q
  pub read-set_file_times :
      (d : D) (p q : Bytes) (t : W) → S.read (S.set_file_times p t d) q ≡ S.read d q

-- A call that names some paths leaves the files at the others as they are.
pub record IsLocal {D W : Type 0} (S : Disk D W) : Type 0 where
  pub read_dirs : (d : D) (p q : Bytes) → S.read (S.create_dir_all p d).0 q ≡ S.read d q
  pub read_created : (d : D) (p q : Bytes) → ¬ (q ≡ p) → S.read (S.create p d).0 q ≡ S.read d q
  pub read_appended :
      (d : D) (p text q : Bytes) → ¬ (q ≡ p) → S.read (S.append p text d).0 q ≡ S.read d q
  pub read_removed : (d : D) (p q : Bytes) → ¬ (q ≡ p) → S.read (S.remove_file p d).0 q ≡ S.read d q
  pub read_renamed :
      (d : D) (p p' q : Bytes) → ¬ (q ≡ p) → ¬ (q ≡ p') → S.read (S.rename p p' d).0 q ≡ S.read d q

-- A flush of a file, which may fail, leaves the other files as they are.
pub record IsFlushLocal {D W : Type 0} (S : Disk D W) : Type 0 where
  pub read_flushed : (d : D) (p q : Bytes) → ¬ (q ≡ p) → S.read (S.flush p d).0 q ≡ S.read d q
