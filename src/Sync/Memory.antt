-- ===== src/Sync/Memory.antt =====
-- A file system in memory and whole numbers for f64: the parameters of the sync engine can be met.
use krymux.Base.{
  ℕ, ◌+◌, ◌-◌, ◌≡◌, refl, sym, ap, ◌∙◌, inl, inr, Bool-cases, Option, none, some, [], ◌++◌, true,
  false, ltb, ◌==◌, max, length, if◌then◌else◌,
}
use krymux.Base.Bytes.{Bytes, codes, bytes_eq, bytes_eq_refl, bytes_eq→eq}
use krymux.Base.Json.{number, as_u64}
use krymux.Sync.Disk.{Disk, IsLawful, IsLocal, IsFlushLocal, Metadata}
use krymux.Sync.Float.{Float}
use krymux.Sync.Server.Installed.{IsHealthy}
use krymux.Sync.Server.State.{Env, Session}

-- The contents of the files, by path.
abbrev pub Tree : Type 0
Tree = Bytes → Option Bytes

abbrev pub place : Tree → Bytes → Option Bytes → Tree
place d p v q = if bytes_eq p q then v else d q

abbrev text_of : Option Bytes → Bytes
text_of none = []
text_of (some s) = s

abbrev found : Option Bytes → Option (Metadata ℕ)
found none = none
found (some s) = some (record { is_file = true; size = length s; mtime_ms = 0 })

abbrev pub memory_disk : Disk Tree ℕ
memory_disk = record {
  read = λ d p. d p;
  write = λ p text d. (place d p (some text), none);
  rename = λ p q d. (place (place d p none) q (d p), none);
  remove_file = λ p d. (place d p none, none);
  metadata = λ d p. found (d p);
  create_dir_all = λ p d. (d, none);
  create = λ p d. (place d p (some []), none);
  append = λ p text d. (place d p (some (text_of (d p) ++ text)), none);
  flush = λ p d. (d, none);
  set_file_times = λ p t d. d;
  is_file_locked = λ d p. false;
}

-- A read of the place that was just written.
placed : (d e : Tree) (p : Bytes) (v : Option Bytes) → e ≡ place d p v → e p ≡ v
placed d e p v h = rw (h, bytes_eq_refl p) refl

pub memory_disk-IsLawful : IsLawful memory_disk
memory_disk-IsLawful = record {
  read-write = λ d e p text h. placed d e p (some text) (ap (λ o. o.0) (sym h));
  read-rename = λ d e p q h. placed (place d p none) e q (d p) (ap (λ o. o.0) (sym h));
  rename_failed = λ d e p q r x h. cc (ap (λ o. o.1) h);
  read-create = λ d e p h. placed d e p (some []) (ap (λ o. o.0) (sym h));
  read-append = λ d e p old text r h.
      placed d e p (some (text_of (d p) ++ text)) (ap (λ o. o.0) (sym h))
      ∙ ap (λ o. some (text_of o ++ text)) r;
  read-flush = λ d e p q h. ap (λ o. o.0 q) (sym h);
  read-set_file_times = λ d p q t. refl;
}

elsewhere : (d : Tree) (p q : Bytes) (v : Option Bytes) → ¬ (q ≡ p) → place d p v q ≡ d q
elsewhere d p q v ne = elim (Bool-cases (bytes_eq p q)) [
  | inl e ↦ absurd (ne (sym (bytes_eq→eq p q e)))
  | inr e ↦ rw e refl
]

pub memory_disk-IsLocal : IsLocal memory_disk
memory_disk-IsLocal = record {
  read_dirs = λ d p q. refl;
  read_created = λ d p q ne. elsewhere d p q (some []) ne;
  read_appended = λ d p text q ne. elsewhere d p q (some (text_of (d p) ++ text)) ne;
  read_removed = λ d p q ne. elsewhere d p q none ne;
  read_renamed = λ d p p' q a b. elsewhere (place d p none) p' q (d p) b ∙ elsewhere d p q none a;
}

pub memory_disk-IsFlushLocal : IsFlushLocal memory_disk
memory_disk-IsFlushLocal = record { read_flushed = λ d p q ne. refl }

pub memory_disk-IsHealthy : IsHealthy memory_disk
memory_disk-IsHealthy = record {
  dirs = λ p d. refl;
  creates = λ p d. refl;
  appends = λ p text d. refl;
  flushes = λ p d. refl;
  renames = λ p q d. refl;
  unlocked = λ p d. refl;
}

abbrev pub whole_float : Float ℕ
whole_float = record {
  nought = 0;
  one = 1;
  gt = λ a b. ltb b a;
  eq = λ a b. a == b;
  add = λ a b. a + b;
  sub = λ a b. a - b;
  max = λ a b. max a b;
  of_nat = λ n. n;
  to_nat = λ n. n;
  to_json = λ n. number n;
  as_f64 = as_u64;
}

-- The digest of a text is the text; the store of tombstones is always empty, and the scan finds
-- nothing.
abbrev pub memory_env : Env Tree ℕ
memory_env = record {
  disk = memory_disk;
  float = whole_float;
  parse_store = λ s. none;
  print_store = λ s. none;
  root = codes "/r";
  pid = codes "1";
  sha1_hex = λ s. s;
  debug = λ s. s;
  scan_and_hash = λ d. (d, some []);
}

-- A tree with one file, and a session of its server.
abbrev pub one_file : Tree
one_file = place (λ p. none) (codes "/r/a") (some (codes "xyz"))

abbrev pub idle : Bytes → Session Tree ℕ
idle mode = record {
  disk = one_file;
  pending = [];
  seq = 0;
  mode = mode;
  local_files = none;
  incoming = none;
  out = [];
}
