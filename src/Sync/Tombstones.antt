-- ===== src/Sync/Tombstones.antt =====
-- apps/krymux-sync/src/sync/tombstones.rs: deletions that are remembered per root. Each operation runs
-- under a lock and is one step here. The clock is the argument `now`; `parse_store` and `print_store`
-- are serde_json on the file of the store, and `pid` the number of the process.
pub mod Merging
mod Tests
use krymux.Base.{
  ℕ, ◌-◌, ◌*◌, Option, none, some, List, [], ◌∷◌, ◌++◌, Bool, ltb, is_empty, if◌then◌else◌,
}
use krymux.Base.Bytes.{Bytes, codes}
use krymux.Base.Maps.{lookup_key, insert_key, insert_all, retain}
use krymux.Base.Text.{decimal}
use krymux.Sync.Disk.{Disk, Outcome}
use krymux.Sync.Scanner.{store_file}

abbrev pub max_age : ℕ
max_age = 30 * 24 * 60 * 60 * 1000

-- `BTreeMap<String, u64>`.
abbrev pub Stamps : Type 0
Stamps = List (Bytes × ℕ)

pub record Store : Type 0 where
  pub v : ℕ
  pub entries : Stamps

-- `root.join(STORE_FILE)`.
abbrev pub store_path : Bytes → Bytes
store_path root = root ++ codes "/" ++ store_file

abbrev pub save_tmp : Bytes → Bytes → Bytes
save_tmp root pid = root ++ codes "/.sync-tombstones." ++ pid ++ codes ".sync-tmp"

abbrev pub is_fresh : ℕ → ℕ → Bool
is_fresh now ms = ltb (now - max_age) ms

-- `saturating_sub` is the subtraction of the natural numbers.
unfoldable pub prune : ℕ → Stamps → Stamps
prune now map = retain (is_fresh now) map

-- `or_insert_with`: a path that waits already keeps its time.
unfoldable pub queue : ℕ → Bytes → Stamps → Stamps
queue now path pending = elim (lookup_key pending path) [
  | some ts ↦ pending
  | none ↦ insert_key pending path now
]

module _ {D W : Type 0} (S : Disk D W) (parse_store : Bytes → Option Store)
    (print_store : Store → Option Bytes) (root pid : Bytes) where
  abbrev stored : Option Store → Stamps
  stored none = []
  stored (some s) = s.entries

  abbrev parsed : Option Bytes → Stamps
  parsed none = []
  parsed (some text) = stored (parse_store text)

  -- A file that is missing or corrupt is an empty store.
  unfoldable pub load : D → Stamps
  load d = parsed (S.read d (store_path root))

  -- A failure of any step removes the temporary file, and is only logged.
  abbrev undo_save : Outcome D → D
  undo_save (d, none) = d
  undo_save (d, some e) = (S.remove_file (save_tmp root pid) d).0

  abbrev then_rename : Outcome D → Outcome D
  then_rename (d, none) = S.rename (save_tmp root pid) (store_path root) d
  then_rename (d, some e) = (d, some e)

  unfoldable pub save : Stamps → D → D
  save map d = elim (print_store (record { v = 1; entries = map })) [
    | none ↦ (S.remove_file (save_tmp root pid) d).0
    | some text ↦ undo_save (then_rename (S.write (save_tmp root pid) text d))
  ]

  unfoldable pub record_with : ℕ → Stamps → D → D
  record_with now entries d = save (prune now (insert_all entries (load d))) d

  unfoldable pub record_path : ℕ → Bytes → D → D
  record_path now path d = record_with now ((path, now) ∷ []) d

  -- The queue is emptied before its entries are saved.
  unfoldable pub flush : ℕ → Stamps → D → Stamps × D
  flush now pending d = if is_empty pending then (pending, d) else ([], record_with now pending d)
