-- ===== src/Sync/Tombstones/Tests.antt =====
-- Runs of the tombstone store, and its theorem at concrete input.
use krymux.Base.{◌≡◌, refl, Option, none, some, [], ◌∷◌, ◌+◌, if◌then◌else◌}
use krymux.Base.Bytes.{Bytes, codes, bytes_eq}
use krymux.Base.Maps.{lookup_key}
use krymux.Sync.Memory.{Tree, place, memory_disk, memory_disk-IsLawful}
use krymux.Sync.Tombstones.{Stamps, Store, queue, prune, load, flush, store_path, save_tmp, max_age}
use krymux.Sync.Tombstones.Merging.{flush_lem}

abbrev root : Bytes
root = codes "/r"

-- Two paths and their times.
abbrev old_entries : Stamps
old_entries = (codes "a", 5) ∷ (codes "b", max_age + 4) ∷ []

abbrev waiting : Stamps
waiting = (codes "a", max_age + 9) ∷ []

abbrev merged : Stamps
merged = (codes "a", max_age + 9) ∷ (codes "b", max_age + 4) ∷ []

-- The text `1` is the old store, and `2` the merged one.
abbrev parse_store : Bytes → Option Store
parse_store s =
    if bytes_eq s (codes "1")
    then some (record { v = 1; entries = old_entries })
    else if bytes_eq s (codes "2")
    then some (record { v = 1; entries = merged })
    else none

abbrev print_store : Store → Option Bytes
print_store s = some (codes "2")

abbrev tree : Tree
tree p = some (codes "1")

queue_keeps_first : queue 7 (codes "a") waiting ≡ waiting
unfolding queue
queue_keeps_first = refl

pruned : prune (max_age + 5) old_entries ≡ (codes "b", max_age + 4) ∷ []
unfolding prune
pruned = refl

flush_lem_example :
    let after =
      flush memory_disk parse_store print_store root (codes "1") (max_age + 5) waiting tree in
    (after.0 ≡ [])
    × (lookup_key (load memory_disk parse_store print_store root (codes "1") after.1) (codes "a")
        ≡ some (max_age + 9))
unfolding load prune
flush_lem_example =
    flush_lem memory_disk parse_store print_store root (codes "1") memory_disk-IsLawful
      (max_age + 5) waiting tree (place tree (save_tmp root (codes "1")) (some (codes "2")))
      (place
        (place (place tree (save_tmp root (codes "1")) (some (codes "2")))
          (save_tmp root (codes "1")) none)
        (store_path root) (some (codes "2")))
      (codes "2") (codes "a") refl (tt, tt) ((refl, tt), (tt, tt)) refl refl refl refl
