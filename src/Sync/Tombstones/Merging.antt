-- ===== src/Sync/Tombstones/Merging.antt =====
-- sync/tombstones.rs: the store as a map from paths to times of deletion.
use krymux.Base.{
  ℕ, ◌≡◌, refl, sym, ap, ◌∙◌, Option, none, some, [], Bool, false, arith, if◌then◌else◌,
  Option-cases, Bool-cases, is_empty, inl, inr,
}
use krymux.Base.Bytes.{Bytes, bytes_eq, bytes_eq→eq}
use krymux.Base.Maps.{
  lookup_key, insert_all, first_of, filtered, IsSorted, lookup_key-insert_key,
  lookup_key-insert_all, lookup_key-retain, insert_key-IsSorted, insert_all-IsSorted,
}
use krymux.Sync.Disk.{Disk, IsLawful}
use krymux.Sync.Tombstones.{
  Stamps, Store, store_path, is_fresh, prune, queue, load, save, save_tmp, record_with, flush,
}

first_of-none :
    (o : Option ℕ) (b : Bool) (n : ℕ) → b ≡ false → first_of o (if b then some n else none) ≡ o
first_of-none none b n e = rw e refl
first_of-none (some a) b n e = refl

with_none :
    (o : Option ℕ) (b : Bool) (n : ℕ)
    → b ≡ false
    → (if b then some n else o) ≡ first_of o (if b then some n else none)
with_none o b n e = rw e (sym (first_of-none o false n refl))

-- A path that is queued keeps the time of its first event: the last event of a run of events changes
-- only the paths that were not waiting, and it keeps the queue a sorted map.
pub queue_lem :
    (now : ℕ) (path j : Bytes) (pending : Stamps)
    → IsSorted pending
    → IsSorted (queue now path pending)
      × (lookup_key (queue now path pending) j
          ≡ first_of (lookup_key pending j) (if bytes_eq path j then some now else none))
unfolding queue
queue_lem now path j pending s = elim (Option-cases (lookup_key pending path)) [
  | inl none_yet ↦
      let ins = lookup_key-insert_key pending path j now in
      elim (Bool-cases (bytes_eq path j)) [
        | inl e ↦
            let out : lookup_key pending j ≡ none = rw (sym (bytes_eq→eq path j e)) none_yet in
            rw (none_yet, queue)
              (insert_key-IsSorted pending path now s, ground (arith, e, ins, out))
        | inr e ↦
            rw (none_yet, queue)
              (
                insert_key-IsSorted pending path now s,
                ins ∙ with_none (lookup_key pending j) (bytes_eq path j) now e,
              )
      ]
  | inr (ts, waits) ↦ elim (Bool-cases (bytes_eq path j)) [
    | inl e ↦
        let has : lookup_key pending j ≡ some ts = rw (sym (bytes_eq→eq path j e)) waits in
        rw (waits, queue, has) (s, refl)
    | inr e ↦
        rw (waits, queue) (s, sym (first_of-none (lookup_key pending j) (bytes_eq path j) now e))
  ]
]

module _ {D W : Type 0} (S : Disk D W) (parse_store : Bytes → Option Store)
    (print_store : Store → Option Bytes) (root pid : Bytes) where
  save_ok :
      (map : Stamps) (d d1 d2 : D) (text : Bytes)
      → print_store (record { v = 1; entries = map }) ≡ some text
      → S.write (save_tmp root pid) text d ≡ (d1, none)
      → S.rename (save_tmp root pid) (store_path root) d1 ≡ (d2, none)
      → save S parse_store print_store root pid map d ≡ d2
  unfolding save
  save_ok map d d1 d2 text prints writes renames = rw (prints, save, writes, renames) refl

  load_saved :
      IsLawful S
      → (map : Stamps) (d d1 d2 : D) (text : Bytes)
      → parse_store text ≡ some (record { v = 1; entries = map })
      → S.write (save_tmp root pid) text d ≡ (d1, none)
      → S.rename (save_tmp root pid) (store_path root) d1 ≡ (d2, none)
      → load S parse_store print_store root pid d2 ≡ map
  unfolding load
  load_saved L map d d1 d2 text parses writes renames =
      rw
        (
          L.read-rename d1 d2 (save_tmp root pid) (store_path root) renames,
          L.read-write d d1 (save_tmp root pid) text writes,
          parses,
        )
        refl

  -- A flush whose save meets no error, of a map that serde_json reads back as it printed it, empties
  -- the queue; each path then has the time that waited in the queue, or else the time that the store
  -- had, and none where that time is more than thirty days old.
  pub flush_lem :
      IsLawful S
      → (now : ℕ) (pending : Stamps) (d d1 d2 : D) (text j : Bytes) → is_empty pending ≡ false
      → IsSorted pending
      → IsSorted (load S parse_store print_store root pid d)
      → let merged = prune now (insert_all pending (load S parse_store print_store root pid d)) in
        print_store (record { v = 1; entries = merged }) ≡ some text
        → parse_store text ≡ some (record { v = 1; entries = merged })
        → S.write (save_tmp root pid) text d ≡ (d1, none)
        → S.rename (save_tmp root pid) (store_path root) d1 ≡ (d2, none)
        → let after = flush S parse_store print_store root pid now pending d in
          (after.0 ≡ [])
          × (lookup_key (load S parse_store print_store root pid after.1) j
              ≡ filtered (is_fresh now) (
                  first_of
                    (lookup_key pending j)
                    (lookup_key (load S parse_store print_store root pid d) j)))
  unfolding flush record_with prune
  flush_lem L now pending d d1 d2 text j some_wait s1 s2 prints parses writes renames =
      let old = load S parse_store print_store root pid d in
      let merged = prune now (insert_all pending old) in
      let saved = save_ok merged d d1 d2 text prints writes renames in
      let found = load_saved L merged d d1 d2 text parses writes renames in
      rw (some_wait, saved, found)
        (
          refl,
          lookup_key-retain (is_fresh now) (insert_all pending old) j
                (insert_all-IsSorted pending old s2)
              ∙ ap (filtered (is_fresh now)) (lookup_key-insert_all pending old j s1),
        )
