-- ===== src/Sync/Scanner.antt =====
-- apps/krymux-sync/src/sync/scanner.rs: the entries of a scanned tree and the cache of their hashes.
mod Tests
use krymux.Base.{ℕ, Option, none, some, List, [], ◌∷◌, ◌++◌, Bool, true, false, ◌&&◌, ◌||◌, ◌==◌}
use krymux.Base.Bytes.{Bytes, codes, bytes_eq}
use krymux.Base.Json.{Json, null, number, string, object, members}
use krymux.Base.Text.{ends_with}
use krymux.Sync.Float.{Float}

abbrev pub cache_file : Bytes
cache_file = codes ".sync-cache.json"

abbrev pub store_file : Bytes
store_file = codes ".sync-tombstones.json"

-- `W` is the type of f64.
pub record FileEntry (W : Type 0) : Type 0 where
  pub path : Bytes
  pub size : ℕ
  pub mtime_ms : W
  pub hash : Option Bytes

unfoldable pub is_sync_metadata : Bytes → Bool
is_sync_metadata name =
    ends_with name (codes ".sync-tmp")
    || ends_with name (codes ".sync.lock")
    || bytes_eq name store_file
    || bytes_eq name cache_file

pub record CacheEntry (W : Type 0) : Type 0 where
  pub size : ℕ
  pub mtime_ms : W
  pub hash : Bytes

abbrev pub hash_json : Option Bytes → Json
hash_json none = null
hash_json (some h) = string h

module _ {W : Type 0} (F : Float W) where
  -- What serde derives for a FileEntry.
  abbrev pub entry_json : FileEntry W → Json
  entry_json e = object (
      members (
        (codes "path", string e.path)
        ∷ (codes "size", number e.size)
        ∷ (codes "mtime_ms", F.to_json e.mtime_ms)
        ∷ (codes "hash", hash_json e.hash)
        ∷ []))

  unfoldable pub cache_hit : CacheEntry W → FileEntry W → Bool
  cache_hit c f = F.gt f.mtime_ms F.nought && c.size == f.size && F.eq c.mtime_ms f.mtime_ms
