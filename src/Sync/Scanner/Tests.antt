-- ===== src/Sync/Scanner/Tests.antt =====
-- Runs of the scanner's tests on names and on its cache.
use krymux.Base.{◌≡◌, refl, true, false, none}
use krymux.Base.Bytes.{codes}
use krymux.Sync.Memory.{whole_float}
use krymux.Sync.Scanner.{is_sync_metadata, cache_hit}

metadata_names :
    (is_sync_metadata (codes "a.3.sync-tmp") ≡ true)
    × (is_sync_metadata (codes ".sync-cache.json") ≡ true)
    × (is_sync_metadata (codes "a.txt") ≡ false)
unfolding is_sync_metadata
metadata_names = (refl, refl, refl)

-- A time of 0 is no time.
hits :
    (cache_hit whole_float
        (record { size = 3; mtime_ms = 7; hash = codes "h" })
        (record { path = codes "a"; size = 3; mtime_ms = 7; hash = none })
      ≡ true)
    × (cache_hit whole_float
          (record { size = 3; mtime_ms = 0; hash = codes "h" })
          (record { path = codes "a"; size = 3; mtime_ms = 0; hash = none })
        ≡ false)
unfolding cache_hit
hits = (refl, refl)
