-- ===== src/Sync/Plan/Tests.antt =====
-- Runs of the diff, and its theorems at concrete files. Times are whole milliseconds.
use krymux.Base.{ℕ, ◌≡◌, refl, Option, none, some, List, [], ◌∷◌, true, false, All, In, here, there}
use krymux.Base.Bytes.{Bytes, codes}
use krymux.Base.Maps.{lookup_key}
use krymux.Sync.Memory.{whole_float}
use krymux.Sync.Scanner.{FileEntry}
use krymux.Sync.Tombstones.{Stamps}
use krymux.Sync.Plan.{
  representable, newer_than_server, find_entry, case_collisions, unrepresentable_on_windows,
  decide_both, decide_tombstone, decide_absent, decide_shared, decide_hashed, decide_readable,
  decide_server, decide_unshared, decide_client, run_decisions, diff, settle_plan,
}
use krymux.Sync.Plan.Decisions.{AllJustified}
use krymux.Sync.Plan.Settled.{settle_plan-AllJustified}

abbrev file : Bytes → ℕ → Option Bytes → FileEntry ℕ
file path mtime hash = record { path = path; size = 1; mtime_ms = mtime; hash = hash }

abbrev bidir : Bytes
bidir = codes "bidir"

-- The server's clock is ten ahead. `a` is newer there, `b` here, `c` was deleted here, `d` is new.
abbrev theirs : List (FileEntry ℕ)
theirs =
    file (codes "a") 112 (some (codes "1"))
    ∷ file (codes "b") 60 (some (codes "1"))
    ∷ file (codes "c") 50 (some (codes "1"))
    ∷ file (codes "d") 50 (some (codes "1"))
    ∷ file (codes "e") 111 (some (codes "1"))
    ∷ file (codes "f") 50 none
    ∷ []

-- `e` changed on both sides at the same time, `f` is locked there, and `g` was deleted there.
abbrev ours : List (FileEntry ℕ)
ours =
    file (codes "a") 100 (some (codes "2"))
    ∷ file (codes "b") 100 (some (codes "2"))
    ∷ file (codes "e") 100 (some (codes "2"))
    ∷ file (codes "f") 90 (some (codes "2"))
    ∷ file (codes "g") 90 (some (codes "2"))
    ∷ file (codes "h") 90 (some (codes "2"))
    ∷ []

abbrev our_tombs : Stamps
our_tombs = (codes "c", 41) ∷ []

abbrev their_tombs : Stamps
their_tombs = (codes "g", 101) ∷ (codes "h", 100) ∷ []

planned : diff whole_float bidir 10 true our_tombs their_tombs theirs ours ≡ record {
  downloads = file (codes "a") 112 (some (codes "1")) ∷ file (codes "d") 50 (some (codes "1")) ∷ [];
  uploads = file (codes "b") 100 (some (codes "2")) ∷ file (codes "h") 90 (some (codes "2")) ∷ [];
  server_deletes = (codes "c", 41) ∷ [];
  local_deletes = codes "g" ∷ [];
  conflicts = 1;
}
unfolding diff run_decisions decide_server decide_readable decide_hashed decide_shared decide_both
    decide_absent decide_tombstone decide_client decide_unshared
planned = refl

collisions_found :
    case_collisions [] (file (codes "A") 1 none ∷ file (codes "a") 1 none ∷ []) ≡ codes "a" ∷ []
unfolding case_collisions
collisions_found = refl

windows_names :
    (unrepresentable_on_windows (codes "a/nul.txt") ≡ true)
    × (unrepresentable_on_windows (codes "a/b ") ≡ true)
    × (unrepresentable_on_windows (codes "a/b.txt") ≡ false)
unfolding unrepresentable_on_windows
windows_names = (refl, refl, refl)

settle_plan-AllJustified_example :
    let final =
      settle_plan whole_float bidir 10 true
        (codes "d" ∷ [])
        ((codes "a", 200) ∷ [])
        (diff whole_float bidir 10 true our_tombs their_tombs theirs ours) in
    AllJustified whole_float bidir 10 true our_tombs their_tombs theirs ours final
    × All
        (λ f.
          newer_than_server whole_float bidir 10 (lookup_key ((codes "a", 200) ∷ []) f.path) f
          ≡ false)
        final.downloads
    × All (λ f. representable true (codes "d" ∷ []) f.path ≡ true) final.downloads
    × All (λ f. representable true (codes "d" ∷ []) f.path ≡ true) final.uploads
settle_plan-AllJustified_example =
    settle_plan-AllJustified whole_float bidir 10 true our_tombs their_tombs theirs ours true
      (codes "d" ∷ []) ((codes "a", 200) ∷ [])

abbrev one : List (FileEntry ℕ)
one = file (codes "a") 1 (some (codes "1")) ∷ []

agreed_there :
    (sf : FileEntry ℕ)
    → In sf one
    → (cf : FileEntry ℕ) × (find_entry one sf.path ≡ some cf) × (cf.hash ≡ sf.hash)
agreed_there sf here = (sf, refl, refl)
agreed_there sf (there i) = elim i [ ]

agreed_here :
    (cf : FileEntry ℕ) → In cf one → (sf : FileEntry ℕ) × (find_entry one cf.path ≡ some sf)
agreed_here cf here = (cf, refl)
agreed_here cf (there i) = elim i [ ]
