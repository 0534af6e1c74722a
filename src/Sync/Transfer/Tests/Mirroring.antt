-- ===== src/Sync/Transfer/Tests/Mirroring.antt =====
-- sync/mod.rs, both sides: downloads from a server in memory.
use krymux.Base.{
  ℕ, ◌≡◌, refl, sym, ap, ◌∙◌, inl, inr, some, List, [], ◌∷◌, ◌++◌, true, Bool-cases, In, All, ok,
  if_true, if_false, arith,
}
use krymux.Base.Bytes.{Bytes, codes, bytes_eq, bytes_eq→eq}
use krymux.Sync.Collect.{Greeted}
use krymux.Sync.Memory.{
  Tree, place, one_file, idle, memory_env, memory_disk-IsLawful, memory_disk-IsHealthy,
  memory_disk-IsLocal,
}
use krymux.Sync.Plan.{
  Plan, readonly, settle_plan, diff, run_decisions, decide_server, decide_readable, decide_hashed,
  decide_absent, decide_shared, decide_both, representable,
}
use krymux.Sync.Protocol.{SyncMessage, json}
use krymux.Sync.Protocol.Messages.{get_file}
use krymux.Sync.Scanner.{FileEntry}
use krymux.Sync.Server.Paths.{safe_join}
use krymux.Sync.Server.Session.{handle_batch}
use krymux.Sync.Server.State.{Session, going}
use krymux.Sync.Transfer.Download.{download_file}
use krymux.Sync.Transfer.Apart.{IsApart}
use krymux.Sync.Transfer.Mirrored.{IsOffered, SameFile, for_each-handle_batch}
use krymux.Sync.Transfer.Mirror.{HasListed, IsScanned, apply_plan-HasListed}
use mathlib.Core.Option.{some-injective}
use krymux.Sync.Server.Paths.{join_path}
use krymux.Sync.Transfer.Run.{plan_of, apply_plan}
use krymux.Sync.Transfer.State.{Pass, onward, for_each}
use krymux.Sync.Transfer.Tests.{entry, pass, nothing, setting}

a_joined : safe_join (codes "/r") (codes "a") ≡ ok (codes "/r/a")
unfolding safe_join
a_joined = refl

-- A server with two files, and a client that has one of them.
abbrev both : Tree
both = place one_file (codes "/r/b") (some (codes "same"))

abbrev one_there : Tree
one_there = place nothing (codes "/r/b") (some (codes "same"))

abbrev serving : Session Tree ℕ
serving = record (idle readonly) { disk = both }

abbrev a_entry : FileEntry ℕ
a_entry = entry (codes "a") (codes "xyz")

abbrev b_entry : FileEntry ℕ
b_entry = entry (codes "b") (codes "same")

b_joined : safe_join (codes "/r") (codes "b") ≡ ok (codes "/r/b")
unfolding safe_join
b_joined = refl

abbrev a_offered : IsOffered memory_env serving a_entry
a_offered = record {
  content = codes "xyz";
  meta = record { is_file = true; size = 3; mtime_ms = 0 };
  served = record {
    full = codes "/r/a";
    joined = a_joined;
    found = refl;
    regular = refl;
    unlocked = refl;
    readable = refl;
  };
  sized = refl;
  capped = omega arith;
}

abbrev b_offered : IsOffered memory_env serving b_entry
b_offered = record {
  content = codes "same";
  meta = record { is_file = true; size = 4; mtime_ms = 0 };
  served = record {
    full = codes "/r/b";
    joined = b_joined;
    found = refl;
    regular = refl;
    unlocked = refl;
    readable = refl;
  };
  sized = refl;
  capped = omega arith;
}

-- The byte that tells the paths apart.
abbrev fourth : Bytes → ℕ
fourth (a ∷ b ∷ c ∷ d ∷ rest) = d
fourth _ = 0

a-IsApart : IsApart (codes "/r/a") (codes "/r/b")
a-IsApart = (λ e. omega (arith, ap fourth e), λ n e. omega (arith, ap fourth e))

b-IsApart : IsApart (codes "/r/b") (codes "/r/a")
b-IsApart = (λ e. omega (arith, ap fourth e), λ n e. omega (arith, ap fourth e))

for_each-handle_batch_example :
    (sent : List SyncMessage) × (t : Session Tree ℕ) × (s' : Pass Tree) × (handle_batch memory_env 0
        (json (get_file (codes "a")) ∷ json (get_file (codes "b")) ∷ [])
        serving
      ≡ going t)
    × (t.disk ≡ both)
    × (t.out ≡ sent)
    × (for_each (download_file memory_env) (a_entry ∷ b_entry ∷ []) (pass nothing (sent ++ []))
        ≡ onward s')
    × (s'.inbox ≡ [])
    × (s'.out ≡ json (get_file (codes "a")) ∷ json (get_file (codes "b")) ∷ [])
    × (s'.downloaded ≡ 2)
    × All (SameFile memory_env memory_env serving s'.disk) (a_entry ∷ b_entry ∷ [])
for_each-handle_batch_example =
    for_each-handle_batch memory_env memory_env (λ b. refl) memory_disk-IsLawful
      memory_disk-IsHealthy memory_disk-IsLocal 0 (a_entry ∷ b_entry ∷ []) serving (pass nothing [])
      [] (a_offered, (b_offered, tt)) ((a-IsApart, tt), (tt, tt))

-- The listing of both files.
abbrev greeted_both : Greeted setting.from_value
greeted_both = record {
  mode = readonly;
  time_offset_ms = 0;
  listing = record {
    server_files = a_entry ∷ b_entry ∷ [];
    server_tombs = [];
    server_knows_tombstones = true;
    scan_done = true;
    tombs_done = true;
  };
  later = [];
}

b-IsScanned : IsScanned memory_env (b_entry ∷ []) one_there
b-IsScanned p cf e = elim (Bool-cases (bytes_eq (codes "b") p)) [
  | inl y ↦
      let same : some b_entry ≡ some cf = sym (if_true _ _ _ y) ∙ e in
      (
        codes "same",
        ap (λ q. one_there (join_path (codes "/r") q)) (sym (bytes_eq→eq (codes "b") p y)),
        ap (λ (f : FileEntry ℕ). f.hash) (sym (some-injective _ _ same)),
      )
  | inr n ↦ cc (sym (if_false _ _ _ n) ∙ e)
]

abbrev plan : Plan ℕ
plan = plan_of memory_env setting greeted_both [] [] (b_entry ∷ [])

apply_plan-HasListed_example :
    (sent : List SyncMessage) × (t : Session Tree ℕ) × (s' : Pass Tree) × (handle_batch memory_env 0
        (json (get_file (codes "a")) ∷ [])
        serving
      ≡ going t)
    × (t.out ≡ sent)
    × (apply_plan memory_env setting readonly 0 [] plan (pass one_there (sent ++ [])) ≡ onward s')
    × (s'.inbox ≡ [])
    × (s'.downloaded ≡ 1)
    × ((f : FileEntry ℕ) → In f (a_entry ∷ b_entry ∷ []) → HasListed memory_env s'.disk f)
unfolding plan_of settle_plan diff run_decisions decide_server decide_readable decide_hashed
    decide_absent decide_shared decide_both representable
apply_plan-HasListed_example =
    apply_plan-HasListed memory_env memory_env setting greeted_both [] [] (b_entry ∷ []) refl refl
      (λ b. refl) memory_disk-IsLawful memory_disk-IsHealthy memory_disk-IsLocal 0 serving
      (pass one_there []) []
      (
        record { offered = a_offered; hashed = refl },
        (record { offered = b_offered; hashed = refl }, tt),
      )
      (refl, (refl, tt)) b-IsScanned (((a-IsApart, b-IsApart), tt), (tt, tt))
