-- ===== src/Sync/Plan.antt =====
-- apps/krymux-sync/src/sync/mod.rs, the diff of `run_sync_client`: what a pass transfers and deletes.
-- `W` is the type of f64, `windows` stands for `cfg!(windows)`, and paths are ASCII.
pub mod Decisions
pub mod Settled
pub mod Readonly
pub mod Warranted
mod Tests
use krymux.Base.{
  ℕ, zero, suc, ◌+◌, Option, none, some, List, [], ◌∷◌, ◌++◌, Bool, true, false, not, ◌&&◌, ◌||◌,
  ◌==◌, any, keep_if, is_empty, if◌then◌else◌,
}
use krymux.Base.Bytes.{Bytes, codes, bytes_eq}
use krymux.Base.Maps.{lookup_key}
use krymux.Base.Text.{to_lower, ends_with, split_on, take_until, to_upper}
use krymux.Sync.Float.{Float}
use krymux.Sync.Scanner.{FileEntry}
use krymux.Sync.Tombstones.{Stamps}

abbrev pub readonly : Bytes
readonly = codes "readonly"

-- The characters that no file name of Windows has.
abbrev is_invalid_char : ℕ → Bool
is_invalid_char c =
    c == b'<' || c == b'>' || c == b':' || c == b'"' || c == b'|' || c == b'?' || c == b'*'

abbrev texts_have : List Bytes → Bytes → Bool
texts_have [] s = false
texts_have (t ∷ ts) s = bytes_eq t s || texts_have ts s

abbrev devices : List Bytes
devices =
    codes "CON"
    ∷ codes "PRN"
    ∷ codes "AUX"
    ∷ codes "NUL"
    ∷ codes "COM1"
    ∷ codes "COM2"
    ∷ codes "COM3"
    ∷ codes "COM4"
    ∷ codes "COM5"
    ∷ codes "COM6"
    ∷ codes "COM7"
    ∷ codes "COM8"
    ∷ codes "COM9"
    ∷ codes "LPT1"
    ∷ codes "LPT2"
    ∷ codes "LPT3"
    ∷ codes "LPT4"
    ∷ codes "LPT5"
    ∷ codes "LPT6"
    ∷ codes "LPT7"
    ∷ codes "LPT8"
    ∷ codes "LPT9"
    ∷ []

abbrev is_bad_component : Bytes → Bool
is_bad_component comp =
    is_empty comp
    || ends_with comp (codes ".")
    || ends_with comp (codes " ")
    || texts_have devices (to_upper (take_until b'.' comp))

unfoldable pub unrepresentable_on_windows : Bytes → Bool
unrepresentable_on_windows rel =
    any is_invalid_char rel || any is_bad_component (split_on (λ c. c == b'/') rel)

unfoldable pub representable : Bool → List Bytes → Bytes → Bool
representable windows collisions p =
    if windows then not (texts_have collisions p || unrepresentable_on_windows p) else true

module _ {W : Type 0} where
  -- The paths that collide with an earlier one when case is ignored.
  unfoldable pub case_collisions : List Bytes → List (FileEntry W) → List Bytes
  case_collisions seen [] = []
  case_collisions seen (f ∷ fs) =
      let lc = to_lower f.path in
      let repeated = case_collisions seen fs in
      let fresh = case_collisions (lc ∷ seen) fs in
      if texts_have seen lc then f.path ∷ repeated else fresh

  -- A HashMap collected from a list: of two entries for a path, the later one stays.
  abbrev pub find_entry : List (FileEntry W) → Bytes → Option (FileEntry W)
  find_entry [] p = none
  find_entry (f ∷ fs) p = elim (find_entry fs p) [
    | some g ↦ some g
    | none ↦ if bytes_eq f.path p then some f else none
  ]

pub record Plan (W : Type 0) : Type 0 where
  pub downloads : List (FileEntry W)
  pub uploads : List (FileEntry W)
  pub server_deletes : Stamps
  pub local_deletes : List Bytes
  pub conflicts : ℕ

abbrev pub no_actions : {W : Type 0} → Plan W
no_actions = record {
  downloads = [];
  uploads = [];
  server_deletes = [];
  local_deletes = [];
  conflicts = 0;
}

-- What the loops decide for one file.
pub data FileDecision (W : Type 0) : Type 0 where
  leave : FileDecision W
  download : FileEntry W → FileDecision W
  upload : FileEntry W → FileDecision W
  delete_on_server : Bytes → ℕ → FileDecision W
  delete_here : Bytes → FileDecision W
  conflict : FileDecision W

abbrev pub act : {W : Type 0} → FileDecision W → Plan W → Plan W
act leave plan = plan
act (download f) plan = record plan { downloads = plan.downloads ++ f ∷ [] }
act (upload f) plan = record plan { uploads = plan.uploads ++ f ∷ [] }
act (delete_on_server p ts) plan = record plan {
  server_deletes = plan.server_deletes ++ (p, ts) ∷ [];
}
act (delete_here p) plan = record plan { local_deletes = plan.local_deletes ++ p ∷ [] }
act conflict plan = record plan { conflicts = plan.conflicts + 1 }

module _ {W : Type 0} where
  unfoldable pub run_decisions :
      (FileEntry W → FileDecision W) → List (FileEntry W) → Plan W → Plan W
  run_decisions decide [] plan = plan
  run_decisions decide (f ∷ fs) plan = run_decisions decide fs (act (decide f) plan)

module _ {W : Type 0} (F : Float W) (mode : Bytes) (time_offset_ms : W) where
  -- A time of our own clock against the time of a server file, in our clock.
  abbrev pub newer_than_server : Option ℕ → FileEntry W → Bool
  newer_than_server none sf = false
  newer_than_server (some ts) sf = F.gt (F.of_nat ts) (F.sub sf.mtime_ms time_offset_ms)

  -- Both sides have the file, with hashes `sh` and `ch`.
  unfoldable pub decide_both : FileEntry W → Bytes → FileEntry W → Bytes → FileDecision W
  decide_both sf sh cf ch =
      let server_mtime_adj = F.sub sf.mtime_ms time_offset_ms in
      if bytes_eq sh ch
      then leave
      else if bytes_eq mode readonly || F.gt server_mtime_adj (F.add cf.mtime_ms F.one)
      then download sf
      else if F.gt cf.mtime_ms (F.add server_mtime_adj F.one)
      then upload cf
      else conflict

  -- Our own tombstone for a file that we do not have.
  unfoldable pub decide_tombstone : FileEntry W → Option ℕ → FileDecision W
  decide_tombstone sf none = download sf
  decide_tombstone sf (some ts) =
      if F.gt (F.of_nat ts) (F.sub sf.mtime_ms time_offset_ms)
      then delete_on_server sf.path ts
      else download sf

  -- The client has no such file.
  unfoldable pub decide_absent : Bool → Stamps → FileEntry W → FileDecision W
  decide_absent server_knows_tombstones local_tombs sf =
      if server_knows_tombstones && not (bytes_eq mode readonly)
      then decide_tombstone sf (lookup_key local_tombs sf.path)
      else download sf

  -- The hash of our file, if it could be read.
  unfoldable pub decide_shared : FileEntry W → Bytes → FileEntry W → Option Bytes → FileDecision W
  decide_shared sf sh cf none = leave
  decide_shared sf sh cf (some ch) = decide_both sf sh cf ch

  unfoldable pub decide_hashed :
      Bool → Stamps → FileEntry W → Bytes → Option (FileEntry W) → FileDecision W
  decide_hashed knows local_tombs sf sh none = decide_absent knows local_tombs sf
  decide_hashed knows local_tombs sf sh (some cf) = decide_shared sf sh cf cf.hash

  -- The hash of the server's file, if it could be read.
  unfoldable pub decide_readable :
      Bool → Stamps → List (FileEntry W) → FileEntry W → Option Bytes → FileDecision W
  decide_readable knows local_tombs client_files sf none = leave
  decide_readable knows local_tombs client_files sf (some sh) =
      decide_hashed knows local_tombs sf sh (find_entry client_files sf.path)

  -- One turn of the loop over the server's files.
  unfoldable pub decide_server : Bool → Stamps → List (FileEntry W) → FileEntry W → FileDecision W
  decide_server knows local_tombs client_files sf =
      decide_readable knows local_tombs client_files sf sf.hash

  -- `if cf.hash.is_some()`.
  abbrev pub push_hashed : FileEntry W → Option Bytes → FileDecision W
  push_hashed cf none = leave
  push_hashed cf (some h) = upload cf

  abbrev pub push_own : FileEntry W → FileDecision W
  push_own cf = push_hashed cf cf.hash

  unfoldable pub decide_unshared : Stamps → FileEntry W → FileDecision W
  decide_unshared server_tombs cf = elim (lookup_key server_tombs cf.path) [
    | some sts ↦
        if F.gt (F.sub (F.of_nat sts) time_offset_ms) cf.mtime_ms
        then delete_here cf.path
        else push_own cf
    | none ↦ push_own cf
  ]

  -- One turn of the loop over the client's files.
  unfoldable pub decide_client : Stamps → List (FileEntry W) → FileEntry W → FileDecision W
  decide_client server_tombs server_files cf = elim (find_entry server_files cf.path) [
    | some sf ↦ leave
    | none ↦ decide_unshared server_tombs cf
  ]

  -- Both loops.
  unfoldable pub diff : Bool → Stamps → Stamps → List (FileEntry W) → List (FileEntry W) → Plan W
  diff knows local_tombs server_tombs server_files client_files =
      let first =
        run_decisions (decide_server knows local_tombs client_files) server_files no_actions in
      if bytes_eq mode readonly
      then first
      else run_decisions (decide_client server_tombs server_files) client_files first

  -- The transfers that are carried out: those that the platform can hold, and no download of a path
  -- that has been deleted here since.
  unfoldable pub settle_plan : Bool → List Bytes → Stamps → Plan W → Plan W
  settle_plan windows collisions fresh_tombs plan =
      let fits : FileEntry W → Bool = λ f. representable windows collisions f.path in
      record plan {
        downloads =
            keep_if (λ dl. not (newer_than_server (lookup_key fresh_tombs dl.path) dl))
              (keep_if fits plan.downloads);
        uploads = keep_if fits plan.uploads;
      }
