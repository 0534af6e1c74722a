-- ===== src/Sync/Plan/Warranted.antt =====
-- sync/mod.rs, the diff of `run_sync_client`: what must be in a plan, and why.
use krymux.Base.{ℕ, ◌≡◌, ◌⊎◌, none, some, List, Bool, true, false, In}
use krymux.Base.Bytes.{Bytes, bytes_eq}
use krymux.Base.Maps.{lookup_key}
use krymux.Sync.Float.{Float}
use krymux.Sync.Plan.{
  Plan, readonly, find_entry, FileDecision, download, upload, delete_on_server, delete_here,
  conflict, decide_server, decide_client, diff,
}
use krymux.Sync.Scanner.{FileEntry}
use krymux.Sync.Tombstones.{Stamps}

module _ {W : Type 0} (F : Float W) (mode : Bytes) (time_offset_ms : W) (knows : Bool)
    (local_tombs server_tombs : Stamps) (server_files client_files : List (FileEntry W)) where
  -- The server's time of a file, in our clock.
  abbrev ours : FileEntry W → W
  ours sf = F.sub sf.mtime_ms time_offset_ms

  -- Both sides have the file, and could read it, with different contents.
  pub record IsDifferent (sf cf : FileEntry W) : Type 0 where
    pub sh : Bytes
    pub ch : Bytes
    pub listed : In sf server_files
    pub there : sf.hash ≡ some sh
    pub found : find_entry client_files sf.path ≡ some cf
    pub here_ : cf.hash ≡ some ch
    pub differ : bytes_eq sh ch ≡ false

  -- The server could read the file, and we have none of that path.
  pub record IsLacking (sf : FileEntry W) : Type 0 where
    pub sh : Bytes
    pub listed : In sf server_files
    pub there : sf.hash ≡ some sh
    pub missing : find_entry client_files sf.path ≡ none

  -- We have a file, and the server has none of that path; the mode is not `readonly`.
  pub record IsOwn (cf : FileEntry W) : Type 0 where
    pub writes : bytes_eq mode readonly ≡ false
    pub scanned : In cf client_files
    pub missing : find_entry server_files cf.path ≡ none

  -- What is due, by the mode, the hashes, the times and the tombstones.
  pub data Warranted : FileDecision W → Type 0 where
    mirrors :
        {sf cf : FileEntry W}
        → IsDifferent sf cf
        → bytes_eq mode readonly ≡ true
        → Warranted (download sf)
    newer_there :
        {sf cf : FileEntry W}
        → IsDifferent sf cf
        → F.gt (ours sf) (F.add cf.mtime_ms F.one) ≡ true
        → Warranted (download sf)
    newer_here :
        {sf cf : FileEntry W}
        → IsDifferent sf cf
        → bytes_eq mode readonly ≡ false
        → F.gt (ours sf) (F.add cf.mtime_ms F.one) ≡ false
        → F.gt cf.mtime_ms (F.add (ours sf) F.one) ≡ true
        → Warranted (upload cf)
    as_old :
        {sf cf : FileEntry W}
        → IsDifferent sf cf
        → bytes_eq mode readonly ≡ false
        → F.gt (ours sf) (F.add cf.mtime_ms F.one) ≡ false
        → F.gt cf.mtime_ms (F.add (ours sf) F.one) ≡ false
        → Warranted conflict
    lacks :
        {sf : FileEntry W}
        → IsLacking sf
        → (knows ≡ false)
          ⊎ (bytes_eq mode readonly ≡ true)
          ⊎ (lookup_key local_tombs sf.path ≡ none)
        → Warranted (download sf)
    came_back :
        {sf : FileEntry W} {ts : ℕ}
        → IsLacking sf
        → lookup_key local_tombs sf.path ≡ some ts
        → F.gt (F.of_nat ts) (ours sf) ≡ false
        → Warranted (download sf)
    deleted_here :
        {sf : FileEntry W} {ts : ℕ}
        → IsLacking sf
        → knows ≡ true
        → bytes_eq mode readonly ≡ false
        → lookup_key local_tombs sf.path ≡ some ts
        → F.gt (F.of_nat ts) (ours sf) ≡ true
        → Warranted (delete_on_server sf.path ts)
    deleted_there :
        {cf : FileEntry W} {sts : ℕ}
        → IsOwn cf
        → lookup_key server_tombs cf.path ≡ some sts
        → F.gt (F.sub (F.of_nat sts) time_offset_ms) cf.mtime_ms ≡ true
        → Warranted (delete_here cf.path)
    new_here :
        {cf : FileEntry W} {ch : Bytes}
        → IsOwn cf
        → cf.hash ≡ some ch
        → lookup_key server_tombs cf.path ≡ none
        → Warranted (upload cf)
    new_since :
        {cf : FileEntry W} {ch : Bytes} {sts : ℕ}
        → IsOwn cf
        → cf.hash ≡ some ch
        → lookup_key server_tombs cf.path ≡ some sts
        → F.gt (F.sub (F.of_nat sts) time_offset_ms) cf.mtime_ms ≡ false
        → Warranted (upload cf)

  abbrev the_plan : Plan W
  the_plan = diff F mode time_offset_ms knows local_tombs server_tombs server_files client_files

  abbrev by_server : FileEntry W → FileDecision W
  by_server sf = decide_server F mode time_offset_ms knows local_tombs client_files sf

  abbrev by_client : FileEntry W → FileDecision W
  by_client cf = decide_client F mode time_offset_ms server_tombs server_files cf
