-- ===== src/Sync/Transfer/Mirror.antt =====
-- sync/mod.rs, both sides: after a pass in the mode `readonly` the client's tree has the files that the
-- server listed.
use krymux.Base.{
  ℕ, ◌≡◌, refl, sym, ap, ◌∙◌, inl, inr, some, List, [], ◌++◌, Bool, true, false, not, Bool-cases,
  keep_if, ◌+◌, length, In, All, All-keep_if, All-imp,
}
use krymux.Base.Bytes.{Bytes, bytes_eq}
use krymux.Base.Maps.{lookup_key}
use krymux.Sync.Collect.{Greeted}
use krymux.Sync.Disk.{IsLawful, IsLocal}
use krymux.Sync.Plan.{
  Plan, readonly, representable, newer_than_server, find_entry, settle_plan, case_collisions,
}
use krymux.Sync.Plan.Readonly.{wanted, unwanted-IsLeft, diff-wanted}
use krymux.Sync.Protocol.{SyncMessage}
use krymux.Sync.Protocol.Messages.{sync_complete}
use krymux.Sync.Scanner.{FileEntry}
use krymux.Sync.Server.Installed.{IsHealthy}
use krymux.Sync.Server.Paths.{join_path}
use krymux.Sync.Server.Session.{handle_batch}
use krymux.Sync.Server.State.{Env, Session, going}
use krymux.Sync.Tombstones.{Stamps}
use krymux.Sync.Transfer.Download.{download_file}
use krymux.Sync.Transfer.Mirrored.{
  requests, streams, IsOffered, SameFile, handle_batch-streams, for_each-Mirrored, Mirrored,
}
use krymux.Sync.Transfer.Readonly.{plan_of_reads}
use krymux.Sync.Transfer.Run.{Setting, plan_of, apply_plan}
use krymux.Sync.Transfer.State.{Pass, onward, say, then_pass, for_each}
use krymux.Sync.Transfer.Separate.{
  AllSeparate, keep_if-AllSeparate, AllSeparate-AllApart, dropped-IsApart, All-In, In-keep_if,
  All-any, keep_if_all,
}

module _ {D W : Type 0} (env : Env D W) where
  -- The file reads with the hash that the server listed.
  abbrev pub HasListed : D → FileEntry W → Type 0
  HasListed d f =
      (c : Bytes) × (env.disk.read d (join_path env.root f.path) ≡ some c)
      × (f.hash ≡ some (env.sha1_hex c))

  -- The client's scan found files with the hashes of their contents.
  abbrev pub IsScanned : List (FileEntry W) → D → Type 0
  IsScanned ours d =
      (p : Bytes) (cf : FileEntry W)
      → find_entry ours p ≡ some cf
      → (c : Bytes) × (env.disk.read d (join_path env.root p) ≡ some c)
        × (cf.hash ≡ some (env.sha1_hex c))

  -- No tombstone of our own is newer than the server's file.
  abbrev pub IsLive : Bytes → W → Stamps → FileEntry W → Type 0
  IsLive mode offset fresh_tombs f =
      newer_than_server env.float mode offset (lookup_key fresh_tombs f.path) f ≡ false

module _ {D W : Type 0} (env : Env D W) (setting : Setting W) (g : Greeted setting.from_value)
    (local_tombs fresh_tombs : Stamps) (ours : List (FileEntry W))
    (windows : setting.windows ≡ false) (r : bytes_eq g.mode readonly ≡ true) where
  abbrev plan : Plan W
  plan = plan_of env setting g local_tombs fresh_tombs ours

  abbrev wants : FileEntry W → Bool
  wants f =
      wanted env.float g.mode g.time_offset_ms g.listing.server_knows_tombstones local_tombs
        g.listing.server_tombs g.listing.server_files ours r f

  plan_of-downloads :
      All (IsLive env g.mode g.time_offset_ms fresh_tombs) g.listing.server_files
      → plan.downloads ≡ keep_if wants g.listing.server_files
  unfolding plan_of settle_plan representable
  plan_of-downloads live =
      let c = g.listing in
      let fits : FileEntry W → Bool =
        λ f. representable setting.windows (case_collisions [] c.server_files) f.path in
      let live_there : FileEntry W → Bool = λ f.
        not
          (newer_than_server env.float g.mode g.time_offset_ms (lookup_key fresh_tombs f.path) f) in
      let wishes = keep_if wants c.server_files in
      let wished =
        diff-wanted env.float g.mode g.time_offset_ms c.server_knows_tombstones local_tombs
          c.server_tombs c.server_files ours r in
      ap (λ xs. keep_if live_there (keep_if fits xs)) wished
      ∙ ap (λ xs. keep_if live_there xs)
          (keep_if_all fits wishes (All-any wishes (λ f. rw windows refl)))
      ∙ keep_if_all live_there wishes (
          All-keep_if _ wants c.server_files (
            All-imp (IsLive env g.mode g.time_offset_ms fresh_tombs) _ c.server_files
              (λ f e. ap not e) live))

  -- The loops of a pass whose plan has only downloads.
  apply_plan-downloads :
      (s s' : Pass D)
      → plan.uploads ≡ []
      → for_each (download_file env) plan.downloads s ≡ onward s'
      → apply_plan env setting g.mode g.time_offset_ms g.listing.server_tombs plan s
        ≡ onward (say (sync_complete s'.downloaded s'.uploaded plan.conflicts s'.locked_skipped) s')
  unfolding apply_plan then_pass for_each
  apply_plan-downloads s s' up run = rw (r, up, run) refl

  -- A file that the plan leaves alone has the listed hash already.
  left-HasListed :
      (d : D) (f : FileEntry W)
      → IsScanned env ours d
      → ((h : Bytes) × (f.hash ≡ some h))
      → wants f ≡ false
      → HasListed env d f
  left-HasListed d f scan (h, e) w =
      elim (unwanted-IsLeft env.float g.mode g.time_offset_ms g.listing.server_knows_tombstones
        local_tombs g.listing.server_tombs g.listing.server_files ours r f w) [
          | inl nothing ↦ cc (sym e ∙ nothing)
          | inr (cf, found, same) ↦
              let (c, has, hashed) = scan f.path cf found in
              elim same [
                | inl nothing ↦ cc (sym hashed ∙ nothing)
                | inr agree ↦ (c, has, sym agree ∙ hashed)
              ]
        ]

-- The server can stream the file, and listed it with the hash of its contents.
pub record IsListed {D' W : Type 0} (senv : Env D' W) (srv : Session D' W) (f : FileEntry W)
    : Type 0 where
  pub offered : IsOffered senv srv f
  pub hashed : f.hash ≡ some (senv.sha1_hex offered.content)

module _ {D D' W : Type 0} (env : Env D W) (senv : Env D' W) (setting : Setting W)
    (g : Greeted setting.from_value) (local_tombs fresh_tombs : Stamps) (ours : List (FileEntry W))
    (windows : setting.windows ≡ false) (r : bytes_eq g.mode readonly ≡ true)
    (sums : (b : Bytes) → env.sha1_hex b ≡ senv.sha1_hex b) where
  abbrev asked : FileEntry W → Bool
  asked f = wants env setting g local_tombs fresh_tombs ours windows r f

  downloaded-HasListed :
      (srv : Session D' W) (d : D) (f : FileEntry W)
      → IsListed senv srv f
      → SameFile senv env srv d f
      → HasListed env d f
  downloaded-HasListed srv d f l same = (
    l.offered.content,
    same l.offered.served.full l.offered.served.joined ∙ l.offered.served.readable,
    l.hashed ∙ ap some (sym (sums l.offered.content)),
  )

  all-HasListed :
      (srv : Session D' W) (later : List SyncMessage) (s s' : Pass D)
      → All (IsListed senv srv) g.listing.server_files
      → IsScanned env ours s.disk
      → AllSeparate env.root g.listing.server_files
      → Mirrored senv env srv (keep_if asked g.listing.server_files) later s s'
      → (f : FileEntry W) → In f g.listing.server_files
      → HasListed env s'.disk f
  all-HasListed srv later s s' listed scan apart m f i =
      let l = All-In (IsListed senv srv) listed i in
      elim (Bool-cases (asked f)) [
        | inl w ↦
            downloaded-HasListed srv s'.disk f l
              (All-In (SameFile senv env srv s'.disk) m.same (In-keep_if asked w i))
        | inr w ↦
            let (c, has, hashed) =
              left-HasListed env setting g local_tombs fresh_tombs ours windows r s.disk f scan
                (_, l.hashed) w in
            (
              c,
              m.others (join_path env.root f.path) (dropped-IsApart env.root asked apart i w) ∙ has,
              hashed,
            )
      ]

  -- The mode of a pass is `readonly`, and the platform holds any name. The server can stream each listed
  -- file, of at most 8 GiB, and listed it with the hash of its contents; the client's scan found files
  -- with the hashes of their contents; no tombstone of the client is newer than a listed file, and no
  -- listed file lies at the path or a temporary name of another. Both sides have the same hash function,
  -- and no call of the client's file system fails or touches paths that it does not name. The server
  -- handles the requests of the plan. A client that carries out the plan and reads what the server wrote
  -- completes the pass, and then every listed file, downloaded or not, is there with the listed hash.
  pub apply_plan-HasListed :
      IsLawful env.disk
      → IsHealthy env.disk
      → IsLocal env.disk
      → (now : ℕ) (srv : Session D' W) (s : Pass D) (later : List SyncMessage)
      → All (IsListed senv srv) g.listing.server_files
      → All (IsLive env g.mode g.time_offset_ms fresh_tombs) g.listing.server_files
      → IsScanned env ours s.disk
      → AllSeparate env.root g.listing.server_files
      → let plan = plan_of env setting g local_tombs fresh_tombs ours in
        (sent : List SyncMessage) × (t : Session D' W) × (s' : Pass D) × (handle_batch senv now
            (requests plan.downloads)
            srv
          ≡ going t)
        × (t.out ≡ srv.out ++ sent)
        × (apply_plan env setting g.mode g.time_offset_ms g.listing.server_tombs plan
              (record s { inbox = sent ++ later })
            ≡ onward s')
        × (s'.inbox ≡ later)
        × (s'.downloaded ≡ s.downloaded + length plan.downloads)
        × ((f : FileEntry W) → In f g.listing.server_files → HasListed env s'.disk f)
  apply_plan-HasListed L H local now srv s later listed live scan apart =
      let files = g.listing.server_files in
      let plan = plan_of env setting g local_tombs fresh_tombs ours in
      let chosen = plan_of-downloads env setting g local_tombs fresh_tombs ours windows r live in
      let fs = keep_if asked files in
      let os : All (IsOffered senv srv) fs =
        All-keep_if _ asked files (All-imp (IsListed senv srv) _ files (λ f l. l.offered) listed) in
      let sent = streams senv srv fs os in
      let ready = record s { inbox = sent ++ later } in
      let (t, run, same, out) = handle_batch-streams senv now srv fs os srv refl in
      let (s', runs, m) =
        for_each-Mirrored senv env sums L H local srv fs os later ready
          (AllSeparate-AllApart env.root fs (keep_if-AllSeparate env.root asked files apart))
          refl in
      (
        sent,
        t,
        say (sync_complete s'.downloaded s'.uploaded plan.conflicts s'.locked_skipped) s',
        ap (λ x. handle_batch senv now (requests x) srv) chosen ∙ run,
        out,
        apply_plan-downloads env setting g local_tombs fresh_tombs ours windows r ready s'
            (plan_of_reads env setting g local_tombs fresh_tombs ours r).1
            (ap (λ x. for_each (download_file env) x ready) chosen ∙ runs),
        m.left,
        m.count ∙ ap (λ x. s.downloaded + length x) (sym chosen),
        all-HasListed srv later ready s' listed scan apart m,
      )
