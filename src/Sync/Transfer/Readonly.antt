-- ===== src/Sync/Transfer/Readonly.antt =====
-- sync/mod.rs, both sides: a pass in the mode `readonly` only reads from the server.
use krymux.Base.{
  ℕ, ◌≡◌, refl, sym, ap, ◌∙◌, ◌⊎◌, inl, inr, Option, none, some, List, [], ◌∷◌, true, In, All,
  All-imp, Result, ok, err,
}
use krymux.Base.Bytes.{Bytes, codes, bytes_eq, bytes_eq→eq}
use krymux.Sync.Collect.{PassError, Greeted, Listing, greeted, handshake}
use krymux.Sync.Plan.{readonly, case_collisions}
use krymux.Sync.Plan.Settled.{All-empty, settle_plan-AllJustified}
use krymux.Sync.Protocol.{SyncMessage, json}
use krymux.Sync.Protocol.Messages.{hello_ack}
use krymux.Sync.Scanner.{FileEntry}
use krymux.Sync.Server.Scan.{negotiate_mode}
use krymux.Sync.Server.State.{Env}
use krymux.Sync.Tombstones.{Stamps}
use krymux.Sync.Transfer.Run.{
  Setting, scanned_tree, after_handshake, run_sync_client, plan_of, start_pass,
}
use krymux.Sync.Transfer.Quiet.{Quiet, apply_plan-Quiet}

negotiate_mode-readonly :
    {D W : Type 0} (senv : Env D W) (smode cmode : Bytes)
    → (bytes_eq smode readonly ≡ true)
      ⊎ ((bytes_eq smode (codes "bidir") ≡ true) × (bytes_eq cmode readonly ≡ true))
    → bytes_eq (negotiate_mode senv smode (some cmode)) readonly ≡ true
unfolding negotiate_mode
negotiate_mode-readonly senv smode cmode (inl r) = rw (bytes_eq→eq smode readonly r) refl
negotiate_mode-readonly senv smode cmode (inr (b, r)) = rw b r

module _ {D W : Type 0} (env : Env D W) (setting : Setting W) where
  pub plan_of_reads :
      (g : Greeted setting.from_value) (local_tombs fresh_tombs : Stamps)
      (ours : List (FileEntry W))
      → bytes_eq g.mode readonly ≡ true
      → let plan = plan_of env setting g local_tombs fresh_tombs ours in
        All (λ f. In f g.listing.server_files) plan.downloads × (plan.uploads ≡ [])
  unfolding plan_of
  plan_of_reads g local_tombs fresh_tombs ours r =
      let c = g.listing in
      let plan = plan_of env setting g local_tombs fresh_tombs ours in
      let why =
        (settle_plan-AllJustified env.float g.mode g.time_offset_ms c.server_knows_tombstones
          local_tombs c.server_tombs c.server_files ours setting.windows
          (case_collisions [] c.server_files) fresh_tombs).0 in
      (
        All-imp _ _ plan.downloads (λ f j. j.0) why.0,
        All-empty _ plan.uploads (λ f j. cc (sym r ∙ j.0)) why.1,
      )

  scanned_tree-Quiet :
      (g : Greeted setting.from_value) (seq : ℕ) (o : D × Option (List (FileEntry W)))
      → bytes_eq g.mode readonly ≡ true
      → Quiet env g.listing.server_files (scanned_tree env setting g seq o)
  unfolding scanned_tree start_pass
  scanned_tree-Quiet g seq (d, none) r = tt
  scanned_tree-Quiet g seq (d, some ours) r =
      let plan = plan_of_reads g _ _ ours r in
      apply_plan-Quiet env g.listing.server_files setting g.mode g.time_offset_ms
        g.listing.server_tombs _ _ r plan.0 plan.1 (tt, refl, refl, refl)

greeted_mode :
    {W : Type 0} (setting : Setting W) (mode : Bytes) (offset : W)
    (o : Result PassError (Listing W × List SyncMessage)) (g : Greeted setting.from_value)
    → greeted setting.from_value mode offset o ≡ ok g
    → g.mode ≡ mode
unfolding greeted
greeted_mode setting mode offset (err e) g h = cc h
greeted_mode setting mode offset (ok (c, ms)) g h =
    ap (λ o. elim o [ ok q ↦ q.mode | err e ↦ mode ]) (sym h)

-- A client and a server agree on a mode, and one of them is `readonly`: the server, or the client at a
-- server that serves both directions. Then a pass that gets as far as a listing and completes has
-- written nothing but requests for files of that listing and its final counts: it uploads nothing, and
-- deletes nothing on either side.
pub run_sync_client-readonly :
    {D D' W : Type 0} (env : Env D W) (senv : Env D' W) (setting : Setting W) (smode cmode : Bytes)
    → (bytes_eq smode readonly ≡ true)
      ⊎ ((bytes_eq smode (codes "bidir") ≡ true) × (bytes_eq cmode readonly ≡ true))
    → (server_time v seq : ℕ) (rest : List SyncMessage) (d : D) (g : Greeted setting.from_value)
    → let messages =
        json (hello_ack server_time (negotiate_mode senv smode (some cmode)) v) ∷ rest in
      handshake setting.from_value env.float setting.now cmode messages ≡ ok g
      → Quiet env g.listing.server_files (run_sync_client env setting cmode seq messages d)
unfolding run_sync_client after_handshake handshake
run_sync_client-readonly env senv setting smode cmode r server_time v seq rest d g h = rw h (
    scanned_tree-Quiet env setting g seq (env.scan_and_hash d) (
      ap (λ m. bytes_eq m readonly) (greeted_mode setting _ _ _ g h)
      ∙ negotiate_mode-readonly senv smode cmode r))
