-- ===== src/Sync/Plan/Decisions.antt =====
-- sync/mod.rs, the diff: every action of a plan is justified, and sides that agree need none.
use krymux.Base.{
  ℕ, ◌≡◌, refl, ◌⊎◌, inl, inr, Option, none, some, List, [], ◌∷◌, Bool, true, false, not, ◌&&◌, All,
  In, here, there, ||-true, ||-false, &&-true, not-true, All-append, Bool-cases, Option-cases,
  if_both,
}
use krymux.Base.Bytes.{Bytes, bytes_eq}
use krymux.Base.Maps.{lookup_key}
use krymux.Sync.Float.{Float}
use krymux.Sync.Scanner.{FileEntry}
use krymux.Sync.Tombstones.{Stamps}
use krymux.Sync.Plan.{
  Plan, FileDecision, leave, download, upload, delete_on_server, delete_here, conflict, act,
  no_actions, readonly, find_entry, decide_both, decide_tombstone, decide_absent, decide_shared,
  decide_hashed, decide_readable, decide_server, decide_unshared, push_hashed, decide_client,
  run_decisions, diff,
}

module _ {W : Type 0} (F : Float W) (mode : Bytes) (time_offset_ms : W) (knows : Bool)
    (local_tombs server_tombs : Stamps) (server_files client_files : List (FileEntry W)) where
  -- A download: the server could read the file; we have none of that path, or one with another hash
  -- that is older by more than a millisecond, or any other one where the mode is `readonly`.
  abbrev pub MayDownload : FileEntry W → Type 0
  MayDownload sf =
      In sf server_files
      × ((sh : Bytes) × (sf.hash ≡ some sh)
          × ((find_entry client_files sf.path ≡ none)
              ⊎ ((cf : FileEntry W) × (ch : Bytes) × (find_entry client_files sf.path ≡ some cf)
                  × (cf.hash ≡ some ch)
                  × (bytes_eq sh ch ≡ false)
                  × ((bytes_eq mode readonly ≡ true)
                      ⊎ (F.gt (F.sub sf.mtime_ms time_offset_ms) (F.add cf.mtime_ms F.one)
                          ≡ true)))))

  -- The server has a file `sf` of the same path that is older by more than a millisecond.
  abbrev pub OlderThere : FileEntry W → Type 0
  OlderThere cf =
      (sf : FileEntry W) × In sf server_files
      × (find_entry client_files sf.path ≡ some cf)
      × (F.gt cf.mtime_ms (F.add (F.sub sf.mtime_ms time_offset_ms) F.one) ≡ true)

  -- A tombstone of the server that is newer than our file.
  abbrev pub DeletedThere : FileEntry W → ℕ → Type 0
  DeletedThere cf sts =
      (lookup_key server_tombs cf.path ≡ some sts)
      × (F.gt (F.sub (F.of_nat sts) time_offset_ms) cf.mtime_ms ≡ true)

  -- An upload: the mode allows it, we could read the file, and the server has an older one or none.
  abbrev pub MayUpload : FileEntry W → Type 0
  MayUpload cf =
      (bytes_eq mode readonly ≡ false)
      × ((ch : Bytes) × (cf.hash ≡ some ch))
      × (OlderThere cf ⊎ ((find_entry server_files cf.path ≡ none) × In cf client_files))

  -- A deletion on the server: our tombstone is newer than its copy, and we have no file there.
  abbrev pub MayDeleteThere : Bytes × ℕ → Type 0
  MayDeleteThere (p, ts) =
      (bytes_eq mode readonly ≡ false)
      × (knows ≡ true)
      × (find_entry client_files p ≡ none)
      × (lookup_key local_tombs p ≡ some ts)
      × ((sf : FileEntry W) × In sf server_files
          × (sf.path ≡ p)
          × (F.gt (F.of_nat ts) (F.sub sf.mtime_ms time_offset_ms) ≡ true))

  -- A deletion here: the server has no file there, and its tombstone is newer than our copy.
  abbrev pub MayDeleteHere : Bytes → Type 0
  MayDeleteHere p =
      (bytes_eq mode readonly ≡ false)
      × (find_entry server_files p ≡ none)
      × ((cf : FileEntry W) × (sts : ℕ) × In cf client_files × (cf.path ≡ p) × DeletedThere cf sts)

  abbrev IsJustified : FileDecision W → Type 0
  IsJustified leave = Unit
  IsJustified (download f) = MayDownload f
  IsJustified (upload f) = MayUpload f
  IsJustified (delete_on_server p ts) = MayDeleteThere (p, ts)
  IsJustified (delete_here p) = MayDeleteHere p
  IsJustified conflict = Unit

  abbrev pub AllJustified : Plan W → Type 0
  AllJustified plan =
      All MayDownload plan.downloads
      × All MayUpload plan.uploads
      × All MayDeleteThere plan.server_deletes
      × All MayDeleteHere plan.local_deletes

  act-AllJustified :
      (d : FileDecision W) (plan : Plan W)
      → IsJustified d
      → AllJustified plan
      → AllJustified (act d plan)
  act-AllJustified leave plan j a = a
  act-AllJustified (download f) plan j a =
      (All-append MayDownload plan.downloads (f ∷ []) a.0 (j, tt), a.1, a.2, a.3)
  act-AllJustified (upload f) plan j a =
      (a.0, All-append MayUpload plan.uploads (f ∷ []) a.1 (j, tt), a.2, a.3)
  act-AllJustified (delete_on_server p ts) plan j a =
      (a.0, a.1, All-append MayDeleteThere plan.server_deletes ((p, ts) ∷ []) a.2 (j, tt), a.3)
  act-AllJustified (delete_here p) plan j a =
      (a.0, a.1, a.2, All-append MayDeleteHere plan.local_deletes (p ∷ []) a.3 (j, tt))
  act-AllJustified conflict plan j a = a

  run-AllJustified :
      (decide : FileEntry W → FileDecision W) (fs : List (FileEntry W)) (plan : Plan W)
      → ((f : FileEntry W) → In f fs → IsJustified (decide f))
      → AllJustified plan
      → AllJustified (run_decisions decide fs plan)
  unfolding run_decisions
  run-AllJustified decide [] plan j a = a
  run-AllJustified decide (f ∷ fs) plan j a =
      run-AllJustified decide fs (act (decide f) plan) (λ g i. j g (there i))
        (act-AllJustified (decide f) plan (j f here) a)

  decide_both-IsJustified :
      (sf cf : FileEntry W) (sh ch : Bytes)
      → In sf server_files
      → sf.hash ≡ some sh
      → find_entry client_files sf.path ≡ some cf
      → cf.hash ≡ some ch
      → IsJustified (decide_both F mode time_offset_ms sf sh cf ch)
  unfolding decide_both
  decide_both-IsJustified sf cf sh ch i hs found hc =
      if_both IsJustified (bytes_eq sh ch) leave _ (λ e. tt)
        (λ diff.
          if_both IsJustified _ (download sf) _
            (λ o. (i, (sh, hs, inr (cf, ch, found, hc, diff, ||-true _ _ o))))
            (λ n.
              if_both IsJustified _ (upload cf) conflict
                (λ newer. (||-false _ _ n, (ch, hc), inl (sf, i, found, newer))) (λ e. tt)))

  decide_tombstone-IsJustified :
      (sf : FileEntry W) (sh : Bytes) (o : Option ℕ)
      → In sf server_files
      → sf.hash ≡ some sh
      → find_entry client_files sf.path ≡ none
      → lookup_key local_tombs sf.path ≡ o
      → knows ≡ true
      → bytes_eq mode readonly ≡ false
      → IsJustified (decide_tombstone F mode time_offset_ms sf o)
  unfolding decide_tombstone
  decide_tombstone-IsJustified sf sh none i hs missing e k w = (i, (sh, hs, inl missing))
  decide_tombstone-IsJustified sf sh (some ts) i hs missing e k w =
      if_both IsJustified _ (delete_on_server sf.path ts) (download sf)
        (λ newer. (w, k, missing, e, (sf, i, refl, newer))) (λ o. (i, (sh, hs, inl missing)))

  decide_absent-IsJustified :
      (sf : FileEntry W) (sh : Bytes)
      → In sf server_files
      → sf.hash ≡ some sh
      → find_entry client_files sf.path ≡ none
      → IsJustified (decide_absent F mode time_offset_ms knows local_tombs sf)
  unfolding decide_absent
  decide_absent-IsJustified sf sh i hs missing =
      if_both IsJustified (knows && not (bytes_eq mode readonly)) _ (download sf)
        (λ k.
          let both = &&-true _ _ k in
          decide_tombstone-IsJustified sf sh (lookup_key local_tombs sf.path) i hs missing refl
            both.0 (not-true _ both.1))
        (λ k. (i, (sh, hs, inl missing)))

  decide_shared-IsJustified :
      (sf cf : FileEntry W) (sh : Bytes) (o : Option Bytes)
      → In sf server_files
      → sf.hash ≡ some sh
      → find_entry client_files sf.path ≡ some cf
      → cf.hash ≡ o
      → IsJustified (decide_shared F mode time_offset_ms sf sh cf o)
  unfolding decide_shared
  decide_shared-IsJustified sf cf sh none i hs found h = tt
  decide_shared-IsJustified sf cf sh (some ch) i hs found h =
      decide_both-IsJustified sf cf sh ch i hs found h

  decide_hashed-IsJustified :
      (sf : FileEntry W) (sh : Bytes) (o : Option (FileEntry W))
      → In sf server_files
      → sf.hash ≡ some sh
      → find_entry client_files sf.path ≡ o
      → IsJustified (decide_hashed F mode time_offset_ms knows local_tombs sf sh o)
  unfolding decide_hashed
  decide_hashed-IsJustified sf sh none i hs found = decide_absent-IsJustified sf sh i hs found
  decide_hashed-IsJustified sf sh (some cf) i hs found =
      decide_shared-IsJustified sf cf sh cf.hash i hs found refl

  decide_readable-IsJustified :
      (sf : FileEntry W) (o : Option Bytes)
      → In sf server_files
      → sf.hash ≡ o
      → IsJustified (decide_readable F mode time_offset_ms knows local_tombs client_files sf o)
  unfolding decide_readable
  decide_readable-IsJustified sf none i h = tt
  decide_readable-IsJustified sf (some sh) i h =
      decide_hashed-IsJustified sf sh (find_entry client_files sf.path) i h refl

  decide_server-IsJustified :
      (sf : FileEntry W)
      → In sf server_files
      → IsJustified (decide_server F mode time_offset_ms knows local_tombs client_files sf)
  unfolding decide_server
  decide_server-IsJustified sf i = decide_readable-IsJustified sf sf.hash i refl

  push_hashed-IsJustified :
      bytes_eq mode readonly ≡ false
      → (cf : FileEntry W) (o : Option Bytes) → In cf client_files
      → find_entry server_files cf.path ≡ none
      → cf.hash ≡ o
      → IsJustified (push_hashed F mode time_offset_ms cf o)
  push_hashed-IsJustified w cf none i missing e = tt
  push_hashed-IsJustified w cf (some ch) i missing e = (w, (ch, e), inr (missing, i))

  decide_client-IsJustified :
      bytes_eq mode readonly ≡ false
      → (cf : FileEntry W) → In cf client_files
      → IsJustified (decide_client F mode time_offset_ms server_tombs server_files cf)
  unfolding decide_client decide_unshared
  decide_client-IsJustified w cf i = elim (Option-cases (find_entry server_files cf.path)) [
    | inr (sf, found) ↦ rw (found, decide_client) tt
    | inl missing ↦
        let push = push_hashed-IsJustified w cf cf.hash i missing refl in
        elim (Option-cases (lookup_key server_tombs cf.path)) [
          | inl e ↦ rw (missing, decide_client, e, decide_unshared) push
          | inr (sts, e) ↦
              rw (missing, decide_client, e, decide_unshared)
                (if_both IsJustified _ (delete_here cf.path) _
                  (λ newer. (w, missing, (cf, sts, i, refl, (e, newer)))) (λ o. push))
        ]
  ]

  -- Every action of a plan has its reason: a download, an upload and a deletion on either side happen
  -- only under the conditions above, whatever the two lists of files and the two tombstone maps are.
  pub diff-AllJustified :
      AllJustified
        (diff F mode time_offset_ms knows local_tombs server_tombs server_files client_files)
  unfolding diff
  diff-AllJustified =
      let first =
        run-AllJustified (decide_server F mode time_offset_ms knows local_tombs client_files)
          server_files no_actions decide_server-IsJustified (tt, tt, tt, tt) in
      elim (Bool-cases (bytes_eq mode readonly)) [
        | inl r ↦ rw r first
        | inr w ↦ rw w (
            run-AllJustified (decide_client F mode time_offset_ms server_tombs server_files)
              client_files _ (decide_client-IsJustified w) first)
      ]
