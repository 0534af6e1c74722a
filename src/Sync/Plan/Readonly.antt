-- ===== src/Sync/Plan/Readonly.antt =====
-- sync/mod.rs, the diff of `run_sync_client` in the mode `readonly`: which files it downloads.
use krymux.Base.{
  ◌≡◌, refl, sym, ap, ◌∙◌, ◌⊎◌, inl, inr, Option, none, some, List, [], ◌∷◌, ◌++◌, Bool, true,
  false, not, ◌&&◌, ◌||◌, Bool-cases, keep_if, append-nil, append_assoc, if_true, if_false, arith,
}
use krymux.Base.Bytes.{Bytes, bytes_eq, bytes_eq→eq}
use krymux.Sync.Float.{Float}
use krymux.Sync.Plan.{
  Plan, readonly, find_entry, no_actions, FileDecision, leave, download, act, decide_both,
  decide_absent, decide_shared, decide_hashed, decide_readable, decide_server, run_decisions, diff,
}
use krymux.Sync.Scanner.{FileEntry}
use krymux.Sync.Tombstones.{Stamps}

abbrev is_download : {W : Type 0} → FileDecision W → Bool
is_download (download f) = true
is_download _ = false

module _ {W : Type 0} (F : Float W) (mode : Bytes) (time_offset_ms : W) (knows : Bool)
    (local_tombs server_tombs : Stamps) (server_files ours : List (FileEntry W))
    (r : bytes_eq mode readonly ≡ true) where
  -- The file is left: no hash of it is known on one of the sides, or both hashes agree.
  abbrev pub IsLeft : FileEntry W → Type 0
  IsLeft f =
      (f.hash ≡ none)
      ⊎ ((cf : FileEntry W) × (find_entry ours f.path ≡ some cf)
          × ((cf.hash ≡ none) ⊎ (cf.hash ≡ f.hash)))

  abbrev Verdict : FileEntry W → FileDecision W → Type 0
  Verdict f d = (d ≡ download f) ⊎ ((d ≡ leave) × IsLeft f)

  decide_shared-Verdict :
      (f cf : FileEntry W) (sh : Bytes) (o : Option Bytes)
      → f.hash ≡ some sh
      → find_entry ours f.path ≡ some cf
      → cf.hash ≡ o
      → Verdict f (decide_shared F mode time_offset_ms f sh cf o)
  unfolding decide_shared decide_both
  decide_shared-Verdict f cf sh none e p q = inr (refl, inr (cf, p, inl q))
  decide_shared-Verdict f cf sh (some ch) e p q = elim (Bool-cases (bytes_eq sh ch)) [
    | inl same ↦
        inr (
          if_true _ _ _ same,
          inr (cf, p, inr (q ∙ ap some (sym (bytes_eq→eq sh ch same)) ∙ sym e)),
        )
    | inr other ↦ inl (
        if_false _ _ _ other
        ∙ if_true
            (bytes_eq mode readonly
              || F.gt (F.sub f.mtime_ms time_offset_ms) (F.add cf.mtime_ms F.one))
            _ _ (ground (arith, r)))
  ]

  decide_hashed-Verdict :
      (f : FileEntry W) (sh : Bytes) (o : Option (FileEntry W))
      → f.hash ≡ some sh
      → find_entry ours f.path ≡ o
      → Verdict f (decide_hashed F mode time_offset_ms knows local_tombs f sh o)
  unfolding decide_hashed decide_absent
  decide_hashed-Verdict f sh none e p =
      inl (if_false (knows && not (bytes_eq mode readonly)) _ _ (ground (arith, r)))
  decide_hashed-Verdict f sh (some cf) e p = decide_shared-Verdict f cf sh cf.hash e p refl

  decide_readable-Verdict :
      (f : FileEntry W) (o : Option Bytes)
      → f.hash ≡ o
      → Verdict f (decide_readable F mode time_offset_ms knows local_tombs ours f o)
  unfolding decide_readable
  decide_readable-Verdict f none e = inr (refl, inl e)
  decide_readable-Verdict f (some sh) e = decide_hashed-Verdict f sh (find_entry ours f.path) e refl

  abbrev decision : FileEntry W → FileDecision W
  decision f = decide_server F mode time_offset_ms knows local_tombs ours f

  abbrev pub wanted : FileEntry W → Bool
  wanted f = is_download (decision f)

  decide_server-Verdict : (f : FileEntry W) → Verdict f (decision f)
  unfolding decide_server
  decide_server-Verdict f = decide_readable-Verdict f f.hash refl

  pub unwanted-IsLeft : (f : FileEntry W) → wanted f ≡ false → IsLeft f
  unwanted-IsLeft f e = elim (decide_server-Verdict f) [
    | inl d ↦ cc (sym e ∙ ap is_download d)
    | inr (d, left) ↦ left
  ]

  run-downloads :
      (fs : List (FileEntry W)) (plan : Plan W)
      → (run_decisions decision fs plan).downloads ≡ plan.downloads ++ keep_if wanted fs
  unfolding run_decisions
  run-downloads [] plan = sym (append-nil plan.downloads)
  run-downloads (f ∷ fs) plan = elim (decide_server-Verdict f) [
    | inl d ↦
        run-downloads fs (act (decision f) plan)
        ∙ rw d (append_assoc plan.downloads (f ∷ []) (keep_if wanted fs))
    | inr (d, left) ↦ run-downloads fs (act (decision f) plan) ∙ rw d refl
  ]

  -- The downloads are the files of the server that are wanted, in its order.
  pub diff-wanted :
      (diff F mode time_offset_ms knows local_tombs server_tombs server_files ours).downloads
      ≡ keep_if wanted server_files
  unfolding diff
  diff-wanted =
      ap (λ (p : Plan W). p.downloads) (if_true _ _ _ r) ∙ run-downloads server_files no_actions
