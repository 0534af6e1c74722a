-- ===== src/Sync/Transfer/Quiet.antt =====
-- sync/mod.rs, the client: loops that only ask for files keep to that.
use krymux.Base.{ℕ, ◌+◌, ◌≡◌, refl, ◌⊎◌, inl, inr, List, [], ◌∷◌, true, In, All, All-append}
use krymux.Base.Bytes.{Bytes, bytes_eq}
use krymux.Base.Json.{Json}
use krymux.Sync.Plan.{Plan, readonly}
use krymux.Sync.Protocol.{SyncMessage, json}
use krymux.Sync.Protocol.Messages.{get_file, sync_complete}
use krymux.Sync.Scanner.{FileEntry}
use krymux.Sync.Server.State.{Env}
use krymux.Sync.Tombstones.{Stamps}
use krymux.Sync.Transfer.Download.{download_file}
use krymux.Sync.Transfer.Run.{Setting, apply_plan}
use krymux.Sync.Transfer.Steps.{IsStable, Onward, download_file-Onward}
use krymux.Sync.Transfer.State.{Pass, Passing, onward, stopped, then_pass, say, for_each}

module _ {D W : Type 0} (env : Env D W) (files : List (FileEntry W)) where
  -- A message that asks for a file of the list, or the counts that end a pass.
  abbrev pub Reads : SyncMessage → Type 0
  Reads m =
      ((f : FileEntry W) × In f files × (m ≡ json (get_file f.path)))
      ⊎ ((downloads : ℕ) × (uploads : ℕ) × (conflicts : ℕ) × (skipped : ℕ) × (m
            ≡ json (sync_complete downloads uploads conflicts skipped)))

  abbrev pub IsQuiet : Pass D → Type 0
  IsQuiet s = All Reads s.out × (s.uploaded ≡ 0) × (s.deleted_local ≡ 0) × (s.deleted_remote ≡ 0)

  abbrev pub Quiet : Passing D → Type 0
  Quiet p = Onward env IsQuiet p

  say-IsQuiet : (v : Json) (s : Pass D) → Reads (json v) → IsQuiet s → IsQuiet (say v s)
  say-IsQuiet v s r i = (All-append Reads s.out (json v ∷ []) i.0 (r, tt), i.1, i.2, i.3)

  IsQuiet-IsStable : (f : FileEntry W) → In f files → IsStable env IsQuiet (λ d. Unit) f.path
  IsQuiet-IsStable f l = record {
    disk_of = λ s i. tt;
    moved = λ s d ms i j. i;
    asks = λ s i. say-IsQuiet (get_file f.path) (record s { seq = s.seq + 1 }) (inl (f, l, refl)) i;
    counts = λ s i. i;
    skips = λ s i. i;
  }

  download_file-Quiet :
      (dl : FileEntry W) (s : Pass D) → In dl files → IsQuiet s → Quiet (download_file env dl s)
  download_file-Quiet dl s l i =
      download_file-Onward env IsQuiet (λ d. Unit) dl
        record {
          dirs = λ d p i. tt;
          creates = λ d n i. tt;
          appends = λ d n text i. tt;
          removes = λ d n i. tt;
          renames = λ d n i. tt;
          times = λ d t i. tt;
        }
        (IsQuiet-IsStable dl l) s i

  then_pass-Quiet :
      (p : Passing D) (k : Pass D → Passing D)
      → Quiet p
      → ((s : Pass D) → IsQuiet s → Quiet (k s))
      → Quiet (then_pass p k)
  unfolding then_pass
  then_pass-Quiet (stopped e) k i h = tt
  then_pass-Quiet (onward s) k i h = h s i

  for_each-Quiet :
      {A : Type 0} (P : A → Type 0) (body : A → Pass D → Passing D)
      → ((a : A) (s : Pass D) → P a → IsQuiet s → Quiet (body a s))
      → (as_ : List A) (s : Pass D) → All P as_
      → IsQuiet s
      → Quiet (for_each body as_ s)
  unfolding for_each
  for_each-Quiet P body h [] s a i = i
  for_each-Quiet P body h (x ∷ rest) s a i =
      then_pass-Quiet (body x s) _ (h x s a.0 i) (λ s' i'. for_each-Quiet P body h rest s' a.1 i')

  pub apply_plan-Quiet :
      (setting : Setting W) (mode : Bytes) (offset : W) (server_tombs : Stamps) (plan : Plan W)
      (s : Pass D)
      → bytes_eq mode readonly ≡ true
      → All (λ f. In f files) plan.downloads
      → plan.uploads ≡ []
      → IsQuiet s
      → Quiet (apply_plan env setting mode offset server_tombs plan s)
  unfolding apply_plan for_each then_pass
  apply_plan-Quiet setting mode offset server_tombs plan s r down up i =
      rw (r, up)
        (then_pass-Quiet (for_each (download_file env) plan.downloads s) _
          (for_each-Quiet (λ f. In f files) (download_file env)
            (λ f s' l q. download_file-Quiet f s' l q) plan.downloads s down i)
          (λ s2 q.
            say-IsQuiet (sync_complete s2.downloaded s2.uploaded plan.conflicts s2.locked_skipped)
              s2 (inr (s2.downloaded, s2.uploaded, plan.conflicts, s2.locked_skipped, refl)) q))
