-- ===== src/Sync/Plan/Settled.antt =====
-- sync/mod.rs, the diff: what is carried out of a plan, that no decision is lost, and that sides that
-- agree need no action.
use krymux.Base.{
  ℕ, ◌≤◌, ◌≡◌, refl, sym, ◌∙◌, inl, inr, Option, none, some, List, [], ◌∷◌, ◌++◌, Bool, true, false,
  not, All, All-keep_if, keep_if_kept, All-imp, In, here, there, not-true, arith, Bool-cases,
  keep_if,
}
use krymux.Base.Bytes.{Bytes, bytes_eq, bytes_eq_refl}
use krymux.Base.Maps.{lookup_key}
use krymux.Sync.Float.{Float}
use krymux.Sync.Scanner.{FileEntry}
use krymux.Sync.Tombstones.{Stamps}
use krymux.Sync.Plan.{
  Plan, FileDecision, leave, download, upload, delete_on_server, delete_here, conflict, act,
  no_actions, readonly, representable, newer_than_server, find_entry, decide_both, decide_shared,
  decide_hashed, decide_readable, decide_server, decide_client, run_decisions, diff, settle_plan,
}
use krymux.Sync.Plan.Decisions.{AllJustified, diff-AllJustified}

module _ {W : Type 0} where
  -- The plan holds what was decided.
  abbrev pub Records : FileDecision W → Plan W → Type 0
  Records leave plan = Unit
  Records (download f) plan = In f plan.downloads
  Records (upload f) plan = In f plan.uploads
  Records (delete_on_server p ts) plan = In (p, ts) plan.server_deletes
  Records (delete_here p) plan = In p plan.local_deletes
  Records conflict plan = 1 ≤ plan.conflicts

In-append {ℓ} : {A : Type ℓ} {x : A} {xs : List A} (ys : List A) → In x xs → In x (xs ++ ys)
In-append ys here = here
In-append ys (there i) = there (In-append ys i)

In-last {ℓ} : {A : Type ℓ} (x : A) (xs : List A) → In x (xs ++ x ∷ [])
In-last x [] = here
In-last x (y ∷ xs) = there (In-last x xs)

module _ {W : Type 0} where
  act-Records : (d : FileDecision W) (plan : Plan W) → Records d (act d plan)
  act-Records leave plan = tt
  act-Records (download f) plan = In-last f plan.downloads
  act-Records (upload f) plan = In-last f plan.uploads
  act-Records (delete_on_server p ts) plan = In-last (p, ts) plan.server_deletes
  act-Records (delete_here p) plan = In-last p plan.local_deletes
  act-Records conflict plan = omega arith

  -- The second plan holds all that the first one holds.
  abbrev Extends : Plan W → Plan W → Type 0
  Extends plan plan' = (d : FileDecision W) → Records d plan → Records d plan'

  extend :
      (plan plan' : Plan W)
      → ((f : FileEntry W) → In f plan.downloads → In f plan'.downloads)
      → ((f : FileEntry W) → In f plan.uploads → In f plan'.uploads)
      → ((e : Bytes × ℕ) → In e plan.server_deletes → In e plan'.server_deletes)
      → ((p : Bytes) → In p plan.local_deletes → In p plan'.local_deletes)
      → plan.conflicts ≤ plan'.conflicts
      → Extends plan plan'
  extend plan plan' a b c e h leave r = tt
  extend plan plan' a b c e h (download f) r = a f r
  extend plan plan' a b c e h (upload f) r = b f r
  extend plan plan' a b c e h (delete_on_server p ts) r = c (p, ts) r
  extend plan plan' a b c e h (delete_here p) r = e p r
  extend plan plan' a b c e h conflict r = omega (arith, h, r)

  -- A decision takes nothing away.
  act-Extends : (d : FileDecision W) (plan : Plan W) → Extends plan (act d plan)
  act-Extends leave plan = λ d r. r
  act-Extends (download f) plan =
      extend plan (act (download f) plan) (λ g i. In-append (f ∷ []) i) (λ g i. i) (λ g i. i)
        (λ g i. i) (omega arith)
  act-Extends (upload f) plan =
      extend plan (act (upload f) plan) (λ g i. i) (λ g i. In-append (f ∷ []) i) (λ g i. i)
        (λ g i. i) (omega arith)
  act-Extends (delete_on_server p ts) plan =
      extend plan (act (delete_on_server p ts) plan) (λ g i. i) (λ g i. i)
        (λ g i. In-append ((p, ts) ∷ []) i) (λ g i. i) (omega arith)
  act-Extends (delete_here p) plan =
      extend plan (act (delete_here p) plan) (λ g i. i) (λ g i. i) (λ g i. i)
        (λ g i. In-append (p ∷ []) i) (omega arith)
  act-Extends conflict plan =
      extend plan (act conflict plan) (λ g i. i) (λ g i. i) (λ g i. i) (λ g i. i) (omega arith)

  run-Extends :
      (decide : FileEntry W → FileDecision W) (fs : List (FileEntry W)) (plan : Plan W)
      → Extends plan (run_decisions decide fs plan)
  unfolding run_decisions
  run-Extends decide [] plan d r = r
  run-Extends decide (f ∷ fs) plan d r =
      run-Extends decide fs (act (decide f) plan) d (act-Extends (decide f) plan d r)

  run-Records :
      (decide : FileEntry W → FileDecision W) {f : FileEntry W} {fs : List (FileEntry W)}
      (plan : Plan W)
      → In f fs
      → Records (decide f) (run_decisions decide fs plan)
  unfolding run_decisions
  run-Records decide {f} plan (here {xs}) =
      run-Extends decide xs (act (decide f) plan) (decide f) (act-Records (decide f) plan)
  run-Records decide plan (there {y} i) = run-Records decide (act (decide y) plan) i

some-same : (a b : Bytes) → let o : Option Bytes = some a in o ≡ some b → a ≡ b
some-same a b e = ground (arith, e)

run_leaves :
    {W : Type 0} (decide : FileEntry W → FileDecision W) (fs : List (FileEntry W)) (plan : Plan W)
    → ((f : FileEntry W) → In f fs → decide f ≡ leave)
    → run_decisions decide fs plan ≡ plan
unfolding run_decisions
run_leaves decide [] plan h = refl
run_leaves decide (f ∷ fs) plan h = rw (h f here) (run_leaves decide fs plan (λ g i. h g (there i)))

pub All-empty {ℓ} :
    {A : Type ℓ} (P : A → Type 0) (xs : List A) → ((x : A) → ¬ P x) → All P xs → xs ≡ []
All-empty P [] f h = refl
All-empty P (x ∷ xs) f h = absurd (f x h.0)

module _ {W : Type 0} (F : Float W) (mode : Bytes) (time_offset_ms : W) (knows : Bool)
    (local_tombs server_tombs : Stamps) (server_files client_files : List (FileEntry W)) where
  abbrev the_plan : Plan W
  the_plan = diff F mode time_offset_ms knows local_tombs server_tombs server_files client_files

  abbrev by_server : FileEntry W → FileDecision W
  by_server = decide_server F mode time_offset_ms knows local_tombs client_files

  abbrev by_client : FileEntry W → FileDecision W
  by_client = decide_client F mode time_offset_ms server_tombs server_files

  -- The plan holds what was decided for each file of the server and, where the mode is not
  -- `readonly`, for each file of the client.
  pub diff-Records :
      (f : FileEntry W)
      → (In f server_files
          → Records (decide_server F mode time_offset_ms knows local_tombs client_files f) the_plan)
        × (bytes_eq mode readonly ≡ false
            → In f client_files
            → Records (decide_client F mode time_offset_ms server_tombs server_files f) the_plan)
  unfolding diff
  diff-Records f = (
    λ i.
        let first = run-Records by_server no_actions i in
        elim (Bool-cases (bytes_eq mode readonly)) [
          | inl r ↦ rw r first
          | inr w ↦ rw w (run-Extends by_client client_files _ (by_server f) first)
        ],
    λ w i. rw w (run-Records by_client (run_decisions by_server server_files no_actions) i),
  )

  -- In the mode `readonly` a plan uploads nothing and deletes nothing, on either side.
  pub diff_readonly :
      bytes_eq mode readonly ≡ true
      → (the_plan.uploads ≡ []) × (the_plan.server_deletes ≡ []) × (the_plan.local_deletes ≡ [])
  diff_readonly r =
      let j =
        diff-AllJustified F mode time_offset_ms knows local_tombs server_tombs server_files
          client_files in
      (
        All-empty _ the_plan.uploads (λ x h. cc (sym r ∙ h.0)) j.1,
        All-empty _ the_plan.server_deletes (λ x h. cc (sym r ∙ h.0)) j.2,
        All-empty _ the_plan.local_deletes (λ x h. cc (sym r ∙ h.0)) j.3,
      )

  -- What is carried out of a plan is justified as the plan is; each transfer is of a path that the
  -- platform can hold, and no download is of a path with a newer tombstone of our own, as the store
  -- has it after the diff.
  pub settle_plan-AllJustified :
      (windows : Bool) (collisions : List Bytes) (fresh_tombs : Stamps)
      → let final = settle_plan F mode time_offset_ms windows collisions fresh_tombs the_plan in
        AllJustified F mode time_offset_ms knows local_tombs server_tombs server_files client_files
          final
        × All
            (λ f. newer_than_server F mode time_offset_ms (lookup_key fresh_tombs f.path) f ≡ false)
            final.downloads
        × All (λ f. representable windows collisions f.path ≡ true) final.downloads
        × All (λ f. representable windows collisions f.path ≡ true) final.uploads
  unfolding settle_plan
  settle_plan-AllJustified windows collisions fresh_tombs =
      let j =
        diff-AllJustified F mode time_offset_ms knows local_tombs server_tombs server_files
          client_files in
      let fits : FileEntry W → Bool = λ f. representable windows collisions f.path in
      let live : FileEntry W → Bool =
        λ f. not (newer_than_server F mode time_offset_ms (lookup_key fresh_tombs f.path) f) in
      let down = keep_if fits the_plan.downloads in
      (
        (
          All-keep_if _ live down (All-keep_if _ fits the_plan.downloads j.0),
          All-keep_if _ fits the_plan.uploads j.1,
          j.2,
          j.3,
        ),
        All-imp _ _ (keep_if live down) (λ f h. not-true _ h) (keep_if_kept live down),
        All-keep_if _ live down (keep_if_kept fits the_plan.downloads),
        keep_if_kept fits the_plan.uploads,
      )

  agreed_shared :
      (sf cf : FileEntry W) (sh : Bytes) (o : Option Bytes)
      → o ≡ some sh
      → decide_shared F mode time_offset_ms sf sh cf o ≡ leave
  unfolding decide_shared decide_both
  agreed_shared sf cf sh none e = cc
  agreed_shared sf cf sh (some ch) e = rw (some-same ch sh e, bytes_eq_refl sh) refl

  agreed_readable :
      (sf cf : FileEntry W) (o : Option Bytes)
      → find_entry client_files sf.path ≡ some cf
      → cf.hash ≡ o
      → decide_readable F mode time_offset_ms knows local_tombs client_files sf o ≡ leave
  unfolding decide_readable decide_hashed
  agreed_readable sf cf none found same = refl
  agreed_readable sf cf (some sh) found same = rw found (agreed_shared sf cf sh cf.hash same)

  client_leaves :
      (cf sf : FileEntry W) → find_entry server_files cf.path ≡ some sf → by_client cf ≡ leave
  unfolding decide_client
  client_leaves cf sf found = rw (decide_client, found) refl

  -- Sides that agree need no action: where each file of either side is on the other side with the
  -- same hash, the plan is empty and has no conflict, whatever the tombstones are.
  pub diff_agreed :
      ((sf : FileEntry W)
        → In sf server_files
        → (cf : FileEntry W) × (find_entry client_files sf.path ≡ some cf) × (cf.hash ≡ sf.hash))
      → ((cf : FileEntry W)
          → In cf client_files
          → (sf : FileEntry W) × (find_entry server_files cf.path ≡ some sf))
      → the_plan ≡ no_actions
  unfolding diff
  diff_agreed there_too here_too =
      let first = run_leaves by_server server_files no_actions (λ sf i.
        let (cf, found, same) = there_too sf i in
        unfold decide_server in agreed_readable sf cf sf.hash found same) in
      elim (Bool-cases (bytes_eq mode readonly)) [
        | inl r ↦ rw r first
        | inr w ↦
            rw (w, first)
              (run_leaves by_client client_files no_actions
                (λ cf i. let (sf, found) = here_too cf i in client_leaves cf sf found))
      ]
