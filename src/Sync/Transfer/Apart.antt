-- ===== src/Sync/Transfer/Apart.antt =====
-- sync/mod.rs, the client: a download leaves the files at all other paths as they are.
use mathlib.Core.Path.{subst}
use krymux.Base.{ℕ, ◌≡◌, refl, ◌∙◌}
use krymux.Base.Bytes.{Bytes}
use krymux.Sync.Disk.{IsLawful, IsLocal}
use krymux.Sync.Scanner.{FileEntry}
use krymux.Sync.Server.Paths.{join_path, unique_tmp}
use krymux.Sync.Server.State.{Env}
use krymux.Sync.Transfer.Download.{download_file}
use krymux.Sync.Transfer.State.{Pass, onward}
use krymux.Sync.Transfer.Steps.{IsKept, IsStable, Onward, download_file-Onward}

-- A path that is neither this one nor a temporary name of it.
abbrev pub IsApart : Bytes → Bytes → Type 0
IsApart q full = ¬ (q ≡ full) × ((n : ℕ) → ¬ (q ≡ unique_tmp full n))

module _ {D W : Type 0} (env : Env D W) (q : Bytes) (d0 : D) where
  -- The file at the path is as it was.
  abbrev Same : D → Type 0
  Same d = env.disk.read d q ≡ env.disk.read d0 q

  Same-IsKept :
      IsLawful env.disk → IsLocal env.disk → (full : Bytes) → IsApart q full → IsKept env Same full
  Same-IsKept L local full a = record {
    dirs = λ d p i. local.read_dirs d p q ∙ i;
    creates = λ d n i. local.read_created d _ q (a.1 n) ∙ i;
    appends = λ d n text i. local.read_appended d _ text q (a.1 n) ∙ i;
    removes = λ d n i. local.read_removed d _ q (a.1 n) ∙ i;
    renames = λ d n i. local.read_renamed d _ full q (a.1 n) a.0 ∙ i;
    times = λ d t i. L.read-set_file_times d full q t ∙ i;
  }

  Same-IsStable : (path : Bytes) → IsStable env (λ s. Same s.disk) Same path
  Same-IsStable path = record {
    disk_of = λ s i. i;
    moved = λ s d ms i j. j;
    asks = λ s i. i;
    counts = λ s i. i;
    skips = λ s i. i;
  }

-- A download that goes on, counted or not, leaves the file at each path but its own and its temporary
-- names as it was.
pub download_file-apart :
    {D W : Type 0} (env : Env D W)
    → IsLawful env.disk
    → IsLocal env.disk
    → (dl : FileEntry W) (s s' : Pass D) (q : Bytes) → download_file env dl s ≡ onward s'
    → IsApart q (join_path env.root dl.path)
    → env.disk.read s'.disk q ≡ env.disk.read s.disk q
download_file-apart env L local dl s s' q run a =
    subst (Onward env (λ t. Same env q s.disk t.disk)) run (
      download_file-Onward env _ (Same env q s.disk) dl (Same-IsKept env q s.disk L local _ a)
        (Same-IsStable env q s.disk dl.path) s refl)
