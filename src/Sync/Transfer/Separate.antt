-- ===== src/Sync/Transfer/Separate.antt =====
-- sync/mod.rs, the client: files that are in nobody's way, and the choice of some of them.
use krymux.Base.{
  ◌≡◌, refl, ap, inl, inr, List, [], ◌∷◌, Bool, true, false, Bool-cases, keep_if, In, here, there,
  All, All-keep_if, All-imp,
}
use krymux.Base.Bytes.{Bytes}
use krymux.Sync.Scanner.{FileEntry}
use krymux.Sync.Server.Paths.{join_path}
use krymux.Sync.Transfer.Apart.{IsApart}
use krymux.Sync.Transfer.Mirrored.{AllApart}

pub All-In {κ} :
    {W : Type 0} (P : FileEntry W → Type κ) {f : FileEntry W} {fs : List (FileEntry W)}
    → All P fs
    → In f fs
    → P f
All-In P h here = h.0
All-In P h (there i) = All-In P h.1 i

pub In-keep_if :
    {W : Type 0} (b : FileEntry W → Bool) {f : FileEntry W} {fs : List (FileEntry W)}
    → b f ≡ true
    → In f fs
    → In f (keep_if b fs)
In-keep_if b e (here {xs}) = rw e here
In-keep_if b {f} e (there {y} {xs} i) = elim (Bool-cases (b y)) [
  | inl k ↦ rw k (there (In-keep_if b e i))
  | inr k ↦ rw k (In-keep_if b e i)
]

pub All-any :
    {W : Type 0} {P : FileEntry W → Type 0} (fs : List (FileEntry W))
    → ((f : FileEntry W) → P f)
    → All P fs
All-any [] h = tt
All-any (f ∷ fs) h = (h f, All-any fs h)

pub keep_if_all :
    {W : Type 0} (b : FileEntry W → Bool) (fs : List (FileEntry W))
    → All (λ f. b f ≡ true) fs
    → keep_if b fs ≡ fs
keep_if_all b [] h = refl
keep_if_all b (f ∷ fs) h = rw h.0 (ap (λ xs. f ∷ xs) (keep_if_all b fs h.1))

module _ {W : Type 0} (root : Bytes) where
  -- Two files are in nobody's way.
  abbrev pub Separate : FileEntry W → FileEntry W → Type 0
  Separate f g =
      IsApart (join_path root f.path) (join_path root g.path)
      × IsApart (join_path root g.path) (join_path root f.path)

  abbrev pub AllSeparate : List (FileEntry W) → Type 0
  AllSeparate [] = Unit
  AllSeparate (f ∷ fs) = All (Separate f) fs × AllSeparate fs

  pub keep_if-AllSeparate :
      (b : FileEntry W → Bool) (fs : List (FileEntry W))
      → AllSeparate fs
      → AllSeparate (keep_if b fs)
  keep_if-AllSeparate b [] h = tt
  keep_if-AllSeparate b (f ∷ fs) h = elim (Bool-cases (b f)) [
    | inl e ↦ rw e (All-keep_if (Separate f) b fs h.0, keep_if-AllSeparate b fs h.1)
    | inr e ↦ rw e (keep_if-AllSeparate b fs h.1)
  ]

  pub AllSeparate-AllApart : (fs : List (FileEntry W)) → AllSeparate fs → AllApart root fs
  AllSeparate-AllApart [] h = tt
  AllSeparate-AllApart (f ∷ fs) h =
      (All-imp (Separate f) _ fs (λ g s. s.0) h.0, AllSeparate-AllApart fs h.1)

  -- A file that is not kept is apart from those that are.
  pub dropped-IsApart :
      (b : FileEntry W → Bool) {f : FileEntry W} {fs : List (FileEntry W)}
      → AllSeparate fs
      → In f fs
      → b f ≡ false
      → All (λ g. IsApart (join_path root f.path) (join_path root g.path)) (keep_if b fs)
  dropped-IsApart b {f} {fs} h (here {xs}) e =
      rw e (All-keep_if _ b xs (All-imp (Separate f) _ xs (λ g s. s.0) h.0))
  dropped-IsApart b {f} {fs} h (there {y} {xs} i) e = elim (Bool-cases (b y)) [
    | inl k ↦ rw k ((All-In (Separate y) h.0 i).1, dropped-IsApart b h.1 i e)
    | inr k ↦ rw k (dropped-IsApart b h.1 i e)
  ]
