-- ===== src/Mux/Valid.antt =====
-- mux.rs: what is true of every session between two steps, and what a frame handler leaves.
use krymux.Base.{
  ℕ, suc, ◌+◌, ◌≤◌, ◌<◌, ◌≡◌, ◌^◌, refl, List, [], ◌∷◌, Option, some, none, Bool, true, false,
  if◌then◌else◌, length, arith, Option-cases, inl, inr,
}
use krymux.Mux.State.{Shared, StreamInner, Inbound, lookup, update}
use krymux.Mux.Handle.{MuxError, Handled, handled, failed, parked, has_key}

-- Every entry names a stream of the heap that carries its id.
abbrev pub Registered : (ℕ → StreamInner) → ℕ → List (ℕ × ℕ) → Type 0
Registered h n [] = Unit {0}
Registered h n ((sid, r) ∷ m) = ((h r).id ≡ sid) × (r < n) × Registered h n m

abbrev pub Distinct : List (ℕ × ℕ) → Type 0
Distinct [] = Unit {0}
Distinct ((sid, r) ∷ m) = (lookup sid m ≡ none) × Distinct m

-- The openings of streams that are between their check of the limit and their insert, which the code
-- does under two locks: those now there, and how many beyond the first may be there at once.
pub record Opens : Type 0 where
  pub pending : ℕ
  pub more : ℕ

pub record IsValid (opens : Opens) (sh : Shared) : Type 0 where
  pub registered : Registered sh.heap sh.next_ref sh.streams
  pub distinct : Distinct sh.streams
  pub limit : length sh.streams + opens.pending ≤ sh.max_streams + opens.more
  pub data_cap : (1024 ≤ sh.peer_max_data) × (sh.peer_max_data ≤ 2 ^ 20)
  pub window : (16384 ≤ sh.peer_window) × (sh.peer_window ≤ 2 ^ 28)

pub Registered-update :
    (h : ℕ → StreamInner) (n r : ℕ) (s : StreamInner) (m : List (ℕ × ℕ))
    → s.id ≡ (h r).id
    → Registered h n m
    → Registered (update h r s) n m
Registered-update h n r s [] e g = tt
Registered-update h n r s ((sid, q) ∷ m) e g = ground (arith, Registered-update h n r s m e g.2)

pub Registered-fresh :
    (h : ℕ → StreamInner) (n : ℕ) (s : StreamInner) (m : List (ℕ × ℕ))
    → Registered h n m
    → Registered (update h n s) (suc n) m
Registered-fresh h n s [] g = tt
Registered-fresh h n s ((sid, q) ∷ m) g = ground (arith, Registered-fresh h n s m g.2)

-- What a handler leaves, whether it is done or the reader waits.
pub data After (P : Shared → Type 0) : Handled → Type 0 where
  after_handled : {sh : Shared} → P sh → After P (handled sh)
  after_failed : {e : MuxError} → After P (failed e)
  after_parked : {sh : Shared} {r : ℕ} {ms : List Inbound} → P sh → After P (parked sh r ms)

pub After-if :
    (P : Shared → Type 0) (b : Bool) {x y : Handled}
    → After P x
    → After P y
    → After P (if b then x else y)
After-if P true hx hy = hx
After-if P false hx hy = hy

-- The branches of a test, each with its outcome.
pub After-test :
    (P : Shared → Type 0) (b : Bool) {x y : Handled}
    → (b ≡ true → After P x)
    → (b ≡ false → After P y)
    → After P (if b then x else y)
After-test P true hx hy = hx refl
After-test P false hx hy = hy refl

pub has_key-false : (k : ℕ) (m : List (ℕ × ℕ)) → has_key k m ≡ false → lookup k m ≡ none
has_key-false k m h = elim (Option-cases (lookup k m)) [ inl e ↦ e | inr (r, e) ↦ cc (e, h) ]

pub After-option {ℓ} :
    {A : Type ℓ} (P : Shared → Type 0) (o : Option A) (z : Handled) (f : A → Handled)
    → After P z
    → ((a : A) → After P (f a))
    → After P (elim o [ none ↦ z | some a ↦ f a ])
After-option P none z f hz hf = hz
After-option P (some a) z f hz hf = hf a
