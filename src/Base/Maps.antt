-- ===== src/Base/Maps.antt =====
-- `BTreeMap` with text keys, as the list of its entries in the order of the keys.
use mathlib.Core.Path.{◌≡◌, refl, sym, ap, ◌∙◌}
use mathlib.Core.Logic.{inl, inr}
use mathlib.Core.List.{List, [], ◌∷◌}
use mathlib.Core.Bool.{Bool, true, false}
use mathlib.Core.Option.{Option, none, some}
use native.Mathlib.Omega.{arith}
use krymux.Base.Tests.{◌==◌, ltb, if◌then◌else◌, Bool-cases}
use krymux.Base.Bytes.{Bytes, bytes_eq, bytes_eq_refl, bytes_eq→eq}

-- The order of texts: that of their bytes.
abbrev pub bytes_lt : Bytes → Bytes → Bool
bytes_lt xs [] = false
bytes_lt [] (y ∷ ys) = true
bytes_lt (x ∷ xs) (y ∷ ys) = let later = bytes_lt xs ys in if x == y then later else ltb x y

abbrev pub first_of {ℓ} : {A : Type ℓ} → Option A → Option A → Option A
first_of none o = o
first_of (some a) o = some a

module _ {ℓ} {A : Type ℓ} where
  abbrev pub lookup_key : List (Bytes × A) → Bytes → Option A
  lookup_key [] k = none
  lookup_key ((j, v) ∷ m) k = if bytes_eq j k then some v else lookup_key m k

  abbrev pub insert_key : List (Bytes × A) → Bytes → A → List (Bytes × A)
  insert_key [] k v = (k, v) ∷ []
  insert_key ((j, w) ∷ m) k v =
      let later = insert_key m k v in
      if bytes_eq j k
      then (k, v) ∷ m
      else if bytes_lt k j
      then (k, v) ∷ (j, w) ∷ m
      else (j, w) ∷ later

  -- The entries of the first map inserted one after another.
  abbrev pub insert_all : List (Bytes × A) → List (Bytes × A) → List (Bytes × A)
  insert_all [] m = m
  insert_all ((k, v) ∷ es) m = insert_all es (insert_key m k v)

  abbrev pub retain : (A → Bool) → List (Bytes × A) → List (Bytes × A)
  retain p [] = []
  retain p ((k, v) ∷ m) = let later = retain p m in if p v then (k, v) ∷ later else later

  abbrev pub filtered : (A → Bool) → Option A → Option A
  filtered p none = none
  filtered p (some v) = if p v then some v else none

  -- Every key comes after `k`.
  abbrev pub Above : Bytes → List (Bytes × A) → Type 0
  Above k [] = Unit
  Above k ((j, v) ∷ m) = (bytes_lt k j ≡ true) × Above k m

  -- The keys are in order, so none stands twice.
  abbrev pub IsSorted : List (Bytes × A) → Type 0
  IsSorted [] = Unit
  IsSorted ((k, v) ∷ m) = Above k m × IsSorted m

bytes_lt_trans : (a b c : Bytes) → bytes_lt a b ≡ true → bytes_lt b c ≡ true → bytes_lt a c ≡ true
bytes_lt_trans a b [] h g = cc g
bytes_lt_trans a [] (z ∷ zs) h g = cc h
bytes_lt_trans [] (y ∷ ys) (z ∷ zs) h g = refl
bytes_lt_trans (x ∷ xs) (y ∷ ys) (z ∷ zs) h g = ground (arith, bytes_lt_trans xs ys zs)

bytes_lt_total : (a b : Bytes) → bytes_eq a b ≡ false → bytes_lt a b ≡ false → bytes_lt b a ≡ true
bytes_lt_total [] [] h g = cc h
bytes_lt_total [] (y ∷ ys) h g = cc g
bytes_lt_total (x ∷ xs) [] h g = refl
bytes_lt_total (x ∷ xs) (y ∷ ys) h g = ground (arith, bytes_lt_total xs ys)

bytes_lt_irrefl : (a : Bytes) → bytes_lt a a ≡ false
bytes_lt_irrefl [] = refl
bytes_lt_irrefl (x ∷ xs) = ground (arith, bytes_lt_irrefl xs)

bytes_eq_sym : (k j : Bytes) → bytes_eq k j ≡ false → bytes_eq j k ≡ false
bytes_eq_sym k j h = elim (Bool-cases (bytes_eq j k)) [
  | inl e ↦ cc (sym h ∙ ap (λ x. bytes_eq k x) (bytes_eq→eq j k e) ∙ bytes_eq_refl k)
  | inr e ↦ e
]

bytes_lt-ne : (a b : Bytes) → bytes_lt a b ≡ true → bytes_eq b a ≡ false
bytes_lt-ne a b h = elim (Bool-cases (bytes_eq b a)) [
  | inl e ↦ cc (sym h ∙ ap (λ x. bytes_lt a x) (bytes_eq→eq b a e) ∙ bytes_lt_irrefl a)
  | inr e ↦ e
]

module _ {ℓ} {A : Type ℓ} where
  pub lookup_key-insert_key :
      (m : List (Bytes × A)) (k j : Bytes) (v : A)
      → lookup_key (insert_key m k v) j ≡ (if bytes_eq k j then some v else lookup_key m j)
  lookup_key-insert_key [] k j v = refl
  lookup_key-insert_key ((i, w) ∷ m) k j v =
      let ih = lookup_key-insert_key m k j v in
      elim (Bool-cases (bytes_eq i k)) [
        | inl e ↦ rw (bytes_eq→eq i k e, bytes_eq_refl k) (ground arith)
        | inr e ↦ elim (Bool-cases (bytes_eq k j)) [
          | inl f ↦
              rw (sym (bytes_eq→eq k j f))
                (ground (arith, e, bytes_eq_refl k, lookup_key-insert_key m k k v))
          | inr f ↦ ground (arith, e, f, ih)
        ]
      ]

  Above-insert_key :
      (m : List (Bytes × A)) (i k : Bytes) (v : A)
      → bytes_lt i k ≡ true
      → Above i m
      → Above i (insert_key m k v)
  Above-insert_key [] i k v h a = (h, tt)
  Above-insert_key ((j, w) ∷ m) i k v h a = ground (arith, Above-insert_key m i k v h)

  Above-trans : (m : List (Bytes × A)) (i k : Bytes) → bytes_lt i k ≡ true → Above k m → Above i m
  Above-trans [] i k h a = tt
  Above-trans ((j, w) ∷ m) i k h a = (bytes_lt_trans i k j h a.0, Above-trans m i k h a.1)

  Above-none : (m : List (Bytes × A)) (k : Bytes) → Above k m → lookup_key m k ≡ none
  Above-none [] k a = refl
  Above-none ((j, w) ∷ m) k a = rw (bytes_lt-ne k j a.0) (Above-none m k a.1)

  pub insert_key-IsSorted :
      (m : List (Bytes × A)) (k : Bytes) (v : A) → IsSorted m → IsSorted (insert_key m k v)
  insert_key-IsSorted [] k v d = (tt, tt)
  insert_key-IsSorted ((i, w) ∷ m) k v d = elim (Bool-cases (bytes_eq i k)) [
    | inl e ↦ rw (e, sym (bytes_eq→eq i k e)) d
    | inr e ↦ elim (Bool-cases (bytes_lt k i)) [
      | inl f ↦ rw (e, f) (((f, Above-trans m k i f d.0), d))
      | inr f ↦ ground (
        arith,
        e,
        f,
        Above-insert_key m i k v (bytes_lt_total k i (bytes_eq_sym i k e) f) d.0,
        insert_key-IsSorted m k v d.1,
      )
    ]
  ]

  pub lookup_key-insert_all :
      (es m : List (Bytes × A)) (j : Bytes)
      → IsSorted es
      → lookup_key (insert_all es m) j ≡ first_of (lookup_key es j) (lookup_key m j)
  lookup_key-insert_all [] m j d = refl
  lookup_key-insert_all ((k, v) ∷ es) m j d =
      let ih = lookup_key-insert_all es (insert_key m k v) j d.1 in
      let one = lookup_key-insert_key m k j v in
      elim (Bool-cases (bytes_eq k j)) [
        | inl e ↦
            let out : lookup_key es j ≡ none = rw (sym (bytes_eq→eq k j e)) (Above-none es k d.0) in
            ground (arith, e, ih, one, out)
        | inr e ↦ ground (arith, e, ih, one)
      ]

  Above-retain :
      (p : A → Bool) (m : List (Bytes × A)) (k : Bytes) → Above k m → Above k (retain p m)
  Above-retain p [] k a = tt
  Above-retain p ((j, v) ∷ m) k a = ground (arith, Above-retain p m k a.1)

  pub lookup_key-retain :
      (p : A → Bool) (m : List (Bytes × A)) (j : Bytes)
      → IsSorted m
      → lookup_key (retain p m) j ≡ filtered p (lookup_key m j)
  lookup_key-retain p [] j d = refl
  lookup_key-retain p ((k, v) ∷ m) j d =
      let ih = lookup_key-retain p m j d.1 in
      elim (Bool-cases (bytes_eq k j)) [
        | inl e ↦
            let out : lookup_key m j ≡ none = rw (sym (bytes_eq→eq k j e)) (Above-none m k d.0) in
            ground (arith, e, ih, out)
        | inr e ↦ ground (arith, e, ih)
      ]

  pub retain-IsSorted : (p : A → Bool) (m : List (Bytes × A)) → IsSorted m → IsSorted (retain p m)
  retain-IsSorted p [] d = tt
  retain-IsSorted p ((k, v) ∷ m) d = ground (arith, Above-retain p m k d.0, retain-IsSorted p m d.1)

  pub insert_all-IsSorted : (es m : List (Bytes × A)) → IsSorted m → IsSorted (insert_all es m)
  insert_all-IsSorted [] m d = d
  insert_all-IsSorted ((k, v) ∷ es) m d =
      insert_all-IsSorted es (insert_key m k v) (insert_key-IsSorted m k v d)
