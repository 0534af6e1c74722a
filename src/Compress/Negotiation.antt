-- ===== src/Compress/Negotiation.antt =====
-- compress.rs: what `negotiate` can choose, and what `parse_level` lets through.

use krymux.Base.{
  ℕ, ◌≤◌, ◌≡◌, ◌⊎◌, inl, inr, refl, List, [], ◌∷◌, ◌++◌, Bool, true, false, ◌&&◌, ◌||◌, Option,
  none, some, any, if◌then◌else◌, is_empty, arith, Bool-cases,
}
use krymux.Base.Bytes.{Bytes, bytes_eq, bytes_eq_refl, codes}
use krymux.Compress.{
  Registry, ZstdDictEntry, zstdd_name, is_zstdd, supported, base_algo, parse_level, pick_zstdd,
  pick, or_else, unwrap_or_none, negotiate_zstdd, negotiate, algo_none, algo_deflate, algo_brotli,
  algo_zstd, algo_zstdd,
}

-- Membership as the code tests it.
abbrev pub contains : List Bytes → Bytes → Bool
contains names a = any (λ p. bytes_eq p a) names

-- A name that this build supports, or `zstd` in a build without zstd.
abbrev pub IsKnown : Registry → Bytes → Type 0
IsKnown reg a = (contains (supported reg) a ≡ true) ⊎ ((reg.zstd_feature ≡ false) × (a ≡ algo_zstd))

abbrev Offered : Registry → List Bytes → Option Bytes → Type 0
Offered reg peer none = Unit {0}
Offered reg peer (some a) = (contains peer a ≡ true) × IsKnown reg a

-- The choices of `negotiate`: none, or a name of the peer that is known here.
abbrev pub Agreed : Registry → List Bytes → Bytes → Type 0
Agreed reg peer a = (a ≡ algo_none) ⊎ ((contains peer a ≡ true) × IsKnown reg a)

base-IsKnown :
    (b : Bool) (dict : Option ZstdDictEntry)
    → let reg : Registry = record { zstd_feature = b; zstd_dict = dict } in
      IsKnown reg algo_deflate × (IsKnown reg algo_brotli × IsKnown reg algo_zstd)
unfolding supported zstdd_name
base-IsKnown true none = (inl refl, (inl refl, inl refl))
base-IsKnown true (some d) = (inl refl, (inl refl, inl refl))
base-IsKnown false dict = (inl refl, (inl refl, inr (refl, refl)))

contains_last : (xs : List Bytes) (a : Bytes) → contains (xs ++ a ∷ []) a ≡ true
contains_last [] a = ground (arith, bytes_eq_refl a)
contains_last (x ∷ xs) a = ground (arith, contains_last xs a)

module _ (reg : Registry) (peer : List Bytes) where
  pick-Offered : (a : Bytes) → IsKnown reg a → Offered reg peer (pick peer a)
  unfolding pick
  pick-Offered a h = elim (Bool-cases (contains peer a)) [ inl e ↦ rw e (e, h) | inr e ↦ rw e _ ]

  or_else-Offered :
      (x y : Option Bytes)
      → Offered reg peer x
      → Offered reg peer y
      → Offered reg peer (or_else x y)
  or_else-Offered none y hx hy = hy
  or_else-Offered (some a) y hx hy = hx

  unwrap-Agreed : (x : Option Bytes) → Offered reg peer x → Agreed reg peer (unwrap_or_none x)
  unwrap-Agreed none h = inl refl
  unwrap-Agreed (some a) h = inr h

  If-Agreed :
      (b : Bool) (x y : Bytes)
      → (b ≡ true → Agreed reg peer x)
      → Agreed reg peer y
      → Agreed reg peer (if b then x else y)
  If-Agreed true x y hx hy = hx refl
  If-Agreed false x y hx hy = hy

module _ (peer : List Bytes) where
  pick_zstdd-Offered :
      (b : Bool) (dict : Option ZstdDictEntry)
      → let reg : Registry = record { zstd_feature = b; zstd_dict = dict } in
        Offered reg peer (pick_zstdd reg peer)
  unfolding pick_zstdd zstdd_name supported
  pick_zstdd-Offered false dict = _
  pick_zstdd-Offered true none = _
  pick_zstdd-Offered true (some d) = elim (Bool-cases (contains peer d.name)) [
    | inl e ↦
        rw e
          (e, inl (contains_last (algo_none ∷ algo_deflate ∷ algo_brotli ∷ algo_zstd ∷ []) d.name))
    | inr e ↦ rw e _
  ]

  falls_back :
      (reg : Registry)
      → IsKnown reg algo_zstd
      → Agreed reg peer (unwrap_or_none (pick peer algo_zstd))
  falls_back reg h = unwrap-Agreed reg peer _ (pick-Offered reg peer algo_zstd h)

  negotiate_zstdd-Agreed :
      (b : Bool) (dict : Option ZstdDictEntry) (requested : Bytes)
      → let reg : Registry = record { zstd_feature = b; zstd_dict = dict } in
        Agreed reg peer (negotiate_zstdd reg requested peer)
  unfolding negotiate_zstdd zstdd_name supported
  negotiate_zstdd-Agreed false dict requested =
      falls_back (record { zstd_feature = false; zstd_dict = dict }) (base-IsKnown false dict).1.1
  negotiate_zstdd-Agreed true none requested =
      falls_back (record { zstd_feature = true; zstd_dict = none }) (base-IsKnown true none).1.1
  negotiate_zstdd-Agreed true (some d) requested =
      let reg : Registry = record { zstd_feature = true; zstd_dict = some d } in
      If-Agreed reg peer (bytes_eq requested d.name && contains peer d.name) _ _
        (λ e. inr (
          ground (arith, e),
          inl (contains_last (algo_none ∷ algo_deflate ∷ algo_brotli ∷ algo_zstd ∷ []) d.name),
        ))
        (falls_back reg (base-IsKnown true (some d)).1.1)

  negotiate_cases :
      (b : Bool) (dict : Option ZstdDictEntry) (requested : Bytes)
      → let reg : Registry = record { zstd_feature = b; zstd_dict = dict } in
        Agreed reg peer (negotiate reg requested peer)
  unfolding negotiate
  negotiate_cases b dict requested =
      let reg : Registry = record { zstd_feature = b; zstd_dict = dict } in
      let base = base_algo requested in
      let known = base-IsKnown b dict in
      let deflate = pick-Offered reg peer algo_deflate known.0 in
      let brotli = pick-Offered reg peer algo_brotli known.1.0 in
      let zstd = pick-Offered reg peer algo_zstd known.1.1 in
      let zstdd = pick_zstdd-Offered b dict in
      let auto =
        or_else-Offered reg peer _ _ zstdd
          (or_else-Offered reg peer _ _ zstd (or_else-Offered reg peer _ _ deflate brotli)) in
      If-Agreed reg peer (is_empty base || bytes_eq base algo_none) _ _ (λ e. inl refl)
        (If-Agreed reg peer (bytes_eq base (codes "auto")) _ _ (λ e. unwrap-Agreed reg peer _ auto)
          (If-Agreed reg peer (bytes_eq base algo_zstd) _ _
            (λ e. unwrap-Agreed reg peer _ (or_else-Offered reg peer _ _ zstdd zstd))
            (If-Agreed reg peer (bytes_eq base algo_zstdd) _ _
              (λ e.
                If-Agreed reg peer b _ _ (λ f. negotiate_zstdd-Agreed b dict requested) (inl refl))
              (If-Agreed reg peer (bytes_eq base algo_brotli) _ _
                (λ e. unwrap-Agreed reg peer _ brotli)
                (If-Agreed reg peer (bytes_eq base algo_deflate) _ _
                  (λ e. unwrap-Agreed reg peer _ deflate) (inl refl))))))

-- For every request and every list of a peer, `negotiate` gives `none` or a name that the peer listed;
-- that name is one that this build supports, or it is `zstd` and the build has no zstd.
pub negotiate-Agreed :
    (reg : Registry) (requested : Bytes) (peer : List Bytes)
    → Agreed reg peer (negotiate reg requested peer)
negotiate-Agreed reg requested peer = negotiate_cases peer reg.zstd_feature reg.zstd_dict requested

-- In a build without zstd, a peer that lists `zstd` gets `zstd` on the request `auto`, which the build
-- does not support.
pub negotiate_without_zstd :
    (dict : Option ZstdDictEntry) (peer : List Bytes)
    → contains peer algo_zstd ≡ true
    → let reg : Registry = record { zstd_feature = false; zstd_dict = dict } in
      (negotiate reg (codes "auto") peer ≡ algo_zstd) × (contains (supported reg) algo_zstd ≡ false)
unfolding negotiate supported pick pick_zstdd zstdd_name base_algo
negotiate_without_zstd dict peer h = (rw h refl, refl)

-- A level that `parse_level` lets through is from 1 to 22, and no name of a zstd dictionary gives one,
-- though its fingerprint may be all digits.
pub parse_level_bounds :
    (requested : Bytes) (n : ℕ)
    → parse_level requested ≡ some n
    → (1 ≤ n) × ((n ≤ 22) × (is_zstdd requested ≡ false))
unfolding parse_level
parse_level_bounds requested n e = ground arith
