-- ===== src/Sync/Server/Joining.antt =====
-- sync/mod.rs, `safe_join`: exactly the paths that stay below the root are accepted.
use krymux.Base.{
  ◌||◌, ℕ, Bool, List, false, true, ◌≡◌, ◌≢◌, All, is_empty, ||-false, ||-false_right, refl, sym,
  ap, ◌∙◌, ◌↔◌, inl, inr, some, [], ◌∷◌, ◌++◌, append-nil, append_assoc, Result, ◌==◌, arith, any,
  ok, Bool-cases, if_true, if_false, ==_refl,
}
use krymux.Base.Bytes.{Bytes, codes, bytes_eq, bytes_eq_iff, bytes_eq→eq}
use krymux.Base.Text.{strip_prefix, split_on}
use krymux.Sync.Server.Paths.{
  PathError, is_separator, has_byte, is_unsafe, join_path, path_starts_with, safe_join,
}

-- A component that is a name: not empty, `.` or `..`, and with no colon.
abbrev pub IsPlain : Bytes → Type 0
IsPlain comp = (comp ≢ []) × (comp ≢ codes ".") × (comp ≢ codes "..") × (has_byte b':' comp ≡ false)

-- Every component is plain, and no byte is NUL.
abbrev pub IsSafe : Bytes → Type 0
IsSafe rel = (has_byte 0 rel ≡ false) × All IsPlain (split_on is_separator rel)

differs : (xs ys : Bytes) → bytes_eq xs ys ≡ false → xs ≢ ys
differs xs ys h e = cc (sym h ∙ (bytes_eq_iff xs ys).1 e)

differs_back : (xs ys : Bytes) → xs ≢ ys → bytes_eq xs ys ≡ false
differs_back xs ys d = elim (Bool-cases (bytes_eq xs ys)) [
  | inl e ↦ absurd (d (bytes_eq→eq xs ys e))
  | inr e ↦ e
]

four_false :
    (a b c d : Bool)
    → (a || b || c || d) ≡ false
    → (a ≡ false) × (b ≡ false) × (c ≡ false) × (d ≡ false)
four_false true b c d e = cc e
four_false false true c d e = cc e
four_false false false true d e = cc e
four_false false false false d e = (refl, refl, refl, e)

empty-false : (comp : Bytes) → (is_empty comp ≡ false) ↔ (comp ≢ [])
empty-false [] = (λ e. cc e, λ d. absurd (d refl))
empty-false (c ∷ s) = (λ e q. cc q, λ d. refl)

is_unsafe-IsPlain : (comp : Bytes) → (is_unsafe comp ≡ false) ↔ IsPlain comp
is_unsafe-IsPlain comp = (
  λ e.
      let f = four_false _ _ _ _ e in
      ((empty-false comp).0 f.0, differs comp _ f.1, differs comp _ f.2, f.3),
  λ p.
      rw
        (
          (empty-false comp).1 p.0,
          differs_back comp (codes ".") p.1,
          differs_back comp (codes "..") p.2,
          p.3,
        )
        refl,
)

any-All : (xs : List Bytes) → (any is_unsafe xs ≡ false) ↔ All IsPlain xs
any-All [] = (λ e. tt, λ h. refl)
any-All (x ∷ xs) = (
  λ e. ((is_unsafe-IsPlain x).0 (||-false _ _ e), (any-All xs).0 (||-false_right _ _ e)),
  λ h. rw ((is_unsafe-IsPlain x).1 h.0) ((any-All xs).1 h.1),
)

strip_prefix-append : (s t : Bytes) → strip_prefix (s ++ t) s ≡ some t
strip_prefix-append [] t = refl
strip_prefix-append (c ∷ s) t = rw (==_refl c) (strip_prefix-append s t)

first_empty :
    (c : ℕ) (rel : Bytes)
    → (c == b'/') ≡ true
    → any is_unsafe (split_on is_separator (c ∷ rel)) ≡ true
first_empty c rel e = rw e refl

-- A safe path is relative, so it is joined to the root.
join_path-IsSafe : (root rel : Bytes) → IsSafe rel → join_path root rel ≡ root ++ codes "/" ++ rel
join_path-IsSafe root [] h = sym (append-nil (root ++ codes "/"))
join_path-IsSafe root (c ∷ rel) h = elim (Bool-cases (c == b'/')) [
  | inl e ↦ cc (sym ((any-All _).1 h.1) ∙ first_empty c rel e)
  | inr e ↦ if_false (c == b'/') (c ∷ rel) (root ++ codes "/" ++ c ∷ rel) e
]

starts-join : (root rel : Bytes) → path_starts_with (root ++ codes "/" ++ rel) root ≡ true
starts-join root rel =
    rw (append_assoc root (codes "/") rel, strip_prefix-append root (codes "/" ++ rel)) refl

ok-same : (a b : Bytes) → let r : Result PathError Bytes = ok a in r ≡ ok b → a ≡ b
ok-same a b e = ground (arith, e)

joined : (root rel : Bytes) → IsSafe rel → safe_join root rel ≡ ok (root ++ codes "/" ++ rel)
unfolding safe_join
joined root rel h =
    let full = join_path-IsSafe root rel h in
    rw (h.0, (any-All _).1 h.1, full, starts-join root rel) refl

-- `safe_join` accepts exactly the relative paths with no NUL and no component that is empty, `.` or
-- `..` or has a colon, with `/` and `\` both read as separators, and the result is the path below the
-- root; the last test of the function refuses nothing.
pub safe_join_lem :
    (root rel full : Bytes)
    → (safe_join root rel ≡ ok full) ↔ (IsSafe rel × (full ≡ root ++ codes "/" ++ rel))
unfolding safe_join
safe_join_lem root rel full = (
  λ e. elim (Bool-cases (has_byte 0 rel)) [
    | inl n ↦ cc (sym (if_true (has_byte 0 rel) _ _ n) ∙ e)
    | inr n ↦ elim (Bool-cases (any is_unsafe (split_on is_separator rel))) [
      | inl u ↦ cc (sym (if_false (has_byte 0 rel) _ _ n ∙ if_true _ _ _ u) ∙ e)
      | inr u ↦
          let safe : IsSafe rel = (n, (any-All _).0 u) in
          (safe, sym (ok-same _ full (sym (joined root rel safe) ∙ e)))
    ]
  ],
  λ h. joined root rel h.0 ∙ ap ok (sym h.1),
)
