-- ===== src/Router/Matching.antt =====
-- router.rs, `host_matches`: which hosts a pattern matches.
use krymux.Base.{
  ◌-◌, ◌≡◌, ◌⊎◌, inl, inr, refl, sym, ap, ◌∙◌, [], ◌∷◌, ◌++◌, Bool, true, false, ◌&&◌, ◌||◌, not,
  Option, none, some, length, leb, if◌then◌else◌, arith, Bool-cases, if_false, take, drop,
  take-append-drop, take-append, drop-append, length-append,
}
use krymux.Base.Bytes.{Bytes, bytes_eq, bytes_eq_refl, bytes_eq→eq}
use krymux.Base.Text.{ends_with, strip_prefix}
use krymux.Router.{normalize_host, pattern_matches, suffix_matches, host_matches}

-- What a normalized pattern means for a normalized host.
abbrev pub Matches : Bytes → Bytes → Type 0
Matches p h =
    (p ≡ b'*' ∷ [])
    ⊎ ((p ≡ h)
        ⊎ ((suffix : Bytes) × (left : Bytes) × (p ≡ b'*' ∷ b'.' ∷ suffix)
            × ((h ≡ left ++ b'.' ∷ suffix) × (ends_with left (b'.' ∷ []) ≡ false))))

strip_wildcard :
    (p suffix : Bytes) → strip_prefix p (b'*' ∷ b'.' ∷ []) ≡ some suffix → p ≡ b'*' ∷ b'.' ∷ suffix
strip_wildcard [] suffix e = cc e
strip_wildcard (x ∷ []) suffix e = ground (arith, e)
strip_wildcard (x ∷ y ∷ p) suffix e = ground (arith, e)

ends_with_lem :
    (s suffix : Bytes) → ends_with s suffix ≡ true → s ≡ take (length s - length suffix) s ++ suffix
ends_with_lem s suffix e =
    let n = length s - length suffix in
    let at_end : drop n s ≡ suffix = bytes_eq→eq (drop n s) suffix (ground (arith, e)) in
    sym (take-append-drop n s) ∙ ap (λ x. take n s ++ x) at_end

and_true : (a b : Bool) → (a && b) ≡ true → (a ≡ true) × (b ≡ true)
and_true true b e = (refl, e)
and_true false b e = cc e

or_false : (a b : Bool) → a ≡ false → b ≡ false → (a || b) ≡ false
or_false true b ha hb = ha
or_false false b ha hb = hb

not-true : (a : Bool) → not a ≡ true → a ≡ false
not-true true e = sym e
not-true false e = refl

if_either : (a b : Bool) → b ≡ true → (if a then true else b) ≡ true
if_either true b e = refl
if_either false b e = e

suffix_matches-Matches :
    (p h : Bytes) (o : Option Bytes)
    → strip_prefix p (b'*' ∷ b'.' ∷ []) ≡ o
    → suffix_matches h o ≡ true
    → Matches p h
unfolding suffix_matches
suffix_matches-Matches p h none s e = cc e
suffix_matches-Matches p h (some suffix) s e =
    let suf = b'.' ∷ suffix in
    let left = take (length h - length suf) h in
    let parts = and_true (ends_with h suf) (not (ends_with left (b'.' ∷ []))) e in
    inr (
      inr (
        suffix,
        left,
        strip_wildcard p suffix s,
        (ends_with_lem h suf parts.0, not-true (ends_with left (b'.' ∷ [])) parts.1),
      ))

pattern_matches-Matches : (p h : Bytes) → pattern_matches p h ≡ true → Matches p h
unfolding pattern_matches
pattern_matches-Matches p h e = elim (Bool-cases (bytes_eq p (b'*' ∷ []))) [
  | inl star ↦ inl (bytes_eq→eq p _ star)
  | inr not_star ↦ elim (Bool-cases (bytes_eq p h)) [
    | inl same ↦ inr (inl (bytes_eq→eq p h same))
    | inr differ ↦
        let neither = or_false (bytes_eq p (b'*' ∷ [])) (bytes_eq p h) not_star differ in
        suffix_matches-Matches p h _ refl (sym (if_false _ _ _ neither) ∙ e)
  ]
]

both_some :
    (o q : Option Bytes)
    → (elim o [ none ↦ false | some p ↦ elim q [ none ↦ false | some h ↦ pattern_matches p h ] ])
      ≡ true
    → (p : Bytes) × (h : Bytes) × (o ≡ some p) × ((q ≡ some h) × (pattern_matches p h ≡ true))
both_some none q e = cc e
both_some (some p) none e = cc e
both_some (some p) (some h) e = (p, h, refl, (refl, e))

-- A pattern that matches a host is `*`, or equal to the host, or `*.` and a suffix of the host that
-- follows a dot, where what stands before that dot does not itself end with a dot; pattern and host are
-- compared as they are normalized.
pub host_matches-Matches :
    (pattern host : Bytes)
    → host_matches pattern host ≡ true
    → (p : Bytes) × (h : Bytes) × (normalize_host pattern ≡ some p)
      × ((normalize_host host ≡ some h) × Matches p h)
unfolding host_matches
host_matches-Matches pattern host e =
    let (p, h, np, (nh, m)) = both_some (normalize_host pattern) (normalize_host host) e in
    (p, h, np, (nh, pattern_matches-Matches p h m))

wildcard_suffix :
    (left suffix : Bytes)
    → ends_with left (b'.' ∷ []) ≡ false
    → suffix_matches (left ++ b'.' ∷ suffix) (some suffix) ≡ true
unfolding suffix_matches
wildcard_suffix left suffix e =
    let suf = b'.' ∷ suffix in
    let n : length (left ++ suf) - length suf ≡ length left =
      omega (arith, length-append left suf) in
    let long : leb (length suf) (length (left ++ suf)) ≡ true =
      ground (arith, length-append left suf) in
    rw (n, take-append left suf, drop-append left suf, bytes_eq_refl suffix, e, long) refl

-- After normalization, the pattern `*.` and a suffix matches each host that has the suffix after a
-- dot, if what stands before that dot does not end with a dot; nothing need stand before it.
pub pattern_matches_wildcard :
    (left suffix : Bytes)
    → ends_with left (b'.' ∷ []) ≡ false
    → pattern_matches (b'*' ∷ b'.' ∷ suffix) (left ++ b'.' ∷ suffix) ≡ true
unfolding pattern_matches suffix_matches
pattern_matches_wildcard left suffix e =
    if_either (bytes_eq (b'*' ∷ b'.' ∷ suffix) (left ++ b'.' ∷ suffix)) _
      (wildcard_suffix left suffix e)
