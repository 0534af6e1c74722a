-- ===== src/Config/Fingerprints.antt =====
-- keys.rs, `normalize_fingerprint`: its results have one spelling.
use krymux.Base.{
  ℕ, suc, ◌≡◌, refl, sym, ◌∙◌, ap, [], ◌∷◌, ◌++◌, Option, none, some, Bool, true, false, ◌&&◌, ◌||◌,
  ◌==◌, length, all, &&-true, ==_iff, if◌then◌else◌, arith, keep_if, not,
}
use mathlib.Core.Option.{some-injective}
use krymux.Base.Bytes.{Bytes, codes}
use krymux.Base.Text.{is_hex_digit, to_lower, to_lower_byte, trim, strip_prefix, starts_with}
use krymux.Config.{
  KeyFiles, sha256_prefix, hex_fingerprint, key_file, plain_fingerprint, normalize_fingerprint,
}

-- `sha256:` and 64 hex digits in lower case.
pub record IsCanonical (fp : Bytes) : Type 0 where
  pub digits : Bytes
  pub spelled : fp ≡ sha256_prefix ++ digits
  pub long : length digits ≡ 64
  pub hex : all is_hex_digit digits ≡ true
  pub lower : to_lower digits ≡ digits

to_lower_byte_twice : (c : ℕ) → to_lower_byte (to_lower_byte c) ≡ to_lower_byte c
to_lower_byte_twice c = ground arith

to_lower_twice : (s : Bytes) → to_lower (to_lower s) ≡ to_lower s
to_lower_twice [] = refl
to_lower_twice (c ∷ s) = rw (to_lower_byte_twice c, to_lower_twice s) refl

length-to_lower : (s : Bytes) → length (to_lower s) ≡ length s
length-to_lower [] = refl
length-to_lower (c ∷ s) = ap suc (length-to_lower s)

hex_lower_byte : (c : ℕ) → is_hex_digit c ≡ true → is_hex_digit (to_lower_byte c) ≡ true
hex_lower_byte c h = ground (arith, h)

all_hex-to_lower : (s : Bytes) → all is_hex_digit s ≡ true → all is_hex_digit (to_lower s) ≡ true
all_hex-to_lower [] h = refl
all_hex-to_lower (c ∷ s) h =
    let both = &&-true (is_hex_digit c) (all is_hex_digit s) h in
    rw (hex_lower_byte c both.0, all_hex-to_lower s both.1) refl

-- The fingerprints of files are spelled so, as keys.rs prints the hash of what is in them.
pub record AreCanonical (files : KeyFiles) : Type 0 where
  pub certs : (s fp : Bytes) → files.cert s ≡ some (some fp) → IsCanonical fp
  pub spkis : (s fp : Bytes) → files.spki s ≡ some fp → IsCanonical fp

when :
    {A : Type 0} (b : Bool) {x y : A} → (if b then some x else none) ≡ some y → (b ≡ true) × (x ≡ y)
when true e = (refl, some-injective _ _ e)
when false e = cc e

hex_fingerprint-IsCanonical :
    (h fp : Bytes) → to_lower h ≡ h → hex_fingerprint h ≡ some fp → IsCanonical fp
unfolding hex_fingerprint
hex_fingerprint-IsCanonical h fp l e =
    let w = when ((length h == 64) && all is_hex_digit h) e in
    let tests = &&-true (length h == 64) (all is_hex_digit h) w.0 in
    record {
      digits = h;
      spelled = sym w.1;
      long = (==_iff (length h) 64).0 tests.0;
      hex = tests.1;
      lower = l;
    }

found-IsCanonical :
    (files : KeyFiles) (s fp : Bytes) (o : Option (Option Bytes))
    → AreCanonical files
    → files.cert s ≡ o
    → elim o [ some f ↦ f | none ↦ files.spki s ] ≡ some fp
    → IsCanonical fp
found-IsCanonical files s fp none a c e = a.spkis s fp e
found-IsCanonical files s fp (some f) a c e = a.certs s fp (c ∙ ap some e)

key_file-IsCanonical :
    (files : KeyFiles) (s fp : Bytes) (b : Bool)
    → AreCanonical files
    → (if b then elim (files.cert s) [ some f ↦ f | none ↦ files.spki s ] else none) ≡ some fp
    → IsCanonical fp
key_file-IsCanonical files s fp true a e = found-IsCanonical files s fp (files.cert s) a refl e
key_file-IsCanonical files s fp false a e = cc e

plain_fingerprint-IsCanonical :
    (files : KeyFiles) (s fp : Bytes) (b : Bool)
    → AreCanonical files
    → ((length s == 64) && all is_hex_digit s) ≡ b
    → (if b then some (sha256_prefix ++ to_lower s) else key_file files s) ≡ some fp
    → IsCanonical fp
unfolding key_file
plain_fingerprint-IsCanonical files s fp true a t e =
    let tests = &&-true (length s == 64) (all is_hex_digit s) t in
    record {
      digits = to_lower s;
      spelled = sym (some-injective _ _ e);
      long = length-to_lower s ∙ (==_iff (length s) 64).0 tests.0;
      hex = all_hex-to_lower s tests.1;
      lower = to_lower_twice s;
    }
plain_fingerprint-IsCanonical files s fp false a t e =
    key_file-IsCanonical files s fp (starts_with s (codes "-----BEGIN") || files.exists s) a e

stripped-IsCanonical :
    (files : KeyFiles) (s fp : Bytes) (o : Option Bytes)
    → AreCanonical files
    → elim o [
      | some hexpart ↦
          hex_fingerprint (to_lower (keep_if (λ c. not (c == b':') && not (c == b' ')) hexpart))
      | none ↦ plain_fingerprint files s
    ]
      ≡ some fp
    → IsCanonical fp
unfolding plain_fingerprint
stripped-IsCanonical files s fp (some hexpart) a e =
    hex_fingerprint-IsCanonical _ fp (to_lower_twice _) e
stripped-IsCanonical files s fp none a e =
    plain_fingerprint-IsCanonical files s fp ((length s == 64) && all is_hex_digit s) a refl e

-- Every fingerprint that is accepted, in whatever form it was written, comes out as `sha256:` and 64 hex
-- digits in lower case, if the fingerprints of files are spelled so. Two spellings of one hash are thus
-- equal where the whitelist compares them.
pub normalize_fingerprint-IsCanonical :
    (files : KeyFiles) (input fp : Bytes)
    → AreCanonical files
    → normalize_fingerprint files input ≡ some fp
    → IsCanonical fp
unfolding normalize_fingerprint
normalize_fingerprint-IsCanonical files input fp a e =
    stripped-IsCanonical files (trim input) fp (strip_prefix (trim input) sha256_prefix) a e
