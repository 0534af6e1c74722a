-- ===== src/Base/Text.antt =====
-- Rust's `str` methods on the bytes of an ASCII text, as the code uses them.
use Prim.Native.Nat.{ℕ, zero, suc, ◌+◌, ◌-◌, ◌*◌, ◌/◌, ◌%◌}
use mathlib.Core.List.{List, [], ◌∷◌, ◌++◌}
use mathlib.Core.Bool.{Bool, true, false, ◌&&◌, ◌||◌}
use mathlib.Core.Option
use mathlib.Core.Option.{Option, none, some}
use krymux.Base.Tests.{◌==◌, leb, ltb, if◌then◌else◌}
use krymux.Base.Lists.{length, all, drop}
use krymux.Base.Bytes.{Bytes, bytes_eq}

-- `s.starts_with(prefix)`.
abbrev pub starts_with : Bytes → Bytes → Bool
starts_with s [] = true
starts_with [] (p ∷ ps) = false
starts_with (c ∷ s) (p ∷ ps) = c == p && starts_with s ps

-- `s.strip_prefix(prefix)`.
abbrev pub strip_prefix : Bytes → Bytes → Option Bytes
strip_prefix s [] = some s
strip_prefix [] (p ∷ ps) = none
strip_prefix (c ∷ s) (p ∷ ps) = if c == p then strip_prefix s ps else none

-- `s.ends_with(suffix)`.
abbrev pub ends_with : Bytes → Bytes → Bool
ends_with s suffix =
    leb (length suffix) (length s) && bytes_eq (drop (length s - length suffix) s) suffix

-- `s.find(c)` and `s.rfind(c)`: the position of the first and of the last such byte.
abbrev pub find : Bytes → ℕ → Option ℕ
find [] c = none
find (x ∷ s) c = if x == c then some 0 else Option.map suc (find s c)

abbrev pub rfind : Bytes → ℕ → Option ℕ
rfind [] c = none
rfind (x ∷ s) c = elim (rfind s c) [
  | some i ↦ some (suc i)
  | none ↦ if x == c then some 0 else none
]

-- `s.matches(c).count()`.
abbrev pub count : ℕ → Bytes → ℕ
count c [] = 0
count c (x ∷ s) = if x == c then suc (count c s) else count c s

abbrev pub is_digit : ℕ → Bool
is_digit c = leb b'0' c && leb c b'9'

abbrev pub is_hex_digit : ℕ → Bool
is_hex_digit c = is_digit c || (leb b'a' c && leb c b'f') || (leb b'A' c && leb c b'F')

-- The value of a run of decimal digits.
abbrev pub digits_value : ℕ → Bytes → ℕ
digits_value acc [] = acc
digits_value acc (c ∷ s) = digits_value (acc * 10 + (c - b'0')) s

abbrev pub digits : Bytes → Option ℕ
digits [] = none
digits (c ∷ s) = if all is_digit (c ∷ s) then some (digits_value 0 (c ∷ s)) else none

abbrev pub strip_plus : Bytes → Bytes
strip_plus [] = []
strip_plus (c ∷ s) = if c == b'+' then s else c ∷ s

-- `s.parse::<uN>()` for the largest value `hi`: an optional plus sign and digits, in range. It is
-- also the outcome of `parse::<i32>` where that is not negative.
abbrev pub parse_unsigned : ℕ → Bytes → Option ℕ
parse_unsigned hi s = elim (digits (strip_plus s)) [
  | none ↦ none
  | some v ↦ if leb v hi then some v else none
]

-- `to_lowercase` of an ASCII text.
abbrev pub to_lower_byte : ℕ → ℕ
to_lower_byte c = if leb b'A' c && leb c b'Z' then c + 32 else c

abbrev pub to_lower : Bytes → Bytes
to_lower [] = []
to_lower (c ∷ s) = to_lower_byte c ∷ to_lower s

-- ASCII white space, as `trim` removes it.
abbrev pub is_space : ℕ → Bool
is_space c = c == 32 || (leb 9 c && leb c 13)

abbrev pub trim_start : Bytes → Bytes
trim_start [] = []
trim_start (c ∷ s) = if is_space c then trim_start s else c ∷ s

-- Removes the trailing bytes that meet the test.
abbrev pub trim_end_matches : (ℕ → Bool) → Bytes → Bytes
trim_end_matches p [] = []
trim_end_matches p (c ∷ s) = elim (trim_end_matches p s) [
  | [] ↦ if p c then [] else c ∷ []
  | d ∷ r ↦ c ∷ d ∷ r
]

abbrev pub trim : Bytes → Bytes
trim s = trim_end_matches is_space (trim_start s)

-- `{}` of an unsigned number; the fuel is the largest count of digits.
abbrev pub decimal_loop : ℕ → ℕ → Bytes
decimal_loop zero n = []
decimal_loop (suc fuel) n = elim (ltb n 10) [
  | true ↦ (b'0' + n) ∷ []
  | false ↦ decimal_loop fuel (n / 10) ++ (b'0' + n % 10) ∷ []
]

-- A u64 has at most 20 digits.
abbrev pub decimal : ℕ → Bytes
decimal n = decimal_loop 20 n

-- `to_uppercase` of an ASCII text.
abbrev pub to_upper_byte : ℕ → ℕ
to_upper_byte c = if leb b'a' c && leb c b'z' then c - 32 else c

abbrev pub to_upper : Bytes → Bytes
to_upper [] = []
to_upper (c ∷ s) = to_upper_byte c ∷ to_upper s

-- `s.split(test)`, which gives one piece more than there are separators.
abbrev first_piece : ℕ → List Bytes → List Bytes
first_piece c [] = (c ∷ []) ∷ []
first_piece c (p ∷ ps) = (c ∷ p) ∷ ps

abbrev pub split_on : (ℕ → Bool) → Bytes → List Bytes
split_on p [] = [] ∷ []
split_on p (c ∷ s) = let later = split_on p s in if p c then [] ∷ later else first_piece c later

-- What stands before the first `c`: `s.split(c).next()`.
abbrev pub take_until : ℕ → Bytes → Bytes
take_until c [] = []
take_until c (x ∷ s) = if x == c then [] else x ∷ take_until c s
