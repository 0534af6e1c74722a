-- ===== src/Compress.antt =====
-- crates/krymux/src/compress.rs: algorithm names, the dictionary registry, negotiation and the
-- sniffing of content that is compressed already.
pub mod Negotiation
mod Tests
use mathlib.Core.Option
use krymux.Base.{
  ℕ, ◌+◌, ◌≤◌, List, [], ◌∷◌, ◌++◌, Bool, true, false, ◌&&◌, ◌||◌, Option, none, some, length, any,
  all, take, drop, leb, ltb, ◌==◌, if◌then◌else◌, is_empty,
}
use krymux.Base.Bytes.{Bytes, bytes_eq, codes}
use krymux.Base.Text.{strip_prefix, starts_with, find, is_hex_digit, parse_unsigned}

abbrev pub algo_none : Bytes
algo_none = codes "none"

abbrev pub algo_deflate : Bytes
algo_deflate = codes "deflate"

abbrev pub algo_brotli : Bytes
algo_brotli = codes "brotli"

abbrev pub algo_zstd : Bytes
algo_zstd = codes "zstd"

abbrev pub algo_zstdd : Bytes
algo_zstdd = codes "zstdd"

pub record ZstdDictEntry : Type 0 where
  pub bytes : Bytes
  pub name : Bytes

-- The build's `zstd` feature and the process-global registry.
pub record Registry : Type 0 where
  pub zstd_feature : Bool
  pub zstd_dict : Option ZstdDictEntry

-- `fingerprint` stands for the first 8 hex digits of the dictionary's SHA-256.
unfoldable pub set_zstd_dictionary : (Bytes → Bytes) → Registry → Bytes → Registry × Bytes
set_zstd_dictionary fingerprint r bytes =
    let name = algo_zstdd ++ (b':' ∷ fingerprint bytes) in
    if is_empty bytes
    then (r, [])
    else if r.zstd_feature
    then (record r { zstd_dict = some (record { bytes = bytes; name = name }) }, name)
    else (r, [])

unfoldable pub zstdd_name : Registry → Option Bytes
zstdd_name r = if r.zstd_feature then Option.map (λ d. d.name) r.zstd_dict else none

-- The dictionary's bytes, only when `algo` is exactly its name.
unfoldable pub zstdd_bytes_for : Registry → Bytes → Option Bytes
zstdd_bytes_for r algo = elim r.zstd_dict [
  | none ↦ none
  | some d ↦ if bytes_eq d.name algo then some d.bytes else none
]

unfoldable pub is_zstdd : Bytes → Bool
is_zstdd algo = elim (strip_prefix algo algo_zstdd) [
  | some rest ↦ length rest == 9 && starts_with rest (b':' ∷ []) && all is_hex_digit (drop 1 rest)
  | none ↦ false
]

unfoldable pub supported : Registry → List Bytes
supported r =
    let base : List Bytes = algo_none ∷ algo_deflate ∷ algo_brotli ∷ [] in
    if r.zstd_feature
    then elim (zstdd_name r) [
      | some name ↦ base ++ algo_zstd ∷ name ∷ []
      | none ↦ base ++ algo_zstd ∷ []
    ]
    else base

unfoldable pub base_algo : Bytes → Bytes
base_algo requested = elim (find requested b':') [ none ↦ requested | some i ↦ take i requested ]

unfoldable pub parse_level : Bytes → Option ℕ
parse_level requested = if is_zstdd requested then none else elim (find requested b':') [
  | none ↦ none
  | some i ↦ elim (parse_unsigned 2147483647 (drop (i + 1) requested)) [
    | none ↦ none
    | some lvl ↦ if leb 1 lvl && leb lvl 22 then some lvl else none
  ]
]

unfoldable pub pick_zstdd : Registry → List Bytes → Option Bytes
pick_zstdd r peer_supported = elim (zstdd_name r) [
  | none ↦ none
  | some name ↦ if any (λ p. bytes_eq p name) peer_supported then some name else none
]

-- The closure `pick`, called with `zstd`, `brotli` or `deflate`.
unfoldable pub pick : List Bytes → Bytes → Option Bytes
pick peer_supported a = if any (λ p. bytes_eq p a) peer_supported then some a else none

abbrev pub or_else : Option Bytes → Option Bytes → Option Bytes
or_else (some a) b = some a
or_else none b = b

abbrev pub unwrap_or_none : Option Bytes → Bytes
unwrap_or_none (some a) = a
unwrap_or_none none = algo_none

unfoldable pub negotiate_zstdd : Registry → Bytes → List Bytes → Bytes
negotiate_zstdd r requested peer_supported = elim (zstdd_name r) [
  | some name ↦
      if bytes_eq requested name && any (λ p. bytes_eq p name) peer_supported
      then name
      else unwrap_or_none (pick peer_supported algo_zstd)
  | none ↦ unwrap_or_none (pick peer_supported algo_zstd)
]

unfoldable pub negotiate : Registry → Bytes → List Bytes → Bytes
negotiate r requested peer_supported =
    let base = base_algo requested in
    if is_empty base || bytes_eq base algo_none
    then algo_none
    else if bytes_eq base (codes "auto")
    then unwrap_or_none (
        or_else (pick_zstdd r peer_supported) (
          or_else (pick peer_supported algo_zstd)
            (or_else (pick peer_supported algo_deflate) (pick peer_supported algo_brotli))))
    else if bytes_eq base algo_zstd
    then unwrap_or_none (or_else (pick_zstdd r peer_supported) (pick peer_supported algo_zstd))
    else if bytes_eq base algo_zstdd
    then (if r.zstd_feature then negotiate_zstdd r requested peer_supported else algo_none)
    else if bytes_eq base algo_brotli
    then unwrap_or_none (pick peer_supported algo_brotli)
    else if bytes_eq base algo_deflate
    then unwrap_or_none (pick peer_supported algo_deflate)
    else algo_none

abbrev pub magic_prefixes : List Bytes
magic_prefixes =
    (0x1f ∷ 0x8b ∷ [])
    ∷ (0x28 ∷ 0xb5 ∷ 0x2f ∷ 0xfd ∷ [])
    ∷ (0x50 ∷ 0x4b ∷ 0x03 ∷ 0x04 ∷ [])
    ∷ (0x89 ∷ 0x50 ∷ 0x4e ∷ 0x47 ∷ [])
    ∷ (0xff ∷ 0xd8 ∷ 0xff ∷ [])
    ∷ (0x37 ∷ 0x7a ∷ 0xbc ∷ 0xaf ∷ [])
    ∷ (0x52 ∷ 0x61 ∷ 0x72 ∷ 0x21 ∷ [])
    ∷ (0x25 ∷ 0x50 ∷ 0x44 ∷ 0x46 ∷ [])
    ∷ (0x42 ∷ 0x5a ∷ 0x68 ∷ [])
    ∷ []

unfoldable pub looks_precompressed : Bytes → Bool
looks_precompressed chunk =
    if ltb (length chunk) 4
    then false
    else if any (λ magic. starts_with chunk magic) magic_prefixes
    then true
    else leb 12 (length chunk) && bytes_eq (take 4 (drop 4 chunk)) (codes "ftyp")
