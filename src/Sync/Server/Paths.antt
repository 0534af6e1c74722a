-- ===== src/Sync/Server/Paths.antt =====
-- sync/mod.rs, `safe_join` and `unique_tmp`: the paths that a client may name. A path is its text, with
-- `/` between components.
use krymux.Base.{
  ℕ, Option, none, some, [], ◌∷◌, ◌++◌, Bool, true, false, ◌||◌, ◌==◌, any, is_empty, Result, ok,
  err, if◌then◌else◌,
}
use krymux.Base.Bytes.{Bytes, codes, bytes_eq}
use krymux.Base.Text.{strip_prefix, split_on, decimal}

pub data PathError : Type 0 where
  nul_in_path : PathError
  unsafe_component escapes_root : Bytes → PathError

-- `'/'` and `'\\'`.
abbrev pub is_separator : ℕ → Bool
is_separator c = c == b'/' || c == 92

abbrev pub has_byte : ℕ → Bytes → Bool
has_byte c s = any (λ x. x == c) s

abbrev pub is_unsafe : Bytes → Bool
is_unsafe comp =
    is_empty comp || bytes_eq comp (codes ".") || bytes_eq comp (codes "..") || has_byte b':' comp

-- `Path::join`: an absolute path takes the place of the root.
abbrev pub join_path : Bytes → Bytes → Bytes
join_path root [] = root ++ codes "/"
join_path root (c ∷ rel) = if c == b'/' then c ∷ rel else root ++ codes "/" ++ c ∷ rel

abbrev at_boundary : Option Bytes → Bool
at_boundary none = false
at_boundary (some []) = true
at_boundary (some (c ∷ s)) = c == b'/'

-- `Path::starts_with`, which compares whole components.
abbrev pub path_starts_with : Bytes → Bytes → Bool
path_starts_with full root = at_boundary (strip_prefix full root)

unfoldable pub safe_join : Bytes → Bytes → Result PathError Bytes
safe_join root rel =
    if has_byte 0 rel
    then err nul_in_path
    else if any is_unsafe (split_on is_separator rel)
    then err (unsafe_component rel)
    else let full = join_path root rel in
      if path_starts_with full root then ok full else err (escapes_root rel)

-- The text of the error; `debug` is `{:?}` of a text.
abbrev pub path_error_text : (Bytes → Bytes) → PathError → Bytes
path_error_text debug nul_in_path = codes "NUL in path"
path_error_text debug (unsafe_component rel) = codes "unsafe path component in " ++ debug rel
path_error_text debug (escapes_root rel) = codes "path escapes root: " ++ debug rel

-- `n` is the next number of the process-wide sequence. The file name stands last in the path.
abbrev pub unique_tmp : Bytes → ℕ → Bytes
unique_tmp full n = full ++ codes "." ++ decimal n ++ codes ".sync-tmp"

-- `Path::parent` of a path with a file name: what stands before the last separator.
abbrev strip_name : Option Bytes → ℕ → Bytes → Option Bytes
strip_name (some p) c s = some (c ∷ p)
strip_name none c s = if c == b'/' then some [] else none

abbrev pub parent : Bytes → Option Bytes
parent [] = none
parent (c ∷ s) = strip_name (parent s) c s
