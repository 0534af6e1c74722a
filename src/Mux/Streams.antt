-- ===== src/Mux/Streams.antt =====
-- mux.rs: the laws of the map of streams.
use krymux.Base.{ℕ, ◌≤◌, ◌≡◌, refl, List, [], ◌∷◌, some, none, ◌==◌, if◌then◌else◌, length, arith}
use krymux.Mux.State.{lookup, remove, insert}

pub lookup-remove :
    (k j : ℕ) (m : List (ℕ × ℕ)) → lookup j (remove k m) ≡ (if k == j then none else lookup j m)
lookup-remove k j [] = ground arith
lookup-remove k j ((i, r) ∷ m) = ground (arith, lookup-remove k j m)

pub lookup-insert :
    (k j r : ℕ) (m : List (ℕ × ℕ))
    → lookup j (insert k r m) ≡ (if k == j then some r else lookup j m)
lookup-insert k j r m = ground (arith, lookup-remove k j m)

pub remove_missing : (k : ℕ) (m : List (ℕ × ℕ)) → lookup k m ≡ none → remove k m ≡ m
remove_missing k [] h = refl
remove_missing k ((j, r) ∷ m) h = ground (arith, remove_missing k m)

pub length-remove-le : (k : ℕ) (m : List (ℕ × ℕ)) → length (remove k m) ≤ length m
length-remove-le k [] = omega arith
length-remove-le k ((j, r) ∷ m) = ground (arith, length-remove-le k m)
