-- ===== src/Base/Json.antt =====
-- The JSON values that `serde_json` hands over, and its accessors as the code uses them. Parsing
-- and printing are not here: they are parameters of the definitions that use them.
use Prim.Native.Nat.{ℕ}
use mathlib.Core.List.{List, [], ◌∷◌}
use mathlib.Core.Bool.{Bool}
use mathlib.Core.Option.{Option, none, some}
use krymux.Base.Tests.{if◌then◌else◌}
use krymux.Base.Bytes.{Bytes, bytes_eq}

-- `number` is a number that fits a u64, `other_number` any other, by its text.
mutual
  pub data Json : Type 0 where
    null : Json
    bool : Bool → Json
    number : ℕ → Json
    other_number : Bytes → Json
    string : Bytes → Json
    array : Items → Json
    object : Fields → Json

  pub data Items : Type 0 where
    nil : Items
    cons : Json → Items → Items

  pub data Fields : Type 0 where
    end : Fields
    field : Bytes → Json → Fields → Fields

-- `Map::get`.
abbrev pub lookup_field : Fields → Bytes → Option Json
lookup_field end k = none
lookup_field (field j v fs) k = if bytes_eq j k then some v else lookup_field fs k

-- `Value::get` with a key: `None` for a missing key and for a value that is no object.
abbrev pub get : Json → Bytes → Option Json
get (object fs) k = lookup_field fs k
get _ k = none

abbrev pub or_null : Option Json → Json
or_null none = null
or_null (some v) = v

-- `value[key]`: null where `get` finds nothing.
abbrev pub index : Json → Bytes → Json
index v k = or_null (get v k)

abbrev pub as_u64 : Json → Option ℕ
as_u64 (number n) = some n
as_u64 _ = none

abbrev pub as_str : Json → Option Bytes
as_str (string s) = some s
as_str _ = none

abbrev pub as_bool : Json → Option Bool
as_bool (bool b) = some b
as_bool _ = none

-- The strings of an array, others left out: `a.iter().filter_map(|v| v.as_str())`.
abbrev pub string_items : Items → List Bytes
string_items nil = []
string_items (cons (string s) vs) = s ∷ string_items vs
string_items (cons v vs) = string_items vs

abbrev pub unwrap_or {ℓ} : {A : Type ℓ} → Option A → A → A
unwrap_or none d = d
unwrap_or (some a) d = a

-- `json!({...})`: an object with these members.
abbrev pub members : List (Bytes × Json) → Fields
members [] = end
members ((k, v) ∷ fs) = field k v (members fs)

abbrev pub items : List Json → Items
items [] = nil
items (v ∷ vs) = cons v (items vs)

-- The elements of an array, and the members of an object: `as_array` and `as_object`.
abbrev pub item_list : Items → List Json
item_list nil = []
item_list (cons v vs) = v ∷ item_list vs

abbrev pub member_list : Fields → List (Bytes × Json)
member_list end = []
member_list (field k v fs) = (k, v) ∷ member_list fs

abbrev pub as_array : Json → Option (List Json)
as_array (array vs) = some (item_list vs)
as_array _ = none

abbrev pub as_object : Json → Option (List (Bytes × Json))
as_object (object fs) = some (member_list fs)
as_object _ = none
