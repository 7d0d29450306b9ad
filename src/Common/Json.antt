-- ===== src/Common/Json.antt =====
-- JSON values as Python holds them. Numbers are integers; a timestamp counts milliseconds.
use mathlib.Core.Path.{◌≡◌, refl, ap}
use mathlib.Core.Bool.{Bool, true, false}
use mathlib.Core.Option.{Option, none, some}
use mathlib.Core.List.{List, [], ◌∷◌}
use Prim.Native.Nat.{ℕ}
use Prim.Native.String.{String}
use homelink.Common.Int.{ℤ, pos}
use homelink.Common.Exc.{Result, ok, raise, type_error, value_error, key_error}
use homelink.Common.Dict
use homelink.Common.Dict.{Dict}
use homelink.Common.Text.{truthy}

mutual
  pub data Value : Type 0 where
    null : Value
    bool : Bool → Value
    num : ℤ → Value
    str : String → Value
    obj : Fields → Value
    arr : Items → Value

  pub data Items : Type 0 where
    stop : Items
    item_then : Value → Items → Items

  pub data Fields : Type 0 where
    done : Fields
    entry : String → Value → Fields → Fields

-- A `dict` with text keys.
abbrev pub Message : Type 0
Message = Dict Value

abbrev pub to_dict : Fields → Message
to_dict done = []
to_dict (entry k v fields) = (k, v) ∷ to_dict fields

abbrev pub to_fields : Message → Fields
to_fields [] = done
to_fields ((k, v) ∷ m) = entry k v (to_fields m)

pub to_dict-to_fields : (m : Message) → to_dict (to_fields m) ≡ m
to_dict-to_fields [] = refl
to_dict-to_fields ((k, v) ∷ m) = ap (λ r. (k, v) ∷ r) (to_dict-to_fields m)

abbrev pub to_list : Items → List Value
to_list stop = []
to_list (item_then v items) = v ∷ to_list items

abbrev pub to_items : List Value → Items
to_items [] = stop
to_items (v ∷ vs) = item_then v (to_items vs)

-- What Python's built-in functions do with text that this model leaves open.
pub record Python : Type 0 where
  -- `str(v)` of what is no text.
  pub repr : Value → String
  -- `int(s)` of a text; `none` where it raises `ValueError`.
  pub parse_int : String → Option ℤ

abbrev or_value_error : Option ℤ → Result ℤ
or_value_error none = raise value_error
or_value_error (some z) = ok z

-- `m.get(key, default)`
unfoldable pub get : Message → String → Value → Value
unfolding Dict.lookup
get m key default = elim (Dict.lookup key m) [ none ↦ default | some v ↦ v ]

-- `m[key]`
unfoldable pub item : Message → String → Result Value
unfolding Dict.lookup
item m key = elim (Dict.lookup key m) [ none ↦ raise key_error | some v ↦ ok v ]

-- `bool(v)`
abbrev pub is_true : Value → Bool
is_true null = false
is_true (bool b) = b
is_true (num (pos ℕ.zero)) = false
is_true (num _) = true
is_true (str s) = truthy s
is_true (arr stop) = false
is_true (arr _) = true
is_true (obj done) = false
is_true (obj _) = true

module _ (py : Python) where
  -- `str(v)`
  unfoldable pub to_str : Value → String
  to_str (str s) = s
  to_str v = py.repr v

  -- `int(v)`
  unfoldable pub to_int : Value → Result ℤ
  to_int (num z) = ok z
  to_int (bool true) = ok (pos 1)
  to_int (bool false) = ok (pos 0)
  to_int (str s) = or_value_error (py.parse_int s)
  to_int v = raise type_error

-- A value as the key of a dict: a list or a dict cannot be one. A key that is no text is taken
-- for its text.
unfoldable pub key_of : Python → Value → Result String
unfolding to_str
key_of py (arr parts) = raise type_error
key_of py (obj pairs) = raise type_error
key_of py v = ok (to_str py v)

-- What a value is in a comparison with a number.
unfoldable pub as_number : Value → Result ℤ
as_number (num z) = ok z
as_number (bool true) = ok (pos 1)
as_number (bool false) = ok (pos 0)
as_number v = raise type_error
