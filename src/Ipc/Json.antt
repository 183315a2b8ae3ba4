-- ===== src/Ipc/Json.antt =====
-- The values that `json.loads` answers and `json.dumps` takes. The library itself, and the text methods
-- that the protocol uses, are an argument of the definitions.
use market_sentinel.Base.{String, Bool, Option, none, some, List, [], ◌∷◌, if◌then◌else◌}
use market_sentinel.Base.Eq.{string_eq, ◌==◌}

mutual
  -- A number is a finite float, or an integer that converts to one; `huge` is an integer for which
  -- `float` raises, and `not_finite` is what `NaN` and `Infinity` are read as.
  pub data Json (F : Type 0) : Type 0 where
    null : Json F
    flag : Bool → Json F
    number : F → Json F
    huge : Json F
    not_finite : Json F
    text : String → Json F
    array : Items F → Json F
    object : Fields F → Json F

  pub data Items (F : Type 0) : Type 0 where
    end : Items F
    item : Json F → Items F → Items F

  -- a `dict`, in the order of its keys
  pub data Fields (F : Type 0) : Type 0 where
    empty : Fields F
    field : String → Json F → Fields F → Fields F

-- what `json.loads` does: it raises `JSONDecodeError`, raises otherwise, or answers
pub data Loaded (F : Type 0) : Type 0 where
  malformed : Loaded F
  overflow : Loaded F
  value : Json F → Loaded F

pub record JsonLibrary (F : Type 0) : Type 0 where
  pub strip : String → String
  pub loads : String → Loaded F
  -- `f"{v!r}"` of a value, if any, and `f"{sorted(keys)}"`
  pub repr : Option (Json F) → String
  pub sorted_keys : List String → String

module _ {F : Type 0} where
  -- `d.get(key)`
  unfoldable pub get_field : String → Fields F → Option (Json F)
  get_field key empty = none
  get_field key (field k v fields) =
      let rest = get_field key fields in if k == key then some v else rest

  abbrev pub keys_of : Fields F → List String
  keys_of empty = []
  keys_of (field k v fields) = k ∷ keys_of fields

  -- dictionary and list displays
  abbrev pub fields_of : List (String × Json F) → Fields F
  fields_of [] = empty
  fields_of ((k, v) ∷ fields) = field k v (fields_of fields)

  abbrev pub dict : List (String × Json F) → Json F
  dict fields = object (fields_of fields)

  abbrev pub items_of : List (Json F) → Items F
  items_of [] = end
  items_of (v ∷ vs) = item v (items_of vs)

  -- `v if isinstance(v, str) else None`
  abbrev pub string_of : Option (Json F) → Option String
  string_of (some (text s)) = some s
  string_of _ = none

  -- an optional number or flag, `null` where it is None
  abbrev pub number_or_null : Option F → Json F
  number_or_null none = null
  number_or_null (some x) = number x

  -- a field that is there only where its value is not None
  abbrev pub field_if : {A : Type 0} → String → (A → Json F) → Option A → List (String × Json F)
  field_if key encode none = []
  field_if key encode (some a) = (key, encode a) ∷ []

  -- `payload[key] = True` under a condition
  abbrev pub flag_if : String → Bool → List (String × Json F)
  flag_if key b = if b then (key, flag b) ∷ [] else []
