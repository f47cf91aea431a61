-- ===== src/Adapter/Config/Values.antt =====
-- modules/ems_adapter/config_loader.py: the values that a YAML file and Home Assistant give, a
-- reference to an entity among them, and the functions on a single value.
use ha_ems.Prelude.{
  Bool, true, false, not, ◌&&◌, ◌||◌, Option, none, some, List, String, same, ℤ, ◌==◌,
  if◌then◌else◌, ◌≡◌, refl,
}
use ha_ems.Policy.Ids.{strip}
use Prim.Native.Char.{Char, code}

-- `value_type` of a reference.
pub data ValueType : Type 0 where
  bool_type int_type float_type str_type : ValueType

-- A float is a number of thousandths. A list and a tuple are a `sequence`, a dictionary with its
-- distinct keys is a `mapping`; a dotted path is the list of its parts.
mutual
  pub data Value : Type 0 where
    null : Value
    boolean : Bool → Value
    int : ℤ → Value
    float : ℤ → Value
    text : String → Value
    sequence : Items → Value
    mapping : Fields → Value
    dynamic_config_ref :
        (path : List String) (entity_id : String) (value_type : ValueType) (default : Value) → Value

  pub data Items : Type 0 where
    nil : Items
    cons : Value → Items → Items

  pub data Fields : Type 0 where
    end : Fields
    field : String → Value → Fields → Fields

-- The exceptions: ValueError of _require_mapping_value, TypeError or AttributeError of a value that
-- is no dictionary or cannot be iterated, ValueError of the intervals.
pub data ConfigError : Type 0 where
  missing_section missing_field : String → ConfigError
  not_a_mapping not_iterable : ConfigError
  interval_not_numeric interval_too_short : ConfigError

pub data Result {ℓ} (A : Type ℓ) : Type ℓ where
  ok : A → Result A
  err : ConfigError → Result A

-- An error ends the rest of a function.
infixl 5 ◌>>=◌
abbrev pub ◌>>=◌ {ℓ κ} :
    {A : Type ℓ} {B : Type κ} (step : Result A) (rest : A → Result B) → Result B
ok value >>= rest = rest value
err cause >>= rest = err cause

-- `value in (None, 'unknown', 'unavailable', 'none', '')`.
unfoldable pub is_missing : Value → Bool
is_missing null = true
is_missing (text t) = same t "unknown" || same t "unavailable" || same t "none" || same t ""
is_missing _ = false

-- `text.split('.', 1)`, for a text with a dot.
unfoldable pub after_char : Char → Option (String × String) → Option (String × String)
after_char c none = none
after_char c (some (domain, object_id)) = some (String.◌∷◌ c domain, object_id)

unfoldable pub split_dot : String → Option (String × String)
unfolding after_char
split_dot String.[] = none
split_dot (String.◌∷◌ c s) =
    let rest = split_dot s in if code c == 46 then some ("", s) else after_char c rest

unfoldable pub is_valid_entity_id : Value → Bool
unfolding split_dot
is_valid_entity_id (text t) = elim (split_dot (strip t)) [
  | none ↦ false
  | some (domain, object_id) ↦ not (same domain "") && not (same object_id "")
]
is_valid_entity_id _ = false

unfoldable pub dynamic_value_type_for_default : Value → ValueType
dynamic_value_type_for_default (boolean b) = ValueType.bool_type
dynamic_value_type_for_default (int z) = ValueType.int_type
dynamic_value_type_for_default (float z) = ValueType.float_type
dynamic_value_type_for_default _ = ValueType.str_type

-- The text of a value that is an entity's identifier.
abbrev pub text_of : Value → String
text_of (text t) = t
text_of _ = ""

unfoldable pub compile_dynamic_value : Value → List String → Value → Value
unfolding is_missing is_valid_entity_id dynamic_value_type_for_default
compile_dynamic_value value path default =
    if is_missing value
    then default
    else if is_valid_entity_id value
    then dynamic_config_ref path (text_of value) (dynamic_value_type_for_default default) default
    else value

-- `read_entity(entity_id, default)`.
abbrev pub Reader : Type 0
Reader = String → Value → Value

-- The state of an entity, or the default where it has none.
unfoldable pub read_or : Reader → String → Value → Value
unfolding is_missing
read_or read_entity entity_id default =
    let state = read_entity entity_id default in if is_missing state then default else state

unfoldable mutual
  pub materialize_dynamic_value : Reader → Value → Value
  materialize_dynamic_value read (dynamic_config_ref path entity_id kind default) =
      read_or read entity_id default
  materialize_dynamic_value read (mapping fs) = mapping (materialize_fields read fs)
  materialize_dynamic_value read (sequence xs) = sequence (materialize_items read xs)
  materialize_dynamic_value read null = null
  materialize_dynamic_value read (boolean b) = boolean b
  materialize_dynamic_value read (int z) = int z
  materialize_dynamic_value read (float z) = float z
  materialize_dynamic_value read (text t) = text t

  pub materialize_items : Reader → Items → Items
  materialize_items read nil = nil
  materialize_items read (cons x xs) =
      cons (materialize_dynamic_value read x) (materialize_items read xs)

  pub materialize_fields : Reader → Fields → Fields
  materialize_fields read end = end
  materialize_fields read (field k v fs) =
      field k (materialize_dynamic_value read v) (materialize_fields read fs)

-- The part of _resolve_core_config_value for a value that is no reference.
unfoldable pub resolve_constant : Value → Option Reader → Value → Value
unfolding is_missing is_valid_entity_id read_or
resolve_constant value read default =
    if is_missing value
    then default
    else if is_valid_entity_id value
    then elim read [ none ↦ value | some read_entity ↦ read_or read_entity (text_of value) default ]
    else value

unfoldable pub resolve_core_config_value : Value → Option Reader → Value → Value
unfolding resolve_constant
resolve_core_config_value (dynamic_config_ref path entity_id kind own) none default = own
resolve_core_config_value (dynamic_config_ref path entity_id kind own) (some read) default =
    read_or read entity_id own
resolve_core_config_value null read default = resolve_constant null read default
resolve_core_config_value (boolean b) read default = resolve_constant (boolean b) read default
resolve_core_config_value (int z) read default = resolve_constant (int z) read default
resolve_core_config_value (float z) read default = resolve_constant (float z) read default
resolve_core_config_value (text t) read default = resolve_constant (text t) read default
resolve_core_config_value (sequence xs) read default = resolve_constant (sequence xs) read default
resolve_core_config_value (mapping fs) read default = resolve_constant (mapping fs) read default

unfoldable pub lookup_field : String → Fields → Option Value
lookup_field key end = none
lookup_field key (field k v fs) =
    let rest = lookup_field key fs in if same k key then some v else rest

unfoldable pub require_mapping_value : Value → String → Result Value
unfolding lookup_field
require_mapping_value (mapping fs) key = elim (lookup_field key fs) [
  | none ↦ err (missing_field key)
  | some v ↦ ok v
]
require_mapping_value _ key = err (missing_section key)

-- `section.get(key, default)`.
unfoldable pub get_value : Value → String → Value → Result Value
unfolding lookup_field
get_value (mapping fs) key default = elim (lookup_field key fs) [
  | none ↦ ok default
  | some v ↦ ok v
]
get_value _ key default = err not_a_mapping

entity_with_spaces : is_valid_entity_id (text " sensor.grid_power ") ≡ true
unfolding is_valid_entity_id strip
entity_with_spaces = refl

no_object : is_valid_entity_id (text "sensor.") ≡ false
unfolding is_valid_entity_id strip
no_object = refl
