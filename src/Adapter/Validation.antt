-- ===== src/Adapter/Validation.antt =====
-- modules/ems_adapter/config_loader.py: the checks of a device's capabilities and of the limits of an EV
-- charger. A path is a list of its parts; a number is in thousandths.
pub mod Sound
pub mod Usable
use ha_ems.Prelude.{
  Bool, true, false, not, ◌&&◌, Option, none, some, List, [], ◌∷◌, ◌++◌, String, same, has_id, ℤ,
  pos, pos_part, ltb, ltb_ℤ, ◌/◌, inl, inr, if◌then◌else◌,
}
use ha_ems.NetZero.DerivedInputs.{scale}
use ha_ems.Domain.EvPower.{
  EvPowerError, EvCharger, ev_min_current_a_from_min_absorb_w, ev_max_current_a_from_max_absorb_w,
}
use ha_ems.Adapter.Config.Values.{
  Value, null, boolean, int, float, mapping, Fields, end, field, is_valid_entity_id, lookup_field,
}

pub data Severity : Type 0 where
  error warning : Severity

pub data Message : Type 0 where
  missing_required_field must_be_boolean not_entity_or_number requires_can_produce_w : Message
  required_when_can_produce_w below_min_produce_w below_min_absorb_w unknown_field : Message
  ignored_without_absorb ignored_without_produce must_be_positive derived_currents_reversed :
      Message
  must_be_at_least : ℤ → Message
  conversion_error : EvPowerError → Message

-- ConfigValidationIssue.
pub record ConfigValidationIssue : Type 0 where
  pub path : List String
  pub severity : Severity
  pub message : Message

abbrev pub issue : List String → Severity → Message → List ConfigValidationIssue
issue path severity message = record { path = path; severity = severity; message = message } ∷ []

-- `issues.append` under a condition.
abbrev pub issue_if : Bool → List String → Severity → Message → List ConfigValidationIssue
issue_if condition path severity message = if condition then issue path severity message else []

-- _is_number and `float(value)`.
abbrev pub number_of : Value → Option ℤ
number_of (int z) = some (scale 1000 z)
number_of (float z) = some z
number_of _ = none

-- `section.get(key)`.
unfoldable pub get_or_null : String → Fields → Value
unfolding lookup_field
get_or_null key fs = elim (lookup_field key fs) [ none ↦ null | some v ↦ v ]

abbrev pub is_present : Option Value → Bool
is_present none = false
is_present (some v) = true

unfoldable pub has_field : String → Fields → Bool
unfolding lookup_field
has_field key fs = is_present (lookup_field key fs)

abbrev pub is_true : Value → Bool
is_true (boolean b) = b
is_true _ = false

abbrev pub is_false : Value → Bool
is_false (boolean b) = not b
is_false _ = false

unfoldable pub validate_unknown_fields :
    Fields → List String → List String → List ConfigValidationIssue
validate_unknown_fields end section_path allowed = []
validate_unknown_fields (field key v fs) section_path allowed =
    issue_if (not (has_id key allowed)) (section_path ++ key ∷ []) error unknown_field
    ++ validate_unknown_fields fs section_path allowed

-- _validate_entity_or_number without `allowed_numbers`, for the value at the key.
unfoldable pub validate_number : List String → Option ℤ → Option Value → List ConfigValidationIssue
unfolding is_valid_entity_id
validate_number path min_value none = issue path error missing_required_field
validate_number path min_value (some value) =
    if is_valid_entity_id value then [] else elim (number_of value) [
      | none ↦ issue path error not_entity_or_number
      | some z ↦ elim min_value [
        | none ↦ []
        | some least ↦ issue_if (ltb_ℤ z least) path error (must_be_at_least least)
      ]
    ]

unfoldable pub validate_entity_or_number :
    Fields → List String → String → Option ℤ → List ConfigValidationIssue
unfolding validate_number
validate_entity_or_number container path key min_value =
    validate_number path min_value (lookup_field key container)

abbrev pub check_bool : List String → Option Value → List ConfigValidationIssue
check_bool path none = issue path error missing_required_field
check_bool path (some (boolean b)) = []
check_bool path (some _) = issue path error must_be_boolean

-- The loop over `bool_fields`.
unfoldable pub validate_bool_fields :
    Fields → List String → List String → List ConfigValidationIssue
validate_bool_fields capabilities path [] = []
validate_bool_fields capabilities path (key ∷ keys) =
    check_bool (path ++ key ∷ []) (lookup_field key capabilities)
    ++ validate_bool_fields capabilities path keys

abbrev pub allowed_capabilities_keys : List String
allowed_capabilities_keys =
    "can_absorb_w" ∷ "can_produce_w" ∷ "uses_hard_off_lifecycle"
    ∷ "supports_primary_consuming_regulation" ∷ "supports_producing_regulation" ∷ "min_absorb_w"
    ∷ "max_absorb_w" ∷ "step_w" ∷ "min_produce_w" ∷ "max_produce_w" ∷ []

abbrev pub bool_fields : List String
bool_fields =
    "can_absorb_w" ∷ "can_produce_w" ∷ "uses_hard_off_lifecycle"
    ∷ "supports_primary_consuming_regulation" ∷ "supports_producing_regulation" ∷ []

-- Both are numbers, and the first is less than the second.
abbrev pub is_below : Value → Value → Bool
is_below a b = elim (number_of a) [
  | none ↦ false
  | some x ↦ elim (number_of b) [ none ↦ false | some y ↦ ltb_ℤ x y ]
]

-- The loop over `entity_or_number_fields`; a device named EV_CHARGER needs no step.
unfoldable pub validate_numbers : Fields → List String → String → List ConfigValidationIssue
validate_numbers capabilities path device_id =
    validate_entity_or_number capabilities (path ++ "min_absorb_w" ∷ []) "min_absorb_w" none
    ++ validate_entity_or_number capabilities (path ++ "max_absorb_w" ∷ []) "max_absorb_w" none
    ++ (if same device_id "EV_CHARGER"
        then []
        else validate_entity_or_number capabilities (path ++ "step_w" ∷ []) "step_w"
            (some (pos 1000)))

abbrev pub when : Bool → List ConfigValidationIssue → List ConfigValidationIssue
when condition issues = if condition then issues else []

-- `capabilities.get('min_produce_w', 0)`.
unfoldable pub min_produce_of : Fields → Value
unfolding lookup_field
min_produce_of fs = elim (lookup_field "min_produce_w" fs) [ none ↦ int (pos 0) | some v ↦ v ]

-- The checks between two fields.
unfoldable pub validate_directions : Fields → List String → List ConfigValidationIssue
validate_directions capabilities path =
    issue_if
      (is_true (get_or_null "supports_producing_regulation" capabilities)
        && not (is_true (get_or_null "can_produce_w" capabilities)))
      (path ++ "supports_producing_regulation" ∷ []) error requires_can_produce_w
    ++ issue_if
        (is_true (get_or_null "can_produce_w" capabilities)
          && not (has_field "max_produce_w" capabilities))
        (path ++ "max_produce_w" ∷ []) error required_when_can_produce_w
    ++ when (has_field "min_produce_w" capabilities) (
        validate_entity_or_number capabilities (path ++ "min_produce_w" ∷ []) "min_produce_w"
          (some (pos 0)))
    ++ when (has_field "max_produce_w" capabilities) (
        validate_entity_or_number capabilities (path ++ "max_produce_w" ∷ []) "max_produce_w"
          (some (pos 0)))
    ++ issue_if (is_below (get_or_null "max_produce_w" capabilities) (min_produce_of capabilities))
        (path ++ "max_produce_w" ∷ []) error below_min_produce_w
    ++ issue_if
        (is_below (get_or_null "max_absorb_w" capabilities)
          (get_or_null "min_absorb_w" capabilities))
        (path ++ "max_absorb_w" ∷ []) error below_min_absorb_w

-- The two warnings.
unfoldable pub ignored_limits : Fields → List String → List ConfigValidationIssue
ignored_limits capabilities path =
    issue_if
      (is_false (get_or_null "can_absorb_w" capabilities) && has_field "max_absorb_w" capabilities)
      (path ++ "max_absorb_w" ∷ []) warning ignored_without_absorb
    ++ issue_if
        (is_false (get_or_null "can_produce_w" capabilities)
          && has_field "max_produce_w" capabilities)
        (path ++ "max_produce_w" ∷ []) warning ignored_without_produce

unfoldable pub validate_capabilities : Fields → String → List ConfigValidationIssue
validate_capabilities capabilities device_id =
    let path = "ems" ∷ "devices" ∷ device_id ∷ "capabilities" ∷ [] in
    validate_unknown_fields capabilities path allowed_capabilities_keys
    ++ validate_bool_fields capabilities path bool_fields
    ++ validate_numbers capabilities path device_id
    ++ validate_directions capabilities path
    ++ ignored_limits capabilities path

-- `ok` of _validation_result: no issue is an error.
unfoldable pub is_ok : List ConfigValidationIssue → Bool
is_ok [] = true
is_ok (i ∷ issues) = elim i.severity [ error ↦ false | warning ↦ is_ok issues ]

-- _validate_ev_watt_limits_match_adapter_resolution, for limits in milliwatts and the parameters of the
-- charger; the path is that of the device.
unfoldable pub ev_limit_issues : List String → ℤ → ℤ → EvCharger → List ConfigValidationIssue
ev_limit_issues path min_absorb_w max_absorb_w charger =
    if not (ltb_ℤ (pos 0) min_absorb_w)
    then issue (path ++ "capabilities" ∷ "min_absorb_w" ∷ []) error must_be_positive
    else elim (ev_min_current_a_from_min_absorb_w (pos_part min_absorb_w) charger) [
      | inl e ↦ issue (path ++ "adapter" ∷ []) error (conversion_error e)
      | inr low ↦ elim (ev_max_current_a_from_max_absorb_w (pos_part max_absorb_w) charger) [
        | inl e ↦ issue (path ++ "adapter" ∷ []) error (conversion_error e)
        | inr high ↦
            issue_if (ltb high low) (path ++ "adapter" ∷ "current_step_a" ∷ []) error
              derived_currents_reversed
      ]
    ]

-- The parameters of a charger, which is checked only if all five values are numbers. Its number of
-- phases is whole; a parameter below 0 is refused like 0.
unfoldable pub charger_of : ℤ → ℤ → ℤ → EvCharger
charger_of current_step_a phases voltage_v = record {
  phases = pos_part phases / 1000;
  voltage_v = pos_part voltage_v;
  current_step_a = pos_part current_step_a;
}

abbrev pub with_number : Value → (ℤ → List ConfigValidationIssue) → List ConfigValidationIssue
with_number v k = elim (number_of v) [ none ↦ [] | some z ↦ k z ]

unfoldable pub validate_ev_watt_limits : List String → Value → Value → List ConfigValidationIssue
unfolding get_or_null charger_of ev_limit_issues
validate_ev_watt_limits path (mapping capabilities) (mapping adapter) =
    with_number (get_or_null "min_absorb_w" capabilities) λ min_absorb_w.
      with_number (get_or_null "max_absorb_w" capabilities) λ max_absorb_w.
        with_number (get_or_null "current_step_a" adapter) λ current_step_a.
          with_number (get_or_null "phases" adapter) λ phases.
            with_number (get_or_null "voltage_v" adapter) λ voltage_v.
              ev_limit_issues path min_absorb_w max_absorb_w
                (charger_of current_step_a phases voltage_v)
validate_ev_watt_limits path _ _ = []
