-- ===== src/Tests/Validation.antt =====
-- The checks of a relay's capabilities and of an EV charger's limits.
use ha_ems.Prelude.{true, false, [], ◌∷◌, pos, ◌≡◌, ◌↔◌, refl, ltb_ℤ, has_id}
use ha_ems.Policy.Ids.{strip}
use ha_ems.Domain.EvPower.{
  EvCharger, check_charger, ev_min_current_a_from_min_absorb_w, ev_max_current_a_from_max_absorb_w,
  floor_to_step, ceil_to_step,
}
use ha_ems.Adapter.Config.Values.{
  int, boolean, text, Fields, field, end, lookup_field, is_valid_entity_id,
}
use ha_ems.Adapter.Validation.{
  ev_limit_issues, validate_capabilities, validate_bool_fields, validate_unknown_fields,
  validate_numbers, validate_directions, validate_entity_or_number, ignored_limits, is_ok,
  get_or_null, has_field, min_produce_of,
}
use ha_ems.Adapter.Validation.Sound.{AlwaysConverts, ev_limits_exact}
use ha_ems.Adapter.Validation.Usable.{IsUsable, validate_capabilities-IsUsable}

-- Three phases of 230 V with steps of 1 A.
abbrev charger : EvCharger
charger = record { phases = 3; voltage_v = 230000; current_step_a = 1000 }

ev_limits_exact_example :
    (ev_limit_issues ("ems" ∷ []) (pos 4140000) (pos 11040000) charger ≡ [])
    ↔ ((ltb_ℤ (pos 0) (pos 4140000) ≡ true) × AlwaysConverts 4140000 11040000 charger)
ev_limits_exact_example = ev_limits_exact ("ems" ∷ []) (pos 4140000) (pos 11040000) charger

limits_pass : ev_limit_issues ("ems" ∷ []) (pos 4140000) (pos 11040000) charger ≡ []
unfolding ev_limit_issues ev_min_current_a_from_min_absorb_w ev_max_current_a_from_max_absorb_w
    check_charger floor_to_step ceil_to_step
limits_pass = refl

abbrev relay_capabilities : Fields
relay_capabilities = field "can_absorb_w" (boolean true) (
    field "can_produce_w" (boolean false) (
      field "uses_hard_off_lifecycle" (boolean false) (
        field "supports_primary_consuming_regulation" (boolean false) (
          field "supports_producing_regulation" (boolean false) (
            field "min_absorb_w" (int (pos 2000)) (
              field "max_absorb_w" (text "input_number.max_absorb")
                (field "step_w" (int (pos 2000)) end)))))))

relay_passes : is_ok (validate_capabilities relay_capabilities "RELAY1") ≡ true
unfolding validate_capabilities validate_bool_fields validate_unknown_fields validate_numbers
    validate_directions validate_entity_or_number ignored_limits is_ok get_or_null has_field
    min_produce_of lookup_field is_valid_entity_id strip has_id
relay_passes = refl

validate_capabilities-IsUsable_example : IsUsable relay_capabilities
validate_capabilities-IsUsable_example =
    validate_capabilities-IsUsable relay_capabilities "RELAY1" relay_passes
