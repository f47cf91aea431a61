-- ===== src/Tests/Config.antt =====
-- The configuration of a house with a battery and a relay.
use ha_ems.Prelude.{
  true, false, Option, none, some, [], ◌∷◌, String, same, pos, if◌then◌else◌, ◌≡◌, refl, Bool-cases,
  inl, inr, ap, same_iff, ◌≢◌,
}
use ha_ems.Policy.Ids.{strip}
use ha_ems.Adapter.Config.Values.{
  Value, null, boolean, int, float, text, sequence, mapping, dynamic_config_ref, nil, cons, Fields,
  end, field, Result, ok, err, Reader, compile_dynamic_value, lookup_field, require_mapping_value,
  get_value, ◌>>=◌, resolve_core_config_value,
}
use ha_ems.Adapter.Config.Sections.{build_section, compile_section, is_truthy}
use ha_ems.Adapter.Config.DevicePlans.{
  battery_capabilities, compile_core_capabilities_plan, compile_core_battery_device_plan,
  compile_core_relay_device_plan, compile_core_devices_plan,
}
use ha_ems.Adapter.Config.DeviceConfigs.{capabilities_attributes, battery_defaults}
use ha_ems.Adapter.Config.Roles.{
  compile_haeo_devices, compile_core_haeo_plan, compile_core_role_constraints_plan,
}
use ha_ems.Adapter.Config.Plan.{EmsPlan, parse_interval, compile_core_config_plan}
use ha_ems.Adapter.Config.CoreConfigs.{
  ConfigValues, materialize_core_config_direct, materialize_core_config_via_resolved_config,
}
use ha_ems.Adapter.Config.Resolved.{is_raw, IsStateReader}
use ha_ems.Adapter.Config.Loaded.{IsStr}
use ha_ems.Adapter.Config.Equal.{direct-resolved}

-- `str` of the texts, None and the Booleans of the house; it has no other values to print.
unfoldable str : Value → String
str (text t) = t
str null = "None"
str (boolean true) = "True"
str (boolean false) = "False"
str (int z) = "0"
str (float z) = "0.0"
str (sequence xs) = "[]"
str (mapping fs) = "{}"
str (dynamic_config_ref path entity_id kind default) = "DynamicConfigRef()"

differ : (a b : String) → same a b ≡ false → a ≢ b
differ a b h e = cc ((same_iff a b).1 e)

str_battery : (v : Value) → str v ≡ "BATTERY" → v ≡ text "BATTERY"
unfolding str
str_battery (text t) e = ap text e
str_battery (boolean true) e = absurd (cc e)
str_battery (boolean false) e = absurd (differ "False" "BATTERY" refl e)
str_battery _ e = absurd (cc e)

str_ev : (v : Value) → str v ≡ "EV_CHARGER" → v ≡ text "EV_CHARGER"
unfolding str
str_ev (text t) e = ap text e
str_ev (boolean true) e = absurd (cc e)
str_ev (boolean false) e = absurd (differ "False" "EV_CHARGER" refl e)
str_ev _ e = absurd (cc e)

str_relay : (v : Value) → str v ≡ "RELAY" → v ≡ text "RELAY"
unfolding str
str_relay (text t) e = ap text e
str_relay (boolean true) e = absurd (cc e)
str_relay (boolean false) e = absurd (differ "False" "RELAY" refl e)
str_relay _ e = absurd (cc e)

str-IsStr : IsStr str
unfolding str
str-IsStr = record { of_text = λ t. refl; battery = str_battery; ev = str_ev; relay = str_relay }

-- One entity is known.
abbrev states : Reader
states entity_id default = if same entity_id "input_number.deadband" then text "40" else default

states-IsStateReader : IsStateReader states
unfolding is_raw
states-IsStateReader entity_id default raw =
    elim (Bool-cases (same entity_id "input_number.deadband")) [
      | inl known ↦ rw known refl
      | inr other ↦ rw other raw
    ]

abbrev capabilities : Fields → Value
capabilities more = mapping (
    field "can_absorb_w" (boolean true) (
      field "can_produce_w" (boolean false) (
        field "uses_hard_off_lifecycle" (boolean false) (
          field "supports_primary_consuming_regulation" (boolean true) (
            field "supports_producing_regulation" (boolean false) (
              field "min_absorb_w" (int (pos 0))
                (field "max_absorb_w" (text "input_number.max_absorb") more)))))))

abbrev battery : Value
battery = mapping (
    field "kind" (text "BATTERY") (
      field "capabilities" (capabilities end) (
        field "policy"
          (mapping (field "priority" (int (pos 1)) (field "producing_priority" (int (pos 1)) end)))
          (field "guard"
            (mapping (
              field "soc" (text "sensor.soc") (
                field "min_cell_voltage_v" (text "sensor.cell") (
                  field "heartbeat" (text "sensor.heartbeat") (
                    field "protect_soc" (int (pos 5)) (
                      field "protect_soc_recovery_margin" null (
                        field "protect_min_cell_voltage_v" (float (pos 3000))
                          (field "protect_min_absorb_w" (int (pos 100)) end))))))))
            (field "adapter" (mapping (field "target_w" (text "number.battery_target") end))
              end)))))

abbrev relay : Value
relay = mapping (
    field "kind" (text "RELAY") (
      field "capabilities" (capabilities (field "step_w" (int (pos 2000)) end)) (
        field "policy"
          (mapping (
            field "priority" (text "input_number.relay_priority") (
              field "producing_priority" (int (pos 0)) (
                field "surplus_allowed" (boolean true) (
                  field "surplus_dispatch_mode" (text "fixed") (field "force_on" (text "") end))))))
          (field "adapter" (mapping (field "enabled" (text "switch.boiler") end)) end))))

abbrev house_ems : Value
house_ems = mapping (
    field "profiles"
      (mapping (
        field "control" (text "input_select.control") (
          field "goal" (text "input_select.goal")
            (field "forecast" (text "NONE") (field "guard" (text "NORMAL") end)))))
      (field "global_config"
        (mapping (
          field "deadband_w" (text "input_number.deadband") (
            field "ramp_w" (int (pos 500)) (
              field "strict_limit_w" null (
                field "surplus_freeze_s" (int (pos 60)) (
                  field "haeo_stale_timeout_s" (int (pos 300)) (
                    field "nz_battery_floor_default_w" (int (pos 100)) (
                      field "nz_battery_floor_ev_active_w" (int (pos 0)) (
                        field "primary_consuming_device_ids"
                          (sequence (cons (text "battery") (cons (text "battery") nil)))
                          end)))))))))
        (field "runtime"
          (mapping (
            field "grid_power_w" (text "sensor.grid") (
              field "quarter_energy_balance_kwh" (text "sensor.quarter")
                (field "pv_power_w" (text "sensor.pv") end))))
          (field "state"
            (mapping (
              field "surplus_freeze_until" (text "input_text.freeze")
                (field "active_surplus_devices" (text "input_text.active") end)))
            (field "devices" (mapping (field "battery" battery (field "RELAY1" relay end))) (
              field "role_constraints"
                (mapping (
                  field "default" (mapping (field "max_w" (text "input_number.max") end)) (
                    field "surplus"
                      (mapping (field "RELAY1" (mapping (field "max_w" (int (pos 900)) end)) end))
                      end)))
                (field "haeo"
                  (mapping (
                    field "devices"
                      (mapping (
                        field "battery"
                          (mapping (
                            field "power_active" (text "sensor.haeo")
                              (field "fresh_source" (text "sensor.fresh") end)))
                          end))
                      end))
                  end)))))))

abbrev plan_of : Result EmsPlan → Option EmsPlan
plan_of (ok plan) = some plan
plan_of (err e) = none

abbrev plan_or_empty : Option EmsPlan → EmsPlan
plan_or_empty (some plan) = plan
plan_or_empty none = record {
  profiles = end;
  interval_seconds = pos 0;
  diagnostics_interval_seconds = pos 0;
  global_config = end;
  primary_consuming_device_ids = nil;
  runtime = end;
  state = end;
  devices = end;
  haeo = null;
  role_constraints = end;
}

house_plan : EmsPlan
unfolding compile_core_config_plan
house_plan = plan_or_empty (plan_of (compile_core_config_plan str house_ems))

house_compiles : compile_core_config_plan str house_ems ≡ ok house_plan
unfolding house_plan compile_core_config_plan compile_core_devices_plan
    compile_core_battery_device_plan compile_core_relay_device_plan compile_section
    compile_core_haeo_plan compile_haeo_devices compile_core_role_constraints_plan is_truthy str
    get_value require_mapping_value lookup_field compile_dynamic_value strip parse_interval
house_compiles = refl

house_raw : is_raw house_ems ≡ true
unfolding is_raw
house_raw = refl

direct-resolved_example :
    (c : ConfigValues) × (materialize_core_config_direct str states house_plan ≡ ok c)
    × (materialize_core_config_via_resolved_config str states house_plan ≡ ok c)
direct-resolved_example =
    direct-resolved str str-IsStr states states-IsStateReader house_ems house_plan house_raw
      house_compiles

-- The file leaves `max_produce_w` out: the plan holds None for it, and that is built as the default.
max_produce_from_plan :
    (compile_core_capabilities_plan battery ("ems" ∷ []) battery_capabilities >>= λ plan.
    build_section str (some states) (mapping plan) (capabilities_attributes battery_defaults)
    >>= λ built. get_value (mapping built) "max_produce_w" null)
    ≡ ok (int (pos 4600))
unfolding compile_core_capabilities_plan compile_section build_section require_mapping_value
    get_value lookup_field compile_dynamic_value resolve_core_config_value is_truthy strip
max_produce_from_plan = refl

max_produce_from_file :
    (build_section str (some states) (capabilities end) (capabilities_attributes battery_defaults)
      >>= λ built. get_value (mapping built) "max_produce_w" (boolean false))
    ≡ ok null
unfolding build_section require_mapping_value get_value lookup_field resolve_core_config_value
    is_truthy strip
max_produce_from_file = refl
