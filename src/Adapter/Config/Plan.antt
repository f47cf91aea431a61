-- ===== src/Adapter/Config/Plan.antt =====
-- modules/ems_adapter/config_loader.py: compile_core_config_plan_from_grouped_config, from the
-- normalised configuration on and up to `grouped_config_plan`.
use ha_ems.Prelude.{List, [], ◌∷◌, String, ℤ, pos, ltb_ℤ, if◌then◌else◌}
use ha_ems.NetZero.DerivedInputs.{scale}
use ha_ems.Adapter.Config.Values.{
  ◌>>=◌, Value, null, int, float, text, sequence, mapping, Items, nil, cons, Fields, end, field,
  Result, ok, err, not_iterable, interval_not_numeric, interval_too_short, compile_dynamic_value,
  get_value, require_mapping_value,
}
use ha_ems.Adapter.Config.Sections.{Entry, entry, defaulted, compile_section, is_truthy}
use ha_ems.Adapter.Config.DevicePlans.{compile_core_devices_plan}
use ha_ems.Adapter.Config.Roles.{compile_core_haeo_plan, compile_core_role_constraints_plan}

abbrev pub ems_path : String → List String
ems_path section = "ems" ∷ section ∷ []

abbrev pub profiles_entries : List Entry
profiles_entries =
    entry "control" (text "")
    ∷ entry "goal" (text "")
    ∷ entry "forecast" (text "")
    ∷ entry "guard" (text "")
    ∷ []

-- All of the section but `primary_consuming_device_ids`.
abbrev pub global_entries : List Entry
global_entries =
    entry "deadband_w" (int (pos 50))
    ∷ entry "ramp_w" (int (pos 1000))
    ∷ entry "strict_limit_w" (int (pos 4600))
    ∷ record {
      key = "default_sp_w";
      presence = defaulted (float (pos 100000));
      default = float (pos 100000);
    }
    ∷ entry "surplus_freeze_s" (int (pos 30))
    ∷ record {
      key = "battery_heartbeat_timeout_s";
      presence = defaulted (float (pos 360000));
      default = float (pos 360000);
    }
    ∷ entry "haeo_stale_timeout_s" (int (pos 300))
    ∷ entry "nz_battery_floor_default_w" (float (pos 100000))
    ∷ entry "nz_battery_floor_ev_active_w" (float (pos 0))
    ∷ []

abbrev pub runtime_entries : List Entry
runtime_entries =
    entry "grid_power_w" (int (pos 0))
    ∷ entry "quarter_energy_balance_kwh" (int (pos 0))
    ∷ entry "pv_power_w" (int (pos 0))
    ∷ []

abbrev pub state_entries : List Entry
state_entries =
    entry "surplus_freeze_until" (text "") ∷ entry "active_surplus_devices" (text "") ∷ []

-- _parse_policy_engine_interval_seconds and its counterpart for the diagnostics, in thousandths of a
-- second: the default and the least interval are arguments.
unfoldable pub parse_interval : ℤ → ℤ → Value → Result ℤ
parse_interval default least null = ok default
parse_interval default least (int z) =
    let seconds = scale 1000 z in if ltb_ℤ seconds least then err interval_too_short else ok seconds
parse_interval default least (float z) = if ltb_ℤ z least then err interval_too_short else ok z
parse_interval default least _ = err interval_not_numeric

-- `policy_engine.get(key, default) if isinstance(policy_engine, dict) else default`, parsed.
unfoldable pub policy_engine_interval : Value → String → ℤ → ℤ → Result ℤ
unfolding parse_interval get_value
policy_engine_interval (mapping fs) key default least = do
  raw ← get_value (mapping fs) key (float default)
  parse_interval default least raw
policy_engine_interval _ key default least = parse_interval default least (float default)

-- `items or ()` in a loop: a text gives its characters and a dictionary its keys.
unfoldable pub keys_of : Fields → Items
keys_of end = nil
keys_of (field k v fs) = cons (text k) (keys_of fs)

unfoldable pub characters_of : String → Items
characters_of String.[] = nil
characters_of (String.◌∷◌ c s) = cons (text (String.◌∷◌ c "")) (characters_of s)

unfoldable pub iterate : Value → Result Items
unfolding keys_of characters_of is_truthy
iterate (sequence xs) = ok xs
iterate (mapping fs) = ok (keys_of fs)
iterate (text t) = ok (characters_of t)
iterate value = if is_truthy value then err not_iterable else ok nil

-- The paths leave out the index of the item.
unfoldable pub compile_device_ids : Items → Items
compile_device_ids nil = nil
compile_device_ids (cons item items) =
    cons
      (compile_dynamic_value item ("ems" ∷ "global_config" ∷ "primary_consuming_device_ids" ∷ [])
        (text ""))
      (compile_device_ids items)

-- `ems.get(key)`, compiled by a table.
unfoldable pub compile_ems_section : Value → String → List Entry → Result Fields
unfolding get_value
compile_ems_section ems key entries = do
  section ← get_value ems key null
  compile_section (ems_path key) section entries

-- _compile_core_devices_plan of a value that may not be a dictionary.
unfoldable pub compile_devices : (Value → String) → Value → Result Fields
compile_devices str (mapping devices) = compile_core_devices_plan str devices
compile_devices str _ = ok end

-- `compiled['ems']`.
pub record EmsPlan : Type 0 where
  pub profiles : Fields
  pub interval_seconds : ℤ
  pub diagnostics_interval_seconds : ℤ
  pub global_config : Fields
  pub primary_consuming_device_ids : Items
  pub runtime : Fields
  pub state : Fields
  pub devices : Fields
  pub haeo : Value
  pub role_constraints : Fields

unfoldable pub compile_core_config_plan : (Value → String) → Value → Result EmsPlan
unfolding get_value compile_ems_section policy_engine_interval iterate compile_device_ids
    compile_devices
compile_core_config_plan str ems = do
  devices ← get_value ems "devices" (mapping end)
  role_constraints ← get_value ems "role_constraints" (mapping end)
  policy_engine ← get_value ems "policy_engine" (mapping end)
  profiles ← compile_ems_section ems "profiles" profiles_entries
  interval ← policy_engine_interval policy_engine "interval_seconds" (pos 5000) (pos 2000)
  diagnostics ←
      policy_engine_interval policy_engine "diagnostics_interval_seconds" (pos 30000) (pos 5000)
  global_config ← compile_ems_section ems "global_config" global_entries
  global_section ← get_value ems "global_config" null
  ids ← require_mapping_value global_section "primary_consuming_device_ids"
  items ← iterate ids
  runtime ← compile_ems_section ems "runtime" runtime_entries
  state ← compile_ems_section ems "state" state_entries
  device_plans ← compile_devices str devices
  haeo ← get_value ems "haeo" null
  haeo_plan ← compile_core_haeo_plan haeo
  ok (record {
    profiles = profiles;
    interval_seconds = interval;
    diagnostics_interval_seconds = diagnostics;
    global_config = global_config;
    primary_consuming_device_ids = compile_device_ids items;
    runtime = runtime;
    state = state;
    devices = device_plans;
    haeo = haeo_plan;
    role_constraints = compile_core_role_constraints_plan role_constraints;
  })
