-- ===== src/Adapter/Config/CoreConfigs.antt =====
-- modules/ems_adapter/config_loader.py: the configuration that _materialize_core_config_direct builds
-- from a plan, and the one that _materialize_core_config_via_resolved_config_for_tests builds.
use ha_ems.Prelude.{
  Option, none, some, List, [], ◌∷◌, String, ℤ, pos, append_new_ids, if◌then◌else◌,
}
use ha_ems.Adapter.Config.Values.{
  ◌>>=◌, Value, int, float, text, mapping, Items, nil, cons, Fields, Result, ok, Reader,
  materialize_dynamic_value, materialize_items, materialize_fields,
}
use ha_ems.Adapter.Config.Sections.{
  Attribute, attribute, defaulted, as_is, build_section, is_truthy,
}
use ha_ems.Adapter.Config.DeviceConfigs.{DeviceConfig}
use ha_ems.Adapter.Config.DeviceMaps.{materialize_core_devices_from_plan, build_core_devices_map}
use ha_ems.Adapter.Config.Roles.{
  RoleConstraints, build_core_haeo_config, build_core_role_constraints,
}
use ha_ems.Adapter.Config.Plan.{EmsPlan, parse_interval}

abbrev pub profiles_attributes : List Attribute
profiles_attributes =
    attribute "control" (text "")
    ∷ attribute "goal" (text "")
    ∷ attribute "forecast" (text "")
    ∷ attribute "guard" (text "")
    ∷ []

abbrev pub global_attributes : List Attribute
global_attributes =
    attribute "deadband_w" (int (pos 50))
    ∷ attribute "ramp_w" (int (pos 1000))
    ∷ attribute "strict_limit_w" (int (pos 4600))
    ∷ record {
      entry = record {
        key = "default_sp_w";
        presence = defaulted (float (pos 100000));
        default = float (pos 100000);
      };
      conversion = as_is;
    }
    ∷ attribute "surplus_freeze_s" (int (pos 30))
    ∷ record {
      entry = record {
        key = "battery_heartbeat_timeout_s";
        presence = defaulted (float (pos 360000));
        default = float (pos 360000);
      };
      conversion = as_is;
    }
    ∷ attribute "haeo_stale_timeout_s" (int (pos 300))
    ∷ attribute "nz_battery_floor_default_w" (float (pos 100000))
    ∷ attribute "nz_battery_floor_ev_active_w" (float (pos 0))
    ∷ []

abbrev pub runtime_attributes : List Attribute
runtime_attributes =
    attribute "grid_power_w" (int (pos 0))
    ∷ attribute "quarter_energy_balance_kwh" (int (pos 0))
    ∷ attribute "pv_power_w" (int (pos 0))
    ∷ []

abbrev pub state_attributes : List Attribute
state_attributes =
    attribute "surplus_freeze_until" (text "") ∷ attribute "active_surplus_devices" (text "") ∷ []

-- `str(item or '')` of each item.
unfoldable pub device_id_texts : (Value → String) → Items → List String
unfolding is_truthy
device_id_texts str nil = []
device_id_texts str (cons item items) =
    str (if is_truthy item then item else text "") ∷ device_id_texts str items

-- The loop of _materialize_primary_consuming_device_ids, over materialised items.
unfoldable pub primary_consuming_device_ids : (Value → String) → Items → List String
unfolding append_new_ids device_id_texts
primary_consuming_device_ids str items = append_new_ids [] (device_id_texts str items)

-- CoreConfig, without the names of the outputs, which are constants.
pub record ConfigValues : Type 0 where
  pub profiles : Fields
  pub interval_seconds : ℤ
  pub diagnostics_interval_seconds : ℤ
  pub global_config : Fields
  pub primary_consuming_device_ids : List String
  pub runtime : Fields
  pub state : Fields
  pub haeo : Option (List (String × Fields))
  pub role_constraints : RoleConstraints
  pub devices : List (String × DeviceConfig)

-- _materialize_core_config_direct.
unfoldable pub materialize_core_config_direct :
    (Value → String) → Reader → EmsPlan → Result ConfigValues
unfolding primary_consuming_device_ids
materialize_core_config_direct str read plan = do
  profiles ← build_section str (some read) (mapping plan.profiles) profiles_attributes
  global_config ← build_section str (some read) (mapping plan.global_config) global_attributes
  let items = materialize_items read plan.primary_consuming_device_ids
  runtime ← build_section str (some read) (mapping plan.runtime) runtime_attributes
  state ← build_section str (some read) (mapping plan.state) state_attributes
  devices ← materialize_core_devices_from_plan str read plan.devices
  haeo ← build_core_haeo_config str (some read) plan.haeo
  let roles = build_core_role_constraints (some read) (mapping plan.role_constraints)
  interval ← parse_interval (pos 5000) (pos 2000) (float plan.interval_seconds)
  diagnostics ← parse_interval (pos 30000) (pos 5000) (float plan.diagnostics_interval_seconds)
  ok (record {
    profiles = profiles;
    interval_seconds = interval;
    diagnostics_interval_seconds = diagnostics;
    global_config = global_config;
    primary_consuming_device_ids = primary_consuming_device_ids str items;
    runtime = runtime;
    state = state;
    haeo = haeo;
    role_constraints = roles;
    devices = devices;
  })

-- `_materialize_dynamic_value(plan.grouped_config_plan, read_entity)`.
unfoldable pub resolve_plan : Reader → EmsPlan → EmsPlan
unfolding materialize_dynamic_value
resolve_plan read plan = record plan {
  profiles = materialize_fields read plan.profiles;
  global_config = materialize_fields read plan.global_config;
  primary_consuming_device_ids = materialize_items read plan.primary_consuming_device_ids;
  runtime = materialize_fields read plan.runtime;
  state = materialize_fields read plan.state;
  devices = materialize_fields read plan.devices;
  haeo = materialize_dynamic_value read plan.haeo;
  role_constraints = materialize_fields read plan.role_constraints;
}

-- _build_core_config_from_grouped_value_config of a resolved plan, whose items hold no reference.
unfoldable pub build_core_config_from_grouped_value_config :
    (Value → String) → EmsPlan → Result ConfigValues
unfolding primary_consuming_device_ids
build_core_config_from_grouped_value_config str ems = do
  devices ← build_core_devices_map str ems.devices
  profiles ← build_section str none (mapping ems.profiles) profiles_attributes
  interval ← parse_interval (pos 5000) (pos 2000) (float ems.interval_seconds)
  diagnostics ← parse_interval (pos 30000) (pos 5000) (float ems.diagnostics_interval_seconds)
  global_config ← build_section str none (mapping ems.global_config) global_attributes
  runtime ← build_section str none (mapping ems.runtime) runtime_attributes
  state ← build_section str none (mapping ems.state) state_attributes
  haeo ← build_core_haeo_config str none ems.haeo
  ok (record {
    profiles = profiles;
    interval_seconds = interval;
    diagnostics_interval_seconds = diagnostics;
    global_config = global_config;
    primary_consuming_device_ids =
        primary_consuming_device_ids str ems.primary_consuming_device_ids;
    runtime = runtime;
    state = state;
    haeo = haeo;
    role_constraints = build_core_role_constraints none (mapping ems.role_constraints);
    devices = devices;
  })

-- _materialize_core_config_via_resolved_config_for_tests.
unfoldable pub materialize_core_config_via_resolved_config :
    (Value → String) → Reader → EmsPlan → Result ConfigValues
unfolding resolve_plan build_core_config_from_grouped_value_config
materialize_core_config_via_resolved_config str read plan =
    build_core_config_from_grouped_value_config str (resolve_plan read plan)
