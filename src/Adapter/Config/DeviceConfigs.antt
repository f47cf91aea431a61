-- ===== src/Adapter/Config/DeviceConfigs.antt =====
-- modules/ems_adapter/config_loader.py: the configuration of a device, _build_core_battery_device,
-- _build_core_ev_device and _build_core_relay_device.
use ha_ems.Prelude.{false, Option, none, some, List, [], ◌∷◌, String, same, pos, if◌then◌else◌}
use ha_ems.Adapter.Config.Values.{
  ◌>>=◌, Value, null, boolean, int, float, text, Fields, end, Result, ok, Reader,
  require_mapping_value, get_value, resolve_core_config_value,
}
use ha_ems.Adapter.Config.Sections.{
  Attribute, attribute, converted, defaulted, optional, to_bool, to_str, as_is, build_section,
}
use ha_ems.Adapter.Config.DevicePlans.{CapabilityDefaults}

-- CoreBatteryDeviceConfig, CoreEvChargerDeviceConfig and CoreRelayDeviceConfig; `guard` is empty in
-- the last two.
pub record DeviceConfig : Type 0 where
  pub device_id : String
  pub kind : String
  pub capabilities : Fields
  pub policy : Fields
  pub guard : Fields
  pub adapter : Fields

abbrev pub capabilities_attributes : CapabilityDefaults → List Attribute
capabilities_attributes d =
    converted "can_absorb_w" to_bool (boolean false)
    ∷ converted "can_produce_w" to_bool (boolean false)
    ∷ converted "supports_primary_consuming_regulation" to_bool (boolean false)
    ∷ converted "supports_producing_regulation" to_bool (boolean false)
    ∷ converted "uses_hard_off_lifecycle" to_bool (boolean false)
    ∷ attribute "min_absorb_w" d.min_absorb_w
    ∷ attribute "max_absorb_w" d.max_absorb_w
    ∷ record {
      entry = record { key = "step_w"; presence = optional d.step_w; default = d.step_w };
      conversion = as_is;
    }
    ∷ record {
      entry = record {
        key = "min_produce_w";
        presence = optional (float (pos 0));
        default = float (pos 0);
      };
      conversion = as_is;
    }
    ∷ record {
      entry = record { key = "max_produce_w"; presence = optional null; default = d.max_produce_w };
      conversion = as_is;
    }
    ∷ []

abbrev pub battery_defaults : CapabilityDefaults
battery_defaults = record {
  min_absorb_w = int (pos 0);
  max_absorb_w = int (pos 3700);
  step_w = int (pos 50);
  max_produce_w = int (pos 4600);
}

abbrev pub ev_defaults : CapabilityDefaults
ev_defaults = record {
  min_absorb_w = int (pos 0);
  max_absorb_w = int (pos 0);
  step_w = int (pos 1);
  max_produce_w = null;
}

-- `2.5 if device_id == 'RELAY1' else 5.0`.
abbrev pub relay_power : String → Value
relay_power device_id = if same device_id "RELAY1" then float (pos 2500) else float (pos 5000)

abbrev pub relay_defaults : String → CapabilityDefaults
relay_defaults device_id = record {
  min_absorb_w = relay_power device_id;
  max_absorb_w = relay_power device_id;
  step_w = relay_power device_id;
  max_produce_w = null;
}

abbrev pub battery_policy_attributes : List Attribute
battery_policy_attributes =
    attribute "priority" (int (pos 3))
    ∷ attribute "producing_priority" (int (pos 0))
    ∷ record {
      entry = record {
        key = "surplus_allowed";
        presence = defaulted (boolean false);
        default = boolean false;
      };
      conversion = to_bool;
    }
    ∷ record {
      entry = record {
        key = "surplus_dispatch_mode";
        presence = defaulted (text "max_absorb");
        default = text "max_absorb";
      };
      conversion = to_str;
    }
    ∷ record {
      entry = record {
        key = "default_min_absorb_w";
        presence = optional null;
        default = float (pos 0);
      };
      conversion = as_is;
    }
    ∷ []

abbrev pub battery_guard_attributes : List Attribute
battery_guard_attributes =
    attribute "soc" (text "")
    ∷ attribute "min_cell_voltage_v" (text "")
    ∷ attribute "heartbeat" (text "")
    ∷ attribute "protect_soc" (int (pos 2))
    ∷ attribute "protect_soc_recovery_margin" (int (pos 1))
    ∷ attribute "protect_min_cell_voltage_v" (float (pos 3030))
    ∷ attribute "protect_min_absorb_w" (int (pos 0))
    ∷ []

abbrev pub ev_policy_attributes : List Attribute
ev_policy_attributes =
    attribute "priority" (int (pos 3))
    ∷ attribute "producing_priority" (int (pos 0))
    ∷ attribute "surplus_allowed" (text "")
    ∷ converted "surplus_dispatch_mode" to_str (text "max_absorb")
    ∷ attribute "force_on" (text "")
    ∷ attribute "low_pv_threshold_w" (float (pos 1600))
    ∷ attribute "hard_off_low_pv_cycles" (int (pos 2))
    ∷ attribute "hard_off_release_cycles" (int (pos 2))
    ∷ []

abbrev pub ev_adapter_attributes : List Attribute
ev_adapter_attributes =
    attribute "enabled" (boolean false)
    ∷ attribute "current_a" (int (pos 0))
    ∷ attribute "current_step_a" (int (pos 4))
    ∷ attribute "phases" (int (pos 1))
    ∷ attribute "voltage_v" (int (pos 230))
    ∷ []

abbrev pub relay_policy_attributes : String → List Attribute
relay_policy_attributes device_id =
    attribute "priority" (if same device_id "RELAY1" then int (pos 2) else int (pos 1))
    ∷ attribute "producing_priority" (int (pos 0))
    ∷ attribute "surplus_allowed" (text "")
    ∷ converted "surplus_dispatch_mode" to_str (text "fixed")
    ∷ attribute "force_on" (text "")
    ∷ []

module _ (str : Value → String) (read : Option Reader) where
  -- `str(_resolve_core_config_value(_require_mapping_value(device, 'kind'), ...))`.
  unfoldable pub build_kind : Value → String → Result String
  build_kind device default = do
    kind ← require_mapping_value device "kind"
    ok (str (resolve_core_config_value kind read (text default)))

  unfoldable pub build_core_capabilities : Value → CapabilityDefaults → Result Fields
  build_core_capabilities device d = do
    capabilities ← require_mapping_value device "capabilities"
    build_section str read capabilities (capabilities_attributes d)

  -- The attributes of a section of the device.
  unfoldable pub build_part : Value → String → List Attribute → Result Fields
  build_part device key attributes = do
    section ← require_mapping_value device key
    build_section str read section attributes

  unfoldable pub build_core_battery_device : String → Value → Result DeviceConfig
  unfolding build_kind build_core_capabilities build_part
  build_core_battery_device device_id device = do
    kind ← build_kind device "BATTERY"
    capabilities ← build_core_capabilities device battery_defaults
    policy ← build_part device "policy" battery_policy_attributes
    guard ← build_part device "guard" battery_guard_attributes
    adapter ← build_part device "adapter" (attribute "target_w" (text "") ∷ [])
    ok (record {
      device_id = device_id;
      kind = kind;
      capabilities = capabilities;
      policy = policy;
      guard = guard;
      adapter = adapter;
    })

  unfoldable pub build_core_ev_device : String → Value → Result DeviceConfig
  unfolding build_kind build_core_capabilities
  build_core_ev_device device_id device = do
    policy_section ← require_mapping_value device "policy"
    adapter_section ← require_mapping_value device "adapter"
    kind ← build_kind device "EV_CHARGER"
    capabilities ← build_core_capabilities device ev_defaults
    policy ← build_section str read policy_section ev_policy_attributes
    adapter ← build_section str read adapter_section ev_adapter_attributes
    ok (record {
      device_id = device_id;
      kind = kind;
      capabilities = capabilities;
      policy = policy;
      guard = end;
      adapter = adapter;
    })

  unfoldable pub build_core_relay_device : String → Value → Result DeviceConfig
  unfolding build_kind build_core_capabilities build_part
  build_core_relay_device device_id device = do
    kind ← build_kind device "RELAY"
    capabilities ← build_core_capabilities device (relay_defaults device_id)
    policy ← build_part device "policy" (relay_policy_attributes device_id)
    adapter ← build_part device "adapter" (attribute "enabled" (text "") ∷ [])
    ok (record {
      device_id = device_id;
      kind = kind;
      capabilities = capabilities;
      policy = policy;
      guard = end;
      adapter = adapter;
    })

  -- One device whose kind was read.
  unfoldable pub build_device : String → String → Value → Result (Option DeviceConfig)
  build_device kind device_id device =
      if same kind "BATTERY"
      then (do built ← build_core_battery_device device_id device; ok (some built))
      else if same kind "EV_CHARGER"
      then (do built ← build_core_ev_device device_id device; ok (some built))
      else if same kind "RELAY"
      then (do built ← build_core_relay_device device_id device; ok (some built))
      else ok none

  -- `str(_resolve_core_config_value(device.get('kind'), read_entity, ''))`.
  unfoldable pub device_kind : Value → Result String
  unfolding get_value
  device_kind device = do
    kind ← get_value device "kind" null
    ok (str (resolve_core_config_value kind read (text "")))
