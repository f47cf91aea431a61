-- ===== src/Adapter/Config/DevicePlans.antt =====
-- modules/ems_adapter/config_loader.py: the plan of a device, _compile_core_battery_device_plan,
-- _compile_core_ev_device_plan and _compile_core_relay_device_plan.
use ha_ems.Prelude.{
  false, Option, none, some, List, [], ◌∷◌, ◌++◌, String, same, pos, if◌then◌else◌,
}
use ha_ems.Adapter.Config.Values.{
  ◌>>=◌, Value, null, boolean, int, float, text, mapping, Fields, end, field, Result, ok,
  compile_dynamic_value, require_mapping_value, get_value,
}
use ha_ems.Adapter.Config.Sections.{Entry, entry, defaulted, optional, compile_section, is_truthy}

-- The `default_` arguments of _compile_core_capabilities_plan and _build_core_capabilities.
pub record CapabilityDefaults : Type 0 where
  pub min_absorb_w : Value
  pub max_absorb_w : Value
  pub step_w : Value
  pub max_produce_w : Value

abbrev pub capabilities_entries : CapabilityDefaults → List Entry
capabilities_entries d =
    entry "can_absorb_w" (boolean false)
    ∷ entry "can_produce_w" (boolean false)
    ∷ entry "uses_hard_off_lifecycle" (boolean false)
    ∷ entry "supports_primary_consuming_regulation" (boolean false)
    ∷ entry "supports_producing_regulation" (boolean false)
    ∷ entry "min_absorb_w" d.min_absorb_w
    ∷ entry "max_absorb_w" d.max_absorb_w
    ∷ record { key = "step_w"; presence = optional d.step_w; default = d.step_w }
    ∷ record { key = "min_produce_w"; presence = optional (float (pos 0)); default = float (pos 0) }
    ∷ record { key = "max_produce_w"; presence = optional null; default = d.max_produce_w }
    ∷ []

unfoldable pub compile_core_capabilities_plan :
    Value → List String → CapabilityDefaults → Result Fields
compile_core_capabilities_plan device device_path d = do
  capabilities ← require_mapping_value device "capabilities"
  compile_section (device_path ++ "capabilities" ∷ []) capabilities (capabilities_entries d)

abbrev pub battery_capabilities : CapabilityDefaults
battery_capabilities = record {
  min_absorb_w = int (pos 0);
  max_absorb_w = int (pos 3700);
  step_w = int (pos 50);
  max_produce_w = int (pos 4600);
}

abbrev pub ev_capabilities : CapabilityDefaults
ev_capabilities = record {
  min_absorb_w = int (pos 0);
  max_absorb_w = int (pos 0);
  step_w = int (pos 1);
  max_produce_w = null;
}

-- `relay_power_default`.
abbrev pub relay_power_default : String → Value
relay_power_default device_id =
    if same device_id "RELAY1" then float (pos 2500) else float (pos 5000)

abbrev pub relay_capabilities : String → CapabilityDefaults
relay_capabilities device_id = record {
  min_absorb_w = relay_power_default device_id;
  max_absorb_w = relay_power_default device_id;
  step_w = relay_power_default device_id;
  max_produce_w = null;
}

abbrev pub battery_policy_entries : List Entry
battery_policy_entries =
    entry "priority" (int (pos 3))
    ∷ entry "producing_priority" (int (pos 0))
    ∷ record {
      key = "surplus_allowed";
      presence = defaulted (boolean false);
      default = boolean false;
    }
    ∷ record {
      key = "surplus_dispatch_mode";
      presence = defaulted (text "max_absorb");
      default = text "max_absorb";
    }
    ∷ record { key = "default_min_absorb_w"; presence = optional null; default = float (pos 0) }
    ∷ []

abbrev pub battery_guard_entries : List Entry
battery_guard_entries =
    entry "soc" (text "")
    ∷ entry "min_cell_voltage_v" (text "")
    ∷ entry "heartbeat" (text "")
    ∷ entry "protect_soc" (int (pos 2))
    ∷ entry "protect_soc_recovery_margin" (int (pos 1))
    ∷ entry "protect_min_cell_voltage_v" (float (pos 3030))
    ∷ entry "protect_min_absorb_w" (int (pos 0))
    ∷ []

abbrev pub ev_policy_entries : List Entry
ev_policy_entries =
    entry "priority" (int (pos 3))
    ∷ entry "producing_priority" (int (pos 0))
    ∷ entry "surplus_allowed" (text "")
    ∷ entry "surplus_dispatch_mode" (text "max_absorb")
    ∷ entry "force_on" (text "")
    ∷ entry "low_pv_threshold_w" (float (pos 1600))
    ∷ entry "hard_off_low_pv_cycles" (int (pos 2))
    ∷ entry "hard_off_release_cycles" (int (pos 2))
    ∷ []

abbrev pub ev_adapter_entries : List Entry
ev_adapter_entries =
    entry "enabled" (boolean false)
    ∷ entry "current_a" (int (pos 0))
    ∷ entry "current_step_a" (int (pos 4))
    ∷ entry "phases" (int (pos 1))
    ∷ entry "voltage_v" (int (pos 230))
    ∷ []

-- `relay_default`.
abbrev pub relay_priority : String → Value
relay_priority device_id = if same device_id "RELAY1" then int (pos 2) else int (pos 1)

abbrev pub relay_policy_entries : String → List Entry
relay_policy_entries device_id =
    entry "priority" (relay_priority device_id)
    ∷ entry "producing_priority" (int (pos 0))
    ∷ entry "surplus_allowed" (text "")
    ∷ entry "surplus_dispatch_mode" (text "fixed")
    ∷ entry "force_on" (text "")
    ∷ []

abbrev pub device_path : String → List String
device_path device_id = "ems" ∷ "devices" ∷ device_id ∷ []

-- `'kind'` of a device's plan.
unfoldable pub compile_kind : String → Value → String → Result Value
compile_kind device_id device default = do
  kind ← require_mapping_value device "kind"
  ok (compile_dynamic_value kind (device_path device_id ++ "kind" ∷ []) (text default))

abbrev pub battery_plan : String → Value → Fields → Fields → Fields → Fields → Fields
battery_plan device_id kind capabilities policy guard adapter = field "device_id" (text device_id) (
    field "kind" kind (
      field "capabilities" (mapping capabilities) (
        field "policy" (mapping policy)
          (field "guard" (mapping guard) (field "adapter" (mapping adapter) end)))))

unfoldable pub compile_core_battery_device_plan : String → Value → Result Value
unfolding compile_kind compile_core_capabilities_plan
compile_core_battery_device_plan device_id device = do
  policy ← require_mapping_value device "policy"
  guard ← require_mapping_value device "guard"
  adapter ← require_mapping_value device "adapter"
  kind ← compile_kind device_id device "BATTERY"
  capabilities ← compile_core_capabilities_plan device (device_path device_id) battery_capabilities
  policy_plan ←
      compile_section (device_path device_id ++ "policy" ∷ []) policy battery_policy_entries
  guard_plan ← compile_section (device_path device_id ++ "guard" ∷ []) guard battery_guard_entries
  adapter_plan ←
      compile_section (device_path device_id ++ "adapter" ∷ []) adapter
        (entry "target_w" (text "") ∷ [])
  ok (mapping (battery_plan device_id kind capabilities policy_plan guard_plan adapter_plan))

-- The plan of a device without a guard.
abbrev pub consumer_plan : String → Value → Fields → Fields → Fields → Fields
consumer_plan device_id kind capabilities policy adapter = field "device_id" (text device_id) (
    field "kind" kind (
      field "capabilities" (mapping capabilities)
        (field "policy" (mapping policy) (field "adapter" (mapping adapter) end))))

unfoldable pub compile_core_ev_device_plan : String → Value → Result Value
unfolding compile_kind compile_core_capabilities_plan
compile_core_ev_device_plan device_id device = do
  policy ← require_mapping_value device "policy"
  adapter ← require_mapping_value device "adapter"
  kind ← compile_kind device_id device "EV_CHARGER"
  capabilities ← compile_core_capabilities_plan device (device_path device_id) ev_capabilities
  policy_plan ← compile_section (device_path device_id ++ "policy" ∷ []) policy ev_policy_entries
  adapter_plan ←
      compile_section (device_path device_id ++ "adapter" ∷ []) adapter ev_adapter_entries
  ok (mapping (consumer_plan device_id kind capabilities policy_plan adapter_plan))

unfoldable pub compile_core_relay_device_plan : String → Value → Result Value
unfolding compile_kind compile_core_capabilities_plan
compile_core_relay_device_plan device_id device = do
  policy ← require_mapping_value device "policy"
  adapter ← require_mapping_value device "adapter"
  kind ← compile_kind device_id device "RELAY"
  capabilities ←
      compile_core_capabilities_plan device (device_path device_id) (relay_capabilities device_id)
  policy_plan ←
      compile_section (device_path device_id ++ "policy" ∷ []) policy
        (relay_policy_entries device_id)
  adapter_plan ←
      compile_section (device_path device_id ++ "adapter" ∷ []) adapter
        (entry "enabled" (text "") ∷ [])
  ok (mapping (consumer_plan device_id kind capabilities policy_plan adapter_plan))

-- One device of a kind.
unfoldable pub compile_device_of_kind : String → String → Value → Result (Option Value)
compile_device_of_kind kind device_id device =
    if same kind "BATTERY"
    then (do plan ← compile_core_battery_device_plan device_id device; ok (some plan))
    else if same kind "EV_CHARGER"
    then (do plan ← compile_core_ev_device_plan device_id device; ok (some plan))
    else if same kind "RELAY"
    then (do plan ← compile_core_relay_device_plan device_id device; ok (some plan))
    else ok none

-- The body of the loop over the devices; `str` is Python's `str`.
unfoldable pub compile_device : (Value → String) → String → Value → Result (Option Value)
unfolding is_truthy get_value compile_device_of_kind
compile_device str device_id (mapping fs) = do
  kind ← get_value (mapping fs) "kind" null
  compile_device_of_kind (str (if is_truthy kind then kind else text "")) device_id (mapping fs)
compile_device str device_id _ = ok none

abbrev pub add_plan : String → Option Value → Fields → Fields
add_plan device_id none plans = plans
add_plan device_id (some plan) plans = field device_id plan plans

unfoldable pub compile_core_devices_plan : (Value → String) → Fields → Result Fields
unfolding compile_device
compile_core_devices_plan str end = ok end
compile_core_devices_plan str (field device_id device devices) = do
  plan ← compile_device str device_id device
  plans ← compile_core_devices_plan str devices
  ok (add_plan device_id plan plans)
