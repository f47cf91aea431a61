-- ===== src/Adapter/Config/DeviceParts.antt =====
-- Theorems on Adapter/Config: the constants of a device and the parts that are built from its plan.
use ha_ems.Prelude.{false, Option, none, some, String, ◌≡◌, refl, arith, ℤ}
use ha_ems.Policy.Ids.{strip}
use ha_ems.Adapter.Config.Values.{
  Value, null, int, text, mapping, Fields, Reader, Result, ok, materialize_fields,
  require_mapping_value, lookup_field, is_valid_entity_id, is_missing, compile_dynamic_value,
}
use ha_ems.Adapter.Config.Sections.{build_section}
use ha_ems.Adapter.Config.DevicePlans.{
  CapabilityDefaults, relay_power_default, capabilities_entries, device_path, compile_kind,
  compile_core_capabilities_plan,
}
use ha_ems.Adapter.Config.DeviceConfigs.{capabilities_attributes, DeviceConfig}
use ha_ems.Adapter.Config.DeviceMaps.{append_field}
use ha_ems.Adapter.Config.Resolved.{is_raw, IsConstant}
use ha_ems.Adapter.Config.Lookups.{succeeded}
use ha_ems.Adapter.Config.Complete.{Succeeds, build_section-Succeeds}
use ha_ems.Adapter.Config.Tables.{capabilities_covered}

-- What is left to know of a device's plan, once it is compiled: its kind, and that both ways to build
-- the device from it give the same.
pub record IsResolved (str : Value → String) (read : Reader)
    (build : Option Reader → Value → Result DeviceConfig) (name device_id : String) (plan : Value)
    : Type 0 where
  pub fields : Fields
  pub is_mapping : plan ≡ mapping fields
  pub kind : lookup_field "kind" fields ≡ some (text name)
  pub resolved_kind :
      lookup_field "kind"
        (append_field (materialize_fields read fields) "_device_id" (text device_id))
      ≡ some (text name)
  pub built : Succeeds (build (some read) (mapping fields))
  pub same_device :
      build (some read) (mapping fields)
      ≡ build none
          (mapping (append_field (materialize_fields read fields) "_device_id" (text device_id)))

pub compile_kind-constant :
    (device_id : String) (device : Value) (name : String) {kind : Value}
    → IsConstant (text name)
    → is_missing (text name) ≡ false
    → require_mapping_value device "kind" ≡ ok (text name)
    → compile_kind device_id device name ≡ ok kind
    → kind ≡ text name
unfolding compile_kind compile_dynamic_value
compile_kind-constant device_id device name c m found e = ground arith

-- The constants that are defaults.
pub int-IsConstant : (z : ℤ) → IsConstant (int z)
unfolding is_raw is_valid_entity_id
int-IsConstant z = (refl, refl)

pub null-IsConstant : IsConstant null
unfolding is_raw is_valid_entity_id
null-IsConstant = (refl, refl)

pub relay_power-IsConstant : (device_id : String) → IsConstant (relay_power_default device_id)
unfolding is_raw is_valid_entity_id
relay_power-IsConstant device_id = ground arith

-- The names of the kinds.
pub battery_name : IsConstant (text "BATTERY") × (is_missing (text "BATTERY") ≡ false)
unfolding is_raw is_valid_entity_id strip is_missing
battery_name = ((refl, refl), refl)

pub ev_name : IsConstant (text "EV_CHARGER") × (is_missing (text "EV_CHARGER") ≡ false)
unfolding is_raw is_valid_entity_id strip is_missing
ev_name = ((refl, refl), refl)

pub relay_name : IsConstant (text "RELAY") × (is_missing (text "RELAY") ≡ false)
unfolding is_raw is_valid_entity_id strip is_missing
relay_name = ((refl, refl), refl)

pub capabilities-Succeed :
    (str : Value → String) (r : Option Reader) (device_id : String) (device : Value)
    (d : CapabilityDefaults) {fs : Fields}
    → IsConstant d.step_w
    → compile_core_capabilities_plan device (device_path device_id) d ≡ ok fs
    → Succeeds (build_section str r (mapping fs) (capabilities_attributes d))
unfolding compile_core_capabilities_plan
capabilities-Succeed str r device_id device d {fs} c e =
    let (s, found, made) = succeeded (require_mapping_value device "capabilities") _ e in
    build_section-Succeeds str r _ s (capabilities_entries d) fs (capabilities_attributes d) made
      (capabilities_covered d c)
