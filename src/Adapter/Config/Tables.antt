-- ===== src/Adapter/Config/Tables.antt =====
-- Theorems on Adapter/Config: the tables of the plan hold constants, and the attributes that are built
-- are covered by them.
use ha_ems.Prelude.{[], ◌∷◌, String, arith}
use ha_ems.Policy.Ids.{strip}
use ha_ems.Adapter.Config.Values.{text, is_valid_entity_id}
use ha_ems.Adapter.Config.Sections.{entry, attribute}
use ha_ems.Adapter.Config.DevicePlans.{
  CapabilityDefaults, capabilities_entries, battery_policy_entries, battery_guard_entries,
  ev_policy_entries, ev_adapter_entries, relay_policy_entries,
}
use ha_ems.Adapter.Config.DeviceConfigs.{
  capabilities_attributes, battery_policy_attributes, battery_guard_attributes,
  ev_policy_attributes, ev_adapter_attributes, relay_policy_attributes,
}
use ha_ems.Adapter.Config.Roles.{haeo_entries, haeo_attributes}
use ha_ems.Adapter.Config.Plan.{profiles_entries, global_entries, runtime_entries, state_entries}
use ha_ems.Adapter.Config.CoreConfigs.{
  profiles_attributes, global_attributes, runtime_attributes, state_attributes,
}
use ha_ems.Adapter.Config.Resolved.{is_raw, IsConstant}
use ha_ems.Adapter.Config.Covered.{AreConstant, AreCovered}

pub capabilities_covered :
    (d : CapabilityDefaults)
    → IsConstant d.step_w
    → AreCovered (capabilities_entries d) (capabilities_attributes d)
unfolding is_raw is_valid_entity_id strip
capabilities_covered d c = ground arith

pub capabilities_constant :
    (d : CapabilityDefaults)
    → IsConstant d.min_absorb_w
    → IsConstant d.max_absorb_w
    → IsConstant d.step_w
    → IsConstant d.max_produce_w
    → AreConstant (capabilities_entries d)
unfolding is_raw is_valid_entity_id strip
capabilities_constant d lo hi step produce = ground arith

pub battery_policy_covered : AreCovered battery_policy_entries battery_policy_attributes
unfolding is_raw is_valid_entity_id strip
battery_policy_covered = ground arith

pub battery_policy_constant : AreConstant battery_policy_entries
unfolding is_raw is_valid_entity_id strip
battery_policy_constant = ground arith

pub battery_guard_covered : AreCovered battery_guard_entries battery_guard_attributes
unfolding is_raw is_valid_entity_id strip
battery_guard_covered = ground arith

pub battery_guard_constant : AreConstant battery_guard_entries
unfolding is_raw is_valid_entity_id strip
battery_guard_constant = ground arith

pub ev_policy_covered : AreCovered ev_policy_entries ev_policy_attributes
unfolding is_raw is_valid_entity_id strip
ev_policy_covered = ground arith

pub ev_policy_constant : AreConstant ev_policy_entries
unfolding is_raw is_valid_entity_id strip
ev_policy_constant = ground arith

pub ev_adapter_covered : AreCovered ev_adapter_entries ev_adapter_attributes
unfolding is_raw is_valid_entity_id strip
ev_adapter_covered = ground arith

pub ev_adapter_constant : AreConstant ev_adapter_entries
unfolding is_raw is_valid_entity_id strip
ev_adapter_constant = ground arith

pub relay_policy_covered :
    (device_id : String)
    → AreCovered (relay_policy_entries device_id) (relay_policy_attributes device_id)
unfolding is_raw is_valid_entity_id strip
relay_policy_covered device_id = ground arith

pub relay_policy_constant : (device_id : String) → AreConstant (relay_policy_entries device_id)
unfolding is_raw is_valid_entity_id strip
relay_policy_constant device_id = ground arith

pub target_covered :
    AreCovered (entry "target_w" (text "") ∷ []) (attribute "target_w" (text "") ∷ [])
unfolding is_raw is_valid_entity_id strip
target_covered = ground arith

pub target_constant : AreConstant (entry "target_w" (text "") ∷ [])
unfolding is_raw is_valid_entity_id strip
target_constant = ground arith

pub enabled_covered :
    AreCovered (entry "enabled" (text "") ∷ []) (attribute "enabled" (text "") ∷ [])
unfolding is_raw is_valid_entity_id strip
enabled_covered = ground arith

pub enabled_constant : AreConstant (entry "enabled" (text "") ∷ [])
unfolding is_raw is_valid_entity_id strip
enabled_constant = ground arith

pub profiles_covered : AreCovered profiles_entries profiles_attributes
unfolding is_raw is_valid_entity_id strip
profiles_covered = ground arith

pub profiles_constant : AreConstant profiles_entries
unfolding is_raw is_valid_entity_id strip
profiles_constant = ground arith

pub global_covered : AreCovered global_entries global_attributes
unfolding is_raw is_valid_entity_id
global_covered = ground arith

pub global_constant : AreConstant global_entries
unfolding is_raw is_valid_entity_id
global_constant = ground arith

pub runtime_covered : AreCovered runtime_entries runtime_attributes
unfolding is_raw is_valid_entity_id
runtime_covered = ground arith

pub runtime_constant : AreConstant runtime_entries
unfolding is_raw is_valid_entity_id
runtime_constant = ground arith

pub state_covered : AreCovered state_entries state_attributes
unfolding is_raw is_valid_entity_id strip
state_covered = ground arith

pub state_constant : AreConstant state_entries
unfolding is_raw is_valid_entity_id strip
state_constant = ground arith

pub haeo_covered : AreCovered haeo_entries haeo_attributes
unfolding is_raw is_valid_entity_id
haeo_covered = ground arith

pub haeo_constant : AreConstant haeo_entries
unfolding is_raw is_valid_entity_id strip
haeo_constant = ground arith
