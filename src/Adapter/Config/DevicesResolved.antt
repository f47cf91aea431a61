-- ===== src/Adapter/Config/DevicesResolved.antt =====
-- Theorems on Adapter/Config: a device is built the same from its plan and from its plan with every
-- reference resolved.
use ha_ems.Prelude.{true, none, some, List, [], ◌∷◌, String, ◌≡◌, refl, subst}
use ha_ems.Adapter.Config.Values.{
  Value, text, mapping, Fields, Reader, ok, materialize_dynamic_value, materialize_fields,
  require_mapping_value,
}
use ha_ems.Adapter.Config.Sections.{Entry, attribute, Attribute, compile_section, build_section}
use ha_ems.Adapter.Config.DevicePlans.{
  CapabilityDefaults, capabilities_entries, battery_plan, consumer_plan, device_path, compile_kind,
  compile_core_capabilities_plan,
}
use ha_ems.Adapter.Config.DeviceConfigs.{
  capabilities_attributes, battery_policy_attributes, battery_guard_attributes,
  ev_policy_attributes, ev_adapter_attributes, relay_policy_attributes, battery_defaults,
  ev_defaults, relay_defaults, build_core_battery_device, build_core_ev_device,
  build_core_relay_device,
}
use ha_ems.Adapter.Config.DeviceMaps.{append_field}
use ha_ems.Adapter.Config.Resolved.{
  is_raw, IsStateReader, IsConstant, Agrees, compile_dynamic_value-Agrees,
}
use ha_ems.Adapter.Config.Covered.{AreConstant, AreCovered, build_section-Agrees}
use ha_ems.Adapter.Config.Lookups.{succeeded, ok_inj, require-raw}
use ha_ems.Adapter.Config.Tables.{capabilities_covered, capabilities_constant}

module _ (str : Value → String) (read : Reader) (states : IsStateReader read) where
  -- The sections of a device's plan that a table compiles.
  pub part-resolved :
      (device : Value) (key : String) (path : List String) (es : List Entry)
      (attributes : List Attribute) {s : Value} {fs : Fields}
      → is_raw device ≡ true
      → AreConstant es
      → AreCovered es attributes
      → require_mapping_value device key ≡ ok s
      → compile_section path s es ≡ ok fs
      → build_section str (some read) (mapping fs) attributes
        ≡ build_section str none (mapping (materialize_fields read fs)) attributes
  part-resolved device key path es attributes {s} {fs} raw k cov found made =
      build_section-Agrees read states str path s es fs attributes
        (require-raw device key raw found) k made cov

  -- Both ways to build a section of the plan give the same.
  abbrev pub SectionAgrees : Fields → List Attribute → Type 0
  SectionAgrees fs attributes =
      build_section str (some read) (mapping fs) attributes
      ≡ build_section str none (mapping (materialize_fields read fs)) attributes

  -- The plan of a device as the second way sees it.
  abbrev pub resolved : String → Fields → Value
  resolved device_id plan =
      mapping (append_field (materialize_fields read plan) "_device_id" (text device_id))

  pub battery_plan-resolved :
      (device_id : String) (kind : Value) (capabilities policy guard adapter : Fields)
      → Agrees read (text "BATTERY") kind
      → SectionAgrees capabilities (capabilities_attributes battery_defaults)
      → SectionAgrees policy battery_policy_attributes
      → SectionAgrees guard battery_guard_attributes
      → SectionAgrees adapter (attribute "target_w" (text "") ∷ [])
      → build_core_battery_device str
          (some read)
          device_id
          (mapping (battery_plan device_id kind capabilities policy guard adapter))
        ≡ build_core_battery_device str none device_id
            (resolved device_id (battery_plan device_id kind capabilities policy guard adapter))
  unfolding build_core_battery_device require_mapping_value materialize_dynamic_value append_field
  battery_plan-resolved device_id kind capabilities policy guard adapter k c p g a =
      rw k (rw c (rw p (rw g (rw a refl))))

  pub ev_plan-resolved :
      (device_id : String) (kind : Value) (capabilities policy adapter : Fields)
      → Agrees read (text "EV_CHARGER") kind
      → SectionAgrees capabilities (capabilities_attributes ev_defaults)
      → SectionAgrees policy ev_policy_attributes
      → SectionAgrees adapter ev_adapter_attributes
      → build_core_ev_device str
          (some read)
          device_id
          (mapping (consumer_plan device_id kind capabilities policy adapter))
        ≡ build_core_ev_device str none device_id
            (resolved device_id (consumer_plan device_id kind capabilities policy adapter))
  unfolding build_core_ev_device require_mapping_value materialize_dynamic_value append_field
  ev_plan-resolved device_id kind capabilities policy adapter k c p a =
      rw k (rw c (rw p (rw a refl)))

  pub relay_plan-resolved :
      (device_id : String) (kind : Value) (capabilities policy adapter : Fields)
      → Agrees read (text "RELAY") kind
      → SectionAgrees capabilities (capabilities_attributes (relay_defaults device_id))
      → SectionAgrees policy (relay_policy_attributes device_id)
      → SectionAgrees adapter (attribute "enabled" (text "") ∷ [])
      → build_core_relay_device str
          (some read)
          device_id
          (mapping (consumer_plan device_id kind capabilities policy adapter))
        ≡ build_core_relay_device str none device_id
            (resolved device_id (consumer_plan device_id kind capabilities policy adapter))
  unfolding build_core_relay_device require_mapping_value materialize_dynamic_value append_field
  relay_plan-resolved device_id kind capabilities policy adapter k c p a =
      rw k (rw c (rw p (rw a refl)))

  module _ (device_id : String) (device : Value) (raw : is_raw device ≡ true) where
    pub kind-Agrees :
        (name : String) {kind : Value}
        → IsConstant (text name)
        → compile_kind device_id device name ≡ ok kind
        → Agrees read (text name) kind
    unfolding compile_kind
    kind-Agrees name c e =
        let (w, found, made) = succeeded (require_mapping_value device "kind") _ e in
        subst (Agrees read (text name)) (ok_inj made) (
          compile_dynamic_value-Agrees read w _ (text name) states
            (require-raw device "kind" raw found) c)

    pub capabilities-Agree :
        (d : CapabilityDefaults) {fs : Fields}
        → IsConstant d.min_absorb_w
        → IsConstant d.max_absorb_w
        → IsConstant d.step_w
        → IsConstant d.max_produce_w
        → compile_core_capabilities_plan device (device_path device_id) d ≡ ok fs
        → SectionAgrees fs (capabilities_attributes d)
    unfolding compile_core_capabilities_plan
    capabilities-Agree d {fs} lo hi step produce e =
        let (s, found, made) = succeeded (require_mapping_value device "capabilities") _ e in
        part-resolved device "capabilities" _ (capabilities_entries d) (capabilities_attributes d)
          raw (capabilities_constant d lo hi step produce) (capabilities_covered d step) found made
