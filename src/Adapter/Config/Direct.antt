-- ===== src/Adapter/Config/Direct.antt =====
-- Theorems on Adapter/Config: the devices of a configuration are built the same from their plan and
-- from the plan with every reference resolved.
use ha_ems.Prelude.{true, some, [], ◌∷◌, String, ◌≡◌, refl, sym, ap}
use ha_ems.Adapter.Config.Values.{
  Value, text, Reader, ok, materialize_dynamic_value, require_mapping_value, lookup_field,
}
use ha_ems.Adapter.Config.Sections.{entry, compile_section}
use ha_ems.Adapter.Config.DevicePlans.{
  battery_capabilities, ev_capabilities, relay_capabilities, battery_policy_entries,
  battery_guard_entries, ev_policy_entries, ev_adapter_entries, relay_policy_entries, battery_plan,
  consumer_plan, device_path, compile_kind, compile_core_capabilities_plan,
  compile_core_battery_device_plan, compile_core_ev_device_plan, compile_core_relay_device_plan,
}
use ha_ems.Adapter.Config.DeviceConfigs.{
  battery_policy_attributes, battery_guard_attributes, ev_policy_attributes, ev_adapter_attributes,
  relay_policy_attributes, build_core_battery_device, build_core_ev_device, build_core_relay_device,
}
use ha_ems.Adapter.Config.DeviceMaps.{append_field}
use ha_ems.Adapter.Config.DevicesResolved.{
  part-resolved, battery_plan-resolved, ev_plan-resolved, relay_plan-resolved, kind-Agrees,
  capabilities-Agree,
}
use ha_ems.Adapter.Config.Resolved.{is_raw, IsStateReader}
use ha_ems.Adapter.Config.Lookups.{succeeded, ok_inj}
use ha_ems.Adapter.Config.Complete.{
  build_section-Succeeds, battery-Succeeds, ev-Succeeds, relay-Succeeds,
}
use ha_ems.Adapter.Config.Tables.{
  battery_policy_covered, battery_policy_constant, battery_guard_covered, battery_guard_constant,
  ev_policy_covered, ev_policy_constant, ev_adapter_covered, ev_adapter_constant,
  relay_policy_covered, relay_policy_constant, target_covered, target_constant, enabled_covered,
  enabled_constant,
}
use ha_ems.Adapter.Config.DeviceParts.{
  IsResolved, compile_kind-constant, int-IsConstant, null-IsConstant, relay_power-IsConstant,
  battery_name, ev_name, relay_name, capabilities-Succeed,
}

module _ (str : Value → String) (read : Reader) (states : IsStateReader read) where
  module _ (device_id : String) (device : Value) (raw : is_raw device ≡ true) where
    pub battery-IsResolved :
        (plan : Value)
        → require_mapping_value device "kind" ≡ ok (text "BATTERY")
        → compile_core_battery_device_plan device_id device ≡ ok plan
        → IsResolved str read
            (λ r. build_core_battery_device str r device_id)
            "BATTERY"
            device_id
            plan
    unfolding compile_core_battery_device_plan
    battery-IsResolved plan k e =
        let (policy, in_policy, e1) = succeeded (require_mapping_value device "policy") _ e in
        let (guard, in_guard, e2) = succeeded (require_mapping_value device "guard") _ e1 in
        let (adapter, in_adapter, e3) = succeeded (require_mapping_value device "adapter") _ e2 in
        let (kind, k', e4) = succeeded (compile_kind device_id device "BATTERY") _ e3 in
        let (caps, c, e5) =
          succeeded
            (compile_core_capabilities_plan device (device_path device_id) battery_capabilities) _
            e4 in
        let (p, made_p, e6) = succeeded (compile_section _ policy battery_policy_entries) _ e5 in
        let (g, made_g, e7) = succeeded (compile_section _ guard battery_guard_entries) _ e6 in
        let (a, made_a, e8) =
          succeeded (compile_section _ adapter (entry "target_w" (text "") ∷ [])) _ e7 in
        let name =
          compile_kind-constant device_id device "BATTERY" battery_name.0 battery_name.1 k k' in
        record {
          fields = battery_plan device_id kind caps p g a;
          is_mapping = sym (ok_inj e8);
          kind = unfold lookup_field in ap some name;
          resolved_kind =
              unfold lookup_field append_field materialize_dynamic_value in rw name refl;
          built =
              battery-Succeeds str (some read) device_id kind caps p g a
                (capabilities-Succeed str (some read) device_id device battery_capabilities
                  (int-IsConstant _) c)
                (build_section-Succeeds str (some read) _ policy battery_policy_entries p _ made_p
                  battery_policy_covered)
                (build_section-Succeeds str (some read) _ guard battery_guard_entries g _ made_g
                  battery_guard_covered)
                (build_section-Succeeds str (some read) _ adapter _ a _ made_a target_covered);
          same_device =
              battery_plan-resolved str read states device_id kind caps p g a
                (kind-Agrees str read states device_id device raw "BATTERY" battery_name.0 k')
                (capabilities-Agree str read states device_id device raw battery_capabilities
                  (int-IsConstant _) (int-IsConstant _) (int-IsConstant _) (int-IsConstant _) c)
                (part-resolved str read states device "policy" _ battery_policy_entries
                  battery_policy_attributes raw battery_policy_constant battery_policy_covered
                  in_policy made_p)
                (part-resolved str read states device "guard" _ battery_guard_entries
                  battery_guard_attributes raw battery_guard_constant battery_guard_covered in_guard
                  made_g)
                (part-resolved str read states device "adapter" _ _ _ raw target_constant
                  target_covered in_adapter made_a);
        }

    pub ev-IsResolved :
        (plan : Value)
        → require_mapping_value device "kind" ≡ ok (text "EV_CHARGER")
        → compile_core_ev_device_plan device_id device ≡ ok plan
        → IsResolved str read
            (λ r. build_core_ev_device str r device_id)
            "EV_CHARGER"
            device_id
            plan
    unfolding compile_core_ev_device_plan
    ev-IsResolved plan k e =
        let (policy, in_policy, e1) = succeeded (require_mapping_value device "policy") _ e in
        let (adapter, in_adapter, e2) = succeeded (require_mapping_value device "adapter") _ e1 in
        let (kind, k', e3) = succeeded (compile_kind device_id device "EV_CHARGER") _ e2 in
        let (caps, c, e4) =
          succeeded (compile_core_capabilities_plan device (device_path device_id) ev_capabilities)
            _ e3 in
        let (p, made_p, e5) = succeeded (compile_section _ policy ev_policy_entries) _ e4 in
        let (a, made_a, e6) = succeeded (compile_section _ adapter ev_adapter_entries) _ e5 in
        let name = compile_kind-constant device_id device "EV_CHARGER" ev_name.0 ev_name.1 k k' in
        record {
          fields = consumer_plan device_id kind caps p a;
          is_mapping = sym (ok_inj e6);
          kind = unfold lookup_field in ap some name;
          resolved_kind =
              unfold lookup_field append_field materialize_dynamic_value in rw name refl;
          built =
              ev-Succeeds str (some read) device_id kind caps p a
                (capabilities-Succeed str (some read) device_id device ev_capabilities
                  (int-IsConstant _) c)
                (build_section-Succeeds str (some read) _ policy ev_policy_entries p _ made_p
                  ev_policy_covered)
                (build_section-Succeeds str (some read) _ adapter ev_adapter_entries a _ made_a
                  ev_adapter_covered);
          same_device =
              ev_plan-resolved str read states device_id kind caps p a
                (kind-Agrees str read states device_id device raw "EV_CHARGER" ev_name.0 k')
                (capabilities-Agree str read states device_id device raw ev_capabilities
                  (int-IsConstant _) (int-IsConstant _) (int-IsConstant _) null-IsConstant c)
                (part-resolved str read states device "policy" _ ev_policy_entries
                  ev_policy_attributes raw ev_policy_constant ev_policy_covered in_policy made_p)
                (part-resolved str read states device "adapter" _ ev_adapter_entries
                  ev_adapter_attributes raw ev_adapter_constant ev_adapter_covered in_adapter
                  made_a);
        }

    pub relay-IsResolved :
        (plan : Value)
        → require_mapping_value device "kind" ≡ ok (text "RELAY")
        → compile_core_relay_device_plan device_id device ≡ ok plan
        → IsResolved str read (λ r. build_core_relay_device str r device_id) "RELAY" device_id plan
    unfolding compile_core_relay_device_plan
    relay-IsResolved plan k e =
        let (policy, in_policy, e1) = succeeded (require_mapping_value device "policy") _ e in
        let (adapter, in_adapter, e2) = succeeded (require_mapping_value device "adapter") _ e1 in
        let (kind, k', e3) = succeeded (compile_kind device_id device "RELAY") _ e2 in
        let (caps, c, e4) =
          succeeded
            (compile_core_capabilities_plan device (device_path device_id)
              (relay_capabilities device_id))
            _ e3 in
        let (p, made_p, e5) =
          succeeded (compile_section _ policy (relay_policy_entries device_id)) _ e4 in
        let (a, made_a, e6) =
          succeeded (compile_section _ adapter (entry "enabled" (text "") ∷ [])) _ e5 in
        let name = compile_kind-constant device_id device "RELAY" relay_name.0 relay_name.1 k k' in
        record {
          fields = consumer_plan device_id kind caps p a;
          is_mapping = sym (ok_inj e6);
          kind = unfold lookup_field in ap some name;
          resolved_kind =
              unfold lookup_field append_field materialize_dynamic_value in rw name refl;
          built =
              relay-Succeeds str (some read) device_id kind caps p a
                (capabilities-Succeed str (some read) device_id device
                  (relay_capabilities device_id) (relay_power-IsConstant device_id) c)
                (build_section-Succeeds str (some read) _ policy (relay_policy_entries device_id) p
                  _ made_p (relay_policy_covered device_id))
                (build_section-Succeeds str (some read) _ adapter _ a _ made_a enabled_covered);
          same_device =
              let power = relay_power-IsConstant device_id in
              relay_plan-resolved str read states device_id kind caps p a
                (kind-Agrees str read states device_id device raw "RELAY" relay_name.0 k')
                (capabilities-Agree str read states device_id device raw
                  (relay_capabilities device_id) power power power null-IsConstant c)
                (part-resolved str read states device "policy" _ (relay_policy_entries device_id)
                  (relay_policy_attributes device_id) raw (relay_policy_constant device_id)
                  (relay_policy_covered device_id) in_policy made_p)
                (part-resolved str read states device "adapter" _ _ _ raw enabled_constant
                  enabled_covered in_adapter made_a);
        }
