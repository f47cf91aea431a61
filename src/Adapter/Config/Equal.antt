-- ===== src/Adapter/Config/Equal.antt =====
-- Theorems on Adapter/Config/CoreConfigs: the configuration of a tick, built from the plan directly, is
-- the one that is built from the plan with every reference resolved.
use ha_ems.Prelude.{true, none, some, List, String, ◌≡◌, refl, subst, sym, ◌∙◌, pos}
use ha_ems.Adapter.Config.Values.{
  Result, Value, null, float, mapping, Fields, end, Reader, ok, materialize_dynamic_value,
  materialize_items, materialize_fields, get_value, require_mapping_value,
}
use ha_ems.Adapter.Config.Sections.{Entry, Attribute, build_section}
use ha_ems.Adapter.Config.DeviceMaps.{materialize_core_devices_from_plan, build_core_devices_map}
use ha_ems.Adapter.Config.DevicePlans.{compile_core_devices_plan}
use ha_ems.Adapter.Config.Roles.{
  compile_core_haeo_plan, build_core_haeo_config, build_core_role_constraints,
}
use ha_ems.Adapter.Config.Plan.{
  EmsPlan, parse_interval, policy_engine_interval, iterate, compile_ems_section, compile_devices,
  compile_core_config_plan, profiles_entries, global_entries, runtime_entries, state_entries,
}
use ha_ems.Adapter.Config.CoreConfigs.{
  ConfigValues, profiles_attributes, global_attributes, runtime_attributes, state_attributes,
  primary_consuming_device_ids, materialize_core_config_direct,
  materialize_core_config_via_resolved_config,
}
use ha_ems.Adapter.Config.Tables.{
  profiles_covered, profiles_constant, global_covered, global_constant, runtime_covered,
  runtime_constant, state_covered, state_constant,
}
use ha_ems.Adapter.Config.Resolved.{is_raw, IsStateReader}
use ha_ems.Adapter.Config.Covered.{AreConstant, AreCovered, build_section-Agrees}
use ha_ems.Adapter.Config.Lookups.{succeeded, ok_inj, get_value-raw}
use ha_ems.Adapter.Config.Complete.{Succeeds, build_section-Succeeds, haeo-Succeeds}
use ha_ems.Adapter.Config.Intervals.{parse_interval-again}
use ha_ems.Adapter.Config.Loop.{devices-resolved, devices-Succeed}
use ha_ems.Adapter.Config.Loaded.{IsStr}
use ha_ems.Adapter.Config.HaeoResolved.{haeo-resolved}
use ha_ems.Adapter.Config.RolesResolved.{role_constraints-resolved}

-- Both ways build the same, with no error.
abbrev BuiltAlike {ℓ} : {A : Type ℓ} → Result A → Result A → Type ℓ
BuiltAlike direct resolved = Succeeds direct × (direct ≡ resolved)

second_way {ℓ} :
    {A : Type ℓ} {direct resolved : Result A} (h : BuiltAlike direct resolved) → resolved ≡ ok h.0.0
second_way (direct_succeeds, same_result) = sym same_result ∙ direct_succeeds.1

module _ (str : Value → String) (is_str : IsStr str) (read : Reader)
    (states : IsStateReader read) where
  abbrev SectionAlike : Fields → List Attribute → Type 0
  SectionAlike fs attributes =
      BuiltAlike (build_section str (some read) (mapping fs) attributes)
        (build_section str none (mapping (materialize_fields read fs)) attributes)

  abbrev DevicesAlike : Fields → Type 0
  DevicesAlike plans =
      BuiltAlike (materialize_core_devices_from_plan str read plans)
        (build_core_devices_map str (materialize_fields read plans))

  -- The parts of a plan, from which both ways build the same.
  record ArePartsAlike (plan : EmsPlan) : Type 0 where
    interval :
        parse_interval (pos 5000) (pos 2000) (float plan.interval_seconds)
        ≡ ok plan.interval_seconds
    diagnostics_interval :
        parse_interval (pos 30000) (pos 5000) (float plan.diagnostics_interval_seconds)
        ≡ ok plan.diagnostics_interval_seconds
    profiles : SectionAlike plan.profiles profiles_attributes
    global_config : SectionAlike plan.global_config global_attributes
    runtime : SectionAlike plan.runtime runtime_attributes
    state : SectionAlike plan.state state_attributes
    devices : DevicesAlike plan.devices
    haeo :
        BuiltAlike
          (build_core_haeo_config str (some read) plan.haeo)
          (build_core_haeo_config str none (materialize_dynamic_value read plan.haeo))
    role_constraints :
        build_core_role_constraints (some read) (mapping plan.role_constraints)
        ≡ build_core_role_constraints none (mapping (materialize_fields read plan.role_constraints))

  section_alike :
      (ems : Value) (key : String) (entries : List Entry) (attributes : List Attribute)
      {fs : Fields}
      → is_raw ems ≡ true
      → AreConstant entries
      → AreCovered entries attributes
      → compile_ems_section ems key entries ≡ ok fs
      → SectionAlike fs attributes
  unfolding compile_ems_section
  section_alike ems key entries attributes {fs} raw k cov e =
      let (section, found, made) = succeeded (get_value ems key null) _ e in
      (
        build_section-Succeeds str (some read) _ section entries fs attributes made cov,
        build_section-Agrees read states str _ section entries fs attributes
            (get_value-raw ems key null raw (unfold is_raw in refl) found) k made cov,
      )

  devices_alike :
      (devices : Value) {plans : Fields}
      → is_raw devices ≡ true
      → compile_devices str devices ≡ ok plans
      → DevicesAlike plans
  unfolding compile_devices is_raw
  devices_alike (mapping devices) {plans} raw e = (
    devices-Succeed str read is_str states devices plans raw e,
    devices-resolved str read is_str states devices plans raw e,
  )
  devices_alike _ {plans} raw e = (
    devices-Succeed str read is_str states end plans refl (unfold compile_core_devices_plan in e),
    devices-resolved str read is_str states end plans refl (unfold compile_core_devices_plan in e),
  )

  plan-ArePartsAlike :
      (ems : Value) (plan : EmsPlan)
      → is_raw ems ≡ true
      → compile_core_config_plan str ems ≡ ok plan
      → ArePartsAlike plan
  unfolding compile_core_config_plan
  plan-ArePartsAlike ems plan raw e =
      let (devices, in_devices, e1) = succeeded (get_value ems "devices" (mapping end)) _ e in
      let (roles, in_roles, e2) = succeeded (get_value ems "role_constraints" (mapping end)) _ e1 in
      let (engine, in_engine, e3) = succeeded (get_value ems "policy_engine" (mapping end)) _ e2 in
      let (p, made_p, e4) = succeeded (compile_ems_section ems "profiles" profiles_entries) _ e3 in
      let (i, made_i, e5) =
        succeeded (policy_engine_interval engine "interval_seconds" (pos 5000) (pos 2000)) _ e4 in
      let (d, made_d, e6) =
        succeeded
          (policy_engine_interval engine "diagnostics_interval_seconds" (pos 30000) (pos 5000)) _
          e5 in
      let (g, made_g, e7) =
        succeeded (compile_ems_section ems "global_config" global_entries) _ e6 in
      let (section, in_section, e8) = succeeded (get_value ems "global_config" null) _ e7 in
      let (ids, in_ids, e9) =
        succeeded (require_mapping_value section "primary_consuming_device_ids") _ e8 in
      let (items, in_items, e10) = succeeded (iterate ids) _ e9 in
      let (r, made_r, e11) = succeeded (compile_ems_section ems "runtime" runtime_entries) _ e10 in
      let (s, made_s, e12) = succeeded (compile_ems_section ems "state" state_entries) _ e11 in
      let (plans, made_plans, e13) = succeeded (compile_devices str devices) _ e12 in
      let (haeo, in_haeo, e14) = succeeded (get_value ems "haeo" null) _ e13 in
      let (haeo_plan, made_haeo, e15) = succeeded (compile_core_haeo_plan haeo) _ e14 in
      let empty_raw : is_raw (mapping end) ≡ true = unfold is_raw in refl in
      subst ArePartsAlike (ok_inj e15) (record {
        interval = parse_interval-again engine "interval_seconds" (pos 5000) (pos 2000) refl made_i;
        diagnostics_interval =
            parse_interval-again engine "diagnostics_interval_seconds" (pos 30000) (pos 5000) refl
              made_d;
        profiles = section_alike ems "profiles" _ _ raw profiles_constant profiles_covered made_p;
        global_config =
            section_alike ems "global_config" _ _ raw global_constant global_covered made_g;
        runtime = section_alike ems "runtime" _ _ raw runtime_constant runtime_covered made_r;
        state = section_alike ems "state" _ _ raw state_constant state_covered made_s;
        devices =
            devices_alike devices
              (get_value-raw ems "devices" (mapping end) raw empty_raw in_devices) made_plans;
        haeo = (
          haeo-Succeeds str (some read) haeo haeo_plan made_haeo,
          haeo-resolved str read states haeo haeo_plan
              (get_value-raw ems "haeo" null raw (unfold is_raw in refl) in_haeo) made_haeo,
        );
        role_constraints =
            role_constraints-resolved str read states roles
              (get_value-raw ems "role_constraints" (mapping end) raw empty_raw in_roles);
      })

  -- The configuration that is built from the parts.
  abbrev built_config : (plan : EmsPlan) → ArePartsAlike plan → ConfigValues
  built_config plan h = record {
    profiles = h.profiles.0.0;
    interval_seconds = plan.interval_seconds;
    diagnostics_interval_seconds = plan.diagnostics_interval_seconds;
    global_config = h.global_config.0.0;
    primary_consuming_device_ids =
        primary_consuming_device_ids str (materialize_items read plan.primary_consuming_device_ids);
    runtime = h.runtime.0.0;
    state = h.state.0.0;
    haeo = h.haeo.0.0;
    role_constraints = build_core_role_constraints (some read) (mapping plan.role_constraints);
    devices = h.devices.0.0;
  }

  direct-Succeeds :
      (plan : EmsPlan) (h : ArePartsAlike plan)
      → materialize_core_config_direct str read plan ≡ ok (built_config plan h)
  unfolding materialize_core_config_direct
  direct-Succeeds plan h = rw h.profiles.0.1 (
      rw h.global_config.0.1 (
        rw h.runtime.0.1 (
          rw h.state.0.1
            (rw h.devices.0.1 (rw h.haeo.0.1 (rw h.interval (rw h.diagnostics_interval refl)))))))

  via-Succeeds :
      (plan : EmsPlan) (h : ArePartsAlike plan)
      → materialize_core_config_via_resolved_config str read plan ≡ ok (built_config plan h)
  unfolding materialize_core_config_via_resolved_config
  via-Succeeds plan h = rw (second_way h.devices) (
      rw (second_way h.profiles) (
        rw h.interval (
          rw h.diagnostics_interval (
            rw (second_way h.global_config) (
              rw (second_way h.runtime) (
                rw (second_way h.state)
                  (rw (second_way h.haeo) (rw (sym h.role_constraints) refl))))))))

  -- A configuration file without references of a plan, once it compiled, is built in every tick,
  -- whatever the states of its entities, as long as no state is itself such a reference and only a
  -- text is printed as one of the three kinds: both ways to build it give a configuration, with no
  -- error, and they give the same.
  pub direct-resolved :
      (ems : Value) (plan : EmsPlan)
      → is_raw ems ≡ true
      → compile_core_config_plan str ems ≡ ok plan
      → (c : ConfigValues) × (materialize_core_config_direct str read plan ≡ ok c)
        × (materialize_core_config_via_resolved_config str read plan ≡ ok c)
  direct-resolved ems plan raw e =
      let h = plan-ArePartsAlike ems plan raw e in
      (built_config plan h, direct-Succeeds plan h, via-Succeeds plan h)
