-- ===== src/Adapter/Config/HaeoResolved.antt =====
-- Theorems on Adapter/Config/Roles: the section of HAEO is built the same from the plan and from the
-- plan with every reference resolved.
use ha_ems.Prelude.{true, none, some, String, ◌≡◌, refl, subst}
use ha_ems.Adapter.Config.Values.{
  Value, mapping, Fields, end, field, Reader, ok, materialize_dynamic_value, materialize_fields,
  get_value,
}
use ha_ems.Adapter.Config.Sections.{build_section, compile_section}
use ha_ems.Adapter.Config.Roles.{
  haeo_entries, haeo_attributes, compile_haeo_devices, compile_haeo_section, compile_core_haeo_plan,
  build_haeo_devices, build_core_haeo_config,
}
use ha_ems.Adapter.Config.Tables.{haeo_covered, haeo_constant}
use ha_ems.Adapter.Config.Resolved.{raw_parts, is_raw, is_raw_fields, IsStateReader}
use ha_ems.Adapter.Config.Covered.{build_section-Agrees}
use ha_ems.Adapter.Config.Lookups.{succeeded, ok_inj, get_value-raw}

module _ (str : Value → String) (read : Reader) (states : IsStateReader read) where
  abbrev HaeoAgrees : Fields → Type 0
  HaeoAgrees plans =
      build_haeo_devices str (some read) plans
      ≡ build_haeo_devices str none (materialize_fields read plans)

  haeo_step :
      (device_id : String) (plan plans : Fields)
      → build_section str (some read) (mapping plan) haeo_attributes
        ≡ build_section str none (mapping (materialize_fields read plan)) haeo_attributes
      → HaeoAgrees plans
      → HaeoAgrees (field device_id (mapping plan) plans)
  unfolding build_haeo_devices materialize_dynamic_value
  haeo_step device_id plan plans one rest = rw one (rw rest refl)

  haeo_devices-resolved :
      (devices plans : Fields)
      → is_raw_fields devices ≡ true
      → compile_haeo_devices devices ≡ ok plans
      → HaeoAgrees plans
  unfolding compile_haeo_devices
  haeo_devices-resolved end plans raw e =
      subst HaeoAgrees (ok_inj e) (unfold build_haeo_devices materialize_dynamic_value in refl)
  haeo_devices-resolved (field device_id (mapping fs) devices) plans raw e =
      let parts = raw_parts device_id (mapping fs) devices raw in
      let (plan, made, e1) = succeeded (compile_section _ (mapping fs) haeo_entries) _ e in
      let (later, made_later, e2) = succeeded (compile_haeo_devices devices) _ e1 in
      subst HaeoAgrees (ok_inj e2) (
        haeo_step device_id plan later
          (build_section-Agrees read states str _ (mapping fs) haeo_entries plan haeo_attributes
            parts.0 haeo_constant made haeo_covered)
          (haeo_devices-resolved devices later parts.1 made_later))
  haeo_devices-resolved (field device_id v devices) plans raw e =
      haeo_devices-resolved devices plans (raw_parts device_id v devices raw).1 e

  abbrev HaeoConfigAgrees : Value → Type 0
  HaeoConfigAgrees plan =
      build_core_haeo_config str (some read) plan
      ≡ build_core_haeo_config str none (materialize_dynamic_value read plan)

  haeo_mapping :
      (plans : Fields)
      → HaeoAgrees plans
      → HaeoConfigAgrees (mapping (field "devices" (mapping plans) end))
  unfolding build_core_haeo_config materialize_dynamic_value
  haeo_mapping plans h = rw h refl

  haeo_section-resolved :
      (devices plan : Value)
      → is_raw devices ≡ true
      → compile_haeo_section devices ≡ ok plan
      → HaeoConfigAgrees plan
  unfolding compile_haeo_section is_raw
  haeo_section-resolved (mapping devices) plan raw e =
      let (plans, made, e1) = succeeded (compile_haeo_devices devices) _ e in
      subst HaeoConfigAgrees (ok_inj e1)
        (haeo_mapping plans (haeo_devices-resolved devices plans raw made))
  haeo_section-resolved _ plan raw e =
      subst HaeoConfigAgrees (ok_inj e)
        (haeo_mapping end (unfold build_haeo_devices materialize_dynamic_value in refl))

  pub haeo-resolved :
      (haeo plan : Value)
      → is_raw haeo ≡ true
      → compile_core_haeo_plan haeo ≡ ok plan
      → HaeoConfigAgrees plan
  unfolding compile_core_haeo_plan
  haeo-resolved (mapping fs) plan raw e =
      let (devices, found, e1) = succeeded (get_value (mapping fs) "devices" (mapping end)) _ e in
      haeo_section-resolved devices plan
        (get_value-raw (mapping fs) "devices" (mapping end) raw (unfold is_raw in refl) found) e1
  haeo-resolved _ plan raw e =
      subst HaeoConfigAgrees (ok_inj e)
        (unfold build_core_haeo_config materialize_dynamic_value in refl)
