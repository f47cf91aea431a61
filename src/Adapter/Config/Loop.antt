-- ===== src/Adapter/Config/Loop.antt =====
-- Theorems on Adapter/Config: the two loops over the devices of a plan.
use ha_ems.Prelude.{[], true, Option, none, some, String, ◌≡◌, refl, subst}
use ha_ems.Adapter.Config.Values.{
  Value, Fields, end, field, Reader, ok, materialize_dynamic_value, materialize_fields,
}
use ha_ems.Adapter.Config.DevicePlans.{compile_device, compile_core_devices_plan, add_plan}
use ha_ems.Adapter.Config.DeviceMaps.{
  materialize_core_devices_from_plan, build_core_devices_map, add_device,
}
use ha_ems.Adapter.Config.Resolved.{raw_parts, is_raw, is_raw_fields, IsStateReader}
use ha_ems.Adapter.Config.Lookups.{succeeded, ok_inj}
use ha_ems.Adapter.Config.Complete.{Succeeds}
use ha_ems.Adapter.Config.Loaded.{IsStr, IsLoaded, device-IsLoaded}

module _ (str : Value → String) (read : Reader) (is_str : IsStr str)
    (states : IsStateReader read) where
  loaded_step :
      (device_id : String) (plan : Value) (plans : Fields)
      → IsLoaded str read device_id plan
      → materialize_core_devices_from_plan str read plans
        ≡ build_core_devices_map str (materialize_fields read plans)
      → materialize_core_devices_from_plan str read (field device_id plan plans)
        ≡ build_core_devices_map str (materialize_fields read (field device_id plan plans))
  unfolding materialize_core_devices_from_plan build_core_devices_map materialize_dynamic_value
  loaded_step device_id plan plans l later =
      rw l.is_mapping (rw l.direct_kind (rw l.resolved_kind (rw l.same_device (rw later refl))))

  add_step :
      (device_id : String) (device : Value) (p : Option Value) (plans : Fields)
      → is_raw device ≡ true
      → compile_device str device_id device ≡ ok p
      → materialize_core_devices_from_plan str read plans
        ≡ build_core_devices_map str (materialize_fields read plans)
      → materialize_core_devices_from_plan str read (add_plan device_id p plans)
        ≡ build_core_devices_map str (materialize_fields read (add_plan device_id p plans))
  add_step device_id device none plans raw made later = later
  add_step device_id device (some plan) plans raw made later =
      loaded_step device_id plan plans
        (device-IsLoaded str read is_str states device_id device plan raw made) later

  -- Whatever the states of the entities, the devices that are built straight from the compiled plan
  -- are those that are built from the plan with every reference resolved first; an error of one way
  -- is the error of the other.
  pub devices-resolved :
      (devices plans : Fields)
      → is_raw_fields devices ≡ true
      → compile_core_devices_plan str devices ≡ ok plans
      → materialize_core_devices_from_plan str read plans
        ≡ build_core_devices_map str (materialize_fields read plans)
  unfolding compile_core_devices_plan is_raw
  devices-resolved end plans raw e =
      subst
        (λ t.
          materialize_core_devices_from_plan str read t
          ≡ build_core_devices_map str (materialize_fields read t))
        (ok_inj e)
        (unfold materialize_core_devices_from_plan build_core_devices_map
            materialize_dynamic_value in
          refl)
  devices-resolved (field device_id device devices) plans raw e =
      let (p, made, e1) = succeeded (compile_device str device_id device) _ e in
      let (later, made_later, e2) = succeeded (compile_core_devices_plan str devices) _ e1 in
      subst
        (λ t.
          materialize_core_devices_from_plan str read t
          ≡ build_core_devices_map str (materialize_fields read t))
        (ok_inj e2)
        (add_step device_id device p later (raw_parts device_id device devices raw).0 made
          (devices-resolved devices later (raw_parts device_id device devices raw).1 made_later))

  loaded_step-Succeeds :
      (device_id : String) (plan : Value) (plans : Fields)
      → IsLoaded str read device_id plan
      → Succeeds (materialize_core_devices_from_plan str read plans)
      → Succeeds (materialize_core_devices_from_plan str read (field device_id plan plans))
  unfolding materialize_core_devices_from_plan
  loaded_step-Succeeds device_id plan plans l (rest, later) = (
    add_device device_id l.built.0 rest,
    rw l.is_mapping (rw l.direct_kind (rw l.built.1 (rw later refl))),
  )

  add_step-Succeeds :
      (device_id : String) (device : Value) (p : Option Value) (plans : Fields)
      → is_raw device ≡ true
      → compile_device str device_id device ≡ ok p
      → Succeeds (materialize_core_devices_from_plan str read plans)
      → Succeeds (materialize_core_devices_from_plan str read (add_plan device_id p plans))
  add_step-Succeeds device_id device none plans raw made later = later
  add_step-Succeeds device_id device (some plan) plans raw made later =
      loaded_step-Succeeds device_id plan plans
        (device-IsLoaded str read is_str states device_id device plan raw made) later

  -- Devices whose plans were compiled are built.
  pub devices-Succeed :
      (devices plans : Fields)
      → is_raw_fields devices ≡ true
      → compile_core_devices_plan str devices ≡ ok plans
      → Succeeds (materialize_core_devices_from_plan str read plans)
  unfolding compile_core_devices_plan
  devices-Succeed end plans raw e =
      subst (λ t. Succeeds (materialize_core_devices_from_plan str read t)) (ok_inj e)
        ([], unfold materialize_core_devices_from_plan in refl)
  devices-Succeed (field device_id device devices) plans raw e =
      let (p, made, e1) = succeeded (compile_device str device_id device) _ e in
      let (later, made_later, e2) = succeeded (compile_core_devices_plan str devices) _ e1 in
      subst (λ t. Succeeds (materialize_core_devices_from_plan str read t)) (ok_inj e2)
        (add_step-Succeeds device_id device p later (raw_parts device_id device devices raw).0 made
          (devices-Succeed devices later (raw_parts device_id device devices raw).1 made_later))
