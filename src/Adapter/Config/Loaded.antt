-- ===== src/Adapter/Config/Loaded.antt =====
-- Theorems on Adapter/Config: a device whose plan was compiled is found and built by its kind.
use ha_ems.Prelude.{
  ap, true, false, Option, none, some, String, same, same_iff, if◌then◌else◌, ◌≡◌, ◌≢◌, refl,
  Bool-cases, inl, inr, arith, subst, sym, ◌∙◌,
}
use ha_ems.Adapter.Config.Values.{
  Result, Value, null, text, mapping, Fields, Reader, ok, ◌>>=◌, materialize_fields, lookup_field,
  get_value, require_mapping_value, resolve_core_config_value, resolve_constant, is_missing,
}
use ha_ems.Adapter.Config.Sections.{is_truthy}
use ha_ems.Adapter.Config.DevicePlans.{
  compile_device, compile_device_of_kind, compile_core_battery_device_plan,
  compile_core_ev_device_plan, compile_core_relay_device_plan,
}
use ha_ems.Adapter.Config.DeviceConfigs.{
  DeviceConfig, build_core_battery_device, build_core_ev_device, build_core_relay_device,
  build_device, device_kind,
}
use ha_ems.Adapter.Config.DeviceMaps.{append_field}
use ha_ems.Adapter.Config.Resolved.{is_raw, IsStateReader, IsConstant}
use ha_ems.Adapter.Config.Lookups.{succeeded, ok_inj, some_inj}
use ha_ems.Adapter.Config.Complete.{Succeeds}
use ha_ems.Adapter.Config.Direct.{battery-IsResolved, ev-IsResolved, relay-IsResolved}
use ha_ems.Adapter.Config.DeviceParts.{IsResolved, battery_name, ev_name, relay_name}

-- What the loops rely on of Python's `str`: a text is its own, and nothing but a text is printed as
-- one of the kinds.
pub record IsStr (str : Value → String) : Type 0 where
  pub of_text : (t : String) → str (text t) ≡ t
  pub battery : (v : Value) → str v ≡ "BATTERY" → v ≡ text "BATTERY"
  pub ev : (v : Value) → str v ≡ "EV_CHARGER" → v ≡ text "EV_CHARGER"
  pub relay : (v : Value) → str v ≡ "RELAY" → v ≡ text "RELAY"

-- The loops do the same with this plan.
pub record IsLoaded (str : Value → String) (read : Reader) (device_id : String) (plan : Value)
    : Type 0 where
  pub fields : Fields
  pub is_mapping : plan ≡ mapping fields
  pub kind : String
  pub direct_kind : device_kind str (some read) (mapping fields) ≡ ok kind
  pub resolved_kind :
      device_kind str none
        (mapping (append_field (materialize_fields read fields) "_device_id" (text device_id)))
      ≡ ok kind
  pub built : Succeeds (build_device str (some read) kind device_id (mapping fields))
  pub same_device :
      build_device str (some read) kind device_id (mapping fields)
      ≡ build_device str none kind device_id
          (mapping (append_field (materialize_fields read fields) "_device_id" (text device_id)))

module _ (str : Value → String) (read : Reader) (is_str : IsStr str) where
  device_kind-name :
      (r : Option Reader) (fs : Fields) (name : String)
      → IsConstant (text name)
      → is_missing (text name) ≡ false
      → lookup_field "kind" fs ≡ some (text name)
      → device_kind str r (mapping fs) ≡ ok name
  unfolding device_kind get_value resolve_core_config_value resolve_constant
  device_kind-name r fs name c m e = ground (arith, is_str.of_text name, c.1, m, e)

  -- Every kind has its own function that builds a device.
  resolved-IsLoaded :
      (name : String) (build : String → Option Reader → Value → Result DeviceConfig)
      → ((r : Option Reader) (device_id : String) (v : Value)
          → build_device str r name device_id v
            ≡ (build device_id r v >>= λ built. ok (some built)))
      → IsConstant (text name) × (is_missing (text name) ≡ false)
      → (device_id : String) (plan : Value)
      → IsResolved str read (build device_id) name device_id plan
      → IsLoaded str read device_id plan
  resolved-IsLoaded name build same_build (constant, present) device_id plan l = record {
    fields = l.fields;
    is_mapping = l.is_mapping;
    kind = name;
    direct_kind = device_kind-name (some read) _ name constant present l.kind;
    resolved_kind = device_kind-name none _ name constant present l.resolved_kind;
    built = (some l.built.0, same_build _ _ _ ∙ ap (λ m. m >>= λ built. ok (some built)) l.built.1);
    same_device =
        same_build _ _ _
        ∙ ap (λ m. m >>= λ built. ok (some built)) l.same_device
        ∙ sym (same_build _ _ _);
  }

  -- The kind that the compiler dispatches on is the text in the file.
  kind_text :
      (v : Value) (name : String)
      → name ≢ ""
      → ((w : Value) → str w ≡ name → w ≡ text name)
      → str (if is_truthy v then v else text "") ≡ name
      → v ≡ text name
  kind_text v name full only e = elim (Bool-cases (is_truthy v)) [
    | inl t ↦ only v (rw t at e)
    | inr f ↦ absurd (full (sym (sym (is_str.of_text "") ∙ (rw f at e))))
  ]

  require_kind :
      (fs : Fields) (v : Value)
      → get_value (mapping fs) "kind" null ≡ ok v
      → v ≢ null
      → require_mapping_value (mapping fs) "kind" ≡ ok v
  unfolding get_value require_mapping_value
  require_kind fs v e n = ground (arith, n)

  module _ (states : IsStateReader read) where
    -- One kind of the compiler's dispatch.
    kind_step :
        (name : String)
        → name ≢ ""
        → ((w : Value) → str w ≡ name → w ≡ text name)
        → (compile : String → Value → Result Value) (device_id : String) (fs : Fields)
          (v plan : Value)
        → get_value (mapping fs) "kind" null ≡ ok v
        → str (if is_truthy v then v else text "") ≡ name
        → (compile device_id (mapping fs) >>= λ p. ok (some p)) ≡ ok (some plan)
        → ((p : Value)
            → require_mapping_value (mapping fs) "kind" ≡ ok (text name)
            → compile device_id (mapping fs) ≡ ok p
            → IsLoaded str read device_id p)
        → IsLoaded str read device_id plan
    kind_step name full only compile device_id fs v plan found named e loaded =
        let is_text = kind_text v name full only named in
        let given = subst (λ t. get_value (mapping fs) "kind" null ≡ ok t) is_text found in
        let (p, made, e1) = succeeded (compile device_id (mapping fs)) _ e in
        subst (IsLoaded str read device_id) (some_inj (ok_inj e1))
          (loaded p (require_kind fs (text name) given (cc)) made)

    of_kind-IsLoaded :
        (device_id : String) (fs : Fields) (v plan : Value)
        → is_raw (mapping fs) ≡ true
        → get_value (mapping fs) "kind" null ≡ ok v
        → compile_device_of_kind (str (if is_truthy v then v else text "")) device_id (mapping fs)
          ≡ ok (some plan)
        → IsLoaded str read device_id plan
    unfolding compile_device_of_kind
    of_kind-IsLoaded device_id fs v plan raw found e =
        let name = str (if is_truthy v then v else text "") in
        elim (Bool-cases (same name "BATTERY")) [
          | inl b ↦
              (kind_step "BATTERY" (cc) is_str.battery compile_core_battery_device_plan device_id fs
                v plan found ((same_iff _ _).0 b) (rw b at e)
                λ p required made.
                  resolved-IsLoaded "BATTERY" (λ d r. build_core_battery_device str r d)
                    (λ r d w. unfold build_device in refl) battery_name device_id p
                    (battery-IsResolved str read states device_id (mapping fs) raw p required made))
          | inr b ↦ elim (Bool-cases (same name "EV_CHARGER")) [
            | inl c ↦
                (kind_step "EV_CHARGER" (cc) is_str.ev compile_core_ev_device_plan device_id fs v
                  plan found ((same_iff _ _).0 c) (rw c at (rw b at e))
                  λ p required made.
                    resolved-IsLoaded "EV_CHARGER" (λ d r. build_core_ev_device str r d)
                      (λ r d w. unfold build_device in refl) ev_name device_id p
                      (ev-IsResolved str read states device_id (mapping fs) raw p required made))
            | inr c ↦ elim (Bool-cases (same name "RELAY")) [
              | inl d ↦
                  (kind_step "RELAY" (cc) is_str.relay compile_core_relay_device_plan device_id fs v
                    plan found ((same_iff _ _).0 d) (rw d at (rw c at (rw b at e)))
                    λ p required made.
                      resolved-IsLoaded "RELAY" (λ d r. build_core_relay_device str r d)
                        (λ r d w. unfold build_device in refl) relay_name device_id p
                        (relay-IsResolved str read states device_id (mapping fs) raw p required
                          made))
              | inr d ↦ absurd (cc (rw d at (rw c at (rw b at e))))
            ]
          ]
        ]

    pub device-IsLoaded :
        (device_id : String) (device plan : Value)
        → is_raw device ≡ true
        → compile_device str device_id device ≡ ok (some plan)
        → IsLoaded str read device_id plan
    unfolding compile_device
    device-IsLoaded device_id (mapping fs) plan raw e =
        let (v, found, e1) = succeeded (get_value (mapping fs) "kind" null) _ e in
        of_kind-IsLoaded device_id fs v plan raw found e1
    device-IsLoaded device_id _ plan raw e = absurd (cc e)
