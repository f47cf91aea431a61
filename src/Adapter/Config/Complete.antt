-- ===== src/Adapter/Config/Complete.antt =====
-- Theorems on Adapter/Config: what was compiled can be built.
use ha_ems.Prelude.{
  Option, none, some, List, [], ◌∷◌, String, same, ◌≡◌, refl, Bool-cases, inl, inr, arith, subst,
}
use ha_ems.Adapter.Config.Values.{
  Value, text, mapping, Fields, end, field, Reader, Result, ok, lookup_field, require_mapping_value,
  get_value, resolve_core_config_value,
}
use ha_ems.Adapter.Config.Sections.{
  Presence, required, defaulted, optional, Entry, compile_entry, compile_section, Attribute,
  build_entry, build_section, convert, attribute,
}
use ha_ems.Adapter.Config.DevicePlans.{battery_plan, consumer_plan}
use ha_ems.Adapter.Config.DeviceConfigs.{
  capabilities_attributes, battery_policy_attributes, battery_guard_attributes,
  ev_policy_attributes, ev_adapter_attributes, relay_policy_attributes, battery_defaults,
  ev_defaults, relay_defaults, build_core_battery_device, build_core_ev_device,
  build_core_relay_device,
}
use ha_ems.Adapter.Config.Roles.{
  haeo_entries, haeo_attributes, compile_haeo_devices, compile_haeo_section, compile_core_haeo_plan,
  build_haeo_devices, build_core_haeo_config, haeo_path,
}
use ha_ems.Adapter.Config.Covered.{default_of, AreCovered}
use ha_ems.Adapter.Config.Lookups.{succeeded, ok_inj}
use ha_ems.Adapter.Config.Tables.{haeo_covered}

-- The step gives a result.
abbrev pub Succeeds {ℓ} : {A : Type ℓ} → Result A → Type ℓ
Succeeds {A} m = (a : A) × (m ≡ ok a)

compile_section-lookup_field :
    (path : List String) (s : Value) (es : List Entry) (fs : Fields) (key : String) {d : Value}
    → compile_section path s es ≡ ok fs
    → default_of key es ≡ some d
    → (v : Value) × (lookup_field key fs ≡ some v)
unfolding compile_section lookup_field
compile_section-lookup_field path s [] fs key e g = cc
compile_section-lookup_field path s (x ∷ es) fs key {d} e g =
    let (w, made, e1) = succeeded (compile_entry path s x.key x.presence x.default) _ e in
    let (rest, later, e2) = succeeded (compile_section path s es) _ e1 in
    subst (λ t. (v : Value) × (lookup_field key t ≡ some v)) (ok_inj e2)
      (elim (Bool-cases (same x.key key)) [
        | inl here ↦ (w, rw here refl)
        | inr there ↦
            let found = compile_section-lookup_field path s es rest key later (rw there at g) in
            (found.0, rw there found.1)
      ])

module _ (str : Value → String) (read : Option Reader) where
  build_entry-Succeeds :
      (fs : Fields) (key : String) (presence : Presence) (d v : Value)
      → lookup_field key fs ≡ some v
      → build_entry str read (mapping fs) key presence d ≡ ok (resolve_core_config_value v read d)
  unfolding build_entry require_mapping_value get_value
  build_entry-Succeeds fs key required d v e = ground (arith, e)
  build_entry-Succeeds fs key (defaulted given) d v e = ground (arith, e)
  build_entry-Succeeds fs key (optional absent) d v e = ground (arith, e)

  pub build_section-Succeeds :
      (path : List String) (s : Value) (es : List Entry) (fs : Fields) (attributes : List Attribute)
      → compile_section path s es ≡ ok fs
      → AreCovered es attributes
      → Succeeds (build_section str read (mapping fs) attributes)
  unfolding build_section
  build_section-Succeeds path s es fs [] e cov = (end, refl)
  build_section-Succeeds path s es fs (a ∷ rest) e cov =
      let (v, found) = compile_section-lookup_field path s es fs a.entry.key e cov.0.0 in
      let (b, made) = build_section-Succeeds path s es fs rest e cov.1 in
      (
        field a.entry.key
            (convert str read a.conversion (resolve_core_config_value v read a.entry.default)) b,
        rw (build_entry-Succeeds fs a.entry.key a.entry.presence a.entry.default v found)
            (rw made refl),
      )

  pub battery-Succeeds :
      (device_id : String) (kind : Value) (capabilities policy guard adapter : Fields)
      → Succeeds
          (build_section str read (mapping capabilities) (capabilities_attributes battery_defaults))
      → Succeeds (build_section str read (mapping policy) battery_policy_attributes)
      → Succeeds (build_section str read (mapping guard) battery_guard_attributes)
      → Succeeds (build_section str read (mapping adapter) (attribute "target_w" (text "") ∷ []))
      → Succeeds (
          build_core_battery_device str read device_id
            (mapping (battery_plan device_id kind capabilities policy guard adapter)))
  unfolding build_core_battery_device require_mapping_value
  battery-Succeeds device_id kind capabilities policy guard adapter (c, cs) (p, ps) (g, gs)
        (a, as') =
      (
        record {
          device_id = device_id;
          kind = str (resolve_core_config_value kind read (text "BATTERY"));
          capabilities = c;
          policy = p;
          guard = g;
          adapter = a;
        },
        rw cs (rw ps (rw gs (rw as' refl))),
      )

  pub ev-Succeeds :
      (device_id : String) (kind : Value) (capabilities policy adapter : Fields)
      → Succeeds
          (build_section str read (mapping capabilities) (capabilities_attributes ev_defaults))
      → Succeeds (build_section str read (mapping policy) ev_policy_attributes)
      → Succeeds (build_section str read (mapping adapter) ev_adapter_attributes)
      → Succeeds (
          build_core_ev_device str read device_id
            (mapping (consumer_plan device_id kind capabilities policy adapter)))
  unfolding build_core_ev_device require_mapping_value
  ev-Succeeds device_id kind capabilities policy adapter (c, cs) (p, ps) (a, as') = (
    record {
      device_id = device_id;
      kind = str (resolve_core_config_value kind read (text "EV_CHARGER"));
      capabilities = c;
      policy = p;
      guard = end;
      adapter = a;
    },
    rw cs (rw ps (rw as' refl)),
  )

  pub relay-Succeeds :
      (device_id : String) (kind : Value) (capabilities policy adapter : Fields)
      → Succeeds (
          build_section str read
            (mapping capabilities)
            (capabilities_attributes (relay_defaults device_id)))
      → Succeeds (build_section str read (mapping policy) (relay_policy_attributes device_id))
      → Succeeds (build_section str read (mapping adapter) (attribute "enabled" (text "") ∷ []))
      → Succeeds (
          build_core_relay_device str read device_id
            (mapping (consumer_plan device_id kind capabilities policy adapter)))
  unfolding build_core_relay_device require_mapping_value
  relay-Succeeds device_id kind capabilities policy adapter (c, cs) (p, ps) (a, as') = (
    record {
      device_id = device_id;
      kind = str (resolve_core_config_value kind read (text "RELAY"));
      capabilities = c;
      policy = p;
      guard = end;
      adapter = a;
    },
    rw cs (rw ps (rw as' refl)),
  )

  haeo_step :
      (device_id : String) (plan plans : Fields)
      → Succeeds (build_section str read (mapping plan) haeo_attributes)
      → Succeeds (build_haeo_devices str read plans)
      → Succeeds (build_haeo_devices str read (field device_id (mapping plan) plans))
  unfolding build_haeo_devices
  haeo_step device_id plan plans (b, built) (rest, built_rest) =
      ((device_id, b) ∷ rest, rw built (rw built_rest refl))

  haeo_devices-Succeeds :
      (devices plans : Fields)
      → compile_haeo_devices devices ≡ ok plans
      → Succeeds (build_haeo_devices str read plans)
  unfolding compile_haeo_devices
  haeo_devices-Succeeds end plans e =
      subst (λ t. Succeeds (build_haeo_devices str read t)) (ok_inj e)
        ([], unfold build_haeo_devices in refl)
  haeo_devices-Succeeds (field device_id (mapping fs) devices) plans e =
      let (plan, made, e1) =
        succeeded (compile_section (haeo_path device_id) (mapping fs) haeo_entries) _ e in
      let (later, made_later, e2) = succeeded (compile_haeo_devices devices) _ e1 in
      subst (λ t. Succeeds (build_haeo_devices str read t)) (ok_inj e2)
        (haeo_step device_id plan later
          (build_section-Succeeds _ (mapping fs) haeo_entries plan haeo_attributes made
            haeo_covered)
          (haeo_devices-Succeeds devices later made_later))
  haeo_devices-Succeeds (field device_id v devices) plans e = haeo_devices-Succeeds devices plans e

  haeo_section-Succeeds :
      (devices plan : Value)
      → compile_haeo_section devices ≡ ok plan
      → Succeeds (build_core_haeo_config str read plan)
  unfolding compile_haeo_section
  haeo_section-Succeeds (mapping devices) plan e =
      let (plans, made, e1) = succeeded (compile_haeo_devices devices) _ e in
      let (b, built) = haeo_devices-Succeeds devices plans made in
      subst (λ t. Succeeds (build_core_haeo_config str read t)) (ok_inj e1)
        (some b, unfold build_core_haeo_config in rw built refl)
  haeo_section-Succeeds _ plan e =
      subst (λ t. Succeeds (build_core_haeo_config str read t)) (ok_inj e)
        (some [], unfold build_core_haeo_config build_haeo_devices in refl)

  pub haeo-Succeeds :
      (haeo plan : Value)
      → compile_core_haeo_plan haeo ≡ ok plan
      → Succeeds (build_core_haeo_config str read plan)
  unfolding compile_core_haeo_plan
  haeo-Succeeds (mapping fs) plan e =
      let (devices, found, e1) = succeeded (get_value (mapping fs) "devices" (mapping end)) _ e in
      haeo_section-Succeeds devices plan e1
  haeo-Succeeds _ plan e =
      subst (λ t. Succeeds (build_core_haeo_config str read t)) (ok_inj e)
        (none, unfold build_core_haeo_config in refl)
