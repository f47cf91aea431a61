-- ===== src/Adapter/Config/RolesResolved.antt =====
-- Theorems on Adapter/Config/Roles: the role constraints are built the same from the plan and from the
-- plan with every reference resolved.
use ha_ems.Prelude.{
  true, false, none, some, List, [], ◌∷◌, ◌++◌, String, same, ◌≡◌, refl, Bool-cases, Option-cases,
  inl, inr, arith, sym, ◌∙◌, ◌⊎◌,
}
use ha_ems.Adapter.Config.Values.{
  Value, null, mapping, Fields, end, field, Reader, is_missing, is_valid_entity_id,
  compile_dynamic_value, materialize_dynamic_value, materialize_fields, lookup_field,
  resolve_core_config_value, resolve_constant, read_or,
}
use ha_ems.Adapter.Config.Roles.{
  compile_constraints, compile_role_devices, compile_roles, with_default, default_section,
  fields_of, compile_core_role_constraints_plan, build_constraints, build_role_devices, build_roles,
  build_core_role_constraints, role_path,
}
use ha_ems.Adapter.Config.Resolved.{
  raw_parts, is_raw, is_raw_fields, materialize_raw, resolve_raw, read_or_raw, IsStateReader,
}
use ha_ems.Adapter.Config.Covered.{missing_later}
use ha_ems.Adapter.Config.Lookups.{lookup_field-raw}

fields_of-raw : (v : Value) → is_raw v ≡ true → is_raw_fields (fields_of v) ≡ true
unfolding fields_of is_raw
fields_of-raw (mapping fs) raw = raw
fields_of-raw _ raw = refl

default_section-missing :
    (fs : Fields) → lookup_field "default" fs ≡ none → default_section fs ≡ end
unfolding default_section
default_section-missing fs e = rw (e, default_section) refl

default_section-raw :
    (fs : Fields) → is_raw (mapping fs) ≡ true → is_raw_fields (default_section fs) ≡ true
unfolding default_section
default_section-raw fs raw = elim (Option-cases (lookup_field "default" fs)) [
  | inl e ↦ rw (e, default_section) (unfold is_raw in refl)
  | inr (v, e) ↦ rw (e, default_section) (fields_of-raw v (lookup_field-raw "default" fs raw e))
]

module _ (str : Value → String) (read : Reader) (states : IsStateReader read) where
  -- Without entities to read, a value that is its own default stands for itself.
  resolve_self : (v : Value) → is_raw v ≡ true → resolve_core_config_value v none v ≡ v
  resolve_self v raw = resolve_raw v none v raw ∙ (unfold resolve_constant in ground arith)

  resolve_constant_self :
      (v : Value)
      → (is_missing v ≡ true) ⊎ (is_valid_entity_id v ≡ false)
      → resolve_constant v (some read) v ≡ v
  unfolding resolve_constant
  resolve_constant_self v h = ground arith

  constant_twice :
      (v : Value)
      → is_raw v ≡ true
      → (is_missing v ≡ true) ⊎ (is_valid_entity_id v ≡ false)
      → resolve_core_config_value v (some read) v
        ≡ resolve_core_config_value
            (materialize_dynamic_value read v)
            none
            (materialize_dynamic_value read v)
  constant_twice v raw h =
      rw (materialize_raw read v raw)
        (resolve_raw v (some read) v raw ∙ resolve_constant_self v h ∙ sym (resolve_self v raw))

  -- A constraint is its own default.
  own_default :
      (v : Value) (path : List String)
      → is_raw v ≡ true
      → resolve_core_config_value
          (compile_dynamic_value v path v)
          (some read)
          (compile_dynamic_value v path v)
        ≡ resolve_core_config_value
            (materialize_dynamic_value read (compile_dynamic_value v path v))
            none
            (materialize_dynamic_value read (compile_dynamic_value v path v))
  unfolding compile_dynamic_value
  own_default v path raw = elim (Bool-cases (is_missing v)) [
    | inl e ↦ rw e (constant_twice v raw (inl e))
    | inr e ↦ elim (Bool-cases (is_valid_entity_id v)) [
      | inl f ↦ rw e (
          rw f (
            unfold resolve_core_config_value materialize_dynamic_value in
            sym (resolve_self (read_or read _ v) (read_or_raw read _ v states raw))))
      | inr f ↦ rw e (rw f (constant_twice v raw (inr f)))
    ]
  ]

  constraints-resolved :
      (path : List String) (fs : Fields)
      → is_raw_fields fs ≡ true
      → build_constraints (some read) (compile_constraints path fs)
        ≡ build_constraints none (materialize_fields read (compile_constraints path fs))
  unfolding compile_constraints build_constraints materialize_dynamic_value
  constraints-resolved path end raw = refl
  constraints-resolved path (field k v fs) raw =
      let parts = raw_parts k v fs raw in
      rw (own_default v (path ++ k ∷ []) parts.0) (rw (constraints-resolved path fs parts.1) refl)

  role_devices-resolved :
      (path : List String) (fs : Fields)
      → is_raw_fields fs ≡ true
      → build_role_devices (some read) (compile_role_devices path fs)
        ≡ build_role_devices none (materialize_fields read (compile_role_devices path fs))
  unfolding compile_role_devices build_role_devices materialize_dynamic_value is_raw
  role_devices-resolved path end raw = refl
  role_devices-resolved path (field k (mapping gs) fs) raw =
      let parts = raw_parts k (mapping gs) fs raw in
      rw (constraints-resolved (path ++ k ∷ []) gs parts.0)
        (rw (role_devices-resolved path fs parts.1) refl)
  role_devices-resolved path (field k v fs) raw =
      role_devices-resolved path fs (raw_parts k v fs raw).1

  roles-resolved :
      (fs : Fields)
      → is_raw_fields fs ≡ true
      → build_roles (some read) (compile_roles fs)
        ≡ build_roles none (materialize_fields read (compile_roles fs))
  unfolding compile_roles build_roles materialize_dynamic_value is_raw
  roles-resolved end raw = refl
  roles-resolved (field k (mapping gs) fs) raw =
      let parts = raw_parts k (mapping gs) fs raw in
      elim (Bool-cases (same k "default")) [
        | inl e ↦ rw e (roles-resolved fs parts.1)
        | inr e ↦ rw e (
            rw e (
              rw (role_devices-resolved (role_path k) gs parts.0)
                (rw (roles-resolved fs parts.1) refl)))
      ]
  roles-resolved (field k v fs) raw = roles-resolved fs (raw_parts k v fs raw).1

  no_default : (fs : Fields) → lookup_field "default" (compile_roles fs) ≡ none
  unfolding compile_roles lookup_field
  no_default end = refl
  no_default (field k (mapping gs) fs) = elim (Bool-cases (same k "default")) [
    | inl e ↦ rw e (no_default fs)
    | inr e ↦ rw e (rw e (no_default fs))
  ]
  no_default (field k null fs) = no_default fs
  no_default (field k v fs) = no_default fs

  abbrev RolesAgree : Fields → Type 0
  RolesAgree plan =
      build_core_role_constraints (some read) (mapping plan)
      ≡ build_core_role_constraints none (mapping (materialize_fields read plan))

  with_default-resolved :
      (default roles : Fields)
      → lookup_field "default" roles ≡ none
      → build_constraints (some read) default
        ≡ build_constraints none (materialize_fields read default)
      → build_roles (some read) roles ≡ build_roles none (materialize_fields read roles)
      → RolesAgree (with_default default roles)
  unfolding build_core_role_constraints with_default materialize_dynamic_value
  with_default-resolved end roles missing d r = rw (default_section-missing roles missing) (
      rw
        (default_section-missing (materialize_fields read roles)
          (missing_later read states "default" roles missing))
        (rw r (unfold build_constraints in refl)))
  with_default-resolved (field k v fs) roles missing d r =
      unfold default_section fields_of in rw d (rw r refl)

  pub role_constraints-resolved :
      (roles : Value) → is_raw roles ≡ true → RolesAgree (compile_core_role_constraints_plan roles)
  unfolding compile_core_role_constraints_plan is_raw
  role_constraints-resolved (mapping fs) raw =
      with_default-resolved (compile_constraints (role_path "default") (default_section fs))
        (compile_roles fs) (no_default fs)
        (constraints-resolved (role_path "default") (default_section fs)
          (default_section-raw fs raw))
        (roles-resolved fs raw)
  role_constraints-resolved _ raw =
      unfold build_core_role_constraints build_constraints build_roles materialize_dynamic_value
        default_section in
      refl
