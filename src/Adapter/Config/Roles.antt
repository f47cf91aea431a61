-- ===== src/Adapter/Config/Roles.antt =====
-- modules/ems_adapter/config_loader.py: the sections of HAEO, of the role constraints and of the primary
-- consumers, in the plan and in the configuration.
use ha_ems.Prelude.{Option, none, some, List, [], ◌∷◌, ◌++◌, String, same, if◌then◌else◌}
use ha_ems.Adapter.Config.Values.{
  ◌>>=◌, Value, null, text, mapping, Fields, end, field, Result, ok, Reader, compile_dynamic_value,
  resolve_core_config_value, get_value, lookup_field,
}
use ha_ems.Adapter.Config.Sections.{
  Entry, entry, Attribute, attribute, compile_section, build_section,
}

abbrev pub haeo_entries : List Entry
haeo_entries = entry "power_active" (text "") ∷ entry "fresh_source" (text "") ∷ []

abbrev pub haeo_path : String → List String
haeo_path device_id = "ems" ∷ "haeo" ∷ "devices" ∷ device_id ∷ []

unfoldable pub compile_haeo_devices : Fields → Result Fields
compile_haeo_devices end = ok end
compile_haeo_devices (field device_id (mapping fs) devices) = do
  plan ← compile_section (haeo_path device_id) (mapping fs) haeo_entries
  plans ← compile_haeo_devices devices
  ok (field device_id (mapping plan) plans)
compile_haeo_devices (field device_id _ devices) = compile_haeo_devices devices

-- `haeo.get('devices', {})` is compiled if it is a dictionary.
unfoldable pub compile_haeo_section : Value → Result Value
compile_haeo_section (mapping devices) = do
  plans ← compile_haeo_devices devices
  ok (mapping (field "devices" (mapping plans) end))
compile_haeo_section _ = ok (mapping (field "devices" (mapping end) end))

unfoldable pub compile_core_haeo_plan : Value → Result Value
unfolding get_value compile_haeo_section
compile_core_haeo_plan (mapping fs) = do
  raw_devices ← get_value (mapping fs) "devices" (mapping end)
  compile_haeo_section raw_devices
compile_core_haeo_plan _ = ok null

abbrev pub haeo_attributes : List Attribute
haeo_attributes = attribute "power_active" (text "") ∷ attribute "fresh_source" (text "") ∷ []

module _ (str : Value → String) (read : Option Reader) where
  unfoldable pub build_haeo_devices : Fields → Result (List (String × Fields))
  build_haeo_devices end = ok []
  build_haeo_devices (field device_id (mapping fs) devices) = do
    built ← build_section str read (mapping fs) haeo_attributes
    rest ← build_haeo_devices devices
    ok ((device_id, built) ∷ rest)
  build_haeo_devices (field device_id _ devices) = build_haeo_devices devices

  unfoldable pub build_haeo_section : Value → Result (List (String × Fields))
  build_haeo_section (mapping devices) = build_haeo_devices devices
  build_haeo_section _ = ok []

  unfoldable pub build_core_haeo_config : Value → Result (Option (List (String × Fields)))
  unfolding get_value build_haeo_section
  build_core_haeo_config (mapping fs) = do
    raw_devices ← get_value (mapping fs) "devices" (mapping end)
    devices ← build_haeo_section raw_devices
    ok (some devices)
  build_core_haeo_config _ = ok none

-- The fields of one dictionary of constraints: each value is its own default.
unfoldable pub compile_constraints : List String → Fields → Fields
compile_constraints path end = end
compile_constraints path (field key value fs) =
    field key (compile_dynamic_value value (path ++ key ∷ []) value) (compile_constraints path fs)

unfoldable pub compile_role_devices : List String → Fields → Fields
unfolding compile_constraints
compile_role_devices path end = end
compile_role_devices path (field device_id (mapping fs) devices) =
    field device_id (mapping (compile_constraints (path ++ device_id ∷ []) fs))
      (compile_role_devices path devices)
compile_role_devices path (field device_id _ devices) = compile_role_devices path devices

abbrev pub role_path : String → List String
role_path role_key = "ems" ∷ "role_constraints" ∷ role_key ∷ []

unfoldable pub compile_roles : Fields → Fields
unfolding compile_role_devices
compile_roles end = end
compile_roles (field role_key (mapping devices) roles) =
    let rest = compile_roles roles in
    if same role_key "default"
    then rest
    else field role_key (mapping (compile_role_devices (role_path role_key) devices)) rest
compile_roles (field role_key _ roles) = compile_roles roles

-- `compiled['default']`, which is left out where it is empty.
unfoldable pub with_default : Fields → Fields → Fields
with_default end roles = roles
with_default (field k v fs) roles = field "default" (mapping (field k v fs)) roles

-- `role_constraints.get('default', {})`, if it is a dictionary.
unfoldable pub fields_of : Value → Fields
fields_of (mapping fs) = fs
fields_of _ = end

unfoldable pub default_section : Fields → Fields
unfolding lookup_field fields_of
default_section fs = elim (lookup_field "default" fs) [
  | none ↦ end
  | some default ↦ fields_of default
]

unfoldable pub compile_core_role_constraints_plan : Value → Fields
unfolding compile_roles with_default compile_constraints
compile_core_role_constraints_plan (mapping fs) =
    with_default (compile_constraints (role_path "default") (default_section fs)) (compile_roles fs)
compile_core_role_constraints_plan _ = end

-- CoreRoleConstraintsConfig.
pub record RoleConstraints : Type 0 where
  pub default : Fields
  pub by_role : List (String × List (String × Fields))

module _ (read : Option Reader) where
  unfoldable pub build_constraints : Fields → Fields
  build_constraints end = end
  build_constraints (field key value fs) =
      field key (resolve_core_config_value value read value) (build_constraints fs)

  unfoldable pub build_role_devices : Fields → List (String × Fields)
  unfolding build_constraints
  build_role_devices end = []
  build_role_devices (field device_id (mapping fs) devices) =
      (device_id, build_constraints fs) ∷ build_role_devices devices
  build_role_devices (field device_id _ devices) = build_role_devices devices

  unfoldable pub build_roles : Fields → List (String × List (String × Fields))
  unfolding build_role_devices
  build_roles end = []
  build_roles (field role_key (mapping devices) roles) =
      let rest = build_roles roles in
      if same role_key "default" then rest else (role_key, build_role_devices devices) ∷ rest
  build_roles (field role_key _ roles) = build_roles roles

  unfoldable pub build_core_role_constraints : Value → RoleConstraints
  unfolding build_roles build_constraints
  build_core_role_constraints (mapping fs) = record {
    default = build_constraints (default_section fs);
    by_role = build_roles fs;
  }
  build_core_role_constraints _ = record { default = end; by_role = [] }
