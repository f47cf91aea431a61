-- ===== src/Adapter/Config/Sections.antt =====
-- modules/ems_adapter/config_loader.py: how one section of a configuration is compiled and built. The
-- entries of a dictionary literal or of a constructor call are a table, in their order.
use ha_ems.Prelude.{
  Bool, true, false, not, Option, none, some, List, [], ◌∷◌, ◌++◌, String, same, pos, eqb_ℤ,
}
use ha_ems.Adapter.Config.Values.{
  ◌>>=◌, Value, null, boolean, int, float, text, sequence, mapping, nil, Fields, end, field, Result,
  ok, err, not_a_mapping, Reader, compile_dynamic_value, resolve_core_config_value,
  require_mapping_value, get_value, lookup_field,
}

-- `_require_mapping_value(section, key)`; `section.get(key, default)`; the first if the key is in
-- the section and a constant otherwise.
pub data Presence : Type 0 where
  required : Presence
  defaulted : Value → Presence
  optional : Value → Presence

pub record Entry : Type 0 where
  pub key : String
  pub presence : Presence
  pub default : Value

abbrev pub entry : String → Value → Entry
entry key default = record { key = key; presence = required; default = default }

-- One entry of a compiled section.
unfoldable pub compile_entry : List String → Value → String → Presence → Value → Result Value
unfolding require_mapping_value get_value
compile_entry path section key required default = do
  value ← require_mapping_value section key
  ok (compile_dynamic_value value (path ++ key ∷ []) default)
compile_entry path section key (defaulted given) default = do
  value ← get_value section key given
  ok (compile_dynamic_value value (path ++ key ∷ []) default)
compile_entry path (mapping fs) key (optional absent) default = elim (lookup_field key fs) [
  | none ↦ ok absent
  | some value ↦ ok (compile_dynamic_value value (path ++ key ∷ []) default)
]
compile_entry path _ key (optional absent) default = err not_a_mapping

unfoldable pub compile_section : List String → Value → List Entry → Result Fields
unfolding compile_entry
compile_section path section [] = ok end
compile_section path section (e ∷ es) = do
  value ← compile_entry path section e.key e.presence e.default
  rest ← compile_section path section es
  ok (field e.key value rest)

-- What a constructor call makes of a resolved value: `bool(value)`, `str(value)` or the value.
pub data Conversion : Type 0 where
  as_is to_bool to_str : Conversion

unfoldable pub is_truthy : Value → Bool
is_truthy null = false
is_truthy (boolean b) = b
is_truthy (int z) = not (eqb_ℤ z (pos 0))
is_truthy (float z) = not (eqb_ℤ z (pos 0))
is_truthy (text t) = not (same t "")
is_truthy (sequence nil) = false
is_truthy (mapping end) = false
is_truthy _ = true

pub record Attribute : Type 0 where
  pub entry : Entry
  pub conversion : Conversion

abbrev pub attribute : String → Value → Attribute
attribute key default = record { entry = entry key default; conversion = as_is }

abbrev pub converted : String → Conversion → Value → Attribute
converted key conversion default = record { entry = entry key default; conversion = conversion }

-- `str` is Python's `str` of a value. A section is read with `read`, or as constants.
module _ (str : Value → String) (read : Option Reader) where
  unfoldable pub convert : Conversion → Value → Value
  unfolding is_truthy
  convert as_is value = value
  convert to_bool value = boolean (is_truthy value)
  convert to_str value = text (str value)

  unfoldable pub build_entry : Value → String → Presence → Value → Result Value
  unfolding require_mapping_value get_value
  build_entry section key required default = do
    value ← require_mapping_value section key
    ok (resolve_core_config_value value read default)
  build_entry section key (defaulted given) default = do
    value ← get_value section key given
    ok (resolve_core_config_value value read default)
  build_entry (mapping fs) key (optional absent) default = elim (lookup_field key fs) [
    | none ↦ ok absent
    | some value ↦ ok (resolve_core_config_value value read default)
  ]
  build_entry _ key (optional absent) default = err not_a_mapping

  -- The attributes of a record, as a dictionary.
  unfoldable pub build_section : Value → List Attribute → Result Fields
  unfolding build_entry convert
  build_section section [] = ok end
  build_section section (a ∷ as') = do
    value ← build_entry section a.entry.key a.entry.presence a.entry.default
    rest ← build_section section as'
    ok (field a.entry.key (convert a.conversion value) rest)
