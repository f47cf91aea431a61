-- ===== src/Adapter/Config/Resolved.antt =====
-- Theorems on Adapter/Config: a value of the plan that is read with the entities' states is the value
-- that is read as a constant once its references are resolved.
use ha_ems.Prelude.{
  Bool, true, false, Option, none, some, List, String, if◌then◌else◌, ◌≡◌, sym, ◌∙◌, refl,
  Bool-cases, inl, inr, arith,
}
use ha_ems.Adapter.Config.Values.{
  Value, null, boolean, int, float, text, sequence, mapping, dynamic_config_ref, Items, nil, cons,
  Fields, end, field, is_missing, is_valid_entity_id, compile_dynamic_value, Reader, read_or,
  materialize_dynamic_value, materialize_items, materialize_fields, resolve_constant,
  resolve_core_config_value, ValueType,
}

-- No value of a configuration file is a reference.
unfoldable mutual
  pub is_raw : Value → Bool
  is_raw (dynamic_config_ref path entity_id kind default) = false
  is_raw (mapping fs) = is_raw_fields fs
  is_raw (sequence xs) = is_raw_items xs
  is_raw null = true
  is_raw (boolean b) = true
  is_raw (int z) = true
  is_raw (float z) = true
  is_raw (text t) = true

  pub is_raw_items : Items → Bool
  is_raw_items nil = true
  is_raw_items (cons x xs) = if is_raw x then is_raw_items xs else false

  pub is_raw_fields : Fields → Bool
  is_raw_fields end = true
  is_raw_fields (field k v fs) = if is_raw v then is_raw_fields fs else false

mutual
  unfolding is_raw materialize_dynamic_value

  pub materialize_raw :
      (read : Reader) (v : Value) → is_raw v ≡ true → materialize_dynamic_value read v ≡ v
  materialize_raw read (dynamic_config_ref path entity_id kind default) h = cc
  materialize_raw read (mapping fs) h = ground (arith, materialize_raw_fields read fs h)
  materialize_raw read (sequence xs) h = ground (arith, materialize_raw_items read xs h)
  materialize_raw read null h = refl
  materialize_raw read (boolean b) h = refl
  materialize_raw read (int z) h = refl
  materialize_raw read (float z) h = refl
  materialize_raw read (text t) h = refl

  materialize_raw_items :
      (read : Reader) (xs : Items) → is_raw_items xs ≡ true → materialize_items read xs ≡ xs
  materialize_raw_items read nil h = refl
  materialize_raw_items read (cons x xs) h =
      ground (arith, materialize_raw read x, materialize_raw_items read xs)

  materialize_raw_fields :
      (read : Reader) (fs : Fields) → is_raw_fields fs ≡ true → materialize_fields read fs ≡ fs
  materialize_raw_fields read end h = refl
  materialize_raw_fields read (field k v fs) h =
      ground (arith, materialize_raw read v, materialize_raw_fields read fs)

-- No state of an entity is a reference.
abbrev pub IsStateReader : Reader → Type 0
IsStateReader read =
    (entity_id : String) (default : Value)
    → is_raw default ≡ true
    → is_raw (read entity_id default) ≡ true

pub raw_parts :
    (key : String) (v : Value) (fs : Fields)
    → is_raw_fields (field key v fs) ≡ true
    → (is_raw v ≡ true) × (is_raw_fields fs ≡ true)
unfolding is_raw
raw_parts key v fs h = ground arith

-- A default that is neither a reference nor the name of an entity.
abbrev pub IsConstant : Value → Type 0
IsConstant d = (is_raw d ≡ true) × (is_valid_entity_id d ≡ false)

-- Both ways to read the value `v` of a plan give the same.
abbrev pub Agrees : Reader → Value → Value → Type 0
Agrees read d v =
    resolve_core_config_value v (some read) d
    ≡ resolve_core_config_value (materialize_dynamic_value read v) none d

pub resolve_raw :
    (v : Value) (read : Option Reader) (d : Value)
    → is_raw v ≡ true
    → resolve_core_config_value v read d ≡ resolve_constant v read d
unfolding resolve_core_config_value is_raw
resolve_raw (dynamic_config_ref path entity_id kind own) read d h = cc
resolve_raw (mapping fs) read d h = refl
resolve_raw _ read d h = refl

pub read_or_raw :
    (read : Reader) (entity_id : String) (d : Value)
    → IsStateReader read
    → is_raw d ≡ true
    → is_raw (read_or read entity_id d) ≡ true
unfolding read_or
read_or_raw read entity_id d states h = ground (arith, states entity_id d h)

-- The state that is read, or its default, stands for itself.
read_or_constant :
    (read : Reader) (entity_id : String) (d : Value)
    → resolve_constant (read_or read entity_id d) none d ≡ read_or read entity_id d
unfolding read_or resolve_constant
read_or_constant read entity_id d = ground arith

pub constant-Agrees : (read : Reader) (d v : Value) → IsConstant v → Agrees read d v
constant-Agrees read d v c =
    rw (materialize_raw read v c.0, resolve_raw v (some read) d c.0, resolve_raw v none d c.0)
      (unfold resolve_constant in rw c.1 refl)

ref-Agrees :
    (read : Reader) (d : Value) (path : List String) (entity_id : String) (kind : ValueType)
    → IsStateReader read
    → is_raw d ≡ true
    → Agrees read d (dynamic_config_ref path entity_id kind d)
unfolding resolve_core_config_value materialize_dynamic_value
ref-Agrees read d path entity_id kind states h = sym (
    resolve_raw (read_or read entity_id d) none d (read_or_raw read entity_id d states h)
    ∙ read_or_constant read entity_id d)

ref-Agrees_any :
    (read : Reader) (d own : Value) (path : List String) (entity_id : String) (kind : ValueType)
    → IsStateReader read
    → is_raw own ≡ true
    → is_missing own ≡ false
    → Agrees read d (dynamic_config_ref path entity_id kind own)
unfolding resolve_core_config_value materialize_dynamic_value
ref-Agrees_any read d own path entity_id kind states h m = sym (
    resolve_raw (read_or read entity_id own) none d (read_or_raw read entity_id own states h)
    ∙ (unfold read_or in unfold resolve_constant in ground (arith, m)))

-- A value of the configuration file, once compiled.
pub compile_dynamic_value-Agrees :
    (read : Reader) (v : Value) (path : List String) (d : Value)
    → IsStateReader read
    → is_raw v ≡ true
    → IsConstant d
    → Agrees read d (compile_dynamic_value v path d)
unfolding compile_dynamic_value
compile_dynamic_value-Agrees read v path d states h c = elim (Bool-cases (is_missing v)) [
  | inl e ↦ rw e (constant-Agrees read d d c)
  | inr e ↦ elim (Bool-cases (is_valid_entity_id v)) [
    | inl f ↦ rw e (rw f (ref-Agrees read d path _ _ states c.0))
    | inr f ↦ rw e (rw f (constant-Agrees read d v (h, f)))
  ]
]

-- A value that was compiled with a default that is not missing agrees at any other default.
pub compile_dynamic_value-Agrees_any :
    (read : Reader) (v : Value) (path : List String) (own d : Value)
    → IsStateReader read
    → is_raw v ≡ true
    → IsConstant own
    → is_missing own ≡ false
    → Agrees read d (compile_dynamic_value v path own)
unfolding compile_dynamic_value
compile_dynamic_value-Agrees_any read v path own d states h c m = elim (Bool-cases (is_missing v)) [
  | inl e ↦ rw e (constant-Agrees read d own c)
  | inr e ↦ elim (Bool-cases (is_valid_entity_id v)) [
    | inl f ↦ rw e (rw f (ref-Agrees_any read d own path _ _ states c.0 m))
    | inr f ↦ rw e (rw f (constant-Agrees read d v (h, f)))
  ]
]
