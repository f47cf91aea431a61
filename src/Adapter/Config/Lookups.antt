-- ===== src/Adapter/Config/Lookups.antt =====
-- Theorems on Adapter/Config/Values: chains of steps that succeed, and lookups in sections without
-- dynamic values.
use ha_ems.Prelude.{true, none, some, String, same, ◌≡◌, refl, Bool-cases, inl, inr, arith, ◌⊎◌}
use ha_ems.Adapter.Config.Values.{
  Value, mapping, Fields, end, field, Reader, Result, ok, err, ◌>>=◌, lookup_field,
  materialize_dynamic_value, materialize_fields, require_mapping_value, get_value,
}
use ha_ems.Adapter.Config.Resolved.{is_raw}

-- A chain of steps that succeeded succeeded in its first step.
pub succeeded {ℓ κ} :
    {A : Type ℓ} {B : Type κ} (step : Result A) (rest : A → Result B) {made : B}
    → (step >>= rest) ≡ ok made
    → (value : A) × (step ≡ ok value) × (rest value ≡ ok made)
succeeded (ok value) rest e = (value, refl, e)
succeeded (err cause) rest e = absurd (cc e)

pub ok_inj {ℓ} : {A : Type ℓ} {a b : A} → ok a ≡ ok b → a ≡ b
ok_inj {a} {b} e = cc

pub some_inj {ℓ} : {A : Type ℓ} {a b : A} → some a ≡ some b → a ≡ b
some_inj {a} {b} e = cc

pub lookup_field-raw :
    (key : String) (fs : Fields) {v : Value}
    → is_raw (mapping fs) ≡ true
    → lookup_field key fs ≡ some v
    → is_raw v ≡ true
unfolding lookup_field is_raw
lookup_field-raw key end h e = cc
lookup_field-raw key (field k w fs) {v} h e = ground (arith, lookup_field-raw key fs {v = v})

require-lookup_field :
    (fs : Fields) (key : String) {v : Value}
    → require_mapping_value (mapping fs) key ≡ ok v
    → lookup_field key fs ≡ some v
unfolding require_mapping_value
require-lookup_field fs key e = ground arith

pub require-raw :
    (s : Value) (key : String) {v : Value}
    → is_raw s ≡ true
    → require_mapping_value s key ≡ ok v
    → is_raw v ≡ true
unfolding require_mapping_value
require-raw (mapping fs) key h e = lookup_field-raw key fs h (require-lookup_field fs key e)
require-raw _ key h e = cc

get_value-lookup_field :
    (fs : Fields) (key : String) (given : Value) {v : Value}
    → get_value (mapping fs) key given ≡ ok v
    → (lookup_field key fs ≡ some v) ⊎ (v ≡ given)
unfolding get_value
get_value-lookup_field fs key given e = ground arith

pub get_value-raw :
    (s : Value) (key : String) (given : Value) {v : Value}
    → is_raw s ≡ true
    → is_raw given ≡ true
    → get_value s key given ≡ ok v
    → is_raw v ≡ true
unfolding get_value
get_value-raw (mapping fs) key given h g e = elim (get_value-lookup_field fs key given e) [
  | inl found ↦ lookup_field-raw key fs h found
  | inr same_value ↦ rw same_value g
]
get_value-raw _ key given h g e = cc

pub lookup_field-materialize :
    (read : Reader) (key : String) (fs : Fields)
    → lookup_field key (materialize_fields read fs) ≡ elim (lookup_field key fs) [
      | none ↦ none
      | some v ↦ some (materialize_dynamic_value read v)
    ]
unfolding lookup_field materialize_dynamic_value
lookup_field-materialize read key end = refl
lookup_field-materialize read key (field k v fs) = elim (Bool-cases (same k key)) [
  | inl e ↦ rw e refl
  | inr e ↦ rw e (lookup_field-materialize read key fs)
]
