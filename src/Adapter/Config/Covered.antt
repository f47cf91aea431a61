-- ===== src/Adapter/Config/Covered.antt =====
-- Theorems on Adapter/Config/Sections: a section of the plan builds the same attributes whether its
-- references are read one by one or resolved before.
use ha_ems.Prelude.{
  true, Option, none, some, List, [], ◌∷◌, ◌++◌, String, same, if◌then◌else◌, ◌≡◌, refl, Bool-cases,
  Option-cases, inl, inr, arith, All, subst, sym,
}
use ha_ems.Adapter.Config.Values.{
  Value, mapping, Fields, Reader, ok, lookup_field, materialize_dynamic_value, materialize_fields,
  require_mapping_value, get_value, resolve_core_config_value, compile_dynamic_value,
}
use ha_ems.Adapter.Config.Sections.{
  Presence, required, defaulted, optional, Entry, compile_entry, compile_section, Attribute,
  build_entry, build_section, convert,
}
use ha_ems.Adapter.Config.Resolved.{
  is_raw, materialize_raw, IsStateReader, IsConstant, Agrees, constant-Agrees,
  compile_dynamic_value-Agrees,
}
use ha_ems.Adapter.Config.Lookups.{
  succeeded, ok_inj, some_inj, lookup_field-raw, require-raw, get_value-raw,
  lookup_field-materialize,
}

-- The value that an entry gives where its key is not in the section.
abbrev pub IsConstantPresence : Presence → Type 0
IsConstantPresence required = Unit {0}
IsConstantPresence (defaulted given) = IsConstant given
IsConstantPresence (optional absent) = IsConstant absent

module _ (read : Reader) (states : IsStateReader read) where
  optional-Agrees :
      (path : List String) (fs : Fields) (key : String) (absent d : Value) {v : Value}
      (found : Option Value)
      → lookup_field key fs ≡ found
      → is_raw (mapping fs) ≡ true
      → IsConstant absent
      → IsConstant d
      → elim found [
        | none ↦ ok absent
        | some value ↦ ok (compile_dynamic_value value (path ++ key ∷ []) d)
      ]
        ≡ ok v
      → Agrees read d v
  optional-Agrees path fs key absent d {v} none l h p c e =
      subst (Agrees read d) (ok_inj e) (constant-Agrees read d absent p)
  optional-Agrees path fs key absent d {v} (some w) l h p c e = subst (Agrees read d) (ok_inj e) (
      compile_dynamic_value-Agrees read w (path ++ key ∷ []) d states (lookup_field-raw key fs h l)
        c)

  compile_entry-Agrees :
      (path : List String) (s : Value) (key : String) (presence : Presence) (d : Value) {v : Value}
      → is_raw s ≡ true
      → IsConstantPresence presence
      → IsConstant d
      → compile_entry path s key presence d ≡ ok v
      → Agrees read d v
  unfolding compile_entry
  compile_entry-Agrees path s key required d {v} h p c e =
      let (w, found, made) = succeeded (require_mapping_value s key) _ e in
      subst (Agrees read d) (ok_inj made) (
        compile_dynamic_value-Agrees read w (path ++ key ∷ []) d states (require-raw s key h found)
          c)
  compile_entry-Agrees path s key (defaulted given) d {v} h p c e =
      let (w, found, made) = succeeded (get_value s key given) _ e in
      subst (Agrees read d) (ok_inj made) (
        compile_dynamic_value-Agrees read w (path ++ key ∷ []) d states
          (get_value-raw s key given h p.0 found) c)
  compile_entry-Agrees path (mapping fs) key (optional absent) d h p c e =
      optional-Agrees path fs key absent d (lookup_field key fs) refl h p c e
  compile_entry-Agrees path _ key (optional absent) d h p c e = absurd (cc e)

-- The default that the table of a plan has for a key.
abbrev pub default_of : String → List Entry → Option Value
default_of key [] = none
default_of key (e ∷ es) = if same e.key key then some e.default else default_of key es

abbrev pub AreConstant : List Entry → Type 0
AreConstant es = All (λ e. IsConstantPresence e.presence × IsConstant e.default) es

-- The attributes are read with the defaults that the plan was compiled with.
abbrev pub AreCovered : List Entry → List Attribute → Type 0
AreCovered es attributes =
    All
      (λ a.
        (default_of a.entry.key es ≡ some a.entry.default) × IsConstantPresence a.entry.presence)
      attributes

module _ (read : Reader) (states : IsStateReader read) where
  compile_section-Agrees :
      (path : List String) (s : Value) (es : List Entry) (fs : Fields) (key : String) {d v : Value}
      → is_raw s ≡ true
      → AreConstant es
      → compile_section path s es ≡ ok fs
      → default_of key es ≡ some d
      → lookup_field key fs ≡ some v
      → Agrees read d v
  unfolding compile_section lookup_field
  compile_section-Agrees path s [] fs key h k e g l = cc
  compile_section-Agrees path s (x ∷ es) fs key {d} {v} h k e g l =
      let (w, made, e1) = succeeded (compile_entry path s x.key x.presence x.default) _ e in
      let (rest, later, e2) = succeeded (compile_section path s es) _ e1 in
      let l' = subst (λ t. lookup_field key t ≡ some v) (sym (ok_inj e2)) l in
      elim (Bool-cases (same x.key key)) [
        | inl here ↦
            subst (λ t. Agrees read t v) (some_inj (rw here at g))
              (subst (Agrees read x.default) (some_inj (rw here at l')) (
                compile_entry-Agrees read states path s x.key x.presence x.default h k.0.0 k.0.1
                  made))
        | inr there ↦
            compile_section-Agrees path s es rest key h k.1 later (rw there at g) (rw there at l')
      ]

  -- A constant is read alike with the states and without.
  given_twice :
      (given d : Value)
      → IsConstant given
      → resolve_core_config_value given (some read) d ≡ resolve_core_config_value given none d
  given_twice given d p =
      subst
        (λ t. resolve_core_config_value given (some read) d ≡ resolve_core_config_value t none d)
        (materialize_raw read given p.0) (constant-Agrees read d given p)

  pub missing_later :
      (key : String) (fs : Fields)
      → lookup_field key fs ≡ none
      → lookup_field key (materialize_fields read fs) ≡ none
  missing_later key fs e = rw (lookup_field-materialize read key fs) (rw e refl)

  found_later :
      (key : String) (fs : Fields) {v : Value}
      → lookup_field key fs ≡ some v
      → lookup_field key (materialize_fields read fs) ≡ some (materialize_dynamic_value read v)
  found_later key fs e = rw (lookup_field-materialize read key fs) (rw e refl)

  build_entry-Agrees :
      (str : Value → String) (fs : Fields) (key : String) (presence : Presence) (d : Value)
      → IsConstantPresence presence
      → ((v : Value) → lookup_field key fs ≡ some v → Agrees read d v)
      → build_entry str (some read) (mapping fs) key presence d
        ≡ build_entry str none (mapping (materialize_fields read fs)) key presence d
  unfolding build_entry require_mapping_value get_value
  build_entry-Agrees str fs key required d p agrees = elim (Option-cases (lookup_field key fs)) [
    | inl e ↦ ground (arith, e, missing_later key fs e)
    | inr (v, e) ↦ ground (arith, e, found_later key fs e, agrees v e)
  ]
  build_entry-Agrees str fs key (defaulted given) d p agrees =
      elim (Option-cases (lookup_field key fs)) [
        | inl e ↦ ground (arith, e, missing_later key fs e, given_twice given d p)
        | inr (v, e) ↦ ground (arith, e, found_later key fs e, agrees v e)
      ]
  build_entry-Agrees str fs key (optional absent) d p agrees =
      elim (Option-cases (lookup_field key fs)) [
        | inl e ↦ ground (arith, e, missing_later key fs e)
        | inr (v, e) ↦ ground (arith, e, found_later key fs e, agrees v e)
      ]

  -- A section of the plan whose attributes are covered by its table.
  pub build_section-Agrees :
      (str : Value → String) (path : List String) (s : Value) (es : List Entry) (fs : Fields)
      (attributes : List Attribute)
      → is_raw s ≡ true
      → AreConstant es
      → compile_section path s es ≡ ok fs
      → AreCovered es attributes
      → build_section str (some read) (mapping fs) attributes
        ≡ build_section str none (mapping (materialize_fields read fs)) attributes
  unfolding build_section convert
  build_section-Agrees str path s es fs [] h k e cov = refl
  build_section-Agrees str path s es fs (a ∷ rest) h k e cov =
      let one =
        build_entry-Agrees str fs a.entry.key a.entry.presence a.entry.default cov.0.1
          (λ v l. compile_section-Agrees path s es fs a.entry.key h k e cov.0.0 l) in
      let others = build_section-Agrees str path s es fs rest h k e cov.1 in
      ground (arith, one, others)
