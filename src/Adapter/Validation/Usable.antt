-- ===== src/Adapter/Validation/Usable.antt =====
-- Theorems on Adapter/Validation: the capabilities that pass their check.
use ha_ems.Prelude.{
  Bool, true, false, not, ◌&&◌, Option, none, some, List, [], ◌∷◌, ◌++◌, String, same, ℤ, pos, All,
  if◌then◌else◌, ◌≡◌, refl, arith, Option-cases, inl, inr,
}
use ha_ems.Adapter.Config.Values.{
  Value, boolean, mapping, Fields, field, end, lookup_field, compile_dynamic_value,
}
use ha_ems.Adapter.Config.Sections.{required, optional, Entry, compile_entry, compile_section}
use ha_ems.Adapter.Config.DevicePlans.{CapabilityDefaults, capabilities_entries}
use ha_ems.Adapter.Config.Complete.{Succeeds}
use ha_ems.Adapter.Validation.{
  ConfigValidationIssue, Message, error, is_ok, issue_if, get_or_null, has_field, is_true, is_below,
  min_produce_of, check_bool, validate_bool_fields, validate_number, validate_entity_or_number,
  validate_numbers, validate_directions, validate_capabilities, bool_fields,
}

is_ok-append : (xs ys : List ConfigValidationIssue) → is_ok (xs ++ ys) ≡ (is_ok xs && is_ok ys)
unfolding is_ok
is_ok-append [] ys = refl
is_ok-append (x ∷ xs) ys = ground (arith, is_ok-append xs ys)

-- Both parts of a list without errors have none.
is_ok_parts :
    (xs ys : List ConfigValidationIssue)
    → is_ok (xs ++ ys) ≡ true
    → (is_ok xs ≡ true) × (is_ok ys ≡ true)
is_ok_parts xs ys h = ground (arith, is_ok-append xs ys)

-- The key holds a Boolean.
abbrev pub HasBool : Fields → String → Type 0
HasBool fs key = (b : Bool) × (lookup_field key fs ≡ some (boolean b))

check_bool-HasBool :
    (path : List String) (found : Option Value)
    → is_ok (check_bool path found) ≡ true
    → (b : Bool) × (found ≡ some (boolean b))
unfolding is_ok
check_bool-HasBool path none h = absurd (cc h)
check_bool-HasBool path (some (boolean b)) h = (b, refl)
check_bool-HasBool path (some _) h = absurd (cc h)

bool_fields-HasBool :
    (fs : Fields) (path keys : List String)
    → is_ok (validate_bool_fields fs path keys) ≡ true
    → All (HasBool fs) keys
unfolding validate_bool_fields
bool_fields-HasBool fs path [] h = tt
bool_fields-HasBool fs path (key ∷ keys) h =
    let (here, later) = is_ok_parts (check_bool (path ++ key ∷ []) (lookup_field key fs)) _ h in
    (check_bool-HasBool _ (lookup_field key fs) here, bool_fields-HasBool fs path keys later)

validate_number-present :
    (path : List String) (least : Option ℤ) (found : Option Value)
    → is_ok (validate_number path least found) ≡ true
    → (v : Value) × (found ≡ some v)
unfolding validate_number is_ok
validate_number-present path least none h = absurd (cc h)
validate_number-present path least (some v) h = (v, refl)

issue_if-false :
    (b : Bool) (path : List String) (m : Message)
    → is_ok (issue_if b path error m) ≡ true
    → b ≡ false
unfolding is_ok
issue_if-false true path m h = cc h
issue_if-false false path m h = refl

-- What the engine relies on of a device's capabilities.
pub record IsUsable (fs : Fields) : Type 0 where
  pub flags : All (HasBool fs) bool_fields
  pub min_absorb_w : (v : Value) × (lookup_field "min_absorb_w" fs ≡ some v)
  pub max_absorb_w : (v : Value) × (lookup_field "max_absorb_w" fs ≡ some v)
  pub produces :
      is_true (get_or_null "supports_producing_regulation" fs) ≡ true
      → is_true (get_or_null "can_produce_w" fs) ≡ true
  pub produce_limit :
      is_true (get_or_null "can_produce_w" fs) ≡ true → has_field "max_produce_w" fs ≡ true
  pub produce_ordered : is_below (get_or_null "max_produce_w" fs) (min_produce_of fs) ≡ false
  pub absorb_ordered :
      is_below (get_or_null "max_absorb_w" fs) (get_or_null "min_absorb_w" fs) ≡ false
  pub compiles :
      (path : List String) (d : CapabilityDefaults)
      → Succeeds (compile_section path (mapping fs) (capabilities_entries d))

compile_entry-Succeeds :
    (path : List String) (fs : Fields) (key : String) (d : Value) {v : Value}
    → lookup_field key fs ≡ some v
    → Succeeds (compile_entry path (mapping fs) key required d)
unfolding compile_entry
compile_entry-Succeeds path fs key d {v} e =
    (compile_dynamic_value v (path ++ key ∷ []) d, ground (arith, e))

optional-Succeeds :
    (path : List String) (fs : Fields) (key : String) (absent d : Value)
    → Succeeds (compile_entry path (mapping fs) key (optional absent) d)
unfolding compile_entry
optional-Succeeds path fs key absent d = elim (Option-cases (lookup_field key fs)) [
  | inl e ↦ (absent, ground (arith, e))
  | inr (v, e) ↦ (compile_dynamic_value v (path ++ key ∷ []) d, ground (arith, e))
]

section_step :
    (path : List String) (s : Value) (x : Entry) (es : List Entry)
    → Succeeds (compile_entry path s x.key x.presence x.default)
    → Succeeds (compile_section path s es)
    → Succeeds (compile_section path s (x ∷ es))
unfolding compile_section
section_step path s x es (v, e) (rest, later) = (field x.key v rest, rw e (rw later refl))

no_entries : (path : List String) (s : Value) → Succeeds (compile_section path s [])
unfolding compile_section
no_entries path s = (end, refl)

capabilities-compile :
    (path : List String) (fs : Fields) (d : CapabilityDefaults)
    → All (HasBool fs) bool_fields
    → (v : Value) × (lookup_field "min_absorb_w" fs ≡ some v)
    → (v : Value) × (lookup_field "max_absorb_w" fs ≡ some v)
    → Succeeds (compile_section path (mapping fs) (capabilities_entries d))
capabilities-compile path fs d flags lo hi =
    let found = λ (key : String) (default v : Value) (e : lookup_field key fs ≡ some v).
      compile_entry-Succeeds path fs key default {v = v} e in
    let off = boolean false in
    section_step path (mapping fs) _ _ (found _ off _ flags.0.1) (
      section_step path (mapping fs) _ _ (found _ off _ flags.1.0.1) (
        section_step path (mapping fs) _ _ (found _ off _ flags.1.1.0.1) (
          section_step path (mapping fs) _ _ (found _ off _ flags.1.1.1.0.1) (
            section_step path (mapping fs) _ _ (found _ off _ flags.1.1.1.1.0.1) (
              section_step path (mapping fs) _ _ (found _ d.min_absorb_w _ lo.1) (
                section_step path (mapping fs) _ _ (found _ d.max_absorb_w _ hi.1) (
                  section_step path (mapping fs) _ _ (optional-Succeeds path fs _ _ _) (
                    section_step path (mapping fs) _ _ (optional-Succeeds path fs _ _ _) (
                      section_step path (mapping fs) _ _ (optional-Succeeds path fs _ _ _)
                        (no_entries path (mapping fs)))))))))))

not_both : (a b : Bool) → (a && not b) ≡ false → a ≡ true → b ≡ true
not_both a b h e = ground arith

numbers-present :
    (fs : Fields) (path : List String) (device_id : String)
    → is_ok (validate_numbers fs path device_id) ≡ true
    → ((v : Value) × (lookup_field "min_absorb_w" fs ≡ some v))
      × ((v : Value) × (lookup_field "max_absorb_w" fs ≡ some v))
unfolding validate_numbers validate_entity_or_number
numbers-present fs path device_id h =
    let lo = validate_number (path ++ "min_absorb_w" ∷ []) none (lookup_field "min_absorb_w" fs) in
    let hi = validate_number (path ++ "max_absorb_w" ∷ []) none (lookup_field "max_absorb_w" fs) in
    let step =
      if same device_id "EV_CHARGER"
      then []
      else validate_number (path ++ "step_w" ∷ []) (some (pos 1000)) (lookup_field "step_w" fs) in
    let both = (is_ok_parts (lo ++ hi) step h).0 in
    (
      validate_number-present (path ++ "min_absorb_w" ∷ []) none (lookup_field "min_absorb_w" fs)
          (is_ok_parts lo hi both).0,
      validate_number-present (path ++ "max_absorb_w" ∷ []) none (lookup_field "max_absorb_w" fs)
          (is_ok_parts lo hi both).1,
    )

-- The checks between two fields, when none of them finds an error.
record AreOrdered (fs : Fields) : Type 0 where
  produces :
      is_true (get_or_null "supports_producing_regulation" fs) ≡ true
      → is_true (get_or_null "can_produce_w" fs) ≡ true
  produce_limit :
      is_true (get_or_null "can_produce_w" fs) ≡ true → has_field "max_produce_w" fs ≡ true
  produce_ordered : is_below (get_or_null "max_produce_w" fs) (min_produce_of fs) ≡ false
  absorb_ordered : is_below (get_or_null "max_absorb_w" fs) (get_or_null "min_absorb_w" fs) ≡ false

directions-AreOrdered :
    (fs : Fields) (path : List String) → is_ok (validate_directions fs path) ≡ true → AreOrdered fs
unfolding validate_directions
directions-AreOrdered fs path h =
    let (h5, absorb) = is_ok_parts _ _ h in
    let (h4, produce) = is_ok_parts _ _ h5 in
    let h2 = (is_ok_parts _ _ (is_ok_parts _ _ h4).0).0 in
    let (first, second) = is_ok_parts _ _ h2 in
    record {
      produces = not_both _ _ (issue_if-false _ _ _ first);
      produce_limit = not_both _ _ (issue_if-false _ _ _ second);
      produce_ordered = issue_if-false _ _ _ produce;
      absorb_ordered = issue_if-false _ _ _ absorb;
    }

-- Capabilities whose check finds no error hold Booleans for all flags and a value for both absorb
-- limits; a device that regulates production can produce, and one that can produce has a limit for
-- it; limits that are numbers are in order; and the section can be compiled, with any defaults.
pub validate_capabilities-IsUsable :
    (fs : Fields) (device_id : String)
    → is_ok (validate_capabilities fs device_id) ≡ true
    → IsUsable fs
unfolding validate_capabilities
validate_capabilities-IsUsable fs device_id h =
    let (h4, _) = is_ok_parts _ _ h in
    let (h3, directions) = is_ok_parts _ _ h4 in
    let (h2, numbers) = is_ok_parts _ _ h3 in
    let flags = bool_fields-HasBool fs _ bool_fields (is_ok_parts _ _ h2).1 in
    let (lo, hi) = numbers-present fs _ device_id numbers in
    let ordered = directions-AreOrdered fs _ directions in
    record {
      flags = flags;
      min_absorb_w = lo;
      max_absorb_w = hi;
      produces = ordered.produces;
      produce_limit = ordered.produce_limit;
      produce_ordered = ordered.produce_ordered;
      absorb_ordered = ordered.absorb_ordered;
      compiles = λ path d. capabilities-compile path fs d flags lo hi;
    }
