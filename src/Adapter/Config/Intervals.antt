-- ===== src/Adapter/Config/Intervals.antt =====
-- Theorems on Adapter/Config/Plan: the intervals of the policy engine.
use ha_ems.Prelude.{false, String, ◌≡◌, refl, Bool-cases, inl, inr, subst, sym, ℤ, ltb_ℤ}
use ha_ems.NetZero.DerivedInputs.{scale}
use ha_ems.Adapter.Config.Values.{Value, null, int, float, mapping, ok, get_value}
use ha_ems.Adapter.Config.Plan.{parse_interval, policy_engine_interval}
use ha_ems.Adapter.Config.Lookups.{succeeded, ok_inj}

-- An interval that was accepted is accepted again.
parse_interval-AtLeast :
    (default least : ℤ) (v : Value) {z : ℤ}
    → ltb_ℤ default least ≡ false
    → parse_interval default least v ≡ ok z
    → ltb_ℤ z least ≡ false
unfolding parse_interval
parse_interval-AtLeast default least null h e = rw (sym (ok_inj e)) h
parse_interval-AtLeast default least (int y) h e = elim (Bool-cases (ltb_ℤ (scale 1000 y) least)) [
  | inl short ↦ absurd (cc (rw short at e))
  | inr long ↦ subst (λ t. ltb_ℤ t least ≡ false) (ok_inj (rw long at e)) long
]
parse_interval-AtLeast default least (float y) h e = elim (Bool-cases (ltb_ℤ y least)) [
  | inl short ↦ absurd (cc (rw short at e))
  | inr long ↦ subst (λ t. ltb_ℤ t least ≡ false) (ok_inj (rw long at e)) long
]
parse_interval-AtLeast default least _ h e = absurd (cc e)

pub parse_interval-again :
    (engine : Value) (key : String) (default least : ℤ) {z : ℤ}
    → ltb_ℤ default least ≡ false
    → policy_engine_interval engine key default least ≡ ok z
    → parse_interval default least (float z) ≡ ok z
unfolding policy_engine_interval
parse_interval-again (mapping fs) key default least {z} h e =
    let (raw, found, parsed) = succeeded (get_value (mapping fs) key (float default)) _ e in
    unfold parse_interval in rw (parse_interval-AtLeast default least raw h parsed) refl
parse_interval-again _ key default least {z} h e =
    unfold parse_interval in rw (parse_interval-AtLeast default least (float default) h e) refl
