-- ===== src/Guard/Normal.antt =====
-- Theorems on Guard: when evaluate_guard decides NORMAL_LIMITS, in terms of the configured batteries.
use ha_ems.Prelude.{
  ℕ, Bool, true, ◌&&◌, ◌||◌, not, List, [], ◌∷◌, String, same, same_iff, has_id, ◌≡◌, ◌≢◌, ◌↔◌, inl,
  inr, refl, arith, Bool-cases,
}
use ha_ems.Domain.Profiles.{GuardProfile, is_normal_limits, is_battery_protect, is_degraded}
use ha_ems.Domain.Models.{CoreConfig}
use ha_ems.Guard.{
  BatteryState, GuardedBattery, guard_battery_device_ids, thresholds_of, state_of,
  guarded_batteries, is_transport_ok, is_soc_valid, is_low, is_recovered, all_batteries,
  any_battery, fresh_decision, decide, evaluate_guard,
}
use ha_ems.Guard.Health.{IsSafe, passes, passes-IsSafe, IsSafe-passes}
use ha_ems.Guard.Watched.{IsGuarded, guard_ids-IsGuarded}

all_batteries-passes :
    (current : GuardProfile) (timeout_s : ℕ) (bs : List GuardedBattery)
    → all_batteries (passes current timeout_s) bs ≡ (
        all_batteries (is_transport_ok timeout_s) bs
        && all_batteries is_soc_valid bs
        && not (any_battery is_low bs)
        && (not (is_battery_protect current) || all_batteries is_recovered bs))
unfolding all_batteries any_battery
all_batteries-passes current timeout_s [] = ground arith
all_batteries-passes current timeout_s (b ∷ bs) =
    ground (arith, all_batteries-passes current timeout_s bs)

abbrev pub is_known : GuardProfile → Bool
is_known current = is_normal_limits current || is_battery_protect current || is_degraded current

decide-passes :
    (current : GuardProfile) (timeout_s : ℕ) (bs : List GuardedBattery)
    → bs ≢ []
    → is_known current ≡ true
    → ((decide current timeout_s bs).guard ≡ GuardProfile.normal_limits)
      ↔ (all_batteries (passes current timeout_s) bs ≡ true)
unfolding decide fresh_decision
decide-passes current timeout_s [] some_guarded known = absurd (some_guarded refl)
decide-passes GuardProfile.normal_limits timeout_s (b ∷ bs) some_guarded known =
    rw (all_batteries-passes GuardProfile.normal_limits timeout_s (b ∷ bs)) (ground arith)
decide-passes GuardProfile.battery_protect timeout_s (b ∷ bs) some_guarded known =
    rw (all_batteries-passes GuardProfile.battery_protect timeout_s (b ∷ bs)) (ground arith)
decide-passes GuardProfile.degraded timeout_s (b ∷ bs) some_guarded known =
    rw (all_batteries-passes GuardProfile.degraded timeout_s (b ∷ bs)) (ground arith)
decide-passes GuardProfile.strict_limits timeout_s (b ∷ bs) some_guarded known = absurd (cc known)
decide-passes GuardProfile.unrecognized timeout_s (b ∷ bs) some_guarded known = absurd (cc known)

abbrev guarded_battery : CoreConfig → List (String × BatteryState) → String → GuardedBattery
guarded_battery cfg states x = record {
  device_id = x;
  state = state_of x states;
  thresholds = thresholds_of cfg x;
}

all_batteries-has_id :
    (cfg : CoreConfig) (states : List (String × BatteryState)) (p : GuardedBattery → Bool)
    (ids : List String)
    → (all_batteries p (guarded_batteries cfg states ids) ≡ true)
      ↔ ((x : String) → has_id x ids ≡ true → p (guarded_battery cfg states x) ≡ true)
unfolding all_batteries guarded_batteries has_id
all_batteries-has_id cfg states p [] = (λ h x m. absurd (cc m), λ h. refl)
all_batteries-has_id cfg states p (y ∷ ids) =
    let (there, back) = all_batteries-has_id cfg states p ids in
    (
      λ h x m. elim (Bool-cases (same x y)) [
        | inl e ↦ rw ((same_iff x y).0 e) (ground arith)
        | inr e ↦ there (ground arith) x (ground arith)
      ],
      λ h.
          let rest = back (λ x m. h x (ground arith)) in
          let first = h y (ground (arith, same_iff y y)) in ground arith,
    )

guarded_batteries_some :
    (cfg : CoreConfig) (states : List (String × BatteryState)) (x : String) (ids : List String)
    → has_id x ids ≡ true
    → guarded_batteries cfg states ids ≢ []
unfolding guarded_batteries has_id
guarded_batteries_some cfg states x [] m = absurd (cc m)
guarded_batteries_some cfg states x (y ∷ ids) m = λ q. absurd (cc)

-- From NORMAL_LIMITS, BATTERY_PROTECT or DEGRADED, and with some battery to watch, the guard becomes
-- NORMAL_LIMITS exactly when every watched battery (a battery among the primary candidates, or one
-- that regulates production) has a fresh heartbeat, a valid state of charge and both the charge and
-- the known cell voltage at or above their protective thresholds, and, from BATTERY_PROTECT, also has
-- its charge above the threshold by the margin and a known cell voltage.
pub evaluate_guard_normal :
    (current : GuardProfile) (states : List (String × BatteryState)) (cfg : CoreConfig)
    (watched : String)
    → IsGuarded cfg watched
    → is_known current ≡ true
    → ((evaluate_guard current states cfg).guard ≡ GuardProfile.normal_limits) ↔ (
        (x : String)
        → IsGuarded cfg x
        → IsSafe current cfg.global_config.battery_heartbeat_timeout_s
            (thresholds_of cfg x)
            (state_of x states))
unfolding evaluate_guard
evaluate_guard_normal current states cfg watched guarded known =
    let ids = guard_battery_device_ids cfg in
    let timeout_s = cfg.global_config.battery_heartbeat_timeout_s in
    let listed = (guard_ids-IsGuarded cfg watched).1 guarded in
    let (decided, decides) =
      decide-passes current timeout_s (guarded_batteries cfg states ids)
        (guarded_batteries_some cfg states watched ids listed) known in
    let (each, every) = all_batteries-has_id cfg states (passes current timeout_s) ids in
    (
      λ e x g.
          passes-IsSafe current timeout_s (guarded_battery cfg states x)
            (each (decided e) x ((guard_ids-IsGuarded cfg x).1 g)),
      λ safe. decides (
          every (λ x m.
            IsSafe-passes current timeout_s (guarded_battery cfg states x)
              (safe x ((guard_ids-IsGuarded cfg x).0 m)))),
    )
