-- ===== src/Guard/Transitions.antt =====
-- Theorems on Guard: the decision of evaluate_guard and the list of guarded batteries.
use ha_ems.Prelude.{
  ℕ, true, false, ◌&&◌, not, List, [], ◌∷◌, ◌++◌, String, same, has_id, pos, +ℤ_parts, ◌≡◌, refl,
  ◌≤ℤ◌, arith, All, IsDistinct, append-IsDistinct, Bool-cases, inl, inr,
}
use ha_ems.Domain.Profiles.{GuardProfile}
use ha_ems.Domain.Models.{CoreConfig, Device, is_battery}
use ha_ems.Guard.{
  GuardedBattery, guard_battery_device_ids, is_recovered, is_low, all_batteries, any_battery,
  fresh_decision, decide, primary_batteries, producing_batteries, is_battery_id,
}

-- A configured recovery margin that is not negative.
abbrev pub HasMargin : GuardedBattery → Type 0
HasMargin b = pos 0 ≤ℤ b.thresholds.protect_soc_recovery_margin

recovered_not_low : (b : GuardedBattery) → HasMargin b → is_recovered b ≡ true → is_low b ≡ false
recovered_not_low b m h =
    ground (arith, +ℤ_parts b.thresholds.protect_soc b.thresholds.protect_soc_recovery_margin)

-- Deciding again on the same data, from the guard decided, decides the same guard.
pub decide_stable :
    (current : GuardProfile) (timeout_s : ℕ) (bs : List GuardedBattery)
    → (decide (decide current timeout_s bs).guard timeout_s bs).guard
      ≡ (decide current timeout_s bs).guard
unfolding decide fresh_decision
decide_stable current timeout_s [] = refl
decide_stable current timeout_s (b ∷ bs) = ground arith

-- If every battery has recovered, by recovery margins that are not negative, none is low.
pub recovery_excludes_low :
    (bs : List GuardedBattery)
    → All HasMargin bs
    → all_batteries is_recovered bs ≡ true
    → any_battery is_low bs ≡ false
unfolding all_batteries any_battery
recovery_excludes_low [] m h = refl
recovery_excludes_low (b ∷ bs) m h =
    ground (arith, recovered_not_low b m.0, recovery_excludes_low bs m.1)

primary_batteries-IsDistinct :
    (cfg : CoreConfig) (ids xs : List String)
    → IsDistinct ids
    → IsDistinct (primary_batteries cfg ids xs)
unfolding primary_batteries
primary_batteries-IsDistinct cfg ids [] h = h
primary_batteries-IsDistinct cfg ids (x ∷ xs) h =
    elim (Bool-cases (not (same x "") && is_battery_id cfg x && not (has_id x ids))) [
      | inl e ↦ rw e (
          primary_batteries-IsDistinct cfg (ids ++ x ∷ []) xs
            (append-IsDistinct x ids h (ground arith)))
      | inr e ↦ rw e (primary_batteries-IsDistinct cfg ids xs h)
    ]

producing_batteries-IsDistinct :
    (ids : List String) (ds : List Device)
    → IsDistinct ids
    → IsDistinct (producing_batteries ids ds)
unfolding producing_batteries
producing_batteries-IsDistinct ids [] h = h
producing_batteries-IsDistinct ids (d ∷ ds) h =
    elim (Bool-cases (
      is_battery d.kind
      && d.capabilities.supports_producing_regulation
      && not (has_id d.device_id ids))) [
        | inl e ↦ rw e (
            producing_batteries-IsDistinct (ids ++ d.device_id ∷ []) ds
              (append-IsDistinct d.device_id ids h (ground arith)))
        | inr e ↦ rw e (producing_batteries-IsDistinct ids ds h)
      ]

-- The list of guarded batteries names no battery twice.
pub guard_ids-IsDistinct : (cfg : CoreConfig) → IsDistinct (guard_battery_device_ids cfg)
unfolding guard_battery_device_ids
guard_ids-IsDistinct cfg =
    producing_batteries-IsDistinct _ cfg.devices
      (primary_batteries-IsDistinct cfg [] cfg.global_config.primary_consuming_device_ids tt)
