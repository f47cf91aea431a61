-- ===== src/Adapter/Validation/Sound.antt =====
-- Theorems on Adapter/Validation: what a device that passes the checks can rely on.
use ha_ems.Prelude.{
  ℕ, true, false, List, [], String, ℤ, pos, pos_part, ltb, ltb_ℤ, ◌⊎◌, inl, inr, ◌≡◌, refl, ◌↔◌,
  arith, Bool-cases,
}
use ha_ems.Domain.EvPower.{
  EvPowerError, EvCharger, check_charger, ev_min_current_a_from_min_absorb_w,
  ev_max_current_a_from_max_absorb_w, clamp_current, ev_power_w_to_current_a,
}
use ha_ems.Domain.EvPower.Limits.{clamp_current-succeeds}
use ha_ems.Adapter.Validation.{ev_limit_issues}

-- The conversion gives a current for every power.
abbrev pub AlwaysConverts : ℕ → ℕ → EvCharger → Type 0
AlwaysConverts min_absorb_w max_absorb_w charger =
    (power_w : ℤ)
    → (current_a : ℤ) × (ev_power_w_to_current_a power_w charger min_absorb_w max_absorb_w
        ≡ inr current_a)

sum_cases {ℓ κ} :
    {A : Type ℓ} {B : Type κ} (x : A ⊎ B) → ((a : A) × (x ≡ inl a)) ⊎ ((b : B) × (x ≡ inr b))
sum_cases (inl a) = inl (a, refl)
sum_cases (inr b) = inr (b, refl)

min_current-checked :
    (min_absorb_w : ℕ) (c : EvCharger) {low : ℕ}
    → ev_min_current_a_from_min_absorb_w min_absorb_w c ≡ inr low
    → (unit : ℕ) × (check_charger c ≡ inr unit)
unfolding ev_min_current_a_from_min_absorb_w
min_current-checked min_absorb_w c {low} e = elim (sum_cases (check_charger c)) [
  | inl (a, f) ↦ absurd (ground (arith, f, e))
  | inr (unit, f) ↦ (unit, f)
]

module _ (path : List String) (min_absorb_w max_absorb_w : ℤ) (charger : EvCharger) where
  -- With the two currents of the limits.
  module _ (low high unit : ℕ)
      (l : ev_min_current_a_from_min_absorb_w (pos_part min_absorb_w) charger ≡ inr low)
      (h : ev_max_current_a_from_max_absorb_w (pos_part max_absorb_w) charger ≡ inr high)
      (checked : check_charger charger ≡ inr unit) where
    ordered-AlwaysConverts :
        ltb high low ≡ false
        → AlwaysConverts (pos_part min_absorb_w) (pos_part max_absorb_w) charger
    unfolding ev_power_w_to_current_a
    ordered-AlwaysConverts o power_w =
        rw (l, ev_power_w_to_current_a)
          (rw (h, ev_power_w_to_current_a)
            (clamp_current-succeeds charger power_w low high unit checked (ground arith)))

    reversed-fails :
        ltb high low ≡ true
        → ¬ AlwaysConverts (pos_part min_absorb_w) (pos_part max_absorb_w) charger
    unfolding ev_power_w_to_current_a clamp_current
    reversed-fails o all = let (c, e) = all (pos 0) in ground (arith, l, h, o, e)

  low_fails :
      (a : EvPowerError)
      → ev_min_current_a_from_min_absorb_w (pos_part min_absorb_w) charger ≡ inl a
      → ¬ AlwaysConverts (pos_part min_absorb_w) (pos_part max_absorb_w) charger
  unfolding ev_power_w_to_current_a
  low_fails a l all = let (c, e) = all (pos 0) in ground (arith, l, e)

  high_fails :
      (low : ℕ) (a : EvPowerError)
      → ev_min_current_a_from_min_absorb_w (pos_part min_absorb_w) charger ≡ inr low
      → ev_max_current_a_from_max_absorb_w (pos_part max_absorb_w) charger ≡ inl a
      → ¬ AlwaysConverts (pos_part min_absorb_w) (pos_part max_absorb_w) charger
  unfolding ev_power_w_to_current_a
  high_fails low a l h all = let (c, e) = all (pos 0) in ground (arith, l, h, e)

  sound :
      ev_limit_issues path min_absorb_w max_absorb_w charger ≡ []
      → (ltb_ℤ (pos 0) min_absorb_w ≡ true)
        × AlwaysConverts (pos_part min_absorb_w) (pos_part max_absorb_w) charger
  unfolding ev_limit_issues
  sound e = elim (Bool-cases (ltb_ℤ (pos 0) min_absorb_w)) [
    | inr none_above ↦ absurd (cc (rw none_above at e))
    | inl above ↦
        elim (sum_cases (ev_min_current_a_from_min_absorb_w (pos_part min_absorb_w) charger)) [
          | inl (a, l) ↦ absurd (ground (arith, above, l, e))
          | inr (low, l) ↦
              elim (sum_cases
                (ev_max_current_a_from_max_absorb_w (pos_part max_absorb_w) charger)) [
                  | inl (a, h) ↦ absurd (ground (arith, above, l, h, e))
                  | inr (high, h) ↦
                      let (unit, checked) = min_current-checked (pos_part min_absorb_w) charger l in
                      (
                        above,
                        ordered-AlwaysConverts low high unit l h checked
                            (ground (arith, above, l, h, e)),
                      )
                ]
        ]
  ]

  complete :
      ltb_ℤ (pos 0) min_absorb_w ≡ true
      → AlwaysConverts (pos_part min_absorb_w) (pos_part max_absorb_w) charger
      → ev_limit_issues path min_absorb_w max_absorb_w charger ≡ []
  unfolding ev_limit_issues
  complete above all =
      elim (sum_cases (ev_min_current_a_from_min_absorb_w (pos_part min_absorb_w) charger)) [
        | inl (a, l) ↦ absurd (low_fails a l all)
        | inr (low, l) ↦
            elim (sum_cases (ev_max_current_a_from_max_absorb_w (pos_part max_absorb_w) charger)) [
              | inl (a, h) ↦ absurd (high_fails low a l h all)
              | inr (high, h) ↦
                  let (unit, checked) = min_current-checked (pos_part min_absorb_w) charger l in
                  elim (Bool-cases (ltb high low)) [
                    | inl o ↦ absurd (reversed-fails low high unit l h checked o all)
                    | inr o ↦ ground (arith, above, l, h, o)
                  ]
            ]
      ]

  -- The check of an EV charger's limits passes exactly if its least power is positive and every power can
  -- be converted to a current.
  pub ev_limits_exact : (ev_limit_issues path min_absorb_w max_absorb_w charger ≡ []) ↔ (
      (ltb_ℤ (pos 0) min_absorb_w ≡ true)
      × AlwaysConverts (pos_part min_absorb_w) (pos_part max_absorb_w) charger)
  ev_limits_exact = (sound, λ h. complete h.0 h.1)
