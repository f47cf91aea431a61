-- ===== src/Domain/EvPower/Limits.antt =====
-- Theorems on Domain/EvPower: ev_power_w_to_current_a.
use ha_ems.Prelude.{
  ℕ, zero, suc, ◌+◌, ◌-◌, ◌*◌, ◌/◌, ◌%◌, ◌≤◌, ◌<◌, false, ltb, leb, Bool-cases, ℤ, pos_part, min_ℤ,
  max_ℤ, ◌⊎◌, inl, inr, ◌≡◌, refl, arith,
}
use ha_ems.Domain.EvPower.{
  EvCharger, ev_per_amp_w, check_charger, ev_current_a_to_power_w, ceil_to_step, floor_to_step,
  ev_min_current_a_from_min_absorb_w, ev_max_current_a_from_max_absorb_w, clamp_current,
  ev_power_w_to_current_a,
}

regroup : (q s a : ℕ) → q * s * a ≡ q * (a * s)
regroup q s a = grind arith

quotient_parts : (n d : ℕ) → 0 < d → (n ≡ n / d * d + n % d) × (n % d < d)
quotient_parts n d h = grind arith

quotient_floor : (n d : ℕ) → 0 < d → n / d * d ≤ n
quotient_floor n d h = omega (arith, quotient_parts n d h)

quotient_ceil : (n d : ℕ) → 0 < d → n ≤ (n + d - 1) / d * d
quotient_ceil n d h = omega (arith, quotient_parts (n + d - 1) d h)

-- The smallest current allowed absorbs at least the configured minimum, the largest at most the
-- configured maximum.
ceil_to_step_bound :
    (a s power_w : ℕ) → 0 < a * s → power_w * 1000 ≤ ceil_to_step (a * s) s power_w * a
unfolding ceil_to_step
ceil_to_step_bound a s p h =
    rw (regroup ((p * 1000 + a * s - 1) / (a * s)) s a) (quotient_ceil (p * 1000) (a * s) h)

floor_to_step_bound :
    (a s power_w : ℕ) → 0 < a * s → floor_to_step (a * s) s power_w * a ≤ power_w * 1000
unfolding floor_to_step
floor_to_step_bound a s p h =
    rw (regroup (p * 1000 / (a * s)) s a) (quotient_floor (p * 1000) (a * s) h)

product_positive : (a b : ℕ) → 0 < a → 0 < b → 0 < a * b
product_positive zero b h k = elim h [ ]
product_positive (suc a) zero h k = elim k [ ]
product_positive (suc a) (suc b) h k = grind arith

check_charger-ok :
    (c : EvCharger) {unit : ℕ}
    → check_charger c ≡ inr unit
    → (unit ≡ ev_per_amp_w c * c.current_step_a) × (0 < ev_per_amp_w c * c.current_step_a)
unfolding check_charger ev_per_amp_w
check_charger-ok c e = (
  ground arith,
  product_positive (c.phases * c.voltage_v) c.current_step_a
      (product_positive c.phases c.voltage_v (ground arith) (ground arith)) (ground arith),
)

sum_cases : {A B : Type 0} (s : A ⊎ B) → ((a : A) × (s ≡ inl a)) ⊎ ((b : B) × (s ≡ inr b))
sum_cases (inl a) = inl (a, refl)
sum_cases (inr b) = inr (b, refl)

min_current-covers :
    (p : ℕ) (c : EvCharger) {m : ℕ}
    → ev_min_current_a_from_min_absorb_w p c ≡ inr m
    → p * 1000 ≤ m * ev_per_amp_w c
unfolding ev_min_current_a_from_min_absorb_w
min_current-covers p c {m} e = elim (sum_cases (check_charger c)) [
  | inl (x, failed) ↦ absurd (ground arith)
  | inr (unit, checked) ↦
      let ok = check_charger-ok c checked in
      let bound = ceil_to_step_bound (ev_per_amp_w c) c.current_step_a p ok.1 in
      let value : m ≡ ceil_to_step unit c.current_step_a p = ground arith in
      rw value (rw ok.0 bound)
]

max_current-covered :
    (p : ℕ) (c : EvCharger) {m : ℕ}
    → ev_max_current_a_from_max_absorb_w p c ≡ inr m
    → m * ev_per_amp_w c ≤ p * 1000
unfolding ev_max_current_a_from_max_absorb_w
max_current-covered p c {m} e = elim (sum_cases (check_charger c)) [
  | inl (x, failed) ↦ absurd (ground arith)
  | inr (unit, checked) ↦
      let ok = check_charger-ok c checked in
      let bound = floor_to_step_bound (ev_per_amp_w c) c.current_step_a p ok.1 in
      let value : m ≡ floor_to_step unit c.current_step_a p = ground arith in
      rw value (rw ok.0 bound)
]

clamp_current-within :
    (c : EvCharger) (power_w : ℤ) (m n : ℕ) {i : ℤ}
    → clamp_current c power_w m n ≡ inr i
    → (m ≤ pos_part i) × (pos_part i ≤ n)
unfolding clamp_current min_ℤ max_ℤ
clamp_current-within c power_w m n {i} e = elim (sum_cases (check_charger c)) [
  | inl (x, failed) ↦ absurd (ground arith)
  | inr (unit, checked) ↦ ground arith
]

product_mono : (a b c : ℕ) → a ≤ b → a * c ≤ b * c
product_mono a b c h = grind arith

-- A current that the conversion returns, at the charger's phases and voltage, draws a power between
-- the configured minimum and maximum.
pub conversion_within_limits :
    (power_w : ℤ) (c : EvCharger) (min_absorb_w max_absorb_w : ℕ) {current_a : ℤ}
    → ev_power_w_to_current_a power_w c min_absorb_w max_absorb_w ≡ inr current_a
    → (min_absorb_w * 1000 ≤ ev_current_a_to_power_w current_a c)
      × (ev_current_a_to_power_w current_a c ≤ max_absorb_w * 1000)
unfolding ev_power_w_to_current_a ev_current_a_to_power_w
conversion_within_limits power_w c low high {current_a} e =
    elim (sum_cases (ev_min_current_a_from_min_absorb_w low c)) [
      | inl (x, failed) ↦ absurd (ground arith)
      | inr (m, smallest) ↦ elim (sum_cases (ev_max_current_a_from_max_absorb_w high c)) [
        | inl (x, failed) ↦ absurd (ground arith)
        | inr (n, largest) ↦
            let within = clamp_current-within c power_w m n {i = current_a} (ground arith) in
            let amp = ev_per_amp_w c in
            (
              omega (
                arith,
                min_current-covers low c smallest,
                product_mono m (pos_part current_a) amp within.0,
              ),
              omega (
                arith,
                max_current-covered high c largest,
                product_mono (pos_part current_a) n amp within.1,
              ),
            )
      ]
    ]

div_mono : (a b d : ℕ) → 0 < d → a ≤ b → a / d ≤ b / d
div_mono a b d h k = elim (Bool-cases (leb (a / d) (b / d))) [
  | inl e ↦ ground arith
  | inr e ↦
      let wide : (b / d + 1) * d ≤ a / d * d = product_mono (b / d + 1) (a / d) d (ground arith) in
      let split : (b / d + 1) * d ≡ b / d * d + d = grind arith in
      absurd (omega (arith, wide, split, quotient_parts a d h, quotient_parts b d h))
]

check_charger-succeeds :
    (c : EvCharger)
    → 0 < c.phases
    → 0 < c.voltage_v
    → 0 < c.current_step_a
    → check_charger c ≡ inr (ev_per_amp_w c * c.current_step_a)
unfolding check_charger
check_charger-succeeds c ph v st = ground arith

min_current-succeeds :
    (p : ℕ) (c : EvCharger) (unit : ℕ)
    → 0 < p
    → check_charger c ≡ inr unit
    → ev_min_current_a_from_min_absorb_w p c ≡ inr (ceil_to_step unit c.current_step_a p)
unfolding ev_min_current_a_from_min_absorb_w
min_current-succeeds p c unit h e = rw e (ground arith)

max_current-succeeds :
    (p : ℕ) (c : EvCharger) (unit : ℕ)
    → 0 < p
    → check_charger c ≡ inr unit
    → ev_max_current_a_from_max_absorb_w p c ≡ inr (floor_to_step unit c.current_step_a p)
unfolding ev_max_current_a_from_max_absorb_w
max_current-succeeds p c unit h e = rw e (ground arith)

pub clamp_current-succeeds :
    (c : EvCharger) (power_w : ℤ) (m n unit : ℕ)
    → check_charger c ≡ inr unit
    → m ≤ n
    → (i : ℤ) × (clamp_current c power_w m n ≡ inr i)
unfolding clamp_current
clamp_current-succeeds c power_w m n unit e le =
    let not_below : ltb n m ≡ false = ground arith in rw e (rw not_below (_, refl))

steps_ordered :
    (low high unit step : ℕ)
    → 0 < unit
    → low * 1000 + unit ≤ high * 1000
    → ceil_to_step unit step low ≤ floor_to_step unit step high
unfolding ceil_to_step floor_to_step
steps_ordered low high unit step h gap =
    product_mono ((low * 1000 + unit - 1) / unit) (high * 1000 / unit) step
      (div_mono (low * 1000 + unit - 1) (high * 1000) unit h (omega arith))

-- With positive parameters and limits at least one current step apart, the conversion returns a
-- current.
pub conversion_succeeds :
    (power_w : ℤ) (c : EvCharger) (min_absorb_w max_absorb_w : ℕ)
    → 0 < c.phases
    → 0 < c.voltage_v
    → 0 < c.current_step_a
    → 0 < min_absorb_w
    → min_absorb_w * 1000 + ev_per_amp_w c * c.current_step_a ≤ max_absorb_w * 1000
    → (current_a : ℤ) × (ev_power_w_to_current_a power_w c min_absorb_w max_absorb_w
        ≡ inr current_a)
unfolding ev_power_w_to_current_a
conversion_succeeds power_w c low high ph v st lo gap =
    let unit = ev_per_amp_w c * c.current_step_a in
    let wide =
      product_positive (ev_per_amp_w c) c.current_step_a
        (unfold ev_per_amp_w in product_positive c.phases c.voltage_v ph v) st in
    let checked = check_charger-succeeds c ph v st in
    rw (min_current-succeeds low c unit lo checked, ev_power_w_to_current_a)
      (rw (max_current-succeeds high c unit (omega arith) checked, ev_power_w_to_current_a)
        (clamp_current-succeeds c power_w _ _ unit checked
          (steps_ordered low high unit c.current_step_a wide gap)))
