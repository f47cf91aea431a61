-- ===== src/Prelude/Rounding.antt =====
-- Python's `round` (half to even) and the multiples of a step, on exact fractions.
-- A power is a ℤ in milliwatts; `int(round(w))` of a power in watts is `round_to 1000`.
use Prim.Native.Nat.{ℕ, suc, ◌+◌, ◌-◌, ◌*◌, ◌/◌, ◌%◌, ◌≤◌, ◌<◌}
use mathlib.Core.Path.{◌≡◌, refl}
use mathlib.Core.Logic.{◌⊎◌, inl, inr}
use native.Mathlib.Omega.{arith}
use ha_ems.Prelude.Tests.{ltb, ◌==◌, if◌then◌else◌}
use ha_ems.Prelude.Int.{ℤ, pos, negsuc, sub_ℕ, pos_part, neg_part, ◌≤ℤ◌, parts_disjoint}

-- The whole number nearest to `n / d`, the even one of two that are equally near.
unfoldable pub round_div : ℕ → ℕ → ℕ
round_div n d =
    let q = n / d in
    let r = n % d in
    if ltb (2 * r) d then q else if ltb d (2 * r) then q + 1 else if q % 2 == 0 then q else q + 1

-- `round(x / unit) * unit` for a signed `x`: rounding half to even is symmetric about zero.
unfoldable pub round_to : ℕ → ℤ → ℤ
round_to unit x = sub_ℕ (round_div (pos_part x) unit * unit) (round_div (neg_part x) unit * unit)

-- `math.floor(n / d) * d` and `math.ceil(n / d) * d`.
unfoldable pub floor_to : ℕ → ℕ → ℕ
floor_to d n = n / d * d

unfoldable pub ceil_to : ℕ → ℕ → ℕ
ceil_to d n = (n + d - 1) / d * d

pub floor_to_bounds : (d n : ℕ) → 0 < d → (floor_to d n ≤ n) × (n < floor_to d n + d)
unfolding floor_to
floor_to_bounds d n h = omega arith

pub floor_to_idem : (d n : ℕ) → 0 < d → floor_to d (floor_to d n) ≡ floor_to d n
unfolding floor_to
floor_to_idem d n h = grind arith

pub ceil_to_bounds : (d n : ℕ) → 0 < d → (n ≤ ceil_to d n) × (ceil_to d n < n + d)
unfolding ceil_to
ceil_to_bounds d n h = omega arith

round_div-cases :
    (d n : ℕ)
    → ((round_div n d ≡ n / d) × (2 * (n % d) ≤ d))
      ⊎ ((round_div n d ≡ n / d + 1) × (d ≤ 2 * (n % d)))
unfolding round_div
round_div-cases d n = ground arith

quotient_parts : (d n : ℕ) → 0 < d → (n ≡ n / d * d + n % d) × (n % d < d)
quotient_parts d n h = grind arith

-- The rounded value is within half a unit.
pub round_div_bounds :
    (d n : ℕ)
    → 0 < d
    → (2 * (round_div n d * d) ≤ 2 * n + d) × (2 * n ≤ 2 * (round_div n d * d) + d)
round_div_bounds d n h = elim (round_div-cases d n) [
  | inl (e, r) ↦ rw e (omega (arith, quotient_parts d n h))
  | inr (e, r) ↦ rw e (omega (arith, quotient_parts d n h))
]

-- A whole number of watts, in milliwatts.
abbrev pub IsWhole : ℤ → Type 0
IsWhole z = (pos_part z % 1000 ≡ 0) × (neg_part z % 1000 ≡ 0)

round_div_whole : (n : ℕ) → n % 1000 ≡ 0 → round_div n 1000 * 1000 ≡ n
unfolding round_div
round_div_whole n h = ground arith

pub round_to-IsWhole : (z : ℤ) → IsWhole (round_to 1000 z)
unfolding round_to
round_to-IsWhole z = ground arith

pub round_to_whole : (z : ℤ) → IsWhole z → round_to 1000 z ≡ z
unfolding round_to
round_to_whole (pos n) h = rw (round_div_whole n h.0) (ground (arith, round_div_whole 0 refl))
round_to_whole (negsuc n) h =
    rw (round_div_whole (suc n) h.1) (ground (arith, round_div_whole 0 refl))

pub floor_to-mod : (n : ℕ) → floor_to 1000 n % 1000 ≡ 0
unfolding floor_to
floor_to-mod n = omega arith

-- Rounding to whole watts moves a power by half a watt at most.
pub round_to_bounds :
    (z : ℤ)
    → (pos_part (round_to 1000 z) + neg_part z ≤ pos_part z + neg_part (round_to 1000 z) + 500)
      × (pos_part z + neg_part (round_to 1000 z) ≤ pos_part (round_to 1000 z) + neg_part z + 500)
unfolding round_to
round_to_bounds z =
    ground (arith, round_div_bounds 1000 (pos_part z), round_div_bounds 1000 (neg_part z))

-- Rounding stays on the same side of a whole number of watts.
pub round_to-le-whole : (z w : ℤ) → IsWhole w → z ≤ℤ w → round_to 1000 z ≤ℤ w
round_to-le-whole z w h le = ground (
  arith,
  round_to_bounds z,
  round_to-IsWhole z,
  parts_disjoint w,
  parts_disjoint (round_to 1000 z),
)

pub whole-le-round_to : (z w : ℤ) → IsWhole w → w ≤ℤ z → w ≤ℤ round_to 1000 z
whole-le-round_to z w h le = ground (
  arith,
  round_to_bounds z,
  round_to-IsWhole z,
  parts_disjoint w,
  parts_disjoint (round_to 1000 z),
)

round_ties : round_div 25 10 ≡ 2
unfolding round_div
round_ties = refl

round_ties_up : round_div 35 10 ≡ 4
unfolding round_div
round_ties_up = refl
