-- ===== src/Surplus/Allocator/Thresholds.antt =====
-- Theorems on Surplus/Allocator: the threshold at which the newest active target is released.
use ha_ems.Prelude.{ℕ, ◌+◌, ◌*◌, round_div_bounds, ◌≤◌, ◌<◌, ◌≡◌, some, arith, ◌⊎◌}
use ha_ems.Domain.Models.{SurplusDeviceTarget, SurplusDispatchInput}
use ha_ems.Surplus.Order.{release_power_w, release_margin_w}
use ha_ems.Surplus.Allocator.{n_minus_one_stage, release_threshold_w}

release_margin_w_bounds :
    (p : ℕ) → (100000 ≤ release_margin_w p) × (p ≤ 20 * release_margin_w p + 10000)
unfolding release_margin_w
release_margin_w_bounds p = ground (arith, round_div_bounds 20000 p, round_div_bounds 20000 2000000)

-- The margin is at least 100 W, at least 5 % of the power less half a watt, and the release
-- threshold is below the power by that margin or is 0.
pub release_threshold_bounds :
    (t : SurplusDeviceTarget)
    → (100000 ≤ release_margin_w (release_power_w t))
      × (release_power_w t ≤ 20 * release_margin_w (release_power_w t) + 10000)
      × (release_threshold_w t ≤ release_power_w t)
      × ((release_threshold_w t ≡ 0)
          ⊎ (release_threshold_w t + release_margin_w (release_power_w t) ≡ release_power_w t))
unfolding release_threshold_w
release_threshold_bounds t = ground (arith, release_margin_w_bounds (release_power_w t))

-- In the stage for two or more active targets a newest target of a positive power of at most 100 W
-- is released at every required power, also a positive one.
pub n_minus_one_small_device :
    (inp : SurplusDispatchInput) (now_ts freeze_s : ℕ) (newest : SurplusDeviceTarget)
    → 0 < release_power_w newest
    → release_power_w newest ≤ 100000
    → (n_minus_one_stage inp now_ts freeze_s newest).release ≡ some newest.device_id
unfolding n_minus_one_stage
n_minus_one_small_device inp now_ts freeze_s newest h k =
    ground (arith, release_threshold_bounds newest)
