-- ===== src/Tests/Regulation.antt =====
-- The regulation of the quarter: producers, the primary consumer, the feedback and its inputs.
use ha_ems.Prelude.{
  ◌+◌, if◌then◌else◌, true, Option, none, some, List, [], ◌∷◌, String, pos, neg, ◌≡◌, refl, arith,
  ◌⊎◌, same, pos_part,
}
use ha_ems.Domain.Models.{DeviceControlContext, HaeoNetZeroPlan, PlanReason}
use ha_ems.NetZero.Producer.{allocate_producer_dispatch}
use ha_ems.NetZero.Producer.Dispatch.{
  total_allocated, IsStrict, allocation-conserves, allocation-IsStrict,
}
use ha_ems.NetZero.Judgement.{Situation}
use ha_ems.NetZero.Primary.{resolve_primary_consuming_authority}
use ha_ems.NetZero.Primary.Authority.{IsFirstRealisable, IsNobody, resolve-first}
use ha_ems.NetZero.DerivedInputs.{DateTime, IsDateTime}
use ha_ems.Tests.Data.{net_zero_profiles, house, house_globals, battery_context}

abbrev two_producers : List DeviceControlContext
two_producers = battery_context ∷ record battery_context { device_id = "second" } ∷ []

allocation-conserves_example :
    total_allocated
        (allocate_producer_dispatch net_zero_profiles house_globals two_producers
          (pos 7000000)).shares
      + (allocate_producer_dispatch net_zero_profiles house_globals two_producers
          (pos 7000000)).unserved_w
    ≡ pos_part (pos 7000000)
allocation-conserves_example =
    allocation-conserves net_zero_profiles house_globals two_producers (pos 7000000)

allocation-IsStrict_example :
    IsStrict
      (allocate_producer_dispatch net_zero_profiles house_globals two_producers
        (pos 7000000)).shares
allocation-IsStrict_example =
    allocation-IsStrict net_zero_profiles house_globals two_producers (pos 7000000)

abbrev known_context : String → Option DeviceControlContext
known_context x = if same x "battery" then some battery_context else none

abbrev sunny_house : Situation
sunny_house = record {
  cfg = house;
  context_of = known_context;
  transition_of = λ x. none;
  producers = [];
  grid_power_w = neg (pos 2000000);
  rpnz_w = pos 0;
  pv_power_kw = some (pos 6000000);
  haeo_nz_plan = none;
}

resolve-first_example :
    IsFirstRealisable sunny_house
      ("gone" ∷ "battery" ∷ [])
      (resolve_primary_consuming_authority net_zero_profiles sunny_house ("gone" ∷ "battery" ∷ []))
    ⊎ IsNobody sunny_house ("gone" ∷ "battery" ∷ []) (
        resolve_primary_consuming_authority net_zero_profiles sunny_house ("gone" ∷ "battery" ∷ []))
resolve-first_example =
    resolve-first net_zero_profiles sunny_house ("gone" ∷ "battery" ∷ []) refl refl

abbrev ev_plan : HaeoNetZeroPlan
ev_plan = record {
  active = true;
  quarter_key = 900;
  primary_consuming_device_id = "ev";
  preferred_surplus_device_id = "";
  device_limits_w = ("ev", pos 3000000) ∷ [];
  reason = PlanReason.largest_explicit_device_target;
  changed = true;
}

abbrev late : DateTime
late = record { minute = 44; second = 59; microsecond = 500000 }

late-IsDateTime : IsDateTime late
late-IsDateTime = record {
  minute_range = omega arith;
  second_range = omega arith;
  microsecond_range = omega arith;
}
