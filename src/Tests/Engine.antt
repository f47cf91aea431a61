-- ===== src/Tests/Engine.antt =====
-- Ticks of the whole engine on a house.
use ha_ems.Prelude.{true, false, none, some, [], ◌∷◌, pos, neg, ◌≡◌, refl, arith, All, Memᴰ, map}
use ha_ems.Domain.Models.{
  Device, DeviceKind, DevicePolicy, CoreConfig, Capabilities, PreviousDeviceState, device_by_id,
}
use ha_ems.Domain.Profiles.{ForecastProfile}
use ha_ems.NetZero.Engine.Input.{EngineInput}
use ha_ems.NetZero.Engine.Tick.{surplus_decision, candidate_input}
use ha_ems.NetZero.Engine.Outputs.{compute_net_zero_engine_outputs, policy_device_of}
use ha_ems.NetZero.Engine.Targets.{producer_target_of}
use ha_ems.NetZero.Engine.Complete.{
  policy_id, compute_policies-ids, compute_policies-IsFollowable, compute_policies_producer,
}
use ha_ems.NetZero.Enforcement.Enforced.{IsFollowable}
use ha_ems.NetZero.Engine.Latched.{latched_ev_off, off_policy}
use ha_ems.NetZero.Engine.Discharge.{IsNoDischarge, battery_discharges_as_producer}
use ha_ems.NetZero.Engine.Activation.{tick_activates}
use ha_ems.Surplus.Contexts.Qualified.{MayBeActivated}
use ha_ems.Prelude.{has_id, remove_id}
use ha_ems.Prelude.{◌+ℤ◌, ◌-ℤ◌, neg, min_ℤ, max_ℤ}
use ha_ems.Prelude.{round_div, round_to, floor_to}
use ha_ems.Domain.Models.{device_by_id}
use ha_ems.Domain.EvPower.{check_charger, ev_current_a_to_power_w}
use ha_ems.Surplus.Order.{next_device_target, release_device_target}
use ha_ems.Surplus.Allocator.{
  first_ineligible, activation_stage, settled_stage, compute_surplus_device_dispatch,
}
use ha_ems.Surplus.Contexts.{candidate_context, surplus_targets}
use ha_ems.NetZero.Feedback.{candidate_sp_net_zero, ramp_toward_target_w, quantize_absorb_target_w}
use ha_ems.NetZero.Lifecycle.{compute_hard_off_lifecycle_transition}
use ha_ems.NetZero.Producer.{
  quantize_produce_magnitude_toward_zero, producer_effective_hard_ceiling_w, total_control_target_w,
  producer_feedback_request, open_producer, allocate_loop, allocate_producer_dispatch,
  producer_transient_target_w, active_producer_for_feedback,
}
use ha_ems.NetZero.Forecast.{
  configured_forecast, effective_forecast, net_zero_surplus_policy_active,
}
use ha_ems.NetZero.Judgement.{
  force_on_of, compute_primary_producer_feedback_protection,
  compute_primary_consuming_device_target_w, primary_device_power_envelope_w, haeo_limited,
  judge_target, judge_request, is_protected, judge_context, judge,
}
use ha_ems.NetZero.Primary.{
  resolve_loop, resolve_primary_consuming_authority, ordered_primary_consuming_device_ids,
}
use ha_ems.NetZero.Ev.{surplus_threshold_w}
use ha_ems.NetZero.Engine.Devices.{
  configured_device_contexts, find_context, producer_device_contexts,
}
use ha_ems.NetZero.Engine.Latches.{next_state_by_id}
use ha_ems.NetZero.Engine.Input.{current_power_of, current_power_by_id, active_device_ids}
use ha_ems.NetZero.Engine.Tick.{candidate_input, dispatch_input, surplus_decision, dispatch_command}
use ha_ems.NetZero.Engine.Targets.{producer_target_of}
use ha_ems.NetZero.Engine.Outputs.{policy_device_of, compute_net_zero_engine_outputs}
use ha_ems.NetZero.Enforcement.{enforce_policy}
use ha_ems.NetZero.Engine.Build.{producer_policy}
use ha_ems.Surplus.Contexts.Complete.{IsRanked, surplus_targets_complete}
use ha_ems.Surplus.Contexts.Ordered.{IsStrictlyOrdered, surplus_targets-IsStrictlyOrdered}
use ha_ems.Tests.Data.{net_zero_profiles, house_battery, house_globals, battery_capabilities}

abbrev ev_capabilities : Capabilities
ev_capabilities = record battery_capabilities {
  can_produce_w = false;
  supports_producing_regulation = false;
  supports_primary_consuming_regulation = false;
  min_absorb_w = pos 1380000;
  max_absorb_w = pos 3680000;
  uses_hard_off_lifecycle = true;
}

abbrev house_ev : Device
house_ev = record house_battery {
  device_id = "ev";
  kind = DeviceKind.ev_charger;
  capabilities = ev_capabilities;
}

abbrev house_config : CoreConfig
house_config = record { global_config = house_globals; devices = house_battery ∷ house_ev ∷ [] }

abbrev fresh_state : PreviousDeviceState
fresh_state = record {
  low_pv_cycles = 0;
  hard_off_release_ready_cycles = 0;
  hard_off_active = false;
}

-- The sun shines, and 5 kW of consumption are wanted.
abbrev pub sunny : EngineInput
sunny = record {
  profiles = net_zero_profiles;
  cfg = house_config;
  grid_power_w = neg (pos 5000000);
  battery_setpoint_of = λ x. pos 0;
  ev_current_of = λ x. pos 0;
  charger_of = λ x. record { phases = 1; voltage_v = 230000; current_step_a = 1000 };
  haeo = record {
    effective_forecast = ForecastProfile.none;
    configured_forecast = ForecastProfile.none;
    fresh = false;
    device_target_kw_by_id = [];
  };
  nz = record { rpnz_w = pos 5000000; required_power_consumption_kw = pos 5000000 };
  now_ts = 1000000000;
  freeze_until_ts = none;
  surplus_freeze_s = 60000000;
  pv_power_kw = some (pos 8000000);
  runtime_state_of = λ x. record { surplus_allowed = none; force_on = none; active = false };
  previous_of = λ x. fresh_state;
  previous_force_on_device_ids = [];
  haeo_nz_plan = none;
  current_target_of = λ x. none;
  active_surplus_device_ids = some [];
}

-- The sun is low, and the EV has been off.
abbrev pub dark : EngineInput
dark = record sunny {
  grid_power_w = pos 0;
  nz = record { rpnz_w = pos 0; required_power_consumption_kw = pos 0 };
  pv_power_kw = some (pos 0);
  previous_of = λ x. record fresh_state { hard_off_active = true };
}

-- The house imports 3 kW.
abbrev pub importing : EngineInput
importing = record dark { grid_power_w = pos 3000000; previous_of = λ x. fresh_state }

compute_policies-ids_example :
    map policy_id (compute_net_zero_engine_outputs sunny).device_policies ≡ "battery" ∷ "ev" ∷ []
compute_policies-ids_example = compute_policies-ids sunny (refl, (refl, tt))

compute_policies-IsFollowable_example :
    All
      (IsFollowable (policy_device_of sunny))
      (compute_net_zero_engine_outputs sunny).device_policies
compute_policies-IsFollowable_example = compute_policies-IsFollowable sunny

tick_activates_example : MayBeActivated (candidate_input sunny) "ev"
unfolding remove_id ◌+ℤ◌ ◌-ℤ◌ neg min_ℤ max_ℤ round_div round_to floor_to device_by_id check_charger
    ev_current_a_to_power_w next_device_target release_device_target first_ineligible
    activation_stage settled_stage compute_surplus_device_dispatch surplus_targets
    candidate_sp_net_zero quantize_absorb_target_w compute_hard_off_lifecycle_transition
    active_producer_for_feedback configured_forecast effective_forecast
    net_zero_surplus_policy_active force_on_of compute_primary_producer_feedback_protection
    compute_primary_consuming_device_target_w primary_device_power_envelope_w haeo_limited
    judge_target judge_request is_protected judge_context judge resolve_loop
    resolve_primary_consuming_authority ordered_primary_consuming_device_ids surplus_threshold_w
    configured_device_contexts find_context producer_device_contexts next_state_by_id
    current_power_by_id active_device_ids dispatch_command
tick_activates_example = tick_activates sunny refl

latched_ev_off_example :
    Memᴰ (off_policy "ev") (compute_net_zero_engine_outputs dark).device_policies
unfolding has_id ◌+ℤ◌ ◌-ℤ◌ device_by_id candidate_sp_net_zero compute_hard_off_lifecycle_transition
    total_control_target_w producer_feedback_request ordered_primary_consuming_device_ids
    configured_device_contexts producer_device_contexts next_state_by_id current_power_by_id
    surplus_decision producer_target_of
latched_ev_off_example =
    latched_ev_off dark house_ev (Memᴰ.tail (Memᴰ.head refl)) refl refl refl refl refl refl

battery_discharges_as_producer_example :
    (p : DevicePolicy) × Memᴰ p (compute_net_zero_engine_outputs sunny).device_policies
    × IsNoDischarge "battery" p
unfolding ◌+ℤ◌ ◌-ℤ◌ neg round_div device_by_id candidate_sp_net_zero total_control_target_w
    producer_feedback_request configured_device_contexts producer_device_contexts
    current_power_by_id producer_target_of
battery_discharges_as_producer_example =
    battery_discharges_as_producer sunny house_battery (Memᴰ.head refl) refl refl refl refl refl
      refl (ground arith) refl

compute_policies_producer_example :
    let decided =
      enforce_policy
        (policy_device_of importing "battery")
        (producer_policy "battery" (neg (pos 1000000))) in
    let policies = (compute_net_zero_engine_outputs importing).device_policies in
    Memᴰ decided policies × All (λ p. p.device_id ≡ "battery" → p ≡ decided) policies
unfolding ◌+ℤ◌ ◌-ℤ◌ neg round_div floor_to candidate_sp_net_zero ramp_toward_target_w
    quantize_produce_magnitude_toward_zero producer_effective_hard_ceiling_w total_control_target_w
    producer_feedback_request open_producer allocate_loop allocate_producer_dispatch
    producer_transient_target_w configured_device_contexts find_context producer_device_contexts
    current_power_by_id producer_target_of
compute_policies_producer_example =
    compute_policies_producer importing house_battery {t = neg (pos 1000000)} (Memᴰ.head refl) refl

surplus_targets_complete_example :
    IsRanked
      (candidate_context (candidate_input sunny) house_ev)
      (surplus_targets (candidate_input sunny))
unfolding has_id remove_id ◌+ℤ◌ ◌-ℤ◌ neg min_ℤ max_ℤ round_div round_to floor_to device_by_id
    candidate_sp_net_zero quantize_absorb_target_w active_producer_for_feedback force_on_of
    compute_primary_producer_feedback_protection compute_primary_consuming_device_target_w
    primary_device_power_envelope_w haeo_limited judge_target judge_request is_protected
    judge_context judge resolve_loop resolve_primary_consuming_authority
    ordered_primary_consuming_device_ids configured_device_contexts find_context
    producer_device_contexts next_state_by_id current_power_of active_device_ids dispatch_input
surplus_targets_complete_example =
    surplus_targets_complete (candidate_input sunny) house_ev (Memᴰ.tail (Memᴰ.head refl)) refl refl
      refl

surplus_targets-IsStrictlyOrdered_example :
    IsStrictlyOrdered (surplus_targets (candidate_input sunny))
surplus_targets-IsStrictlyOrdered_example =
    surplus_targets-IsStrictlyOrdered (candidate_input sunny)
