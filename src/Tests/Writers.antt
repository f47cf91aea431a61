-- ===== src/Tests/Writers.antt =====
-- A table of states in the place of Home Assistant, and runs of the writers on it.
use ha_ems.Prelude.{
  true, false, none, some, [], ◌∷◌, String, same, pos, neg, ◌-ℤ◌, ◌+ℤ◌, min_ℤ, max_ℤ, round_to,
  round_div, floor_to, if◌then◌else◌, ◌≡◌, refl, arith,
}
use ha_ems.Domain.Profiles.{ControlProfile}
use ha_ems.Domain.Models.{
  Device, DeviceKind, Capabilities, DevicePolicy, PolicyMode, PolicyReason, device_by_id,
}
use ha_ems.Writers.Services.{
  Store, HomeAssistant, CarriesOut, set_value, turn, domain, raised, unsupported_domain, set_number,
  set_boolean,
}
use ha_ems.Writers.Services.Effects.{Returns, IsSame, store_of}
use ha_ems.Writers.Policies.{
  AdapterEntities, WriterContext, device_policy_by_id, find_policy, capability_device_config_for_id,
}
use ha_ems.Writers.Relay.{write_relay_actuator, wants_on, switch_relay}
use ha_ems.Writers.Relay.Matches.{write_relay_settles}
use ha_ems.Domain.EvPower.{
  ev_power_w_to_current_a, ev_min_current_a_from_min_absorb_w, ev_max_current_a_from_max_absorb_w,
  check_charger, clamp_current, ceil_to_step, floor_to_step, quantize_to_supported_step,
  ev_per_amp_w,
}
use ha_ems.Domain.Capabilities.{
  clamp_target_w_for_capabilities, capability_block_reason, rounded_capabilities,
}
use ha_ems.Writers.Ev.{write_ev_actuator, target_current_a}
use ha_ems.Writers.Ev.Follows.{write_ev_settles}
use ha_ems.Writers.Battery.{
  write_battery_actuator, in_writer_deadband, move_setpoint, next_setpoint,
}
use ha_ems.Writers.Battery.Approach.{repeat_writer, write_battery_approaches}
use ha_ems.Writers.Loop.{WriterTraces, write_device, write_devices, ems_actuator_writers_loop}
use ha_ems.Writers.Loop.Errors.{write_devices_raise}
use ha_ems.Writers.Loop.Untouched.{loop-KeepsEntity}
use ha_ems.Tests.Data.{battery_capabilities, house_battery, house_globals}

abbrev carry_out : HomeAssistant
carry_out (set_value entity value) s = record s {
  number = λ x. if same x entity then value else s.number x;
}
carry_out (turn entity is_on) s = record s {
  switch = λ x. if same x entity then is_on else s.switch x;
}

table : CarriesOut carry_out
table = record {
  set_value-number = λ entity value s x. refl;
  set_value-switch = λ entity value s x. refl;
  turn-number = λ entity is_on s x. refl;
  turn-switch = λ entity is_on s x. refl;
}

abbrev all_off : Store
all_off = record { number = λ x. pos 0; switch = λ x. false }

abbrev relay_policy : DevicePolicy
relay_policy = record {
  device_id = "boiler";
  target_w = pos 2000000;
  enabled = true;
  mode = PolicyMode.relay;
  reason = PolicyReason.relay_policy;
}

abbrev ev_policy : DevicePolicy
ev_policy = record relay_policy { device_id = "ev"; target_w = pos 5000000; mode = PolicyMode.burn }

abbrev battery_policy : DevicePolicy
battery_policy = record relay_policy {
  device_id = "battery";
  target_w = pos 3000000;
  mode = PolicyMode.power;
}

abbrev boiler : Device
boiler = record house_battery { device_id = "boiler"; kind = DeviceKind.relay }

abbrev ev_capabilities : Capabilities
ev_capabilities = record battery_capabilities {
  min_absorb_w = pos 1380000;
  max_absorb_w = pos 3680000;
}

abbrev ev : Device
ev = record house_battery {
  device_id = "ev";
  kind = DeviceKind.ev_charger;
  capabilities = ev_capabilities;
}

abbrev entities : String → AdapterEntities
entities x =
    if same x "boiler"
    then record { target_w = none; enabled = some "switch.boiler"; current_a = none }
    else if same x "ev"
    then record {
      target_w = none;
      enabled = some "switch.ev";
      current_a = some "number.ev_current";
    }
    else record { target_w = some "number.setpoint"; enabled = none; current_a = none }

abbrev context : WriterContext
context = record {
  control = ControlProfile.automatic;
  cfg = record {
    global_config = record house_globals { ramp_w = pos 1025000 };
    devices = boiler ∷ ev ∷ house_battery ∷ [];
  };
  policies = some (relay_policy ∷ ev_policy ∷ battery_policy ∷ []);
  entities_of = entities;
  charger_of = λ x. record { phases = 1; voltage_v = 230000; current_step_a = 1000 };
}

write_relay_settles_example :
    Returns (write_relay_actuator carry_out context "boiler" all_off) (λ t s'.
      (s'.switch "switch.boiler"
        ≡ wants_on (rounded_capabilities battery_capabilities) relay_policy)
      × Returns
          (write_relay_actuator carry_out context "boiler" s')
          (λ t' s''. (t'.written ≡ false) × (s'' ≡ s')))
unfolding device_policy_by_id find_policy capability_device_config_for_id device_by_id domain
write_relay_settles_example =
    write_relay_settles carry_out table context "boiler" all_off refl refl refl refl refl

write_ev_settles_example :
    Returns
      (write_ev_actuator carry_out context "ev" all_off)
      (λ t s'. (s'.switch "switch.ev" ≡ true) × (s'.number "number.ev_current" ≡ pos 16000))
unfolding device_policy_by_id find_policy capability_device_config_for_id device_by_id domain
    rounded_capabilities target_current_a ev_power_w_to_current_a ev_min_current_a_from_min_absorb_w
    ev_max_current_a_from_max_absorb_w check_charger ev_per_amp_w clamp_current ceil_to_step
    floor_to_step quantize_to_supported_step round_div round_to min_ℤ max_ℤ floor_to
    clamp_target_w_for_capabilities capability_block_reason
write_ev_settles_example =
    write_ev_settles carry_out table context "ev" all_off {low = 6000} {target = pos 16000} refl
      refl refl refl refl refl refl refl refl refl

write_battery_approaches_example :
    Returns
      (repeat_writer 3 (write_battery_actuator carry_out context "battery") all_off)
      (λ _ s'. in_writer_deadband (pos 50000) (s'.number "number.setpoint") (pos 3000000) ≡ true)
unfolding device_policy_by_id find_policy capability_device_config_for_id device_by_id domain
    rounded_capabilities round_to round_div clamp_target_w_for_capabilities min_ℤ max_ℤ floor_to
    ◌-ℤ◌
write_battery_approaches_example =
    write_battery_approaches carry_out table context "battery" "number.setpoint"
      (rounded_capabilities battery_capabilities) battery_policy 3 1000000 50000 all_off refl refl
      refl refl refl refl refl refl (omega arith) (omega arith)

-- The battery's entity is of a domain that has no set point.
abbrev wrong_context : WriterContext
wrong_context = record context {
  entities_of = λ x.
      if same x "battery"
      then record { target_w = some "sensor.setpoint"; enabled = none; current_a = none }
      else entities x;
}

abbrev no_traces : WriterTraces
no_traces = record { batteries = []; devices = [] }

write_devices_raise_example :
    write_devices carry_out wrong_context (boiler ∷ house_battery ∷ ev ∷ []) no_traces all_off
    ≡ raised
        (unsupported_domain "sensor.setpoint")
        (record all_off { switch = λ x. if same x "switch.boiler" then true else false })
unfolding write_devices write_device device_policy_by_id find_policy capability_device_config_for_id
    device_by_id domain rounded_capabilities round_to round_div clamp_target_w_for_capabilities
    min_ℤ max_ℤ floor_to write_battery_actuator write_relay_actuator switch_relay move_setpoint
    set_number set_boolean capability_block_reason ◌-ℤ◌ next_setpoint
write_devices_raise_example =
    write_devices_raise carry_out wrong_context (boiler ∷ []) house_battery (ev ∷ []) no_traces
      all_off refl refl

loop-KeepsEntity_example :
    IsSame "switch.garage" all_off
      (store_of (ems_actuator_writers_loop carry_out (some context) all_off))
loop-KeepsEntity_example =
    loop-KeepsEntity carry_out table "switch.garage" context
      (
        record { no_target = refl; no_switch = refl; no_current = refl },
        (
          record { no_target = refl; no_switch = refl; no_current = refl },
          (record { no_target = refl; no_switch = refl; no_current = refl }, tt),
        ),
      )
      all_off

-- A limit of 3680 W is passed by 20 W.
setpoint_above_limit : next_setpoint (pos 500000) (pos 3600000) (pos 3680000) ≡ pos 3700000
unfolding next_setpoint round_to round_div min_ℤ max_ℤ ◌-ℤ◌ ◌+ℤ◌ neg
setpoint_above_limit = refl
