-- ===== src/Tests/Data.antt =====
-- A house with a battery, an EV charger and a relay.
use ha_ems.Prelude.{true, false, none, [], ◌∷◌, pos, neg}
use ha_ems.Domain.Profiles.{ControlProfile, GoalProfile, ForecastProfile, GuardProfile, Profiles}
use ha_ems.Domain.Models.{
  DeviceKind, SurplusDispatchMode, Capabilities, Device, GlobalConfig, CoreConfig,
  DeviceControlContext, SurplusDeviceTarget, SurplusDispatchInput,
}

abbrev pub net_zero_profiles : Profiles
net_zero_profiles = record {
  control = ControlProfile.automatic;
  goal = GoalProfile.net_zero;
  forecast = ForecastProfile.none;
  guard = GuardProfile.normal_limits;
}

abbrev pub ev_target : SurplusDeviceTarget
ev_target = record {
  device_id = "ev";
  priority = pos 2000;
  rank = 0;
  threshold_w = pos 4000000;
  enabled = true;
  force_on = false;
  active = false;
  activation_allowed = true;
  surplus_dispatch_mode = SurplusDispatchMode.max_absorb;
  releasable_power_w = none;
}

abbrev pub relay_target : SurplusDeviceTarget
relay_target = record ev_target {
  device_id = "relay";
  priority = pos 1000;
  rank = 1;
  threshold_w = pos 2000000;
}

-- Nothing is active, and 5 kW of consumption are wanted.
abbrev pub idle_input : SurplusDispatchInput
idle_input = record {
  policy_active = true;
  freeze_until_ts = none;
  rpc_kw = pos 5000000;
  rpnz_w = pos 5000000;
  targets = relay_target ∷ ev_target ∷ [];
  active_device_ids = [];
}

-- The EV is active, and the grid power is to sink.
abbrev pub busy_input : SurplusDispatchInput
busy_input = record {
  policy_active = true;
  freeze_until_ts = none;
  rpc_kw = neg (pos 3000000);
  rpnz_w = pos 0;
  targets = relay_target ∷ record ev_target { active = true } ∷ [];
  active_device_ids = "ev" ∷ [];
}

abbrev pub battery_capabilities : Capabilities
battery_capabilities = record {
  can_absorb_w = true;
  can_produce_w = true;
  supports_primary_consuming_regulation = true;
  supports_producing_regulation = true;
  min_absorb_w = pos 0;
  max_absorb_w = pos 5000000;
  step_w = pos 100000;
  min_produce_w = pos 0;
  max_produce_w = pos 5000000;
  uses_hard_off_lifecycle = false;
}

abbrev pub house_battery : Device
house_battery = record {
  device_id = "battery";
  kind = DeviceKind.battery;
  capabilities = battery_capabilities;
  policy = record {
    priority = pos 1000;
    producing_priority = pos 1000;
    surplus_allowed = true;
    force_on = false;
    surplus_dispatch_mode = SurplusDispatchMode.unset;
    low_pv_threshold_w = pos 500;
    hard_off_low_pv_cycles = 3;
    hard_off_release_cycles = 2;
  };
  guard = record {
    protect_soc = pos 20000;
    protect_soc_recovery_margin = pos 5000;
    protect_min_cell_voltage_v = pos 3030;
    protect_min_absorb_w = pos 200000;
  };
}

abbrev pub house_globals : GlobalConfig
house_globals = record {
  deadband_w = pos 50000;
  ramp_w = pos 1000000;
  strict_limit_w = pos 2000000;
  default_sp_w = pos 0;
  battery_heartbeat_timeout_s = 900000000;
  nz_battery_floor_default_w = pos 0;
  nz_battery_floor_ev_active_w = pos 100000;
  primary_consuming_device_ids = "battery" ∷ "battery" ∷ [];
}

abbrev pub house : CoreConfig
house = record { global_config = house_globals; devices = house_battery ∷ [] }

abbrev pub battery_context : DeviceControlContext
battery_context = record {
  device_id = "battery";
  kind = DeviceKind.battery;
  can_absorb_w = true;
  can_produce_w = true;
  min_absorb_w = pos 0;
  max_absorb_w = pos 5000000;
  min_produce_w = pos 0;
  max_produce_w = pos 5000000;
  step_w = pos 100000;
  supports_primary_consuming_regulation = true;
  supports_producing_regulation = true;
  uses_hard_off_lifecycle = true;
  priority = pos 1000;
  producing_priority = pos 1000;
  current_control_target_w = pos 1000000;
}
