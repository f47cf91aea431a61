-- ===== src/Writers/Loop.antt =====
-- ems_actuator_writers.py: ems_actuator_writers_loop, one run over the configured devices.
pub mod Errors
pub mod Untouched
use ha_ems.Prelude.{Option, none, some, List, [], ◌∷◌, ◌++◌, String}
use ha_ems.Domain.Models.{Device, DeviceKind}
use ha_ems.Writers.Services.{Store, HomeAssistant, Outcome, done, Writer, ◌>>=◌, ◌>>◌, pure}
use ha_ems.Writers.Policies.{WriterContext, WriterTrace}
use ha_ems.Writers.Battery.{write_battery_actuator}
use ha_ems.Writers.Ev.{write_ev_actuator}
use ha_ems.Writers.Relay.{write_relay_actuator}

-- `battery_traces` and `device_traces`.
pub record WriterTraces : Type 0 where
  pub batteries : List (String × WriterTrace)
  pub devices : List (String × WriterTrace)

abbrev pub add_battery_trace : WriterTraces → String → WriterTrace → WriterTraces
add_battery_trace traces device_id trace = record traces {
  batteries = traces.batteries ++ (device_id, trace) ∷ [];
}

abbrev pub add_device_trace : WriterTraces → String → WriterTrace → WriterTraces
add_device_trace traces device_id trace = record traces {
  devices = traces.devices ++ (device_id, trace) ∷ [];
}

-- The body of the loop over the devices.
unfoldable pub write_device :
    HomeAssistant → WriterContext → DeviceKind → String → WriterTraces → Writer WriterTraces
write_device ha ctx DeviceKind.battery device_id traces = do
  trace ← write_battery_actuator ha ctx device_id
  pure (add_battery_trace traces device_id trace)
write_device ha ctx DeviceKind.ev_charger device_id traces = do
  trace ← write_ev_actuator ha ctx device_id
  pure (add_device_trace traces device_id trace)
write_device ha ctx DeviceKind.relay device_id traces = do
  trace ← write_relay_actuator ha ctx device_id
  pure (add_device_trace traces device_id trace)
write_device ha ctx DeviceKind.unrecognized device_id traces = pure traces

unfoldable pub write_devices :
    HomeAssistant → WriterContext → List Device → WriterTraces → Writer WriterTraces
write_devices ha ctx [] traces = pure traces
write_devices ha ctx (d ∷ ds) traces = do
  traces' ← write_device ha ctx d.kind d.device_id traces
  write_devices ha ctx ds traces'

-- The whole run; `none` is a context that could not be read, and the result `none` is the
-- suppressed one.
unfoldable pub ems_actuator_writers_loop :
    HomeAssistant → Option WriterContext → Writer (Option WriterTraces)
ems_actuator_writers_loop ha none = pure none
ems_actuator_writers_loop ha (some ctx) = do
  traces ← write_devices ha ctx ctx.cfg.devices (record { batteries = []; devices = [] })
  pure (some traces)
