-- ===== src/Adapter/Config/DeviceMaps.antt =====
-- modules/ems_adapter/config_loader.py: the loops over the devices, _materialize_core_devices_from_plan
-- and _build_core_devices_map.
use ha_ems.Prelude.{Option, none, some, List, [], ◌∷◌, String}
use ha_ems.Adapter.Config.Values.{
  ◌>>=◌, Value, text, mapping, Fields, end, field, Result, ok, Reader,
}
use ha_ems.Adapter.Config.DeviceConfigs.{DeviceConfig, build_device, device_kind}

-- `device = dict(device); device[key] = value`, for a key that is not there.
unfoldable pub append_field : Fields → String → Value → Fields
append_field end key value = field key value end
append_field (field k v fs) key value = field k v (append_field fs key value)

abbrev pub add_device :
    String → Option DeviceConfig → List (String × DeviceConfig) → List (String × DeviceConfig)
add_device device_id none devices = devices
add_device device_id (some device) devices = (device_id, device) ∷ devices

-- _materialize_core_devices_from_plan, of a dictionary.
unfoldable pub materialize_core_devices_from_plan :
    (Value → String) → Reader → Fields → Result (List (String × DeviceConfig))
unfolding device_kind build_device
materialize_core_devices_from_plan str read end = ok []
materialize_core_devices_from_plan str read (field device_id (mapping fs) devices) = do
  kind ← device_kind str (some read) (mapping fs)
  device ← build_device str (some read) kind device_id (mapping fs)
  rest ← materialize_core_devices_from_plan str read devices
  ok (add_device device_id device rest)
materialize_core_devices_from_plan str read (field device_id _ devices) =
    materialize_core_devices_from_plan str read devices

-- _build_core_devices_map, with no entities to read.
unfoldable pub build_core_devices_map :
    (Value → String) → Fields → Result (List (String × DeviceConfig))
unfolding device_kind build_device append_field
build_core_devices_map str end = ok []
build_core_devices_map str (field device_id (mapping fs) devices) = do
  let own = mapping (append_field fs "_device_id" (text device_id))
  kind ← device_kind str none own
  device ← build_device str none kind device_id own
  rest ← build_core_devices_map str devices
  ok (add_device device_id device rest)
build_core_devices_map str (field device_id _ devices) = build_core_devices_map str devices
