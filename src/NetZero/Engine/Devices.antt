-- ===== src/NetZero/Engine/Devices.antt =====
-- modules/ems_core/net_zero/engine.py: the contexts of the configured devices, and the producer pool
-- in its order.
use ha_ems.Prelude.{Option, none, some, List, [], ◌∷◌, String, same, ℤ, ltb_ℤ, if◌then◌else◌}
use ha_ems.Domain.Models.{Device, DeviceControlContext}

-- _device_control_context of a device with an identifier.
unfoldable pub device_control_context : Device → ℤ → DeviceControlContext
device_control_context d current_w = record {
  device_id = d.device_id;
  kind = d.kind;
  can_absorb_w = d.capabilities.can_absorb_w;
  can_produce_w = d.capabilities.can_produce_w;
  min_absorb_w = d.capabilities.min_absorb_w;
  max_absorb_w = d.capabilities.max_absorb_w;
  min_produce_w = d.capabilities.min_produce_w;
  max_produce_w = d.capabilities.max_produce_w;
  step_w = d.capabilities.step_w;
  supports_primary_consuming_regulation = d.capabilities.supports_primary_consuming_regulation;
  supports_producing_regulation = d.capabilities.supports_producing_regulation;
  uses_hard_off_lifecycle = d.capabilities.uses_hard_off_lifecycle;
  priority = d.policy.priority;
  producing_priority = d.policy.producing_priority;
  current_control_target_w = current_w;
}

-- `configured_device_context_by_id`, in the order of the devices.
unfoldable pub configured_device_contexts : (Device → ℤ) → List Device → List DeviceControlContext
unfolding device_control_context
configured_device_contexts power_of [] = []
configured_device_contexts power_of (d ∷ ds) =
    let rest = configured_device_contexts power_of ds in
    if same d.device_id "" then rest else device_control_context d (power_of d) ∷ rest

unfoldable pub find_context : List DeviceControlContext → String → Option DeviceControlContext
find_context [] device_id = none
find_context (c ∷ cs) device_id =
    let rest = find_context cs device_id in if same c.device_id device_id then some c else rest

-- The sort by descending priority. The second key is the position, so that it is stable.
unfoldable pub insert_producer :
    DeviceControlContext → List DeviceControlContext → List DeviceControlContext
insert_producer c [] = c ∷ []
insert_producer c (o ∷ ordered) =
    let rest = insert_producer c ordered in
    if ltb_ℤ c.producing_priority o.producing_priority then o ∷ rest else c ∷ o ∷ ordered

unfoldable pub producer_device_contexts : List DeviceControlContext → List DeviceControlContext
unfolding insert_producer
producer_device_contexts [] = []
producer_device_contexts (c ∷ cs) =
    let rest = producer_device_contexts cs in
    if c.supports_producing_regulation then insert_producer c rest else rest
