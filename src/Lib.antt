-- ===== src/Lib.antt =====
-- Verification of ha_EMS, a home energy management system for Home Assistant.
--
-- The program. Every tick the policy engine reads a snapshot of the house (grid power, quarter-hour
-- energy balance, device states) and computes a policy for each device: a battery, EV chargers,
-- relays. modules/ems_core holds the decisions; domain/, guard/, net_zero/ and integrations/ below
-- stand in it. The quarter's balance gives a target grid power
-- (net_zero/derived_inputs.py) and the feedback a correction (net_zero/battery_controller.py). In
-- net_zero/engine.py one primary consumer takes the positive part, a pool of producers the negative
-- part, and a latch keeps devices off while the sun is low. The allocator
-- (net_zero/surplus_allocator.py) activates and releases further devices one at a time. Its command
-- is applied by ems_dispatch_state_applier.py to a persisted list, which the next tick reads. The
-- policies are carried out by ems_actuator_writers.py.
-- The guard (guard/evaluator.py) narrows all of this when the batteries' data is stale or low.
--
-- The files, and the code that each follows:
--   Prelude       lists of identifiers, integers, Python's rounding; no code of the program
--   Domain        domain/models.py (Domain/Models, Domain/Profiles), domain/capabilities.py
--                 (Domain/Capabilities), domain/ev_power.py (Domain/EvPower)
--   Guard         guard/evaluator.py
--   Surplus       net_zero/surplus_candidates.py: the targets of the configured devices
--                 (Surplus/Contexts); net_zero/surplus_allocator.py: orders and candidates
--                 (Surplus/Order), the decision (Surplus/Allocator)
--   Dispatch      the command of net_zero/engine.py and its application by
--                 ems_dispatch_state_applier.py; Dispatch/Ticks closes the loop with the allocator
--   NetZero       net_zero/derived_inputs.py, net_zero/battery_controller.py,
--                 net_zero/load_projection.py and, from net_zero/engine.py, the hard-off latch
--                 (Lifecycle), the producer pool (Producer), the primary consumer (Judgement and
--                 Primary), the battery (Battery), the EV (Ev), the forecast (Forecast) and the
--                 enforcement of capabilities (Enforcement)
--   HaeoPlan      integrations/haeo_net_zero_plan.py
--   NetZero/Engine  compute_net_zero_engine_outputs of net_zero/engine.py: the devices' contexts
--                 (Devices), their latches (Latches), the policies built for them (Build) and the
--                 tick that composes all of the above (Input, Tick, Targets, Outputs)
--   Policy        ems_policy_engine.py: when the engine runs and what it publishes (Timer), the text
--                 of the persisted list (Ids)
--   Writers       ems_actuator_writers.py: the loop (Loop) over the writers of batteries, EV chargers
--                 and relays, with the service calls of modules/ems_adapter/ha_adapter.py (Services)
--   Adapter       modules/ems_adapter/config_loader.py: the plan that is compiled from a configuration
--                 file and the configuration that every tick builds from it (Config), the checks of
--                 a device's capabilities and of an EV charger's limits (Validation)
--   Tests         a house with example runs
-- A function of the source keeps its name, without a leading underscore; a loop or a stage of a
-- long function is a function of its own, named for what it does.
--
-- Conventions. A power is an integer number of milliwatts, in the source a float in watts or
-- kilowatts; a time is a number of microseconds, an energy of milliwatt-hours, a state of charge of
-- thousandths of a percent, a voltage of millivolts, a current of milliamperes. Quotients are exact,
-- and rounding is half to even, as Python's `round` does it; the error of binary floats is not
-- modelled. An enumeration of the source is a text there, so the profile types have a constructor
-- for all other texts. A dictionary is a list of pairs. All loops run over lists, so no function
-- needs fuel.
--
-- Home Assistant is outside: the store that holds its entities' states, and what a service call does
-- to it, are arguments of the writers. The theorems that need it assume CarriesOut, that a call sets
-- its own entity and no other; a table of states satisfies it (Tests/Writers).
--
-- Values of the configuration are Python's, so Adapter/Config has a type of values; `str` of a value is
-- an argument, and so is the reader of an entity's state. A state is never a reference (IsStateReader),
-- and no value but a text is printed as one of the three kinds (IsStr).
--
-- Not modelled: reading Home Assistant entities, parsing YAML, packets of the runtime, payloads, metrics and
-- explanations for the user, how a run of the policy engine forms the keys that it compares, and the
-- traces that the writers publish.
pub mod Prelude
pub mod Domain
pub mod Guard
pub mod Dispatch
pub mod Surplus
pub mod NetZero
pub mod HaeoPlan
pub mod Policy
pub mod Adapter
pub mod Writers
pub mod Tests
