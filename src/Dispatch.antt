-- ===== src/Dispatch.antt =====
-- ems_dispatch_state_applier.py: the persisted list of active surplus devices, and from
-- modules/ems_core/net_zero/engine.py and ems_policy_engine.py the command that is applied to it.
pub mod Persisted
pub mod Ticks
use ha_ems.Prelude.{
  ℕ, ◌-◌, Bool, true, false, ◌&&◌, ◌||◌, not, Option, none, some, List, [], ◌∷◌, ◌++◌, map, String,
  same, has_id, remove_id, append_new_ids, ltb, leb, if◌then◌else◌,
}
use ha_ems.Domain.Models.{SurplusDispatchDecision}

pub data DispatchAction : Type 0 where
  activate release clear_all noop : DispatchAction

pub record Command : Type 0 where
  pub action : DispatchAction
  pub device_id : String

abbrev pub clear_command : Command
clear_command = record { action = clear_all; device_id = "" }

abbrev pub noop_command : Command
noop_command = record { action = noop; device_id = "" }

-- A device name that is missing or empty counts as none.
abbrev pub named : Option String → Bool
named none = false
named (some x) = not (same x "")

abbrev pub name_or_empty : Option String → String
name_or_empty none = ""
name_or_empty (some x) = x

-- _dispatch_action_and_device_id.
unfoldable pub dispatch_action_and_device_id : SurplusDispatchDecision → Bool → Command
dispatch_action_and_device_id d combo_change_requires_clear =
    if combo_change_requires_clear || d.clear_all
    then clear_command
    else if named d.activate
    then record { action = activate; device_id = name_or_empty d.activate }
    else if named d.release
    then record { action = release; device_id = name_or_empty d.release }
    else noop_command

-- _canonical_surplus_freeze_until_ts_for_output.
unfoldable pub canonical_surplus_freeze_until_ts_for_output :
    DispatchAction → Option ℕ → Option ℕ → Option ℕ → Option ℕ
canonical_surplus_freeze_until_ts_for_output action (some combo_change) decided effective =
    some combo_change
canonical_surplus_freeze_until_ts_for_output clear_all none decided effective = none
canonical_surplus_freeze_until_ts_for_output noop none decided effective = effective
canonical_surplus_freeze_until_ts_for_output action none (some decided) effective = some decided
canonical_surplus_freeze_until_ts_for_output action none none effective = effective

-- _canonical_active_device_ids.
unfoldable pub canonical_active_device_ids : List String → List String
canonical_active_device_ids active_ids = append_new_ids [] active_ids

-- What the applier writes to its trace: `on:` and `off:` labels.
pub data Write : Type 0 where
  on off : String → Write

pub record Applied : Type 0 where
  pub active_ids : List String
  pub written : List Write

abbrev pub unchanged : List String → Applied
unchanged active_ids = record { active_ids = active_ids; written = [] }

-- _apply_device_dispatch, up to the published list.
unfoldable pub apply_action : DispatchAction → String → List String → Applied
apply_action activate x active_ids =
    if not (same x "") && not (has_id x active_ids)
    then record { active_ids = active_ids ++ x ∷ []; written = on x ∷ [] }
    else unchanged active_ids
apply_action release x active_ids =
    if has_id x active_ids
    then record { active_ids = remove_id x active_ids; written = off x ∷ [] }
    else unchanged active_ids
apply_action clear_all x active_ids = record { active_ids = []; written = map off active_ids }
apply_action noop x active_ids = unchanged active_ids

-- _publish_active_surplus_device_ids behind it: the state that the next run reads.
unfoldable pub apply_device_dispatch : Command → List String → List String
unfolding canonical_active_device_ids
apply_device_dispatch c active_ids =
    canonical_active_device_ids (apply_action c.action c.device_id active_ids).active_ids

-- _set_freeze_until_ts: a time within a second of the present one is not written.
unfoldable pub set_freeze_until_ts : Option ℕ → Option ℕ → Option ℕ × Bool
set_freeze_until_ts current none = (current, false)
set_freeze_until_ts none (some target) = (some target, true)
set_freeze_until_ts (some current) (some target) =
    if ltb (current - target) 1000000 && ltb (target - current) 1000000
    then (some current, false)
    else (some target, true)
