-- ===== src/Policy/Timer.antt =====
-- ems_policy_engine.py: _POLICY_ENGINE_TIMER_STATE, the tick that may skip, and the publishing part of
-- run_policy_loop. The keys that are compared are of one type with an equality test; what the engine
-- computes for a run is an argument.
pub mod Versions
pub mod Spacing
use ha_ems.Prelude.{
  ℕ, ◌+◌, Bool, true, false, not, ◌||◌, Option, none, some, List, [], ◌∷◌, ◌++◌, leb, ◌==◌,
  if◌then◌else◌,
}

-- The keys that one run computes.
pub record RunKeys (Key : Type 0) : Type 0 where
  pub device_policies : Key
  pub dispatch_command : Key
  pub policy_state : Key
  pub warning : Key

-- _POLICY_ENGINE_TIMER_STATE; a previous key is `none` until the first run.
pub record TimerState (Key : Type 0) : Type 0 where
  pub last_run_ts : Option ℕ
  pub last_diagnostics_publish_ts : Option ℕ
  pub effective_interval_seconds : ℕ
  pub effective_diagnostics_interval_seconds : ℕ
  pub ticks_seen : ℕ
  pub runs_seen : ℕ
  pub skipped_ticks : ℕ
  pub previous_device_policies : Option Key
  pub previous_dispatch_command : Option Key
  pub previous_policy_state : Option Key
  pub previous_warning : Option Key
  pub device_policies_version : ℕ
  pub dispatch_command_version : ℕ
  pub policy_state_version : ℕ

pub data TriggerReason : Type 0 where
  e2e manual timer other : TriggerReason

pub data PublishReason : Type 0 where
  e2e_run manual_run startup canonical_changed warning_changed interval_elapsed : PublishReason

-- The sensors that a run writes, with the version that becomes their state.
pub data Publication : Type 0 where
  device_policies dispatch_command policy_state : ℕ → Publication
  policy_diagnostics : PublishReason → Publication

-- `key != previous`.
abbrev pub has_changed : {Key : Type 0} → (Key → Key → Bool) → Option Key → Key → Bool
has_changed same_key none key = true
has_changed same_key (some previous) key = not (same_key key previous)

-- _next_monotonic_version.
abbrev pub next_monotonic_version : ℕ → Bool → ℕ
next_monotonic_version current changed = if changed then current + 1 else current

-- `now_ts - last >= interval`, of times that may stand in either order.
abbrev pub has_elapsed : Option ℕ → ℕ → ℕ → Bool
has_elapsed none seconds now_ts = true
has_elapsed (some last) seconds now_ts = leb (last + seconds) now_ts

-- _should_publish_policy_diagnostics; `none` is `throttled`.
unfoldable pub should_publish_policy_diagnostics :
    Option ℕ → ℕ → TriggerReason → ℕ → Bool → Bool → Option PublishReason
should_publish_policy_diagnostics last now_ts TriggerReason.e2e interval_s canonical warning =
    some e2e_run
should_publish_policy_diagnostics last now_ts TriggerReason.manual interval_s canonical warning =
    some manual_run
should_publish_policy_diagnostics none now_ts reason interval_s canonical warning = some startup
should_publish_policy_diagnostics (some last) now_ts reason interval_s canonical warning =
    if canonical
    then some canonical_changed
    else if warning
    then some warning_changed
    else if leb (last + interval_s) now_ts
    then some interval_elapsed
    else none

abbrev pub publish_if : Bool → Publication → List Publication
publish_if true p = p ∷ []
publish_if false p = []

abbrev pub publish_diagnostics : Option PublishReason → List Publication
publish_diagnostics none = []
publish_diagnostics (some reason) = policy_diagnostics reason ∷ []

abbrev pub diagnostics_ts : Option PublishReason → ℕ → Option ℕ → Option ℕ
diagnostics_ts none now_ts last = last
diagnostics_ts (some reason) now_ts last = some now_ts

module _ {Key : Type 0} (same_key : Key → Key → Bool) where
  -- The part of run_policy_loop behind the computation, with the interval of the configuration.
  unfoldable pub publish_run :
      ℕ → TriggerReason → ℕ → RunKeys Key → TimerState Key → TimerState Key × List Publication
  unfolding should_publish_policy_diagnostics
  publish_run now_ts reason diagnostics_interval keys s =
      let policies = has_changed same_key s.previous_device_policies keys.device_policies in
      let dispatch = has_changed same_key s.previous_dispatch_command keys.dispatch_command in
      let state = has_changed same_key s.previous_policy_state keys.policy_state in
      let warning = has_changed same_key s.previous_warning keys.warning in
      let policies_version = next_monotonic_version s.device_policies_version policies in
      let dispatch_version = next_monotonic_version s.dispatch_command_version dispatch in
      let state_version = next_monotonic_version s.policy_state_version state in
      let diagnostics =
        should_publish_policy_diagnostics s.last_diagnostics_publish_ts now_ts reason
          diagnostics_interval (policies || dispatch || state) warning in
      (
        record s {
          last_diagnostics_publish_ts =
              diagnostics_ts diagnostics now_ts s.last_diagnostics_publish_ts;
          previous_device_policies = some keys.device_policies;
          previous_dispatch_command = some keys.dispatch_command;
          previous_policy_state = some keys.policy_state;
          previous_warning = some keys.warning;
          device_policies_version = policies_version;
          dispatch_command_version = dispatch_version;
          policy_state_version = state_version;
        },
        publish_if policies (device_policies policies_version)
            ++ publish_if dispatch (dispatch_command dispatch_version)
            ++ publish_if state (policy_state state_version)
            ++ publish_diagnostics diagnostics,
      )

  -- What reading the runtime context yields: the two intervals, and the keys of the run that follows.
  pub record EngineContext : Type 0 where
    pub interval_seconds : ℕ
    pub diagnostics_interval_seconds : ℕ
    pub keys : RunKeys Key

  -- `float(interval or 5.0)`, in microseconds.
  abbrev pub interval_or_default : ℕ → ℕ
  interval_or_default seconds = if seconds == 0 then 5000000 else seconds

  -- _note_policy_skip, _note_policy_run and _update_policy_engine_effective_intervals.
  abbrev pub note_policy_skip : TimerState Key → TimerState Key
  note_policy_skip s = record s { skipped_ticks = s.skipped_ticks + 1 }

  abbrev pub note_policy_run : ℕ → TimerState Key → TimerState Key
  note_policy_run now_ts s = record s { last_run_ts = some now_ts; runs_seen = s.runs_seen + 1 }

  abbrev pub update_effective_intervals : EngineContext → TimerState Key → TimerState Key
  update_effective_intervals c s = record s {
    effective_interval_seconds = c.interval_seconds;
    effective_diagnostics_interval_seconds = c.diagnostics_interval_seconds;
  }

  -- ems_policy_engine_tick. Where reading the context raises a schema error it is `none`, and the
  -- tick ends.
  unfoldable pub ems_policy_engine_tick :
      ℕ → Option EngineContext → TimerState Key → TimerState Key × List Publication
  unfolding publish_run
  ems_policy_engine_tick now_ts context s =
      let ticked = record s { ticks_seen = s.ticks_seen + 1 } in
      if not (has_elapsed s.last_run_ts (interval_or_default s.effective_interval_seconds) now_ts)
      then (note_policy_skip ticked, [])
      else elim context [
        | none ↦ (ticked, [])
        | some c ↦
            let updated = update_effective_intervals c ticked in
            if not (has_elapsed s.last_run_ts c.interval_seconds now_ts)
            then (note_policy_skip updated, [])
            else publish_run now_ts TriggerReason.timer c.diagnostics_interval_seconds c.keys
                (note_policy_run now_ts updated)
      ]
