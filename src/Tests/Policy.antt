-- ===== src/Tests/Policy.antt =====
-- Runs of the policy engine, and a persisted list.
use ha_ems.Prelude.{ℕ, ◌==◌, none, some, [], ◌∷◌, ◌≡◌, refl}
use ha_ems.Policy.Timer.{RunKeys, TimerState, TriggerReason}
use ha_ems.Policy.Timer.Versions.{Run, after_runs, versions_count_changes, changes}
use ha_ems.Policy.Timer.Spacing.{TimerTick, IsSpaced, run_times, runs-IsSpaced}
use ha_ems.Policy.Ids.{parse_active_device_ids, join_ids, append_text}
use ha_ems.Policy.Ids.RoundTrip.{has_no, parse-join}

abbrev initial_state : TimerState ℕ
initial_state = record {
  last_run_ts = none;
  last_diagnostics_publish_ts = none;
  effective_interval_seconds = 5000000;
  effective_diagnostics_interval_seconds = 30000000;
  ticks_seen = 0;
  runs_seen = 0;
  skipped_ticks = 0;
  previous_device_policies = none;
  previous_dispatch_command = none;
  previous_policy_state = none;
  previous_warning = none;
  device_policies_version = 0;
  dispatch_command_version = 0;
  policy_state_version = 0;
}

abbrev keys : ℕ → RunKeys ℕ
keys k = record { device_policies = k; dispatch_command = 1; policy_state = 1; warning = 1 }

abbrev run_of : ℕ → ℕ → Run ◌==◌
run_of now_ts k = record {
  now_ts = now_ts;
  reason = TriggerReason.timer;
  diagnostics_interval = 30000000;
  keys = keys k;
}

versions_count_changes_example :
    let s = after_runs ◌==◌ (run_of 1 7 ∷ run_of 2 7 ∷ run_of 3 8 ∷ []) initial_state in
    (s.device_policies_version ≡ 2)
    × (s.dispatch_command_version ≡ 1)
    × (s.policy_state_version ≡ 1)
unfolding changes
versions_count_changes_example =
    versions_count_changes ◌==◌ (run_of 1 7 ∷ run_of 2 7 ∷ run_of 3 8 ∷ []) initial_state

abbrev tick_at : ℕ → TimerTick ◌==◌
tick_at now_ts = record {
  now_ts = now_ts;
  context = some (record {
    interval_seconds = 5000000;
    diagnostics_interval_seconds = 30000000;
    keys = keys 1;
  });
}

runs-IsSpaced_example :
    IsSpaced ◌==◌ 5000000 none
      (run_times ◌==◌ (tick_at 100 ∷ tick_at 2000100 ∷ tick_at 6000100 ∷ []) initial_state)
runs-IsSpaced_example =
    runs-IsSpaced ◌==◌ 5000000 (tick_at 100 ∷ tick_at 2000100 ∷ tick_at 6000100 ∷ []) initial_state
      (refl, (refl, (refl, tt)))

parse-join_example :
    parse_active_device_ids (join_ids ("battery" ∷ "ev" ∷ [])) ≡ "battery" ∷ "ev" ∷ []
unfolding join_ids append_text has_no
parse-join_example =
    parse-join ("battery" ∷ "ev" ∷ [])
      (
        record { not_empty = refl; no_space = refl; no_comma = refl },
        (record { not_empty = refl; no_space = refl; no_comma = refl }, tt),
      )
      refl
