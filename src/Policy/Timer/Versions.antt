-- ===== src/Policy/Timer/Versions.antt =====
-- Theorems on Policy/Timer: the versions that runs publish.
use ha_ems.Prelude.{
  ℕ, ◌+◌, Bool, true, false, Option, some, List, [], ◌∷◌, map, if◌then◌else◌, ◌≡◌, refl, ◌∙◌, arith,
}
use ha_ems.Policy.Timer.{
  RunKeys, TimerState, TriggerReason, has_changed, next_monotonic_version, publish_run,
}

module _ {Key : Type 0} (same_key : Key → Key → Bool) where
  -- How often a sequence of keys departs from the key before it.
  unfoldable pub changes : Option Key → List Key → ℕ
  changes previous [] = 0
  changes previous (k ∷ ks) =
      let rest = changes (some k) ks in if has_changed same_key previous k then 1 + rest else rest

  -- A run: its time, its trigger, the diagnostics interval and its keys.
  pub record Run : Type 0 where
    pub now_ts : ℕ
    pub reason : TriggerReason
    pub diagnostics_interval : ℕ
    pub keys : RunKeys Key

  pub after_runs : List Run → TimerState Key → TimerState Key
  after_runs [] s = s
  after_runs (r ∷ rs) s =
      after_runs rs (publish_run same_key r.now_ts r.reason r.diagnostics_interval r.keys s).0

  abbrev pub policies_key : Run → Key
  policies_key r = r.keys.device_policies

  abbrev pub dispatch_key : Run → Key
  dispatch_key r = r.keys.dispatch_command

  abbrev pub state_key : Run → Key
  state_key r = r.keys.policy_state

  next_version_lem :
      (changed : Bool) (version rest : ℕ)
      → next_monotonic_version version changed + rest
        ≡ version + (if changed then 1 + rest else rest)
  next_version_lem true version rest = omega arith
  next_version_lem false version rest = refl

  -- After any sequence of runs each of the three versions has grown by the number of times that its
  -- key departed from the key of the run before.
  pub versions_count_changes :
      (runs : List Run) (s : TimerState Key)
      → let s' = after_runs runs s in
        (s'.device_policies_version
          ≡ s.device_policies_version + changes s.previous_device_policies (map policies_key runs))
        × (s'.dispatch_command_version
            ≡ s.dispatch_command_version
              + changes s.previous_dispatch_command (map dispatch_key runs))
        × (s'.policy_state_version
            ≡ s.policy_state_version + changes s.previous_policy_state (map state_key runs))
  unfolding after_runs changes publish_run
  versions_count_changes [] s = (omega arith, omega arith, omega arith)
  versions_count_changes (r ∷ rs) s =
      let (a, b, c) =
        versions_count_changes rs
          (publish_run same_key r.now_ts r.reason r.diagnostics_interval r.keys s).0 in
      (
        a
            ∙ next_version_lem
                (has_changed same_key s.previous_device_policies r.keys.device_policies)
                s.device_policies_version _,
        b
            ∙ next_version_lem
                (has_changed same_key s.previous_dispatch_command r.keys.dispatch_command)
                s.dispatch_command_version _,
        c
            ∙ next_version_lem (has_changed same_key s.previous_policy_state r.keys.policy_state)
                s.policy_state_version _,
      )
