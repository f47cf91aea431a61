-- ===== src/Policy/Timer/Spacing.antt =====
-- Theorems on Policy/Timer: the times of the runs that the timer's ticks start.
use ha_ems.Prelude.{
  ℕ, ◌+◌, ◌==◌, leb, Bool, true, false, not, Option, none, some, List, [], ◌∷◌, All, if◌then◌else◌,
  ◌≡◌, subst, arith, inl, inr, ◌⊎◌,
}
use ha_ems.Policy.Timer.{
  TimerState, EngineContext, has_elapsed, publish_run, ems_policy_engine_tick,
}

module _ {Key : Type 0} (same_key : Key → Key → Bool) where
  -- A tick of the timer: its time, and the context if it can be read.
  pub record TimerTick : Type 0 where
    pub now_ts : ℕ
    pub context : Option (EngineContext same_key)

  abbrev pub after_tick : TimerTick → TimerState Key → TimerState Key
  after_tick t s = (ems_policy_engine_tick same_key t.now_ts t.context s).0

  abbrev pub has_run : TimerTick → TimerState Key → Bool
  has_run t s = not ((after_tick t s).runs_seen == s.runs_seen)

  -- The times of the ticks that counted a run.
  pub run_times : List TimerTick → TimerState Key → List ℕ
  run_times [] s = []
  run_times (t ∷ ts) s =
      let rest = run_times ts (after_tick t s) in if has_run t s then t.now_ts ∷ rest else rest

  -- Each time is at least `m` after the one before.
  pub IsSpaced : ℕ → Option ℕ → List ℕ → Type 0
  IsSpaced m last [] = Unit {0}
  IsSpaced m last (t ∷ ts) = (has_elapsed last m t ≡ true) × IsSpaced m (some t) ts

  abbrev pub interval_at_least : ℕ → Option (EngineContext same_key) → Bool
  interval_at_least m none = true
  interval_at_least m (some c) = leb m c.interval_seconds

  tick_spacing :
      (m now_ts : ℕ) (context : Option (EngineContext same_key)) (s : TimerState Key)
      → interval_at_least m context ≡ true
      → let s' = (ems_policy_engine_tick same_key now_ts context s).0 in
        ((s'.runs_seen ≡ s.runs_seen) × (s'.last_run_ts ≡ s.last_run_ts))
        ⊎ ((s'.runs_seen ≡ s.runs_seen + 1)
            × (s'.last_run_ts ≡ some now_ts)
            × (has_elapsed s.last_run_ts m now_ts ≡ true))
  unfolding ems_policy_engine_tick publish_run
  tick_spacing m now_ts context s h = ground arith

  -- However the ticks fall, two successive runs that they start are at least `m` apart, and the first
  -- of them is at least `m` after the run before the ticks, if every configured interval is at least
  -- `m`.
  pub runs-IsSpaced :
      (m : ℕ) (ticks : List TimerTick) (s : TimerState Key)
      → All (λ t. interval_at_least m t.context ≡ true) ticks
      → IsSpaced m s.last_run_ts (run_times ticks s)
  unfolding run_times IsSpaced
  runs-IsSpaced m [] s h = tt
  runs-IsSpaced m (t ∷ ts) s (h, hs) =
      let rest = runs-IsSpaced m ts (after_tick t s) hs in
      elim (tick_spacing m t.now_ts t.context s h) [
        | inl (idle, last) ↦
            let none_run : has_run t s ≡ false = ground arith in
            rw none_run (subst (λ l. IsSpaced m l (run_times ts (after_tick t s))) last rest)
        | inr (ran, last, apart) ↦
            let one_run : has_run t s ≡ true = ground arith in
            rw one_run (apart, subst (λ l. IsSpaced m l (run_times ts (after_tick t s))) last rest)
      ]
