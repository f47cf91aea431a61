-- ===== src/Surplus/Order/Candidates.antt =====
-- Theorems on Surplus/Order: next_device_target.
use ha_ems.Prelude.{
  ◌≡◌, refl, sym, true, false, ◌&&◌, List, [], ◌∷◌, Option, none, some, Memᴰ, All, Bool-cases, ◌⊎◌,
  inl, inr, arith,
}
use ha_ems.Domain.Models.{SurplusDeviceTarget}
use ha_ems.Surplus.Order.{
  beats, is_higher_priority_candidate, is_eligible, select_highest, next_device_target,
}

-- `t` may be chosen and no eligible target of the list precedes it.
pub record IsBest (targets : List SurplusDeviceTarget) (t : SurplusDeviceTarget) : Type 0 where
  pub eligible : is_eligible t ≡ true
  pub member : Memᴰ t targets
  pub unbeaten : All (λ u. (is_eligible u ≡ false) ⊎ (beats u t ≡ false)) targets

beats_below :
    (t c r : SurplusDeviceTarget) → beats t c ≡ true → beats t r ≡ false → beats c r ≡ false
beats_below t c r h k = ground arith

beats_negative_trans :
    (t c r : SurplusDeviceTarget) → beats t c ≡ false → beats c r ≡ false → beats t r ≡ false
beats_negative_trans t c r h k = ground arith

beats_skip :
    (t c r : SurplusDeviceTarget)
    → (is_eligible t && beats t c) ≡ false
    → beats c r ≡ false
    → (is_eligible t ≡ false) ⊎ (beats t r ≡ false)
beats_skip t c r h k = ground (arith, beats_negative_trans t c r)

beats_irrefl : (a : SurplusDeviceTarget) → beats a a ≡ false
beats_irrefl a = ground arith

-- What the loop makes of the choice so far and the targets ahead.
abbrev Found :
    Option SurplusDeviceTarget → List SurplusDeviceTarget → Option SurplusDeviceTarget → Type 0
Found s ts none = (s ≡ none) × All (λ u. is_eligible u ≡ false) ts
Found s ts (some t) =
    ((s ≡ some t) ⊎ ((is_eligible t ≡ true) × Memᴰ t ts))
    × All (λ u. (is_eligible u ≡ false) ⊎ (beats u t ≡ false)) ts
    × ((o : SurplusDeviceTarget) → s ≡ some o → beats o t ≡ false)

eq_of_some : {a b : SurplusDeviceTarget} → some a ≡ some b → a ≡ b
eq_of_some e = cc

-- The first target ahead becomes the choice.
Found-take :
    (s : Option SurplusDeviceTarget) (t : SurplusDeviceTarget) (ts : List SurplusDeviceTarget)
    (r : Option SurplusDeviceTarget)
    → is_eligible t ≡ true
    → is_higher_priority_candidate t s ≡ true
    → Found (some t) ts r
    → Found s (t ∷ ts) r
unfolding is_higher_priority_candidate
Found-take s t ts none e h f = absurd (cc f.0)
Found-take none t ts (some r) e h (inl q, u, o) = (
  inr (rw (← eq_of_some q) e, Memᴰ.head (sym (eq_of_some q))),
  (inr (o t refl), u),
  λ p q'. absurd (cc q'),
)
Found-take (some c) t ts (some r) e h (inl q, u, o) = (
  inr (rw (← eq_of_some q) e, Memᴰ.head (sym (eq_of_some q))),
  (inr (o t refl), u),
  λ p q'. rw (← eq_of_some q') (beats_below t c r h (o t refl)),
)
Found-take none t ts (some r) e h (inr m, u, o) =
    (inr (m.0, Memᴰ.tail m.1), (inr (o t refl), u), λ p q'. absurd (cc q'))
Found-take (some c) t ts (some r) e h (inr m, u, o) = (
  inr (m.0, Memᴰ.tail m.1),
  (inr (o t refl), u),
  λ p q'. rw (← eq_of_some q') (beats_below t c r h (o t refl)),
)

-- The choice so far stays.
Found-skip :
    (s : Option SurplusDeviceTarget) (t : SurplusDeviceTarget) (ts : List SurplusDeviceTarget)
    (r : Option SurplusDeviceTarget)
    → (is_eligible t && is_higher_priority_candidate t s) ≡ false
    → Found s ts r
    → Found s (t ∷ ts) r
unfolding is_higher_priority_candidate
Found-skip none t ts none h f = (refl, (ground arith, f.1))
Found-skip (some c) t ts none h f = absurd (cc f.0)
Found-skip none t ts (some r) h (inl q, u, o) = absurd (cc q)
Found-skip (some c) t ts (some r) h (inl q, u, o) =
    (inl q, (rw (← eq_of_some q) (ground arith), u), o)
Found-skip none t ts (some r) h (inr m, u, o) = (inr (m.0, Memᴰ.tail m.1), (ground arith, u), o)
Found-skip (some c) t ts (some r) h (inr m, u, o) =
    (inr (m.0, Memᴰ.tail m.1), (beats_skip t c r (ground arith) (o c refl), u), o)

select_highest-Found :
    (s : Option SurplusDeviceTarget) (ts : List SurplusDeviceTarget)
    → Found s ts (select_highest s ts)
unfolding select_highest
select_highest-Found none [] = (refl, tt)
select_highest-Found (some t) [] = (inl refl, tt, λ o e. ground (arith, beats_irrefl t))
select_highest-Found s (t ∷ ts) =
    elim (Bool-cases (is_eligible t && is_higher_priority_candidate t s)) [
      | inl e ↦
          rw e
            (Found-take s t ts _ (ground arith) (ground arith) (select_highest-Found (some t) ts))
      | inr e ↦ rw e (Found-skip s t ts _ e (select_highest-Found s ts))
    ]

-- The next candidate is eligible, is one of the targets, and no eligible target has a higher
-- priority, or the same priority and a lower rank. There is none only if no target is eligible.
pub next_device_target-IsBest :
    (targets : List SurplusDeviceTarget)
    → ((t : SurplusDeviceTarget) × (next_device_target targets ≡ some t) × IsBest targets t)
      ⊎ ((next_device_target targets ≡ none) × All (λ u. is_eligible u ≡ false) targets)
unfolding next_device_target
next_device_target-IsBest targets =
    go (select_highest none targets) (select_highest-Found none targets)
  where
    go :
        (r : Option SurplusDeviceTarget)
        → Found none targets r
        → ((t : SurplusDeviceTarget) × (r ≡ some t) × IsBest targets t)
          ⊎ ((r ≡ none) × All (λ u. is_eligible u ≡ false) targets)
    go none f = inr (refl, f.1)
    go (some t) (inl e, u, o) = absurd (cc e)
    go (some t) (inr m, u, o) = inl (t, refl, record { eligible = m.0; member = m.1; unbeaten = u })
