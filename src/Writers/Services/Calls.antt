-- ===== src/Writers/Services/Calls.antt =====
-- The calls of Writers/Services on entities of a supported domain: they end without an error, and
-- the entity has the value that was set.
use ha_ems.Prelude.{Bool, true, false, ◌≡◌, refl, ◌∙◌, String, same, same_iff, ℤ, if◌then◌else◌}
use ha_ems.Writers.Services.{
  Store, HomeAssistant, CarriesOut, done, set_boolean, set_number, set_number_if, set_boolean_if,
  turn, set_value, domain, is_switch_domain, is_number_domain, ◌>>=◌, ◌>>◌,
}

same_self : (x : String) → same x x ≡ true
same_self x = (same_iff x x).1 refl

module _ (ha : HomeAssistant) (carries : CarriesOut ha) where
  pub set_boolean_done :
      (entity : String) (v : Bool) (s : Store)
      → is_switch_domain (domain entity) ≡ true
      → (set_boolean ha entity v s ≡ done tt (ha (turn entity v) s))
        × ((ha (turn entity v) s).switch entity ≡ v)
  unfolding set_boolean
  set_boolean_done entity v s known =
      (rw known, carries.turn-switch entity v s entity ∙ rw (same_self entity))

  pub set_number_done :
      (entity : String) (v : ℤ) (s : Store)
      → is_number_domain (domain entity) ≡ true
      → (set_number ha entity v s ≡ done tt (ha (set_value entity v) s))
        × ((ha (set_value entity v) s).number entity ≡ v)
  unfolding set_number
  set_number_done entity v s known =
      (rw known, carries.set_value-number entity v s entity ∙ rw (same_self entity))

  pub set_boolean_if_done :
      (b : Bool) (entity : String) (v : Bool) (s : Store)
      → is_switch_domain (domain entity) ≡ true
      → (s' : Store) × (set_boolean_if ha b entity v s ≡ done b s')
        × (s'.switch entity ≡ (if b then v else s.switch entity))
        × ((x : String) → s'.number x ≡ s.number x)
  unfolding set_boolean_if
  set_boolean_if_done false entity v s known = (s, refl, refl, λ x. refl)
  set_boolean_if_done true entity v s known =
      let (ok, on) = set_boolean_done entity v s known in
      (ha (turn entity v) s, rw (ok, ◌>>◌, ◌>>=◌), on, carries.turn-number entity v s)

  pub set_number_if_done :
      (b : Bool) (entity : String) (v : ℤ) (s : Store)
      → is_number_domain (domain entity) ≡ true
      → (s' : Store) × (set_number_if ha b entity v s ≡ done b s')
        × (s'.number entity ≡ (if b then v else s.number entity))
        × ((x : String) → s'.switch x ≡ s.switch x)
  unfolding set_number_if
  set_number_if_done false entity v s known = (s, refl, refl, λ x. refl)
  set_number_if_done true entity v s known =
      let (ok, level) = set_number_done entity v s known in
      (ha (set_value entity v) s, rw (ok, ◌>>◌, ◌>>=◌), level, carries.set_value-switch entity v s)
