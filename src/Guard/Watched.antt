-- ===== src/Guard/Watched.antt =====
-- Theorems on Guard: the batteries that guard_battery_device_ids lists.
use ha_ems.Prelude.{
  Bool, true, false, ◌&&◌, ◌||◌, not, List, [], ◌∷◌, ◌++◌, Memᴰ, String, same, same_iff, has_id,
  has_id-append, ◌≡◌, ◌≢◌, ◌↔◌, inl, inr, refl, arith, Bool-cases,
}
use ha_ems.Domain.Models.{CoreConfig, Device, is_battery}
use ha_ems.Guard.{is_battery_id, primary_batteries, producing_batteries, guard_battery_device_ids}

-- The batteries that the guard watches: the batteries among the primary candidates, and the batteries
-- that regulate production.
pub data IsGuarded (cfg : CoreConfig) (x : String) : Type 0 where
  primary :
      x ≢ ""
      → is_battery_id cfg x ≡ true
      → has_id x cfg.global_config.primary_consuming_device_ids ≡ true
      → IsGuarded cfg x
  producer :
      (d : Device)
      → Memᴰ d cfg.devices
      → d.device_id ≡ x
      → is_battery d.kind ≡ true
      → d.capabilities.supports_producing_regulation ≡ true
      → IsGuarded cfg x

primary_batteries-has_id :
    (cfg : CoreConfig) (x : String) (ids xs : List String)
    → has_id x (primary_batteries cfg ids xs)
      ≡ (has_id x ids || (not (same x "") && is_battery_id cfg x && has_id x xs))
unfolding primary_batteries has_id
primary_batteries-has_id cfg x ids [] = ground arith
primary_batteries-has_id cfg x ids (y ∷ ys) =
    elim (Bool-cases (not (same y "") && is_battery_id cfg y && not (has_id y ids))) [
      | inl e ↦ rw e (
          ground (
            arith,
            primary_batteries-has_id cfg x (ids ++ y ∷ []) ys,
            has_id-append x ids (y ∷ []),
            same_iff x y,
          ))
      | inr e ↦ rw e (ground (arith, primary_batteries-has_id cfg x ids ys, same_iff x y))
    ]

any_producing : String → List Device → Bool
any_producing x [] = false
any_producing x (d ∷ ds) =
    (is_battery d.kind && d.capabilities.supports_producing_regulation && same x d.device_id)
    || any_producing x ds

producing_batteries-has_id :
    (x : String) (ids : List String) (ds : List Device)
    → has_id x (producing_batteries ids ds) ≡ (has_id x ids || any_producing x ds)
unfolding producing_batteries any_producing has_id
producing_batteries-has_id x ids [] = ground arith
producing_batteries-has_id x ids (d ∷ ds) =
    elim (Bool-cases (
      is_battery d.kind
      && d.capabilities.supports_producing_regulation
      && not (has_id d.device_id ids))) [
        | inl e ↦ rw e (
            ground (
              arith,
              producing_batteries-has_id x (ids ++ d.device_id ∷ []) ds,
              has_id-append x ids (d.device_id ∷ []),
            ))
        | inr e ↦ rw e (ground (arith, producing_batteries-has_id x ids ds, same_iff x d.device_id))
      ]

any_producing-IsGuarded :
    (cfg : CoreConfig) (x : String) (ds : List Device)
    → ((d : Device) → Memᴰ d ds → Memᴰ d cfg.devices)
    → any_producing x ds ≡ true
    → IsGuarded cfg x
unfolding any_producing
any_producing-IsGuarded cfg x [] among h = absurd (cc h)
any_producing-IsGuarded cfg x (d ∷ ds) among h =
    elim (Bool-cases
      (is_battery d.kind && d.capabilities.supports_producing_regulation && same x d.device_id)) [
        | inl e ↦
            producer d (among d (Memᴰ.head refl)) (ground (arith, same_iff x d.device_id))
              (ground arith) (ground arith)
        | inr e ↦ any_producing-IsGuarded cfg x ds (λ c m. among c (Memᴰ.tail m)) (ground arith)
      ]

producer-any_producing :
    (x : String) (d : Device) (ds : List Device)
    → Memᴰ d ds
    → d.device_id ≡ x
    → is_battery d.kind ≡ true
    → d.capabilities.supports_producing_regulation ≡ true
    → any_producing x ds ≡ true
unfolding any_producing
producer-any_producing x d [] m named battery produces = elim m [ ]
producer-any_producing x d (e ∷ ds) (Memᴰ.head same_device) named battery produces =
    let first : (is_battery e.kind
          && e.capabilities.supports_producing_regulation
          && same x e.device_id)
        ≡ true =
      rw (← same_device) (ground (arith, same_iff x d.device_id)) in
    ground arith
producer-any_producing x d (e ∷ ds) (Memᴰ.tail m) named battery produces =
    ground (arith, producer-any_producing x d ds m named battery produces)

pub guard_ids-IsGuarded :
    (cfg : CoreConfig) (x : String)
    → (has_id x (guard_battery_device_ids cfg) ≡ true) ↔ IsGuarded cfg x
unfolding guard_battery_device_ids
guard_ids-IsGuarded cfg x =
    let ids = cfg.global_config.primary_consuming_device_ids in
    let all = producing_batteries-has_id x (primary_batteries cfg [] ids) cfg.devices in
    let candidates = primary_batteries-has_id cfg x [] ids in
    let no_earlier : has_id x [] ≡ false = unfold has_id in refl in
    (
      λ h. elim (Bool-cases (any_producing x cfg.devices)) [
        | inl e ↦ any_producing-IsGuarded cfg x cfg.devices (λ d m. m) e
        | inr e ↦ primary (ground (arith, same_iff x "")) (ground arith) (ground arith)
      ],
      λ g. elim g [
        | primary named battery listed ↦ ground (arith, same_iff x "")
        | producer d m named battery produces ↦
            let found = producer-any_producing x d cfg.devices m named battery produces in
            ground arith
      ],
    )
