-- ===== src/NetZero/Primary.antt =====
-- modules/ems_core/net_zero/engine.py: _resolve_primary_consuming_authority. One consuming regulator
-- is chosen from an explicit fallback order; NetZero/Judgement has the decision on each device.
pub mod Authority
use ha_ems.Prelude.{
  Bool, true, false, ◌&&◌, ◌||◌, not, Option, none, some, List, [], ◌∷◌, ◌++◌, String, same,
  append_new_ids, ℤ, pos, ltb_ℤ, if◌then◌else◌,
}
use ha_ems.Domain.Profiles.{Profiles, is_automatic, is_horizon_by_haeo, is_net_zero}
use ha_ems.Domain.Models.{HaeoNetZeroPlan}
use ha_ems.NetZero.Judgement.{SkipReason, SelectReason, Situation, judge, skipped, chosen}

pub data AuthorityReason : Type 0 where
  primary_regulation_inactive no_primary_consuming_devices_configured
        no_realisable_primary_consuming_device no_positive_consuming_request :
      AuthorityReason
  selected_by : SelectReason → AuthorityReason

pub record ConsumingAuthority : Type 0 where
  pub effective_device_id : String
  pub effective_target_w : ℤ
  pub effective_reason : AuthorityReason
  pub requested_w_by_id : List (String × ℤ)
  pub skipped_by_id : List (String × SkipReason)
  pub unserved_consuming_w : ℤ

-- The dictionaries and the first positive request that the loop has gathered.
pub record Progress : Type 0 where
  pub requested_w_by_id : List (String × ℤ)
  pub skipped_by_id : List (String × SkipReason)
  pub first_positive_request_w : Option ℤ

abbrev pub note_request : String → Option ℤ → List (String × ℤ) → List (String × ℤ)
note_request device_id none requests = requests
note_request device_id (some w) requests = requests ++ (device_id, w) ∷ []

abbrev pub first_positive : Option ℤ → Option ℤ → Option ℤ
first_positive (some w) requested = some w
first_positive none none = none
first_positive none (some w) = if ltb_ℤ (pos 0) w then some w else none

abbrev pub note_skip : String → SkipReason → Option ℤ → Progress → Progress
note_skip device_id reason requested p = record {
  requested_w_by_id = note_request device_id requested p.requested_w_by_id;
  skipped_by_id = p.skipped_by_id ++ (device_id, reason) ∷ [];
  first_positive_request_w = first_positive p.first_positive_request_w requested;
}

-- What is returned when no candidate was chosen.
unfoldable pub no_authority : Bool → Progress → ConsumingAuthority
no_authority configured p = record {
  effective_device_id = "";
  effective_target_w = pos 0;
  effective_reason =
      if not configured
      then no_primary_consuming_devices_configured
      else elim p.first_positive_request_w [
        | some _ ↦ no_realisable_primary_consuming_device
        | none ↦ AuthorityReason.no_positive_consuming_request
      ];
  requested_w_by_id = p.requested_w_by_id;
  skipped_by_id = p.skipped_by_id;
  unserved_consuming_w = elim p.first_positive_request_w [ some w ↦ w | none ↦ pos 0 ];
}

unfoldable pub resolve_loop : Situation → Bool → List String → Progress → ConsumingAuthority
resolve_loop s configured [] p = no_authority configured p
resolve_loop s configured (device_id ∷ ids) p = elim (judge s device_id) [
  | skipped reason requested ↦
      resolve_loop s configured ids (note_skip device_id reason requested p)
  | chosen requested target reason ↦ record {
    effective_device_id = device_id;
    effective_target_w = target;
    effective_reason = selected_by reason;
    requested_w_by_id = note_request device_id (some requested) p.requested_w_by_id;
    skipped_by_id = p.skipped_by_id;
    unserved_consuming_w = pos 0;
  }
]

abbrev pub is_configured : List String → Bool
is_configured [] = false
is_configured (_ ∷ _) = true

abbrev pub no_progress : Progress
no_progress = record { requested_w_by_id = []; skipped_by_id = []; first_positive_request_w = none }

unfoldable pub resolve_primary_consuming_authority :
    Profiles → Situation → List String → ConsumingAuthority
unfolding no_authority
resolve_primary_consuming_authority profiles s ordered_device_ids =
    if not (is_net_zero profiles.goal)
      || not (is_automatic profiles.control || is_horizon_by_haeo profiles.control)
    then record (no_authority true no_progress) { effective_reason = primary_regulation_inactive }
    else resolve_loop s (is_configured ordered_device_ids) ordered_device_ids no_progress

-- _ordered_primary_consuming_device_ids: the planned device first, then the configured ones.
unfoldable pub ordered_primary_consuming_device_ids :
    List String → Option HaeoNetZeroPlan → List String
unfolding append_new_ids
ordered_primary_consuming_device_ids configured none = append_new_ids [] configured
ordered_primary_consuming_device_ids configured (some plan) =
    append_new_ids
      (if plan.active && not (same plan.primary_consuming_device_id "")
        then plan.primary_consuming_device_id ∷ []
        else [])
      configured
