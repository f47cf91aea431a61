-- ===== src/Dispatch/Persisted.antt =====
-- Theorems on Dispatch: the persisted list behind _apply_device_dispatch.
use ha_ems.Prelude.{
  Bool, true, false, ◌&&◌, ◌||◌, not, List, [], ◌∷◌, String, same, same_iff, has_id, has_id-append,
  remove_id, remove_id-IsDistinct, has_id-remove_id, has_id-remove_id_self,
  append_new_ids-IsDistinct, append_new_ids-has_id, append_new_ids_canonical, append-IsDistinct,
  IsDistinct, IsNamed, ◌≡◌, refl, sym, ◌∙◌, subst, arith, inl, inr, Bool-cases,
}
use ha_ems.Dispatch.{
  Command, DispatchAction, activate, release, clear_all, noop, apply_action, apply_device_dispatch,
  canonical_active_device_ids,
}

-- What is published: no identifier twice, none empty.
pub record IsCanonical (ids : List String) : Type 0 where
  pub distinct : IsDistinct ids
  pub all_named : IsNamed ids

-- Whatever the command and the state read back, the published list is canonical.
pub apply-IsCanonical :
    (c : Command) (active_ids : List String) → IsCanonical (apply_device_dispatch c active_ids)
unfolding apply_device_dispatch has_id
apply-IsCanonical c active_ids =
    let ids = (apply_action c.action c.device_id active_ids).active_ids in
    record {
      distinct = append_new_ids-IsDistinct [] ids tt;
      all_named = rw (append_new_ids-has_id "" [] ids) (ground (arith, same_iff "" ""));
    }

-- A canonical list is published as it is.
canonical_fixed : (ids : List String) → IsCanonical ids → canonical_active_device_ids ids ≡ ids
unfolding canonical_active_device_ids
canonical_fixed ids h = append_new_ids_canonical [] ids h.distinct h.all_named

apply_action-IsCanonical :
    (a : DispatchAction) (x : String) (ids : List String)
    → IsCanonical ids
    → IsCanonical (apply_action a x ids).active_ids
unfolding apply_action has_id
apply_action-IsCanonical activate x ids h =
    elim (Bool-cases (not (same x "") && not (has_id x ids))) [
      | inl e ↦ rw e (record {
        distinct = append-IsDistinct x ids h.distinct (ground arith);
        all_named =
            rw (has_id-append "" ids (x ∷ []))
              (ground (arith, h.all_named, same_iff "" x, same_iff x ""));
      })
      | inr e ↦ rw e h
    ]
apply_action-IsCanonical release x ids h = elim (Bool-cases (has_id x ids)) [
  | inl e ↦ rw e (record {
    distinct = remove_id-IsDistinct x ids h.distinct;
    all_named = elim (Bool-cases (same "" x)) [
      | inl empty ↦
          subst (λ y. has_id y (remove_id x ids) ≡ false) (sym ((same_iff "" x).0 empty))
            (has_id-remove_id_self x ids)
      | inr other ↦ rw (has_id-remove_id "" x ids (λ q. ground (arith, same_iff "" x))) h.all_named
    ];
  })
  | inr e ↦ rw e h
]
apply_action-IsCanonical clear_all x ids h = record { distinct = tt; all_named = refl }
apply_action-IsCanonical noop x ids h = h

-- On a canonical list publishing changes nothing more.
pub apply_canonical :
    (c : Command) (ids : List String)
    → IsCanonical ids
    → apply_device_dispatch c ids ≡ (apply_action c.action c.device_id ids).active_ids
unfolding apply_device_dispatch
apply_canonical c ids h = canonical_fixed _ (apply_action-IsCanonical c.action c.device_id ids h)

apply_action_idem :
    (a : DispatchAction) (x : String) (ids : List String)
    → (apply_action a x (apply_action a x ids).active_ids).active_ids
      ≡ (apply_action a x ids).active_ids
unfolding apply_action has_id
apply_action_idem activate x ids = ground (arith, has_id-append x ids (x ∷ []), same_iff x x)
apply_action_idem release x ids = ground (arith, has_id-remove_id_self x ids)
apply_action_idem clear_all x ids = refl
apply_action_idem noop x ids = refl

-- A second run of the applier with the same command changes nothing, from a canonical list.
pub apply_idem :
    (c : Command) (ids : List String)
    → IsCanonical ids
    → apply_device_dispatch c (apply_device_dispatch c ids) ≡ apply_device_dispatch c ids
apply_idem c ids h =
    let once = apply_canonical c ids h in
    rw once (
      apply_canonical c _ (apply_action-IsCanonical c.action c.device_id ids h)
      ∙ apply_action_idem c.action c.device_id ids)

abbrev pub is_activate : DispatchAction → Bool
is_activate activate = true
is_activate _ = false

abbrev pub is_release : DispatchAction → Bool
is_release release = true
is_release _ = false

abbrev pub is_clear_all : DispatchAction → Bool
is_clear_all clear_all = true
is_clear_all _ = false

has_id-release :
    (x y : String) (ids : List String)
    → has_id y (apply_action release x ids).active_ids ≡ (not (same y x) && has_id y ids)
unfolding apply_action has_id
has_id-release x y ids = elim (Bool-cases (same y x)) [
  | inl e ↦ rw ((same_iff y x).0 e) (ground (arith, has_id-remove_id_self x ids, same_iff x x))
  | inr e ↦ ground (arith, has_id-remove_id y x ids, same_iff y x)
]

has_id-activate :
    (x y : String) (ids : List String)
    → has_id y (apply_action activate x ids).active_ids
      ≡ (has_id y ids || (same y x && not (same x "")))
unfolding apply_action has_id
has_id-activate x y ids = elim (Bool-cases (same y x)) [
  | inl e ↦ rw ((same_iff y x).0 e) (ground (arith, has_id-append x ids (x ∷ []), same_iff x x))
  | inr e ↦ ground (arith, has_id-append y ids (x ∷ []), same_iff y x)
]

has_id-apply_action :
    (a : DispatchAction) (x y : String) (ids : List String)
    → has_id y (apply_action a x ids).active_ids ≡ (
        not (is_clear_all a)
        && not (is_release a && same y x)
        && (has_id y ids || (is_activate a && same y x && not (same x ""))))
unfolding apply_action has_id
has_id-apply_action activate x y ids = has_id-activate x y ids
has_id-apply_action release x y ids = ground (arith, has_id-release x y ids)
has_id-apply_action clear_all x y ids = refl
has_id-apply_action noop x y ids = ground arith

-- Which devices of a canonical list are active after a command: ACTIVATE adds its device unless that
-- is empty, RELEASE takes its device away, CLEAR_ALL takes all, and NOOP changes nothing.
pub has_id-apply :
    (c : Command) (ids : List String) (y : String)
    → IsCanonical ids
    → has_id y (apply_device_dispatch c ids) ≡ (
        not (is_clear_all c.action)
        && not (is_release c.action && same y c.device_id)
        && (has_id y ids
            || (is_activate c.action && same y c.device_id && not (same c.device_id ""))))
has_id-apply c ids y h =
    rw (apply_canonical c ids h) (has_id-apply_action c.action c.device_id y ids)
