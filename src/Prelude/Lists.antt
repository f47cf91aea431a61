-- ===== src/Prelude/Lists.antt =====
-- Predicates on lists by recursion, and lists of device identifiers.
use Prim.Native.Nat.{ℕ, suc}
use Prim.Native.String.{String}
use mathlib.Core.Path.{◌≡◌, refl, sym, ap, ◌∙◌}
use mathlib.Core.Logic.{◌≢◌, ◌↔◌, inl, inr}
use mathlib.Core.Bool.{Bool, true, false, ◌||◌, not, ◌&&◌}
use mathlib.Core.List.{List, [], ◌∷◌, ◌++◌}
use text.Mathlib.Text.{◌==◌ as str_eq}
use text.Mathlib.TextEquality.{eq_iff}
use native.Mathlib.Omega.{arith}
use ha_ems.Prelude.Tests.{if◌then◌else◌, Bool-cases}

-- `a == b` on texts.
abbrev pub same : String → String → Bool
same = str_eq

pub same_iff : (a b : String) → (same a b ≡ true) ↔ (a ≡ b)
same_iff = eq_iff

module _ {ℓ} {A : Type ℓ} where
  abbrev pub length : List A → ℕ
  length [] = 0
  length (x ∷ xs) = suc (length xs)

  abbrev pub All {κ} : (A → Type κ) → List A → Type κ
  All P [] = Unit
  All P (x ∷ xs) = P x × All P xs

-- `x in ids`, as the source's tuples, lists and sets of device identifiers test it.
unfoldable pub has_id : String → List String → Bool
has_id x [] = false
has_id x (y ∷ ys) = same x y || has_id x ys

-- `[y for y in ids if y != x]`.
unfoldable pub remove_id : String → List String → List String
remove_id x [] = []
remove_id x (y ∷ ys) = if same y x then remove_id x ys else y ∷ remove_id x ys

-- No identifier stands twice.
abbrev pub IsDistinct : List String → Type 0
IsDistinct [] = Unit
IsDistinct (x ∷ xs) = (has_id x xs ≡ false) × IsDistinct xs

pub has_id-append :
    (x : String) (xs ys : List String) → has_id x (xs ++ ys) ≡ (has_id x xs || has_id x ys)
unfolding has_id
has_id-append x [] ys = refl
has_id-append x (y ∷ xs) ys = ground (arith, has_id-append x xs ys)

pub has_id-remove_id_self : (x : String) (xs : List String) → has_id x (remove_id x xs) ≡ false
unfolding has_id remove_id
has_id-remove_id_self x [] = refl
has_id-remove_id_self x (y ∷ xs) =
    ground (arith, has_id-remove_id_self x xs, same_iff x y, same_iff y x)

pub has_id-remove_id :
    (x y : String) (xs : List String) → x ≢ y → has_id x (remove_id y xs) ≡ has_id x xs
unfolding has_id remove_id
has_id-remove_id x y [] h = refl
has_id-remove_id x y (z ∷ xs) h =
    ground (arith, has_id-remove_id x y xs h, same_iff x z, same_iff z y)

pub remove_id-IsDistinct :
    (x : String) (xs : List String) → IsDistinct xs → IsDistinct (remove_id x xs)
unfolding remove_id
remove_id-IsDistinct x [] h = tt
remove_id-IsDistinct x (y ∷ xs) h =
    ground (arith, remove_id-IsDistinct x xs h.1, has_id-remove_id y x xs, same_iff y x)

pub append-IsDistinct :
    (x : String) (xs : List String)
    → IsDistinct xs
    → has_id x xs ≡ false
    → IsDistinct (xs ++ x ∷ [])
unfolding has_id
append-IsDistinct x [] h n = (refl, tt)
append-IsDistinct x (y ∷ xs) h n =
    ground
      (arith, append-IsDistinct x xs h.1, has_id-append y xs (x ∷ []), same_iff x y, same_iff y x)

pub remove_id_absent : (x : String) (xs : List String) → has_id x xs ≡ false → remove_id x xs ≡ xs
unfolding has_id remove_id
remove_id_absent x [] h = refl
remove_id_absent x (y ∷ xs) h = ground (arith, remove_id_absent x xs, same_iff x y, same_iff y x)

-- The source's loops that gather identifiers: an empty or known one is passed over.
unfoldable pub append_new_ids : List String → List String → List String
append_new_ids ordered [] = ordered
append_new_ids ordered (x ∷ xs) =
    append_new_ids (if same x "" || has_id x ordered then ordered else ordered ++ x ∷ []) xs

pub append_new_ids-IsDistinct :
    (ordered xs : List String) → IsDistinct ordered → IsDistinct (append_new_ids ordered xs)
unfolding append_new_ids
append_new_ids-IsDistinct ordered [] h = h
append_new_ids-IsDistinct ordered (x ∷ xs) h = elim (Bool-cases (same x "" || has_id x ordered)) [
  | inl old ↦ rw old (append_new_ids-IsDistinct ordered xs h)
  | inr new ↦ rw new (
      append_new_ids-IsDistinct (ordered ++ x ∷ []) xs
        (append-IsDistinct x ordered h (ground arith)))
]

pub append_new_ids-has_id :
    (y : String) (ordered xs : List String)
    → has_id y (append_new_ids ordered xs) ≡ (has_id y ordered || (not (same y "") && has_id y xs))
unfolding append_new_ids has_id
append_new_ids-has_id y ordered [] = ground arith
append_new_ids-has_id y ordered (x ∷ xs) = ground (
  arith,
  append_new_ids-has_id y ordered xs,
  append_new_ids-has_id y (ordered ++ x ∷ []) xs,
  has_id-append y ordered (x ∷ []),
  same_iff x "",
  same_iff y "",
  same_iff y x,
)

-- No identifier is empty.
abbrev pub IsNamed : List String → Type 0
IsNamed xs = has_id "" xs ≡ false

append_nil : (xs : List String) → xs ++ [] ≡ xs
append_nil [] = refl
append_nil (x ∷ xs) = ap (λ l. x ∷ l) (append_nil xs)

append_one_assoc :
    (xs : List String) (y : String) (ys : List String) → (xs ++ y ∷ []) ++ ys ≡ xs ++ y ∷ ys
append_one_assoc [] y ys = refl
append_one_assoc (x ∷ xs) y ys = ap (λ l. x ∷ l) (append_one_assoc xs y ys)

has_id_middle : (xs : List String) (y : String) (ys : List String) → has_id y (xs ++ y ∷ ys) ≡ true
unfolding has_id
has_id_middle [] y ys = ground (arith, same_iff y y)
has_id_middle (x ∷ xs) y ys = ground (arith, has_id_middle xs y ys)

has_id_distinct :
    (xs : List String) (y : String) (ys : List String)
    → IsDistinct (xs ++ y ∷ ys)
    → has_id y xs ≡ false
unfolding has_id
has_id_distinct [] y ys h = refl
has_id_distinct (x ∷ xs) y ys h =
    ground (arith, has_id_distinct xs y ys h.1, same_iff y x, has_id_middle xs y ys)

-- A list that is distinct and named is gathered unchanged.
pub append_new_ids_canonical :
    (ordered xs : List String)
    → IsDistinct (ordered ++ xs)
    → IsNamed xs
    → append_new_ids ordered xs ≡ ordered ++ xs
unfolding append_new_ids has_id
append_new_ids_canonical ordered [] h n = sym (append_nil ordered)
append_new_ids_canonical ordered (x ∷ xs) h n =
    let fresh : (same x "" || has_id x ordered) ≡ false =
      ground (arith, has_id_distinct ordered x xs h, same_iff x "", same_iff "" x) in
    rw fresh (
      append_new_ids_canonical (ordered ++ x ∷ []) xs (rw (append_one_assoc ordered x xs) h)
        (ground arith)
      ∙ append_one_assoc ordered x xs)
