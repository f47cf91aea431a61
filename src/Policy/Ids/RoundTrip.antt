-- ===== src/Policy/Ids/RoundTrip.antt =====
-- Theorems on Policy/Ids: a persisted list is read back as it was written.
use ha_ems.Prelude.{
  Bool, true, false, not, ◌&&◌, ◌||◌, List, [], ◌∷◌, All, String, same, same_iff, ◌≡◌, refl, ap,
  ◌∙◌, arith, Bool-cases, inl, inr,
}
use Prim.Native.Char.{Char}
use ha_ems.Policy.Ids.{
  is_space, is_comma, strip_left, strip_right, keep_char, strip, split_part, split_commas,
  parse_parts, parse_active_device_ids, append_text, join_ids,
}

unfoldable pub has_no : (Char → Bool) → String → Bool
has_no is_bad String.[] = true
has_no is_bad (String.◌∷◌ c s) = not (is_bad c) && has_no is_bad s

-- An identifier without spaces and commas.
pub record IsPlain (x : String) : Type 0 where
  pub not_empty : same x "" ≡ false
  pub no_space : has_no is_space x ≡ true
  pub no_comma : has_no is_comma x ≡ true

strip_right_id : (s : String) → has_no is_space s ≡ true → strip_right s ≡ s
unfolding strip_right has_no
strip_right_id String.[] h = refl
strip_right_id (String.◌∷◌ c s) h =
    ap (keep_char c) (strip_right_id s (ground arith)) ∙ kept c s (ground arith)
  where
    kept : (c : Char) (s : String) → is_space c ≡ false → keep_char c s ≡ String.◌∷◌ c s
    kept c String.[] q = rw (q, keep_char) refl
    kept c (String.◌∷◌ d s) q = refl

strip_left_id : (s : String) → has_no is_space s ≡ true → strip_left s ≡ s
unfolding strip_left has_no
strip_left_id String.[] h = refl
strip_left_id (String.◌∷◌ c s) h = ground arith

strip_id : (s : String) → has_no is_space s ≡ true → strip s ≡ s
unfolding strip
strip_id s h = ap strip_right (strip_left_id s h) ∙ strip_right_id s h

has_no-append :
    (is_bad : Char → Bool) (s t : String)
    → has_no is_bad s ≡ true
    → has_no is_bad t ≡ true
    → has_no is_bad (append_text s t) ≡ true
unfolding has_no append_text
has_no-append is_bad String.[] t h k = k
has_no-append is_bad (String.◌∷◌ c s) t h k =
    let rest = has_no-append is_bad s t (ground arith) k in ground arith

join_ids_spaceless : (ids : List String) → All IsPlain ids → has_no is_space (join_ids ids) ≡ true
unfolding join_ids has_no
join_ids_spaceless [] h = refl
join_ids_spaceless (x ∷ []) (h, _) = h.no_space
join_ids_spaceless (x ∷ y ∷ ids) (h, hs) =
    has_no-append is_space x (append_text "," (join_ids (y ∷ ids))) h.no_space
      (has_no-append is_space "," (join_ids (y ∷ ids)) refl (join_ids_spaceless (y ∷ ids) hs))

split_one : (x : String) → has_no is_comma x ≡ true → split_commas x ≡ x ∷ []
unfolding split_commas has_no
split_one String.[] h = refl
split_one (String.◌∷◌ c s) h =
    let rest = split_one s (ground arith) in
    let plain : is_comma c ≡ false = ground arith in rw (plain, rest, split_part) refl

split_more :
    (x t : String)
    → has_no is_comma x ≡ true
    → split_commas (append_text x (append_text "," t)) ≡ x ∷ split_commas t
unfolding split_commas has_no append_text
split_more String.[] t h = refl
split_more (String.◌∷◌ c s) t h =
    let rest = split_more s t (ground arith) in
    let plain : is_comma c ≡ false = ground arith in rw (plain, rest, split_part) refl

split-join :
    (x : String) (ids : List String)
    → All IsPlain (x ∷ ids)
    → split_commas (join_ids (x ∷ ids)) ≡ x ∷ ids
unfolding join_ids
split-join x [] (h, _) = split_one x h.no_comma
split-join x (y ∷ ids) (h, hs) =
    split_more x (join_ids (y ∷ ids)) h.no_comma ∙ ap (λ r. x ∷ r) (split-join y ids hs)

parse_parts_id : (ids : List String) → All IsPlain ids → parse_parts ids ≡ ids
unfolding parse_parts
parse_parts_id [] h = refl
parse_parts_id (x ∷ ids) (h, hs) =
    let whole = strip_id x h.no_space in
    rw (whole, h.not_empty) (ap (λ r. x ∷ r) (parse_parts_id ids hs))

abbrev pub is_unavailable : String → Bool
is_unavailable s = same s "unknown" || same s "unavailable" || same s "none"

has_chars : String → Bool
has_chars String.[] = false
has_chars (String.◌∷◌ c s) = true

cons_not_empty : (c : Char) (s : String) → same (String.◌∷◌ c s) "" ≡ false
unfolding has_chars
cons_not_empty c s = elim (Bool-cases (same (String.◌∷◌ c s) "")) [
  | inr e ↦ e
  | inl e ↦ absurd (cc (ap has_chars ((same_iff (String.◌∷◌ c s) "").0 e)))
]

append_not_empty : (x t : String) → same x "" ≡ false → same (append_text x t) "" ≡ false
unfolding append_text
append_not_empty String.[] t h = absurd (cc h)
append_not_empty (String.◌∷◌ c s) t h = cons_not_empty c (append_text s t)

join_not_empty :
    (x : String) (ids : List String) → All IsPlain (x ∷ ids) → same (join_ids (x ∷ ids)) "" ≡ false
unfolding join_ids
join_not_empty x [] (h, _) = h.not_empty
join_not_empty x (y ∷ ids) (h, hs) =
    append_not_empty x (append_text "," (join_ids (y ∷ ids))) h.not_empty

read_back :
    (s : String)
    → strip s ≡ s
    → is_unavailable s ≡ false
    → same s "" ≡ false
    → parse_active_device_ids s ≡ parse_parts (split_commas s)
unfolding parse_active_device_ids
read_back s whole available filled = ground arith

-- A list of identifiers without spaces and commas, none of them empty, is read back from the text
-- that is written for it, unless that text is one of the three that stand for a missing state.
pub parse-join :
    (ids : List String)
    → All IsPlain ids
    → is_unavailable (join_ids ids) ≡ false
    → parse_active_device_ids (join_ids ids) ≡ ids
unfolding parse_active_device_ids join_ids
parse-join [] h available = refl
parse-join (x ∷ ids) h available =
    let whole = strip_id (join_ids (x ∷ ids)) (join_ids_spaceless (x ∷ ids) h) in
    let filled = join_not_empty x ids h in
    read_back (join_ids (x ∷ ids)) whole available filled
    ∙ ap parse_parts (split-join x ids h)
    ∙ parse_parts_id (x ∷ ids) h
