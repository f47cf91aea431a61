-- ===== src/Policy/Ids.antt =====
-- ems_policy_engine.py: _parse_active_device_ids of a text, and the text that
-- ems_dispatch_state_applier.py writes for it. A space is one of the ASCII characters that `strip`
-- removes.
pub mod RoundTrip
use ha_ems.Prelude.{
  ℕ, Bool, true, false, not, ◌&&◌, ◌||◌, List, [], ◌∷◌, String, same, leb, ◌==◌, if◌then◌else◌, ◌≡◌,
  refl,
}
use Prim.Native.Char.{Char, code}

abbrev pub is_space : Char → Bool
is_space c =
    code c == 32 || (leb 9 (code c) && leb (code c) 13) || (leb 28 (code c) && leb (code c) 31)

abbrev pub is_comma : Char → Bool
is_comma c = code c == 44

-- `text.lstrip()`, `text.rstrip()` and `text.strip()`.
unfoldable pub strip_left : String → String
strip_left String.[] = ""
strip_left (String.◌∷◌ c s) = if is_space c then strip_left s else String.◌∷◌ c s

unfoldable pub keep_char : Char → String → String
keep_char c String.[] = if is_space c then "" else String.◌∷◌ c ""
keep_char c (String.◌∷◌ d s) = String.◌∷◌ c (String.◌∷◌ d s)

unfoldable pub strip_right : String → String
unfolding keep_char
strip_right String.[] = ""
strip_right (String.◌∷◌ c s) = keep_char c (strip_right s)

unfoldable pub strip : String → String
unfolding strip_left strip_right
strip s = strip_right (strip_left s)

-- `text.split(',')`.
unfoldable pub split_part : Char → List String → List String
split_part c [] = String.◌∷◌ c "" ∷ []
split_part c (p ∷ ps) = String.◌∷◌ c p ∷ ps

unfoldable pub split_commas : String → List String
unfolding split_part
split_commas String.[] = "" ∷ []
split_commas (String.◌∷◌ c s) =
    let rest = split_commas s in if is_comma c then "" ∷ rest else split_part c rest

-- The loop over the parts.
unfoldable pub parse_parts : List String → List String
unfolding strip
parse_parts [] = []
parse_parts (p ∷ ps) =
    let rest = parse_parts ps in if same (strip p) "" then rest else strip p ∷ rest

unfoldable pub parse_active_device_ids : String → List String
unfolding parse_parts split_commas strip
parse_active_device_ids raw_value =
    if same raw_value "unknown"
      || same raw_value "unavailable"
      || same raw_value "none"
      || same (strip raw_value) ""
    then []
    else parse_parts (split_commas (strip raw_value))

-- `','.join(ids)`.
unfoldable pub append_text : String → String → String
append_text String.[] t = t
append_text (String.◌∷◌ c s) t = String.◌∷◌ c (append_text s t)

unfoldable pub join_ids : List String → String
unfolding append_text
join_ids [] = ""
join_ids (x ∷ []) = x
join_ids (x ∷ y ∷ ids) = append_text x (append_text "," (join_ids (y ∷ ids)))

three_ids : parse_active_device_ids " battery, ev,,boiler" ≡ "battery" ∷ "ev" ∷ "boiler" ∷ []
unfolding parse_active_device_ids
three_ids = refl
