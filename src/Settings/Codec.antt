-- ===== src/Settings/Codec.antt =====
-- How a value is spelled in an .env file, and read back (the codecs of
-- launcher/internal/settings/envcodec.go, `SplitList` and `SplitSeats` of env.go, `ParseReach`,
-- `ModLoading` and `ClassSlots`). What the source takes from strings and strconv is an argument.
use Prim.Native.Char.{code}
use tf2_archipelago.Prelude.{
  ℕ, ◌+◌, Option, none, some, Bool, true, false, not, ◌||◌, List, [], ◌∷◌, map, String, ◌<>◌,
  nat_eq, string_eq, ◌==◌, if◌then◌else◌, keep, take,
}
use tf2_archipelago.Prelude.Int.{ℤ}
use tf2_archipelago.Prelude.Dict.{Dict, insert, lookup}

-- `strings.TrimSpace`, `strings.ToLower`, `strconv.Atoi` and `strconv.Itoa`.
pub record Spelling : Type 0 where
  pub trim_space : String → String
  pub to_lower : String → String
  pub atoi : String → Option ℤ
  pub itoa : ℤ → String

-- A piece with one more character in front.
abbrev pub in_front : String → List String → List String
in_front c [] = c ∷ []
in_front c (x ∷ xs) = (c <> x) ∷ xs

-- `strings.SplitSeq(value, ",")`.
unfoldable pub split_comma : String → List String
split_comma String.[] = "" ∷ []
split_comma (String.◌∷◌ c s) =
    let rest = split_comma s in
    if code c == 44 then "" ∷ rest else in_front (String.◌∷◌ c String.[]) rest

-- `strings.Join(value, ",")`.
unfoldable pub join_comma : List String → String
join_comma [] = ""
join_comma (x ∷ []) = x
join_comma (x ∷ y ∷ ys) = x <> ("," <> join_comma (y ∷ ys))

abbrev pub is_named : String → Bool
is_named s = not (s == "")

-- `SplitList`.
unfoldable pub split_list : Spelling → String → List String
split_list sp value = keep is_named (map sp.trim_space (split_comma value))

-- One past the last entry that is not blank, of those from `at` on; `end` where there is none.
unfoldable pub named_end : ℕ → ℕ → List String → ℕ
named_end at end [] = end
named_end at end (x ∷ xs) = named_end (at + 1) (if is_named x then at + 1 else end) xs

-- `SplitSeats`.
unfoldable pub split_seats : Spelling → String → List String
split_seats sp value =
    let out = map sp.trim_space (split_comma value) in take (named_end 0 0 out) out

-- `named`.
unfoldable pub parse_named : Spelling → String → Option String
parse_named sp value = if is_named (sp.trim_space value) then some (sp.trim_space value) else none

-- `number`.
unfoldable pub parse_number : Spelling → String → Option ℤ
parse_number sp value = sp.atoi (sp.trim_space value)

abbrev pub boolean_word : String → Option Bool
boolean_word w =
    if w == "1" || w == "true" || w == "yes" || w == "on"
    then some true
    else if w == "0" || w == "false" || w == "no" || w == "off"
    then some false
    else none

-- `boolean`.
unfoldable pub parse_boolean : Spelling → String → Option Bool
parse_boolean sp value = boolean_word (sp.to_lower (sp.trim_space value))

abbrev pub format_boolean : Bool → String
format_boolean b = if b then "1" else "0"

-- `Reach`, a text of which three are valid.
abbrev pub is_reach : String → Bool
is_reach r = r == "lan" || (r == "steam" || r == "port")

-- `reach`, with `ParseReach`.
unfoldable pub parse_reach : Spelling → String → Option String
parse_reach sp value =
    let r = sp.to_lower (sp.trim_space value) in if is_reach r then some r else none

-- `ModLoading.Valid`.
abbrev pub is_mod_loading : String → Bool
is_mod_loading m = m == "required" || m == "always"

-- `ModLoading.OrDefault`.
abbrev pub or_default : String → String
or_default m = if is_mod_loading m then m else "required"

-- `modLoading`.
unfoldable pub parse_mod_loading : Spelling → String → Option String
parse_mod_loading sp value =
    let m = sp.to_lower (sp.trim_space value) in if is_mod_loading m then some m else none

-- `ClassSlots.OrOff`.
abbrev pub or_off : String → String
or_off c =
    if c == "progressive" || c == "true"
    then "progressive"
    else if c == "any_order"
    then "any_order"
    else "off"

-- What the word of `classSlots` gives, and what the boolean reads of it.
abbrev pub class_slots_of : String → Option Bool → Option String
class_slots_of w (some on) =
    if w == "" then some "off" else some (if on then "progressive" else "off")
class_slots_of w none = if w == "" then some "off" else some (or_off w)

-- `classSlots`.
unfoldable pub parse_class_slots : Spelling → String → Option String
parse_class_slots sp value =
    let w = sp.to_lower (sp.trim_space value) in class_slots_of w (parse_boolean sp w)

-- What stands before and after the first `=`, if there is one: `strings.Cut(entry, "=")`.
unfoldable pub cut_equals : String → Option (String × String)
cut_equals String.[] = none
cut_equals (String.◌∷◌ c s) =
    let rest = cut_equals s in
    if code c == 61
    then some ("", s)
    else elim rest [ none ↦ none | some p ↦ some (String.◌∷◌ c p.0, p.1) ]

abbrev put_pair : Spelling → Option (String × String) → Dict String String → Dict String String
put_pair sp none d = d
put_pair sp (some (key, item)) d =
    if is_named key then insert (sp.trim_space key) (sp.trim_space item) d else d

unfoldable pub put_pairs : Spelling → List String → Dict String String → Dict String String
put_pairs sp [] d = d
put_pairs sp (x ∷ xs) d = put_pairs sp xs (put_pair sp (cut_equals x) d)

-- `pairs`; the keys come to `format_pairs` sorted.
unfoldable pub parse_pairs : Spelling → String → Dict String String
parse_pairs sp value = put_pairs sp (split_list sp value) []

unfoldable pub format_pairs : List String → Dict String String → String
format_pairs keys d =
    join_comma (map (λ key. key <> ("=" <> elim (lookup key d) [ some v ↦ v | none ↦ "" ])) keys)
