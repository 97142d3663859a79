-- ===== src/Fakeroom/Reply.antt =====
-- What the test room says back to a line of chat (`answer`, `replyLines` and `locationLines` of
-- fakeroom/fakeroom.go). The functions of the package strings that read Unicode are arguments.
use Prim.Native.Char.{code}
use tf2_archipelago.Prelude.{
  ℕ, zero, suc, ◌-◌, Option, none, some, Bool, true, false, not, ◌&&◌, List, [], ◌∷◌, ◌++◌, map,
  String, ◌<>◌, itoa, nat_eq, string_eq, ◌==◌, ltb, if◌then◌else◌, length, contains, keep, take,
}
use tf2_archipelago.Gamedata.Tables.{Mission, mission_by_pop_file}
use tf2_archipelago.Gamedata.Locations.{Location}
use tf2_archipelago.Gamedata.Game.{Game}
use tf2_archipelago.Fakeroom.Room.{Room, Sent, said, unlock_next_mission}

-- `strings.TrimSpace`, `strings.ToLower` and `strings.EqualFold`.
pub record Words : Type 0 where
  pub trim_space : String → String
  pub to_lower : String → String
  pub equal_fold : String → String → Bool

-- `strings.HasPrefix(text, "!")`.
unfoldable pub is_command : String → Bool
is_command String.[] = false
is_command (String.◌∷◌ c s) = code c == 33

-- `strings.TrimPrefix(text, "!")`.
unfoldable pub trim_bang : String → String
trim_bang String.[] = String.[]
trim_bang (String.◌∷◌ c s) = if code c == 33 then s else String.◌∷◌ c s

-- What stands before the first space, or the whole text: the first result of `strings.Cut`.
unfoldable pub before_space : String → String
before_space String.[] = String.[]
before_space (String.◌∷◌ c s) =
    let rest = before_space s in if code c == 32 then String.[] else String.◌∷◌ c rest

-- `replyMax`.
abbrev pub reply_max : ℕ
reply_max = 8

-- Whether a location is listed: the tests of the inner loop.
unfoldable pub is_listed : List ℕ → Bool → Mission → Location → Bool
is_listed checked want m l =
    not (ltb 0 l.index) && (l.mission == m.id && (if contains checked l.id then want else not want))

listed_of : Game → List ℕ → Bool → Option Mission → List Location
listed_of g checked want none = []
listed_of g checked want (some m) = keep (is_listed checked want m) g.locations

-- Every location that is listed; the source holds their number and the names of the first eight.
unfoldable pub listed : Game → List ℕ → Bool → List String → List Location
unfolding listed_of
listed g checked want [] = []
listed g checked want (p ∷ ps) =
    listed_of g checked want (mission_by_pop_file g.tables p) ++ listed g checked want ps

abbrev word_for : Bool → String
word_for want = if want then "checked" else "still to check"

abbrev rest_line : ℕ → ℕ → List String
rest_line total shown =
    if ltb shown total then ("  and " <> itoa (total - shown) <> " more.") ∷ [] else []

named_lines : String → ℕ → List String → List String
named_lines word zero names = ("Nothing " <> word <> ".") ∷ []
named_lines word (suc n) names =
    (itoa (suc n) <> " " <> word <> ", starting with:")
    ∷ (map (λ name. "  " <> name) names ++ rest_line (suc n) (length names))

-- `locationLines`.
unfoldable pub location_lines : Game → List ℕ → List String → Bool → List String
unfolding named_lines
location_lines g checked missions want =
    let all = listed g checked want missions in
    named_lines (word_for want) (length all) (take reply_max (map (λ l. l.name) all))

answer_to : Words → Game → List ℕ → List String → String → String → List String
answer_to w g checked missions command lower =
    if lower == "missing"
    then location_lines g checked missions false
    else if lower == "checked"
    then location_lines g checked missions true
    else if lower == "players"
    then "This is a room of one: the test room plays every other slot." ∷ []
    else if lower == "hint"
    then "Every item in a test run is in this world, and they arrive in order as checks land." ∷ []
    else ("The test room does not answer !" <> command <> ". A real Archipelago room does.") ∷ []

-- `replyLines`.
unfoldable pub reply_lines : Words → Game → String → List ℕ → List String → List String
unfolding answer_to
reply_lines w g text checked missions =
    let line = w.trim_space text in
    let command = before_space (trim_bang line) in
    if is_command line then answer_to w g checked missions command (w.to_lower command) else []

-- `answer`.
unfoldable pub answer : Words → Game → List String → String → Room → Room × List Sent
answer w g missions text r =
    if w.equal_fold (before_space (trim_bang (w.trim_space text))) "unlock"
    then unlock_next_mission g.items r
    else (r, map said (reply_lines w g text r.checked missions))
