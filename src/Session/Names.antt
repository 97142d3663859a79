-- ===== src/Session/Names.antt =====
-- The names behind the ids of the multiworld's messages (bridge/internal/apclient/names.go,
-- `printJSON.text` of protocol.go, and `onDataPackage`, `rememberNames` and `namesMissing` of
-- client.go). A player's slot is a number; what does not parse as one is `none`.
pub mod Order
use tf2_archipelago.Prelude.{
  ℕ, Option, none, some, Bool, true, false, not, ◌&&◌, List, [], ◌∷◌, ◌++◌, String, ◌<>◌, itoa,
  nat_eq, string_eq, ◌==◌, if◌then◌else◌, contains, keep,
}
use tf2_archipelago.Prelude.Dict.{Dict, lookup, insert}

abbrev pub Names : Type 0
Names = Dict ℕ String

-- `nameBook`: the items and the places have their names by game and id.
pub record NameBook : Type 0 where
  pub players : Dict ℕ String
  pub games : Dict ℕ String
  pub items : Dict String (Dict ℕ String)
  pub places : Dict String (Dict ℕ String)

-- `newNameBook`.
abbrev pub new_name_book : NameBook
new_name_book = record { players = []; games = []; items = []; places = [] }

-- A read of a map of texts at a missing key gives the blank text.
abbrev pub name_at : ℕ → Dict ℕ String → String
name_at k m = elim (lookup k m) [ some s ↦ s | none ↦ "" ]

-- `nameBook.player`.
unfoldable pub player_name : NameBook → ℕ → String
player_name book slot =
    let name = name_at slot book.players in
    if not (name == "") then name else "player " <> itoa slot

-- The loop over the games: `none` is a second name that differs, which ends it.
unfoldable pub agree : ℕ → String → Dict String (Dict ℕ String) → Option String
agree id found [] = some found
agree id found ((game, by_id) ∷ from) =
    let name = name_at id by_id in
    let kept = agree id found from in
    let taken = agree id name from in
    if name == "" then kept else if found == "" then taken else if found == name then kept else none

abbrev pub or_number : ℕ → Option String → String
or_number id none = itoa id
or_number id (some found) = if found == "" then itoa id else found

abbrev pub own_name : Dict String (Dict ℕ String) → String → ℕ → String
own_name from game id = elim (lookup game from) [ none ↦ "" | some by_id ↦ name_at id by_id ]

-- `nameBook.lookup`.
unfoldable pub lookup_name : NameBook → Dict String (Dict ℕ String) → ℕ → ℕ → String
lookup_name book from id slot =
    let name = own_name from (name_at slot book.games) id in
    if not (name == "") then name else or_number id (agree id "" from)

-- A part of a message: its type, its text with the number that it parses as, and its player.
pub record Part : Type 0 where
  pub kind : String
  pub text : String
  pub number : Option ℕ
  pub player : ℕ

part_named : NameBook → Part → Option ℕ → String
part_named book p none = p.text
part_named book p (some id) =
    if p.kind == "player_id"
    then player_name book id
    else if p.kind == "item_id"
    then lookup_name book book.items id p.player
    else if p.kind == "location_id"
    then lookup_name book book.places id p.player
    else p.text

part_text : Option NameBook → Part → String
unfolding part_named
part_text none p = p.text
part_text (some book) p = part_named book p p.number

-- `printJSON.text`.
unfoldable pub message_text : Option NameBook → List Part → String
unfolding part_text
message_text book [] = ""
message_text book (p ∷ ps) = part_text book p <> message_text book ps

-- The names of one game in a data package, keyed by name, turned over.
abbrev pub turned : List (String × ℕ) → Dict ℕ String
turned [] = []
turned ((name, id) ∷ names) = insert id name (turned names)

-- A game of a data package.
pub record GameNames : Type 0 where
  pub game : String
  pub item_names : List (String × ℕ)
  pub place_names : List (String × ℕ)

abbrev pub or_new_book : Option NameBook → NameBook
or_new_book none = new_name_book
or_new_book (some book) = book

-- The loop of `onDataPackage`; the second part is the games whose names have arrived.
unfoldable pub take_names : List GameNames → NameBook → List String → NameBook × List String
take_names [] book fetched = (book, fetched)
take_names (x ∷ xs) book fetched =
    take_names xs
      (record book {
        items = insert x.game (turned x.item_names) book.items;
        places = insert x.game (turned x.place_names) book.places;
      })
      (if contains fetched x.game then fetched else x.game ∷ fetched)

-- A player of the room, and a slot of it with the number that its key parses as.
pub record Player : Type 0 where
  pub slot : ℕ
  pub name : String
  pub alias : String

pub record SlotInfo : Type 0 where
  pub number : Option ℕ
  pub game : String

abbrev pub name_players : List Player → Dict ℕ String → Dict ℕ String
name_players [] d = d
name_players (p ∷ ps) d =
    name_players ps (insert p.slot (if p.alias == "" then p.name else p.alias) d)

-- The loop over the slots: the games by slot, and each game once.
unfoldable pub name_games :
    List SlotInfo → Dict ℕ String → List String → Dict ℕ String × List String
name_games [] d games = (d, games)
name_games (s ∷ ss) d games = elim s.number [
  | none ↦ name_games ss d games
  | some number ↦
      name_games ss (insert number s.game d) (
        if not (s.game == "") && not (contains games s.game) then games ++ (s.game ∷ []) else games)
]

-- A reconnect keeps the names that were fetched.
keep_names : Option NameBook → NameBook → NameBook
keep_names none book = book
keep_names (some old) book = record book { items = old.items; places = old.places }

-- `rememberNames`, where `sort` is `sort.Strings`.
unfoldable pub remember_names :
    (List String → List String)
    → List Player
    → List SlotInfo
    → Option NameBook
    → NameBook × List String
unfolding keep_names
remember_names sort players slots old =
    let (games, seen) = name_games slots [] [] in
    let book : NameBook = record new_name_book {
      players = name_players players [];
      games = games;
    } in
    (keep_names old book, sort seen)

-- `namesMissing`.
unfoldable pub names_missing : List String → List String → List String
names_missing fetched games = keep (λ game. not (contains fetched game)) games
