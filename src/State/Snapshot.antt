-- ===== src/State/Snapshot.antt =====
-- What sits on disk (bridge/internal/state/persist.go), and the names of the files it sits in.
use Prim.Native.Char.{code}
use Prim.Native.String.{String}
use tf2_archipelago.Prelude.{
  ℕ, zero, suc, Option, none, some, Bool, false, ◌&&◌, ◌||◌, List, [], ◌∷◌, ◌<>◌, itoa, nat_eq,
  string_eq, ◌==◌, leb, if◌then◌else◌,
}
use tf2_archipelago.Prelude.Dict.{Dict}

pub record Resume : Type 0 where
  pub pop_file : String
  pub wave : ℕ

abbrev pub no_resume : Resume
no_resume = record { pop_file = ""; wave = 0 }

-- `played` keeps whether the Go slice is nil, since the reader of an old file asks.
pub record Snapshot : Type 0 where
  pub format_version : ℕ
  pub seed : String
  pub checks : List ℕ
  pub played : Option (List ℕ)
  pub items : List ℕ
  pub acked_seq : ℕ
  pub goal_sent : Bool
  pub resume : Resume
  pub reached : Dict String ℕ
  pub tallies : Dict String ℕ

-- The elements of a slice that may be nil.
abbrev pub elems : Option (List ℕ) → List ℕ
elems none = []
elems (some xs) = xs

abbrev pub format_version_now : ℕ
format_version_now = 4

abbrev pub format_version_min : ℕ
format_version_min = 1

abbrev pub archives_max : ℕ
archives_max = 10

-- An empty run of a seed.
abbrev pub empty_snapshot : String → Snapshot
empty_snapshot seed = record {
  format_version = format_version_now;
  seed = seed;
  checks = [];
  played = none;
  items = [];
  acked_seq = 0;
  goal_sent = false;
  resume = no_resume;
  reached = [];
  tallies = [];
}

-- The state file's path, split where `filepath.Ext` and `strings.TrimSuffix` split it.
pub record StatePath : Type 0 where
  pub stem : String
  pub ext : String

abbrev pub whole : StatePath → String
whole p = p.stem <> p.ext

safe_rune : ℕ → Bool
safe_rune r =
    (leb b'0' r && leb r b'9')
    || (leb b'a' r && leb r b'z')
    || (leb b'A' r && leb r b'Z')
    || r == b'-'
    || r == b'_'

safe_runes : String → String
safe_runes String.[] = String.[]
safe_runes (String.◌∷◌ c s) =
    if safe_rune (code c) then String.◌∷◌ c (safe_runes s) else "_" <> safe_runes s

-- The first runes of a text, each of one byte.
cut : ℕ → String → String
cut zero s = String.[]
cut (suc n) String.[] = String.[]
cut (suc n) (String.◌∷◌ c s) = String.◌∷◌ c (cut n s)

-- `safeSeedName`: only ASCII is left, so bytes are runes and the cut at 64 is by either.
unfoldable pub safe_seed_name : String → String
unfolding safe_runes safe_rune cut
safe_seed_name seed = if seed == "" then "unnamed" else cut 64 (safe_runes seed)

-- The name of attempt `n`, counted from 1, to archive a seed.
unfoldable pub numbered_name : StatePath → String → ℕ → String
numbered_name p seed n = p.stem <> "." <> safe_seed_name seed <> "." <> itoa n <> p.ext

unfoldable pub numbered_names : StatePath → String → ℕ → ℕ → List String
numbered_names p seed zero n = []
numbered_names p seed (suc k) n = numbered_name p seed n ∷ numbered_names p seed k (suc n)

-- `archiveNames`.
unfoldable pub archive_names : StatePath → String → List String
unfolding numbered_names numbered_name
archive_names p seed = (p.stem <> "." <> safe_seed_name seed <> p.ext) ∷ numbered_names p seed 9 1

-- The copy that `archiveFormat` keeps of a file of an older version.
unfoldable pub format_name : StatePath → ℕ → String
format_name p version = p.stem <> ".v" <> itoa version <> p.ext
