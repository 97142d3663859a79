-- ===== src/Gamedata/Validate.antt =====
-- The checks on the tables that run before an export (`validateMissions`, `unique` and
-- `safeConsoleName` of gamedata/validate.go). An error's text is left out: the answer is whether
-- there is one. A difficulty of the model is always a known one.
pub mod Facts
use Prim.Native.Char.{code}
use Prim.Native.String.{String}
use tf2_archipelago.Prelude.{
  ℕ, zero, suc, ◌≡◌, Option, none, some, Bool, true, false, not, ◌&&◌, ◌||◌, List, [], ◌∷◌, map, Eq,
  nat_eq, string_eq, ◌==◌, leb, ltb, if◌then◌else◌, contains, length, last_where,
}
use tf2_archipelago.Prelude.Dict.{lookup}
use tf2_archipelago.Gamedata.Tables.{Mission, Tables, WaveKills, GameMap, wave_kills_at, map_by_id}
use tf2_archipelago.Gamedata.Ids.{
  mission_id_max, waves_max, wave_giants_max, wave_tanks_max, wave_kill_waves_max,
}

-- The loop of `unique`, with the keys seen so far.
unique_from {ℓ} : {K : Type ℓ} ⦃e : Eq K⦄ → List K → List K → Bool
unique_from seen [] = true
unique_from seen (k ∷ ks) = not (contains seen k) && unique_from (k ∷ seen) ks

pub unique {ℓ} : {K : Type ℓ} ⦃e : Eq K⦄ → List K → Bool
unfolding unique_from
unique ks = unique_from [] ks

-- A rune of the file names that TF2 uses.
safe_rune : ℕ → Bool
safe_rune r = (leb b'a' r && leb r b'z') || (leb b'0' r && leb r b'9') || r == b'_' || r == b'-'

safe_runes : String → Bool
safe_runes String.[] = true
safe_runes (String.◌∷◌ c s) = safe_rune (code c) && safe_runes s

unfoldable pub safe_console_name : String → Bool
unfolding safe_runes safe_rune
safe_console_name name = not (name == "") && safe_runes name

abbrev is_some {ℓ} : {A : Type ℓ} → Option A → Bool
is_some none = false
is_some (some a) = true

-- A count of kills that is there covers each wave of the mission.
kills_cover : Tables → Mission → Bool
kills_cover t m = elim (lookup m.pop_file t.wave_kills) [
  | some kills ↦ length kills == 0 || length kills == m.waves
  | none ↦ true
]

-- The loop over the waves 1 to `wave`: the kills of each fit the id scheme.
kills_fit : Tables → Mission → ℕ → Bool
kills_fit t m zero = true
kills_fit t m (suc wave) =
    kills_fit t m wave
    && leb (wave_kills_at t m (suc wave)).giants wave_giants_max
    && leb (wave_kills_at t m (suc wave)).tanks wave_tanks_max
    && leb (suc wave) wave_kill_waves_max

-- The body of the loop of `validateMissions`.
unfoldable pub validate_mission : Tables → Mission → Bool
unfolding kills_cover kills_fit
validate_mission t m =
    (leb 1 m.id && leb m.id mission_id_max)
    && (kills_cover t m
        && (kills_fit t m m.waves
            && ((leb 1 m.waves && leb m.waves waves_max)
                && (safe_console_name m.pop_file && is_some (map_by_id t m.map_id)))))

all_missions : Tables → List Mission → Bool
all_missions t [] = true
all_missions t (m ∷ ms) = validate_mission t m && all_missions t ms

-- `validateMissions`.
unfoldable pub validate_missions : Tables → Bool
unfolding unique all_missions
validate_missions t =
    unique (map (λ m. m.id) t.missions)
    && (unique (map (λ m. m.pop_file) t.missions)
        && (unique (map (λ m. m.name) t.missions) && all_missions t t.missions))
