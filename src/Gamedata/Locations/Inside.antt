-- ===== src/Gamedata/Locations/Inside.antt =====
-- What an objective or a kill of a mission resolves to is one of the mission's locations.
use mathlib.Core.List.{Memᴰ}
use tf2_archipelago.Prelude.{
  ℕ, ◌≤◌, ◌≡◌, sym, subst, some, Bool, true, false, List, [], ◌∷◌, ◌++◌, map, arith, if◌then◌else◌,
  nat_eq, string_eq,
}
use tf2_archipelago.Prelude.Member.{not_Memᴰ-nil, Memᴰ-append_left, Memᴰ-append_right, Memᴰ-map}
use tf2_archipelago.Gamedata.Kinds.{
  ObjectiveKind, wave_cleared, mission_cleared, tank_destroyed, giant_killed,
}
use tf2_archipelago.Gamedata.Tables.{Mission, Tables, wave_kills_at}
use tf2_archipelago.Gamedata.Validate.{validate_mission}
use tf2_archipelago.Gamedata.Validate.Facts.{validate_mission-kills}
use tf2_archipelago.Gamedata.Locations.{
  Location, one_to, wave_location, tank_location, giant_location, clear_location,
  wave_giant_location, wave_tank_location, victory_cache_locations, kills_of_wave, kills_of_waves,
  wave_kill_locations, mission_locations, objective_of, kill_of,
}
use tf2_archipelago.Gamedata.Locations.Made.{mission_parts, Memᴰ-one_to, Memᴰ-collect}

optional_in :
    (l k : Location) (b : Bool) (rest : List Location)
    → b ≡ true
    → l ≡ k
    → Memᴰ l ((if b then k ∷ [] else []) ++ rest)
optional_in l k true rest h e = Memᴰ.head e
optional_in l k false rest h e = cc

kills_of_waves_in :
    (t : Tables) (m : Mission) (l : Location) (w : ℕ) (ws : List ℕ)
    → Memᴰ w ws
    → Memᴰ (some l) (kills_of_wave m (wave_kills_at t m w) w)
    → Memᴰ (some l) (kills_of_waves t m ws)
unfolding kills_of_waves
kills_of_waves_in t m l w [] i h = absurd (not_Memᴰ-nil w i)
kills_of_waves_in t m l w (v ∷ ws) (Memᴰ.head e) h =
    Memᴰ-append_left (some l) (kills_of_wave m (wave_kills_at t m v) v) _
      (subst (λ z. Memᴰ (some l) (kills_of_wave m (wave_kills_at t m z) z)) e h)
kills_of_waves_in t m l w (v ∷ ws) (Memᴰ.tail i) h =
    Memᴰ-append_right (some l) (kills_of_wave m (wave_kills_at t m v) v) _
      (kills_of_waves_in t m l w ws i h)

-- The parts of a mission's locations, each in the whole.
module _ (t : Tables) (m : Mission) (l : Location) (here : List Location)
    (made : mission_locations t m ≡ some here) where
  wave_in : (w : ℕ) → 1 ≤ w → w ≤ m.waves → wave_location m w ≡ some l → Memᴰ l here
  wave_in w lo hi e =
      let (waves, caches, kills, p, q, r, s) = mission_parts t m here made in
      let inside : Memᴰ (some l) (map (wave_location m) (one_to m.waves)) =
        subst (λ z. Memᴰ z (map (wave_location m) (one_to m.waves))) e
          (Memᴰ-map (wave_location m) w (one_to m.waves) (Memᴰ-one_to w m.waves lo hi)) in
      subst (λ z. Memᴰ l z) (sym s) (Memᴰ-append_left l waves _ (Memᴰ-collect l _ waves p inside))

  tank_in : m.has_tank ≡ true → l ≡ tank_location m → Memᴰ l here
  tank_in b e =
      let (waves, caches, kills, p, q, r, s) = mission_parts t m here made in
      subst (λ z. Memᴰ l z) (sym s)
        (Memᴰ-append_right l waves _ (optional_in l (tank_location m) m.has_tank _ b e))

  giant_in : m.has_giant ≡ true → l ≡ giant_location m → Memᴰ l here
  giant_in b e =
      let (waves, caches, kills, p, q, r, s) = mission_parts t m here made in
      subst (λ z. Memᴰ l z) (sym s)
        (Memᴰ-append_right l waves _ (
          Memᴰ-append_right l (if m.has_tank then tank_location m ∷ [] else []) _
            (optional_in l (giant_location m) m.has_giant _ b e)))

  after_giant :
      (caches kills : List Location)
      → Memᴰ l (clear_location m ∷ (caches ++ kills))
      → victory_cache_locations m ≡ some caches
      → wave_kill_locations t m ≡ some kills
      → Memᴰ l here
  after_giant caches kills h q r =
      let (waves, caches', kills', p, q', r', s) = mission_parts t m here made in
      let same_c : caches' ≡ caches = ground arith in
      let same_k : kills' ≡ kills = ground arith in
      subst (λ z. Memᴰ l z) (sym s)
        (Memᴰ-append_right l waves _ (
          Memᴰ-append_right l (if m.has_tank then tank_location m ∷ [] else []) _ (
            Memᴰ-append_right l (if m.has_giant then giant_location m ∷ [] else []) _
              (rw (same_c, same_k) h))))

  clear_in : l ≡ clear_location m → Memᴰ l here
  clear_in e =
      let (waves, caches, kills, p, q, r, s) = mission_parts t m here made in
      after_giant caches kills (Memᴰ.head e) q r

  kill_in :
      (w : ℕ)
      → 1 ≤ w
      → w ≤ m.waves
      → Memᴰ (some l) (kills_of_wave m (wave_kills_at t m w) w)
      → Memᴰ l here
  unfolding wave_kill_locations
  kill_in w lo hi h =
      let (waves, caches, kills, p, q, r, s) = mission_parts t m here made in
      after_giant caches kills
        (Memᴰ.tail (
          Memᴰ-append_right l caches kills (
            Memᴰ-collect l _ kills r
              (kills_of_waves_in t m l w (one_to m.waves) (Memᴰ-one_to w m.waves lo hi) h))))
        q r

  pub objective_in :
      (kind : ObjectiveKind) (w : ℕ) → objective_of m kind w ≡ some (some l) → Memᴰ l here
  unfolding objective_of
  objective_in mission_cleared w h = clear_in (ground arith)
  objective_in tank_destroyed w h = tank_in (ground arith) (ground arith)
  objective_in giant_killed w h = giant_in (ground arith) (ground arith)
  objective_in wave_cleared w h = wave_in w (ground arith) (ground arith) (ground arith)
  objective_in _ w h = cc

  giants_in_wave :
      (w n : ℕ)
      → 1 ≤ n
      → n ≤ (wave_kills_at t m w).giants
      → wave_giant_location m w n ≡ some l
      → Memᴰ (some l) (kills_of_wave m (wave_kills_at t m w) w)
  unfolding kills_of_wave
  giants_in_wave w n lo hi e =
      Memᴰ-append_left (some l)
        (map (wave_giant_location m w) (one_to (wave_kills_at t m w).giants)) _
        (subst (λ z. Memᴰ z (map (wave_giant_location m w) (one_to (wave_kills_at t m w).giants))) e
          (Memᴰ-map (wave_giant_location m w) n _ (Memᴰ-one_to n _ lo hi)))

  tanks_in_wave :
      (w n : ℕ)
      → 1 ≤ n
      → n ≤ (wave_kills_at t m w).tanks
      → wave_tank_location m w n ≡ some l
      → Memᴰ (some l) (kills_of_wave m (wave_kills_at t m w) w)
  unfolding kills_of_wave
  tanks_in_wave w n lo hi e =
      Memᴰ-append_right (some l)
        (map (wave_giant_location m w) (one_to (wave_kills_at t m w).giants)) _
        (subst (λ z. Memᴰ z (map (wave_tank_location m w) (one_to (wave_kills_at t m w).tanks))) e
          (Memᴰ-map (wave_tank_location m w) n _ (Memᴰ-one_to n _ lo hi)))

  pub kill_of_in :
      (kind : ObjectiveKind) (w n : ℕ)
      → validate_mission t m ≡ true
      → 1 ≤ n
      → kill_of m (wave_kills_at t m w) kind w n ≡ some (some l)
      → Memᴰ l here
  unfolding kill_of
  kill_of_in giant_killed w n v lo h =
      let fits : n ≤ (wave_kills_at t m w).giants = ground arith in
      let (a, b) = validate_mission-kills t m w v (omega arith) in
      kill_in w a b (giants_in_wave w n lo fits (ground arith))
  kill_of_in tank_destroyed w n v lo h =
      let fits : n ≤ (wave_kills_at t m w).tanks = ground arith in
      let (a, b) = validate_mission-kills t m w v (omega arith) in
      kill_in w a b (tanks_in_wave w n lo fits (ground arith))
  kill_of_in _ w n v lo h = cc
