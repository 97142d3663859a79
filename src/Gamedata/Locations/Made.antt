-- ===== src/Gamedata/Locations/Made.antt =====
-- What the table of locations is made of: every location of a mission is one of its checks.
use mathlib.Core.List.{Memᴰ}
use tf2_archipelago.Prelude.{
  ℕ, zero, suc, ◌≤◌, ◌≡◌, refl, sym, ap, subst, inl, inr, Option, none, some, Bool, true, false,
  List, [], ◌∷◌, ◌++◌, map, arith, Option-cases, if◌then◌else◌, ◌∙◌,
}
use native.Mathlib.Decide.{dec_le}
use tf2_archipelago.Prelude.Member.{
  not_Memᴰ-nil, Memᴰ-append_left, Memᴰ-append_right, Memᴰ-append, Memᴰ-map_back,
}
use tf2_archipelago.Gamedata.Tables.{Mission, Tables, WaveKills, wave_kills_at}
use tf2_archipelago.Gamedata.Ids.Checks.{
  Check, wave, tank, giant, clear, cache, wave_giant, wave_tank, check_id,
}
use tf2_archipelago.Gamedata.Locations.{
  Location, collect, one_to, wave_location, tank_location, giant_location, clear_location,
  cache_location, wave_giant_location, wave_tank_location, victory_cache_locations, kills_of_wave,
  kills_of_waves, wave_kill_locations, mission_locations, locations_of,
}

-- The location that stands for a check.
unfoldable pub check_location : Mission → Check → Option Location
check_location m (wave w) = wave_location m w
check_location m tank = some (tank_location m)
check_location m giant = some (giant_location m)
check_location m clear = some (clear_location m)
check_location m (cache n) = cache_location m n
check_location m (wave_giant w n) = wave_giant_location m w n
check_location m (wave_tank w n) = wave_tank_location m w n

pub check_location-id :
    (m : Mission) (c : Check) (l : Location)
    → check_location m c ≡ some l
    → check_id m c ≡ some l.id
unfolding check_location check_id wave_location tank_location giant_location clear_location
    cache_location wave_giant_location wave_tank_location
check_location-id m (wave w) l h = ground arith
check_location-id m _ l h = ground arith

module _ {A : Type 0} where
  -- A list of attempts that has a value has one for each attempt.
  collect_cons :
      (o : Option A) (os : List (Option A)) (ys : List A)
      → collect (o ∷ os) ≡ some ys
      → (a : A) × (rest : List A) × (o ≡ some a) × (collect os ≡ some rest) × (ys ≡ a ∷ rest)
  collect_cons none os ys e = cc
  collect_cons (some a) os ys e = elim (Option-cases (collect os)) [
    | inl n ↦ ground arith
    | inr (rest, r) ↦ (a, rest, refl, r, ground arith)
  ]

  pub collect-Memᴰ :
      (a : A) (os : List (Option A)) (ys : List A)
      → collect os ≡ some ys
      → Memᴰ a ys
      → Memᴰ (some a) os
  collect-Memᴰ a [] ys e h =
      let empty : ys ≡ [] = ground arith in absurd (not_Memᴰ-nil a (subst (λ z. Memᴰ a z) empty h))
  collect-Memᴰ a (o ∷ os) ys e h =
      let (b, rest, p, q, r) = collect_cons o os ys e in
      pick b rest p r (collect-Memᴰ a os rest q) (subst (λ z. Memᴰ a z) r h)
    where
      pick :
          (b : A) (rest : List A)
          → o ≡ some b
          → ys ≡ b ∷ rest
          → (Memᴰ a rest → Memᴰ (some a) os)
          → Memᴰ a (b ∷ rest)
          → Memᴰ (some a) (o ∷ os)
      pick b rest p r ih (Memᴰ.head f) = Memᴰ.head (ap some f ∙ sym p)
      pick b rest p r ih (Memᴰ.tail t) = Memᴰ.tail (ih t)

  pub Memᴰ-collect :
      (a : A) (os : List (Option A)) (ys : List A)
      → collect os ≡ some ys
      → Memᴰ (some a) os
      → Memᴰ a ys
  Memᴰ-collect a [] ys e h = elim h [ ]
  Memᴰ-collect a (o ∷ os) ys e (Memᴰ.head f) =
      let (b, rest, p, q, r) = collect_cons o os ys e in
      subst (λ z. Memᴰ a z) (sym r) (Memᴰ.head (ground arith))
  Memᴰ-collect a (o ∷ os) ys e (Memᴰ.tail t) =
      let (b, rest, p, q, r) = collect_cons o os ys e in
      subst (λ z. Memᴰ a z) (sym r) (Memᴰ.tail (Memᴰ-collect a os rest q t))

pub Memᴰ-one_to : (w n : ℕ) → 1 ≤ w → w ≤ n → Memᴰ w (one_to n)
Memᴰ-one_to w zero lo hi = absurd (omega arith)
Memᴰ-one_to w (suc n) lo hi = elim (dec_le w n) [
  | yes p ↦ Memᴰ-append_left w (one_to n) _ (Memᴰ-one_to w n lo p)
  | no p ↦ Memᴰ-append_right w (one_to n) _ (Memᴰ.head (omega arith))
]

-- What the locations of one mission are made of.
pub mission_parts :
    (t : Tables) (m : Mission) (ls : List Location)
    → mission_locations t m ≡ some ls
    → (waves caches kills : List Location) × (collect (map (wave_location m) (one_to m.waves))
        ≡ some waves)
      × (victory_cache_locations m ≡ some caches)
      × (wave_kill_locations t m ≡ some kills)
      × (ls
          ≡ waves
            ++ ((if m.has_tank then tank_location m ∷ [] else [])
                ++ ((if m.has_giant then giant_location m ∷ [] else [])
                    ++ (clear_location m ∷ (caches ++ kills)))))
unfolding mission_locations
mission_parts t m ls h = elim (Option-cases (collect (map (wave_location m) (one_to m.waves)))) [
  | inl n ↦ ground arith
  | inr (waves, p) ↦ elim (Option-cases (victory_cache_locations m)) [
    | inl n ↦ ground arith
    | inr (caches, q) ↦ elim (Option-cases (wave_kill_locations t m)) [
      | inl n ↦ ground arith
      | inr (kills, r) ↦ (waves, caches, kills, p, q, r, ground arith)
    ]
  ]
]

abbrev pub IsCheckOf : Mission → Location → Type 0
IsCheckOf m l = (c : Check) × (check_location m c ≡ some l)

kills_of_wave-IsCheckOf :
    (m : Mission) (k : WaveKills) (w : ℕ) (l : Location)
    → Memᴰ (some l) (kills_of_wave m k w)
    → IsCheckOf m l
unfolding kills_of_wave check_location
kills_of_wave-IsCheckOf m k w l h =
    elim (Memᴰ-append (some l) (map (wave_giant_location m w) (one_to k.giants)) _ h) [
      | inl g ↦
          let (n, _, e) = Memᴰ-map_back (wave_giant_location m w) (some l) _ g in
          (wave_giant w n, sym e)
      | inr g ↦
          let (n, _, e) = Memᴰ-map_back (wave_tank_location m w) (some l) _ g in
          (wave_tank w n, sym e)
    ]

kills_of_waves-IsCheckOf :
    (t : Tables) (m : Mission) (ws : List ℕ) (l : Location)
    → Memᴰ (some l) (kills_of_waves t m ws)
    → IsCheckOf m l
unfolding kills_of_waves
kills_of_waves-IsCheckOf t m [] l h = absurd (not_Memᴰ-nil (some l) h)
kills_of_waves-IsCheckOf t m (w ∷ ws) l h =
    elim (Memᴰ-append (some l) (kills_of_wave m (wave_kills_at t m w) w) _ h) [
      | inl g ↦ kills_of_wave-IsCheckOf m (wave_kills_at t m w) w l g
      | inr g ↦ kills_of_waves-IsCheckOf t m ws l g
    ]

optional-IsCheckOf :
    (m : Mission) (b : Bool) (c : Check) (k l : Location)
    → check_location m c ≡ some k
    → Memᴰ l (if b then k ∷ [] else [])
    → IsCheckOf m l
optional-IsCheckOf m false c k l e h = absurd (not_Memᴰ-nil l h)
optional-IsCheckOf m true c k l e (Memᴰ.head p) = (c, rw (e, p))
optional-IsCheckOf m true c k l e (Memᴰ.tail h) = absurd (not_Memᴰ-nil l h)

module _ (t : Tables) (m : Mission) (l : Location) where
  wave_part :
      (waves : List Location)
      → collect (map (wave_location m) (one_to m.waves)) ≡ some waves
      → Memᴰ l waves
      → IsCheckOf m l
  unfolding check_location
  wave_part waves e h =
      let (w, _, p) =
        Memᴰ-map_back (wave_location m) (some l) (one_to m.waves) (collect-Memᴰ l _ waves e h) in
      (wave w, sym p)

  cache_part :
      (caches : List Location)
      → victory_cache_locations m ≡ some caches
      → Memᴰ l caches
      → IsCheckOf m l
  unfolding check_location victory_cache_locations
  cache_part caches e h =
      let (n, _, p) = Memᴰ-map_back (cache_location m) (some l) _ (collect-Memᴰ l _ caches e h) in
      (cache n, sym p)

  kill_part :
      (kills : List Location) → wave_kill_locations t m ≡ some kills → Memᴰ l kills → IsCheckOf m l
  unfolding wave_kill_locations
  kill_part kills e h = kills_of_waves-IsCheckOf t m (one_to m.waves) l (collect-Memᴰ l _ kills e h)

  -- Every location of a mission is one of its checks.
  mission_locations-IsCheckOf :
      (ls : List Location) → mission_locations t m ≡ some ls → Memᴰ l ls → IsCheckOf m l
  unfolding check_location
  mission_locations-IsCheckOf ls e h =
      let (waves, caches, kills, p, q, r, made) = mission_parts t m ls e in
      elim (Memᴰ-append l waves _ (subst (λ z. Memᴰ l z) made h)) [
        | inl g ↦ wave_part waves p g
        | inr g ↦ elim (Memᴰ-append l (if m.has_tank then tank_location m ∷ [] else []) _ g) [
          | inl g ↦ optional-IsCheckOf m m.has_tank tank (tank_location m) l refl g
          | inr g ↦ elim (Memᴰ-append l (if m.has_giant then giant_location m ∷ [] else []) _ g) [
            | inl g ↦ optional-IsCheckOf m m.has_giant giant (giant_location m) l refl g
            | inr g ↦
                tail_part (caches ++ kills)
                  (λ c. elim (Memᴰ-append l caches kills c) [
                    | inl g ↦ cache_part caches q g
                    | inr g ↦ kill_part kills r g
                  ])
                  g
          ]
        ]
      ]
    where
      tail_part :
          (rest : List Location)
          → (Memᴰ l rest → IsCheckOf m l)
          → Memᴰ l (clear_location m ∷ rest)
          → IsCheckOf m l
      tail_part rest k (Memᴰ.head p) = (clear, rw p)
      tail_part rest k (Memᴰ.tail g) = k g

locations_of_cons :
    (t : Tables) (m : Mission) (ms : List Mission) (ls : List Location)
    → locations_of t (m ∷ ms) ≡ some ls
    → (here rest : List Location) × (mission_locations t m ≡ some here)
      × (locations_of t ms ≡ some rest)
      × (ls ≡ here ++ rest)
unfolding locations_of
locations_of_cons t m ms ls h = elim (Option-cases (mission_locations t m)) [
  | inl n ↦ ground arith
  | inr (here, p) ↦ elim (Option-cases (locations_of t ms)) [
    | inl n ↦ ground arith
    | inr (rest, q) ↦ (here, rest, p, q, ground arith)
  ]
]

-- Every location of the missions is a check of one of them.
pub locations_of-IsCheckOf :
    (t : Tables) (ms : List Mission) (ls : List Location) (l : Location)
    → locations_of t ms ≡ some ls
    → Memᴰ l ls
    → (m : Mission) × Memᴰ m ms × IsCheckOf m l
unfolding locations_of
locations_of-IsCheckOf t [] ls l e h =
    let empty : ls ≡ [] = ground arith in absurd (not_Memᴰ-nil l (subst (λ z. Memᴰ l z) empty h))
locations_of-IsCheckOf t (m ∷ ms) ls l e h =
    let (here, rest, p, q, r) = locations_of_cons t m ms ls e in
    elim (Memᴰ-append l here rest (subst (λ z. Memᴰ l z) r h)) [
      | inl g ↦ (m, Memᴰ.head refl, mission_locations-IsCheckOf t m l here p g)
      | inr g ↦ let (n, i, c) = locations_of-IsCheckOf t ms rest l q g in (n, Memᴰ.tail i, c)
    ]

-- The locations of a mission are all in the table.
pub mission-Memᴰ :
    (t : Tables) (m : Mission) (ms : List Mission) (ls : List Location)
    → locations_of t ms ≡ some ls
    → Memᴰ m ms
    → (here : List Location) × (mission_locations t m ≡ some here)
      × ((l : Location) → Memᴰ l here → Memᴰ l ls)
mission-Memᴰ t m [] ls e h = absurd (not_Memᴰ-nil m h)
mission-Memᴰ t m (n ∷ ms) ls e (Memᴰ.head p) =
    let (here, rest, a, b, r) = locations_of_cons t n ms ls e in
    (here, rw p a, λ l i. subst (λ z. Memᴰ l z) (sym r) (Memᴰ-append_left l here rest i))
mission-Memᴰ t m (n ∷ ms) ls e (Memᴰ.tail h) =
    let (here, rest, a, b, r) = locations_of_cons t n ms ls e in
    let (own, c, k) = mission-Memᴰ t m ms rest b h in
    (own, c, λ l i. subst (λ z. Memᴰ l z) (sym r) (Memᴰ-append_right l here rest (k l i)))
