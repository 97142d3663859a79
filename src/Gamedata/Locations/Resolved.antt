-- ===== src/Gamedata/Locations/Resolved.antt =====
-- What the plugin reports is resolved to a location of the table, and found again by its id.
use mathlib.Core.List.{Memᴰ}
use mathlib.Core.Path.{ap₂}
use tf2_archipelago.Prelude.{
  ℕ, ◌+◌, ◌≤◌, ◌≡◌, refl, sym, ap, subst, ◌⊎◌, inl, inr, some, true, List, [], ◌∷◌, ◌++◌, arith,
  Option-cases, ◌∙◌, ◌≢◌, String, nat_eq, nat_beq_iff, ◌==◌, string_eq,
}
use tf2_archipelago.Prelude.Member.{
  not_Memᴰ-nil, Memᴰ-append_left, Memᴰ-append, last_where-Memᴰ, last_where_found,
}
use tf2_archipelago.Gamedata.Kinds.{MilestoneKind, robots, giants, tanks, ObjectiveKind}
use tf2_archipelago.Gamedata.Tables.{Mission, Tables, mission_by_pop_file}
use tf2_archipelago.Gamedata.Ids.{milestone_id}
use tf2_archipelago.Gamedata.Ids.Checks.{check_id-injective, check_id_reserved, InRange}
use tf2_archipelago.Gamedata.Validate.{validate_missions}
use tf2_archipelago.Gamedata.Validate.Facts.{
  validate_missions-each, validate_missions-id_injective, validate_mission-InRange,
}
use tf2_archipelago.Gamedata.Locations.{
  Location, locations_of, build_milestones, build_locations, location_by_id, location_by_objective,
  location_by_wave_kill, ladder, rungs, milestone_thresholds,
}
use tf2_archipelago.Gamedata.Locations.Made.{
  check_location, check_location-id, locations_of-IsCheckOf, mission-Memᴰ, collect-Memᴰ,
}
use tf2_archipelago.Gamedata.Locations.Inside.{objective_in, kill_of_in}

in_range : (t : Tables) (m : Mission) → validate_missions t ≡ true → Memᴰ m t.missions → InRange m
in_range t m v i = validate_mission-InRange t m (validate_missions-each t m v i)

ladder-id :
    (k : MilestoneKind) (i : ℕ) (xs : List ℕ) (l : Location)
    → Memᴰ (some l) (ladder k i xs)
    → (x : ℕ) × (milestone_id k x ≡ some l.id)
unfolding ladder
ladder-id k i [] l h = absurd (not_Memᴰ-nil (some l) h)
ladder-id k i (t ∷ xs) l (Memᴰ.head e) = elim (Option-cases (milestone_id k (i + 1))) [
  | inl n ↦ ground arith
  | inr (v, p) ↦ (i + 1, ground arith)
]
ladder-id k i (t ∷ xs) l (Memᴰ.tail h) = ladder-id k (i + 1) xs l h

rungs-id :
    (k : MilestoneKind) (l : Location)
    → Memᴰ (some l) (rungs k)
    → (j : MilestoneKind) × (x : ℕ) × (milestone_id j x ≡ some l.id)
unfolding rungs
rungs-id k l h = let (x, p) = ladder-id k 0 (milestone_thresholds k) l h in (k, x, p)

build_milestones-id :
    (ms : List Location) (l : Location)
    → build_milestones ≡ some ms
    → Memᴰ l ms
    → (k : MilestoneKind) × (x : ℕ) × (milestone_id k x ≡ some l.id)
unfolding build_milestones
build_milestones-id ms l e h =
    elim (Memᴰ-append (some l) (rungs robots) (rungs giants ++ rungs tanks)
      (collect-Memᴰ l (rungs robots ++ (rungs giants ++ rungs tanks)) ms e h)) [
        | inl g ↦ rungs-id robots l g
        | inr g ↦ elim (Memᴰ-append (some l) (rungs giants) (rungs tanks) g) [
          | inl g ↦ rungs-id giants l g
          | inr g ↦ rungs-id tanks l g
        ]
      ]

build_parts :
    (t : Tables) (ls : List Location)
    → build_locations t ≡ some ls
    → (missions milestones : List Location) × (locations_of t t.missions ≡ some missions)
      × (build_milestones ≡ some milestones)
      × (ls ≡ missions ++ milestones)
unfolding build_locations
build_parts t ls h = elim (Option-cases (locations_of t t.missions)) [
  | inl n ↦ ground arith
  | inr (ms, p) ↦ elim (Option-cases build_milestones) [
    | inl n ↦ ground arith
    | inr (rs, q) ↦ (ms, rs, p, q, ground arith)
  ]
]

-- Checks of validated missions with one id are one location.
same_location :
    (t : Tables) (missions : List Location) (l k : Location)
    → validate_missions t ≡ true
    → locations_of t t.missions ≡ some missions
    → Memᴰ l missions
    → Memᴰ k missions
    → k.id ≡ l.id
    → k ≡ l
same_location t missions l k v e hl hk ids =
    let (m, i, (c, made)) = locations_of-IsCheckOf t t.missions missions l e hl in
    let (n, j, (d, made')) = locations_of-IsCheckOf t t.missions missions k e hk in
    let (one, two) =
      check_id-injective m n c d l.id (in_range t m v i) (in_range t n v j)
        (check_location-id m c l made) (check_location-id n d k made' ∙ ap some ids) in
    let both : some k ≡ some l =
      sym made'
      ∙ ap₂ check_location (sym (validate_missions-id_injective t m n v i j one)) (sym two)
      ∙ made in
    cc

-- No milestone has the id of a location of a validated mission.
not_milestone :
    (t : Tables) (missions milestones : List Location) (l k : Location)
    → validate_missions t ≡ true
    → locations_of t t.missions ≡ some missions
    → build_milestones ≡ some milestones
    → Memᴰ l missions
    → Memᴰ k milestones
    → k.id ≢ l.id
not_milestone t missions milestones l k v e b hl hk ids =
    let (m, i, (c, made)) = locations_of-IsCheckOf t t.missions missions l e hl in
    let (j, x, w) = build_milestones-id milestones k b hk in
    (check_id_reserved m c l.id (in_range t m v i) (check_location-id m c l made)).0 j x
      (w ∙ ap some ids)

-- A location of the missions is the only one of the table with its id.
by_id_of_mission :
    (t : Tables) (ls missions : List Location) (l : Location)
    → validate_missions t ≡ true
    → build_locations t ≡ some ls
    → locations_of t t.missions ≡ some missions
    → Memᴰ l missions
    → location_by_id ls l.id ≡ some l
unfolding location_by_id
by_id_of_mission t ls missions l v b e h =
    let (missions', milestones, p, q, r) = build_parts t ls b in
    let same : missions' ≡ missions = ground arith in
    let whole : ls ≡ missions ++ milestones = r ∙ ap (λ z. z ++ milestones) same in
    let inside : Memᴰ l ls =
      subst (λ z. Memᴰ l z) (sym whole) (Memᴰ-append_left l missions milestones h) in
    let (k, found) =
      last_where_found (λ k. k.id == l.id) l ls inside ((nat_beq_iff l.id l.id).1 refl) in
    let (there, test) = last_where-Memᴰ (λ k. k.id == l.id) k ls found in
    let ids : k.id ≡ l.id = (nat_beq_iff k.id l.id).0 test in
    elim (Memᴰ-append k missions milestones (subst (λ z. Memᴰ k z) whole there)) [
      | inl g ↦ found ∙ ap some (same_location t missions l k v e h g ids)
      | inr g ↦ absurd (not_milestone t missions milestones l k v e q h g ids)
    ]

-- The mission that a resolver finds is one of the tables.
mission_by_pop_file-Memᴰ :
    (t : Tables) (pop : String) (m : Mission)
    → mission_by_pop_file t pop ≡ some m
    → Memᴰ m t.missions
unfolding mission_by_pop_file
mission_by_pop_file-Memᴰ t pop m h = (last_where-Memᴰ (λ m. m.pop_file == pop) m t.missions h).0

abbrev Resolves : Tables → ObjectiveKind → String → ℕ → ℕ → Location → Type 0
Resolves t kind pop w n l =
    (location_by_objective t kind pop w ≡ some (some l))
    ⊎ (location_by_wave_kill t kind pop w n ≡ some (some l))

-- A location that is resolved is one of those of the missions.
resolved_in :
    (t : Tables) (missions : List Location) (kind : ObjectiveKind) (pop : String) (w n : ℕ)
    (l : Location)
    → validate_missions t ≡ true
    → locations_of t t.missions ≡ some missions
    → Resolves t kind pop w n l
    → Memᴰ l missions
unfolding location_by_objective location_by_wave_kill
resolved_in t missions kind pop w n l v e h = elim (Option-cases (mission_by_pop_file t pop)) [
  | inl gone ↦ ground arith
  | inr (m, found) ↦
      let i = mission_by_pop_file-Memᴰ t pop m found in
      let (here, made, grow) = mission-Memᴰ t m t.missions missions e i in
      grow l (elim h [
        | inl o ↦ objective_in t m l here made kind w (ground arith)
        | inr k ↦
            let counted : 1 ≤ n = ground arith in
            kill_of_in t m l here made kind w n (validate_missions-each t m v i) counted
              (ground arith)
      ])
]

-- What the plugin reports, be it an objective or one kill of a wave, that resolves to a location of
-- validated tables is found again by its id, and is the location that is found.
pub location_by_id-resolved :
    (t : Tables) (ls : List Location) (kind : ObjectiveKind) (pop : String) (w n : ℕ) (l : Location)
    → validate_missions t ≡ true
    → build_locations t ≡ some ls
    → (location_by_objective t kind pop w ≡ some (some l))
      ⊎ (location_by_wave_kill t kind pop w n ≡ some (some l))
    → location_by_id ls l.id ≡ some l
location_by_id-resolved t ls kind pop w n l v b h =
    let (missions, _, p, _, _) = build_parts t ls b in
    by_id_of_mission t ls missions l v b p (resolved_in t missions kind pop w n l v p h)
