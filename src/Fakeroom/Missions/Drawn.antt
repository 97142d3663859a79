-- ===== src/Fakeroom/Missions/Drawn.antt =====
-- The missions of a run are missions that the server can play.
use mathlib.Core.List.{Memᴰ, Permᴰ}
use tf2_archipelago.Prelude.{
  ℕ, zero, suc, ◌≤◌, ◌≡◌, refl, sym, subst, Option, none, some, true, List, [], ◌∷◌, String,
  string_eq, ◌==◌, arith, length, take, drop, keep, inl, inr, Bool-cases, Option-cases,
}
use tf2_archipelago.Prelude.Laws.{length-take-le}
use tf2_archipelago.Prelude.Int.{ℤ, pos, negsuc}
use tf2_archipelago.Prelude.Member.{
  Memᴰ-keep, Memᴰ-map_back, Memᴰ-Permᴰ, Memᴰ-take, Memᴰ-drop, Memᴰ-append, length-Permᴰ,
  last_where-Memᴰ,
}
use tf2_archipelago.Gamedata.Tables.{Tables, Mission, mission_by_pop_file}
use tf2_archipelago.Gamedata.Community.{Community}
use tf2_archipelago.Availability.{GameServer, check, is_playable, playable_on}
use tf2_archipelago.Fakeroom.Missions.{
  Wanted, admits, pop_files, pool_of, or_first, start_admitted, start_at, start_first, run_length,
  cut_to, default_missions, index_of,
}

-- A pop file of the tables whose mission the server plays.
abbrev pub Playable : Community → Tables → GameServer → String → Type 0
Playable c t s p =
    (m : Mission) × Memᴰ m t.missions × (m.pop_file ≡ p) × (is_playable (check c s m) ≡ true)

abbrev pub AllPlayable : Community → Tables → GameServer → List String → Type 0
AllPlayable c t s ps = (p : String) → Memᴰ p ps → Playable c t s p

module _ (c : Community) (t : Tables) (w : Wanted) where
  playable_on-Playable :
      (m : Mission) → Memᴰ m (playable_on c t w.server) → Playable c t w.server m.pop_file
  unfolding playable_on
  playable_on-Playable m h =
      let (i, e) = Memᴰ-keep (λ n. is_playable (check c w.server n)) m t.missions h in
      (m, i, refl, e)

  or_first-AllPlayable :
      (ms : List Mission) (ps pool : List String)
      → ((m : Mission) → Memᴰ m ms → Playable c t w.server m.pop_file)
      → AllPlayable c t w.server ps
      → or_first ms ps ≡ some pool
      → AllPlayable c t w.server pool × (1 ≤ length pool)
  unfolding or_first
  or_first-AllPlayable ms (q ∷ qs) pool f h e =
      let same : q ∷ qs ≡ pool = ground arith in
      (
        λ p i. h p (subst (λ z. Memᴰ p z) (sym same) i),
        subst (λ z. 1 ≤ length z) same (omega arith),
      )
  or_first-AllPlayable [] [] pool f h e = ground arith
  or_first-AllPlayable (m ∷ ms) [] pool f h e =
      let same : m.pop_file ∷ [] ≡ pool = ground arith in
      (
        λ p i. elim (subst (λ z. Memᴰ p z) (sym same) i) [
          | Memᴰ.head s ↦ subst (λ z. Playable c t w.server z) (sym s) (f m (Memᴰ.head refl))
          | Memᴰ.tail j ↦ elim j [ ]
        ],
        subst (λ z. 1 ≤ length z) same (omega arith),
      )

  pool-AllPlayable :
      (pool : List String)
      → pool_of c t w ≡ some pool
      → AllPlayable c t w.server pool × (1 ≤ length pool)
  unfolding pool_of
  pool-AllPlayable pool e =
      let playable = playable_on c t w.server in
      or_first-AllPlayable playable (pop_files (keep (admits c w) playable)) pool
        playable_on-Playable
        (λ p i.
          let (m, j, s) = Memᴰ-map_back (λ n. n.pop_file) p (keep (admits c w) playable) i in
          let (k, _) = Memᴰ-keep (admits c w) m playable j in
          subst (λ z. Playable c t w.server z) (sym s) (playable_on-Playable m k))
        e

  start_admitted-Playable :
      start_admitted c w (mission_by_pop_file t w.start_mission) ≡ true
      → Playable c t w.server w.start_mission
  unfolding mission_by_pop_file start_admitted
  start_admitted-Playable h = elim (Option-cases (mission_by_pop_file t w.start_mission)) [
    | inl e ↦ ground (arith, e)
    | inr (m, e) ↦
        let (i, q) = last_where-Memᴰ (λ n. n.pop_file == w.start_mission) m t.missions e in
        (m, i, (string_eq.beq_iff m.pop_file w.start_mission).0 q, ground (arith, e))
  ]

  index-Memᴰ : (xs : List String) (a : String) (i : ℕ) → index_of xs a ≡ some i → Memᴰ a xs
  index-Memᴰ [] a i h = ground arith
  index-Memᴰ (x ∷ xs) a i h = elim (Bool-cases (x == a)) [
    | inl e ↦ Memᴰ.head (sym ((string_eq.beq_iff x a).0 e))
    | inr e ↦ elim (Option-cases (index_of xs a)) [
      | inl n ↦ ground (arith, n)
      | inr (j, f) ↦ Memᴰ.tail (index-Memᴰ xs a j f)
    ]
  ]

  start_at-AllPlayable :
      (pool : List String) (o : Option ℕ)
      → index_of pool w.start_mission ≡ o
      → AllPlayable c t w.server pool
      → 1 ≤ length pool
      → AllPlayable c t w.server (start_at c t w pool o) × (1 ≤ length (start_at c t w pool o))
  unfolding start_at
  start_at-AllPlayable pool (some zero) e h l = (h, l)
  start_at-AllPlayable pool (some (suc i)) e h l = (
    λ p j. elim j [
      | Memᴰ.head s ↦
          subst (λ z. Playable c t w.server z) (sym s)
            (h w.start_mission (index-Memᴰ pool w.start_mission (suc i) e))
      | Memᴰ.tail k ↦ elim (Memᴰ-append p (take (suc i) pool) (drop (suc (suc i)) pool) k) [
        | inl x ↦ h p (Memᴰ-take (suc i) p pool x)
        | inr x ↦ h p (Memᴰ-drop (suc (suc i)) p pool x)
      ]
    ],
    omega arith,
  )
  start_at-AllPlayable pool none e h l =
      elim (Bool-cases (start_admitted c w (mission_by_pop_file t w.start_mission))) [
        | inl b ↦ rw b (
          λ p j. elim j [
            | Memᴰ.head s ↦ subst (λ z. Playable c t w.server z) (sym s) (start_admitted-Playable b)
            | Memᴰ.tail k ↦ h p k
          ],
          omega arith,
        )
        | inr b ↦ rw b (h, l)
      ]

  start_first-AllPlayable :
      (pool : List String)
      → AllPlayable c t w.server pool
      → 1 ≤ length pool
      → AllPlayable c t w.server (start_first c t w pool) × (1 ≤ length (start_first c t w pool))
  unfolding start_first
  start_first-AllPlayable pool h l = elim (Bool-cases (w.start_mission == "")) [
    | inl e ↦ rw e (h, l)
    | inr e ↦ rw e (start_at-AllPlayable pool (index_of pool w.start_mission) refl h l)
  ]

  run_length_bounds :
      (count : ℤ) (most : ℕ)
      → 1 ≤ most
      → (1 ≤ run_length count most) × (run_length count most ≤ most)
  unfolding run_length
  run_length_bounds (negsuc n) most h = (omega arith, omega arith)
  run_length_bounds (pos zero) most h = (omega arith, omega arith)
  run_length_bounds (pos (suc n)) most h = (omega arith, omega arith)

  -- However the draw is shuffled, a run has a mission, and each mission of it is one of the tables
  -- that the server can play, the one it starts on included.
  pub default_missions-AllPlayable :
      (shuffle : List String → List String) (ps : List String)
      → ((xs : List String) → Permᴰ (shuffle xs) xs)
      → default_missions shuffle c t w ≡ some ps
      → AllPlayable c t w.server ps × (1 ≤ length ps)
  unfolding default_missions cut_to
  default_missions-AllPlayable shuffle ps perm e = elim (Option-cases (pool_of c t w)) [
    | inl n ↦ ground (arith, n)
    | inr (pool, f) ↦
        let drawn = start_first c t w (shuffle pool) in
        let same : cut_to w drawn ≡ ps = ground (arith, f) in
        let (h, l) = pool-AllPlayable pool f in
        let (h', l') =
          start_first-AllPlayable (shuffle pool) (λ p i. h p (Memᴰ-Permᴰ p (perm pool) i))
            (omega (arith, l, length-Permᴰ (perm pool))) in
        let (a, b) = run_length_bounds w.count (length drawn) l' in
        (
          λ p i. h' p (
              Memᴰ-take (run_length w.count (length drawn)) p drawn
                (subst (λ z. Memᴰ p z) (sym same) i)),
          subst (λ z. 1 ≤ length z) same
              (omega (arith, a, b, length-take-le (run_length w.count (length drawn)) drawn)),
        )
  ]
