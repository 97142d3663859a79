-- ===== src/Gamedata/Validate/Facts.antt =====
-- What a passed validation of the missions says of each of them.
use mathlib.Core.List.{Memᴰ}
use tf2_archipelago.Prelude.{
  ℕ, zero, suc, ◌≤◌, ◌+◌, ◌≡◌, sym, ap, subst, ◌∙◌, inl, inr, some, true, List, [], ◌∷◌, map, arith,
  Eq, nat_eq, string_eq, contains, get_elem?, length, Option-cases,
}
use tf2_archipelago.Prelude.Dict.{lookup}
use tf2_archipelago.Prelude.Member.{not_Memᴰ-nil, Memᴰ-map}
use tf2_archipelago.Gamedata.Tables.{Mission, Tables, WaveKills, wave_kills_at, kills_row}
use tf2_archipelago.Gamedata.Ids.Checks.{InRange}
use tf2_archipelago.Gamedata.Validate.{
  unique, unique_from, validate_mission, all_missions, validate_missions,
}

module _ {ℓ} {K : Type ℓ} ⦃e : Eq K⦄ where
  contains-Memᴰ : (k : K) (ks : List K) → Memᴰ k ks → contains ks k ≡ true
  contains-Memᴰ k [] h = absurd (not_Memᴰ-nil k h)
  contains-Memᴰ k (j ∷ ks) (Memᴰ.head p) = ground (arith, e.beq_iff j k)
  contains-Memᴰ k (j ∷ ks) (Memᴰ.tail h) = ground (arith, contains-Memᴰ k ks h)

  -- What was seen before does not come again.
  unique_from-fresh :
      (seen ks : List K) (k : K)
      → unique_from seen ks ≡ true
      → contains seen k ≡ true
      → Memᴰ k ks
      → ⊥
  unfolding unique_from
  unique_from-fresh seen [] k u s h = not_Memᴰ-nil k h
  unique_from-fresh seen (j ∷ ks) k u s (Memᴰ.head p) =
      let same : contains seen j ≡ true = subst (λ z. contains seen z ≡ true) p s in ground arith
  unique_from-fresh seen (j ∷ ks) k u s (Memᴰ.tail h) =
      unique_from-fresh (j ∷ seen) ks k (ground arith) (ground arith) h

  -- Of two entries with one key, in a list whose keys are unique, both are the same entry.
  unique_from-injective {κ} :
      {A : Type κ} (key : A → K) (seen : List K) (xs : List A) (a b : A)
      → unique_from seen (map key xs) ≡ true
      → Memᴰ a xs
      → Memᴰ b xs
      → key a ≡ key b
      → a ≡ b
  unfolding unique_from
  unique_from-injective key seen [] a b u ha hb q = absurd (not_Memᴰ-nil a ha)
  unique_from-injective key seen (x ∷ xs) a b u (Memᴰ.head p) (Memᴰ.head r) q = p ∙ sym r
  unique_from-injective key seen (x ∷ xs) a b u (Memᴰ.head p) (Memᴰ.tail r) q = absurd (
      unique_from-fresh (key x ∷ seen) (map key xs) (key b) (ground arith)
        (ground (arith, e.beq_iff (key x) (key b), ap key p)) (Memᴰ-map key b xs r))
  unique_from-injective key seen (x ∷ xs) a b u (Memᴰ.tail p) (Memᴰ.head r) q = absurd (
      unique_from-fresh (key x ∷ seen) (map key xs) (key a) (ground arith)
        (ground (arith, e.beq_iff (key x) (key a), ap key r)) (Memᴰ-map key a xs p))
  unique_from-injective key seen (x ∷ xs) a b u (Memᴰ.tail p) (Memᴰ.tail r) q =
      unique_from-injective key (key x ∷ seen) xs a b (ground arith) p r q

-- Missions of validated tables with one id are one mission.
pub validate_missions-id_injective :
    (t : Tables) (m n : Mission)
    → validate_missions t ≡ true
    → Memᴰ m t.missions
    → Memᴰ n t.missions
    → m.id ≡ n.id
    → m ≡ n
unfolding validate_missions unique
validate_missions-id_injective t m n v hm hn q =
    unique_from-injective (λ (m : Mission). m.id) [] t.missions m n (ground arith) hm hn q

all_missions-Memᴰ :
    (t : Tables) (m : Mission) (ms : List Mission)
    → all_missions t ms ≡ true
    → Memᴰ m ms
    → validate_mission t m ≡ true
unfolding all_missions
all_missions-Memᴰ t m [] v h = absurd (not_Memᴰ-nil m h)
all_missions-Memᴰ t m (n ∷ ms) v (Memᴰ.head p) = ground arith
all_missions-Memᴰ t m (n ∷ ms) v (Memᴰ.tail h) = all_missions-Memᴰ t m ms (ground arith) h

pub validate_missions-each :
    (t : Tables) (m : Mission)
    → validate_missions t ≡ true
    → Memᴰ m t.missions
    → validate_mission t m ≡ true
unfolding validate_missions
validate_missions-each t m v h = all_missions-Memᴰ t m t.missions (ground arith) h

pub validate_mission-InRange : (t : Tables) (m : Mission) → validate_mission t m ≡ true → InRange m
unfolding validate_mission
validate_mission-InRange t m v = ground arith

get_elem?-lt {ℓ} :
    {A : Type ℓ} (xs : List A) (i : ℕ) (a : A) → get_elem? xs i ≡ some a → suc i ≤ length xs
get_elem?-lt [] i a h = cc
get_elem?-lt (x ∷ xs) zero a h = omega arith
get_elem?-lt (x ∷ xs) (suc i) a h = omega (arith, get_elem?-lt xs i a h)

kills_row_le :
    (kills : List WaveKills) (w : ℕ)
    → 1 ≤ (kills_row kills w).giants + (kills_row kills w).tanks
    → suc w ≤ length kills
unfolding kills_row
kills_row_le kills w h = elim (Option-cases (get_elem? kills w)) [
  | inl n ↦ ground arith
  | inr (k, e) ↦ get_elem?-lt kills w k e
]

-- A wave that has kills is one of the waves of the mission.
pub validate_mission-kills :
    (t : Tables) (m : Mission) (w : ℕ)
    → validate_mission t m ≡ true
    → 1 ≤ (wave_kills_at t m w).giants + (wave_kills_at t m w).tanks
    → (1 ≤ w) × (w ≤ m.waves)
unfolding validate_mission wave_kills_at
validate_mission-kills t m zero v h = elim (Option-cases (lookup m.pop_file t.wave_kills)) [
  | inl n ↦ ground arith
  | inr (k, e) ↦ ground arith
]
validate_mission-kills t m (suc w) v h = elim (Option-cases (lookup m.pop_file t.wave_kills)) [
  | inl n ↦ ground arith
  | inr (k, e) ↦ ground (arith, kills_row_le k w)
]
