-- ===== src/Fakeroom/Modifiers/Apart.antt =====
-- Which modifiers a mission is drawn.
use mathlib.Core.List.{Memᴰ}
use tf2_archipelago.Prelude.{
  ℕ, zero, suc, ◌+◌, ◌-◌, ◌≤◌, ◌<◌, ◌≡◌, ◌≢◌, refl, sym, ap, subst, ◌∙◌, none, some, true, false,
  List, [], ◌∷◌, ◌++◌, String, nat_eq, string_eq, ◌==◌, ltb, if◌then◌else◌, contains, length, arith,
  Bool-cases, inl, inr, nat_beq_iff,
}
use tf2_archipelago.Prelude.Int.{ℤ}
use tf2_archipelago.Prelude.Dict.{Dict, insert, lookup, lookup-insert}
use tf2_archipelago.Prelude.Laws.{length-append}
use tf2_archipelago.Prelude.Member.{Memᴰ-append, not_Memᴰ-nil}
use tf2_archipelago.Fakeroom.Modifiers.{
  MissionModifier, Dice, clamp, most_of, clashes, note_group, pick_modifiers, held_at, wanted_of,
  assigned, draw_all, draw_mission_modifiers,
}

-- Two modifiers that a mission cannot have together.
abbrev pub Excludes : MissionModifier → MissionModifier → Type 0
Excludes m n = (m.exclusive_group ≢ "") × (m.exclusive_group ≡ n.exclusive_group)

-- No two of a list exclude one another.
abbrev pub Compatible : List MissionModifier → Type 0
Compatible [] = Unit {0}
Compatible (m ∷ ms) = ((n : MissionModifier) → Memᴰ n ms → Excludes m n → ⊥) × Compatible ms

Compatible-snoc :
    (ms : List MissionModifier) (n : MissionModifier)
    → Compatible ms
    → ((m : MissionModifier) → Memᴰ m ms → Excludes m n → ⊥)
    → Compatible (ms ++ (n ∷ []))
Compatible-snoc [] n h apart = ((λ m i. elim i [ ]), tt)
Compatible-snoc (m ∷ ms) n (here, h) apart = (
  λ k i x. elim (Memᴰ-append k ms (n ∷ []) i) [
    | inl j ↦ here k j x
    | inr (Memᴰ.head e) ↦ apart m (Memᴰ.head refl) (x.0, x.1 ∙ ap (λ z. z.exclusive_group) e)
    | inr (Memᴰ.tail j) ↦ absurd (not_Memᴰ-nil k j)
  ],
  Compatible-snoc ms n h (λ k i. apart k (Memᴰ.tail i)),
)

-- What the loop has taken, with the groups it has noted.
record Taken (wanted : ℕ) (groups : List String) (held : List MissionModifier) : Type 0 where
  apart : Compatible held
  noted :
      (m : MissionModifier)
      → Memᴰ m held
      → m.exclusive_group ≢ ""
      → contains groups m.exclusive_group ≡ true
  room : length held < wanted

-- What a mission may be assigned.
pub record IsDrawn (most : ℕ) (held : List MissionModifier) : Type 0 where
  pub apart : Compatible held
  pub few : length held ≤ most

not_clashing :
    (groups : List String) (m n : MissionModifier)
    → clashes groups n ≡ false
    → (m.exclusive_group ≢ "" → contains groups m.exclusive_group ≡ true)
    → Excludes m n
    → ⊥
not_clashing groups m n h noted (named, same) =
    let there : contains groups n.exclusive_group ≡ true =
      subst (λ z. contains groups z ≡ true) same (noted named) in
    elim (Bool-cases (n.exclusive_group == "")) [
      | inl e ↦ named (same ∙ (string_eq.beq_iff n.exclusive_group "").0 e)
      | inr e ↦ ground arith
    ]

noted-note_group :
    (groups : List String) (m : MissionModifier) (g : String)
    → contains groups g ≡ true
    → contains (note_group groups m) g ≡ true
noted-note_group groups m g h = elim (Bool-cases (m.exclusive_group == "")) [
  | inl e ↦ rw e h
  | inr e ↦ rw e (ground arith)
]

own-note_group :
    (groups : List String) (m : MissionModifier)
    → m.exclusive_group ≢ ""
    → contains (note_group groups m) m.exclusive_group ≡ true
own-note_group groups m h = elim (Bool-cases (m.exclusive_group == "")) [
  | inl e ↦ absurd (h ((string_eq.beq_iff m.exclusive_group "").0 e))
  | inr e ↦
      let self = (string_eq.beq_iff m.exclusive_group m.exclusive_group).1 refl in
      rw e (ground arith)
]

snoc_length :
    (ms : List MissionModifier) (m : MissionModifier) → length (ms ++ (m ∷ [])) ≡ length ms + 1
snoc_length ms m = length-append ms (m ∷ [])

Taken-snoc :
    (wanted : ℕ) (groups : List String) (held : List MissionModifier) (m : MissionModifier)
    → Taken wanted groups held
    → clashes groups m ≡ false
    → (length (held ++ (m ∷ [])) == wanted) ≡ false
    → Taken wanted (note_group groups m) (held ++ (m ∷ []))
Taken-snoc wanted groups held m t c l = record {
  apart = Compatible-snoc held m t.apart (λ k i. not_clashing groups k m c (t.noted k i));
  noted = λ k i named. elim (Memᴰ-append k held (m ∷ []) i) [
    | inl j ↦ noted-note_group groups m k.exclusive_group (t.noted k j named)
    | inr (Memᴰ.head e) ↦
        subst (λ z. contains (note_group groups m) z.exclusive_group ≡ true) (sym e)
          (own-note_group groups m (subst (λ z. z.exclusive_group ≢ "") e named))
    | inr (Memᴰ.tail j) ↦ absurd (not_Memᴰ-nil k j)
  ];
  room = ground (arith, t.room, snoc_length held m, nat_beq_iff (length (held ++ (m ∷ []))) wanted);
}

pick_modifiers-IsDrawn :
    (wanted : ℕ) (groups : List String) (ms held : List MissionModifier)
    → Taken wanted groups held
    → IsDrawn wanted (pick_modifiers wanted groups ms held)
unfolding pick_modifiers
pick_modifiers-IsDrawn wanted groups [] held t = record {
  apart = t.apart;
  few = omega (arith, t.room);
}
pick_modifiers-IsDrawn wanted groups (m ∷ ms) held t = elim (Bool-cases (clashes groups m)) [
  | inl c ↦ rw (pick_modifiers, c) (pick_modifiers-IsDrawn wanted groups ms held t)
  | inr c ↦ elim (Bool-cases (length (held ++ (m ∷ [])) == wanted)) [
    | inl l ↦
        rw (pick_modifiers, c, l)
          (record {
            apart = Compatible-snoc held m t.apart (λ k i. not_clashing groups k m c (t.noted k i));
            few = ground (arith, l, nat_beq_iff (length (held ++ (m ∷ []))) wanted);
          })
    | inr l ↦
        rw (pick_modifiers, c, l)
          (pick_modifiers-IsDrawn wanted (note_group groups m) ms (held ++ (m ∷ []))
            (Taken-snoc wanted groups held m t c l))
  ]
]

-- What is relied on of `rand.IntN`.
abbrev pub IsFair : Dice → Type 0
IsFair d = (k : ℕ) → 0 < k → d.int_n k < k

least_le : (minimum maximum : ℤ) → clamp minimum ≤ most_of minimum maximum
least_le minimum maximum = elim (Bool-cases (ltb (clamp maximum) (clamp minimum))) [
  | inl e ↦ rw (most_of, e) (omega arith)
  | inr e ↦ rw (most_of, e) (ground arith)
]

wanted_of-le :
    (d : Dice) (minimum maximum : ℤ)
    → IsFair d
    → wanted_of d minimum maximum ≤ most_of minimum maximum
unfolding wanted_of
wanted_of-le d minimum maximum fair =
    let least = clamp minimum in
    let most = most_of minimum maximum in
    let thrown = fair (most - least + 1) (omega arith) in
    elim (Bool-cases (ltb least most)) [
      | inl e ↦ rw (wanted_of, e) (ground (arith, thrown))
      | inr e ↦ rw (wanted_of, e) (least_le minimum maximum)
    ]

assigned-IsDrawn :
    (d : Dice) (wanted : ℕ) (table : List MissionModifier)
    → IsDrawn wanted (assigned d wanted table [])
unfolding assigned
assigned-IsDrawn d zero table = record { apart = tt; few = omega arith }
assigned-IsDrawn d (suc n) table =
    let some_wanted : (suc n == 0) ≡ false = ground arith in
    rw (assigned, some_wanted)
      (pick_modifiers-IsDrawn (suc n) [] (d.shuffle table) []
        (record { apart = tt; noted = λ m i. elim i [ ]; room = omega arith }))

other_key : (k j : String) → (k ≡ j → ⊥) → (j == k) ≡ false
other_key k j h = elim (Bool-cases (j == k)) [
  | inl e ↦ absurd (h (sym ((string_eq.beq_iff j k).0 e)))
  | inr e ↦ e
]

-- No mission is named twice.
abbrev pub Distinct : List String → Type 0
Distinct [] = Unit {0}
Distinct (m ∷ ms) = (Memᴰ m ms → ⊥) × Distinct ms

module _ (dice : ℕ → Dice) (table : List MissionModifier) (minimum maximum : ℤ) where
  abbrev share : ℕ → String → Dict String (List MissionModifier) → List MissionModifier
  share turn mission acc =
      assigned (dice turn) (wanted_of (dice turn) minimum maximum) table (held_at mission acc)

  draw_all_kept :
      (turn : ℕ) (missions : List String) (k : String) (v : List MissionModifier)
      (acc : Dict String (List MissionModifier))
      → (Memᴰ k missions → ⊥)
      → lookup k acc ≡ some v
      → lookup k (draw_all dice turn table minimum maximum missions acc) ≡ some v
  unfolding draw_all
  draw_all_kept turn [] k v acc out h = h
  draw_all_kept turn (m ∷ ms) k v acc out h =
      draw_all_kept (turn + 1) ms k v (insert m (share turn m acc) acc) (λ i. out (Memᴰ.tail i))
        (lookup-insert m k (share turn m acc) acc
          ∙ ap (λ b. if b then some (share turn m acc) else lookup k acc)
              (other_key k m (λ e. out (Memᴰ.head e)))
          ∙ h)

  draw_all_given :
      ((n : ℕ) → IsFair (dice n))
      → (turn : ℕ) (missions : List String) (k : String) (acc : Dict String (List MissionModifier))
      → Distinct missions
      → ((j : String) → Memᴰ j missions → lookup j acc ≡ none)
      → Memᴰ k missions
      → (v : List MissionModifier) × (lookup k
            (draw_all dice turn table minimum maximum missions acc)
          ≡ some v)
        × IsDrawn (most_of minimum maximum) v
  unfolding draw_all
  draw_all_given fair turn [] k acc once new i = elim i [ ]
  draw_all_given fair turn (m ∷ ms) k acc (out, once) new (Memᴰ.head e) =
      let v = share turn m acc in
      let w = wanted_of (dice turn) minimum maximum in
      let drawn : IsDrawn w v =
        subst (λ z. IsDrawn w (assigned (dice turn) w table (elim z [ some xs ↦ xs | none ↦ [] ])))
          (sym (new m (Memᴰ.head refl))) (assigned-IsDrawn (dice turn) w table) in
      (
        v,
        ap (λ z. lookup z (draw_all dice turn table minimum maximum (m ∷ ms) acc)) e
            ∙ draw_all_kept (turn + 1) ms m v (insert m v acc) out (
                lookup-insert m m v acc
                ∙ ap (λ b. if b then some v else lookup m acc) ((string_eq.beq_iff m m).1 refl)),
        record {
          apart = drawn.apart;
          few = omega (arith, drawn.few, wanted_of-le (dice turn) minimum maximum (fair turn));
        },
      )
  draw_all_given fair turn (m ∷ ms) k acc (out, once) new (Memᴰ.tail i) =
      let v = share turn m acc in
      draw_all_given fair (turn + 1) ms k (insert m v acc) once
        (λ j at.
          lookup-insert m j v acc
          ∙ ap (λ b. if b then some v else lookup j acc)
              (other_key j m (λ e. out (subst (λ z. Memᴰ z ms) e at)))
          ∙ new j (Memᴰ.tail at))
        i

-- Every mission of the run, where none is named twice, is assigned modifiers of which no two exclude
-- one another, and no more of them than the upper bound, whatever the order they are shuffled into,
-- where a random number below a bound is below it.
pub draw_mission_modifiers-IsDrawn :
    (dice : ℕ → Dice) (table : List MissionModifier) (missions : List String) (minimum maximum : ℤ)
    → ((n : ℕ) → IsFair (dice n))
    → Distinct missions
    → (mission : String) → Memᴰ mission missions
    → (v : List MissionModifier) × (lookup mission
          (draw_mission_modifiers dice table missions minimum maximum)
        ≡ some v)
      × IsDrawn (most_of minimum maximum) v
unfolding draw_mission_modifiers
draw_mission_modifiers-IsDrawn dice table missions minimum maximum fair once mission i =
    draw_all_given dice table minimum maximum fair 0 missions mission [] once (λ j at. refl) i
