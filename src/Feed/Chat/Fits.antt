-- ===== src/Feed/Chat/Fits.antt =====
-- That the lines a message is cut into fit the game's chat.
use tf2_archipelago.Prelude.{
  ℕ, zero, suc, ◌+◌, ◌≤◌, ◌<◌, ◌≡◌, refl, inl, inr, none, some, Bool, true, ◌&&◌, List, [], ◌∷◌,
  ◌++◌, arith, nat_eq, ◌==◌, nat_beq_iff, leb, length, take, drop, Bool-cases, Option-cases,
  if◌then◌else◌,
}
use tf2_archipelago.Prelude.Laws.{length-append, length-drop}
use tf2_archipelago.Feed.Chat.Wrap.{
  Bytes, Loop, goes_on, returns, out_of_fuel, line_max, lines_max, truncated_note, last_index,
  walk_back, break_at, split_lines, cut_paragraph, cut_all, wrap,
}

-- Every line fits one line of chat.
abbrev pub all_fit : List Bytes → Bool
all_fit [] = true
all_fit (l ∷ ls) = leb (length l) line_max && all_fit ls

all_fit-append :
    (ls : List Bytes) (l : Bytes)
    → all_fit ls ≡ true
    → length l ≤ line_max
    → all_fit (ls ++ (l ∷ [])) ≡ true
all_fit-append [] l h k = ground arith
all_fit-append (x ∷ ls) l h k = ground (arith, all_fit-append ls l)

length-take : (n : ℕ) (xs : Bytes) → length (take n xs) ≤ n
length-take zero xs = omega arith
length-take (suc n) [] = omega arith
length-take (suc n) (x ∷ xs) = omega (arith, length-take n xs)

last_index_bound : (xs : Bytes) (b i : ℕ) → last_index xs b ≡ some i → i < length xs
unfolding last_index
last_index_bound [] b i h = ground arith
last_index_bound (x ∷ xs) b i h = elim (Option-cases (last_index xs b)) [
  | inl n ↦ ground arith
  | inr (j, e) ↦ ground (arith, last_index_bound xs b j e)
]

walk_back_bound : (p : Bytes) (n : ℕ) → (196 ≤ walk_back p n) × (walk_back p n ≤ 196 + n)
unfolding walk_back
walk_back_bound p zero = ground arith
walk_back_bound p (suc n) = ground (arith, walk_back_bound p n)

last_cut_bound :
    (p : Bytes) (i : ℕ)
    → i < 201
    → let cut = if leb 100 i then i else walk_back p 4 in (100 ≤ cut) × (cut ≤ line_max)
last_cut_bound p i h = ground (arith, walk_back_bound p 4)

-- A paragraph is cut so that the line is worth reading and fits.
break_at_bound : (p : Bytes) → (100 ≤ break_at p) × (break_at p ≤ line_max)
unfolding break_at
break_at_bound p = elim (Option-cases (last_index (take 201 p) 32)) [
  | inl n ↦ ground (arith, walk_back_bound p 4)
  | inr (i, e) ↦
      let b : i < 201 = omega (arith, last_index_bound (take 201 p) 32 i e, length-take 201 p) in
      rw (break_at, e) (last_cut_bound p i b)
]

-- What a loop of `wrap` leaves, from lines that fit.
pub data Wrapped : Loop → Type 0 where
  on :
      (lines : List Bytes)
      → all_fit lines ≡ true
      → length lines ≤ lines_max
      → Wrapped (goes_on lines)
  back :
      (lines : List Bytes)
      → all_fit lines ≡ true
      → length lines ≤ suc lines_max
      → Wrapped (returns lines)

module _ (trim : Bytes → Bytes) (trim_le : (p : Bytes) → length (trim p) ≤ length p) where
  cut_paragraph-Wrapped :
      (fuel : ℕ) (lines : List Bytes) (p : Bytes)
      → length p ≤ fuel
      → all_fit lines ≡ true
      → length lines ≤ lines_max
      → Wrapped (cut_paragraph trim fuel lines p)
  unfolding cut_paragraph
  cut_paragraph-Wrapped zero lines [] h f l = on lines f l
  cut_paragraph-Wrapped zero lines (b ∷ bs) h f l = absurd (omega arith)
  cut_paragraph-Wrapped (suc fuel) lines [] h f l = on lines f l
  cut_paragraph-Wrapped (suc fuel) lines (b ∷ bs) h f l =
      let p : Bytes = b ∷ bs in
      elim (Bool-cases (length lines == lines_max)) [
        | inl e ↦
            let fit = all_fit-append lines truncated_note f (omega arith) in
            let few : length (lines ++ (truncated_note ∷ [])) ≤ suc lines_max =
              omega (arith, l, length-append lines (truncated_note ∷ [])) in
            rw e (back (lines ++ (truncated_note ∷ [])) fit few)
        | inr e ↦
            let room : length lines < lines_max =
              ground (arith, nat_beq_iff (length lines) lines_max) in
            elim (Bool-cases (leb (length p) line_max)) [
              | inl short ↦
                  let fit = all_fit-append lines p f (ground arith) in
                  let few : length (lines ++ (p ∷ [])) ≤ lines_max =
                    omega (arith, room, length-append lines (p ∷ [])) in
                  rw (e, short) (on (lines ++ (p ∷ [])) fit few)
              | inr long ↦
                  let cut = break_at p in
                  let line = trim (take cut p) in
                  let bound = break_at_bound p in
                  let longer : 200 < length p = ground arith in
                  let shorter : length (trim (drop cut p)) ≤ fuel =
                    omega (arith, trim_le (drop cut p), length-drop cut p) in
                  let fits : length line ≤ line_max =
                    omega (arith, trim_le (take cut p), length-take cut p) in
                  let few : length (lines ++ (line ∷ [])) ≤ lines_max =
                    omega (arith, room, length-append lines (line ∷ [])) in
                  rw (e, long)
                    (cut_paragraph-Wrapped fuel (lines ++ (line ∷ [])) (trim (drop cut p)) shorter
                      (all_fit-append lines line f fits) few)
            ]
      ]

  after_paragraph :
      (ps : List Bytes)
      → ((more : List Bytes)
          → all_fit more ≡ true
          → length more ≤ lines_max
          → Wrapped (cut_all trim more ps))
      → (r : Loop) → Wrapped r
      → Wrapped (elim r [
        | goes_on more ↦ cut_all trim more ps
        | returns more ↦ returns more
        | out_of_fuel ↦ out_of_fuel
      ])
  after_paragraph ps go r (on more f l) = go more f l
  after_paragraph ps go r (back more f l) = back more f l

  cut_all-Wrapped :
      (ps lines : List Bytes)
      → all_fit lines ≡ true
      → length lines ≤ lines_max
      → Wrapped (cut_all trim lines ps)
  unfolding cut_all
  cut_all-Wrapped [] lines f l = back lines f (omega arith)
  cut_all-Wrapped (p ∷ ps) lines f l =
      let w = cut_paragraph-Wrapped (length (trim p)) lines (trim p) (omega arith) f l in
      after_paragraph ps (λ more. cut_all-Wrapped ps more)
        (cut_paragraph trim (length (trim p)) lines (trim p)) w

  Wrapped-lines :
      (r : Loop)
      → Wrapped r
      → (lines : List Bytes) × ((elim r [
        | goes_on lines ↦ some lines
        | returns lines ↦ some lines
        | out_of_fuel ↦ none
      ])
          ≡ some lines)
        × (all_fit lines ≡ true)
        × (length lines ≤ suc lines_max)
  Wrapped-lines r (on lines f l) = (lines, refl, f, omega arith)
  Wrapped-lines r (back lines f l) = (lines, refl, f, l)

  -- With a trim that never makes a text longer, a message is always cut into lines, thirteen of them
  -- at most, and every one of them fits.
  pub wrap_fits :
      (text : Bytes)
      → (lines : List Bytes) × (wrap trim text ≡ some lines)
        × (all_fit lines ≡ true)
        × (length lines ≤ suc lines_max)
  unfolding wrap
  wrap_fits text =
      Wrapped-lines (cut_all trim [] (split_lines text))
        (cut_all-Wrapped (split_lines text) [] refl (omega arith))
