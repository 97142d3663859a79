-- ===== src/Feed/Chat/Wrap.antt =====
-- How one message is cut into lines of game chat (`wrap` and `breakAt` of bridge/internal/chat/log.go).
use tf2_archipelago.Prelude.{
  ℕ, zero, suc, ◌+◌, Option, none, some, Bool, true, false, ◌||◌, List, [], ◌∷◌, ◌++◌, nat_eq, ◌==◌,
  ltb, leb, length, take, drop, get_elem?, if◌then◌else◌,
}

abbrev pub Bytes : Type 0
Bytes = List ℕ

abbrev pub line_max : ℕ
line_max = 200

abbrev pub lines_max : ℕ
lines_max = 12

-- "The rest of that answer is in the server log."
abbrev pub truncated_note : Bytes
truncated_note =
    84 ∷ 104 ∷ 101 ∷ 32 ∷ 114 ∷ 101 ∷ 115 ∷ 116 ∷ 32 ∷ 111 ∷ 102 ∷ 32 ∷ 116 ∷ 104 ∷ 97 ∷ 116 ∷ 32
    ∷ 97 ∷ 110 ∷ 115 ∷ 119 ∷ 101 ∷ 114 ∷ 32 ∷ 105 ∷ 115 ∷ 32 ∷ 105 ∷ 110 ∷ 32 ∷ 116 ∷ 104 ∷ 101 ∷ 32
    ∷ 115 ∷ 101 ∷ 114 ∷ 118 ∷ 101 ∷ 114 ∷ 32 ∷ 108 ∷ 111 ∷ 103 ∷ 46 ∷ []

-- `strings.LastIndexByte`.
unfoldable pub last_index : Bytes → ℕ → Option ℕ
last_index [] b = none
last_index (x ∷ xs) b = elim (last_index xs b) [
  | some i ↦ some (suc i)
  | none ↦ if x == b then some 0 else none
]

-- `utf8.RuneStart`: every byte but a continuation byte, 10xxxxxx.
abbrev pub rune_start : ℕ → Bool
rune_start b = ltb b 128 || leb 192 b

abbrev pub byte_at : Bytes → ℕ → ℕ
byte_at p i = elim (get_elem? p i) [ none ↦ 0 | some b ↦ b ]

-- The walk back to a rune boundary, from `196 + steps` to 196 at the least.
unfoldable pub walk_back : Bytes → ℕ → ℕ
walk_back p zero = 196
walk_back p (suc steps) =
    let rest = walk_back p steps in
    if rune_start (byte_at p (196 + suc steps)) then 196 + suc steps else rest

-- `breakAt`.
unfoldable pub break_at : Bytes → ℕ
unfolding last_index walk_back
break_at p = elim (last_index (take 201 p) 32) [
  | some cut ↦ if leb 100 cut then cut else walk_back p 4
  | none ↦ walk_back p 4
]

-- The parts of a text between newlines (`strings.SplitSeq`).
unfoldable pub split_lines : Bytes → List Bytes
split_lines [] = [] ∷ []
split_lines (b ∷ bs) = elim (split_lines bs) [
  | [] ↦ (b ∷ []) ∷ []
  | p ∷ ps ↦ if b == 10 then [] ∷ p ∷ ps else (b ∷ p) ∷ ps
]

abbrev pub is_empty : Bytes → Bool
is_empty [] = true
is_empty (b ∷ bs) = false

-- How a paragraph's loop left off: to go on with the lines so far, or to return them.
pub data Loop : Type 0 where
  goes_on returns : List Bytes → Loop
  out_of_fuel : Loop

module _ (trim : Bytes → Bytes) where
  -- The inner loop of `wrap`. The fuel bounds its rounds, each of which shortens the paragraph.
  unfoldable pub cut_paragraph : ℕ → List Bytes → Bytes → Loop
  cut_paragraph zero lines p = if is_empty p then goes_on lines else out_of_fuel
  cut_paragraph (suc fuel) lines p =
      let cut = break_at p in
      let rest = cut_paragraph fuel (lines ++ (trim (take cut p) ∷ [])) (trim (drop cut p)) in
      if is_empty p
      then goes_on lines
      else if length lines == lines_max
      then returns (lines ++ (truncated_note ∷ []))
      else if leb (length p) line_max
      then goes_on (lines ++ (p ∷ []))
      else rest

  -- The outer loop.
  unfoldable pub cut_all : List Bytes → List Bytes → Loop
  cut_all lines [] = returns lines
  cut_all lines (p ∷ ps) = elim (cut_paragraph (length (trim p)) lines (trim p)) [
    | goes_on more ↦ cut_all more ps
    | returns more ↦ returns more
    | out_of_fuel ↦ out_of_fuel
  ]

  -- `wrap`; `none` only if the fuel was short.
  unfoldable pub wrap : Bytes → Option (List Bytes)
  unfolding cut_all cut_paragraph split_lines
  wrap text = elim (cut_all [] (split_lines text)) [
    | goes_on lines ↦ some lines
    | returns lines ↦ some lines
    | out_of_fuel ↦ none
  ]
