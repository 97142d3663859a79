-- ===== src/Lines.antt =====
-- The launcher's cutting of a process's output into lines (`sinkWriter` of
-- launcher/internal/runtime/supervisor.go), over bytes.
pub mod Whole
use tf2_archipelago.Prelude.{
  ℕ, zero, suc, Option, none, some, Bool, true, false, not, ◌&&◌, List, [], ◌∷◌, ◌++◌, map, nat_eq,
  ◌==◌, if◌then◌else◌, keep, length,
}

-- `sinkWriter`, with the lines that its sink was given.
pub record Writer : Type 0 where
  pub buffer : List ℕ
  pub sunk : List (List ℕ)

abbrev pub is_blank_line : List ℕ → Bool
is_blank_line [] = true
is_blank_line (b ∷ bs) = false

-- `bytes.TrimRight(line, "\r")`.
unfoldable pub trim_returns : List ℕ → List ℕ
trim_returns [] = []
trim_returns (b ∷ bs) =
    let rest = trim_returns bs in if b == 13 && is_blank_line rest then [] else b ∷ rest

abbrev pub one_longer : ℕ → Option (List ℕ × List ℕ) → Option (List ℕ × List ℕ)
one_longer b none = none
one_longer b (some (line, rest)) = some (b ∷ line, rest)

-- What stands before the first newline and after it: `bytes.IndexByte` and the two slices.
unfoldable pub cut_line : List ℕ → Option (List ℕ × List ℕ)
cut_line [] = none
cut_line (b ∷ bs) = let rest = cut_line bs in if b == 10 then some ([], bs) else one_longer b rest

abbrev pub first_line : List ℕ → List (List ℕ) × List ℕ → List (List ℕ) × List ℕ
first_line line (lines, rest) = (line ∷ lines, rest)

-- The loop of `Write`, on fuel: the lines, untrimmed, and what is left in the buffer.
unfoldable pub drain : ℕ → List ℕ → List (List ℕ) × List ℕ
drain zero buffer = ([], buffer)
drain (suc fuel) buffer = elim (cut_line buffer) [
  | none ↦ ([], buffer)
  | some p ↦ first_line p.0 (drain fuel p.1)
]

-- The lines that the sink is given: trimmed, and the blank ones left out.
unfoldable pub shown : List (List ℕ) → List (List ℕ)
shown lines = keep (λ line. not (is_blank_line line)) (map trim_returns lines)

-- `sinkWriter.Write`: each round of the loop shortens the buffer.
unfoldable pub write_bytes : List ℕ → Writer → Writer
write_bytes p w =
    let buffer = w.buffer ++ p in
    let (lines, rest) = drain (suc (length buffer)) buffer in
    record { buffer = rest; sunk = w.sunk ++ shown lines }
