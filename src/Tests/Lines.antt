-- ===== src/Tests/Lines.antt =====
-- An output that comes in three writes.
use tf2_archipelago.Prelude.{ℕ, ◌≡◌, refl, List, [], ◌∷◌}
use tf2_archipelago.Lines.{Writer, drain, cut_line, shown, trim_returns, write_bytes}
use tf2_archipelago.Lines.Whole.{lines_of, write_all, write_all_whole}

-- "Hi" with a carriage return and a newline, a blank line, and "no" without its end.
abbrev pieces : List (List ℕ)
pieces = (72 ∷ []) ∷ (105 ∷ 13 ∷ 10 ∷ 10 ∷ []) ∷ (110 ∷ 111 ∷ []) ∷ []

abbrev fresh : Writer
fresh = record { buffer = []; sunk = [] }

abbrev after : Writer
after = record { buffer = 110 ∷ 111 ∷ []; sunk = (72 ∷ 105 ∷ []) ∷ [] }

write_all-pieces : write_all pieces fresh ≡ after
unfolding drain cut_line shown trim_returns write_bytes
write_all-pieces = refl

write_all_whole_example : write_all pieces fresh ≡ after
unfolding lines_of shown trim_returns
write_all_whole_example = write_all_whole pieces fresh refl
