-- ===== src/Tests/Settings.antt =====
-- A spelling that is simple enough to compute with, and what is read back with it.
use Prim.Native.Char.{Char, code}
use tf2_archipelago.Prelude.{
  ℕ, zero, suc, ◌≡◌, refl, ap, some, Option, List, [], ◌∷◌, String, nat_eq, string_eq, ◌==◌,
  if◌then◌else◌,
}
use tf2_archipelago.Prelude.Int.{ℤ, pos, negsuc}
use tf2_archipelago.Settings.Codec.{Spelling}
use tf2_archipelago.Settings.ReadBack.{
  words_value, IsSpelling, read_as, write, write-read_as, is_whole,
}

-- A number as so many strokes, a negative one behind a dash.
abbrev stroke : Char
stroke = "1"

abbrev dash : Char
dash = "-"

abbrev strokes : ℕ → String
strokes zero = String.[]
strokes (suc n) = String.◌∷◌ stroke (strokes n)

abbrev count : String → ℕ
count String.[] = 0
count (String.◌∷◌ c s) = suc (count s)

abbrev number_of : String → Option ℤ
number_of String.[] = some (pos 0)
number_of (String.◌∷◌ c s) =
    if code c == 45 then some (negsuc (count s)) else some (pos (suc (count s)))

abbrev text_of : ℤ → String
text_of (pos n) = strokes n
text_of (negsuc n) = String.◌∷◌ dash (strokes n)

abbrev same : String → String
same s = s

abbrev plain : Spelling
plain = record { trim_space = same; to_lower = same; atoi = number_of; itoa = text_of }

count-strokes : (n : ℕ) → count (strokes n) ≡ n
count-strokes zero = refl
count-strokes (suc n) = ap (λ k. suc k) (count-strokes n)

read_number : (n : ℤ) → number_of (text_of n) ≡ some n
read_number (pos zero) = refl
read_number (pos (suc n)) = ap (λ k. some (pos (suc k))) (count-strokes n)
read_number (negsuc n) = ap (λ k. some (negsuc k)) (count-strokes n)

plain-IsSpelling : IsSpelling plain
plain-IsSpelling = record {
  trim_fixed = λ w h. refl;
  lower_fixed = λ w h. refl;
  atoi_itoa = read_number;
}

abbrev two_missions : List String
two_missions = "mvm_decoy" ∷ "mvm_coaltown" ∷ []

write-read_as_example :
    read_as plain (words_value two_missions) (write plain (words_value two_missions))
    ≡ some (words_value two_missions)
unfolding is_whole
write-read_as_example =
    write-read_as plain plain-IsSpelling (words_value two_missions) ((refl, (refl, tt)), refl, refl)
