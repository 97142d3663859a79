-- ===== src/Tests/Feed.antt =====
-- Theorems of the two feeds at small inputs.
use tf2_archipelago.Prelude.{
  suc, ◌≤◌, ◌≡◌, refl, some, true, List, [], ◌∷◌, String, arith, drop, length, nat_eq, ◌==◌,
  if◌then◌else◌,
}
use tf2_archipelago.Prelude.Int.{pos}
use tf2_archipelago.Feed.Ring.{newest, numbered}
use tf2_archipelago.Feed.DeathLink
use tf2_archipelago.Feed.Chat.Log
use tf2_archipelago.Feed.Chat.Wrap.{Bytes, wrap, lines_max}
use tf2_archipelago.Feed.Chat.Fits.{wrap_fits, all_fit}

abbrev three_deaths : List (String × String)
three_deaths = ("Link", "fell") ∷ ("Samus", "lava") ∷ ("Link", "again") ∷ []

feed_newest_example :
    let f = DeathLink.appended (DeathLink.new (pos 2)) three_deaths in
    (f.deaths ≡ newest (DeathLink.new (pos 2)).capacity (numbered DeathLink.death 1 three_deaths))
    × (f.latest ≡ 3)
    × (length f.deaths ≤ (DeathLink.new (pos 2)).capacity)
feed_newest_example = DeathLink.feed_newest (pos 2) three_deaths

two : 2 ≡ (DeathLink.new (pos 2)).capacity
unfolding DeathLink.new
two = refl

deaths_since_exact_example :
    DeathLink.since (DeathLink.appended (DeathLink.new (pos 2)) three_deaths) (pos 1)
    ≡ (drop 1 (numbered DeathLink.death 1 three_deaths), 3)
deaths_since_exact_example =
    DeathLink.deaths_since_exact (pos 2) 1 three_deaths (omega (arith, two))

-- A trim of leading spaces.
trim_left : Bytes → Bytes
trim_left [] = []
trim_left (b ∷ bs) = let rest = trim_left bs in if b == 32 then rest else b ∷ bs

trim_left_le : (p : Bytes) → length (trim_left p) ≤ length p
unfolding trim_left
trim_left_le [] = omega arith
trim_left_le (b ∷ bs) = ground (arith, trim_left_le bs)

-- " hi", a newline, "you".
abbrev text : Bytes
text = 32 ∷ 104 ∷ 105 ∷ 10 ∷ 121 ∷ 111 ∷ 117 ∷ []

wrap_fits_example :
    (lines : List Bytes) × (wrap trim_left text ≡ some lines)
    × (all_fit lines ≡ true)
    × (length lines ≤ suc lines_max)
wrap_fits_example = wrap_fits trim_left trim_left_le text

lines_newest_example :
    let l = Log.appended trim_left (Log.new (pos 1)) (text ∷ []) in
    (l.messages
      ≡ newest
          (Log.new (pos 1)).capacity
          (numbered Log.message 1 (Log.history trim_left (text ∷ []))))
    × (l.latest ≡ length (Log.history trim_left (text ∷ [])))
    × (length l.messages ≤ (Log.new (pos 1)).capacity)
lines_newest_example = Log.lines_newest trim_left (pos 1) (text ∷ [])

two_lines : length (Log.history trim_left (text ∷ [])) ≡ 2
unfolding wrap trim_left
two_lines = refl

one : 1 ≡ (Log.new (pos 1)).capacity
unfolding Log.new
one = refl

lines_since_exact_example :
    Log.since (Log.appended trim_left (Log.new (pos 1)) (text ∷ [])) (pos 1) ≡ (
      drop 1 (numbered Log.message 1 (Log.history trim_left (text ∷ []))),
      length (Log.history trim_left (text ∷ [])),
    )
lines_since_exact_example =
    Log.lines_since_exact trim_left (pos 1) 1 (text ∷ []) (omega (arith, two_lines, one))
