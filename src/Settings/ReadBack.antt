-- ===== src/Settings/ReadBack.antt =====
-- What a codec writes is read back. Text that is kept as it is, pairs and tables are not values here, nor
-- is the quoting of a line of .env modelled.
use Prim.Native.Char.{Char, code}
use text.Mathlib.TextLemmas.{nil-append, cons-append}
use tf2_archipelago.Prelude.{
  ℕ, ◌+◌, ◌≡◌, ◌⊎◌, refl, sym, ap, ◌∙◌, Option, none, some, Bool, true, false, not, ◌&&◌, ◌||◌,
  List, [], ◌∷◌, map, String, ◌<>◌, nat_eq, string_eq, ◌==◌, if◌then◌else◌, contains, keep, take,
  length, arith, Bool-cases, inl, inr,
}
use tf2_archipelago.Prelude.Laws.{take-length}
use tf2_archipelago.Prelude.Int.{ℤ}
use tf2_archipelago.Settings.Codec.{
  Spelling, split_comma, join_comma, parse_named, parse_number, parse_boolean, format_boolean,
  is_reach, parse_reach, is_mod_loading, or_default, parse_mod_loading, or_off, parse_class_slots,
  boolean_word, class_slots_of, is_named, split_list, named_end, split_seats,
}

-- A text without a comma.
unfoldable pub is_whole : String → Bool
is_whole String.[] = true
is_whole (String.◌∷◌ c s) = not (code c == 44) && is_whole s

split_comma-whole : (x : String) → is_whole x ≡ true → split_comma x ≡ x ∷ []
unfolding split_comma is_whole
split_comma-whole String.[] h = refl
split_comma-whole (String.◌∷◌ c s) h =
    let e : (code c == 44) ≡ false = ground arith in
    let on = split_comma-whole s (ground arith) in
    rw (split_comma, e, on)
      (ap (λ z. z ∷ []) (cons-append c "" s ∙ ap (String.◌∷◌ c) (nil-append s)))

abbrev comma : Char
comma = ","

comma_front : (rest : String) → split_comma ("," <> rest) ≡ "" ∷ split_comma rest
unfolding split_comma
comma_front rest =
    ap split_comma (cons-append comma "" rest ∙ ap (String.◌∷◌ comma) (nil-append rest))

split_comma-join :
    (x rest : String) → is_whole x ≡ true → split_comma (x <> ("," <> rest)) ≡ x ∷ split_comma rest
unfolding split_comma is_whole
split_comma-join String.[] rest h = ap split_comma (nil-append ("," <> rest)) ∙ comma_front rest
split_comma-join (String.◌∷◌ c s) rest h =
    let e : (code c == 44) ≡ false = ground arith in
    let on = split_comma-join s rest (ground arith) in
    ap split_comma (cons-append c s ("," <> rest))
    ∙ rw (split_comma, e, on)
        (ap (λ z. z ∷ split_comma rest) (cons-append c "" s ∙ ap (String.◌∷◌ c) (nil-append s)))

abbrev all_whole : List String → Bool
all_whole [] = true
all_whole (x ∷ xs) = is_whole x && all_whole xs

-- A list of texts without commas, joined and split again, is the list, unless it is the empty one.
split-join :
    (x : String) (xs : List String)
    → all_whole (x ∷ xs) ≡ true
    → split_comma (join_comma (x ∷ xs)) ≡ x ∷ xs
unfolding join_comma
split-join x [] h = split_comma-whole x (ground arith)
split-join x (y ∷ ys) h =
    split_comma-join x (join_comma (y ∷ ys)) (ground arith)
    ∙ ap (λ z. x ∷ z) (split-join y ys (ground arith))

module _ (sp : Spelling) where
  -- Every entry is as a trim leaves it.
  abbrev pub AllTrimmed : List String → Type 0
  AllTrimmed [] = Unit {0}
  AllTrimmed (x ∷ xs) = (sp.trim_space x ≡ x) × AllTrimmed xs

  map-trim : (xs : List String) → AllTrimmed xs → map sp.trim_space xs ≡ xs
  map-trim [] h = refl
  map-trim (x ∷ xs) (a, h) = rw (map, a) (ap (λ z. x ∷ z) (map-trim xs h))

abbrev all_named : List String → Bool
all_named [] = true
all_named (x ∷ xs) = is_named x && all_named xs

keep_named : (xs : List String) → all_named xs ≡ true → keep is_named xs ≡ xs
keep_named [] h = refl
keep_named (x ∷ xs) h =
    let e : is_named x ≡ true = ground arith in
    rw (keep, e) (ap (λ z. x ∷ z) (keep_named xs (ground arith)))

-- The last entry, if there is one, is not blank.
abbrev ends_named : List String → Bool
ends_named [] = true
ends_named (x ∷ []) = is_named x
ends_named (x ∷ y ∷ ys) = ends_named (y ∷ ys)

named_end-last :
    (x : String) (xs : List String) (at end : ℕ)
    → ends_named (x ∷ xs) ≡ true
    → named_end at end (x ∷ xs) ≡ at + length (x ∷ xs)
unfolding named_end
named_end-last x [] at end h = ground arith
named_end-last x (y ∷ ys) at end h =
    let here = if is_named x then at + 1 else end in
    omega (arith, named_end-last y ys (at + 1) here h)

take_named : (xs : List String) → ends_named xs ≡ true → take (named_end 0 0 xs) xs ≡ xs
unfolding named_end
take_named [] h = refl
take_named (x ∷ xs) h =
    let e : named_end 0 0 (x ∷ xs) ≡ length (x ∷ xs) = omega (arith, named_end-last x xs 0 0 h) in
    ap (λ n. take n (x ∷ xs)) e ∙ take-length (x ∷ xs)

-- A value of a variable, by the codec that the variable has.
pub data Value : Type 0 where
  named_value : String → Value
  number_value : ℤ → Value
  boolean_value : Bool → Value
  words_value : List String → Value
  seats_value : List String → Value
  reach_value : String → Value
  mod_loading_value : String → Value
  class_slots_value : String → Value

-- What the codec of a value writes.
abbrev pub write : Spelling → Value → String
write sp (named_value s) = s
write sp (number_value n) = sp.itoa n
write sp (boolean_value b) = format_boolean b
write sp (words_value xs) = join_comma xs
write sp (seats_value xs) = join_comma xs
write sp (reach_value r) = r
write sp (mod_loading_value m) = or_default m
write sp (class_slots_value c) = or_off c

abbrev as_value : {A : Type 0} → (A → Value) → Option A → Option Value
as_value f none = none
as_value f (some a) = some (f a)

-- What the codec of a value reads.
abbrev pub read_as : Spelling → Value → String → Option Value
read_as sp (named_value _) v = as_value named_value (parse_named sp v)
read_as sp (number_value _) v = as_value number_value (parse_number sp v)
read_as sp (boolean_value _) v = as_value boolean_value (parse_boolean sp v)
read_as sp (words_value _) v = some (words_value (split_list sp v))
read_as sp (seats_value _) v = some (seats_value (split_seats sp v))
read_as sp (reach_value _) v = as_value reach_value (parse_reach sp v)
read_as sp (mod_loading_value _) v = as_value mod_loading_value (parse_mod_loading sp v)
read_as sp (class_slots_value _) v = as_value class_slots_value (parse_class_slots sp v)

-- The words that the codecs write themselves.
abbrev pub fixed_words : List String
fixed_words =
    "1" ∷ "0" ∷ "lan" ∷ "steam" ∷ "port" ∷ "required" ∷ "always" ∷ "progressive" ∷ "any_order"
    ∷ "off" ∷ "" ∷ []

-- What is relied on of strings and strconv: words of lower-case ASCII without blanks are left as
-- they are, and a printed number is read.
pub record IsSpelling (sp : Spelling) : Type 0 where
  pub trim_fixed : (w : String) → contains fixed_words w ≡ true → sp.trim_space w ≡ w
  pub lower_fixed : (w : String) → contains fixed_words w ≡ true → sp.to_lower w ≡ w
  pub atoi_itoa : (n : ℤ) → sp.atoi (sp.trim_space (sp.itoa n)) ≡ some n

-- The values that settings hold as they are written.
abbrev pub IsWritable : Spelling → Value → Type 0
IsWritable sp (named_value s) = (sp.trim_space s ≡ s) × (is_named s ≡ true)
IsWritable sp (number_value n) = Unit {0}
IsWritable sp (boolean_value b) = Unit {0}
IsWritable sp (words_value xs) = AllTrimmed sp xs × (all_whole xs ≡ true) × (all_named xs ≡ true)
IsWritable sp (seats_value xs) = AllTrimmed sp xs × (all_whole xs ≡ true) × (ends_named xs ≡ true)
IsWritable sp (reach_value r) = is_reach r ≡ true
IsWritable sp (mod_loading_value m) = is_mod_loading m ≡ true
IsWritable sp (class_slots_value c) = or_off c ≡ c

first_or : (r a : String) (rest : Bool) → (r == a || rest) ≡ true → (r ≡ a) ⊎ (rest ≡ true)
first_or r a rest h = elim (Bool-cases (r == a)) [
  | inl e ↦ inl ((string_eq.beq_iff r a).0 e)
  | inr e ↦ inr (ground arith)
]

or_off_words :
    (c : String) → (or_off c ≡ "progressive") ⊎ ((or_off c ≡ "any_order") ⊎ (or_off c ≡ "off"))
or_off_words c = elim (Bool-cases (c == "progressive" || c == "true")) [
  | inl e ↦ inl (rw (or_off, e) refl)
  | inr e ↦ elim (Bool-cases (c == "any_order")) [
    | inl k ↦ inr (inl (rw (or_off, e, k) refl))
    | inr k ↦ inr (inr (rw (or_off, e, k) refl))
  ]
]

module _ (sp : Spelling) (i : IsSpelling sp) where
  split_list-join :
      (xs : List String) → IsWritable sp (words_value xs) → split_list sp (join_comma xs) ≡ xs
  unfolding split_list split_comma join_comma
  split_list-join [] h = ap (λ z. keep is_named (z ∷ [])) (i.trim_fixed "" refl)
  split_list-join (x ∷ xs) (t, w, n) =
      ap (λ z. keep is_named (map sp.trim_space z)) (split-join x xs w)
      ∙ ap (keep is_named) (map-trim sp (x ∷ xs) t)
      ∙ keep_named (x ∷ xs) n

  split_seats-join :
      (xs : List String) → IsWritable sp (seats_value xs) → split_seats sp (join_comma xs) ≡ xs
  unfolding split_seats split_comma join_comma named_end
  split_seats-join [] h = ap (λ z. take (named_end 0 0 (z ∷ [])) (z ∷ [])) (i.trim_fixed "" refl)
  split_seats-join (x ∷ xs) (t, w, n) =
      ap (λ z. take (named_end 0 0 (map sp.trim_space z)) (map sp.trim_space z)) (split-join x xs w)
      ∙ ap (λ z. take (named_end 0 0 z) z) (map-trim sp (x ∷ xs) t)
      ∙ take_named (x ∷ xs) n

  -- A word of the codecs' own comes through a trim and a change of case.
  fixed : (w : String) → contains fixed_words w ≡ true → sp.to_lower (sp.trim_space w) ≡ w
  fixed w h = ap sp.to_lower (i.trim_fixed w h) ∙ i.lower_fixed w h

  boolean_back : (b : Bool) → parse_boolean sp (format_boolean b) ≡ some b
  unfolding parse_boolean
  boolean_back true = ap boolean_word (fixed "1" refl)
  boolean_back false = ap boolean_word (fixed "0" refl)

  abbrev reach_of : String → Option String
  reach_of r = if is_reach r then some r else none

  abbrev mod_loading_of : String → Option String
  mod_loading_of m = if is_mod_loading m then some m else none

  reach_back : (r : String) → is_reach r ≡ true → parse_reach sp r ≡ some r
  unfolding parse_reach
  reach_back r h = elim (first_or r "lan" (r == "steam" || r == "port") h) [
    | inl e ↦ rw e (ap reach_of (fixed "lan" refl))
    | inr k ↦ elim (first_or r "steam" (r == "port") k) [
      | inl e ↦ rw e (ap reach_of (fixed "steam" refl))
      | inr l ↦ rw ((string_eq.beq_iff r "port").0 l) (ap reach_of (fixed "port" refl))
    ]
  ]

  mod_loading_back :
      (m : String) → is_mod_loading m ≡ true → parse_mod_loading sp (or_default m) ≡ some m
  unfolding parse_mod_loading
  mod_loading_back m h = elim (first_or m "required" (m == "always") h) [
    | inl e ↦ rw e (ap mod_loading_of (fixed "required" refl))
    | inr k ↦ rw ((string_eq.beq_iff m "always").0 k) (ap mod_loading_of (fixed "always" refl))
  ]

  class_word :
      (w : String)
      → contains fixed_words w ≡ true
      → parse_class_slots sp w ≡ class_slots_of w (boolean_word w)
  unfolding parse_class_slots parse_boolean
  class_word w h =
      ap (λ z. class_slots_of z (boolean_word (sp.to_lower (sp.trim_space z)))) (fixed w h)
      ∙ ap (λ z. class_slots_of w (boolean_word z)) (fixed w h)

  class_slots_back : (c : String) → or_off c ≡ c → parse_class_slots sp (or_off c) ≡ some c
  class_slots_back c h = elim (or_off_words c) [
    | inl e ↦
        ap (parse_class_slots sp) e ∙ class_word "progressive" refl ∙ ap some (sym (sym h ∙ e))
    | inr (inl e) ↦
        ap (parse_class_slots sp) e ∙ class_word "any_order" refl ∙ ap some (sym (sym h ∙ e))
    | inr (inr e) ↦ ap (parse_class_slots sp) e ∙ class_word "off" refl ∙ ap some (sym (sym h ∙ e))
  ]

  named_back : (s : String) → sp.trim_space s ≡ s → is_named s ≡ true → parse_named sp s ≡ some s
  unfolding parse_named
  named_back s t n =
      ap (λ z. if is_named z then some z else none) t ∙ ap (λ b. if b then some s else none) n

  -- What a codec writes for a value, the codec reads back: a name that is not blank and that a trim
  -- leaves alone, a number, a yes or no, a list whose entries a trim leaves alone and that are named and
  -- without commas, seats likewise of which the last is named, and each word of a choice, where a trim
  -- and a change of case leave those words alone and a printed number is read.
  pub write-read_as : (v : Value) → IsWritable sp v → read_as sp v (write sp v) ≡ some v
  unfolding parse_number
  write-read_as (named_value s) (t, n) = ap (as_value named_value) (named_back s t n)
  write-read_as (number_value n) h = ap (as_value number_value) (i.atoi_itoa n)
  write-read_as (boolean_value b) h = ap (as_value boolean_value) (boolean_back b)
  write-read_as (words_value xs) h = ap (λ z. some (words_value z)) (split_list-join xs h)
  write-read_as (seats_value xs) h = ap (λ z. some (seats_value z)) (split_seats-join xs h)
  write-read_as (reach_value r) h = ap (as_value reach_value) (reach_back r h)
  write-read_as (mod_loading_value m) h = ap (as_value mod_loading_value) (mod_loading_back m h)
  write-read_as (class_slots_value c) h = ap (as_value class_slots_value) (class_slots_back c h)
