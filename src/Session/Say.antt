-- ===== src/Session/Say.antt =====
-- What a player may say to the multiworld (bridge/internal/apclient/say.go, and `Say` of
-- bridge/internal/apclient/client.go). `strings.ToLower` is the argument `lower`. A text
-- is one that was decoded from JSON, and so UTF-8; its length is that of its bytes.
use Prim.Native.Char.{Char, code}
use text.Mathlib.TextLemmas.{nil-append, cons-append}
use Prim.Native.String.{String}
use tf2_archipelago.Prelude.{
  ℕ, ◌+◌, ◌≤◌, ◌≡◌, refl, sym, ap, ◌∙◌, ◌<>◌, ◌&&◌, false, inl, inr, subst, Option, none, some,
  Bool, true, not, ◌||◌, List, [], ◌∷◌, arith, nat_eq, string_eq, ◌==◌, ltb, contains, Bool-cases,
  if◌then◌else◌,
}
use tf2_archipelago.Session.Pace.{Bucket, take_token}

-- `sayCommandsAllowed`.
abbrev pub say_commands_allowed : List String
say_commands_allowed =
    "checked" ∷ "help" ∷ "hint" ∷ "hint_location" ∷ "license" ∷ "missing" ∷ "options" ∷ "players"
    ∷ "remaining" ∷ "status" ∷ []

abbrev pub say_length_max : ℕ
say_length_max = 300

pub data SayError : Type 0 where
  command_refused too_long said_too_much not_connected send_failed : SayError

-- The bytes of a code point in UTF-8.
abbrev pub rune_length : ℕ → ℕ
rune_length r = if ltb r 128 then 1 else if ltb r 2048 then 2 else if ltb r 65536 then 3 else 4

-- `len(text)`.
unfoldable pub text_length : String → ℕ
text_length String.[] = 0
text_length (String.◌∷◌ c s) = rune_length (code c) + text_length s

abbrev pub bang : Char
bang = "!"

-- A text up to its first space or tab.
unfoldable pub first_word : String → String
first_word String.[] = String.[]
first_word (String.◌∷◌ c s) =
    let rest = first_word s in if code c == 32 || code c == 9 then String.[] else String.◌∷◌ c rest

-- A command may be said if it is on the list; what is no command may always be said.
abbrev pub spoken : Option String → Option SayError
spoken none = none
spoken (some command) = if contains say_commands_allowed command then none else some command_refused

-- `Client.Say` after the check.
say_checked :
    Option SayError → ℕ → Bool → Bool → String → Bucket → Bucket × Option SayError × Option String
say_checked (some e) at connected sends text b = (b, some e, none)
say_checked none at connected sends text b =
    let (b', let_through) = take_token at b in
    if not let_through
    then (b', some said_too_much, none)
    else if not connected
    then (b', some not_connected, none)
    else if sends
    then (b', none, some text)
    else (b', some send_failed, none)

sent_after :
    (checked : Option SayError) (at : ℕ) (connected sends : Bool) (text out : String) (b : Bucket)
    → (say_checked checked at connected sends text b).2 ≡ some out
    → (checked ≡ none) × (out ≡ text) × ((take_token at b).1 ≡ true) × (connected ≡ true)
unfolding say_checked
sent_after (some e) at connected sends text out b h = ground arith
sent_after none at connected sends text out b h = ground arith

-- A text without a space or a tab.
abbrev pub is_word : String → Bool
is_word String.[] = true
is_word (String.◌∷◌ c s) = not (code c == 32 || code c == 9) && is_word s

-- A text that is empty or begins with a space or a tab.
abbrev pub is_behind_word : String → Bool
is_behind_word String.[] = true
is_behind_word (String.◌∷◌ c s) = code c == 32 || code c == 9

first_word-append :
    (word rest : String)
    → is_word word ≡ true
    → is_behind_word rest ≡ true
    → first_word (word <> rest) ≡ word
unfolding first_word
first_word-append String.[] String.[] h k = ap first_word (nil-append "")
first_word-append String.[] (String.◌∷◌ c s) h k =
    ap first_word (nil-append (String.◌∷◌ c s)) ∙ rw (first_word, k) refl
first_word-append (String.◌∷◌ c s) rest h k =
    let e : (code c == 32 || code c == 9) ≡ false = ground arith in
    ap first_word (cons-append c s rest)
    ∙ rw (first_word, e) (ap (String.◌∷◌ c) (first_word-append s rest (ground arith) k))

some-none : {e : SayError} → some e ≡ none → ⊥
some-none h = ground arith

module _ (lower : String → String) where
  -- `sayCommand`.
  unfoldable pub say_command : String → Option String
  unfolding first_word
  say_command String.[] = none
  say_command (String.◌∷◌ c s) = if code c == 33 then some (lower (first_word s)) else none

  -- `checkSayable`; `none` is a line that may go out.
  unfoldable pub check_sayable : String → Option SayError
  check_sayable text =
      if ltb say_length_max (text_length text) then some too_long else spoken (say_command text)

  -- `Client.Say`, where `sends` says whether the write to the socket succeeds. The last part is the
  -- line that went out.
  unfoldable pub say : ℕ → Bool → Bool → String → Bucket → Bucket × Option SayError × Option String
  unfolding say_checked
  say at connected sends text b = say_checked (check_sayable text) at connected sends text b

  check_sayable_command :
      (said : Option String)
      → spoken said ≡ none
      → (command : String) → said ≡ some command
      → contains say_commands_allowed command ≡ true
  check_sayable_command none h command e = ground arith
  check_sayable_command (some said) h command e =
      elim (Bool-cases (contains say_commands_allowed said)) [
        | inl on ↦
            let same : said ≡ command = ground arith in
            subst (λ c. contains say_commands_allowed c ≡ true) same on
        | inr off ↦
            absurd
              (some-none (subst (λ b. (if b then none else some command_refused) ≡ none) off h))
      ]

  check_sayable-none :
      (text : String)
      → check_sayable text ≡ none
      → (text_length text ≤ say_length_max)
        × ((command : String)
            → say_command text ≡ some command
            → contains say_commands_allowed command ≡ true)
  unfolding check_sayable
  check_sayable-none text h = elim (Bool-cases (ltb say_length_max (text_length text))) [
    | inl long ↦ absurd (
        some-none
          (subst (λ b. (if b then some too_long else spoken (say_command text)) ≡ none) long h))
    | inr short ↦ (
      ground arith,
      check_sayable_command (say_command text)
          (subst (λ b. (if b then some too_long else spoken (say_command text)) ≡ none) short h),
    )
  ]

  -- A line that begins with the mark of a command is taken for the command of its first word.
  say_command-word :
      (word rest : String)
      → is_word word ≡ true
      → is_behind_word rest ≡ true
      → say_command (String.◌∷◌ bang (word <> rest)) ≡ some (lower word)
  unfolding say_command
  say_command-word word rest h k = ap (λ z. some (lower z)) (first_word-append word rest h k)

  -- What goes out is the line as it was typed, of 300 bytes at most, with a token taken for it and over
  -- a session that is connected. If it begins with an exclamation mark, then the word behind that, up
  -- to a space, a tab or the end and in lower case, is on the list of commands that only read.
  pub say_safe :
      (at : ℕ) (connected sends : Bool) (text out : String) (b : Bucket)
      → (say at connected sends text b).2 ≡ some out
      → (out ≡ text)
        × (text_length out ≤ say_length_max)
        × ((word rest : String)
            → out ≡ String.◌∷◌ bang (word <> rest)
            → is_word word ≡ true
            → is_behind_word rest ≡ true
            → contains say_commands_allowed (lower word) ≡ true)
        × ((take_token at b).1 ≡ true)
        × (connected ≡ true)
  unfolding say
  say_safe at connected sends text out b h =
      let (checked, same, token, on) =
        sent_after (check_sayable text) at connected sends text out b h in
      let (short, allowed) = check_sayable-none text checked in
      (
        same,
        subst (λ z. text_length z ≤ say_length_max) (sym same) short,
        λ word rest e w r.
            allowed (lower word) (ap say_command (sym same ∙ e) ∙ say_command-word word rest w r),
        token,
        on,
      )
