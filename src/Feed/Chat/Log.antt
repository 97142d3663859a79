-- ===== src/Feed/Chat/Log.antt =====
-- The ring of chat lines (`Log` of bridge/internal/chat/log.go).
use mathlib.Core.List.{append-nil, append_assoc}
use tf2_archipelago.Prelude.{
  ℕ, suc, ◌+◌, ◌-◌, ◌≤◌, ◌≡◌, refl, sym, ap, ◌∙◌, subst, inl, inr, Option, none, some, List, [],
  ◌∷◌, ◌++◌, arith, ltb, length, drop, keep, Bool-cases, if◌then◌else◌,
}
use tf2_archipelago.Prelude.Int.{ℤ, pos, negsuc}
use tf2_archipelago.Prelude.Laws.{length-append}
use tf2_archipelago.Feed.Ring.{
  newest, newest-append, newest_nil, length-newest, numbered, numbered-append, keep-newest,
}
use tf2_archipelago.Feed.Chat.Wrap.{Bytes, wrap}

pub record Message : Type 0 where
  pub seq : ℕ
  pub text : Bytes

pub record Log : Type 0 where
  pub capacity : ℕ
  pub messages : List Message
  pub latest : ℕ
  pub generation : ℕ

-- `New`.
unfoldable pub new : ℤ → Log
new (negsuc n) = record { capacity = 1; messages = []; latest = 0; generation = 0 }
new (pos n) = record {
  capacity = if ltb n 1 then 1 else n;
  messages = [];
  latest = 0;
  generation = 0;
}

trim_messages : ℕ → List Message → List Message
trim_messages capacity messages =
    if ltb capacity (length messages) then drop (length messages - capacity) messages else messages

-- The loop of `Append` over the lines.
add_lines : Log → List Bytes → Log
add_lines l [] = l
add_lines l (line ∷ lines) =
    add_lines
      (record l {
        messages = l.messages ++ (record { seq = suc l.latest; text = line } ∷ []);
        latest = suc l.latest;
      })
      lines

-- `Append` from the lines on.
append_lines : Log → List Bytes → Log
append_lines l [] = l
append_lines l (line ∷ lines) =
    let l' = add_lines l (line ∷ lines) in
    record l' { messages = trim_messages l.capacity l'.messages; generation = suc l.generation }

-- `Log.Append`.
unfoldable pub append : (Bytes → Bytes) → Log → Bytes → Log
unfolding append_lines add_lines trim_messages
append trim l text = elim (wrap trim text) [ none ↦ l | some lines ↦ append_lines l lines ]

-- `Log.Since`.
unfoldable pub since : Log → ℤ → List Message × ℕ
since l (negsuc n) = ([], l.latest)
since l (pos seq) = (keep (λ m. ltb seq m.seq) l.messages, l.latest)

abbrev pub message : ℕ → Bytes → Message
message n text = record { seq = n; text = text }

-- What the multiworld said, line by line.
abbrev lines_of : Option (List Bytes) → List Bytes
lines_of none = []
lines_of (some lines) = lines

abbrev pub history : (Bytes → Bytes) → List Bytes → List Bytes
history trim [] = []
history trim (text ∷ texts) = lines_of (wrap trim text) ++ history trim texts

-- The log after a sequence of messages.
abbrev pub appended : (Bytes → Bytes) → Log → List Bytes → Log
appended trim l [] = l
appended trim l (text ∷ texts) = appended trim (append trim l text) texts

-- Of the lines so far the log holds the newest, each with its place among them.
pub record Holds (lines : List Bytes) (l : Log) : Type 0 where
  pub messages_newest : l.messages ≡ newest l.capacity (numbered message 1 lines)
  pub latest_length : l.latest ≡ length lines

trim_messages-newest :
    (capacity : ℕ) (messages : List Message)
    → trim_messages capacity messages ≡ newest capacity messages
unfolding trim_messages
trim_messages-newest capacity messages = elim (Bool-cases (ltb capacity (length messages))) [
  | inl e ↦ rw e
  | inr e ↦
      let z : length messages - capacity ≡ 0 = ground arith in
      rw e (sym (ap (λ n. drop n messages) z))
]

add_lines_fields :
    (lines : List Bytes) (l : Log)
    → ((add_lines l lines).messages ≡ l.messages ++ numbered message (suc l.latest) lines)
      × ((add_lines l lines).latest ≡ l.latest + length lines)
      × ((add_lines l lines).capacity ≡ l.capacity)
unfolding add_lines
add_lines_fields [] l = (sym (append-nil l.messages), omega arith, refl)
add_lines_fields (line ∷ lines) l =
    let one : List Message = message (suc l.latest) line ∷ [] in
    let l' : Log = record l { messages = l.messages ++ one; latest = suc l.latest } in
    let (a, b, c) = add_lines_fields lines l' in
    (
      a ∙ append_assoc l.messages one (numbered message (suc (suc l.latest)) lines),
      omega (arith, b),
      c,
    )

append_lines-Holds :
    (before lines : List Bytes) (l : Log)
    → Holds before l
    → Holds (before ++ lines) (append_lines l lines)
unfolding append_lines
append_lines-Holds before [] l h = subst (λ z. Holds z l) (sym (append-nil before)) h
append_lines-Holds before (line ∷ rest) l h =
    let lines : List Bytes = line ∷ rest in
    let all = numbered message 1 before in
    let (a, b, c) = add_lines_fields lines l in
    let n : suc l.latest ≡ length before + 1 = omega (arith, h.latest_length) in
    record {
      messages_newest =
          ap (trim_messages l.capacity) a
          ∙ trim_messages-newest l.capacity (l.messages ++ numbered message (suc l.latest) lines)
          ∙ ap (λ z. newest l.capacity (z ++ numbered message (suc l.latest) lines))
              h.messages_newest
          ∙ newest-append l.capacity all (numbered message (suc l.latest) lines)
          ∙ ap (λ m. newest l.capacity (all ++ numbered message m lines)) n
          ∙ ap (newest l.capacity) (sym (numbered-append message 1 before lines))
          ∙ ap (λ k. newest k (numbered message 1 (before ++ lines))) (sym c);
      latest_length = omega (arith, b, h.latest_length, length-append before lines);
    }

said-Holds :
    (before : List Bytes) (said : Option (List Bytes)) (l : Log)
    → Holds before l
    → Holds (before ++ lines_of said) (elim said [ none ↦ l | some lines ↦ append_lines l lines ])
said-Holds before none l h = subst (λ z. Holds z l) (sym (append-nil before)) h
said-Holds before (some lines) l h = append_lines-Holds before lines l h

append-Holds :
    (trim : Bytes → Bytes) (before : List Bytes) (text : Bytes) (l : Log)
    → Holds before l
    → Holds (before ++ lines_of (wrap trim text)) (append trim l text)
unfolding append
append-Holds trim before text l h = said-Holds before (wrap trim text) l h

appended-Holds :
    (trim : Bytes → Bytes) (before texts : List Bytes) (l : Log)
    → Holds before l
    → Holds (before ++ history trim texts) (appended trim l texts)
appended-Holds trim before [] l h = subst (λ z. Holds z l) (sym (append-nil before)) h
appended-Holds trim before (text ∷ texts) l h =
    let lines = lines_of (wrap trim text) in
    subst (λ z. Holds z (appended trim (append trim l text) texts))
      (append_assoc before lines (history trim texts))
      (appended-Holds trim (before ++ lines) texts (append trim l text)
        (append-Holds trim before text l h))

new-Holds : (n : ℤ) → Holds [] (new n)
unfolding new
new-Holds (negsuc n) = record { messages_newest = refl; latest_length = refl }
new-Holds (pos n) = record {
  messages_newest = sym (newest_nil (if ltb n 1 then 1 else n));
  latest_length = refl;
}

said_capacity :
    (said : Option (List Bytes)) (l : Log)
    → (elim said as (λ _. Log) [ none ↦ l | some lines ↦ append_lines l lines ]).capacity
      ≡ l.capacity
unfolding append_lines
said_capacity none l = refl
said_capacity (some []) l = refl
said_capacity (some (line ∷ lines)) l = (add_lines_fields (line ∷ lines) l).2

append_capacity :
    (trim : Bytes → Bytes) (l : Log) (text : Bytes) → (append trim l text).capacity ≡ l.capacity
unfolding append
append_capacity trim l text = said_capacity (wrap trim text) l

appended_capacity :
    (trim : Bytes → Bytes) (texts : List Bytes) (l : Log)
    → (appended trim l texts).capacity ≡ l.capacity
appended_capacity trim [] l = refl
appended_capacity trim (text ∷ texts) l =
    appended_capacity trim texts (append trim l text) ∙ append_capacity trim l text

-- Whatever the multiworld said since the log was made, the log holds the newest of its lines, each
-- numbered by its place among all of them, and no more than its capacity of them.
pub lines_newest :
    (trim : Bytes → Bytes) (n : ℤ) (texts : List Bytes)
    → let l = appended trim (new n) texts in
      (l.messages ≡ newest (new n).capacity (numbered message 1 (history trim texts)))
      × (l.latest ≡ length (history trim texts))
      × (length l.messages ≤ (new n).capacity)
lines_newest trim n texts =
    let h = appended-Holds trim [] texts (new n) (new-Holds n) in
    let all = numbered message 1 (history trim texts) in
    let e = h.messages_newest ∙ ap (λ k. newest k all) (appended_capacity trim texts (new n)) in
    (e, h.latest_length, omega (arith, ap length e, length-newest (new n).capacity all))

-- A reader that asks from a number gets exactly the lines that were said after it, in order, and the
-- number to ask from next, as long as no more of them were said than the log's capacity.
pub lines_since_exact :
    (trim : Bytes → Bytes) (n : ℤ) (seen : ℕ) (texts : List Bytes)
    → length (history trim texts) ≤ seen + (new n).capacity
    → since (appended trim (new n) texts) (pos seen)
      ≡ (drop seen (numbered message 1 (history trim texts)), length (history trim texts))
unfolding since
lines_since_exact trim n seen texts h =
    let (e, l, _) = lines_newest trim n texts in
    let k =
      keep-newest message (λ m. m.seq) (λ m x. refl) (new n).capacity seen (history trim texts) h in
    rw (e, l, k)
