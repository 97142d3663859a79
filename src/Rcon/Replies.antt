-- ===== src/Rcon/Replies.antt =====
-- The reply to a command, put together from the server's answers.
use mathlib.Core.List.{append_assoc, append-nil}
use tf2_archipelago.Prelude.{
  ℕ, zero, suc, ◌+◌, ◌%◌, ◌≤◌, ◌<◌, ◌≡◌, refl, sym, ap, ◌∙◌, true, false, List, [], ◌∷◌, ◌++◌,
  nat_eq, ◌==◌, length, arith,
}
use tf2_archipelago.Rcon.{
  Client, Read, Ending, replied, collect_reply, exec, packet, read, word, packet_count_max,
  terminator_offset,
}
use tf2_archipelago.Rcon.Wire.{ends_well, read-packet}

-- A packet of the server.
pub record Answer : Type 0 where
  pub id : ℕ
  pub kind : ℕ
  pub body : List ℕ

-- It keeps to the protocol's sizes.
pub record IsFit (a : Answer) : Type 0 where
  pub id_word : a.id < word
  pub kind_word : a.kind < word
  pub body_short : length a.body ≤ 4096
  pub body_ends : ends_well a.body ≡ true

abbrev pub bytes_of : Answer → List ℕ
bytes_of a = packet a.id a.kind a.body

abbrev pub stream_of : List Answer → List ℕ
stream_of [] = []
stream_of (a ∷ answers) = bytes_of a ++ stream_of answers

abbrev pub bodies : List Answer → List ℕ
bodies [] = []
bodies (a ∷ answers) = a.body ++ bodies answers

-- Answers that keep to the sizes, none of them the one that ends the reply.
abbrev pub AllAnswer : ℕ → List Answer → Type 0
AllAnswer terminator [] = Unit {0}
AllAnswer terminator (a ∷ answers) =
    IsFit a × ((a.id == terminator) ≡ false) × AllAnswer terminator answers

read_answer :
    (a : Answer) (rest : List ℕ)
    → IsFit a
    → read (bytes_of a ++ rest) ≡ Read.got a.id a.kind a.body rest
read_answer a rest f =
    read-packet a.id a.kind a.body rest f.id_word f.kind_word f.body_short f.body_ends

module _ (trim_space : List ℕ → List ℕ) (ending : Ending) (terminator : ℕ) where
  collect_step :
      (a : Answer) (left packets : ℕ) (reply rest : List ℕ)
      → IsFit a
      → (a.id == terminator) ≡ false
      → collect_reply trim_space ending terminator (suc left) packets reply (bytes_of a ++ rest)
        ≡ collect_reply trim_space ending terminator left (packets + 1) (reply ++ a.body) rest
  unfolding collect_reply
  collect_step a left packets reply rest f e = rw (collect_reply, read_answer a rest f, e) refl

  collect_last :
      (a : Answer) (left packets : ℕ) (reply rest : List ℕ)
      → IsFit a
      → (a.id == terminator) ≡ true
      → collect_reply trim_space ending terminator (suc left) packets reply (bytes_of a ++ rest)
        ≡ (replied (trim_space reply), rest)
  unfolding collect_reply
  collect_last a left packets reply rest f e = rw (collect_reply, read_answer a rest f, e) refl

  collect_all :
      (answers : List Answer) (last : Answer) (left packets : ℕ) (reply rest : List ℕ)
      → AllAnswer terminator answers
      → IsFit last
      → (last.id == terminator) ≡ true
      → length answers < left
      → collect_reply trim_space ending terminator left packets reply
          (stream_of answers ++ (bytes_of last ++ rest))
        ≡ (replied (trim_space (reply ++ bodies answers)), rest)
  collect_all answers last zero packets reply rest fs f e h = absurd (omega arith)
  collect_all [] last (suc left) packets reply rest fs f e h =
      collect_last last left packets reply rest f e
      ∙ ap (λ z. (replied (trim_space z), rest)) (sym (append-nil reply))
  collect_all (a ∷ answers) last (suc left) packets reply rest (fit, other, fs) f e h =
      ap (collect_reply trim_space ending terminator (suc left) packets reply)
        (append_assoc (bytes_of a) (stream_of answers) (bytes_of last ++ rest))
      ∙ collect_step a left packets reply (stream_of answers ++ (bytes_of last ++ rest)) fit other
      ∙ collect_all answers last left (packets + 1) (reply ++ a.body) rest fs f e (omega arith)
      ∙ ap (λ z. (replied (trim_space z), rest)) (append_assoc reply a.body (bodies answers))

-- A command whose answer comes in fewer than 128 packets, however they are cut, followed by the
-- answer to the empty command behind it, returns what the server printed, trimmed, and leaves
-- unread what came after.
pub exec_reply :
    (trim_space : List ℕ → List ℕ) (ending : Ending) (command rest : List ℕ) (answers : List Answer)
    (last : Answer) (c : Client)
    → let id = (c.request_id + 1) % word in
      let terminator = (id + terminator_offset) % word in
      AllAnswer terminator answers
      → IsFit last
      → last.id ≡ terminator
      → length answers < packet_count_max
      → c.incoming ≡ stream_of answers ++ (bytes_of last ++ rest)
      → exec trim_space ending true command c
        ≡ (record { request_id = id; incoming = rest }, replied (trim_space (bodies answers)))
unfolding exec
exec_reply trim_space ending command rest answers last c fs f e h i =
    let id = (c.request_id + 1) % word in
    let terminator = (id + terminator_offset) % word in
    let done =
      ap (collect_reply trim_space ending terminator packet_count_max 0 []) i
      ∙ collect_all trim_space ending terminator answers last packet_count_max 0 [] rest fs f
          ((nat_eq.beq_iff last.id terminator).1 e) h in
    ap (λ p. (record { request_id = id; incoming = p.1 }, p.0)) done
