-- ===== src/Tests/Rcon.antt =====
-- A reply in two packets, and theorems of the RCON client at it.
use tf2_archipelago.Prelude.{◌≡◌, refl, true, List, [], ◌∷◌, ◌++◌, ℕ, arith}
use tf2_archipelago.Rcon.{Client, broken, got, replied, exec, packet, read, type_exec_command}
use tf2_archipelago.Rcon.Wire.{read-packet}
use tf2_archipelago.Rcon.Replies.{Answer, IsFit, bytes_of, stream_of, exec_reply}

abbrev same_bytes : List ℕ → List ℕ
same_bytes bs = bs

abbrev half : List ℕ → Answer
half body = record { id = 2; kind = 0; body = body }

abbrev halves : List Answer
halves = half (72 ∷ 101 ∷ []) ∷ half (108 ∷ 108 ∷ 111 ∷ []) ∷ []

abbrev ending : Answer
ending = record { id = 1002; kind = 0; body = [] }

abbrev logged_in : Client
logged_in = record { request_id = 1; incoming = stream_of halves ++ (bytes_of ending ++ []) }

half-IsFit : IsFit (half (72 ∷ 101 ∷ []))
half-IsFit = record {
  id_word = omega arith;
  kind_word = omega arith;
  body_short = omega arith;
  body_ends = refl;
}

other_half-IsFit : IsFit (half (108 ∷ 108 ∷ 111 ∷ []))
other_half-IsFit = record {
  id_word = omega arith;
  kind_word = omega arith;
  body_short = omega arith;
  body_ends = refl;
}

ending-IsFit : IsFit ending
ending-IsFit = record {
  id_word = omega arith;
  kind_word = omega arith;
  body_short = omega arith;
  body_ends = refl;
}

read-packet_example :
    read (packet 2 type_exec_command (115 ∷ 97 ∷ 121 ∷ []) ++ (7 ∷ []))
    ≡ got 2 type_exec_command (115 ∷ 97 ∷ 121 ∷ []) (7 ∷ [])
read-packet_example =
    read-packet 2 type_exec_command (115 ∷ 97 ∷ 121 ∷ []) (7 ∷ []) (omega arith) (omega arith)
      (omega arith) refl

exec_reply_example :
    exec same_bytes broken true (115 ∷ []) logged_in
    ≡ (record { request_id = 2; incoming = [] }, replied (72 ∷ 101 ∷ 108 ∷ 108 ∷ 111 ∷ []))
exec_reply_example =
    exec_reply same_bytes broken (115 ∷ []) [] halves ending logged_in
      (half-IsFit, refl, (other_half-IsFit, refl, tt)) ending-IsFit refl (omega arith) refl
