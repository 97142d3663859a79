-- ===== src/Rcon/Wire.antt =====
-- A packet that was sent is read back.
use tf2_archipelago.Prelude.{
  ℕ, ◌+◌, ◌*◌, ◌/◌, ◌%◌, ◌≤◌, ◌<◌, ◌≡◌, refl, ap, subst, ◌∙◌, some, Bool, true, false, ◌||◌, List,
  [], ◌∷◌, ◌++◌, nat_eq, ltb, length, take, drop, arith,
}
use mathlib.Core.List.{append_assoc}
use tf2_archipelago.Prelude.Laws.{length-append}
use tf2_archipelago.Rcon.{
  put32, get32, packet, word, got, read, sized, with_id, with_kind, with_size, payload_of,
  trim_nuls, packet_bytes_max,
}

-- The four bytes of a number, read as one.
join32 :
    (n : ℕ)
    → n < word
    → n % 256
        + ((n / 256) % 256) * 256
        + ((n / 65536) % 256) * 65536
        + ((n / 16777216) % 256) * 16777216
      ≡ n
join32 n h = omega arith

get32-put32 : (n : ℕ) (rest : List ℕ) → n < word → get32 (put32 n ++ rest) ≡ some (n, rest)
unfolding get32 put32
get32-put32 n rest h = ap (λ m. some (m, rest)) (join32 n h)

-- A body that does not end in a nul.
abbrev pub ends_well : List ℕ → Bool
ends_well [] = true
ends_well (b ∷ []) = ltb 0 b
ends_well (b ∷ c ∷ cs) = ends_well (c ∷ cs)

trim_nuls_kept :
    (b c : ℕ) (cs xs : List ℕ) → trim_nuls xs ≡ c ∷ cs → trim_nuls (b ∷ xs) ≡ b ∷ c ∷ cs
unfolding trim_nuls
trim_nuls_kept b c cs xs e = ground (arith, e)

trim_nuls-body : (body : List ℕ) → ends_well body ≡ true → trim_nuls (body ++ (0 ∷ 0 ∷ [])) ≡ body
unfolding trim_nuls
trim_nuls-body [] h = refl
trim_nuls-body (b ∷ []) h = ground arith
trim_nuls-body (b ∷ c ∷ cs) h =
    trim_nuls_kept b c cs ((c ∷ cs) ++ (0 ∷ 0 ∷ [])) (trim_nuls-body (c ∷ cs) h)

take-exact : (xs ys : List ℕ) → take (length xs) (xs ++ ys) ≡ xs
take-exact [] ys = refl
take-exact (x ∷ xs) ys = ap (λ z. x ∷ z) (take-exact xs ys)

drop-exact : (xs ys : List ℕ) → drop (length xs) (xs ++ ys) ≡ ys
drop-exact [] ys = refl
drop-exact (x ∷ xs) ys = drop-exact xs ys

payload_read :
    (id kind : ℕ) (body rest : List ℕ)
    → id < word
    → kind < word
    → ends_well body ≡ true
    → with_id rest (get32 (payload_of id kind body)) ≡ got id kind body rest
unfolding with_id with_kind payload_of
payload_read id kind body rest hi hk hb =
    let tail = body ++ (0 ∷ 0 ∷ []) in
    ap (with_id rest) (get32-put32 id (put32 kind ++ tail) hi)
    ∙ ap (with_kind id rest) (get32-put32 kind tail hk)
    ∙ ap (λ b. got id kind b rest) (trim_nuls-body body hb)

payload_length : (id kind : ℕ) (body : List ℕ) → length (payload_of id kind body) ≡ length body + 10
unfolding put32 payload_of
payload_length id kind body = omega (arith, length-append body (0 ∷ 0 ∷ []))

sized_read :
    (size : ℕ) (payload rest : List ℕ)
    → length payload ≡ size
    → 10 ≤ size
    → size ≤ packet_bytes_max
    → sized size (payload ++ rest) ≡ with_id rest (get32 payload)
unfolding sized
sized_read size payload rest e lo hi =
    let a : (ltb size 10 || ltb packet_bytes_max size) ≡ false = ground arith in
    let b : ltb (length (payload ++ rest)) size ≡ false =
      ground (arith, length-append payload rest, e) in
    let c : take size (payload ++ rest) ≡ payload =
      subst (λ n. take n (payload ++ rest) ≡ payload) e (take-exact payload rest) in
    let d : drop size (payload ++ rest) ≡ rest =
      subst (λ n. drop n (payload ++ rest) ≡ rest) e (drop-exact payload rest) in
    rw (sized, a, b, c, d) refl

-- A packet that the client sends is read back as what it was sent for, whatever follows it in the
-- stream is left there, if its body fits Valve's 4096 bytes and does not end in a nul.
pub read-packet :
    (id kind : ℕ) (body rest : List ℕ)
    → id < word
    → kind < word
    → length body ≤ 4096
    → ends_well body ≡ true
    → read (packet id kind body ++ rest) ≡ got id kind body rest
unfolding read packet with_size
read-packet id kind body rest hi hk hl hb =
    let payload = payload_of id kind body in
    let n = payload_length id kind body in
    let m : length payload % word ≡ length body + 10 = omega (arith, n) in
    let size = length payload % word in
    ap (λ s. with_size (get32 s)) (append_assoc (put32 size) payload rest)
    ∙ ap with_size (get32-put32 size (payload ++ rest) (omega (arith, m)))
    ∙ sized_read size payload rest (omega (arith, m, n)) (omega (arith, m)) (omega (arith, m))
    ∙ payload_read id kind body rest hi hk hb
