-- ===== src/Lines/Whole.antt =====
-- How the output was cut into writes does not show in its lines.
use mathlib.Core.List.{append_assoc, append-nil}
use tf2_archipelago.Prelude.{
  ℕ, zero, suc, ◌<◌, ◌≡◌, refl, sym, ap, ◌∙◌, none, some, false, List, [], ◌∷◌, ◌++◌, nat_eq, ◌==◌,
  if◌then◌else◌, length, arith, Bool-cases, Option-cases, inl, inr,
}
use tf2_archipelago.Lines.{
  Writer, is_blank_line, trim_returns, cut_line, first_line, drain, shown, write_bytes,
}

abbrev one_more : ℕ → List (List ℕ) × List ℕ → List (List ℕ) × List ℕ
one_more b ([], rest) = ([], b ∷ rest)
one_more b (line ∷ lines, rest) = ((b ∷ line) ∷ lines, rest)

-- The lines of a text, and what stands behind the last newline.
unfoldable pub lines_of : List ℕ → List (List ℕ) × List ℕ
lines_of [] = ([], [])
lines_of (b ∷ bs) =
    let rest = lines_of bs in if b == 10 then first_line [] rest else one_more b rest

-- The writes one after the other.
abbrev pub write_all : List (List ℕ) → Writer → Writer
write_all [] w = w
write_all (p ∷ ps) w = write_all ps (write_bytes p w)

abbrev pub joined : List (List ℕ) → List ℕ
joined [] = []
joined (p ∷ ps) = p ++ joined ps

cut_line-none : (bs : List ℕ) → cut_line bs ≡ none → lines_of bs ≡ ([], bs)
unfolding cut_line lines_of
cut_line-none [] h = refl
cut_line-none (b ∷ bs) h = elim (Bool-cases (b == 10)) [
  | inl e ↦ ground arith
  | inr e ↦ elim (Option-cases (cut_line bs)) [
    | inl n ↦ rw (lines_of, e) (ap (one_more b) (cut_line-none bs n))
    | inr (p, f) ↦ ground arith
  ]
]

cut_line-some :
    (bs line rest : List ℕ)
    → cut_line bs ≡ some (line, rest)
    → (lines_of bs ≡ first_line line (lines_of rest)) × (length rest < length bs)
unfolding cut_line lines_of
cut_line-some [] line rest h = ground arith
cut_line-some (b ∷ bs) line rest h = elim (Bool-cases (b == 10)) [
  | inl e ↦
      let a : [] ≡ line = ground arith in
      let c : bs ≡ rest = ground arith in
      (
        rw (lines_of, e)
            (ap (λ z. first_line z (lines_of bs)) a ∙ ap (λ z. first_line line (lines_of z)) c),
        omega (arith, ap length c),
      )
  | inr e ↦ elim (Option-cases (cut_line bs)) [
    | inl n ↦ ground arith
    | inr ((l, r), f) ↦
        let a : b ∷ l ≡ line = ground arith in
        let c : r ≡ rest = ground arith in
        let (g, s) = cut_line-some bs l r f in
        (
          rw (lines_of, e)
              (ap (one_more b) g
                ∙ ap (λ z. first_line z (lines_of r)) a
                ∙ ap (λ z. first_line line (lines_of z)) c),
          omega (arith, s, ap length c),
        )
  ]
]

-- A round for each byte is enough.
drain-lines_of : (fuel : ℕ) (bs : List ℕ) → length bs < fuel → drain fuel bs ≡ lines_of bs
unfolding drain
drain-lines_of zero bs h = ground arith
drain-lines_of (suc fuel) bs h = elim (Option-cases (cut_line bs)) [
  | inl n ↦ rw (drain, n) (sym (cut_line-none bs n))
  | inr ((line, rest), f) ↦
      let (g, s) = cut_line-some bs line rest f in
      rw (drain, f) (ap (first_line line) (drain-lines_of fuel rest (omega arith)) ∙ sym g)
]

abbrev behind : List (List ℕ) → List (List ℕ) × List ℕ → List (List ℕ) × List ℕ
behind lines (more, rest) = (lines ++ more, rest)

one_more-behind :
    (b : ℕ) (lines : List (List ℕ)) (rest ys : List ℕ)
    → (b == 10) ≡ false
    → one_more b (behind lines (lines_of (rest ++ ys)))
      ≡ behind (one_more b (lines, rest)).0 (lines_of ((one_more b (lines, rest)).1 ++ ys))
unfolding lines_of
one_more-behind b [] rest ys e = rw (lines_of, e) refl
one_more-behind b (line ∷ lines) rest ys e = refl

lines_of-append :
    (xs ys : List ℕ)
    → lines_of (xs ++ ys) ≡ behind (lines_of xs).0 (lines_of ((lines_of xs).1 ++ ys))
unfolding lines_of
lines_of-append [] ys = refl
lines_of-append (b ∷ bs) ys = elim (Bool-cases (b == 10)) [
  | inl e ↦ rw (lines_of, e) (ap (first_line []) (lines_of-append bs ys))
  | inr e ↦
      rw (lines_of, e)
        (ap (one_more b) (lines_of-append bs ys)
          ∙ one_more-behind b (lines_of bs).0 (lines_of bs).1 ys e)
]

shown-append : (xs ys : List (List ℕ)) → shown (xs ++ ys) ≡ shown xs ++ shown ys
unfolding shown
shown-append [] ys = refl
shown-append (x ∷ xs) ys = elim (Bool-cases (is_blank_line (trim_returns x))) [
  | inl e ↦ rw (shown, e) (shown-append xs ys)
  | inr e ↦ rw (shown, e) (ap (λ z. trim_returns x ∷ z) (shown-append xs ys))
]

write_bytes-lines_of :
    (p : List ℕ) (w : Writer)
    → write_bytes p w ≡ record {
      buffer = (lines_of (w.buffer ++ p)).1;
      sunk = w.sunk ++ shown (lines_of (w.buffer ++ p)).0;
    }
unfolding write_bytes
write_bytes-lines_of p w =
    ap (λ q. record w { buffer = q.1; sunk = w.sunk ++ shown q.0 })
      (drain-lines_of (suc (length (w.buffer ++ p))) (w.buffer ++ p) (omega arith))

one_more-whole :
    (b : ℕ) (lines : List (List ℕ)) (rest : List ℕ)
    → (b == 10) ≡ false
    → lines_of rest ≡ ([], rest)
    → lines_of (one_more b (lines, rest)).1 ≡ ([], (one_more b (lines, rest)).1)
unfolding lines_of
one_more-whole b [] rest e h = rw (lines_of, e) (ap (one_more b) h)
one_more-whole b (line ∷ lines) rest e h = h

-- What stands behind the last newline has none.
rest_whole : (xs : List ℕ) → lines_of (lines_of xs).1 ≡ ([], (lines_of xs).1)
unfolding lines_of
rest_whole [] = refl
rest_whole (b ∷ bs) = elim (Bool-cases (b == 10)) [
  | inl e ↦ rw (lines_of, e) (rest_whole bs)
  | inr e ↦ rw (lines_of, e) (one_more-whole b (lines_of bs).0 (lines_of bs).1 e (rest_whole bs))
]

-- A writer that was given its lines already takes what the sink gets next.
abbrev sunk_with : List (List ℕ) → List (List ℕ) × List ℕ → Writer
sunk_with sunk q = record { buffer = q.1; sunk = sunk ++ shown q.0 }

sunk_with-behind :
    (sunk lines : List (List ℕ)) (q : List (List ℕ) × List ℕ)
    → sunk_with (sunk ++ shown lines) q ≡ sunk_with sunk (behind lines q)
sunk_with-behind sunk lines q =
    ap (λ z. record { buffer = q.1; sunk = z })
      (append_assoc sunk (shown lines) (shown q.0)
        ∙ ap (λ z. sunk ++ z) (sym (shown-append lines q.0)))

-- However a process's output is cut into writes, the loop of each ends with its lines all taken. The
-- sink has been given the lines of the whole output, trimmed and without the blank ones, and what
-- stands behind the last newline is held back, where the writer held no newline at the start.
pub write_all_whole :
    (ps : List (List ℕ)) (w : Writer)
    → lines_of w.buffer ≡ ([], w.buffer)
    → write_all ps w ≡ record {
      buffer = (lines_of (w.buffer ++ joined ps)).1;
      sunk = w.sunk ++ shown (lines_of (w.buffer ++ joined ps)).0;
    }
unfolding shown
write_all_whole [] w h =
    ap (λ z. record { buffer = w.buffer; sunk = z }) (sym (append-nil w.sunk))
    ∙ ap (sunk_with w.sunk) (sym (ap lines_of (append-nil w.buffer) ∙ h))
write_all_whole (p ∷ ps) w h =
    let got = lines_of (w.buffer ++ p) in
    ap (write_all ps) (write_bytes-lines_of p w)
    ∙ write_all_whole ps (sunk_with w.sunk got) (rest_whole (w.buffer ++ p))
    ∙ sunk_with-behind w.sunk got.0 (lines_of (got.1 ++ joined ps))
    ∙ ap (sunk_with w.sunk) (
        sym (
          ap lines_of (sym (append_assoc w.buffer p (joined ps)))
          ∙ lines_of-append (w.buffer ++ p) (joined ps)))
