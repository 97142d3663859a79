-- ===== src/Session/Names/Order.antt =====
-- The order in which a map of games is walked does not show in a name.
use mathlib.Core.List.{Permᴰ}
use tf2_archipelago.Prelude.{
  ℕ, ◌≡◌, refl, ap, ◌∙◌, none, some, not, ◌∷◌, String, string_eq, ◌==◌, if◌then◌else◌, arith,
}
use tf2_archipelago.Prelude.Dict.{Dict, lookup}
use tf2_archipelago.Session.Names.{NameBook, agree, name_at, or_number, own_name, lookup_name}

agree-swap :
    (id : ℕ) (found : String) (a b : String × Dict ℕ String) (rest : Dict String (Dict ℕ String))
    → agree id found (a ∷ b ∷ rest) ≡ agree id found (b ∷ a ∷ rest)
unfolding agree
agree-swap id found (g, x) (h, y) rest = ground (
  arith,
  string_eq.beq_iff (name_at id x) "",
  string_eq.beq_iff (name_at id y) "",
  string_eq.beq_iff found "",
  string_eq.beq_iff found (name_at id x),
  string_eq.beq_iff found (name_at id y),
  string_eq.beq_iff (name_at id x) (name_at id y),
  string_eq.beq_iff (name_at id y) (name_at id x),
)

cons-agree :
    (id : ℕ) (found : String) (a : String × Dict ℕ String) (xs ys : Dict String (Dict ℕ String))
    → agree id found xs ≡ agree id found ys
    → agree id (name_at id a.1) xs ≡ agree id (name_at id a.1) ys
    → agree id found (a ∷ xs) ≡ agree id found (a ∷ ys)
unfolding agree
cons-agree id found (g, x) xs ys h k = rw (h, k) refl

agree-Permᴰ :
    (id : ℕ) (found : String) {from from' : Dict String (Dict ℕ String)}
    → Permᴰ from from'
    → agree id found from ≡ agree id found from'
unfolding agree
agree-Permᴰ id found Permᴰ.nil = refl
agree-Permᴰ id found (Permᴰ.cons {a = a} {l₁ = l₁} {l₂ = l₂} e p) =
    rw (← e)
      (cons-agree id found a l₁ l₂ (agree-Permᴰ id found p) (agree-Permᴰ id (name_at id a.1) p))
agree-Permᴰ id found (Permᴰ.swap {a = a} {b = b} {l = l} e f) =
    rw (← e, ← f) (agree-swap id found a b l)
agree-Permᴰ id found (Permᴰ.trans p q) = agree-Permᴰ id found p ∙ agree-Permᴰ id found q

-- A name does not depend on the order in which a map of games is walked.
pub lookup_name_order :
    (book : NameBook) (from from' : Dict String (Dict ℕ String)) (id slot : ℕ)
    → Permᴰ from from'
    → ((game : String) → lookup game from ≡ lookup game from')
    → lookup_name book from id slot ≡ lookup_name book from' id slot
unfolding lookup_name
lookup_name_order book from from' id slot p same =
    let own : own_name from (name_at slot book.games) id
        ≡ own_name from' (name_at slot book.games) id =
      ap (λ o. elim o as (λ _. String) [ none ↦ "" | some by_id ↦ name_at id by_id ])
        (same (name_at slot book.games)) in
    let walked = agree-Permᴰ id "" p in
    ap (λ n. if not (n == "") then n else or_number id (agree id "" from)) own
    ∙ ap
        (λ o.
          if not (own_name from' (name_at slot book.games) id == "")
          then own_name from' (name_at slot book.games) id
          else or_number id o)
        walked
