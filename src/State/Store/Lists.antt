-- ===== src/State/Store/Lists.antt =====
-- The lists of checks of the store, as its methods extend them and take an extension back.
use tf2_archipelago.Prelude.{
  ℕ, ◌-◌, ◌≡◌, refl, sym, ap, subst, ◌∙◌, inl, inr, Option, Bool, true, false, not, ◌&&◌, ◌||◌,
  List, [], ◌∷◌, ◌++◌, arith, nat_eq, ◌==◌, nat_beq_iff, contains, length, Bool-cases,
}
use tf2_archipelago.Prelude.Laws.{contains-append, take-append_self, length-append}
use tf2_archipelago.State.Snapshot.{elems}
use tf2_archipelago.State.Store.{grow, shrink, grow_played, shrink_played, drop_last}

-- No number stands twice.
abbrev pub is_once : List ℕ → Bool
is_once [] = true
is_once (x ∷ xs) = not (contains xs x) && is_once xs

abbrev pub Within : List ℕ → List ℕ → Type 0
Within xs ys = (id : ℕ) → contains xs id ≡ true → contains ys id ≡ true

-- The lists of checks: each stands once, and what was played was checked.
pub record AreLists (checks played : List ℕ) : Type 0 where
  pub checks_once : is_once checks ≡ true
  pub played_once : is_once played ≡ true
  pub played_checked : Within played checks

pub is_once-append :
    (xs : List ℕ) (a : ℕ)
    → is_once xs ≡ true
    → contains xs a ≡ false
    → is_once (xs ++ (a ∷ [])) ≡ true
is_once-append [] a o c = refl
is_once-append (x ∷ xs) a o c =
    ground
      (arith, is_once-append xs a, contains-append xs (a ∷ []) x, nat_beq_iff x a, nat_beq_iff a x)

drop_last-append : (xs : List ℕ) (a : ℕ) → drop_last (xs ++ (a ∷ [])) ≡ xs
drop_last-append xs a =
    let e : length (xs ++ (a ∷ [])) - 1 ≡ length xs = omega (arith, length-append xs (a ∷ [])) in
    rw e (take-append_self xs (a ∷ []))

-- An append that is taken back leaves the list.
pub shrink-grow : (b : Bool) (xs : List ℕ) (a : ℕ) → shrink b (grow b xs a) ≡ xs
shrink-grow true xs a = refl
shrink-grow false xs a = drop_last-append xs a

pub shrink-grow_played :
    (b : Bool) (xs : Option (List ℕ)) (a : ℕ)
    → elems (shrink_played b (grow_played b xs a)) ≡ elems xs
shrink-grow_played true xs a = refl
shrink-grow_played false xs a = drop_last-append (elems xs) a

grow_once : (xs : List ℕ) (a : ℕ) → is_once xs ≡ true → is_once (grow (contains xs a) xs a) ≡ true
grow_once xs a o = elim (Bool-cases (contains xs a)) [
  | inl e ↦ rw e o
  | inr e ↦ rw e (is_once-append xs a o e)
]

or_false : (b : Bool) → (b || false) ≡ b
or_false true = refl
or_false false = refl

pub contains-grow :
    (xs : List ℕ) (a b : ℕ) → contains (grow (contains xs a) xs a) b ≡ (contains xs b || a == b)
contains-grow xs a b = elim (Bool-cases (contains xs a)) [
  | inl e ↦ rw e (elim (Bool-cases (a == b)) [
    | inl same ↦
        let h : a ≡ b = (nat_beq_iff a b).0 same in
        let c : contains xs b ≡ true = subst (λ z. contains xs z ≡ true) h e in rw c
    | inr other ↦ rw other (sym (or_false (contains xs b)))
  ])
  | inr e ↦ rw e (contains-append xs (a ∷ []) b ∙ ap (λ z. contains xs b || z) (or_false (a == b)))
]

pub elems-grow_played :
    (b : Bool) (xs : Option (List ℕ)) (a : ℕ) → elems (grow_played b xs a) ≡ grow b (elems xs) a
elems-grow_played true xs a = refl
elems-grow_played false xs a = refl

pub AreLists-grow :
    (checks played : List ℕ) (a : ℕ)
    → AreLists checks played
    → AreLists (grow (contains checks a) checks a) (grow (contains played a) played a)
AreLists-grow checks played a h = record {
  checks_once = grow_once checks a h.checks_once;
  played_once = grow_once played a h.played_once;
  played_checked = λ id i.
      ground (arith, contains-grow checks a id, contains-grow played a id, h.played_checked id);
}
