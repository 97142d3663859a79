-- ===== src/Fakeroom/Tickets.antt =====
-- The next mission ticket, brought to the front (`takeNextTicket` of fakeroom/fakeroom.go).
use mathlib.Core.List.{Permᴰ}
use mathlib.Core.List.Permᴰ as Perm
use tf2_archipelago.Prelude.{
  ℕ, zero, suc, ◌≤◌, ◌<◌, ◌≡◌, refl, sym, ap, subst, ◌∙◌, Option, none, some, Bool, true, false,
  List, [], ◌∷◌, ◌++◌, nat_eq, ltb, if◌then◌else◌, length, take, drop, get_elem?, any, arith,
  Bool-cases, inl, inr,
}
use tf2_archipelago.Gamedata.Kinds.{ItemKind, mission_ticket}
use tf2_archipelago.Gamedata.Items.{Item, item_by_id}

abbrev pub is_mission_ticket : ItemKind → Bool
is_mission_ticket mission_ticket = true
is_mission_ticket _ = false

-- Whether an id is a ticket's in the item table.
unfoldable pub is_ticket : List Item → ℕ → Bool
is_ticket table id = elim (item_by_id table id) [
  | none ↦ false
  | some it ↦ is_mission_ticket it.kind
]

after_kept : ℕ → Option (ℕ × List ℕ) → Option (ℕ × List ℕ)
after_kept x none = none
after_kept x (some (ticket, rest)) = some (ticket, x ∷ rest)

-- The loop over what is not handed out yet: the first ticket, and the list without it.
unfoldable pub bring_ticket : List Item → List ℕ → Option (ℕ × List ℕ)
unfolding after_kept
bring_ticket table [] = none
bring_ticket table (x ∷ xs) =
    let rest = bring_ticket table xs in
    if is_ticket table x then some (x, xs) else after_kept x rest

brought : List ℕ → Option (ℕ × List ℕ) → Option (List ℕ × ℕ)
brought front none = none
brought front (some (ticket, rest)) = some (front ++ (ticket ∷ rest), ticket)

-- `takeNextTicket`: the list with the ticket at `next`, and the ticket.
unfoldable pub take_next_ticket : List Item → List ℕ → ℕ → Option (List ℕ × ℕ)
unfolding brought
take_next_ticket table items next =
    if ltb next (length items)
    then brought (take next items) (bring_ticket table (drop next items))
    else none

after_kept-some :
    (x ticket : ℕ) (rest : List ℕ) (o : Option (ℕ × List ℕ))
    → after_kept x o ≡ some (ticket, rest)
    → (tail : List ℕ) × (o ≡ some (ticket, tail)) × (rest ≡ x ∷ tail)
unfolding after_kept
after_kept-some x ticket rest none h = ground arith
after_kept-some x ticket rest (some (t, tail)) h = (tail, ground arith, ground arith)

pub bring_ticket-Permᴰ :
    (table : List Item) (xs : List ℕ) (ticket : ℕ) (rest : List ℕ)
    → bring_ticket table xs ≡ some (ticket, rest)
    → Permᴰ (ticket ∷ rest) xs × (is_ticket table ticket ≡ true)
unfolding bring_ticket
bring_ticket-Permᴰ table [] ticket rest h = ground arith
bring_ticket-Permᴰ table (x ∷ xs) ticket rest h = elim (Bool-cases (is_ticket table x)) [
  | inl e ↦
      let a : x ≡ ticket = ground arith in
      let b : xs ≡ rest = ground arith in
      (Permᴰ.cons (sym a) (rw b (Perm.refl rest)), subst (λ z. is_ticket table z ≡ true) a e)
  | inr e ↦
      let k : after_kept x (bring_ticket table xs) ≡ some (ticket, rest) = ground arith in
      let (tail, f, g) = after_kept-some x ticket rest (bring_ticket table xs) k in
      let (p, q) = bring_ticket-Permᴰ table xs ticket tail f in
      (rw g (Permᴰ.trans (Permᴰ.swap refl refl) (Permᴰ.cons refl p)), q)
]

after_kept-none : (x : ℕ) (o : Option (ℕ × List ℕ)) → after_kept x o ≡ none → o ≡ none
unfolding after_kept
after_kept-none x none h = refl
after_kept-none x (some (t, tail)) h = ground arith

bring_ticket-none :
    (table : List Item) (xs : List ℕ)
    → bring_ticket table xs ≡ none
    → any (is_ticket table) xs ≡ false
unfolding bring_ticket
bring_ticket-none table [] h = refl
bring_ticket-none table (x ∷ xs) h = elim (Bool-cases (is_ticket table x)) [
  | inl e ↦ ground arith
  | inr e ↦
      let k : after_kept x (bring_ticket table xs) ≡ none = ground arith in
      rw e (bring_ticket-none table xs (after_kept-none x (bring_ticket table xs) k))
]

brought-some :
    (front : List ℕ) (o : Option (ℕ × List ℕ)) (items : List ℕ) (ticket : ℕ)
    → brought front o ≡ some (items, ticket)
    → (rest : List ℕ) × (o ≡ some (ticket, rest)) × (items ≡ front ++ (ticket ∷ rest))
unfolding brought
brought-some front none items ticket h = ground arith
brought-some front (some (t, rest)) items ticket h =
    let same : t ≡ ticket = ground arith in (rest, rw same refl, sym (rw (← same) (ground arith)))

brought-none : (front : List ℕ) (o : Option (ℕ × List ℕ)) → brought front o ≡ none → o ≡ none
unfolding brought
brought-none front none h = refl
brought-none front (some (t, rest)) h = ground arith

get-append_front :
    (n : ℕ) (xs ys : List ℕ) (a : ℕ) → n < length xs → get_elem? (take n xs ++ (a ∷ ys)) n ≡ some a
get-append_front n [] ys a h = ground arith
get-append_front zero (x ∷ xs) ys a h = refl
get-append_front (suc n) (x ∷ xs) ys a h = get-append_front n xs ys a (omega arith)

take-append_front : (n : ℕ) (xs ys : List ℕ) → n < length xs → take n (take n xs ++ ys) ≡ take n xs
take-append_front n [] ys h = ground arith
take-append_front zero (x ∷ xs) ys h = refl
take-append_front (suc n) (x ∷ xs) ys h = ap (λ z. x ∷ z) (take-append_front n xs ys (omega arith))

drop_past : (n : ℕ) (xs : List ℕ) → length xs ≤ n → drop n xs ≡ []
drop_past zero [] h = refl
drop_past zero (x ∷ xs) h = ground arith
drop_past (suc n) [] h = refl
drop_past (suc n) (x ∷ xs) h = drop_past n xs (omega arith)

take-drop : (n : ℕ) (xs : List ℕ) → take n xs ++ drop n xs ≡ xs
take-drop zero xs = refl
take-drop (suc n) [] = refl
take-drop (suc n) (x ∷ xs) = ap (λ z. x ∷ z) (take-drop n xs)

-- A ticket that is found is one, and stands where the next item is handed out from; what was
-- handed out before stands as it was, and the list holds the same items as it did, with the same
-- copies.
pub take_next_ticket-Permᴰ :
    (table : List Item) (items items' : List ℕ) (next ticket : ℕ)
    → take_next_ticket table items next ≡ some (items', ticket)
    → Permᴰ items' items
      × (take next items' ≡ take next items)
      × (get_elem? items' next ≡ some ticket)
      × (is_ticket table ticket ≡ true)
unfolding take_next_ticket
take_next_ticket-Permᴰ table items items' next ticket h =
    elim (Bool-cases (ltb next (length items))) [
      | inr e ↦ ground arith
      | inl e ↦
          let k : brought (take next items) (bring_ticket table (drop next items))
              ≡ some (items', ticket) =
            ground arith in
          let (rest, f, g) =
            brought-some (take next items) (bring_ticket table (drop next items)) items' ticket k in
          let (p, q) = bring_ticket-Permᴰ table (drop next items) ticket rest f in
          let l : next < length items = ground arith in
          (
            rw g (
                subst (λ z. Permᴰ (take next items ++ (ticket ∷ rest)) z) (take-drop next items)
                  (Perm.append_left (take next items) p)),
            ap (take next) g ∙ take-append_front next items (ticket ∷ rest) l,
            ap (λ z. get_elem? z next) g ∙ get-append_front next items rest ticket l,
            q,
          )
    ]

-- None is found only when no ticket is left to hand out.
pub take_next_ticket-none :
    (table : List Item) (items : List ℕ) (next : ℕ)
    → take_next_ticket table items next ≡ none
    → any (is_ticket table) (drop next items) ≡ false
unfolding take_next_ticket
take_next_ticket-none table items next h = elim (Bool-cases (ltb next (length items))) [
  | inr e ↦ rw (drop_past next items (ground arith)) refl
  | inl e ↦
      let k : brought (take next items) (bring_ticket table (drop next items)) ≡ none =
        ground arith in
      bring_ticket-none table (drop next items)
        (brought-none (take next items) (bring_ticket table (drop next items)) k)
]
