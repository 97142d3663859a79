-- ===== src/State/Grants/Stable.antt =====
-- How the grants follow the list of items as it grows.
use tf2_archipelago.Prelude.{
  ℕ, suc, ◌+◌, ◌≤◌, ◌≡◌, refl, ap, ◌∙◌, Option, none, some, Bool, true, ◌&&◌, List, [], ◌∷◌, ◌++◌,
  arith, leb, ltb, length, subst, nat_beq_iff, nat_eq, ◌==◌,
}
use tf2_archipelago.Prelude.Dict.{value}
use tf2_archipelago.Gamedata.Items.{Item, item_by_id}
use tf2_archipelago.Gamedata.Game.{Game}
use tf2_archipelago.State.Grants.{
  grant_for, Grant, Progress, start, take_item, known_item, granted_at, counted, push, grants_loop,
  grants_from,
}

-- Where the loop stands after some items.
abbrev after : Game → Progress → List ℕ → Progress
after g p [] = p
after g p (id ∷ ids) = after g (take_item g p id).0 ids

-- Every grant has a number past `from` and not past `to`.
abbrev pub seq_between : ℕ → ℕ → List Grant → Bool
seq_between from to [] = true
seq_between from to (x ∷ xs) = (ltb from x.seq && leb x.seq to) && seq_between from to xs

push-append : (o : Option Grant) (xs ys : List Grant) → push o (xs ++ ys) ≡ push o xs ++ ys
push-append none xs ys = refl
push-append (some x) xs ys = refl

grants_loop-append :
    (g : Game) (xs ys : List ℕ) (p : Progress)
    → grants_loop g p (xs ++ ys) ≡ grants_loop g p xs ++ grants_loop g (after g p xs) ys
unfolding grants_loop
grants_loop-append g [] ys p = refl
grants_loop-append g (x ∷ xs) ys p =
    let (p', o) = take_item g p x in
    ap (push o) (grants_loop-append g xs ys p')
    ∙ push-append o (grants_loop g p' xs) (grants_loop g (after g p' xs) ys)

counted_index : (it : Item) (p : Progress) → (counted it it.kind p).index ≡ p.index
unfolding counted
counted_index it p = ground arith

-- The number of the item taken is the number of its grant.
abbrev is_numbered : ℕ → Option Grant → Bool
is_numbered n none = true
is_numbered n (some x) = x.seq == n

abbrev Taken : Progress → Progress × Option Grant → Type 0
Taken p (p', o) = (p'.index ≡ p.index + 1) × (is_numbered (p.index + 1) o ≡ true)

granted_at-Taken : (it : Item) (p : Progress) (o : Option Grant) → Taken p (granted_at it p o)
unfolding granted_at
granted_at-Taken it p none = (refl, refl)
granted_at-Taken it p (some x) =
    (ap (λ n. n + 1) (counted_index it p), (nat_beq_iff (p.index + 1) (p.index + 1)).1 refl)

known_item-Taken : (g : Game) (p : Progress) (o : Option Item) → Taken p (known_item g p o)
unfolding known_item
known_item-Taken g p none = (refl, refl)
known_item-Taken g p (some it) =
    granted_at-Taken it p (grant_for g it p.slots (value it.class_id p.class_slots))

take_item-Taken : (g : Game) (p : Progress) (id : ℕ) → Taken p (take_item g p id)
unfolding take_item
take_item-Taken g p id = known_item-Taken g p (item_by_id g.items id)

seq_between_from :
    (xs : List Grant) (from to : ℕ)
    → seq_between (from + 1) to xs ≡ true
    → seq_between from to xs ≡ true
seq_between_from [] from to h = refl
seq_between_from (x ∷ xs) from to h = ground (arith, seq_between_from xs from to)

the_end : (m n : ℕ) → m + 1 + n ≡ m + suc n
the_end m n = omega arith

zero_plus : (n : ℕ) → 0 + n ≡ n
zero_plus n = omega arith

push-between :
    (o : Option Grant) (from to : ℕ) (xs : List Grant)
    → is_numbered (from + 1) o ≡ true
    → from + 1 ≤ to
    → seq_between (from + 1) to xs ≡ true
    → seq_between from to (push o xs) ≡ true
push-between none from to xs n h b = seq_between_from xs from to b
push-between (some x) from to xs n h b =
    let e : x.seq ≡ from + 1 = (nat_beq_iff x.seq (from + 1)).0 n in
    let w = seq_between_from xs from to b in ground (arith, e, w)

grants_loop-between :
    (g : Game) (ids : List ℕ) (p : Progress)
    → seq_between p.index (p.index + length ids) (grants_loop g p ids) ≡ true
unfolding grants_loop
grants_loop-between g [] p = refl
grants_loop-between g (id ∷ ids) p =
    let (p', o) = take_item g p id in
    let (next, numbered) = take_item-Taken g p id in
    let rest = grants_loop-between g ids p' in
    let rest' : seq_between (p.index + 1) (p.index + length (id ∷ ids)) (grants_loop g p' ids)
        ≡ true =
      subst (λ n. seq_between (p.index + 1) n (grants_loop g p' ids) ≡ true)
        (the_end p.index (length ids))
        (subst (λ n. seq_between n (n + length ids) (grants_loop g p' ids) ≡ true) next rest) in
    push-between o p.index (p.index + length (id ∷ ids)) (grants_loop g p' ids) numbered
      (omega arith) rest'

after_index :
    (g : Game) (ids : List ℕ) (p : Progress) → (after g p ids).index ≡ p.index + length ids
after_index g [] p = omega arith
after_index g (id ∷ ids) p =
    let (next, _) = take_item-Taken g p id in
    omega (arith, next, after_index g ids (take_item g p id).0)

-- Items that come after others leave the grants of those alone; the numbers of those grants are
-- within the items before, and the numbers of the new ones past them and within the whole list.
pub grants_from-append :
    (g : Game) (xs ys : List ℕ)
    → (more : List Grant) × (grants_from g (xs ++ ys) ≡ grants_from g xs ++ more)
      × (seq_between 0 (length xs) (grants_from g xs) ≡ true)
      × (seq_between (length xs) (length xs + length ys) more ≡ true)
unfolding grants_from
grants_from-append g xs ys =
    let p = after g start xs in
    let here : p.index ≡ length xs = omega (arith, after_index g xs start) in
    (
      grants_loop g p ys,
      grants_loop-append g xs ys start,
      subst (λ n. seq_between 0 n (grants_loop g start xs) ≡ true) (zero_plus (length xs))
          (grants_loop-between g xs start),
      subst (λ n. seq_between n (n + length ys) (grants_loop g p ys) ≡ true) here
          (grants_loop-between g ys p),
    )
