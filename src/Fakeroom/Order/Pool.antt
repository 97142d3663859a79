-- ===== src/Fakeroom/Order/Pool.antt =====
-- What `unlockOrder` hands out: of each item of the pool, the copies that the start does not hold.
use mathlib.Core.List.{Permᴰ}
use tf2_archipelago.Prelude.{
  ℕ, zero, suc, ◌+◌, ◌-◌, ◌<◌, ◌≡◌, refl, ap, subst, ◌∙◌, some, Bool, true, false, List, [], ◌∷◌,
  ◌++◌, String, nat_eq, ◌==◌, ltb, if◌then◌else◌, arith, Bool-cases, inl, inr,
}
use tf2_archipelago.Prelude.Dict.{Dict, insert, value, lookup-insert}
use tf2_archipelago.Gamedata.Kinds.{
  ItemKind, mission_ticket, class_item, weapon_slot, credits, weapon_buff, trap, server_setting,
  trophy, class_weapon_slot, bot_card,
}
use tf2_archipelago.Gamedata.Tables.{Tables}
use tf2_archipelago.Gamedata.Items.{Item}
use tf2_archipelago.Gamedata.Game.{Game}
use tf2_archipelago.Fakeroom.Order.{
  Piles, is_dealt, pile, deal_one, deal_copies, copies_of, deal_all, count_held, piles, trap_keys,
  in_order, unlock_order, promote_traps,
}
use tf2_archipelago.Fakeroom.Order.Kept.{promote_buffs-Permᴰ, promote_traps-Permᴰ}

-- How often an id stands in a list.
abbrev pub copies : ℕ → List ℕ → ℕ
copies id [] = 0
copies id (x ∷ xs) = (if x == id then 1 else 0) + copies id xs

-- How many copies of an id the pool of a seed holds.
abbrev pub pooled : Tables → List String → List Item → ℕ → ℕ
pooled t keys [] id = 0
pooled t keys (it ∷ its) id =
    (if is_dealt t keys it then (if it.id == id then copies_of it else 0) else 0)
    + pooled t keys its id

copies-append : (id : ℕ) (xs ys : List ℕ) → copies id (xs ++ ys) ≡ copies id xs + copies id ys
copies-append id [] ys = omega arith
copies-append id (x ∷ xs) ys = omega (arith, copies-append id xs ys)

copies-Permᴰ : (id : ℕ) {xs ys : List ℕ} → Permᴰ xs ys → copies id xs ≡ copies id ys
copies-Permᴰ id Permᴰ.nil = refl
copies-Permᴰ id (Permᴰ.cons e p) = rw (e, copies-Permᴰ id p) refl
copies-Permᴰ id (Permᴰ.swap e f) = rw (e, f) (omega arith)
copies-Permᴰ id (Permᴰ.trans p q) = copies-Permᴰ id p ∙ copies-Permᴰ id q

abbrev dealt : ℕ → Piles → ℕ
dealt id p = copies id p.class_pile + copies id p.slot_pile + copies id p.rest

pile_one :
    (kind : ItemKind) (x id : ℕ) (p : Piles)
    → (dealt id (pile kind x p) ≡ dealt id p + (if x == id then 1 else 0))
      × ((pile kind x p).taken ≡ p.taken)
unfolding pile
pile_one class_item x id p = (omega (arith, copies-append id p.class_pile (x ∷ [])), refl)
pile_one weapon_slot x id p = (omega (arith, copies-append id p.slot_pile (x ∷ [])), refl)
pile_one mission_ticket x id p = (omega (arith, copies-append id p.rest (x ∷ [])), refl)
pile_one credits x id p = (omega (arith, copies-append id p.rest (x ∷ [])), refl)
pile_one weapon_buff x id p = (omega (arith, copies-append id p.rest (x ∷ [])), refl)
pile_one trap x id p = (omega (arith, copies-append id p.rest (x ∷ [])), refl)
pile_one server_setting x id p = (omega (arith, copies-append id p.rest (x ∷ [])), refl)
pile_one trophy x id p = (omega (arith, copies-append id p.rest (x ∷ [])), refl)
pile_one class_weapon_slot x id p = (omega (arith, copies-append id p.rest (x ∷ [])), refl)
pile_one bot_card x id p = (omega (arith, copies-append id p.rest (x ∷ [])), refl)

value-insert :
    (k j v : ℕ) (m : Dict ℕ ℕ) → value j (insert k v m) ≡ (if k == j then v else value j m)
value-insert k j v m = ground (arith, lookup-insert k j v m)

abbrev one_of : Item → ℕ → ℕ → ℕ
one_of it id n = if it.id == id then n else 0

-- What `n` copies of an item do to an id's share: the copies that are held are crossed off first.
Dealt : ℕ → ℕ → Piles → Piles → Type 0
Dealt id n p q =
    (dealt id q ≡ dealt id p + (n - value id p.taken)) × (value id q.taken ≡ value id p.taken - n)

deal_one-Dealt : (it : Item) (id : ℕ) (p : Piles) → Dealt id (one_of it id 1) p (deal_one it p)
unfolding Dealt deal_one
deal_one-Dealt it id p =
    let (a, b) = pile_one it.kind it.id id p in
    let c = value-insert it.id id (value it.id p.taken - 1) p.taken in
    let b' : value id (pile it.kind it.id p).taken ≡ value id p.taken = ap (value id) b in
    elim (Bool-cases (ltb 0 (value it.id p.taken))) [
      | inl held ↦ elim (Bool-cases (it.id == id)) [
        | inl e ↦
            let same : it.id ≡ id = ground arith in
            let v : value it.id p.taken ≡ value id p.taken = ap (λ k. value k p.taken) same in
            let some_held : 0 < value it.id p.taken = ground arith in
            rw (held, e) (omega (arith, v, some_held), ground (arith, c, v, e))
        | inr e ↦ rw (held, e) (omega arith, ground (arith, c, e))
      ]
      | inr free ↦ elim (Bool-cases (it.id == id)) [
        | inl e ↦
            let same : it.id ≡ id = ground arith in
            let v : value it.id p.taken ≡ value id p.taken = ap (λ k. value k p.taken) same in
            let none_held : value it.id p.taken ≡ 0 = ground arith in
            rw (free, e) (ground (arith, a, e, v, none_held), omega (arith, b', v, none_held))
        | inr e ↦ rw (free, e) (ground (arith, a, e), omega (arith, b'))
      ]
    ]

Dealt-trans : (id m n : ℕ) (p q r : Piles) → Dealt id m p q → Dealt id n q r → Dealt id (m + n) p r
unfolding Dealt
Dealt-trans id m n p q r (a, b) (c, d) = (omega (arith, a, b, c, d), omega (arith, b, d))

Dealt-none : (id : ℕ) (p : Piles) → Dealt id 0 p p
unfolding Dealt
Dealt-none id p = (omega arith, omega arith)

deal_copies-Dealt :
    (it : Item) (n id : ℕ) (p : Piles) → Dealt id (one_of it id n) p (deal_copies it n p)
unfolding deal_copies
deal_copies-Dealt it zero id p =
    let e : 0 ≡ one_of it id 0 = ground arith in subst (λ k. Dealt id k p p) e (Dealt-none id p)
deal_copies-Dealt it (suc n) id p =
    let e : one_of it id 1 + one_of it id n ≡ one_of it id (suc n) = ground arith in
    subst (λ k. Dealt id k p (deal_copies it (suc n) p)) e
      (Dealt-trans id (one_of it id 1) (one_of it id n) p (deal_one it p)
        (deal_copies it n (deal_one it p)) (deal_one-Dealt it id p)
        (deal_copies-Dealt it n id (deal_one it p)))

deal_item-Dealt :
    (b : Bool) (it : Item) (id : ℕ) (p : Piles)
    → Dealt id
        (if b then one_of it id (copies_of it) else 0)
        p
        (if b then deal_copies it (copies_of it) p else p)
deal_item-Dealt true it id p = deal_copies-Dealt it (copies_of it) id p
deal_item-Dealt false it id p = Dealt-none id p

deal_all-Dealt :
    (t : Tables) (keys : List String) (items : List Item) (id : ℕ) (p : Piles)
    → Dealt id (pooled t keys items id) p (deal_all t keys items p)
unfolding deal_all
deal_all-Dealt t keys [] id p = Dealt-none id p
deal_all-Dealt t keys (it ∷ its) id p =
    let here = deal_item-Dealt (is_dealt t keys it) it id p in
    let q : Piles = if is_dealt t keys it then deal_copies it (copies_of it) p else p in
    Dealt-trans id (if is_dealt t keys it then one_of it id (copies_of it) else 0)
      (pooled t keys its id) p q (deal_all t keys its q) here (deal_all-Dealt t keys its id q)

value-count_held :
    (ids : List ℕ) (d : Dict ℕ ℕ) (id : ℕ)
    → value id (count_held ids d) ≡ value id d + copies id ids
unfolding count_held
value-count_held [] d id = omega arith
value-count_held (x ∷ xs) d id =
    let on = value-count_held xs (insert x (value x d + 1) d) id in
    let here = value-insert x id (value x d + 1) d in
    elim (Bool-cases (x == id)) [
      | inl e ↦
          let same : value x d ≡ value id d = ap (λ k. value k d) (ground arith) in
          ground (arith, on, here, e, same)
      | inr e ↦ ground (arith, on, here, e)
    ]

piles-copies :
    (g : Game) (held : List ℕ) (keys : List String) (id : ℕ)
    → dealt id (piles g held keys) ≡ pooled g.tables (trap_keys keys) g.items id - copies id held
unfolding piles Dealt
piles-copies g held keys id =
    let start : Piles = record {
      class_pile = [];
      slot_pile = [];
      rest = [];
      taken = count_held held [];
    } in
    let (a, b) = deal_all-Dealt g.tables (trap_keys keys) g.items id start in
    let none_yet = value-count_held held [] id in omega (arith, a, none_yet)

-- `unlockOrder` always finds an order, and it holds of each item the copies that the pool has, less
-- those that the start holds already.
pub unlock_order-copies :
    (g : Game) (held : List ℕ) (keys : List String)
    → (l : List ℕ) × (unlock_order g held keys ≡ some l)
      × ((id : ℕ) → copies id l ≡ pooled g.tables (trap_keys keys) g.items id - copies id held)
unfolding unlock_order in_order
unlock_order-copies g held keys =
    let p = piles g held keys in
    let (rest, e, q) = promote_buffs-Permᴰ g.items p.rest in
    (
      (p.class_pile ++ p.slot_pile) ++ promote_traps g.items rest,
      ap (in_order g.items p) e,
      λ id.
          let tail = copies-Permᴰ id (promote_traps-Permᴰ g.items rest) ∙ copies-Permᴰ id q in
          let whole = copies-append id (p.class_pile ++ p.slot_pile) (promote_traps g.items rest) in
          let front = copies-append id p.class_pile p.slot_pile in
          let shares = piles-copies g held keys id in omega (arith, tail, whole, front, shares),
    )
