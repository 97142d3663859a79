-- ===== src/Fakeroom/Order/Kept.antt =====
-- `promoteBuffs` and `promoteTraps` hand out what they were given, each copy once.
use mathlib.Core.List.{Permᴰ, append-nil}
use mathlib.Core.List.Permᴰ as Perm
use tf2_archipelago.Prelude.{
  ℕ, suc, ◌+◌, ◌-◌, ◌*◌, ◌/◌, ◌≤◌, ◌<◌, ◌≡◌, refl, sym, ap, subst, ◌∙◌, Option, some, Bool, true,
  false, ◌&&◌, List, [], ◌∷◌, ◌++◌, nat_eq, ◌==◌, ltb, leb, length, contains, get_elem?, arith,
  Bool-cases, inl, inr,
}
use tf2_archipelago.Gamedata.Items.{Item}
use tf2_archipelago.Fakeroom.Order.{
  parted, promote_traps, is_trap, is_buff, strides, at_all, left_out, spread, spread_buffs,
  promote_buffs, buffs_up_front, chosen,
}

parted-Permᴰ : (p : ℕ → Bool) (xs : List ℕ) → Permᴰ ((parted p xs).0 ++ (parted p xs).1) xs
unfolding parted
parted-Permᴰ p [] = Permᴰ.nil
parted-Permᴰ p (x ∷ xs) = elim (Bool-cases (p x)) [
  | inl e ↦ rw e (Permᴰ.cons refl (parted-Permᴰ p xs))
  | inr e ↦ rw e (
      Permᴰ.trans (Perm.middle x (parted p xs).0 (parted p xs).1)
        (Permᴰ.cons refl (parted-Permᴰ p xs)))
]

-- Traps brought to the front are the traps that were there, and the rest is the rest.
pub promote_traps-Permᴰ : (table : List Item) (xs : List ℕ) → Permᴰ (promote_traps table xs) xs
unfolding promote_traps
promote_traps-Permᴰ table xs = parted-Permᴰ (is_trap table) xs

-- Positions that rise, the first of them no less than `at`.
abbrev ascends : ℕ → List ℕ → Bool
ascends at [] = true
ascends at (p ∷ ps) = leb at p && ascends (p + 1) ps

abbrev below : ℕ → List ℕ → Bool
below end [] = true
below end (p ∷ ps) = ltb p end && below end ps

-- `at_all` for a list whose first element has the position `at`.
at_from : ℕ → List ℕ → List ℕ → Option (List ℕ)
at_from at xs [] = some []
at_from at xs (p ∷ ps) = chosen (get_elem? xs (p - at)) (at_from at xs ps)

at_from-zero : (xs ps : List ℕ) → at_from 0 xs ps ≡ at_all xs ps
unfolding at_from at_all
at_from-zero xs [] = refl
at_from-zero xs (p ∷ ps) =
    let e : p - 0 ≡ p = omega arith in
    ap (λ i. chosen (get_elem? xs i) (at_from 0 xs ps)) e
    ∙ ap (chosen (get_elem? xs p)) (at_from-zero xs ps)

ascends_weaken : (a b : ℕ) (ps : List ℕ) → a ≤ b → ascends b ps ≡ true → ascends a ps ≡ true
ascends_weaken a b [] l h = refl
ascends_weaken a b (p ∷ ps) l h = ground arith

at_from_tail :
    (at x : ℕ) (xs ps : List ℕ)
    → ascends (at + 1) ps ≡ true
    → at_from at (x ∷ xs) ps ≡ at_from (at + 1) xs ps
unfolding at_from
at_from_tail at x xs [] h = refl
at_from_tail at x xs (p ∷ ps) h =
    let l : at + 1 ≤ p = ground arith in
    let e : p - at ≡ suc (p - (at + 1)) = omega arith in
    let on : ascends (at + 1) ps ≡ true =
      ascends_weaken (at + 1) (p + 1) ps (omega arith) (ground arith) in
    ap (λ i. chosen (get_elem? (x ∷ xs) i) (at_from at (x ∷ xs) ps)) e
    ∙ ap (chosen (get_elem? xs (p - (at + 1)))) (at_from_tail at x xs ps on)

contains-ascends : (at : ℕ) (ps : List ℕ) → ascends (at + 1) ps ≡ true → contains ps at ≡ false
contains-ascends at [] h = refl
contains-ascends at (p ∷ ps) h =
    let on : ascends (at + 1) ps ≡ true =
      ascends_weaken (at + 1) (p + 1) ps (ground arith) (ground arith) in
    ground (arith, contains-ascends at ps on)

left_out_past : (p at : ℕ) (ps xs : List ℕ) → p < at → left_out (p ∷ ps) at xs ≡ left_out ps at xs
unfolding left_out
left_out_past p at ps [] l = refl
left_out_past p at ps (x ∷ xs) l =
    let e : (p == at) ≡ false = ground arith in
    rw (e, left_out_past p (at + 1) ps xs (omega arith)) refl

left_out-nil : (at : ℕ) (xs : List ℕ) → left_out [] at xs ≡ xs
unfolding left_out
left_out-nil at [] = refl
left_out-nil at (x ∷ xs) = ap (λ z. x ∷ z) (left_out-nil (at + 1) xs)

shift : (at x : ℕ) (xs : List ℕ) → at + length (x ∷ xs) ≡ at + 1 + length xs
shift at x xs = omega arith

-- What stands at rising positions, and what is left out, are together the list.
picked :
    (at : ℕ) (ps xs : List ℕ)
    → ascends at ps ≡ true
    → below (at + length xs) ps ≡ true
    → (front : List ℕ) × (at_from at xs ps ≡ some front) × Permᴰ (front ++ left_out ps at xs) xs
unfolding at_from left_out
picked at [] xs h b = ([], refl, rw (left_out-nil at xs) (Perm.refl xs))
picked at (p ∷ ps) [] h b = ground arith
picked at (p ∷ ps) (x ∷ xs) h b = elim (Bool-cases (p == at)) [
  | inl e ↦
      let same : p ≡ at = ground arith in
      let up : ascends (at + 1) ps ≡ true = ground arith in
      let within : below (at + 1 + length xs) ps ≡ true =
        subst (λ n. below n ps ≡ true) (shift at x xs) (ground arith) in
      let (front, f, q) = picked (at + 1) ps xs up within in
      let zero_off : p - at ≡ 0 = omega arith in
      (
        x ∷ front,
        ap (λ i. chosen (get_elem? (x ∷ xs) i) (at_from at (x ∷ xs) ps)) zero_off
            ∙ ap (chosen (some x)) (at_from_tail at x xs ps up ∙ f),
        rw (e, left_out_past p (at + 1) ps xs (omega arith)) (Permᴰ.cons refl q),
      )
  | inr e ↦
      let l : at + 1 ≤ p = ground arith in
      let up : ascends (at + 1) (p ∷ ps) ≡ true = ground arith in
      let within : below (at + 1 + length xs) (p ∷ ps) ≡ true =
        subst (λ n. below n (p ∷ ps) ≡ true) (shift at x xs) b in
      let (front, f, q) = picked (at + 1) (p ∷ ps) xs up within in
      (
        front,
        at_from_tail at x xs (p ∷ ps) up ∙ f,
        rw (contains-ascends at (p ∷ ps) up)
            (Permᴰ.trans (Perm.middle x front (left_out (p ∷ ps) (at + 1) xs)) (Permᴰ.cons refl q)),
      )
]

append_swap : (xs ys zs : List ℕ) → Permᴰ (xs ++ (ys ++ zs)) (ys ++ (xs ++ zs))
append_swap [] ys zs = Perm.refl (ys ++ zs)
append_swap (x ∷ xs) ys zs =
    Permᴰ.trans (Permᴰ.cons refl (append_swap xs ys zs)) (Perm.symm (Perm.middle x ys (xs ++ zs)))

eighth_ascends : (s : ℕ) → 1 ≤ s → ascends 0 (strides s 0 8) ≡ true
unfolding strides
eighth_ascends s h = ground arith

eighth_below : (s n : ℕ) → 8 * s ≤ n → 1 ≤ s → below (0 + n) (strides s 0 8) ≡ true
unfolding strides
eighth_below s n h k = ground arith

-- The buffs that come first are read within the list, and none is handed out twice or left out.
pub spread_buffs-Permᴰ :
    (buffs others : List ℕ)
    → (l : List ℕ) × (spread_buffs buffs others ≡ some l) × Permᴰ l (others ++ buffs)
unfolding spread_buffs spread
spread_buffs-Permᴰ buffs others = elim (Bool-cases (leb (length buffs) buffs_up_front)) [
  | inl e ↦ (others ++ buffs, rw e refl, Perm.refl (others ++ buffs))
  | inr e ↦
      let s : ℕ = length buffs / buffs_up_front in
      let many : 8 < length buffs = ground arith in
      let one : 1 ≤ s = omega arith in
      let most : 8 * s ≤ length buffs = omega arith in
      let (front, f, q) =
        picked 0 (strides s 0 8) buffs (eighth_ascends s one)
          (eighth_below s (length buffs) most one) in
      let g : at_all buffs (strides s 0 8) ≡ some front =
        sym (at_from-zero buffs (strides s 0 8)) ∙ f in
      (
        front ++ (others ++ left_out (strides s 0 8) 0 buffs),
        rw (e, g) refl,
        Permᴰ.trans (append_swap front others (left_out (strides s 0 8) 0 buffs))
            (Perm.append_left others q),
      )
]

swap_parts : (xs ys : List ℕ) → Permᴰ (ys ++ xs) (xs ++ ys)
swap_parts xs ys =
    let e : xs ++ [] ≡ xs = append-nil xs in
    subst (λ z. Permᴰ (ys ++ z) (xs ++ ys)) e
      (Permᴰ.trans (append_swap ys xs []) (Perm.append_left xs (Perm.append-nil ys)))

-- Whatever is handed out after the slots, `promoteBuffs` finds an order for it, of the same items.
pub promote_buffs-Permᴰ :
    (table : List Item) (xs : List ℕ)
    → (l : List ℕ) × (promote_buffs table xs ≡ some l) × Permᴰ l xs
unfolding promote_buffs
promote_buffs-Permᴰ table xs =
    let (l, e, q) =
      spread_buffs-Permᴰ (parted (is_buff table) xs).0 (parted (is_buff table) xs).1 in
    (
      l,
      e,
      Permᴰ.trans q (
          Permᴰ.trans (swap_parts (parted (is_buff table) xs).0 (parted (is_buff table) xs).1)
            (parted-Permᴰ (is_buff table) xs)),
    )
