-- ===== src/Fakeroom/Rewards.antt =====
-- What a report of checks is answered with.
use tf2_archipelago.Prelude.{
  ℕ, zero, suc, ◌⊎◌, ◌+◌, ◌≡◌, refl, ap, subst, ◌∙◌, none, some, true, false, not, ◌&&◌, List, [],
  ◌∷◌, nat_eq, ◌==◌, arith, length, contains, get_elem?, inl, inr, Bool-cases, Option-cases,
}
use tf2_archipelago.Fakeroom.Room.{
  Room, note_checked, hand_out, hand_next, hand_drawn, pick, is_empty, send_items, reward,
}

-- Every location of a list is among those checked.
AllChecked : List ℕ → List ℕ → Type 0
AllChecked checked ls = (l : ℕ) → contains ls l ≡ true → contains checked l ≡ true

note_old :
    (checked xs : List ℕ) (x : ℕ)
    → contains checked x ≡ true
    → note_checked checked (x ∷ xs) ≡ note_checked checked xs
unfolding note_checked
note_old checked xs x e = rw (note_checked, e) refl

note_new :
    (checked xs : List ℕ) (x : ℕ)
    → contains checked x ≡ false
    → note_checked checked (x ∷ xs)
      ≡ ((note_checked (x ∷ checked) xs).0, (note_checked (x ∷ checked) xs).1 + 1)
unfolding note_checked
note_new checked xs x e = rw (note_checked, e) refl

note_checked_more :
    (checked ls : List ℕ) (l : ℕ)
    → contains checked l ≡ true
    → contains (note_checked checked ls).0 l ≡ true
unfolding note_checked
note_checked_more checked [] l h = h
note_checked_more checked (x ∷ xs) l h = elim (Bool-cases (contains checked x)) [
  | inl e ↦ rw (note_old checked xs x e) (note_checked_more checked xs l h)
  | inr e ↦ rw (note_new checked xs x e) (note_checked_more (x ∷ checked) xs l (ground arith))
]

note_checked-AllChecked : (checked ls : List ℕ) → AllChecked (note_checked checked ls).0 ls
unfolding AllChecked
note_checked-AllChecked checked [] l h = ground arith
note_checked-AllChecked checked (x ∷ xs) l h = elim (Bool-cases (contains checked x)) [
  | inl e ↦ rw (note_old checked xs x e) (elim (Bool-cases (x == l)) [
    | inl s ↦
        note_checked_more checked xs l (subst (λ z. contains checked z ≡ true) (ground arith) e)
    | inr s ↦ note_checked-AllChecked checked xs l (ground arith)
  ])
  | inr e ↦ rw (note_new checked xs x e) (elim (Bool-cases (x == l)) [
    | inl s ↦ note_checked_more (x ∷ checked) xs l (ground arith)
    | inr s ↦ note_checked-AllChecked (x ∷ checked) xs l (ground arith)
  ])
]

note_checked_known :
    (checked ls : List ℕ) → AllChecked checked ls → note_checked checked ls ≡ (checked, 0)
unfolding AllChecked note_checked
note_checked_known checked [] h = refl
note_checked_known checked (x ∷ xs) h =
    let e : contains checked x ≡ true = h x (ground arith) in
    note_old checked xs x e ∙ note_checked_known checked xs (λ l k. h l (ground arith))

-- What a round of the loop leaves alone, and how it counts.
pick_keeps :
    (draw : ℕ → List ℕ → ℕ) (r r' : Room) (item : ℕ)
    → pick draw r ≡ some (item, r')
    → (r'.checked ≡ r.checked)
      × (r'.items ≡ r.items)
      × (r'.start ≡ r.start)
      × (r'.repeat_rewards ≡ r.repeat_rewards)
      × (r'.given ≡ r.given + 1)
unfolding pick
pick_keeps draw r r' item h = elim (Option-cases (get_elem? r.items r.next)) [
  | inr (x, e) ↦
      let same : hand_next r ≡ r' = ground arith in rw (← same) (refl, refl, refl, refl, refl)
  | inl e ↦ elim (Bool-cases (r.repeat_rewards && not (is_empty r.items))) [
    | inl b ↦
        let same : hand_drawn r ≡ r' = ground arith in rw (← same) (refl, refl, refl, refl, refl)
    | inr b ↦ ground (arith, e, b, h)
  ]
]

hand_stop :
    (draw : ℕ → List ℕ → ℕ) (n : ℕ) (r : Room)
    → pick draw r ≡ none
    → hand_out draw (suc n) r ≡ ([], r)
unfolding hand_out
hand_stop draw n r e = rw (hand_out, e) refl

hand_more :
    (draw : ℕ → List ℕ → ℕ) (n : ℕ) (r r' : Room) (item : ℕ)
    → pick draw r ≡ some (item, r')
    → hand_out draw (suc n) r ≡ (item ∷ (hand_out draw n r').0, (hand_out draw n r').1)
unfolding hand_out
hand_more draw n r r' item e = rw (hand_out, e) refl

-- Handing out leaves the checked locations and the order of the run alone, and the index of the next
-- message counts what was handed out.
pub hand_out_keeps :
    (draw : ℕ → List ℕ → ℕ) (n : ℕ) (r : Room)
    → let r' = (hand_out draw n r).1 in
      (r'.checked ≡ r.checked)
      × (r'.items ≡ r.items)
      × (r'.start ≡ r.start)
      × (r'.repeat_rewards ≡ r.repeat_rewards)
      × (r'.given ≡ r.given + length (hand_out draw n r).0)
unfolding hand_out
hand_out_keeps draw zero r = (refl, refl, refl, refl, omega arith)
hand_out_keeps draw (suc n) r = elim (Option-cases (pick draw r)) [
  | inl e ↦ rw (hand_stop draw n r e) (refl, refl, refl, refl, omega arith)
  | inr ((item, r'), e) ↦
      let (a, b, c, d, g) = pick_keeps draw r r' item e in
      let (a', b', c', d', g') = hand_out_keeps draw n r' in
      rw (hand_more draw n r r' item e) (a' ∙ a, b' ∙ b, c' ∙ c, d' ∙ d, omega (arith, g, g'))
]

-- A report that is sent again, whole or in part, together with anything that was checked before, is
-- answered by nothing and leaves the room as it is.
pub reward_again :
    (draw : ℕ → List ℕ → ℕ) (ls again : List ℕ) (r : Room)
    → let r' = (reward draw ls r).0 in
      ((l : ℕ) → contains again l ≡ true → (contains ls l ≡ true) ⊎ (contains r.checked l ≡ true))
      → reward draw again r' ≡ (r', [])
unfolding reward AllChecked note_checked hand_out
reward_again draw ls again r old =
    let after = note_checked r.checked ls in
    let r' = (hand_out draw after.1 (record r { checked = after.0 })).1 in
    let same = (hand_out_keeps draw after.1 (record r { checked = after.0 })).0 in
    let known : note_checked r'.checked again ≡ (r'.checked, 0) =
      note_checked_known r'.checked again (λ l h. rw same (elim (old l h) [
        | inl x ↦ note_checked-AllChecked r.checked ls l x
        | inr x ↦ note_checked_more r.checked ls l x
      ])) in
    ap
      (λ p. (
        (hand_out draw p.1 (record r' { checked = p.0 })).1,
        send_items r'.given (hand_out draw p.1 (record r' { checked = p.0 })).0,
      ))
      known
