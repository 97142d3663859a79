-- ===== src/State/Store/Sent.antt =====
-- Which grants the plugin is sent.
use tf2_archipelago.Prelude.{
  ℕ, ◌+◌, ◌≤◌, ◌≡◌, refl, sym, ap, ◌∙◌, Bool, true, false, List, [], ◌∷◌, ◌++◌, arith, nat_eq, none,
  some, ltb, ◌<◌, length, keep, take, inl, inr, Bool-cases,
}
use tf2_archipelago.Prelude.Laws.{take-length, length-append}
use tf2_archipelago.Prelude.Int.{pos}
use tf2_archipelago.Gamedata.Game.{Game}
use tf2_archipelago.State.Grants.{Grant, grants_from}
use tf2_archipelago.State.Grants.Stable.{seq_between, grants_from-append}
use tf2_archipelago.State.Disk.{written, write_snapshot}
use tf2_archipelago.State.Store.{
  Store, Env, desync, persist, apply_items, apply_end, grants_since, is_fresh,
}
use tf2_archipelago.State.Store.Invariant.{IsSound}

pub keep_old :
    (since acked : ℕ) (xs : List Grant)
    → seq_between 0 since xs ≡ true
    → keep (is_fresh since acked) xs ≡ []
keep_old since acked [] h = refl
keep_old since acked (x ∷ xs) h =
    let old : is_fresh since acked x ≡ false = ground arith in
    rw old (keep_old since acked xs (ground arith))

keep_new :
    (since acked to : ℕ) (xs : List Grant)
    → acked ≤ since
    → seq_between since to xs ≡ true
    → keep (is_fresh since acked) xs ≡ xs
keep_new since acked to [] a h = refl
keep_new since acked to (x ∷ xs) a h =
    let new : is_fresh since acked x ≡ true = ground arith in
    rw new (ap (λ z. x ∷ z) (keep_new since acked to xs a (ground arith)))

keep-append : (p : Grant → Bool) (xs ys : List Grant) → keep p (xs ++ ys) ≡ keep p xs ++ keep p ys
keep-append p [] ys = refl
keep-append p (x ∷ xs) ys = elim (Bool-cases (p x)) [
  | inl e ↦ rw e (ap (λ z. x ∷ z) (keep-append p xs ys))
  | inr e ↦ rw e (keep-append p xs ys)
]

applied :
    (g : Game) (env : Env) (ids : List ℕ) (s : Store)
    → env.write ≡ written
    → let i = length s.snap.items in
      let s' = (apply_items g env (pos i) ids s).0 in
      (s'.snap.items ≡ take i s.snap.items ++ ids)
      × (s'.grants ≡ grants_from g (take i s.snap.items ++ ids))
      × (s'.snap.acked_seq ≤ s.snap.acked_seq)
      × ((apply_items g env (pos i) ids s).1 ≡ none)
unfolding apply_items apply_end persist write_snapshot
applied g env ids s w = ground arith

-- Items that come at an index within the list replace what stood from there on.
pub apply_items_written :
    (g : Game) (env : Env) (i : ℕ) (ids : List ℕ) (s : Store)
    → env.write ≡ written
    → i ≤ length s.snap.items
    → ((apply_items g env (pos i) ids s).0.snap.items ≡ take i s.snap.items ++ ids)
      × ((apply_items g env (pos i) ids s).1 ≡ none)
unfolding apply_items apply_end persist write_snapshot
apply_items_written g env i ids s w h = ground arith

-- Items that would leave a gap are not taken.
pub apply_items_past :
    (g : Game) (env : Env) (i : ℕ) (ids : List ℕ) (s : Store)
    → length s.snap.items < i
    → apply_items g env (pos i) ids s ≡ (s, some desync)
unfolding apply_items
apply_items_past g env i ids s h =
    let e : ltb (length s.snap.items) i ≡ true = ground arith in rw (apply_items, e) refl

-- When new items arrive at the end of the list of a sound store and are written, the grants of the
-- longer list are those of the list before and then those of the new items, each of these numbered past
-- the end that the plugin knew; the store holds them all, and a plugin that asks from that end is sent
-- exactly those of the new items, in their order, with the new end.
pub apply_items_sent :
    (g : Game) (env : Env) (ids : List ℕ) (s : Store)
    → IsSound g s
    → env.write ≡ written
    → let i = length s.snap.items in
      let s' = (apply_items g env (pos i) ids s).0 in
      (more : List Grant) × (grants_from g (s.snap.items ++ ids)
        ≡ grants_from g s.snap.items ++ more)
      × (s'.grants ≡ s.grants ++ more)
      × (seq_between i (i + length ids) more ≡ true)
      × (grants_since i s' ≡ (more, i + length ids))
unfolding grants_since
apply_items_sent g env ids s sound w =
    let i = length s.snap.items in
    let s' = (apply_items g env (pos i) ids s).0 in
    let (items, made, acked, _) = applied g env ids s w in
    let (more, grown, old, new) = grants_from-append g s.snap.items ids in
    let whole : s'.grants ≡ grants_from g s.snap.items ++ more =
      made ∙ ap (λ z. grants_from g (z ++ ids)) (take-length s.snap.items) ∙ grown in
    let fresh = is_fresh i s'.snap.acked_seq in
    let within : s'.snap.acked_seq ≤ i = omega (arith, acked, sound.acked_within) in
    let kept_old : keep fresh (grants_from g s.snap.items) ≡ [] =
      keep_old i s'.snap.acked_seq (grants_from g s.snap.items) old in
    let sent : keep fresh s'.grants ≡ more =
      ap (keep fresh) whole
      ∙ keep-append fresh (grants_from g s.snap.items) more
      ∙ ap (λ z. z ++ keep fresh more) kept_old
      ∙ keep_new i s'.snap.acked_seq (i + length ids) more within new in
    let end : length s'.snap.items ≡ i + length ids =
      ap length (items ∙ ap (λ z. z ++ ids) (take-length s.snap.items))
      ∙ length-append s.snap.items ids in
    (
      more,
      grown,
      whole ∙ ap (λ z. z ++ more) (sym sound.grants_made),
      new,
      ap (λ z. (z, length s'.snap.items)) sent ∙ ap (λ n. (more, n)) end,
    )
