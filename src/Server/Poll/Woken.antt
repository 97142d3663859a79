-- ===== src/Server/Poll/Woken.antt =====
-- What a poll for grants that waits is woken by.
use tf2_archipelago.Prelude.{
  ℕ, ◌+◌, ◌≡◌, ◌⊎◌, refl, ap, subst, ◌∙◌, List, [], ◌∷◌, ◌++◌, map, length, arith, inl, inr, keep,
  true, false, ltb,
}
use tf2_archipelago.Prelude.Int.{pos}
use tf2_archipelago.Gamedata.Game.{Game}
use tf2_archipelago.State.Disk.{written}
use tf2_archipelago.State.Grants.{Grant, grants_from}
use tf2_archipelago.State.Grants.Stable.{seq_between, grants_from-append}
use tf2_archipelago.State.Store.{Store, Env, apply_items, grants_since, is_fresh}
use tf2_archipelago.State.Store.Invariant.{IsSound}
use tf2_archipelago.State.Store.Sent.{keep_old, apply_items_sent}
use tf2_archipelago.Server.Poll.{
  Wake, Polled, changed, timed_out, hung_up, waiting, dropped, served, poll_round, poll_grants,
}

-- A sound store that holds so many items.
pub record HoldsItems (g : Game) (i : ℕ) (s : Store) : Type 0 where
  pub sound : IsSound g s
  pub count : length s.snap.items ≡ i

abbrev pub AllHold : Game → ℕ → List Store → Type 0
AllHold g i [] = Unit {0}
AllHold g i (s ∷ ss) = HoldsItems g i s × AllHold g i ss

-- There is nothing past the end of the items.
nothing_new : (g : Game) (i : ℕ) (s : Store) → HoldsItems g i s → grants_since i s ≡ ([], i)
unfolding grants_since
nothing_new g i s h =
    let (_, _, old, _) = grants_from-append g s.snap.items [] in
    let kept : keep (is_fresh i s.snap.acked_seq) s.grants ≡ [] =
      ap (keep (is_fresh i s.snap.acked_seq)) h.sound.grants_made
      ∙ keep_old i s.snap.acked_seq (grants_from g s.snap.items)
          (subst (λ n. seq_between 0 n (grants_from g s.snap.items) ≡ true) h.count old) in
    ap (λ z. (z, length s.snap.items)) kept ∙ ap (λ n. ([], n)) h.count

waits_on : (i : ℕ) (later : Polled) → poll_round i ([], i) later ≡ later
waits_on i later = let e : ltb i i ≡ false = ground arith in rw e refl

poll_past :
    (g : Game) (i : ℕ) (s : Store) (quiet : List Store) (s' : Store) (wakes : List Wake)
    → AllHold g i (s ∷ quiet)
    → poll_grants i s (map changed quiet ++ (changed s' ∷ wakes)) ≡ poll_grants i s' wakes
unfolding poll_grants
poll_past g i s [] s' wakes (h, _) =
    let later = poll_grants i s' wakes in
    ap (λ z. poll_round i z later) (nothing_new g i s h) ∙ waits_on i later
poll_past g i s (q ∷ qs) s' wakes (h, hs) =
    let later = poll_grants i q (map changed qs ++ (changed s' ∷ wakes)) in
    ap (λ z. poll_round i z later) (nothing_new g i s h)
    ∙ waits_on i later
    ∙ poll_past g i q qs s' wakes hs

served_at_once :
    (i n : ℕ) (x : Grant) (xs : List Grant) (s : Store) (wakes : List Wake)
    → grants_since i s ≡ (x ∷ xs, n)
    → poll_grants i s wakes ≡ served (record { seq = n; grants = x ∷ xs })
unfolding poll_grants
served_at_once i n x xs s [] h = ap (λ z. poll_round i z waiting) h
served_at_once i n x xs s (changed s' ∷ wakes) h =
    ap (λ z. poll_round i z (poll_grants i s' wakes)) h
served_at_once i n x xs s (timed_out ∷ wakes) h =
    ap (λ z. poll_round i z (served (record { seq = (grants_since i s).1; grants = [] }))) h
served_at_once i n x xs s (hung_up ∷ wakes) h = ap (λ z. poll_round i z dropped) h

served_with :
    (i n : ℕ) (more : List Grant) (s : Store) (wakes : List Wake)
    → grants_since i s ≡ (more, n)
    → (more ≡ []) ⊎ (poll_grants i s wakes ≡ served (record { seq = n; grants = more }))
served_with i n [] s wakes h = inl refl
served_with i n (x ∷ xs) s wakes h = inr (served_at_once i n x xs s wakes h)

-- A poll from the end of the items waits through every change that brings none. Once new items
-- arrive at the end of the list of a sound store and are written, it is answered at that change, with
-- the end that the plugin asks from next and with what the grants of the longer list have more than
-- those of the list before, in order. Where that is nothing, since the new items give no grant, no
-- answer is promised.
pub poll_grants_sent :
    (g : Game) (env : Env) (ids : List ℕ) (s first : Store) (quiet : List Store) (wakes : List Wake)
    → IsSound g s
    → env.write ≡ written
    → AllHold g (length s.snap.items) (first ∷ quiet)
    → let i = length s.snap.items in
      let s' = (apply_items g env (pos i) ids s).0 in
      (more : List Grant) × (grants_from g (s.snap.items ++ ids)
        ≡ grants_from g s.snap.items ++ more)
      × (seq_between i (i + length ids) more ≡ true)
      × ((more ≡ [])
          ⊎ (poll_grants i first (map changed quiet ++ (changed s' ∷ wakes))
              ≡ served (record { seq = i + length ids; grants = more })))
poll_grants_sent g env ids s first quiet wakes sound w hold =
    let i = length s.snap.items in
    let s' = (apply_items g env (pos i) ids s).0 in
    let (more, grown, _, numbered, since) = apply_items_sent g env ids s sound w in
    (
      more,
      grown,
      numbered,
      elim (served_with i (i + length ids) more s' wakes since) [
        | inl e ↦ inl e
        | inr e ↦ inr (poll_past g i first quiet s' wakes hold ∙ e)
      ],
    )
