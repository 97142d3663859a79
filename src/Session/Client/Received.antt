-- ===== src/Session/Client/Received.antt =====
-- What comes down: the items, and the deaths of the others.
use tf2_archipelago.Prelude.{
  ℕ, ◌≤◌, ◌<◌, ◌≡◌, refl, sym, ap, subst, ◌∙◌, Option, none, some, Bool, true, false, ◌&&◌, List,
  [], ◌∷◌, ◌++◌, String, string_eq, ◌==◌, if◌then◌else◌, arith, length, take, contains, inl, inr,
  Bool-cases,
}
use tf2_archipelago.Prelude.Int.{pos}
use tf2_archipelago.Gamedata.Game.{Game}
use tf2_archipelago.State.Disk.{written}
use tf2_archipelago.State.Store.{Env, desync, apply_items}
use tf2_archipelago.State.Store.Sent.{apply_items_written, apply_items_past}
use tf2_archipelago.Feed.DeathLink.{Feed, append, appended}
use tf2_archipelago.Session.Client.{
  Client, sync, Handled, set_store, received, on_received_items, Bounced, hear, on_bounced,
}

-- Items that would leave a gap are not taken: the client stays as it was, and a resend is asked for,
-- which does not end the session. Items that continue the list, or restate it from an index within
-- it, are taken when the write goes through, and nothing is asked for.
pub on_received_items_outcome :
    (g : Game) (env : Env) (sends : Bool) (i : ℕ) (ids : List ℕ) (c : Client)
    → let r = on_received_items g env sends (pos i) ids c in
      (length c.store.snap.items < i → sends ≡ true → r ≡ (c, sync ∷ [], none))
      × (i ≤ length c.store.snap.items
          → env.write ≡ written
          → (r.0.store.snap.items ≡ take i c.store.snap.items ++ ids) × (r.1 ≡ []) × (r.2 ≡ none))
unfolding on_received_items received
on_received_items_outcome g env sends i ids c = (
  λ gap s.
      ap (received sends c) (apply_items_past g env i ids c.store gap)
      ∙ ap (λ b. received b c (c.store, some desync)) s,
  λ within w.
      let (a, b) = apply_items_written g env i ids c.store w within in
      let q = apply_items g env (pos i) ids c.store in
      let done : received sends c q ≡ (set_store c q.0, [], none) =
        ap (λ e. received sends c (q.0, e)) b in
      (ap (λ r. r.0.store.snap.items) done ∙ a, ap (λ r. r.1) done, ap (λ r. r.2) done),
)

-- A death that is not the game's own.
abbrev pub meant : String → Option (String × String) → List (String × String)
meant own none = []
meant own (some d) = if d.0 == own then [] else d ∷ []

-- The deaths that are meant for the game, out of those that came.
abbrev pub deaths_for : String → List Bounced → List (String × String)
deaths_for own [] = []
deaths_for own (b ∷ bs) =
    (if contains b.tags "DeathLink" then meant own b.death else []) ++ deaths_for own bs

-- One bounce: what it adds to the feed, and that it leaves the seed and the name alone.
abbrev Heard : Client → List (String × String) → Client → Type 0
Heard c ds c' =
    (c'.deaths ≡ appended c.deaths ds) × (c'.seed ≡ c.seed) × (c'.slot_name ≡ c.slot_name)

hear-Heard : (c : Client) (o : Option (String × String)) → Heard c (meant c.slot_name o) (hear c o)
unfolding hear
hear-Heard c none = (refl, refl, refl)
hear-Heard c (some (source, cause)) = elim (Bool-cases (source == c.slot_name)) [
  | inl e ↦ rw (hear, e) (refl, refl, refl)
  | inr e ↦ rw (hear, e) (refl, refl, refl)
]

-- A session's bounces, one after the other.
abbrev pub bounce_all : List Bounced → Client → Client
bounce_all [] c = c
bounce_all (b ∷ bs) c = bounce_all bs (on_bounced b c).0

bounced-Heard :
    (b : Bounced) (c : Client)
    → c.seed.death_link ≡ true
    → Heard c
        (if contains b.tags "DeathLink" then meant c.slot_name b.death else [])
        (on_bounced b c).0
unfolding on_bounced
bounced-Heard b c on =
    let outcome : Bool → Handled = λ x. if x then (hear c b.death, [], none) else (c, [], none) in
    let family : Bool → Type 0 = λ x.
      Heard c (if contains b.tags "DeathLink" then meant c.slot_name b.death else [])
        (outcome x).0 in
    elim (Bool-cases (contains b.tags "DeathLink")) [
      | inl e ↦
          let both : (contains b.tags "DeathLink" && c.seed.death_link) ≡ true =
            ground (arith, e, on) in
          subst family (sym both) (
            subst (λ x. Heard c (if x then meant c.slot_name b.death else []) (hear c b.death))
              (sym e) (hear-Heard c b.death))
      | inr e ↦
          let both : (contains b.tags "DeathLink" && c.seed.death_link) ≡ false =
            ground (arith, e) in
          subst family (sym both) (
            subst (λ x. Heard c (if x then meant c.slot_name b.death else []) c) (sym e)
              (refl, refl, refl))
    ]

appended-append :
    (f : Feed) (xs ys : List (String × String))
    → appended f (xs ++ ys) ≡ appended (appended f xs) ys
appended-append f [] ys = refl
appended-append f (x ∷ xs) ys = appended-append (append f x.0 x.1) xs ys

-- In a seed that takes part in DeathLink, whatever bounces arrive, the feed that the plugin reads is
-- the one it was with exactly the deaths of the others added, in order: what is tagged otherwise,
-- cannot be read or is this game's own is left out.
pub bounce_all_heard :
    (bs : List Bounced) (c : Client)
    → c.seed.death_link ≡ true
    → (bounce_all bs c).deaths ≡ appended c.deaths (deaths_for c.slot_name bs)
bounce_all_heard [] c on = refl
bounce_all_heard (b ∷ bs) c on =
    let c' = (on_bounced b c).0 in
    let (a, s, n) = bounced-Heard b c on in
    let here = if contains b.tags "DeathLink" then meant c.slot_name b.death else [] in
    bounce_all_heard bs c' (ap (λ x. x.death_link) s ∙ on)
    ∙ ap (λ f. appended f (deaths_for c'.slot_name bs)) a
    ∙ ap (λ o. appended (appended c.deaths here) (deaths_for o bs)) n
    ∙ sym (appended-append c.deaths here (deaths_for c.slot_name bs))
