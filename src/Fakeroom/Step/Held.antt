-- ===== src/Fakeroom/Step/Held.antt =====
-- The bridge's store holds what the room handed out.
use tf2_archipelago.Prelude.{
  ℕ, zero, suc, ◌+◌, ◌≤◌, ◌<◌, ◌⊎◌, ltb, ◌%◌, ◌≡◌, refl, sym, ap, subst, ◌∙◌, none, some, Bool,
  true, ◌&&◌, List, [], ◌∷◌, ◌++◌, String, nat_eq, ◌==◌, arith, length, take, map, first, inl, inr,
  Bool-cases, Option-cases,
}
use mathlib.Core.List.{Memᴰ, append_assoc, append-nil}
use tf2_archipelago.Prelude.Int.{pos}
use tf2_archipelago.Prelude.Laws.{length-append, take-length, take-append_self}
use tf2_archipelago.Prelude.Member.{Memᴰ-append_right, first_found}
use tf2_archipelago.Gamedata.Tables.{classes}
use tf2_archipelago.Gamedata.Items.{
  Item, build_items, cash_bundle, slot_items, ticket_item, item_of_class,
}
use tf2_archipelago.Gamedata.Game.{Game, IsBuilt}
use tf2_archipelago.State.Disk.{written}
use tf2_archipelago.State.Store.Sent.{apply_items_written, apply_items_past}
use tf2_archipelago.State.Store.{Store, Env, apply_items}
use tf2_archipelago.Fakeroom.Tickets.{take_next_ticket}
use tf2_archipelago.Fakeroom.Start.{filler_item, is_filler}
use tf2_archipelago.Fakeroom.Room.{
  Room, Sent, items_sent, said, note_checked, hand_out, send_items, reward, connect, gift, unlocked,
  unlock_next_mission,
}
use tf2_archipelago.Fakeroom.Rewards.{hand_out_keeps}
use tf2_archipelago.Fakeroom.Reply.{Words, answer, reply_lines, before_space, trim_bang}
use tf2_archipelago.Fakeroom.Step.{
  Arrival, location_checks, say_line, other, traffic, traffic_turn, answer_message, apply_on,
  receive, answer_all, session, deliver,
}

-- The items that were sent, in order.
abbrev pub items_of : List Sent → List ℕ
items_of [] = []
items_of (said text ∷ ms) = items_of ms
items_of (items_sent index ids ∷ ms) = ids ++ items_of ms

-- Every index is the number of items before it.
follows : ℕ → List Sent → Bool
follows n [] = true
follows n (said text ∷ ms) = follows n ms
follows n (items_sent index ids ∷ ms) = index == n && follows (n + length ids) ms

items_of-append : (xs ys : List Sent) → items_of (xs ++ ys) ≡ items_of xs ++ items_of ys
items_of-append [] ys = refl
items_of-append (said text ∷ xs) ys = items_of-append xs ys
items_of-append (items_sent index ids ∷ xs) ys =
    ap (λ z. ids ++ z) (items_of-append xs ys) ∙ sym (append_assoc ids (items_of xs) (items_of ys))

follows-append :
    (n : ℕ) (xs ys : List Sent)
    → follows n xs ≡ true
    → follows (n + length (items_of xs)) ys ≡ true
    → follows n (xs ++ ys) ≡ true
unfolding follows
follows-append n [] ys h k = subst (λ z. follows z ys ≡ true) (omega arith) k
follows-append n (said text ∷ xs) ys h k = follows-append n xs ys h k
follows-append n (items_sent index ids ∷ xs) ys h k =
    let e : (index == n) ≡ true = ground arith in
    let on : follows (n + length ids) xs ≡ true = ground arith in
    let far : n + length (ids ++ items_of xs) ≡ n + length ids + length (items_of xs) =
      omega (arith, length-append ids (items_of xs)) in
    rw e (follows-append (n + length ids) xs ys on (subst (λ z. follows z ys ≡ true) far k))

-- A step of the room continues the count that it started from.
abbrev Continues : Room → Room × List Sent → Type 0
Continues r p = (follows r.given p.1 ≡ true) × (p.0.given ≡ r.given + length (items_of p.1))

said-Continues : (r : Room) (lines : List String) → Continues r (r, map said lines)
unfolding follows
said-Continues r [] = (refl, omega arith)
said-Continues r (l ∷ ls) = said-Continues r ls

send_items-follows :
    (n : ℕ) (ids : List ℕ)
    → (follows n (send_items n ids) ≡ true) × (length (items_of (send_items n ids)) ≡ length ids)
unfolding follows
send_items-follows n [] = (refl, refl)
send_items-follows n (x ∷ xs) = (ground arith, omega (arith, length-append xs []))

reward-Continues : (draw : ℕ → List ℕ → ℕ) (ls : List ℕ) (r : Room) → Continues r (reward draw ls r)
unfolding reward
reward-Continues draw ls r =
    let (checked, fresh) = note_checked r.checked ls in
    let start : Room = record r { checked = checked } in
    let given = (hand_out_keeps draw fresh start).4 in
    let (a, b) = send_items-follows r.given (hand_out draw fresh start).0 in
    (a, omega (arith, given, b))

unlock-Continues : (table : List Item) (r : Room) → Continues r (unlock_next_mission table r)
unfolding unlock_next_mission unlocked follows
unlock-Continues table r = elim (Option-cases (take_next_ticket table r.items r.next)) [
  | inl e ↦ rw e (refl, omega arith)
  | inr ((items, ticket), e) ↦ rw e (ground arith, omega arith)
]

filler_of :
    (items : List Item) (it : Item)
    → first (λ i. is_filler i.classification) items ≡ some it
    → filler_item items ≡ some it.id
unfolding filler_item
filler_of items it e = rw (filler_item, e) refl

-- The item table of the program holds a filler item.
pub filler_item_built : (g : Game) → IsBuilt g → (id : ℕ) × (filler_item g.items ≡ some id)
unfolding filler_item build_items cash_bundle
filler_item_built g b =
    let at : Memᴰ cash_bundle (build_items g.tables) =
      Memᴰ-append_right cash_bundle (map ticket_item g.tables.missions) _ (
        Memᴰ-append_right cash_bundle (map item_of_class classes) _
          (Memᴰ-append_right cash_bundle slot_items _ (Memᴰ.head refl))) in
    let (it, e) =
      first_found (λ i. is_filler i.classification) cash_bundle g.items
        (subst (λ z. Memᴰ cash_bundle z) b.built_items at) refl in
    (it.id, filler_of g.items it e)

gift-Continues :
    (table : List Item) (r : Room) (id : ℕ)
    → filler_item table ≡ some id
    → Continues r (gift table r)
unfolding gift follows
gift-Continues table r id e = rw (gift, e) (ground arith, omega arith)

traffic-Continues :
    (table : List Item) (id turn : ℕ) (who game : String) (r : Room)
    → filler_item table ≡ some id
    → Continues r (traffic_turn table turn who game r)
unfolding traffic_turn follows
traffic-Continues table id turn who game r e = elim (Bool-cases (turn % 3 == 0)) [
  | inl a ↦ rw a (refl, omega arith)
  | inr a ↦ elim (Bool-cases (turn % 3 == 1)) [
    | inl b ↦ rw (a, b) (gift-Continues table r id e)
    | inr b ↦ rw (a, b) (refl, omega arith)
  ]
]

answer-Continues :
    (w : Words) (g : Game) (missions : List String) (text : String) (r : Room)
    → Continues r (answer w g missions text r)
unfolding answer
answer-Continues w g missions text r =
    elim (Bool-cases (w.equal_fold (before_space (trim_bang (w.trim_space text))) "unlock")) [
      | inl e ↦ rw e (unlock-Continues g.items r)
      | inr e ↦ rw e (said-Continues r (reply_lines w g text r.checked missions))
    ]

module _ (draw : ℕ → List ℕ → ℕ) (w : Words) (g : Game) (missions : List String)
    (built : IsBuilt g) where
  answer_message-Continues :
      (m : Arrival) (r : Room) → Continues r (answer_message draw w g missions m r)
  unfolding answer_message follows
  answer_message-Continues (location_checks ls) r = reward-Continues draw ls r
  answer_message-Continues (say_line text) r = answer-Continues w g missions text r
  answer_message-Continues other r = (refl, omega arith)
  answer_message-Continues (traffic turn who game) r =
      let (id, e) = filler_item_built g built in traffic-Continues g.items id turn who game r e

  answer_all-Continues :
      (ms : List Arrival) (r : Room) → Continues r (answer_all draw w g missions ms r)
  unfolding answer_all follows
  answer_all-Continues [] r = (refl, omega arith)
  answer_all-Continues (m ∷ ms) r =
      let p = answer_message draw w g missions m r in
      let (a, b) = answer_message-Continues m r in
      let (c, d) = answer_all-Continues ms p.0 in
      let q = answer_all draw w g missions ms p.0 in
      (
        follows-append r.given p.1 q.1 a (subst (λ z. follows z q.1 ≡ true) b c),
        omega (
          arith,
          b,
          d,
          ap length (items_of-append p.1 q.1),
          length-append (items_of p.1) (items_of q.1),
        ),
      )

-- A store that takes messages whose indices follow its list takes all their items.
apply_on-follows :
    (g : Game) (envs : ℕ → Env) (k : ℕ) (ms : List Sent) (s : Store)
    → ((i : ℕ) → (envs i).write ≡ written)
    → follows (length s.snap.items) ms ≡ true
    → ((apply_on g envs k ms (s, none)).0.snap.items ≡ s.snap.items ++ items_of ms)
      × ((apply_on g envs k ms (s, none)).1 ≡ none)
unfolding apply_on follows
apply_on-follows g envs k [] s w h = (sym (append-nil s.snap.items), refl)
apply_on-follows g envs k (said text ∷ ms) s w h = apply_on-follows g envs k ms s w h
apply_on-follows g envs k (items_sent index ids ∷ ms) s w h =
    let i = length s.snap.items in
    let here : index ≡ i = ground arith in
    let p = apply_items g (envs k) (pos index) ids s in
    let (a, b) = apply_items_written g (envs k) index ids s (w k) (omega (arith, here)) in
    let held : p.0.snap.items ≡ s.snap.items ++ ids =
      a
      ∙ ap (λ n. take n s.snap.items ++ ids) here
      ∙ ap (λ z. z ++ ids) (take-length s.snap.items) in
    let far : i + length ids ≡ length p.0.snap.items =
      omega (arith, ap length held, length-append s.snap.items ids) in
    let (c, d) =
      apply_on-follows g envs (k + 1) ms p.0 w
        (subst (λ n. follows n ms ≡ true) far (ground arith)) in
    let on : apply_on g envs (k + 1) ms p ≡ apply_on g envs (k + 1) ms (p.0, none) =
      ap (λ e. apply_on g envs (k + 1) ms (p.0, e)) b in
    (
      ap (λ z. z.0.snap.items) on
          ∙ c
          ∙ ap (λ z. z ++ items_of ms) held
          ∙ append_assoc s.snap.items ids (items_of ms),
      ap (λ z. z.1) on ∙ d,
    )

-- The items of a message have their place in a list: as many items as its index stand before them.
Placed : List ℕ → Sent → Type 0
Placed all (said text) = Unit {0}
Placed all (items_sent index ids) =
    (front : List ℕ) × (back : List ℕ) × (all ≡ front ++ (ids ++ back)) × (index ≡ length front)

follows-Placed :
    (front : List ℕ) (ms : List Sent) (m : Sent)
    → follows (length front) ms ≡ true
    → Memᴰ m ms
    → Placed (front ++ items_of ms) m
unfolding Placed follows
follows-Placed front [] m h i = elim i [ ]
follows-Placed front (said text ∷ ms) m h (Memᴰ.head e) = subst (Placed _) (sym e) tt
follows-Placed front (said text ∷ ms) m h (Memᴰ.tail i) = follows-Placed front ms m h i
follows-Placed front (items_sent index ids ∷ ms) m h (Memᴰ.head e) =
    subst (Placed _) (sym e) (front, items_of ms, refl, ground arith)
follows-Placed front (items_sent index ids ∷ ms) m h (Memᴰ.tail i) =
    let on : follows (length (front ++ ids)) ms ≡ true =
      subst (λ n. follows n ms ≡ true) (sym (length-append front ids)) (ground arith) in
    subst (λ z. Placed z m) (append_assoc front ids (items_of ms))
      (follows-Placed (front ++ ids) ms m on i)

-- A list begins with another.
abbrev pub BeginsWith : List ℕ → List ℕ → Type 0
BeginsWith all xs = (rest : List ℕ) × (all ≡ xs ++ rest)

within_or_past : (a b : ℕ) → (a ≤ b) ⊎ (b < a)
within_or_past a b = elim (Bool-cases (ltb b a)) [
  | inl e ↦ inr (ground arith)
  | inr e ↦ inl (ground arith)
]

take-append-le : (n : ℕ) (xs ys : List ℕ) → n ≤ length xs → take n (xs ++ ys) ≡ take n xs
take-append-le zero xs ys h = refl
take-append-le (suc n) [] ys h = ground arith
take-append-le (suc n) (x ∷ xs) ys h = ap (λ z. x ∷ z) (take-append-le n xs ys (omega arith))

apply_items-BeginsWith :
    (g : Game) (env : Env) (index : ℕ) (ids all : List ℕ) (s : Store)
    → env.write ≡ written
    → Placed all (items_sent index ids)
    → BeginsWith all s.snap.items
    → BeginsWith all (apply_items g env (pos index) ids s).0.snap.items
unfolding Placed
apply_items-BeginsWith g env index ids all s w (front, back, whole, at) (rest, held) =
    elim (within_or_past index (length s.snap.items)) [
      | inl within ↦
          let (items, _) = apply_items_written g env index ids s w within in
          let kept : take index s.snap.items ≡ front =
            sym (take-append-le index s.snap.items rest within)
            ∙ ap (take index) (sym held ∙ whole)
            ∙ ap (λ n. take n (front ++ (ids ++ back))) at
            ∙ take-append_self front (ids ++ back) in
          (
            back,
            whole
                ∙ sym (append_assoc front ids back)
                ∙ ap (λ z. z ++ back) (sym (items ∙ ap (λ z. z ++ ids) kept)),
          )
      | inr past ↦ (
        rest,
        held ∙ ap (λ p. p.0.snap.items ++ rest) (sym (apply_items_past g env index ids s past)),
      )
    ]

deliver-BeginsWith :
    (g : Game) (envs : ℕ → Env) (k : ℕ) (all : List ℕ) (ms : List Sent) (s : Store)
    → ((i : ℕ) → (envs i).write ≡ written)
    → ((m : Sent) → Memᴰ m ms → Placed all m)
    → BeginsWith all s.snap.items
    → BeginsWith all (deliver g envs k ms s).snap.items
unfolding deliver
deliver-BeginsWith g envs k all [] s w places h = h
deliver-BeginsWith g envs k all (said text ∷ ms) s w places h =
    deliver-BeginsWith g envs k all ms s w (λ m i. places m (Memᴰ.tail i)) h
deliver-BeginsWith g envs k all (items_sent index ids ∷ ms) s w places h =
    deliver-BeginsWith g envs (k + 1) all ms (apply_items g (envs k) (pos index) ids s).0 w
      (λ m i. places m (Memᴰ.tail i))
      (apply_items-BeginsWith g (envs k) index ids all s (w k) (places _ (Memᴰ.head refl)) h)

-- Written in the order of their indices, all messages are taken.
in_order :
    (draw : ℕ → List ℕ → ℕ) (w : Words) (g : Game) (missions : List String) (ms : List Arrival)
    (envs : ℕ → Env) (r : Room) (s : Store)
    → IsBuilt g
    → ((i : ℕ) → (envs i).write ≡ written)
    → let room = session draw w g missions ms r in
      let bridge = receive g envs 0 room.1 s in
      (bridge.1 ≡ none)
      × (bridge.0.snap.items ≡ items_of room.1)
      × (room.0.given ≡ length bridge.0.snap.items)
unfolding session connect receive apply_on
in_order draw w g missions ms envs r s built all =
    let r' : Room = record r { given = length r.start } in
    let q = answer_all draw w g missions ms r' in
    let (a, b) = answer_all-Continues draw w g missions built ms r' in
    let p = apply_items g (envs 0) (pos 0) r.start s in
    let (c, d) = apply_items_written g (envs 0) 0 r.start s (all 0) (omega arith) in
    let far : length r.start ≡ length p.0.snap.items = omega (arith, ap length c) in
    let (e, f) = apply_on-follows g envs 1 q.1 p.0 all (subst (λ n. follows n q.1 ≡ true) far a) in
    let on : apply_on g envs 1 q.1 p ≡ apply_on g envs 1 q.1 (p.0, none) =
      ap (λ x. apply_on g envs 1 q.1 (p.0, x)) d in
    let held : (apply_on g envs 1 q.1 p).0.snap.items ≡ r.start ++ items_of q.1 =
      ap (λ z. z.0.snap.items) on ∙ e ∙ ap (λ z. z ++ items_of q.1) c in
    (
      ap (λ z. z.1) on ∙ f,
      held,
      omega (arith, b, ap length held, length-append r.start (items_of q.1)),
    )

-- The starting inventory is what the list begins with.
started :
    (draw : ℕ → List ℕ → ℕ) (w : Words) (g : Game) (missions : List String) (ms : List Arrival)
    (envs : ℕ → Env) (r : Room) (s : Store)
    → ((i : ℕ) → (envs i).write ≡ written)
    → BeginsWith
        (items_of (session draw w g missions ms r).1)
        (apply_items g (envs 0) (pos 0) r.start s).0.snap.items
unfolding session connect
started draw w g missions ms envs r s all =
    let (items, _) = apply_items_written g (envs 0) 0 r.start s (all 0) (omega arith) in
    let more = items_of (answer_all draw w g missions ms (record r { given = length r.start })).1 in
    (more, ap (λ z. z ++ more) (sym items))

-- All that the room is to write on a connection finds its place behind the starting inventory.
session-Placed :
    (draw : ℕ → List ℕ → ℕ) (w : Words) (g : Game) (missions : List String) (ms : List Arrival)
    (r : Room)
    → IsBuilt g
    → let sent = (session draw w g missions ms r).1 in
      (m : Sent) → Memᴰ m sent → Placed (items_of sent) m
unfolding session connect follows
session-Placed draw w g missions ms r built m i =
    let r' : Room = record r { given = length r.start } in
    let (a, _) = answer_all-Continues draw w g missions built ms r' in
    let from : length r.start ≡ 0 + length r.start = omega arith in
    follows-Placed [] (session draw w g missions ms r).1 m
      (subst (λ n. follows n (answer_all draw w g missions ms r').1 ≡ true) from a) i

-- A bridge connects to a test room whose tables are the program's, with whatever it held before, and
-- its writes go through. If the room's messages are written in the order in which it took their
-- indices, the bridge takes every one without asking for a resend, and its store then holds the
-- starting inventory and after it all that the room handed out, as many items as the room counts. In
-- whatever order they are written behind the starting inventory, and whichever have been written so far,
-- the store holds a beginning of that list and nothing else.
pub session_held :
    (draw : ℕ → List ℕ → ℕ) (w : Words) (g : Game) (missions : List String) (ms : List Arrival)
    (envs : ℕ → Env) (r : Room) (s : Store) (got : List Sent)
    → IsBuilt g
    → ((i : ℕ) → (envs i).write ≡ written)
    → ((m : Sent) → Memᴰ m got → Memᴰ m (session draw w g missions ms r).1)
    → let room = session draw w g missions ms r in
      let bridge = receive g envs 0 room.1 s in
      (bridge.1 ≡ none)
      × (bridge.0.snap.items ≡ items_of room.1)
      × (room.0.given ≡ length bridge.0.snap.items)
      × BeginsWith (items_of room.1) (deliver g envs 0 (items_sent 0 r.start ∷ got) s).snap.items
unfolding deliver
session_held draw w g missions ms envs r s got built all those =
    let (a, b, c) = in_order draw w g missions ms envs r s built all in
    let sent = (session draw w g missions ms r).1 in
    (
      a,
      b,
      c,
      deliver-BeginsWith g envs 1 (items_of sent) got _ all
          (λ m i. session-Placed draw w g missions ms r built m (those m i))
          (started draw w g missions ms envs r s all),
    )
