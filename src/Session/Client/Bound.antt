-- ===== src/Session/Client/Bound.antt =====
-- Which room the store is tied to.
use tf2_archipelago.Prelude.{
  ◌≡◌, ◌≢◌, refl, ap, ◌∙◌, Option, none, some, Bool, true, false, ◌&&◌, List, [], string_eq, ◌==◌,
  arith, inl, inr, Bool-cases,
}
use tf2_archipelago.Gamedata.Game.{Game}
use tf2_archipelago.Gamedata.Community.{Community}
use tf2_archipelago.State.Store.{Store, Error, adopt_checks}
use tf2_archipelago.State.Store.Kept.{adopt_checks_seed}
use tf2_archipelago.State.Bind.{Rebind, bind_seed}
use tf2_archipelago.State.Bind.Bound.{bind_seed_outcome}
use tf2_archipelago.Session.Names.{remember_names, names_missing}
use tf2_archipelago.Session.Goal.{validate}
use tf2_archipelago.Session.Client.{
  Client, Seed, Connected, Turn, Packet, permanent, Handled, settle, claim, set_store, ask_names,
  after_bind, bind_room, connected_seed, on_connected, unplayable, no_mission,
}

-- A seed that the bridge plays: it is valid and playable, the session is connected with it, and the
-- store holds a run of the seed that the room named.
pub record IsPlayed (comm : Community) (g : Game) (c : Client) (seed : Seed) (c' : Client)
    : Type 0 where
  pub is_valid : validate g.tables seed.shape ≡ true
  pub is_on_server : no_mission (unplayable comm g c.server seed.shape.missions) ≡ true
  pub is_bound : c'.store.snap.seed ≡ c.room_seed
  pub is_connected : c'.connected ≡ true
  pub is_seed : c'.seed ≡ seed

claim_taken :
    (wanted sends : Bool) (c : Client) (asked : List Packet)
    → ((claim wanted sends c asked).2 ≢ some permanent) × ((claim wanted sends c asked).0 ≡ c)
claim_taken false sends c asked = ((λ e. ground arith), refl)
claim_taken true true c asked = ((λ e. ground arith), refl)
claim_taken true false c asked = ((λ e. ground arith), refl)

module _ (comm : Community) (g : Game) (t : Turn) (p : Connected) (c : Client) where
  -- A refused seed leaves the client as it was; one that is taken is played.
  Ends : Handled → Type 0
  Ends r =
      (r.2 ≡ some permanent → r ≡ (c, [], some permanent))
      × (r.2 ≡ none → (seed : Seed) × (p.slot_seed ≡ some seed) × IsPlayed comm g c seed r.0)

  settle-Ends :
      (seed : Seed) (s : Store)
      → p.slot_seed ≡ some seed
      → validate g.tables seed.shape ≡ true
      → no_mission (unplayable comm g c.server seed.shape.missions) ≡ true
      → s.snap.seed ≡ c.room_seed
      → Ends (settle g t p seed (set_store c s))
  unfolding Ends settle
  settle-Ends seed s read v u b =
      let (book, games) = remember_names t.sort p.players p.slots c.names in
      let store = (adopt_checks g t.adopting p.checked s).0 in
      let asked = ask_names t.sends 1 (names_missing c.fetched games) in
      let c' : Client = record c {
        names = some book;
        store = store;
        connected = true;
        seed = seed;
        last_error = false;
        ready = true;
      } in
      let (apart, same) = claim_taken seed.death_link (t.sends 0) c' asked in
      (
        λ e. absurd (apart e),
        λ e. (
          seed,
          read,
          record {
            is_valid = v;
            is_on_server = u;
            is_bound =
                ap (λ x. x.store.snap.seed) same ∙ adopt_checks_seed g t.adopting p.checked s ∙ b;
            is_connected = ap (λ x. x.connected) same;
            is_seed = ap (λ x. x.seed) same;
          },
        ),
      )

  after_bind-Ends :
      (seed : Seed) (r : Store × Rebind × Option Error)
      → p.slot_seed ≡ some seed
      → validate g.tables seed.shape ≡ true
      → no_mission (unplayable comm g c.server seed.shape.missions) ≡ true
      → (r.2 ≡ none → r.0.snap.seed ≡ c.room_seed)
      → Ends (after_bind g t p seed c r)
  unfolding after_bind Ends
  after_bind-Ends seed (s, rebind, some e) read v u b = ((λ x. ground arith), (λ x. ground arith))
  after_bind-Ends seed (s, rebind, none) read v u b = settle-Ends seed s read v u (b refl)

  bind_room-Ends :
      (seed : Seed)
      → p.slot_seed ≡ some seed
      → validate g.tables seed.shape ≡ true
      → no_mission (unplayable comm g c.server seed.shape.missions) ≡ true
      → Ends (bind_room g t p seed c)
  unfolding bind_room Ends
  bind_room-Ends seed read v u = elim (Bool-cases (c.room_seed == "")) [
    | inl e ↦ rw (bind_room, e) ((λ x. ground arith), (λ x. ground arith))
    | inr e ↦
        rw (bind_room, e)
          (after_bind-Ends seed (bind_seed g t.binding c.room_seed c.store) read v u
            (bind_seed_outcome g t.binding c.room_seed c.store).0)
  ]

  connected_seed-Ends : (o : Option Seed) → p.slot_seed ≡ o → Ends (connected_seed comm g t p c o)
  unfolding connected_seed Ends
  connected_seed-Ends none read = ((λ e. refl), (λ e. ground arith))
  connected_seed-Ends (some seed) read =
      elim (Bool-cases (
        validate g.tables seed.shape
        && no_mission (unplayable comm g c.server seed.shape.missions))) [
          | inl e ↦ rw (connected_seed, e) (bind_room-Ends seed read (ground arith) (ground arith))
          | inr e ↦ rw (connected_seed, e) ((λ x. refl), (λ x. ground arith))
        ]

  -- A room whose seed is refused for good, since it cannot be read, is not valid or draws a mission
  -- that the server cannot play, leaves the run that the bridge holds and all else as it was, and is
  -- sent nothing. When no error comes back, the seed is valid and the server can play its missions, the session is
  -- connected with it, and the store holds a run of the seed that the room named.
  pub on_connected_bound :
      let r = on_connected comm g t p c in
      (r.2 ≡ some permanent → r ≡ (c, [], some permanent))
      × (r.2 ≡ none → (seed : Seed) × (p.slot_seed ≡ some seed) × IsPlayed comm g c seed r.0)
  unfolding on_connected Ends
  on_connected_bound = connected_seed-Ends p.slot_seed refl
