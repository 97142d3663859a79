-- ===== src/Availability/Ready.antt =====
-- What a server needs to play a mission, said without an order, and that `Server.reason` agrees.
use tf2_archipelago.Prelude.{
  subst, sym, ◌≡◌, ◌≢◌, ◌⊎◌, inl, inr, ◌↔◌, Bool-cases, Option-cases, not, ◌&&◌, true, false,
  String, string_eq, ◌==◌, contains, arith, none, some,
}
use tf2_archipelago.Gamedata.Tables.{Mission}
use tf2_archipelago.Gamedata.Community.{
  Community, builds_on, server_mod_by_key, mission_pack, mission_requirement, mission_server_mod,
  no_nav_requirement, ServerMod,
}
use tf2_archipelago.Availability.{
  GameServer, check, is_playable, reason_of, mod_reason, mod_builds, tick_reason, playable, Reason,
  reason_beq,
}

-- There is a build of a mod for a platform, where it matters which.
abbrev BuildsFor : GameServer → String → Type 0
BuildsFor s key =
    (s.platform ≡ "")
    ⊎ ((m : ServerMod) × (server_mod_by_key key ≡ some m) × (builds_on m s.platform ≡ true))

-- The server loads a mod.
pub record Loads (s : GameServer) (key : String) : Type 0 where
  pub builds : BuildsFor s key
  pub unblocked : contains s.mods_blocked key ≡ false
  pub selected : contains s.mods_selected key ≡ true
  pub verified : contains s.mods_verified key ≡ true

-- The server holds a pack and installs it.
pub record Holds (s : GameServer) (pack : String) : Type 0 where
  pub present : contains s.packs_present pack ≡ true
  pub selected : contains s.packs_selected pack ≡ true

-- The server has all that a mission asks for.
pub record Ready (c : Community) (s : GameServer) (m : Mission) : Type 0 where
  pub mesh : mission_requirement c m.id ≢ no_nav_requirement
  pub pack : (mission_pack c m.id ≡ "") ⊎ Holds s (mission_pack c m.id)
  pub loads : (mission_server_mod c m.id ≡ "") ⊎ Loads s (mission_server_mod c m.id)

builds_for :
    (s : GameServer) (key : String)
    → (not (s.platform == "") && not (mod_builds (server_mod_by_key key) s.platform)) ≡ false
    → BuildsFor s key
builds_for s key h = elim (Bool-cases (s.platform == "")) [
  | inl e ↦ inl ((string_eq.beq_iff s.platform "").0 e)
  | inr e ↦ elim (Option-cases (server_mod_by_key key)) [
    | inl n ↦ ground (arith, n, e, h)
    | inr (m, f) ↦ inr (m, f, ground (arith, e, f, h))
  ]
]

BuildsFor-back :
    (s : GameServer) (key : String)
    → BuildsFor s key
    → (not (s.platform == "") && not (mod_builds (server_mod_by_key key) s.platform)) ≡ false
BuildsFor-back s key (inl e) = ground (arith, string_eq.beq_iff s.platform "")
BuildsFor-back s key (inr (m, f, b)) = ground (arith, f, b)

mod-Loads : (s : GameServer) (key : String) → mod_reason s key ≡ none → (key ≡ "") ⊎ Loads s key
unfolding mod_reason
mod-Loads s key h = elim (Bool-cases (key == "")) [
  | inl e ↦ inl ((string_eq.beq_iff key "").0 e)
  | inr e ↦ inr (record {
    builds = builds_for s key (ground arith);
    unblocked = ground arith;
    selected = ground arith;
    verified = ground arith;
  })
]

mod-Loads_back :
    (s : GameServer) (key : String) → (key ≡ "") ⊎ Loads s key → mod_reason s key ≡ none
unfolding mod_reason
mod-Loads_back s key (inl e) = ground (arith, string_eq.beq_iff key "")
mod-Loads_back s key (inr l) =
    let b = BuildsFor-back s key l.builds in
    let u = l.unblocked in let i = l.selected in let v = l.verified in ground (arith, b, u, i, v)

-- A reason that the mod gives stands in the way.
mod_reason_blocks :
    (s : GameServer) (key : String) (r : Reason)
    → mod_reason s key ≡ some r
    → reason_beq r playable ≡ false
unfolding mod_reason
mod_reason_blocks s key r h = ground arith

pack_ready :
    (s : GameServer) (pack : String)
    → (not (pack == "") && not (contains s.packs_present pack)) ≡ false
    → (not (pack == "") && not (contains s.packs_selected pack)) ≡ false
    → (pack ≡ "") ⊎ Holds s pack
pack_ready s pack h k = elim (Bool-cases (pack == "")) [
  | inl e ↦ inl ((string_eq.beq_iff pack "").0 e)
  | inr e ↦ inr (record { present = ground arith; selected = ground arith })
]

pack_ready_back :
    (s : GameServer) (pack : String)
    → (pack ≡ "") ⊎ Holds s pack
    → ((not (pack == "") && not (contains s.packs_present pack)) ≡ false)
      × ((not (pack == "") && not (contains s.packs_selected pack)) ≡ false)
pack_ready_back s pack (inl e) =
    let same = (string_eq.beq_iff pack "").1 e in (ground (arith, same), ground (arith, same))
pack_ready_back s pack (inr p) =
    let a = p.present in let b = p.selected in (ground (arith, a), ground (arith, b))

module _ (c : Community) (s : GameServer) (m : Mission) where
  -- The three tests of `Server.reason`, when none of them stops the mission.
  abbrev Passes : Type 0
  Passes =
      ((not (mission_pack c m.id == "") && not (contains s.packs_present (mission_pack c m.id)))
        ≡ false)
      × ((mission_requirement c m.id == no_nav_requirement) ≡ false)
      × (mod_reason s (mission_server_mod c m.id) ≡ none)
      × ((not (mission_pack c m.id == "") && not (contains s.packs_selected (mission_pack c m.id)))
          ≡ false)

  passes : is_playable (check c s m) ≡ true → Passes
  unfolding reason_of tick_reason
  passes h = elim (Option-cases (mod_reason s (mission_server_mod c m.id))) [
    | inl e ↦ (ground arith, ground arith, e, ground arith)
    | inr (r, e) ↦ ground (arith, e, mod_reason_blocks s (mission_server_mod c m.id) r e)
  ]

  passes_back : Passes → is_playable (check c s m) ≡ true
  unfolding reason_of tick_reason
  passes_back (a, b, d, e) = ground (arith, a, b, d, e)

  -- A server plays a mission exactly when it has all that the mission asks for: a navigation mesh,
  -- its pack present and selected, and its mod built for the platform, selected, verified and not
  -- blocked.
  pub is_playable-Ready : (is_playable (check c s m) ≡ true) ↔ Ready c s m
  is_playable-Ready = (
    λ h.
        let (a, b, d, e) = passes h in
        record {
          mesh = λ same. ground (
            arith,
            (string_eq.beq_iff (mission_requirement c m.id) no_nav_requirement).1 same,
            b,
          );
          pack = pack_ready s (mission_pack c m.id) a e;
          loads = mod-Loads s (mission_server_mod c m.id) d;
        },
    λ r.
        let (a, e) = pack_ready_back s (mission_pack c m.id) r.pack in
        passes_back (
          a,
          ground (arith, r.mesh, string_eq.beq_iff (mission_requirement c m.id) no_nav_requirement),
          mod-Loads_back s (mission_server_mod c m.id) r.loads,
          e,
        ),
  )

-- What a server has is had by another, on the same platform, and that blocks no more.
pub record HasMore (s s' : GameServer) : Type 0 where
  pub platform : s'.platform ≡ s.platform
  pub present :
      (x : String) → contains s.packs_present x ≡ true → contains s'.packs_present x ≡ true
  pub installed :
      (x : String) → contains s.packs_selected x ≡ true → contains s'.packs_selected x ≡ true
  pub selected :
      (x : String) → contains s.mods_selected x ≡ true → contains s'.mods_selected x ≡ true
  pub verified :
      (x : String) → contains s.mods_verified x ≡ true → contains s'.mods_verified x ≡ true
  pub unblocked :
      (x : String) → contains s.mods_blocked x ≡ false → contains s'.mods_blocked x ≡ false

Loads-HasMore : (s s' : GameServer) (key : String) → HasMore s s' → Loads s key → Loads s' key
Loads-HasMore s s' key k l = record {
  builds =
      subst
        (λ p.
          (p ≡ "") ⊎ ((m : ServerMod) × (server_mod_by_key key ≡ some m) × (builds_on m p ≡ true)))
        (sym k.platform) l.builds;
  unblocked = k.unblocked key l.unblocked;
  selected = k.selected key l.selected;
  verified = k.verified key l.verified;
}

pack_more :
    (s s' : GameServer) (pack : String)
    → HasMore s s'
    → (pack ≡ "") ⊎ Holds s pack
    → (pack ≡ "") ⊎ Holds s' pack
pack_more s s' pack k (inl e) = inl e
pack_more s s' pack k (inr p) =
    inr (record { present = k.present pack p.present; selected = k.installed pack p.selected })

mod_more :
    (s s' : GameServer) (key : String)
    → HasMore s s'
    → (key ≡ "") ⊎ Loads s key
    → (key ≡ "") ⊎ Loads s' key
mod_more s s' key k (inl e) = inl e
mod_more s s' key k (inr l) = inr (Loads-HasMore s s' key k l)

-- A mission that a server plays is played by every server of that platform that has what it has and
-- blocks no more mods.
pub is_playable_more :
    (c : Community) (s s' : GameServer) (m : Mission)
    → HasMore s s'
    → is_playable (check c s m) ≡ true
    → is_playable (check c s' m) ≡ true
is_playable_more c s s' m k h =
    let r = (is_playable-Ready c s m).0 h in
    (is_playable-Ready c s' m).1 (record {
      mesh = r.mesh;
      pack = pack_more s s' (mission_pack c m.id) k r.pack;
      loads = mod_more s s' (mission_server_mod c m.id) k r.loads;
    })
