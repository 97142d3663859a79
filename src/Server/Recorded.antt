-- ===== src/Server/Recorded.antt =====
-- What an answer to an objective's report promises.
use tf2_archipelago.Prelude.{
  ℕ, suc, ◌≡◌, refl, sym, subst, ◌⊎◌, inl, inr, Option, none, some, true, List, [], ◌∷◌, String,
  arith, nat_eq, string_eq, contains,
}
use tf2_archipelago.Gamedata.Kinds.{
  ObjectiveKind, wave_cleared, mission_cleared, giant_killed, tank_destroyed, tally_robots,
  tally_giants, tally_tanks,
}
use tf2_archipelago.Gamedata.Locations.{Location, location_by_objective}
use tf2_archipelago.Gamedata.Game.{Game}
use tf2_archipelago.State.Snapshot.{elems}
use tf2_archipelago.State.Disk.{write_snapshot}
use tf2_archipelago.State.Store.{
  Store, Env, Error, add_check, persist, note_progress as keep_progress, clear_progress,
}
use tf2_archipelago.State.Store.Lists.{contains-grow}
use tf2_archipelago.State.Store.Effects.{Kept, Grown, add_check_fields}
use tf2_archipelago.State.Store.Invariant.{Reach, here, next, check, progress, clear}
use tf2_archipelago.State.Store.Covered.{IsCovered, file_checked, file_played}
use tf2_archipelago.State.Store.Durable.{Reach-IsCovered, add_check_listed}
use tf2_archipelago.Server.Request.{Health, ObjectiveRequest, Server, no_content}
use tf2_archipelago.Prelude.Int.{ℤ, pos, negsuc}
use tf2_archipelago.Server.Observe.{note_wave_drift, drift_of}
use tf2_archipelago.Server.Tally.{Envs, add_checks}
use tf2_archipelago.Server.Objective.{
  post_plain, post_found, after_check, record_objective, pay, note_progress, victory_caches_paid_by,
}

-- The lists of checks of a store only grew.
abbrev pub Grew : Store → Store → Type 0
Grew s s' =
    (id : ℕ)
    → (contains s.snap.checks id ≡ true → contains s'.snap.checks id ≡ true)
      × (contains (elems s.snap.played) id ≡ true → contains (elems s'.snap.played) id ≡ true)

lists-Grew : (s s' : Store) (id : ℕ) → Grown id s s' ⊎ Kept s s' → Grew s s'
lists-Grew s s' id (inl (a, b)) j = (
  λ i. rw a (ground (arith, contains-grow s.snap.checks id j)),
  λ i. rw b (ground (arith, contains-grow (elems s.snap.played) id j)),
)
lists-Grew s s' id (inr (a, b)) j = (λ i. rw a i, λ i. rw b i)

add_check-Grew : (g : Game) (env : Env) (id : ℕ) (s : Store) → Grew s (add_check g env id s).0
add_check-Grew g env id s = lists-Grew s (add_check g env id s).0 id (add_check_fields g env id s).1

keep_progress-Kept :
    (env : Env) (pop : String) (wave : ℕ) (s : Store) → Kept s (keep_progress env pop wave s).0
unfolding keep_progress persist write_snapshot
keep_progress-Kept env pop wave s = ground arith

clear_progress-Kept : (env : Env) (pop : String) (s : Store) → Kept s (clear_progress env pop s).0
unfolding clear_progress persist write_snapshot
clear_progress-Kept env pop s = ground arith

note_progress-Grew :
    (env : Env) (kind : ObjectiveKind) (pop : String) (wave : ℕ) (s : Store)
    → Grew s (note_progress env kind pop wave s)
unfolding note_progress
note_progress-Grew env wave_cleared pop wave s id =
    lists-Grew s (keep_progress env pop wave s).0 0 (inr (keep_progress-Kept env pop wave s)) id
note_progress-Grew env mission_cleared pop wave s id =
    lists-Grew s (clear_progress env pop s).0 0 (inr (clear_progress-Kept env pop s)) id
note_progress-Grew env giant_killed pop wave s id = (λ i. i, λ i. i)
note_progress-Grew env tank_destroyed pop wave s id = (λ i. i, λ i. i)
note_progress-Grew env tally_robots pop wave s id = (λ i. i, λ i. i)
note_progress-Grew env tally_giants pop wave s id = (λ i. i, λ i. i)
note_progress-Grew env tally_tanks pop wave s id = (λ i. i, λ i. i)

note_progress-Reach :
    {g : Game} {s t : Store} (env : Env) (kind : ObjectiveKind) (pop : String) (wave : ℕ)
    → Reach g s t
    → Reach g s (note_progress env kind pop wave t)
unfolding note_progress
note_progress-Reach env wave_cleared pop wave r = next r (progress env pop wave)
note_progress-Reach env mission_cleared pop wave r = next r (clear env pop)
note_progress-Reach env giant_killed pop wave r = r
note_progress-Reach env tank_destroyed pop wave r = r
note_progress-Reach env tally_robots pop wave r = r
note_progress-Reach env tally_giants pop wave r = r
note_progress-Reach env tally_tanks pop wave r = r

add_checks-Grew :
    (g : Game) (envs : ℕ → Env) (n : ℕ) (ls : List Location) (s : Store)
    → Grew s (add_checks g envs n ls s)
unfolding add_checks
add_checks-Grew g envs n [] s id = (λ i. i, λ i. i)
add_checks-Grew g envs n (l ∷ ls) s id =
    let (a, b) = add_check-Grew g (envs n) l.id s id in
    let (c, d) = add_checks-Grew g envs (suc n) ls (add_check g (envs n) l.id s).0 id in
    (λ i. c (a i), λ i. d (b i))

pub add_checks-Reach :
    {g : Game} {s : Store} (envs : ℕ → Env) (n : ℕ) (ls : List Location) (t : Store)
    → Reach g s t
    → Reach g s (add_checks g envs n ls t)
unfolding add_checks
add_checks-Reach envs n [] t r = r
add_checks-Reach {g} envs n (l ∷ ls) t r =
    add_checks-Reach envs (suc n) ls (add_check g (envs n) l.id t).0 (next r (check (envs n) l.id))

-- A check is in the file of a store, as checked and as played.
abbrev pub IsDurable : ℕ → Store → Type 0
IsDurable id s = (file_checked s id ≡ true) × (file_played s id ≡ true)

-- What is listed stays in the file over the calls that follow the check in a handler.
paid-IsDurable :
    (g : Game) (envs : Envs) (kind : ObjectiveKind) (r : ObjectiveRequest) (caches : List Location)
    (id : ℕ) (s : Store)
    → IsCovered s
    → contains s.snap.checks id ≡ true
    → contains (elems s.snap.played) id ≡ true
    → IsDurable id
        (note_progress envs.last kind r.pop_file r.wave (add_checks g envs.checks 0 caches s))
paid-IsDurable g envs kind r caches id s h a b =
    let s1 = add_checks g envs.checks 0 caches s in
    let s2 = note_progress envs.last kind r.pop_file r.wave s1 in
    let steps =
      note_progress-Reach {g = g} {s = s} {t = s1} envs.last kind r.pop_file r.wave
        (add_checks-Reach {g = g} {s = s} envs.checks 0 caches s here) in
    let (c, d) = Reach-IsCovered {g = g} {s = s} {t = s2} h steps id in
    let (e, f) = add_checks-Grew g envs.checks 0 caches s id in
    let (k, l) = note_progress-Grew envs.last kind r.pop_file r.wave s1 id in
    (c (k (e a)), d (l (f b)))

pay-IsDurable :
    (g : Game) (envs : Envs) (kind : ObjectiveKind) (r : ObjectiveRequest)
    (caches : Option (List Location)) (id : ℕ) (s : Server) (t : Store)
    → IsCovered t
    → contains t.snap.checks id ≡ true
    → contains (elems t.snap.played) id ≡ true
    → (pay g envs kind r caches s t).1 ≡ no_content
    → IsDurable id (pay g envs kind r caches s t).0.store
unfolding pay
pay-IsDurable g envs kind r none id s t h a b e = ground arith
pay-IsDurable g envs kind r (some caches) id s t h a b e =
    paid-IsDurable g envs kind r caches id t h a b

after_check-IsDurable :
    (g : Game) (envs : Envs) (h : Health) (kind : ObjectiveKind) (r : ObjectiveRequest)
    (l : Location) (s : Server) (t : Store) (error : Option Error)
    → IsCovered t
    → (error ≡ none
        → (contains t.snap.checks l.id ≡ true) × (contains (elems t.snap.played) l.id ≡ true))
    → (after_check g envs h kind r l s t error).1 ≡ no_content
    → IsDurable l.id (after_check g envs h kind r l s t error).0.store
unfolding after_check
after_check-IsDurable g envs h kind r l s t (some e) covered listed q = ground arith
after_check-IsDurable g envs h kind r l s t none covered listed q =
    let caches = victory_caches_paid_by g l h.victory_caches in
    pay-IsDurable g envs kind r caches l.id s t covered (listed refl).0 (listed refl).1 q

record_objective-IsDurable :
    (g : Game) (envs : Envs) (h : Health) (kind : ObjectiveKind) (r : ObjectiveRequest)
    (l : Location) (s : Server)
    → IsCovered s.store
    → (record_objective g envs h kind r l s).1 ≡ no_content
    → IsDurable l.id (record_objective g envs h kind r l s).0.store
unfolding record_objective
record_objective-IsDurable g envs h kind r l s covered q =
    let t = (add_check g envs.first l.id s.store).0 in
    let now : IsCovered t =
      Reach-IsCovered {g = g} {s = s.store} {t = t} covered (next here (check envs.first l.id)) in
    after_check-IsDurable g envs h kind r l s t (add_check g envs.first l.id s.store).2 now
      (add_check_listed g envs.first l.id s.store) q

-- Where a report's location is in the file.
abbrev pub Recorded : Option (Option Location) → Store → Type 0
Recorded found s = (l : Location) × (found ≡ some (some l)) × IsDurable l.id s

note_wave_drift_store :
    (g : Game) (pop : String) (n : ℤ) (s : Server) → (note_wave_drift g pop n s).store ≡ s.store
unfolding note_wave_drift drift_of
note_wave_drift_store g pop (negsuc n) s = refl
note_wave_drift_store g pop (pos n) s = ground arith

-- An objective that is neither a tally nor one kill of a wave, and that is answered 204, has a
-- location, and by then that location's check is in the state file, as checked and as played, however
-- the writes of the call went, if the file covered the store before.
pub post_plain_durable :
    (g : Game) (envs : Envs) (h : Health) (kind : ObjectiveKind) (r : ObjectiveRequest) (s : Server)
    → IsCovered s.store
    → (post_plain g envs h kind r s).1 ≡ no_content
    → Recorded
        (location_by_objective g.tables kind r.pop_file r.wave)
        (post_plain g envs h kind r s).0.store
unfolding post_plain
post_plain_durable g envs h kind r s covered q =
    plain_durable (location_by_objective g.tables kind r.pop_file r.wave) q
  where
    plain_durable :
        (found : Option (Option Location))
        → (post_found g envs h kind r s found).1 ≡ no_content
        → Recorded found (post_found g envs h kind r s found).0.store
    plain_durable none q = ground arith
    plain_durable (some none) q = ground arith
    plain_durable (some (some l)) q =
        let s' = note_wave_drift g r.pop_file r.waves_total s in
        let same : s'.store ≡ s.store = note_wave_drift_store g r.pop_file r.waves_total s in
        let covered' : IsCovered s'.store = subst IsCovered (sym same) covered in
        (l, refl, record_objective-IsDurable g envs h kind r l s' covered' q)
