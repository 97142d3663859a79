-- ===== src/Server/Refused.antt =====
-- That a report which is refused leaves no trace.
use tf2_archipelago.Prelude.{
  ℕ, ◌≡◌, refl, inl, inr, Option, none, some, List, arith, ltb, Bool-cases, if◌then◌else◌,
}
use tf2_archipelago.Gamedata.Kinds.{ObjectiveKind, is_tally, counter, milestone_key}
use tf2_archipelago.Gamedata.Locations.{Location, location_by_objective, location_by_wave_kill}
use tf2_archipelago.Gamedata.Game.{Game}
use tf2_archipelago.State.Store.{Store, Error, add_check, add_tally}
use tf2_archipelago.Server.Request.{
  Health, ObjectiveRequest, Server, Response, bad_request, no_content, status, objective_kind,
  aborted,
}
use tf2_archipelago.Prelude.Dict.{insert}
use tf2_archipelago.Gamedata.Kinds.{objective_eq}
use tf2_archipelago.Server.Counted.{report_of}
use tf2_archipelago.Server.Observe.{note_wave_drift}
use tf2_archipelago.Server.Tally.{Envs, post_tally, after_tally, out_of_range, is_repeat}
use tf2_archipelago.Server.Objective.{
  post_objective, post_plain, post_found, post_wave_kill, record_objective, record_kill,
  after_check, pay, kills_held,
}

-- A refusal changes nothing.
abbrev IsKept : Server → Server × Response → Type 0
IsKept s (s', answer) = answer ≡ bad_request → s' ≡ s

pay-IsKept :
    (g : Game) (envs : Envs) (kind : ObjectiveKind) (r : ObjectiveRequest)
    (caches : Option (List Location)) (s t : Server) (store : Store)
    → IsKept t (pay g envs kind r caches s store)
unfolding pay
pay-IsKept g envs kind r none s t store h = ground arith
pay-IsKept g envs kind r (some caches) s t store h = ground arith

after_check-IsKept :
    (g : Game) (envs : Envs) (h : Health) (kind : ObjectiveKind) (r : ObjectiveRequest)
    (l : Location) (s t : Server) (store : Store) (error : Option Error)
    → IsKept t (after_check g envs h kind r l s store error)
unfolding after_check
after_check-IsKept g envs h kind r l s t store (some e) q = ground arith
after_check-IsKept g envs h kind r l s t store none q = pay-IsKept g envs kind r _ s t store q

found-IsKept :
    (g : Game) (envs : Envs) (h : Health) (kind : ObjectiveKind) (r : ObjectiveRequest) (s : Server)
    (found : Option (Option Location))
    → IsKept s (post_found g envs h kind r s found)
unfolding post_found record_objective
found-IsKept g envs h kind r s none q = refl
found-IsKept g envs h kind r s (some none) q = refl
found-IsKept g envs h kind r s (some (some l)) q =
    let s' = note_wave_drift g r.pop_file r.waves_total s in
    let (store, fresh, error) = add_check g envs.first l.id s'.store in
    after_check-IsKept g envs h kind r l s' s store error q

post_plain-IsKept :
    (g : Game) (envs : Envs) (h : Health) (kind : ObjectiveKind) (r : ObjectiveRequest) (s : Server)
    → IsKept s (post_plain g envs h kind r s)
unfolding post_plain
post_plain-IsKept g envs h kind r s =
    found-IsKept g envs h kind r s (location_by_objective g.tables kind r.pop_file r.wave)

kill_answer :
    (error : Option Error)
    → (elim error as (λ _. Response) [ some e ↦ status 500 | none ↦ no_content ]) ≡ bad_request
    → ⊥
kill_answer none h = ground arith
kill_answer (some e) h = ground arith

record_kill-IsKept :
    (g : Game) (envs : Envs) (l : Location) (s : Server) → IsKept s (record_kill g envs l s)
unfolding record_kill
record_kill-IsKept g envs l s q = absurd (kill_answer (add_check g envs.first l.id s.store).2 q)

kill_found-IsKept :
    (g : Game) (envs : Envs) (s : Server) (found : Option (Option Location))
    → IsKept s (elim found as (λ _. Server × Response) [
      | none ↦ (s, aborted)
      | some l ↦ elim l as (λ _. Server × Response) [
        | none ↦ (s, no_content)
        | some l ↦ record_kill g envs l s
      ]
    ])
kill_found-IsKept g envs s none q = refl
kill_found-IsKept g envs s (some none) q = refl
kill_found-IsKept g envs s (some (some l)) q = record_kill-IsKept g envs l s q

post_wave_kill-IsKept :
    (g : Game) (envs : Envs) (h : Health) (kind : ObjectiveKind) (r : ObjectiveRequest) (s : Server)
    → IsKept s (post_wave_kill g envs h kind r s)
unfolding post_wave_kill
post_wave_kill-IsKept g envs h kind r s = elim (Bool-cases (kills_held h kind)) [
  | inl e ↦
      rw e
        (kill_found-IsKept g envs s (location_by_wave_kill g.tables kind r.pop_file r.wave r.index))
  | inr e ↦ rw e (λ q. refl)
]

after_tally-IsKept :
    (g : Game) (envs : Envs) (h : Health) (kind : ObjectiveKind) (s t : Server)
    (done : Store × ℕ × Option Error)
    → IsKept t (after_tally g envs h kind s done)
unfolding after_tally
after_tally-IsKept g envs h kind s t (store, total, some e) q = ground arith
after_tally-IsKept g envs h kind s t (store, total, none) q = ground arith

post_tally-IsKept :
    (g : Game) (envs : Envs) (h : Health) (kind : ObjectiveKind) (r : ObjectiveRequest) (s : Server)
    → IsKept s (post_tally g envs h kind r s)
unfolding post_tally
post_tally-IsKept g envs h kind r s = elim (Bool-cases (out_of_range r.count)) [
  | inl e ↦ rw e (λ q. refl)
  | inr e ↦ elim (Bool-cases (is_repeat kind (report_of r) s.tally_seen)) [
    | inl f ↦ rw (e, f) (λ q. refl)
    | inr f ↦
        rw (e, f)
          (after_tally-IsKept g envs h kind
            (record s { tally_seen = insert kind (report_of r) s.tally_seen }) s
            (add_tally envs.first (milestone_key (counter kind)) r.count s.store))
  ]
]

-- A report that is answered 400 leaves the server as it was, whatever kind it is of: the store, the
-- totals, the reports seen and what is kept for the operator.
pub post_objective_refused :
    (g : Game) (envs : Envs) (h : Health) (r : Option ObjectiveRequest) (s : Server)
    → (post_objective g envs h r s).1 ≡ bad_request
    → (post_objective g envs h r s).0 ≡ s
unfolding post_objective
post_objective_refused g envs h none s q = refl
post_objective_refused g envs h (some r) s q = of_kind (objective_kind r.kind) q
  where
    of_kind :
        (kind : Option ObjectiveKind)
        → IsKept s (elim kind as (λ _. Server × Response) [
          | none ↦ (s, bad_request)
          | some kind ↦
              if is_tally kind
              then post_tally g envs h kind r s
              else if ltb 0 r.index
              then post_wave_kill g envs h kind r s
              else post_plain g envs h kind r s
        ])
    of_kind none = λ q. refl
    of_kind (some kind) = elim (Bool-cases (is_tally kind)) [
      | inl e ↦ rw e (post_tally-IsKept g envs h kind r s)
      | inr e ↦ elim (Bool-cases (ltb 0 r.index)) [
        | inl f ↦ rw (e, f) (post_wave_kill-IsKept g envs h kind r s)
        | inr f ↦ rw (e, f) (post_plain-IsKept g envs h kind r s)
      ]
    ]
