-- ===== src/Server/Counted.antt =====
-- What a tally's report does to the running totals.
use tf2_archipelago.Prelude.{
  ℕ, ◌+◌, ◌≡◌, refl, sym, ap, subst, ◌∙◌, inl, inr, Option, none, some, true, false, not, ◌&&◌,
  String, arith, nat_eq, string_eq, nat_beq_iff, ltb, Bool-cases,
}
use tf2_archipelago.Prelude.Int.{ℤ, pos, negsuc}
use tf2_archipelago.Prelude.Dict.{Dict, lookup, insert, value, lookup-insert_self}
use tf2_archipelago.Gamedata.Kinds.{ObjectiveKind, objective_eq, counter, milestone_key}
use tf2_archipelago.Gamedata.Game.{Game}
use tf2_archipelago.State.Disk.{write_snapshot, written, unwritten}
use tf2_archipelago.State.Store.{Store, Env, Error, write_failed, add_tally, persist}
use tf2_archipelago.Server.Request.{
  Health, ObjectiveRequest, TallyReport, no_report, same_report, int_beq, Server, no_content,
  server_error, set_store,
}
use tf2_archipelago.Server.Tally.{Envs, seen, is_repeat, out_of_range, after_tally, post_tally}

int_beq_refl : (i : ℤ) → int_beq i i ≡ true
int_beq_refl (pos n) = (nat_beq_iff n n).1 refl
int_beq_refl (negsuc n) = (nat_beq_iff n n).1 refl

after_tally_seen :
    (g : Game) (envs : Envs) (h : Health) (kind : ObjectiveKind) (s : Server)
    (done : Store × ℕ × Option Error)
    → (after_tally g envs h kind s done).0.tally_seen ≡ s.tally_seen
unfolding after_tally
after_tally_seen g envs h kind s (store, total, some e) = refl
after_tally_seen g envs h kind s (store, total, none) = ground arith

abbrev pub report_of : ObjectiveRequest → TallyReport
report_of r = record { session = r.session; id = r.id }

seen_some :
    {r : TallyReport} (o : Option TallyReport)
    → o ≡ some r
    → (elim o as (λ _. TallyReport) [ none ↦ no_report | some r ↦ r ]) ≡ r
seen_some o e = rw e refl

seen-insert :
    (kind : ObjectiveKind) (r : TallyReport) (m : Dict ObjectiveKind TallyReport)
    → seen kind (insert kind r m) ≡ r
seen-insert kind r m = seen_some (lookup kind (insert kind r m)) (lookup-insert_self kind r m)

-- A report that is remembered is a repeat when it comes again.
is_repeat-insert :
    (kind : ObjectiveKind) (r : TallyReport) (m : Dict ObjectiveKind TallyReport)
    → int_beq r.id (pos 0) ≡ false
    → is_repeat kind r (insert kind r m) ≡ true
is_repeat-insert kind r m numbered =
    let f : seen kind (insert kind r m) ≡ r = seen-insert kind r m in
    let a = int_beq_refl r.session in
    let b = int_beq_refl r.id in
    subst (λ z. (not (int_beq r.id (pos 0)) && same_report z r) ≡ true) (sym f)
      (rw (numbered, a, b) refl)

-- Once a report has been looked at, it is the one that was last taken of its kind.
post_tally_seen :
    (g : Game) (envs : Envs) (h : Health) (kind : ObjectiveKind) (r : ObjectiveRequest) (s : Server)
    → out_of_range r.count ≡ false
    → int_beq r.id (pos 0) ≡ false
    → is_repeat kind (report_of r) (post_tally g envs h kind r s).0.tally_seen ≡ true
unfolding post_tally
post_tally_seen g envs h kind r s range numbered =
    elim (Bool-cases (is_repeat kind (report_of r) s.tally_seen)) [
      | inl again ↦ rw (post_tally, range, again) again
      | inr fresh ↦
          let s' : Server = record s { tally_seen = insert kind (report_of r) s.tally_seen } in
          let e =
            after_tally_seen g envs h kind s'
              (add_tally envs.first (milestone_key (counter kind)) r.count s.store) in
          rw (post_tally, range, fresh)
            (subst (λ m. is_repeat kind (report_of r) m ≡ true) (sym e)
              (is_repeat-insert kind (report_of r) s.tally_seen numbered))
    ]

-- A repeat is answered and changes nothing.
repeat_ignored :
    (g : Game) (envs : Envs) (h : Health) (kind : ObjectiveKind) (r : ObjectiveRequest) (s : Server)
    → out_of_range r.count ≡ false
    → is_repeat kind (report_of r) s.tally_seen ≡ true
    → post_tally g envs h kind r s ≡ (s, no_content)
unfolding post_tally
repeat_ignored g envs h kind r s range again = rw (range, again) refl

-- A tally's report that has a number, and a count in range, is counted once at most when it comes
-- twice in a row: the second time the server stays as it was and answers 204, whatever the writes
-- of the first did and whatever the session was at either time.
pub post_tally_once :
    (g : Game) (envs envs' : Envs) (h h' : Health) (kind : ObjectiveKind) (r : ObjectiveRequest)
    (s : Server)
    → out_of_range r.count ≡ false
    → int_beq r.id (pos 0) ≡ false
    → let s' = (post_tally g envs h kind r s).0 in
      post_tally g envs' h' kind r s' ≡ (s', no_content)
post_tally_once g envs envs' h h' kind r s range numbered =
    repeat_ignored g envs' h' kind r (post_tally g envs h kind r s).0 range
      (post_tally_seen g envs h kind r s range numbered)

-- A write that fails leaves the totals in memory as they were.
add_tally_failed :
    (env : Env) (kind : String) (n : ℕ) (s : Store)
    → env.write ≡ unwritten
    → ltb 0 n ≡ true
    → ((add_tally env kind (pos n) s).2 ≡ some write_failed)
      × (value kind (add_tally env kind (pos n) s).0.snap.tallies ≡ value kind s.snap.tallies)
unfolding add_tally persist write_snapshot
add_tally_failed env kind n s w h =
    let held = value kind s.snap.tallies in
    ground (arith, lookup-insert_self kind held (insert kind (held + n) s.snap.tallies))

add_tally_done :
    (env : Env) (kind : String) (n : ℕ) (s : Store)
    → env.write ≡ written
    → ((add_tally env kind (pos n) s).2 ≡ none)
      × (value kind (add_tally env kind (pos n) s).0.snap.tallies ≡ value kind s.snap.tallies + n)
unfolding add_tally persist write_snapshot
add_tally_done env kind n s w =
    let held = value kind s.snap.tallies in
    ground (arith, lookup-insert_self kind (held + n) s.snap.tallies)

after_error :
    (g : Game) (envs : Envs) (h : Health) (kind : ObjectiveKind) (s : Server)
    (done : Store × ℕ × Option Error) (e : Error)
    → done.2 ≡ some e
    → after_tally g envs h kind s done ≡ (set_store s done.0, server_error)
unfolding after_tally
after_error g envs h kind s (store, total, error) e p = rw p refl

-- A numbered report of robots that fell, in range and not a repeat, whose write fails and leaves
-- the file alone, is answered 500; the same report sent again is answered 204, and the total of
-- its kind is then what it was before the first.
pub post_tally_lost :
    (g : Game) (envs envs' : Envs) (h : Health) (kind : ObjectiveKind) (r : ObjectiveRequest)
    (n : ℕ) (s : Server)
    → r.count ≡ pos n
    → out_of_range r.count ≡ false
    → ltb 0 n ≡ true
    → int_beq r.id (pos 0) ≡ false
    → is_repeat kind (report_of r) s.tally_seen ≡ false
    → envs.first.write ≡ unwritten
    → let first = post_tally g envs h kind r s in
      let again = post_tally g envs' h kind r first.0 in
      let key = milestone_key (counter kind) in
      (first.1 ≡ server_error)
      × (again.1 ≡ no_content)
      × (value key again.0.store.snap.tallies ≡ value key s.store.snap.tallies)
unfolding post_tally
post_tally_lost g envs envs' h kind r n s count range some_fell numbered fresh failed =
    let key = milestone_key (counter kind) in
    let s' : Server = record s { tally_seen = insert kind (report_of r) s.tally_seen } in
    let done = add_tally envs.first key r.count s.store in
    let (a, b) = add_tally_failed envs.first key n s.store failed some_fell in
    let a' : done.2 ≡ some write_failed = rw count a in
    let b' : value key done.0.snap.tallies ≡ value key s.store.snap.tallies = rw count b in
    let e : post_tally g envs h kind r s ≡ (set_store s' done.0, server_error) =
      rw (range, fresh) (after_error g envs h kind s' done write_failed a') in
    let twice = post_tally_once g envs envs' h h kind r s range numbered in
    (
      ap (λ p. p.1) e,
      ap (λ p. p.1) twice,
      ap (λ p. value key p.0.store.snap.tallies) twice
          ∙ ap (λ p. value key p.0.store.snap.tallies) e
          ∙ b',
    )
