-- ===== src/State/Bind/Covered.antt =====
-- What the state file holds over a store's whole life.
use text.Mathlib.TextLemmas.{nil-append, cons-append}
use tf2_archipelago.Prelude.{
  ℕ, zero, suc, ◌+◌, ◌≡◌, ◌≢◌, refl, sym, ap, subst, ◌∙◌, inl, inr, Option, some, Bool, true, false,
  not, ◌&&◌, List, [], ◌∷◌, String, ◌<>◌, itoa, arith, nat_eq, string_eq, ◌==◌, ltb, Bool-cases,
  Option-cases, if◌then◌else◌,
}
use tf2_archipelago.Prelude.Dict.{lookup, erase, lookup-insert, lookup-insert_self}
use tf2_archipelago.Gamedata.Game.{Game}
use tf2_archipelago.State.Grants.{grants_from}
use tf2_archipelago.State.Snapshot.{
  Snapshot, StatePath, whole, archive_names, safe_seed_name, numbered_name, numbered_names,
}
use tf2_archipelago.State.Disk.{
  Disk, Entry, Move, moved, unmoved, unflushed, saved, Write, written, unwritten, unsynced,
  write_snapshot, free, first_free, head_or, move_file, archive_path, archive_snapshot,
}
use tf2_archipelago.State.Store.{Store, Env, Error, stranded, persist}
use tf2_archipelago.State.Store.Covered.{IsCovered, Writes, Writes-IsCovered}
use tf2_archipelago.State.Store.Durable.{Step-IsCovered}
use tf2_archipelago.State.Bind.{
  BindEnv, Rebind, bind_seed, first_seed, set_aside, take_over, bind_end, give_back, next_run,
  set_seed,
}
use tf2_archipelago.State.Bind.Calls.{Calls, begin, call, bind}

-- The characters of a text.
abbrev count : String → ℕ
count String.[] = 0
count (String.◌∷◌ c s) = suc (count s)

count-append : (a b : String) → count (a <> b) ≡ count a + count b
count-append String.[] b = ap count (nil-append b) ∙ omega arith
count-append (String.◌∷◌ c s) b = ap count (cons-append c s b) ∙ omega (arith, count-append s b)

-- A text that is longer than the name of the state file.
abbrev is_longer : StatePath → String → Bool
is_longer p name = ltb (count (whole p)) (count name)

longer_name : (p : StatePath) (x : String) → is_longer p (p.stem <> "." <> x <> p.ext) ≡ true
longer_name p x = ground (
  arith,
  count-append p.stem p.ext,
  count-append (p.stem <> "." <> x) p.ext,
  count-append (p.stem <> ".") x,
  count-append p.stem ".",
)

longer_numbered :
    (p : StatePath) (x y : String) → is_longer p (p.stem <> "." <> x <> "." <> y <> p.ext) ≡ true
longer_numbered p x y = ground (
  arith,
  count-append p.stem p.ext,
  count-append (p.stem <> "." <> x <> "." <> y) p.ext,
  count-append (p.stem <> "." <> x <> ".") y,
  count-append (p.stem <> "." <> x) ".",
  count-append (p.stem <> ".") x,
  count-append p.stem ".",
)

abbrev all_longer : StatePath → List String → Bool
all_longer p [] = true
all_longer p (n ∷ ns) = is_longer p n && all_longer p ns

numbered_names-longer :
    (p : StatePath) (seed : String) (k n : ℕ) → all_longer p (numbered_names p seed k n) ≡ true
unfolding numbered_names numbered_name
numbered_names-longer p seed zero n = refl
numbered_names-longer p seed (suc k) n = ground (
  arith,
  longer_numbered p (safe_seed_name seed) (itoa n),
  numbered_names-longer p seed k (suc n),
)

archive_names-longer :
    (p : StatePath) (seed : String)
    → (all_longer p (archive_names p seed) ≡ true)
      × (is_longer p (head_or (archive_names p seed)) ≡ true)
unfolding archive_names head_or
archive_names-longer p seed = (
  ground (arith, longer_name p (safe_seed_name seed), numbered_names-longer p seed 9 1),
  longer_name p (safe_seed_name seed),
)

first_free-longer :
    (p : StatePath) (disk : Disk) (names : List String) (n : String)
    → all_longer p names ≡ true
    → first_free disk names ≡ some n
    → is_longer p n ≡ true
unfolding first_free
first_free-longer p disk [] n h e = ground arith
first_free-longer p disk (x ∷ xs) n h e = elim (Bool-cases (free disk x)) [
  | inl f ↦ let same : x ≡ n = ground arith in subst (λ z. is_longer p z ≡ true) same (ground arith)
  | inr f ↦ first_free-longer p disk xs n (ground arith) (ground arith)
]

archive_path-longer :
    (disk : Disk) (p : StatePath) (seed : String) → is_longer p (archive_path disk p seed) ≡ true
unfolding archive_path
archive_path-longer disk p seed =
    let (all, head) = archive_names-longer p seed in
    elim (Option-cases (first_free disk (archive_names p seed))) [
      | inl e ↦ rw (archive_path, e) head
      | inr (n, e) ↦ rw (archive_path, e) (first_free-longer p disk (archive_names p seed) n all e)
    ]

-- An archive has another name than the state file.
archive_path-other :
    (disk : Disk) (p : StatePath) (seed : String) → (whole p == archive_path disk p seed) ≡ false
archive_path-other disk p seed = elim (Bool-cases (whole p == archive_path disk p seed)) [
  | inr e ↦ e
  | inl e ↦
      let same = (string_eq.beq_iff (whole p) (archive_path disk p seed)).0 e in
      absurd (ground (arith, archive_path-longer disk p seed, ap count same))
]

-- A store with the run and the file of another is covered as that one is.
IsCovered-by :
    (s s' : Store)
    → s'.snap ≡ s.snap
    → lookup (whole s'.path) s'.disk ≡ lookup (whole s.path) s.disk
    → IsCovered s
    → IsCovered s'
IsCovered-by s s' p q h id = (λ i. rw q ((h id).0 (rw (← p) i)), λ i. rw q ((h id).1 (rw (← p) i)))

-- A store is covered by a file that holds its run.
covers_self :
    (s : Store) (now : ℕ)
    → lookup (whole s.path) s.disk ≡ some (record { mtime = now; body = saved s.snap })
    → IsCovered s
covers_self s now q id = (λ i. rw q i, λ i. rw q i)

write_aside :
    (how : Write) (now : ℕ) (path other : String) (d : Snapshot) (disk : Disk)
    → (path == other) ≡ false
    → lookup other (write_snapshot how now path d disk).0 ≡ lookup other disk
unfolding write_snapshot
write_aside written now path other d disk e =
    let f : Entry = record { mtime = now; body = saved d } in
    lookup-insert path other f disk ∙ ap (λ b. if b then some f else lookup other disk) e
write_aside unwritten now path other d disk e = refl
write_aside unsynced now path other d disk e =
    let f : Entry = record { mtime = now; body = saved d } in
    lookup-insert path other f disk ∙ ap (λ b. if b then some f else lookup other disk) e

write_holds :
    (how : Write) (now : ℕ) (path : String) (d : Snapshot) (disk : Disk)
    → (write_snapshot how now path d disk).1 ≡ true
    → lookup path (write_snapshot how now path d disk).0
      ≡ some (record { mtime = now; body = saved d })
unfolding write_snapshot
write_holds written now path d disk h =
    lookup-insert_self path (record { mtime = now; body = saved d }) disk
write_holds unwritten now path d disk h = ground arith
write_holds unsynced now path d disk h = ground arith

lookup-move_file :
    (from to : String) (disk : Disk) (f : Entry)
    → lookup from disk ≡ some f
    → lookup to (move_file from to disk) ≡ some f
unfolding move_file
lookup-move_file from to disk f e = rw (move_file, e) (lookup-insert_self to f (erase from disk))

-- The file that a run was set aside into, if there was one, holds what the state file held.
abbrev HeldAside : String → Disk → Store → Type 0
HeldAside archive disk before =
    (archive == "") ≡ false
    → (f : Entry) × (lookup archive disk ≡ some f)
      × (lookup (whole before.path) before.disk ≡ some f)

Ends : Store × Rebind × Option Error → Type 0
Ends r = r.2 ≢ some stranded → IsCovered r.0

bind_end-Ends :
    (done back : Bool) (archive from : String) (before s : Store)
    → s.path ≡ before.path
    → (done ≡ true → IsCovered s)
    → HeldAside archive s.disk before
    → IsCovered before
    → Ends (bind_end done back archive from before s)
unfolding bind_end give_back Ends
bind_end-Ends true back archive from before s same new aside h = λ kept. new refl
bind_end-Ends false back archive from before s same new aside h =
    elim (Bool-cases (back && not (archive == ""))) [
      | inr e ↦ rw e (λ kept. absurd (kept refl))
      | inl e ↦
          let (f, there, was) = aside (ground arith) in
          rw e (λ kept.
            IsCovered-by before
              (record s {
                snap = before.snap;
                grants = before.grants;
                disk = move_file archive (whole s.path) s.disk;
              })
              refl (lookup-move_file archive (whole s.path) s.disk f there ∙ sym was) h)
    ]

take_over-Ends :
    (g : Game) (e : BindEnv) (next : Snapshot × String) (archive : String) (s : Store) (disk : Disk)
    → ((archive == "") ≡ false → (whole s.path == archive) ≡ false)
    → HeldAside archive disk s
    → IsCovered s
    → Ends (take_over g e next archive s disk)
unfolding take_over persist
take_over-Ends g e (next, from) archive s disk other aside h =
    let t : Store = record s { snap = next; grants = grants_from g next.items; disk = disk } in
    let q = persist e.env t in
    bind_end-Ends q.1 e.back archive from s q.0 refl
      (λ done.
        covers_self q.0 e.env.now (write_holds e.env.write e.env.now (whole s.path) next disk done))
      (λ named.
        let (f, there, was) = aside named in
        (
          f,
          write_aside e.env.write e.env.now (whole s.path) archive next disk (other named) ∙ there,
          was,
        ))
      h

free-lookup :
    (disk : Disk) (name : String)
    → free disk name ≡ false
    → (f : Entry) × (lookup name disk ≡ some f)
free-lookup disk name h = elim (Option-cases (lookup name disk)) [
  | inl e ↦ absurd (ground arith)
  | inr (f, e) ↦ (f, e)
]

-- What a `BindSeed` may end with: the rename of the state file did not fail after it had moved the file,
-- and the call did not leave the run in its archive.
abbrev pub Returns : BindEnv → Option Error → Type 0
Returns e why = (e.archive ≢ unflushed) × (why ≢ some stranded)

moved_aside-Ends :
    (g : Game) (e : BindEnv) (how : Move) (next : Snapshot × String) (s : Store)
    → how ≢ unflushed
    → free s.disk (whole s.path) ≡ false
    → IsCovered s
    → Ends (set_aside g e next s (archive_snapshot how s.path s.snap.seed s.disk))
unfolding archive_snapshot set_aside Ends
moved_aside-Ends g e moved next s ok there h =
    let archive = archive_path s.disk s.path s.snap.seed in
    let (f, at) = free-lookup s.disk (whole s.path) there in
    rw (archive_snapshot, there)
      (take_over-Ends g e next archive s (move_file (whole s.path) archive s.disk)
        (λ named. archive_path-other s.disk s.path s.snap.seed)
        (λ named. (f, lookup-move_file (whole s.path) archive s.disk f at, at)) h)
moved_aside-Ends g e unmoved next s ok there h =
    rw (archive_snapshot, there) (λ kept. IsCovered-by s s refl refl h)
moved_aside-Ends g e unflushed next s ok there h = absurd (ok refl)

set_aside-Ends :
    (g : Game) (e : BindEnv) (next : Snapshot × String) (s : Store)
    → e.archive ≢ unflushed
    → IsCovered s
    → Ends (set_aside g e next s (archive_snapshot e.archive s.path s.snap.seed s.disk))
unfolding archive_snapshot set_aside
set_aside-Ends g e next s ok h = elim (Bool-cases (free s.disk (whole s.path))) [
  | inl e' ↦
      rw (archive_snapshot, e')
        (take_over-Ends g e next "" s s.disk (λ named. ground arith) (λ named. ground arith) h)
  | inr e' ↦ moved_aside-Ends g e e.archive next s ok e' h
]

first_seed-Writes :
    (env : Env) (seed : String) (s : Store)
    → Writes env.now (set_seed s seed).snap s (first_seed env seed s).0
unfolding first_seed persist write_snapshot
first_seed-Writes env seed s = ground arith

bind_seed-IsCovered :
    (g : Game) (e : BindEnv) (seed : String) (s : Store)
    → Returns e (bind_seed g e seed s).2
    → IsCovered s
    → IsCovered (bind_seed g e seed s).0
unfolding bind_seed Ends
bind_seed-IsCovered g e seed s (ok, kept) h = ends kept
  where
    ends : Ends (bind_seed g e seed s)
    ends = elim (Bool-cases (s.snap.seed == seed)) [
      | inl same ↦ rw (bind_seed, same) (λ k. h)
      | inr other ↦ elim (Bool-cases (s.snap.seed == "")) [
        | inl new ↦
            rw (bind_seed, other, new)
              (λ k.
                Writes-IsCovered e.env.now (set_seed s seed).snap s (first_seed e.env seed s).0
                  (first_seed-Writes e.env seed s) h)
        | inr old ↦
            rw (bind_seed, other, old) (set_aside-Ends g e (next_run s.disk s.path seed) s ok h)
      ]
    ]

-- If a store's file covers it, then whatever calls of methods that write are made, `BindSeed` among
-- them, and however their writes end, every check that the store lists stands in its file, and every
-- check that it lists as played stands there as played. Left out are a `BindSeed` whose rename of the
-- file fails after the file has moved, and one that says that the run stayed in the archive.
pub Calls-IsCovered : {g : Game} {s t : Store} → IsCovered s → Calls Returns g s t → IsCovered t
Calls-IsCovered h begin = h
Calls-IsCovered h (call c st) = Step-IsCovered st (Calls-IsCovered h c)
Calls-IsCovered {g} h (bind e seed c p) = bind_seed-IsCovered g e seed _ p (Calls-IsCovered h c)
