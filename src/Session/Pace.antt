-- ===== src/Session/Pace.antt =====
-- How often the game server may speak to the multiworld and kill it (`bucket` of
-- bridge/internal/apclient/say.go, `deaths` of bridge/internal/apclient/deathlink.go), and how long the
-- session waits before it connects again (`Run` of bridge/internal/apclient/client.go). Times are
-- nanoseconds of a monotonic clock, and an amount of tokens is counted in the nanoseconds that refill
-- it, where the source divides in floating point.
use tf2_archipelago.Prelude.{
  ℕ, zero, suc, ◌∙◌, ◌+◌, ◌-◌, ◌*◌, ◌≤◌, ◌≡◌, refl, inl, inr, Option, none, some, Bool, true, false,
  List, [], ◌∷◌, arith, leb, ltb, ◌&&◌, subst, min, Bool-cases, if◌then◌else◌,
}

abbrev pub second : ℕ
second = 1000000000

-- `sayRefill`, and `sayBurst` lines of it.
abbrev pub say_refill : ℕ
say_refill = 3 * second

abbrev pub say_full : ℕ
say_full = 5 * say_refill

abbrev pub death_interval_min : ℕ
death_interval_min = 5 * second

-- `bucket`: the tokens are what they would take to refill.
pub record Bucket : Type 0 where
  pub tokens : ℕ
  pub last : ℕ

-- `newBucket`.
unfoldable pub new_bucket : ℕ → Bucket
new_bucket at = record { tokens = say_full; last = at }

-- `bucket.take`.
unfoldable pub take_token : ℕ → Bucket → Bucket × Bool
take_token at b =
    let tokens = min say_full (b.tokens + (at - b.last)) in
    if ltb tokens say_refill
    then (record { tokens = tokens; last = at }, false)
    else (record { tokens = tokens - say_refill; last = at }, true)

-- `deaths.take`; the zero time is `none`.
unfoldable pub take_death : ℕ → Option ℕ → Option ℕ × Bool
take_death at none = (some at, true)
take_death at (some last) =
    if ltb (at - last) death_interval_min then (some last, false) else (some at, true)

-- The wait after a session that ended, and the one to wait after that, from how long it lasted.
unfoldable pub next_backoff : ℕ → ℕ → ℕ × ℕ
next_backoff lasted backoff =
    let wait = if ltb (30 * second) lasted then second else backoff in
    (wait, min (wait * 2) (30 * second))

-- The times never go back, from a time on.
abbrev pub is_forward : ℕ → List ℕ → Bool
is_forward from [] = true
is_forward from (at ∷ times) = leb from at && is_forward at times

abbrev pub last_time : ℕ → List ℕ → ℕ
last_time from [] = from
last_time from (at ∷ times) = last_time at times

-- How many of a sequence of lines get a token.
abbrev pub lines_let_through : Bucket → List ℕ → ℕ
lines_let_through b [] = 0
lines_let_through b (at ∷ times) =
    (if (take_token at b).1 then 1 else 0) + lines_let_through (take_token at b).0 times

take_token_cost :
    (at : ℕ) (b : Bucket)
    → let (b', let_through) = take_token at b in
      (b'.last ≡ at)
      × (b'.tokens + (if let_through then 1 else 0) * say_refill ≤ b.tokens + (at - b.last))
unfolding take_token
take_token_cost at b = ground arith

forward_last :
    (times : List ℕ) (from : ℕ) → is_forward from times ≡ true → from ≤ last_time from times
forward_last [] from f = omega arith
forward_last (at ∷ times) from f = ground (arith, forward_last times at)

-- From a bucket on, over times that never go back, the lines let through cost no more than the
-- tokens there are and what refills in the meantime, three seconds a line.
pub bucket_budget :
    (times : List ℕ) (b : Bucket)
    → is_forward b.last times ≡ true
    → lines_let_through b times * say_refill ≤ b.tokens + (last_time b.last times - b.last)
bucket_budget [] b f = omega arith
bucket_budget (at ∷ times) b f =
    let (same, cost) = take_token_cost at b in
    let late : b.last ≤ at = ground arith in
    let on : is_forward at times ≡ true = ground arith in
    let b' = (take_token at b).0 in
    let on' : is_forward b'.last times ≡ true = rw same on in
    let rest = bucket_budget times b' on' in
    let rest' : lines_let_through b' times * say_refill ≤ b'.tokens + (last_time at times - at) =
      subst (λ x. lines_let_through b' times * say_refill ≤ b'.tokens + (last_time x times - x))
        same rest in
    let after = forward_last times at on in omega (arith, cost, rest', late, after)

-- The times at which a death goes out.
abbrev pub deaths_sent : Option ℕ → List ℕ → List ℕ
deaths_sent last [] = []
deaths_sent last (at ∷ times) =
    let rest = deaths_sent (take_death at last).0 times in
    if (take_death at last).1 then at ∷ rest else rest

-- Each time is a death's interval past the one before it at the least.
abbrev pub is_apart : Option ℕ → List ℕ → Bool
is_apart last [] = true
is_apart none (at ∷ times) = is_apart (some at) times
is_apart (some last) (at ∷ times) = leb (last + death_interval_min) at && is_apart (some at) times

-- Whatever deaths are reported and when, those that go out are five seconds apart at the least.
pub deaths_sent_apart :
    (times : List ℕ) (last : Option ℕ) → is_apart last (deaths_sent last times) ≡ true
unfolding take_death
deaths_sent_apart [] last = refl
deaths_sent_apart (at ∷ times) none = deaths_sent_apart times (some at)
deaths_sent_apart (at ∷ times) (some last) =
    elim (Bool-cases (ltb (at - last) death_interval_min)) [
      | inl e ↦ rw e (deaths_sent_apart times (some last))
      | inr e ↦
          let h : last + death_interval_min ≤ at = ground arith in
          let t = deaths_sent_apart times (some at) in rw e (ground (arith, t))
    ]

-- What is kept for the next wait after sessions that lasted so long each, the newest first.
abbrev backoff_after : List ℕ → ℕ
backoff_after [] = second
backoff_after (lasted ∷ older) = (next_backoff lasted (backoff_after older)).1

-- The wait after the newest of the sessions.
abbrev pub wait_after : ℕ → List ℕ → ℕ
wait_after lasted older = (next_backoff lasted (backoff_after older)).0

-- How many sessions came after the last that was longer than thirty seconds, or after the first one
-- where none was.
abbrev pub streak : ℕ → List ℕ → ℕ
streak lasted [] = 0
streak lasted (before ∷ older) = if ltb (30 * second) lasted then 0 else suc (streak before older)

-- A number doubled so many times.
abbrev pub doubled : ℕ → ℕ → ℕ
doubled zero n = n
doubled (suc k) n = 2 * doubled k n

next_backoff_long :
    (lasted backoff : ℕ)
    → ltb (30 * second) lasted ≡ true
    → (next_backoff lasted backoff).0 ≡ second
unfolding next_backoff
next_backoff_long lasted backoff h = rw h refl

next_backoff_short :
    (lasted backoff : ℕ)
    → ltb (30 * second) lasted ≡ false
    → (next_backoff lasted backoff).0 ≡ backoff
unfolding next_backoff
next_backoff_short lasted backoff h = rw h refl

next_backoff_kept :
    (lasted backoff : ℕ)
    → (next_backoff lasted backoff).1 ≡ min ((next_backoff lasted backoff).0 * 2) (30 * second)
unfolding next_backoff
next_backoff_kept lasted backoff = refl

doubled_again :
    (w a : ℕ) → w ≡ min a (30 * second) → min (w * 2) (30 * second) ≡ min (2 * a) (30 * second)
doubled_again w a h = ground arith

-- The wait before a new session is a second, doubled once for each session that came after the last
-- that was longer than thirty seconds, or after the first one where none was, and it is thirty seconds
-- at most.
pub wait_after-streak :
    (lasted : ℕ) (older : List ℕ)
    → wait_after lasted older ≡ min (doubled (streak lasted older) second) (30 * second)
wait_after-streak lasted [] = elim (Bool-cases (ltb (30 * second) lasted)) [
  | inl e ↦ next_backoff_long lasted second e
  | inr e ↦ next_backoff_short lasted second e
]
wait_after-streak lasted (before ∷ older) = elim (Bool-cases (ltb (30 * second) lasted)) [
  | inl e ↦ rw e (next_backoff_long lasted (backoff_after (before ∷ older)) e)
  | inr e ↦ rw e (
      next_backoff_short lasted (backoff_after (before ∷ older)) e
      ∙ next_backoff_kept before (backoff_after older)
      ∙ doubled_again (wait_after before older) (doubled (streak before older) second)
          (wait_after-streak before older))
]
