-- ===== src/Feed/DeathLink.antt =====
-- The feed of the multiworld's deaths (bridge/internal/deathlink/feed.go). The channel that an append
-- closes is counted, as in the store.
use tf2_archipelago.Prelude.{
  ℕ, suc, ◌+◌, ◌≤◌, ◌≡◌, refl, sym, ap, ◌∙◌, List, [], ◌∷◌, ◌++◌, String, arith, ltb, length, subst,
  inl, inr, Bool-cases, drop, keep, ◌-◌, if◌then◌else◌,
}
use mathlib.Core.List.{append-nil, append_assoc}
use tf2_archipelago.Prelude.Int.{ℤ, pos, negsuc}
use tf2_archipelago.Prelude.Laws.{length-append}
use tf2_archipelago.Feed.Ring.{
  newest, newest-append, length-newest, numbered, numbered-append, keep-newest, newest_nil,
}

pub record Death : Type 0 where
  pub seq : ℕ
  pub source : String
  pub cause : String

pub record Feed : Type 0 where
  pub capacity : ℕ
  pub deaths : List Death
  pub latest : ℕ
  pub generation : ℕ

-- `New`.
unfoldable pub new : ℤ → Feed
new (negsuc n) = record { capacity = 1; deaths = []; latest = 0; generation = 0 }
new (pos n) = record {
  capacity = if ltb n 1 then 1 else n;
  deaths = [];
  latest = 0;
  generation = 0;
}

-- `slices.Delete(xs, 0, len(xs)-capacity)` where the list is longer than that.
trim : ℕ → List Death → List Death
trim capacity deaths =
    if ltb capacity (length deaths) then drop (length deaths - capacity) deaths else deaths

-- `Feed.Append`.
unfoldable pub append : Feed → String → String → Feed
unfolding trim
append f source cause = record f {
  deaths =
      trim f.capacity
        (f.deaths ++ (record { seq = suc f.latest; source = source; cause = cause } ∷ []));
  latest = suc f.latest;
  generation = suc f.generation;
}

-- `Feed.Since`: a nil slice is an empty one here, as every caller takes it.
unfoldable pub since : Feed → ℤ → List Death × ℕ
since f (negsuc n) = ([], f.latest)
since f (pos seq) = (keep (λ d. ltb seq d.seq) f.deaths, f.latest)

-- The death that is reported as the `n`th.
abbrev pub death : ℕ → String × String → Death
death n (source, cause) = record { seq = n; source = source; cause = cause }

-- The feed after a history of deaths.
abbrev pub appended : Feed → List (String × String) → Feed
appended f [] = f
appended f ((source, cause) ∷ history) = appended (append f source cause) history

-- A feed that promises no more than this: of its history it holds the newest entries, each with its
-- place in the history.
pub record Holds (history : List (String × String)) (f : Feed) : Type 0 where
  pub deaths_newest : f.deaths ≡ newest f.capacity (numbered death 1 history)
  pub latest_length : f.latest ≡ length history

trim-newest : (capacity : ℕ) (deaths : List Death) → trim capacity deaths ≡ newest capacity deaths
unfolding trim
trim-newest capacity deaths = elim (Bool-cases (ltb capacity (length deaths))) [
  | inl e ↦ rw e
  | inr e ↦
      let z : length deaths - capacity ≡ 0 = ground arith in rw e (sym (ap (λ n. drop n deaths) z))
]

append-Holds :
    (history : List (String × String)) (source cause : String) (f : Feed)
    → Holds history f
    → Holds (history ++ ((source, cause) ∷ [])) (append f source cause)
unfolding append
append-Holds history source cause f h =
    let one : List (String × String) = (source, cause) ∷ [] in
    let all = numbered death 1 history in
    let n : suc f.latest ≡ length history + 1 = omega (arith, h.latest_length) in
    record {
      deaths_newest =
          trim-newest f.capacity (f.deaths ++ (death (suc f.latest) (source, cause) ∷ []))
          ∙ ap (λ z. newest f.capacity (z ++ numbered death (suc f.latest) one)) h.deaths_newest
          ∙ newest-append f.capacity all (numbered death (suc f.latest) one)
          ∙ ap (λ m. newest f.capacity (all ++ numbered death m one)) n
          ∙ ap (newest f.capacity) (sym (numbered-append death 1 history one));
      latest_length = omega (arith, h.latest_length, length-append history one);
    }

appended-Holds :
    (before history : List (String × String)) (f : Feed)
    → Holds before f
    → Holds (before ++ history) (appended f history)
appended-Holds before [] f h = subst (λ z. Holds z f) (sym (append-nil before)) h
appended-Holds before ((source, cause) ∷ history) f h =
    subst (λ z. Holds z (appended (append f source cause) history))
      (append_assoc before ((source, cause) ∷ []) history)
      (appended-Holds (before ++ ((source, cause) ∷ [])) history (append f source cause)
        (append-Holds before source cause f h))

new-Holds : (n : ℤ) → Holds [] (new n)
unfolding new
new-Holds (negsuc n) = record { deaths_newest = refl; latest_length = refl }
new-Holds (pos n) = record {
  deaths_newest = sym (newest_nil (if ltb n 1 then 1 else n));
  latest_length = refl;
}

new-appended : (n : ℤ) (history : List (String × String)) → Holds history (appended (new n) history)
new-appended n history = appended-Holds [] history (new n) (new-Holds n)

appended_capacity :
    (f : Feed) (history : List (String × String)) → (appended f history).capacity ≡ f.capacity
unfolding append
appended_capacity f [] = refl
appended_capacity f ((source, cause) ∷ history) = appended_capacity (append f source cause) history

-- Whatever deaths a feed was given since it was made, it holds the newest of them, each numbered by its
-- place among all of them, no more than its capacity of them, and its latest number is how many there
-- were.
pub feed_newest :
    (n : ℤ) (history : List (String × String))
    → let f = appended (new n) history in
      (f.deaths ≡ newest (new n).capacity (numbered death 1 history))
      × (f.latest ≡ length history)
      × (length f.deaths ≤ (new n).capacity)
feed_newest n history =
    let h = new-appended n history in
    let c = appended_capacity (new n) history in
    let e = h.deaths_newest ∙ ap (λ k. newest k (numbered death 1 history)) c in
    (
      e,
      h.latest_length,
      omega (arith, ap length e, length-newest (new n).capacity (numbered death 1 history)),
    )

-- A reader that asks from a number gets exactly the deaths that came after it, in order, and the number
-- to ask from next, as long as no more of them came than the feed's capacity.
pub deaths_since_exact :
    (n : ℤ) (seen : ℕ) (history : List (String × String))
    → length history ≤ seen + (new n).capacity
    → since (appended (new n) history) (pos seen)
      ≡ (drop seen (numbered death 1 history), length history)
unfolding since
deaths_since_exact n seen history h =
    let (e, l, _) = feed_newest n history in
    let k = keep-newest death (λ d. d.seq) (λ m x. refl) (new n).capacity seen history h in
    rw (e, l, k)
