-- ===== src/Tests/Session.antt =====
-- Theorems of the session at small inputs.
use tf2_archipelago.Prelude.{
  ◌<>◌, ◌+◌, ◌*◌, ◌-◌, ◌≤◌, ◌≡◌, refl, none, some, true, [], ◌∷◌, String, arith, contains, nat_eq,
  string_eq, inl, inr, subst, ◌==◌, Bool-cases,
}
use tf2_archipelago.Prelude.Int.{pos}
use tf2_archipelago.Gamedata.Tables.{mission_by_pop_file}
use tf2_archipelago.Gamedata.Ids.{clear_location_id}
use tf2_archipelago.Session.Say.{
  say, say_safe, say_command, check_sayable, bang, is_word, is_behind_word, say_commands_allowed,
  text_length, say_length_max,
}
use tf2_archipelago.Session.Pace.{
  Bucket, second, take_token, say_refill, lines_let_through, last_time, bucket_budget, deaths_sent,
  is_apart, deaths_sent_apart, next_backoff, wait_after, wait_after-streak,
}
use tf2_archipelago.Session.Goal.{
  SlotData, validate, is_known, is_cleared, goal_reached, goal_reachable, goal_reached_more,
}
use tf2_archipelago.Tests.Game.{small_tables}

abbrev same : String → String
same s = s

abbrev hint : String
hint = "!hint sword"

abbrev full : Bucket
full = record { tokens = 15000000000; last = 0 }

sent : (say same 1 true true hint full).2 ≡ some hint
unfolding say check_sayable text_length say_command take_token
sent = refl

say_safe_example :
    (hint ≡ hint)
    × (text_length hint ≤ say_length_max)
    × ((word rest : String)
        → hint ≡ String.◌∷◌ bang (word <> rest)
        → is_word word ≡ true
        → is_behind_word rest ≡ true
        → contains say_commands_allowed (same word) ≡ true)
    × ((take_token 1 full).1 ≡ true)
    × (true ≡ true)
say_safe_example = say_safe same 1 true true hint hint full sent

bucket_budget_example :
    lines_let_through full (1 ∷ 2 ∷ 4000000000 ∷ []) * say_refill
    ≤ full.tokens + (last_time full.last (1 ∷ 2 ∷ 4000000000 ∷ []) - full.last)
bucket_budget_example = bucket_budget (1 ∷ 2 ∷ 4000000000 ∷ []) full refl

deaths_sent_apart_example : is_apart none (deaths_sent none (1 ∷ 2 ∷ 6000000000 ∷ [])) ≡ true
deaths_sent_apart_example = deaths_sent_apart (1 ∷ 2 ∷ 6000000000 ∷ []) none

-- Two short sessions after a long one.
wait_after-streak_example : wait_after 5 (7 ∷ (40 * second) ∷ []) ≡ 4 * second
unfolding next_backoff
wait_after-streak_example = wait_after-streak 5 (7 ∷ (40 * second) ∷ [])

abbrev seed : SlotData
seed = record {
  format_version = pos 8;
  missions = "mvm_decoy" ∷ [];
  start_mission = "mvm_decoy";
  goal = "missionsanity";
  goal_mission = "";
  missionsanity_target = pos 1;
  ticket_importance = "progression";
}

seed_valid : validate small_tables seed ≡ true
unfolding validate mission_by_pop_file
seed_valid = refl

all_cleared :
    (p : String)
    → is_known small_tables p ≡ true
    → is_cleared small_tables (7442000199 ∷ []) p ≡ true
unfolding mission_by_pop_file clear_location_id
all_cleared p h = elim (Bool-cases ("mvm_decoy" == p)) [
  | inl e ↦
      subst (λ q. is_cleared small_tables (7442000199 ∷ []) q ≡ true)
        ((string_eq.beq_iff "mvm_decoy" p).0 e) refl
  | inr e ↦ absurd (ground arith)
]

goal_reachable_example : goal_reached small_tables seed (7442000199 ∷ []) ≡ true
goal_reachable_example = goal_reachable small_tables seed (7442000199 ∷ []) seed_valid all_cleared

won : goal_reached small_tables seed (7442000199 ∷ []) ≡ true
unfolding goal_reached mission_by_pop_file clear_location_id
won = refl

goal_reached_more_example : goal_reached small_tables seed (7442000101 ∷ 7442000199 ∷ []) ≡ true
goal_reached_more_example =
    goal_reached_more small_tables seed (7442000199 ∷ []) (7442000101 ∷ 7442000199 ∷ [])
      (λ id h. ground arith) won
