-- ===== src/Availability/Words.antt =====
-- The sentence that says why a mission is not offered, and the rows of the mission table.
use mathlib.Core.List.{Memᴰ}
use Prim.Native.String.{len}
use text.Mathlib.TextPositions.{len-append}
use tf2_archipelago.Prelude.{
  not, inl, inr, ◌<◌, ◌≡◌, ◌≢◌, ◌↔◌, refl, ap, true, false, String, ◌<>◌, arith, map, Bool,
  Bool-cases,
}
use tf2_archipelago.Prelude.Member.{Memᴰ-keep, Memᴰ-keep_back, Memᴰ-map}
use tf2_archipelago.Gamedata.Tables.{Tables, Mission}
use tf2_archipelago.Gamedata.Community.{Community}
use tf2_archipelago.Availability.{
  GameServer, Verdict, Reason, why, why_for, is_playable, check, shown_on, playable_on, reason_beq,
  playable, no_nav_mesh, pack_missing, mod_no_build, mod_off, mod_unverified, mod_blocked, pack_off,
}

-- A text joined to a nonblank one is nonblank.
join_right : (s t : String) → 0 < len t → 0 < len (s <> t)
join_right s t h = omega (arith, len-append s t)

join_left : (s t : String) → 0 < len s → 0 < len (s <> t)
join_left s t h = omega (arith, len-append s t)

nonblank : (s : String) → 0 < len s → s ≢ ""
nonblank s l h = let z : len s ≡ len "" = ap len h in omega (arith, z)

why_for_words :
    (r : Reason) (managed : Bool) (platform pack name mesh : String)
    → reason_beq r playable ≡ false
    → 0 < len (why_for r managed platform pack name mesh)
unfolding why_for
why_for_words playable managed platform pack name mesh h = ground arith
why_for_words no_nav_mesh managed platform pack name mesh h =
    join_left "missing " mesh (omega arith)
why_for_words pack_missing managed platform pack name mesh h = join_right pack _ (omega arith)
why_for_words mod_no_build managed platform pack name mesh h =
    join_right (name <> " has no " <> platform) _ (omega arith)
why_for_words mod_off true platform pack name mesh h =
    join_right ("turn on " <> name) _ (omega arith)
why_for_words mod_off false platform pack name mesh h =
    join_right ("turn on " <> name) _ (omega arith)
why_for_words mod_unverified true platform pack name mesh h = join_right name _ (omega arith)
why_for_words mod_unverified false platform pack name mesh h = join_right name _ (omega arith)
why_for_words mod_blocked managed platform pack name mesh h = join_right name _ (omega arith)
why_for_words pack_off managed platform pack name mesh h = join_left "tick " pack (omega arith)

why_for_silent :
    (r : Reason) (managed : Bool) (platform pack name mesh : String)
    → reason_beq r playable ≡ true
    → why_for r managed platform pack name mesh ≡ ""
unfolding why_for
why_for_silent playable managed platform pack name mesh h = refl
why_for_silent no_nav_mesh managed platform pack name mesh h = ground arith
why_for_silent pack_missing managed platform pack name mesh h = ground arith
why_for_silent mod_no_build managed platform pack name mesh h = ground arith
why_for_silent mod_off managed platform pack name mesh h = ground arith
why_for_silent mod_unverified managed platform pack name mesh h = ground arith
why_for_silent mod_blocked managed platform pack name mesh h = ground arith
why_for_silent pack_off managed platform pack name mesh h = ground arith

-- The sentence about a mission is blank exactly when the server can play it.
pub why_blank :
    (c : Community) (t : Tables) (v : Verdict) → (why c t v ≡ "") ↔ (is_playable v ≡ true)
unfolding why
why_blank c t v = (
  λ h. elim (Bool-cases (reason_beq v.reason playable)) [
    | inl e ↦ e
    | inr e ↦ absurd (nonblank (why c t v) (why_for_words v.reason v.managed v.platform _ _ _ e) h)
  ],
  λ h. why_for_silent v.reason v.managed v.platform _ _ _ h,
)

-- A mission that is played is a row of the mission table, and each row is the verdict on a mission.
pub shown_on-playable :
    (c : Community) (t : Tables) (s : GameServer) (m : Mission)
    → Memᴰ m (playable_on c t s)
    → Memᴰ (check c s m) (shown_on c t s)
unfolding playable_on shown_on
shown_on-playable c t s m h =
    let (i, p) = Memᴰ-keep (λ n. is_playable (check c s n)) m t.missions h in
    Memᴰ-keep_back (λ v. not (reason_beq v.reason pack_missing)) (check c s m)
      (map (check c s) t.missions) (Memᴰ-map (check c s) m t.missions i) (ground (arith, p))
