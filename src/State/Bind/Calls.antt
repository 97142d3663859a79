-- ===== src/State/Bind/Calls.antt =====
-- A store over its whole life: every call of a method that writes, and `BindSeed` among them.
use tf2_archipelago.Prelude.{Option, String}
use tf2_archipelago.Gamedata.Game.{Game}
use tf2_archipelago.State.Store.{Store, Error}
use tf2_archipelago.State.Store.Invariant.{Step}
use tf2_archipelago.State.Bind.{BindEnv, bind_seed}

-- A sequence of calls in which each `BindSeed` has surroundings and an error, if any, that `P` allows.
pub data Calls (P : BindEnv → Option Error → Type 0) (g : Game) (s : Store) : Store → Type 0 where
  begin : Calls P g s s
  call : {t u : Store} → Calls P g s t → Step g t u → Calls P g s u
  bind :
      {t : Store} (e : BindEnv) (seed : String)
      → Calls P g s t
      → P e (bind_seed g e seed t).2
      → Calls P g s (bind_seed g e seed t).0
