-- ===== src/Hub/Tests.antt =====
-- A hub of internal/ws with the devices of two users, and the theorems at it.
use chirpy.Prelude.{List, refl, [], ◌∷◌, arith}
use chirpy.Hub.State.{Hub, Conn, new_hub}
use chirpy.Hub.Runs.{Op, registers, removes, disconnects, sends, drains, run_all, Sound}
use chirpy.Hub.Safety.{run_all-Sound}

new_hub-Sound : Sound new_hub
new_hub-Sound = record {
  live = record {
    owned = λ u p e. absurd (cc);
    shut = λ p. ground arith;
    once = λ u. tt;
    kept = λ u e. absurd (cc);
    calm = refl;
  };
  few = λ u. omega arith;
  bounded = λ p. omega arith;
}

abbrev evening : List Op
evening =
    registers 1 11
    ∷ registers 2 21
    ∷ registers 1 12
    ∷ sends (1 ∷ 2 ∷ []) 5
    ∷ removes 1
    ∷ drains 0
    ∷ disconnects 1
    ∷ removes 0
    ∷ []

run_all-Sound_example : Sound (run_all new_hub evening).0
run_all-Sound_example = run_all-Sound new_hub evening new_hub-Sound

abbrev two : Hub
two = (run_all new_hub (registers 1 11 ∷ registers 2 21 ∷ [])).0

abbrev phone : Conn
phone = record { user = 1; conn_id = 11 }
