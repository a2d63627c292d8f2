-- ===== src/Fsm/Tabled.antt =====
-- An engine that keeps its state and its table, and looks the table up: it shows that the laws of
-- Engine can hold, and runs in tests.
use margo_hello_world.Common.{
  String, List, Option, none, some, ◌==◌, words, ◌≡◌, ◌≢◌, refl, if◌then◌else◌, arith, eq_iff,
  eq_refl,
}
use margo_hello_world.Fsm.{
  Transition, Engine, destination, FsmError, no_transition, invalid_event, unknown_event, is_known,
}

pub record Tabled : Type 0 where
  pub state : String
  pub entries : List Transition

unfoldable pub tabled_fire_to : Option String → String → Tabled → Tabled × Option FsmError
tabled_fire_to none e m = (m, some (if is_known e m.entries then invalid_event else unknown_event))
tabled_fire_to (some d) e m =
    if d == m.state then (m, some no_transition) else (record m { state = d }, none)

unfoldable pub tabled_fire : String → Tabled → Tabled × Option FsmError
unfolding tabled_fire_to
tabled_fire e m = tabled_fire_to (destination e m.state m.entries) e m

entries-tabled_fire_to :
    (o : Option String) (e : String) (m : Tabled) → (tabled_fire_to o e m).0.entries ≡ m.entries
unfolding tabled_fire_to
entries-tabled_fire_to o e m = ground arith

pub tabled_moves :
    (e : String) (m : Tabled) (d : String)
    → destination e m.state m.entries ≡ some d
    → d ≢ m.state
    → ((tabled_fire e m).0.state ≡ d) × ((tabled_fire e m).1 ≡ none)
unfolding tabled_fire
tabled_moves e m d h n = ground (arith, eq_iff d m.state)

pub tabled_stays :
    (e : String) (m : Tabled)
    → destination e m.state m.entries ≡ some m.state
    → ((tabled_fire e m).0.state ≡ m.state) × ((tabled_fire e m).1 ≡ some no_transition)
unfolding tabled_fire
tabled_stays e m h = ground (arith, eq_refl m.state)

pub tabled_refused :
    (e : String) (m : Tabled)
    → destination e m.state m.entries ≡ none
    → ((tabled_fire e m).0.state ≡ m.state)
      × ((tabled_fire e m).1 ≡ some (if is_known e m.entries then invalid_event else unknown_event))
unfolding tabled_fire
tabled_refused e m h = ground arith

pub table-tabled_fire : (e : String) (m : Tabled) → (tabled_fire e m).0.entries ≡ m.entries
unfolding tabled_fire
table-tabled_fire e m = entries-tabled_fire_to (destination e m.state m.entries) e m

abbrev pub TableEngine : Engine
TableEngine = record {
  Machine = Tabled;
  make = λ s ts. record { state = s; entries = ts };
  current = λ m. m.state;
  table = λ m. m.entries;
  fire = tabled_fire;
  current-make = λ s ts. refl;
  table-make = λ s ts. refl;
  table-fire = table-tabled_fire;
  fire_moves = tabled_moves;
  fire_stays = tabled_stays;
  fire_refused = tabled_refused;
}
