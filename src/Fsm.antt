-- ===== src/Fsm.antt =====
-- What the program uses of github.com/looplab/fsm, which is not part of the repository: a machine is
-- made from a table of transitions (fsm.Events), and Event fires one by name. The laws are the
-- documented behaviour of NewFSM, Current and Event; a table has at most one transition for an
-- event in a state, as every table of the program does.
pub mod Runs
pub mod Tabled
use margo_hello_world.Common.{
  String, List, [], ◌∷◌, Bool, true, false, Option, none, some, ◌==◌, words, ◌&&◌, ◌||◌, ◌≡◌, ◌≢◌,
  if◌then◌else◌, mem,
}

-- One entry of fsm.Events.
pub record Transition : Type 0 where
  pub name : String
  pub src : List String
  pub dst : String

pub data FsmError : Type 0 where
  invalid_event unknown_event no_transition : FsmError

-- Where the table sends `event` in `state`.
unfoldable pub destination : String → String → List Transition → Option String
destination event state [] = none
destination event state (t ∷ ts) =
    let rest = destination event state ts in
    if t.name == event && mem state t.src then some t.dst else rest

unfoldable pub is_known : String → List Transition → Bool
is_known event [] = false
is_known event (t ∷ ts) = t.name == event || is_known event ts

pub record Engine : Type 1 where
  pub Machine : Type 0
  pub make : String → List Transition → Machine
  pub current : Machine → String
  pub table : Machine → List Transition
  pub fire : String → Machine → Machine × Option FsmError
  pub current-make : (s : String) (ts : List Transition) → current (make s ts) ≡ s
  pub table-make : (s : String) (ts : List Transition) → table (make s ts) ≡ ts
  pub table-fire : (e : String) (m : Machine) → table (fire e m).0 ≡ table m
  -- a transition to another state: Event returns nil
  pub fire_moves :
      (e : String) (m : Machine) (d : String)
      → destination e (current m) (table m) ≡ some d
      → d ≢ current m
      → (current (fire e m).0 ≡ d) × ((fire e m).1 ≡ none)
  -- a transition to the state itself: Event returns NoTransitionError
  pub fire_stays :
      (e : String) (m : Machine)
      → destination e (current m) (table m) ≡ some (current m)
      → (current (fire e m).0 ≡ current m) × ((fire e m).1 ≡ some no_transition)
  -- no transition: Event returns InvalidEventError or UnknownEventError
  pub fire_refused :
      (e : String) (m : Machine)
      → destination e (current m) (table m) ≡ none
      → (current (fire e m).0 ≡ current m)
        × ((fire e m).1 ≡ some (if is_known e (table m) then invalid_event else unknown_event))
