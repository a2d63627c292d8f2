-- ===== src/Lo/Turns.antt =====
-- The turns of the goroutines of internal/orchestrator/local_orchestrator.go, in any order.
use margo_hello_world.Common.{String, List, [], ◌∷◌, Option, none, some, numbers, words}
use margo_hello_world.Fsm.{Engine}
use margo_hello_world.Model.{ApplicationDeployment}
use margo_hello_world.Lo.Deploy.{Host}
use margo_hello_world.Lo.{Payload, Orchestrator, trigger_event, monitor_tick, dispatch}

-- Of the state that is left, if there was no panic.
abbrev pub IfAny {ℓ κ} : {S : Type ℓ} → (S → Type κ) → Option S → Type κ
IfAny P none = Unit
IfAny P (some s) = P s

pub IfAny-elim {ℓ κ} :
    {S T : Type ℓ} (P : S → Type κ) (Q : T → Type κ) (o : Option S) (f : S → Option T)
    → IfAny P o
    → ((s : S) → P s → IfAny Q (f s))
    → IfAny Q (elim o [ none ↦ none | some s ↦ f s ])
IfAny-elim P Q none f h k = tt
IfAny-elim P Q (some s) f h k = k s h

-- The turns of the goroutines: the monitor's ticker, the dispatcher, and TriggerEvent from a
-- watcher.
pub data Turn : Type 0 where
  ticks dispatches : Turn
  triggers : String → Payload → Turn

module _ (E : Engine) (parse : String → Option ApplicationDeployment) (hosts : List Host) where
  -- The monitor's variable and the orchestrator after a turn.
  unfoldable pub take_turn : Turn → String × Orchestrator E → Option (String × Orchestrator E)
  take_turn ticks (mode, l) = some (monitor_tick E mode l)
  take_turn dispatches (mode, l) = elim (dispatch E parse hosts l) [
    | none ↦ none
    | some t ↦ some (mode, t)
  ]
  take_turn (triggers name payload) (mode, l) = some (mode, trigger_event E name payload l)

  unfoldable pub take_turns : List Turn → String × Orchestrator E → Option (String × Orchestrator E)
  take_turns [] s = some s
  take_turns (t ∷ ts) s = elim (take_turn t s) [ none ↦ none | some u ↦ take_turns ts u ]
