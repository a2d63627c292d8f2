-- ===== src/Lo.antt =====
-- internal/orchestrator/local_orchestrator.go: the event queue, the network monitor and the
-- dispatcher of a local orchestrator. The goroutines take turns: each function is one turn of its
-- loop. The processes that the dispatcher starts run under a context each, here a number.
pub mod Deploy
pub mod Tidy
pub mod Turns
pub mod Modes
use margo_hello_world.Common.{
  ℕ, suc, String, List, [], ◌∷◌, ◌++◌, Bool, true, false, Option, none, some, ◌==◌, numbers, words,
  ltb, length, if◌then◌else◌, not, mem, keep,
}
use margo_hello_world.Fsm.{Engine, FsmError}
use margo_hello_world.Loader.{new_loader}
use margo_hello_world.Model.{ApplicationDeployment}
use Deploy.{DeploymentChange, Host, Deploying, handle_git_polled}

-- GitPolledPayload and NetworkChangePayload, the two types of Event.Data
pub data Payload : Type 0 where
  git_polled : String → List DeploymentChange → Payload
  network_change : String → String → Payload

pub record Event : Type 0 where
  pub name : String
  pub payload : Payload

abbrev pub event_git_polled : String
event_git_polled = "EventGitPolled"

abbrev pub event_network_change : String
event_network_change = "EventNetworkChange"

pub data ModeProcess : Type 0 where
  pull push offline : ModeProcess

-- A goroutine that was started, with its context.
pub record Process : Type 0 where
  pub mode : ModeProcess
  pub ctx : ℕ

-- make(chan Event, 20)
abbrev pub queue_cap : ℕ
queue_cap = 20

-- DetectMode
abbrev pub detect_mode : String
detect_mode = "adaptive"

-- The goroutine that the switch of handleNetworkChange starts.
unfoldable pub started : String → ℕ → List Process
started mode ctx =
    if mode == "adaptive"
    then record { mode = pull; ctx = ctx } ∷ []
    else if mode == "pushpreferred"
    then record { mode = push; ctx = ctx } ∷ []
    else if mode == "offline"
    then record { mode = offline; ctx = ctx } ∷ []
    else []

-- if l.cancelFunc != nil { l.cancelFunc() }
abbrev pub cancelled_now : Option ℕ → List ℕ → List ℕ
cancelled_now none cs = cs
cancelled_now (some c) cs = c ∷ cs

module _ (E : Engine) where
  open E use {Machine, fire}

  pub record Orchestrator : Type 0 where
    pub machine : Machine
    pub queue : List Event
    pub current_mode : String
    pub cancel_func : Option ℕ
    pub next_ctx : ℕ
    pub cancelled : List ℕ
    pub processes : List Process
    pub calls : List Deploying

  unfoldable pub new_orchestrator : Orchestrator
  new_orchestrator = record {
    machine = new_loader E;
    queue = [];
    current_mode = "";
    cancel_func = none;
    next_ctx = 0;
    cancelled = [];
    processes = [];
    calls = [];
  }

  -- TriggerEvent: a full queue drops the event.
  unfoldable pub trigger_event : String → Payload → Orchestrator → Orchestrator
  trigger_event name payload l =
      if ltb (length l.queue) queue_cap
      then record l { queue = l.queue ++ record { name = name; payload = payload } ∷ [] }
      else l

  -- One tick of StartNetworkMonitor; the first argument is its variable currentMode, which starts
  -- as l.currentMode.
  unfoldable pub monitor_tick : String → Orchestrator → String × Orchestrator
  monitor_tick current l =
      let t = trigger_event event_network_change (network_change current detect_mode) l in
      if detect_mode == current
      then (current, l)
      else (detect_mode, record t { current_mode = detect_mode })

  unfoldable pub handle_network_change : String → Orchestrator → Orchestrator
  unfolding started
  handle_network_change new_mode l = record l {
    cancelled = cancelled_now l.cancel_func l.cancelled;
    cancel_func = some l.next_ctx;
    next_ctx = suc l.next_ctx;
    processes = l.processes ++ started new_mode l.next_ctx;
  }

  -- The processes whose context is not cancelled.
  unfoldable pub live : Orchestrator → List Process
  live l = keep (λ p. not (mem p.ctx l.cancelled)) l.processes

  module _ (parse : String → Option ApplicationDeployment) (hosts : List Host) where
    -- The calls of DeployToEdges that handleGitPolled has started, or its panic.
    unfoldable pub with_calls : Option (List Deploying) → Orchestrator → Option Orchestrator
    with_calls none l = none
    with_calls (some calls) l = some (record l { calls = l.calls ++ calls })

    -- The switch of StartEventDispatcher on ev.Name, with its assertions on the type of ev.Data.
    unfoldable pub handle_payload : Payload → String → Orchestrator → Option Orchestrator
    unfolding with_calls
    handle_payload (git_polled commit ds) name l =
        if name == event_git_polled then with_calls (handle_git_polled parse hosts ds) l else some l
    handle_payload (network_change old new) name l =
        if name == event_network_change then some (handle_network_change new l) else some l

    -- Then the event is fired; an error of Event is only logged.
    unfoldable pub fired : String → Option Orchestrator → Option Orchestrator
    fired name none = none
    fired name (some l) = some (record l { machine = (fire name l.machine).0 })

    -- The case of the select in StartEventDispatcher: the event at the head of the queue.
    unfoldable pub dispatch : Orchestrator → Option Orchestrator
    unfolding handle_payload fired
    dispatch l = elim l.queue [
      | [] ↦ some l
      | ev ∷ evs ↦ fired ev.name (handle_payload ev.payload ev.name (record l { queue = evs }))
    ]
