-- ===== src/Polling/Modes.antt =====
-- internal/orchestrator/mode_detector.go and mode_handlers.go: the mode loop, and what the modes do
-- with the events of their sources.
use margo_hello_world.Common.{
  ℕ, suc, String, List, [], ◌∷◌, Bool, true, false, Option, none, some, ◌==◌, words, if◌then◌else◌,
  ◌||◌,
}
use margo_hello_world.Fsm.{Engine}
use margo_hello_world.Lo.{Orchestrator, trigger_event, git_polled, event_git_polled, cancelled_now}
use margo_hello_world.Lo.Deploy.{DeploymentChange}

pub data SyncMode : Type 0 where
  push_preferred adaptive_pull offline_deterministic : SyncMode

abbrev pub same_mode : SyncMode → SyncMode → Bool
same_mode push_preferred push_preferred = true
same_mode adaptive_pull adaptive_pull = true
same_mode offline_deterministic offline_deterministic = true
same_mode _ _ = false

-- The event of triggerFSM for a mode.
unfoldable pub event_of_mode : SyncMode → String
event_of_mode push_preferred = "enable_push"
event_of_mode adaptive_pull = "enable_pull"
event_of_mode offline_deterministic = "enable_offline"

-- GitEvent of internal/gitobserver/observer.go
pub record GitEvent : Type 0 where
  pub site : String
  pub commit_hash : String
  pub event_type : String
  pub timestamp : String

module _ (E : Engine) where
  open E use {Machine, fire}

  -- The variables of the package, with the machine; `none` is the mode -1 of the start.
  pub record ModeLoop : Type 0 where
    pub current_mode : Option SyncMode
    pub cancel_func : Option ℕ
    pub next_ctx : ℕ
    pub cancelled : List ℕ
    pub machine : Machine

  -- triggerFSM; an error of Event is only logged.
  unfoldable pub trigger_fsm : SyncMode → ModeLoop → ModeLoop
  trigger_fsm mode l = record {
    current_mode = some mode;
    cancel_func = some l.next_ctx;
    next_ctx = suc l.next_ctx;
    cancelled = cancelled_now l.cancel_func l.cancelled;
    machine = (fire (event_of_mode mode) l.machine).0;
  }

  abbrev is_mode : SyncMode → Option SyncMode → Bool
  is_mode mode none = false
  is_mode mode (some m) = same_mode mode m

  -- One tick of StartModeLoop
  unfoldable pub mode_tick : ModeLoop → ModeLoop
  unfolding trigger_fsm
  mode_tick l = if is_mode adaptive_pull l.current_mode then l else trigger_fsm adaptive_pull l

  -- The handler of StartPushMode, with the machine that it shares.
  unfoldable pub on_git_event : String → GitEvent → Machine → Machine
  on_git_event site ev m =
      if ev.site == site || ev.site == "*" then (fire "git_update_received" m).0 else m

  -- StartPushMode: the errors of New and of Subscribe, or the events up to the end of the context.
  unfoldable pub start_push_mode :
      Option String → Option String → String → List GitEvent → Machine → Machine × Option String
  unfolding on_git_event
  start_push_mode (some e) subscribed site evs m = (m, some e)
  start_push_mode none (some e) site evs m = (m, some e)
  start_push_mode none none site [] m = (m, none)
  start_push_mode none none site (ev ∷ evs) m =
      start_push_mode none none site evs (on_git_event site ev m)

  -- The callback of StartPullMode
  unfoldable pub on_change : String → List DeploymentChange → Orchestrator E → Orchestrator E
  on_change commit changes l = trigger_event E event_git_polled (git_polled commit changes) l

  -- start_offline_mode
  unfoldable pub start_offline_mode : Machine → Machine
  start_offline_mode m = (fire "offline_mode_start" m).0
