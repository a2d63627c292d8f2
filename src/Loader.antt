-- ===== src/Loader.antt =====
-- internal/fsmloader/loader.go: the state machine of a local orchestrator. The callbacks only log
-- and are left out, but for before_enable_push, which starts the push mode: it would run on an event
-- of the name enable_push, which only mode_detector.go fires and neither the watcher nor the monitor
-- puts in the queue.
pub mod States
use margo_hello_world.Common.{
  String, List, [], ◌∷◌, Bool, true, false, Option, none, some, ◌==◌, words, if◌then◌else◌,
}
use margo_hello_world.Fsm.{Transition, Engine, FsmError}

abbrev pub entry : String → List String → String → Transition
entry name src dst = record { name = name; src = src; dst = dst }

abbrev pub loader_events : List Transition
loader_events =
    entry "deploy" ("idle" ∷ "ready" ∷ []) "deploying"
    ∷ entry "success" ("deploying" ∷ []) "ready"
    ∷ entry "fail" ("deploying" ∷ []) "error"
    ∷ entry "enable_push" ("idle" ∷ []) "ready"
    ∷ entry "enable_pull" ("idle" ∷ []) "ready"
    ∷ entry "enable_offline" ("ready" ∷ []) "ready"
    ∷ entry "git_update_received" ("ready" ∷ []) "ready"
    ∷ entry "EventNetworkChange" ("idle" ∷ "ready" ∷ []) "ready"
    ∷ entry "EventGitPolled" ("ready" ∷ []) "ready"
    ∷ []

-- internal/orchestrator/resultbus.go
pub record WorkResult : Type 0 where
  pub node : String
  pub status : String

module _ (E : Engine) where
  open E use {Machine, make, fire}

  -- The machine that NewLoader makes.
  unfoldable pub new_loader : Machine
  new_loader = make "idle" loader_events

  -- One result in resultListener; the errors of Event are dropped.
  unfoldable pub on_result : WorkResult → Machine → Machine
  on_result res m =
      let failed = (fire "fail" m).0 in
      let done = (fire "success" m).0 in
      if res.status == "success"
      then m
      else if res.status == "fail"
      then failed
      else if res.status == "done"
      then done
      else m

  unfoldable pub on_results : List WorkResult → Machine → Machine
  on_results [] m = m
  on_results (r ∷ rs) m = on_results rs (on_result r m)
