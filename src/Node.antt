-- ===== src/Node.antt =====
-- internal/fsmloader/container_fsm.go and edge_node_fsm.go: the machine of a container, and the
-- machine of an edge node with one container machine for each container.
pub mod Monitor
use margo_hello_world.Common.{
  String, List, [], ◌∷◌, Bool, true, false, Option, none, some, ◌==◌, words, ◌||◌, if◌then◌else◌,
}
use margo_hello_world.Common.Dict.{Dict, insert}
use margo_hello_world.Fsm.{Transition, Engine, FsmError}
use margo_hello_world.Loader.{entry}

abbrev pub container_events : List Transition
container_events =
    entry "start_container" ("created" ∷ "stopped" ∷ []) "running"
    ∷ entry "stop_container" ("running" ∷ []) "stopped"
    ∷ entry "crash_detected" ("running" ∷ []) "failed"
    ∷ entry "restart_container" ("failed" ∷ "stopped" ∷ []) "running"
    ∷ entry "remove_container" ("created" ∷ "stopped" ∷ "failed" ∷ []) "removed"
    ∷ []

abbrev pub node_events : List Transition
node_events =
    entry "start_deployment" ("node_idle" ∷ []) "node_deploying"
    ∷ entry "deployment_success" ("node_deploying" ∷ []) "node_idle"
    ∷ entry "deployment_failed" ("node_deploying" ∷ []) "node_error"
    ∷ entry "reset" ("failed" ∷ "completed" ∷ []) "idle"
    ∷ []

-- How one pass of monitorContainers over the containers ends.
pub data Verdict : Type 0 where
  some_failed all_done not_done : Verdict

module _ (E : Engine) where
  open E use {Machine, make, current, fire}

  unfoldable pub new_container : Machine
  new_container = make "created" container_events

  -- The errors of Event are dropped.
  unfoldable pub start_container : Machine → Machine
  start_container m = (fire "start_container" m).0

  unfoldable pub crash_container : Machine → Machine
  crash_container m = (fire "crash_detected" m).0

  unfoldable pub stop_container : Machine → Machine
  stop_container m = (fire "stop_container" m).0

  pub record EdgeNode : Type 0 where
    pub machine : Machine
    pub containers : Dict Machine

  unfoldable pub new_edge_node : EdgeNode
  new_edge_node = record { machine = make "node_idle" node_events; containers = [] }

  unfoldable pub add_containers : List String → Dict Machine → Dict Machine
  unfolding start_container new_container
  add_containers [] cs = cs
  add_containers (cid ∷ cids) cs =
      add_containers cids (insert cid (start_container new_container) cs)

  unfoldable pub start_deployment : List String → EdgeNode → EdgeNode
  start_deployment cids e =
      let (m, err) = fire "start_deployment" e.machine in
      elim err [
        | none ↦ record e { machine = m; containers = add_containers cids e.containers }
        | some x ↦ record e { machine = m }
      ]

  -- state == "failed"
  unfoldable pub is_failed : Machine → Bool
  is_failed c = current c == "failed"

  -- state == "running" || state == "created"
  unfoldable pub is_busy : Machine → Bool
  is_busy c = current c == "running" || current c == "created"

  -- The range over the map, in the order of its entries.
  unfoldable pub inspect : Dict Machine → Bool → Verdict
  inspect [] all = if all then all_done else not_done
  inspect ((id, c) ∷ cs) all =
      let rest = inspect cs (if is_busy c then false else all) in
      if is_failed c then some_failed else rest

  -- One turn of the loop in monitorContainers, and whether it returns.
  unfoldable pub monitor_pass : EdgeNode → EdgeNode × Bool
  monitor_pass e = elim (inspect e.containers true) [
    | some_failed ↦ (record e { machine = (fire "deployment_failed" e.machine).0 }, true)
    | all_done ↦ (record e { machine = (fire "deployment_success" e.machine).0 }, true)
    | not_done ↦ (e, false)
  ]
