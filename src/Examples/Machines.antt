-- ===== src/Examples/Machines.antt =====
-- The machines of the loader and of an edge node, over a table.
use margo_hello_world.Common.{
  String, [], ◌∷◌, true, false, ◌≡◌, refl, arith, words, if◌then◌else◌, eq_iff, ◌≢◌,
}
use margo_hello_world.Fsm.Runs.{fire_all}
use margo_hello_world.Fsm.Tabled.{TableEngine}
use margo_hello_world.Loader.{new_loader}
use margo_hello_world.Loader.States.{IsCalm, IsCalm-without_deploy}
use margo_hello_world.Node.{EdgeNode, monitor_pass, node_events}
use margo_hello_world.Node.Monitor.{any_failed, any_busy, monitor_pass_outcome}

change_ne_deploy : ◌≢◌ {A = String} "EventNetworkChange" "deploy"
change_ne_deploy = ground (arith, eq_iff "EventNetworkChange" "deploy")

IsCalm-without_deploy_example : IsCalm (
    TableEngine.current (fire_all TableEngine ("EventNetworkChange" ∷ []) (new_loader TableEngine)))
IsCalm-without_deploy_example =
    IsCalm-without_deploy TableEngine ("EventNetworkChange" ∷ []) (change_ne_deploy, tt)

abbrev busy : EdgeNode TableEngine
busy = record {
  machine = record { state = "node_deploying"; entries = node_events };
  containers =
      ("c1", record { state = "stopped"; entries = [] })
      ∷ ("c2", record { state = "running"; entries = [] })
      ∷ [];
}

monitor_pass_outcome_example :
    (TableEngine.current (monitor_pass TableEngine busy).0.machine ≡ (
      if any_failed TableEngine busy.containers
      then "node_error"
      else if any_busy TableEngine busy.containers
      then "node_deploying"
      else "node_idle"))
    × ((monitor_pass TableEngine busy).1 ≡ (
        if any_failed TableEngine busy.containers
        then true
        else if any_busy TableEngine busy.containers
        then false
        else true))
monitor_pass_outcome_example = monitor_pass_outcome TableEngine busy refl refl

abbrev broken : EdgeNode TableEngine
broken = record {
  machine = record { state = "node_error"; entries = node_events };
  containers = [];
}
