-- ===== src/Examples/Orchestrators.antt =====
-- A local orchestrator with two hosts.
use mathlib.Core.List.{Perm}
use margo_hello_world.Common.{
  ◌≤◌, String, List, [], ◌∷◌, true, Option, none, some, ◌≡◌, ◌≢◌, arith, length, words, ◌==◌,
  if◌then◌else◌, map, ℕ, zero, suc, refl,
}
use margo_hello_world.Common.Texts.{concat}
use margo_hello_world.Model.{ApplicationDeployment, Component}
use margo_hello_world.Fsm.Tabled.{TableEngine}
use margo_hello_world.Lo.{
  Orchestrator, trigger_event, new_orchestrator, network_change, event_network_change, live,
}
use margo_hello_world.Lo.Turns.{ticks, dispatches, triggers, Turn, take_turns, IfAny}
use margo_hello_world.Lo.Modes.{one_mode_process}
use margo_hello_world.Lo.Deploy.{
  Host, Message, DeploymentChange, Deploying, run_calls, handle_git_polled, deploy_to_edges,
  deploy_to_nodes, deploy_to_node, request_of, until_done, interleave, advance, deploy_subject,
}
use margo_hello_world.Lo.Deploy.Messages.{messages, wanted, handle_git_polled-messages}

abbrev hosts : List Host
hosts = record { host_id = "n1"; site_id = "s1" } ∷ record { host_id = "n2"; site_id = "s1" } ∷ []

abbrev web : Component
web = record {
  name = "web";
  properties = record {
    repository = "ghcr.io/web";
    revision = "v1";
    wait = true;
    timeout = "";
    package_location = "";
    key_location = "";
  };
}

abbrev deployed : List Component → ApplicationDeployment
deployed cs = record {
  api_version = "margo.edge/v1";
  kind = "Deployment";
  metadata = record {
    name = "web-deployment";
    namespace = "";
    labels = [];
    annotations = record { application_id = "app"; id = "d1" };
  };
  spec = record {
    deployment_profile = record { profile_type = "helm"; components = cs };
    parameters = [];
  };
}

-- A parser that knows one text.
abbrev parse : String → Option ApplicationDeployment
parse content = if content == "web" then some (deployed (web ∷ [])) else none

abbrev changes : List DeploymentChange
changes =
    record { deployment_id = "d0"; file_path = "s1/d0/desiredstate.yaml"; content = "?" }
    ∷ record { deployment_id = "d1"; file_path = "s1/d1/desiredstate.yaml"; content = "web" }
    ∷ []

web_has_component :
    (dep : ApplicationDeployment)
    → some (deployed (web ∷ [])) ≡ some dep
    → dep.spec.deployment_profile.components ≢ []
web_has_component dep e n = ground arith

handle_git_polled-messages_example :
    (calls : List Deploying) × (handle_git_polled parse hosts changes ≡ some calls)
    × Perm (messages (run_calls ((1 ∷ []) ∷ []) (0 ∷ []) calls)) (wanted parse hosts changes)
handle_git_polled-messages_example =
    handle_git_polled-messages parse hosts changes ((1 ∷ []) ∷ []) (0 ∷ [])
      (λ dep e. absurd (ground arith), (web_has_component, tt))

abbrev turns : List Turn
turns =
    ticks
    ∷ dispatches
    ∷ triggers event_network_change (network_change "adaptive" "offline")
    ∷ dispatches
    ∷ []

one_mode_process_example :
    IfAny
      (λ u. length (live TableEngine u.1) ≤ 1)
      (take_turns TableEngine parse hosts turns ("", new_orchestrator TableEngine))
one_mode_process_example = one_mode_process TableEngine parse hosts turns

abbrev subject_of : Message → String
subject_of m = m.subject

-- The second host is served first when its goroutine advances twice before the other one starts.
overtaken_test :
    (call : Deploying) × (deploy_to_edges hosts (deployed (web ∷ [])) ≡ some call)
    × (map subject_of (messages (until_done (1 ∷ 1 ∷ []) call))
        ≡ "site.s1.deploy.n2" ∷ "site.s1.deploy.n1" ∷ [])
unfolding deploy_to_edges deploy_to_nodes deploy_to_node request_of until_done interleave advance
    deploy_subject concat messages
overtaken_test = (_, refl, refl)

-- Twenty-one events with nobody to receive them.
unfoldable trigger_times : ℕ → Orchestrator TableEngine → Orchestrator TableEngine
trigger_times zero l = l
trigger_times (suc n) l =
    trigger_times n
      (trigger_event TableEngine event_network_change (network_change "" "adaptive") l)

full_queue_test : length (trigger_times 21 (new_orchestrator TableEngine)).queue ≡ 20
unfolding trigger_times trigger_event new_orchestrator
full_queue_test = refl
