-- ===== src/Examples/Beating.antt =====
-- Heartbeats of two nodes, which the generated client writes to the table of Examples/Hosting.
use mathlib.Core.List.{Perm}
use margo_hello_world.Common.{
  String, List, [], ◌∷◌, ◌++◌, none, some, ◌==◌, words, ◌≡◌, ◌≢◌, refl, ap, inr, map, keep, eq_iff,
  arith, Option,
}
use margo_hello_world.Common.Dict.{lookup}
use margo_hello_world.Model.{ApplicationDeployment}
use margo_hello_world.EdgeNode.{EdgeNode, listen_subject}
use margo_hello_world.Lo.Deploy.{Host, Deploying, deploy_to_edges, until_done}
use margo_hello_world.Lo.Deploy.Messages.{messages, message_for}
use margo_hello_world.Ent.Create.{SqlError, string_value}
use margo_hello_world.Ent.Upsert.{exec, host_create, host_spec, ignore_id, client_hosts}
use margo_hello_world.Ent.Upsert.Sql.{proposed}
use margo_hello_world.Ent.Upsert.Built.{ready, ready-proposed, exec-none}
use margo_hello_world.Ent.Upsert.Table.{host_rows}
use margo_hello_world.Ent.Upsert.Reached.{node_reached}
use margo_hello_world.Health.{HealthMsg, HostRow, Hosts, heartbeat, on_healths, create_edge_node}
use margo_hello_world.Health.Reached.{host_of}
use margo_hello_world.Examples.EdgeNodes.{node, component}
use margo_hello_world.Examples.Hosting.{Rows, database, database-IsUpsert, answer}

abbrev new_id : Rows → String
new_id w = "u9"

all_accepted :
    (h : HostRow String) (w : Rows)
    → (exec database new_id (host_create database new_id (λ x. x) h) w).1 ≡ none
unfolding lookup
all_accepted h w =
    let spec = host_spec (ready database new_id (λ x. x) h "u9") in
    let (row, on, _, _) = ready-proposed database new_id (λ x. x) h "u9" in
    let v = string_value h.host_id in
    let named : lookup "host_id" (proposed spec) ≡ some v = rw row refl in
    let done =
      ap (λ (a : Rows × Option SqlError). a.1) (answer spec w ignore_id "host_id" v on named) in
    ap (λ (a : Rows × Option String). a.1) (exec-none database new_id (λ x. x) h w done)

abbrev hosts : Hosts String Rows
hosts = client_hosts database new_id (λ x. x) (λ s. inr s) (λ x. x)

abbrev second : EdgeNode
second = record { site_id = "s1"; node_id = "n2"; runtime = "wasm" }

abbrev beats : List (String × HealthMsg String)
beats = ("t1", heartbeat hosts second "1" "2" "3") ∷ []

abbrev dep : ApplicationDeployment
dep = record {
  api_version = "";
  kind = "";
  metadata = record {
    name = "";
    namespace = "";
    labels = [];
    annotations = record { application_id = "a1"; id = "d1" };
  };
  spec = record {
    deployment_profile = record { profile_type = ""; components = component "web" "1.0" ∷ [] };
    parameters = [];
  };
}

not_second : node.node_id ≢ second.node_id
not_second e = ground (arith, eq_iff "n1" "n2")

abbrev all_hosts : List Host
all_hosts =
    map host_of
      (host_rows (on_healths hosts (beats ++ ("t2", heartbeat hosts node "1" "2" "3") ∷ beats) []))

beat_accepted :
    (create_edge_node hosts "t2" (heartbeat hosts node "1" "2" "3") (on_healths hosts beats [])).1
    ≡ none
unfolding create_edge_node client_hosts
beat_accepted = all_accepted _ (on_healths hosts beats [])

node_reached_example :
    (gs : Deploying) × (deploy_to_edges all_hosts dep ≡ some gs)
    × Perm
        (messages (until_done (1 ∷ 0 ∷ []) gs))
        (map (message_for dep (component "web" "1.0")) all_hosts)
    × (keep (λ h. h.host_id == "n1") all_hosts ≡ record { host_id = "n1"; site_id = "s1" } ∷ [])
    × ((message_for dep (component "web" "1.0") (record { host_id = "n1"; site_id = "s1" })).subject
        ≡ listen_subject node)
unfolding heartbeat
node_reached_example =
    node_reached database new_id (λ w. w) database-IsUpsert (λ s. inr s) (λ x. x) node beats beats
      "t2" "1" "2" "3" [] dep (component "web" "1.0") [] (1 ∷ 0 ∷ []) refl (λ id. omega arith)
      beat_accepted (not_second, tt) refl
