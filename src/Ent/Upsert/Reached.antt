-- ===== src/Ent/Upsert/Reached.antt =====
-- The heartbeats of internal/edgenode/edgenode.go, the rows that internal/orchestrator writes for them
-- through ent/host_create.go, and the deployments that it sends to the hosts of those rows.
use mathlib.Core.List.{Perm}
use margo_hello_world.Common.{
  ℕ, String, List, [], ◌∷◌, ◌++◌, none, some, ◌==◌, words, ◌⊎◌, inl, inr, map, keep, All, ◌≡◌, ◌≢◌,
  refl, sym, ap, ◌∙◌, Sum-cases,
}
use margo_hello_world.Common.Dict.{Dict}
use margo_hello_world.Model.{ApplicationDeployment, Component}
use margo_hello_world.EdgeNode.{EdgeNode, listen_subject}
use margo_hello_world.Lo.Deploy.{Host, Deploying, deploy_to_edges, until_done}
use margo_hello_world.Lo.Deploy.Messages.{messages, message_for}
use margo_hello_world.Ent.Mutation.{Value}
use margo_hello_world.Ent.Upsert.{CreateNode, exec, host_create, client_hosts}
use margo_hello_world.Ent.Upsert.Sql.{IsUpsert}
use margo_hello_world.Ent.Upsert.Table.{
  IsUnique, after, inserts, inserts_apart, after-IsUnique, host_rows, host_rows-of_node, row_of,
}
use margo_hello_world.Health.{
  HealthMsg, Hosts, on_healths, on_health, create_edge_node, heartbeat, host_row,
}
use margo_hello_world.Health.Reached.{IsHostTable, host_of, heartbeat_reached}

module _ {W : Type 0} (D : CreateNode W) (new_id : W → String) (rows : W → List (Dict Value))
    (U : IsUpsert D rows) (parse_uuid : String → String ⊎ String)
    (from_hundred : String → String) where
  -- The databases that have no node twice.
  abbrev Single : Type 0
  Single = (w : W) × IsUnique D new_id rows w

  abbrev pub client : Hosts String W
  client = client_hosts D new_id (λ x. x) parse_uuid from_hundred

  -- The insertion of the client, on those databases.
  abbrev single_hosts : Hosts String Single
  single_hosts = record {
    parse_uuid = parse_uuid;
    from_hundred = from_hundred;
    upsert = λ h s. (
      (after D new_id rows U h s.0, after-IsUnique D new_id rows U h s.0 s.1),
      (exec D new_id (host_create D new_id (λ x. x) h) s.0).1,
    );
  }

  single_hosts-IsHostTable : IsHostTable single_hosts (λ s. host_rows (rows s.0))
  single_hosts-IsHostTable = record {
    upserted = λ h s accepted.
        host_rows-of_node h.host_id (rows (after D new_id rows U h s.0))
        ∙ (inserts D new_id rows U h s.0 s.1).1 accepted;
    others_kept = λ h s id n.
        host_rows-of_node id (rows (after D new_id rows U h s.0))
        ∙ ap (map row_of) (inserts_apart D new_id rows U h s.0 id s.1 n)
        ∙ sym (host_rows-of_node id (rows s.0));
  }

  forget_one :
      (now : String) (h : HealthMsg String) (s : Single)
      → (on_health single_hosts now h s).0 ≡ on_health client now h s.0
  unfolding on_health create_edge_node client_hosts host_row
  forget_one now h s = elim (Sum-cases (parse_uuid h.site_id)) [
    | inl (e, p) ↦ rw (on_health, create_edge_node, p) refl
    | inr (site, p) ↦ rw (on_health, create_edge_node, p) refl
  ]

  forget_error :
      (now : String) (h : HealthMsg String) (s : Single)
      → (create_edge_node single_hosts now h s).1 ≡ (create_edge_node client now h s.0).1
  unfolding create_edge_node client_hosts host_row
  forget_error now h s = elim (Sum-cases (parse_uuid h.site_id)) [
    | inl (e, p) ↦ rw (create_edge_node, p) refl
    | inr (site, p) ↦ rw (create_edge_node, p) refl
  ]

  forget :
      (hs : List (String × HealthMsg String)) (s : Single)
      → (on_healths single_hosts hs s).0 ≡ on_healths client hs s.0
  unfolding on_healths
  forget [] s = refl
  forget ((now, h) ∷ hs) s =
      forget hs (on_health single_hosts now h s) ∙ ap (on_healths client hs) (forget_one now h s)

  -- Over a database that inserts with a conflict clause as documented, and in which no host id
  -- stands twice, when CreateEdgeNode, with the generated client, has recorded a heartbeat of a
  -- node whose site id parses to itself and returned no error, whatever was sent before and by
  -- other nodes since, recorded or refused, then a deployment with a component is sent to every
  -- host of the table exactly once, however the goroutines of the hosts advance, exactly one of
  -- the hosts is the node, with its site id, and the subject of its message is the one that the
  -- node listens to.
  pub node_reached :
      (en : EdgeNode) (earlier later : List (String × HealthMsg String)) (now : String)
      (cpu mem timestamp : String) (w : W) (dep : ApplicationDeployment) (c : Component)
      (cs : List Component) (schedule : List ℕ)
      → parse_uuid en.site_id ≡ inr en.site_id
      → IsUnique D new_id rows w
      → (create_edge_node client now
          (heartbeat client en cpu mem timestamp)
          (on_healths client earlier w)).1
        ≡ none
      → All (λ h. en.node_id ≢ h.1.node_id) later
      → dep.spec.deployment_profile.components ≡ c ∷ cs
      → let own : String × HealthMsg String = (now, heartbeat client en cpu mem timestamp) in
        let w' = on_healths client (earlier ++ own ∷ later) w in
        let hosts = map host_of (host_rows (rows w')) in
        let this : Host = record { host_id = en.node_id; site_id = en.site_id } in
        (gs : Deploying) × (deploy_to_edges hosts dep ≡ some gs)
        × Perm (messages (until_done schedule gs)) (map (message_for dep c) hosts)
        × (keep (λ h. h.host_id == en.node_id) hosts ≡ this ∷ [])
        × ((message_for dep c this).subject ≡ listen_subject en)
  unfolding heartbeat
  node_reached en earlier later now cpu mem timestamp w dep c cs schedule canonical unique accepted
        others has =
      let beat = heartbeat client en cpu mem timestamp in
      let own : String × HealthMsg String = (now, beat) in
      let before : Single = on_healths single_hosts earlier (w, unique) in
      let recorded =
        forget_error now beat before
        ∙ ap (λ v. (create_edge_node client now beat v).1) (forget earlier (w, unique))
        ∙ accepted in
      rw⁻¹ (forget (earlier ++ own ∷ later) (w, unique)) (
        heartbeat_reached single_hosts (λ s. host_rows (rows s.0)) single_hosts-IsHostTable en
          canonical earlier later now cpu mem timestamp (w, unique) dep c cs schedule recorded
          others has)
