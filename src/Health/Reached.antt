-- ===== src/Health/Reached.antt =====
-- internal/edgenode/edgenode.go and internal/orchestrator together: a node that sends heartbeats is
-- a target of the deployments of its local orchestrator.
use mathlib.Core.List.{Perm}
use margo_hello_world.Common.{
  ℕ, none, ap, sym, String, List, [], ◌∷◌, ◌++◌, Bool, some, ◌==◌, words, ◌≡◌, ◌≢◌, refl, ◌∙◌, inl,
  inr, map, keep, All, Sum-cases, keep-map,
}
use margo_hello_world.Model.{ApplicationDeployment, Component}
use margo_hello_world.EdgeNode.{EdgeNode, listen_subject}
use margo_hello_world.Lo.Deploy.{Host, Deploying, deploy_to_edges, until_done, deploy_subject}
use margo_hello_world.Lo.Deploy.Messages.{messages, message_for, deploy_to_edges-messages}
use margo_hello_world.Health.{
  HealthMsg, HostRow, Hosts, host_row, create_edge_node, on_health, on_healths, heartbeat,
}

abbrev pub is_of : {Number : Type 0} → String → HostRow Number → Bool
is_of id r = r.host_id == id

module _ {Number Rows : Type 0} where
  -- A table that takes a row in place of the row with its id, unless it returns an error; `rows` is
  -- what a query of all hosts finds.
  pub record IsHostTable (H : Hosts Number Rows) (rows : Rows → List (HostRow Number))
      : Type 0 where
    pub upserted :
        (r : HostRow Number) (d : Rows)
        → (H.upsert r d).1 ≡ none
        → keep (is_of r.host_id) (rows (H.upsert r d).0) ≡ r ∷ []
    pub others_kept :
        (r : HostRow Number) (d : Rows) (id : String)
        → id ≢ r.host_id
        → keep (is_of id) (rows (H.upsert r d).0) ≡ keep (is_of id) (rows d)

abbrev pub host_of : {Number : Type 0} → HostRow Number → Host
host_of r = record { host_id = r.host_id; site_id = r.site_id }

module _ {Number Rows : Type 0} (H : Hosts Number Rows) (rows : Rows → List (HostRow Number))
    (T : IsHostTable H rows) where
  on_healths-append :
      (hs ks : List (String × HealthMsg Number)) (d : Rows)
      → on_healths H (hs ++ ks) d ≡ on_healths H ks (on_healths H hs d)
  unfolding on_healths
  on_healths-append [] ks d = refl
  on_healths-append ((now, h) ∷ hs) ks d = on_healths-append hs ks (on_health H now h d)

  -- The heartbeat of another node leaves the rows of this one.
  other_heartbeat :
      (now : String) (h : HealthMsg Number) (d : Rows) (id : String)
      → id ≢ h.node_id
      → keep (is_of id) (rows (on_health H now h d)) ≡ keep (is_of id) (rows d)
  unfolding on_health create_edge_node host_row
  other_heartbeat now h d id n = elim (Sum-cases (H.parse_uuid h.site_id)) [
    | inl (e, p) ↦ rw (on_health, create_edge_node, p) refl
    | inr (site, p) ↦
        rw (on_health, create_edge_node, p) (T.others_kept (host_row H now site h) d id n)
  ]

  other_heartbeats :
      (hs : List (String × HealthMsg Number)) (d : Rows) (id : String)
      → All (λ h. id ≢ h.1.node_id) hs
      → keep (is_of id) (rows (on_healths H hs d)) ≡ keep (is_of id) (rows d)
  unfolding on_healths
  other_heartbeats [] d id a = refl
  other_heartbeats ((now, h) ∷ hs) d id (n, a) =
      other_heartbeats hs (on_health H now h d) id a ∙ other_heartbeat now h d id n

  module _ (en : EdgeNode) (canonical : H.parse_uuid en.site_id ≡ inr en.site_id) where
    own_heartbeat :
        (now : String) (cpu mem timestamp : Number) (d : Rows)
        → (create_edge_node H now (heartbeat H en cpu mem timestamp) d).1 ≡ none
        → map host_of
            (keep (is_of en.node_id) (rows (on_health H now (heartbeat H en cpu mem timestamp) d)))
          ≡ record { host_id = en.node_id; site_id = en.site_id } ∷ []
    unfolding on_health create_edge_node heartbeat host_row
    own_heartbeat now cpu mem timestamp d accepted =
        let row = host_row H now en.site_id (heartbeat H en cpu mem timestamp) in
        let made : create_edge_node H now (heartbeat H en cpu mem timestamp) d ≡ H.upsert row d =
          rw (create_edge_node, canonical) refl in
        rw (on_health, made, T.upserted row d (ap (λ o. o.1) (sym made) ∙ accepted)) refl

    last_heartbeat :
        (earlier later : List (String × HealthMsg Number)) (now : String)
        (cpu mem timestamp : Number) (d : Rows)
        → (create_edge_node H now (heartbeat H en cpu mem timestamp) (on_healths H earlier d)).1
          ≡ none
        → All (λ h. en.node_id ≢ h.1.node_id) later
        → map host_of (
            keep
              (is_of en.node_id)
              (rows (on_healths H (earlier ++ (now, heartbeat H en cpu mem timestamp) ∷ later) d)))
          ≡ record { host_id = en.node_id; site_id = en.site_id } ∷ []
    unfolding on_healths
    last_heartbeat earlier later now cpu mem timestamp d accepted others =
        let own : String × HealthMsg Number = (now, heartbeat H en cpu mem timestamp) in
        let before = on_healths H earlier d in
        rw
          (
            on_healths-append earlier (own ∷ later) d,
            other_heartbeats later (on_health H now own.1 before) en.node_id others,
          )
          (own_heartbeat now cpu mem timestamp before accepted)

    -- In a table that takes a host in place of the one with its id, when a node whose site id
    -- parses to itself has sent a heartbeat that was recorded without an error, whatever was sent
    -- before and by the others since, then a deployment with a component is sent to every host of
    -- the table once, however the goroutines advance, exactly one of the hosts is the node, with its
    -- site id, and the subject of its message is the one that the node listens to.
    pub heartbeat_reached :
        (earlier later : List (String × HealthMsg Number)) (now : String)
        (cpu mem timestamp : Number) (d : Rows) (dep : ApplicationDeployment) (c : Component)
        (cs : List Component) (schedule : List ℕ)
        → (create_edge_node H now (heartbeat H en cpu mem timestamp) (on_healths H earlier d)).1
          ≡ none
        → All (λ h. en.node_id ≢ h.1.node_id) later
        → dep.spec.deployment_profile.components ≡ c ∷ cs
        → let hosts =
            map host_of (
              rows (on_healths H (earlier ++ (now, heartbeat H en cpu mem timestamp) ∷ later) d)) in
          let this : Host = record { host_id = en.node_id; site_id = en.site_id } in
          (gs : Deploying) × (deploy_to_edges hosts dep ≡ some gs)
          × Perm (messages (until_done schedule gs)) (map (message_for dep c) hosts)
          × (keep (λ h. h.host_id == en.node_id) hosts ≡ this ∷ [])
          × ((message_for dep c this).subject ≡ listen_subject en)
    unfolding message_for listen_subject deploy_subject
    heartbeat_reached earlier later now cpu mem timestamp d dep c cs schedule accepted others has =
        let own : String × HealthMsg Number = (now, heartbeat H en cpu mem timestamp) in
        let table = rows (on_healths H (earlier ++ own ∷ later) d) in
        let (gs, e, m) = deploy_to_edges-messages dep c cs has (map host_of table) schedule in
        let one =
          keep-map (λ (h : Host). h.host_id == en.node_id) host_of (is_of en.node_id) table
            (λ r. refl) in
        (gs, e, m, one ∙ last_heartbeat earlier later now cpu mem timestamp d accepted others, refl)
