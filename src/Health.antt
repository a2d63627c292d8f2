-- ===== src/Health.antt =====
-- internal/orchestrator/health.go, with CreateEdgeNode of internal/orchestrator/db.go and the
-- subscriptions of internal/natsbroker/nats.go: what a local orchestrator does with the messages of
-- its edge nodes. The broker and the network are parameters.
pub mod Own
pub mod Followed
pub mod Reached
use margo_hello_world.Common.{
  String, List, [], ◌∷◌, Bool, true, false, Option, none, some, if◌then◌else◌, ◌⊎◌, inl, inr,
}
use margo_hello_world.Common.Texts.{concat}
use margo_hello_world.Model.{DeploymentStatus, no_error}
use margo_hello_world.EdgeNode.{EdgeNode, Sent, status, report}
use margo_hello_world.Records.{update_deployment_record}
use margo_hello_world.Records as Records
use margo_hello_world.Status.{Database, Api, deployment_status_handler}

-- pkg/model/health.go; the numbers are only passed on.
pub record HealthMsg (Number : Type 0) : Type 0 where
  pub node_id : String
  pub site_id : String
  pub cpu_percent : Number
  pub mem_mb : Number
  pub timestamp : Number
  pub runtime : String
  pub region : String

-- What the builder of ent.Host is given.
pub record HostRow (Number : Type 0) : Type 0 where
  pub host_id : String
  pub site_id : String
  pub runtime : String
  pub cpu_free : Number
  pub status : String
  pub last_heartbeat : String

-- uuid.Parse, 100 - x on float64, and the insertion that on a conflict of the host's id replaces
-- the row.
pub record Hosts (Number Rows : Type 0) : Type 0 where
  pub parse_uuid : String → String ⊎ String
  pub from_hundred : Number → Number
  pub upsert : HostRow Number → Rows → Rows × Option String

module _ {Number Rows : Type 0} (H : Hosts Number Rows) where
  unfoldable pub host_row : String → String → HealthMsg Number → HostRow Number
  host_row now site h = record {
    host_id = h.node_id;
    site_id = site;
    runtime = h.runtime;
    cpu_free = H.from_hundred h.cpu_percent;
    status = "Alive";
    last_heartbeat = now;
  }

  -- CreateEdgeNode
  unfoldable pub create_edge_node : String → HealthMsg Number → Rows → Rows × Option String
  create_edge_node now h rows = elim (H.parse_uuid h.site_id) [
    | inl e ↦ (rows, some e)
    | inr site ↦ H.upsert (host_row now site h) rows
  ]

  -- The message of startHeartbeat of internal/edgenode/edgenode.go; its numbers are random.
  unfoldable pub heartbeat : EdgeNode → Number → Number → Number → HealthMsg Number
  heartbeat en cpu mem timestamp = record {
    node_id = en.node_id;
    site_id = en.site_id;
    cpu_percent = cpu;
    mem_mb = mem;
    timestamp = timestamp;
    runtime = en.runtime;
    region = "";
  }

  -- The handler of Subscribe2, which only logs the error.
  unfoldable pub on_health : String → HealthMsg Number → Rows → Rows
  on_health now h rows = (create_edge_node now h rows).0

  -- Messages one after the other, each with its time.
  unfoldable pub on_healths : List (String × HealthMsg Number) → Rows → Rows
  on_healths [] rows = rows
  on_healths ((now, h) ∷ hs) rows = on_healths hs (on_health now h rows)

-- The subject of startHeartbeat
unfoldable pub health_subject : EdgeNode → String
health_subject en = concat ("health." ∷ en.site_id ∷ "." ∷ en.node_id ∷ [])

-- A status whose fields json.Unmarshal has not set.
abbrev pub zero_status : DeploymentStatus
zero_status = record {
  api_version = "";
  kind = "";
  deployment_id = "";
  status = record { state = ""; error = no_error };
  components = [];
}

-- json.Unmarshal of Subscribe4, whose error is ignored. A report has no key of a status but
-- "status", where it has a text and not an object.
unfoldable pub decode_status : Sent → DeploymentStatus
decode_status (status subject s) = s
decode_status (report subject r) = zero_status

abbrev pub subject_of : Sent → String
subject_of (status subject s) = subject
subject_of (report subject r) = subject

-- The url of forwardToCO
unfoldable pub forward_url : String → String → String
forward_url base id = concat (base ∷ "/deployments/" ∷ id ∷ "/status" ∷ [])

-- Whether the broker hands a subject to the subscription of the site, and whether a POST to a url
-- reaches DeploymentStatusHandler.
pub record Network : Type 0 where
  pub subscribed : String → Bool
  pub arrives : String → Bool

module _ (T : Records.Tables) (D : Database) (N : Network) (base now : String) where
  -- The records of the local orchestrator, and what the handlers of the central one share.
  pub record Tiers : Type 0 where
    pub records : T.Rows
    pub api : Api D

  -- A POST that has reached the central orchestrator; `none` is its panic.
  unfoldable pub answered : Option (Api D) → Tiers → Option Tiers
  answered none t = none
  answered (some api) t = some (record t { api = api })

  -- forwardToCO; what went wrong is only logged.
  unfoldable pub forward_to_co : DeploymentStatus → Tiers → Option Tiers
  unfolding answered
  forward_to_co s t =
      if N.arrives (forward_url base s.deployment_id)
      then answered (deployment_status_handler D now (some s) t.api) t
      else some t

  -- The handler of Subscribe4: the error of UpdateDeploymentRecord is ignored.
  unfoldable pub on_status : DeploymentStatus → Tiers → Option Tiers
  unfolding forward_to_co
  on_status s t =
      forward_to_co s (record t { records = (update_deployment_record T s t.records).0 })

  -- A message that a node has published.
  unfoldable pub on_sent : Sent → Tiers → Option Tiers
  unfolding on_status decode_status
  on_sent m t = if N.subscribed (subject_of m) then on_status (decode_status m) t else some t

  unfoldable pub on_all : List Sent → Tiers → Option Tiers
  on_all [] t = some t
  on_all (m ∷ ms) t = elim (on_sent m t) [ none ↦ none | some t' ↦ on_all ms t' ]
