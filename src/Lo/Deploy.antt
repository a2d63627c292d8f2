-- ===== src/Lo/Deploy.antt =====
-- handleGitPolled and DeployToEdges of internal/orchestrator/local_orchestrator.go: from changed
-- deployment files to the messages for the edge nodes. yaml.Unmarshal is the parameter `parse`;
-- the hosts are the target_edges of what the query of the host table answers. `none` is a panic.
pub mod Messages
use margo_hello_world.Common.{
  ℕ, zero, suc, String, List, [], ◌∷◌, ◌++◌, Option, none, some, ◌⊎◌, inl, inr, map,
}
use margo_hello_world.Common.Texts.{concat}
use margo_hello_world.Model.{
  DeployRequest, ApplicationDeployment, Component, DeploymentStatus, no_error,
}
use margo_hello_world.Loader.{WorkResult}

-- internal/watcher/watcher.go
pub record DeploymentChange : Type 0 where
  pub deployment_id : String
  pub file_path : String
  pub content : String

-- A row of the host table, as far as it is read here.
pub record Host : Type 0 where
  pub host_id : String
  pub site_id : String

pub record Message : Type 0 where
  pub subject : String
  pub request : DeployRequest

-- What a deployment does outside the orchestrator: SaveDeploymentRecord, Publish on the broker, and
-- Publish on the result bus.
pub data Action : Type 0 where
  saves : DeploymentStatus → Action
  publishes : Message → Action
  reports : WorkResult → Action

-- model.DeploymentStatus{}
abbrev pub empty_status : DeploymentStatus
empty_status = record {
  api_version = "";
  kind = "";
  deployment_id = "";
  status = record { state = ""; error = no_error };
  components = [];
}

-- fmt.Sprintf("site.%s.deploy.%s", ...), of the local orchestrator and of the edge node
unfoldable pub deploy_subject : String → String → String
unfolding concat
deploy_subject site node = concat ("site." ∷ site ∷ ".deploy." ∷ node ∷ [])

-- The request of one node: Components[0] panics where there is no component.
unfoldable pub request_of : List Component → String → Option DeployRequest
request_of [] id = none
request_of (c ∷ cs) id = some (record {
  app_name = "";
  image = "";
  token = "";
  deployment_id = id;
  git_repo_url = c.properties.repository;
  wasm_images = [];
  container_images = c.properties.repository ∷ [];
  revision = c.properties.revision;
})

-- The goroutine of one node.
unfoldable pub deploy_to_node : Host → ApplicationDeployment → Option (List Action)
unfolding request_of deploy_subject
deploy_to_node node dep =
    elim (request_of dep.spec.deployment_profile.components dep.metadata.annotations.id) [
      | none ↦ none
      | some req ↦ some (
          saves empty_status
          ∷ publishes (record { subject = deploy_subject node.site_id node.host_id; request = req })
          ∷ [])
    ]

-- The goroutines that one call of DeployToEdges has started for its nodes, as what each still does.
abbrev pub Deploying : Type 0
Deploying = List (List Action)

-- The loop of DeployToEdges. A panic in one of the goroutines ends the program; a failure to save or
-- to publish is only logged.
unfoldable pub deploy_to_nodes : List Host → ApplicationDeployment → Option Deploying
deploy_to_nodes [] dep = some []
deploy_to_nodes (node ∷ nodes) dep =
    let rest = deploy_to_nodes nodes dep in
    elim (deploy_to_node node dep) [
      | none ↦ none
      | some acts ↦ elim rest [ none ↦ none | some more ↦ some (acts ∷ more) ]
    ]

-- DeployToEdges, which returns when its goroutines are started.
unfoldable pub deploy_to_edges : List Host → ApplicationDeployment → Option Deploying
deploy_to_edges nodes dep = deploy_to_nodes nodes dep

-- The next action of one of the goroutines.
unfoldable pub advance : ℕ → Deploying → List Action × Deploying
advance i [] = ([], [])
advance zero ([] ∷ gs) = ([], [] ∷ gs)
advance zero ((a ∷ acts) ∷ gs) = (a ∷ [], acts ∷ gs)
advance (suc i) (g ∷ gs) = let (acts, gs') = advance i gs in (acts, g ∷ gs')

-- All that the goroutines do: they advance as a schedule says, and then in turn to their ends.
unfoldable pub interleave : List ℕ → Deploying → List Action
unfolding advance
interleave [] [] = []
interleave [] (g ∷ gs) = g ++ interleave [] gs
interleave (i ∷ schedule) gs = let (acts, gs') = advance i gs in acts ++ interleave schedule gs'

-- A call with the goroutine that waits for the others and tells the result bus.
unfoldable pub until_done : List ℕ → Deploying → List Action
until_done schedule gs =
    interleave schedule gs ++ reports (record { node = "all"; status = "done" }) ∷ []

abbrev pub first_schedule : List (List ℕ) → List ℕ
first_schedule [] = []
first_schedule (s ∷ _) = s

abbrev pub other_schedules : List (List ℕ) → List (List ℕ)
other_schedules [] = []
other_schedules (_ ∷ ss) = ss

-- Several calls, each with the schedule of its goroutines.
unfoldable pub each_until_done : List (List ℕ) → List Deploying → Deploying
unfolding until_done
each_until_done schedules [] = []
each_until_done schedules (call ∷ calls) =
    until_done (first_schedule schedules) call ∷ each_until_done (other_schedules schedules) calls

-- What calls do that nothing waits for: the last schedule mixes them with each other.
unfoldable pub run_calls : List (List ℕ) → List ℕ → List Deploying → List Action
unfolding interleave each_until_done
run_calls schedules among calls = interleave among (each_until_done schedules calls)

-- GetAllNodes, of what the query answers, and the nodes of DeployToEdges, which only logs the error.
unfoldable pub get_all_nodes : {Row : Type 0} → String ⊎ List Row → List Row × Option String
get_all_nodes (inl e) = ([], some e)
get_all_nodes (inr nodes) = (nodes, none)

unfoldable pub target_edges : {Row : Type 0} → (Row → Host) → String ⊎ List Row → List Host
unfolding get_all_nodes
target_edges host_of answer = map host_of (get_all_nodes answer).0

module _ (parse : String → Option ApplicationDeployment) (hosts : List Host) where
  -- handleGitPolled, with the calls that it has started: content that is no deployment is logged and
  -- passed over.
  unfoldable pub handle_git_polled : List DeploymentChange → Option (List Deploying)
  handle_git_polled [] = some []
  handle_git_polled (d ∷ ds) =
      let rest = handle_git_polled ds in
      elim (parse d.content) [
        | none ↦ rest
        | some dep ↦ elim (deploy_to_edges hosts dep) [
          | none ↦ none
          | some call ↦ elim rest [ none ↦ none | some calls ↦ some (call ∷ calls) ]
        ]
      ]
