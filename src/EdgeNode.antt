-- ===== src/EdgeNode.antt =====
-- internal/edgenode/edgenode.go: what an edge node does with a request to deploy. The fetcher of
-- images and docker are parameters over a state `W` of the machine; time.Now is the text `now`.
pub mod States
pub mod Completed
pub mod Revision
use margo_hello_world.Common.{
  ℕ, zero, suc, String, List, [], ◌∷◌, ◌++◌, Bool, true, false, Option, none, some, ◌==◌, words,
  if◌then◌else◌,
}
use margo_hello_world.Common.Texts.{concat}
use margo_hello_world.Model.{
  DeployRequest, DeploymentReport, DeploymentStatus, StatusError, no_error, state_pending,
  state_installing, state_installed, state_failed, status_completed,
}

-- What leaves the node.
pub data Sent : Type 0 where
  status : String → DeploymentStatus → Sent
  report : String → DeploymentReport → Sent

-- ocifetch.Fetcher.Fetch with an image and a tag, and docker run with a name and an image: `none`
-- is success, and docker's error comes with its output. `decimal` is %d.
pub record Machine (W : Type 0) : Type 0 where
  pub fetch : String → String → W → W × Option String
  pub docker_run : String → String → W → W × Option (String × String)
  pub decimal : ℕ → String

pub record EdgeNode : Type 0 where
  pub site_id : String
  pub node_id : String
  pub runtime : String

unfoldable pub status_subject : EdgeNode → String
status_subject en = concat ("status." ∷ en.site_id ∷ "." ∷ en.node_id ∷ [])

-- The subject of startDeployListener
unfoldable pub listen_subject : EdgeNode → String
listen_subject en = concat ("site." ∷ en.site_id ∷ ".deploy." ∷ en.node_id ∷ [])

abbrev pub error_of : Option String → StatusError
error_of none = no_error
error_of (some message) = record { code = "DEPLOYMENT_FAILED"; message = message }

-- UpdateStatus
unfoldable pub update_status : EdgeNode → String → String → String → Option String → Sent
update_status en id state comp err = status (status_subject en) (record {
  api_version = "deployment.margo/v1";
  kind = "DeploymentStatus";
  deployment_id = id;
  status = record { state = state; error = error_of err };
  components =
      if comp == "" then [] else record { name = comp; state = state; error = error_of err } ∷ [];
})

-- What a piece of the handler returns: the state, what was sent, and its error.
pub record Result (W : Type 0) : Type 0 where
  pub world : W
  pub sent : List Sent
  pub error : Option String

module _ {W : Type 0} (M : Machine W) (en : EdgeNode) where
  -- deployContainerd after docker run
  unfoldable pub after_run : DeployRequest → String → W × Option (String × String) → Result W
  after_run req comp (w, none) = record {
    world = w;
    sent = update_status en req.deployment_id state_installed comp none ∷ [];
    error = none;
  }
  after_run req comp (w, some (e, out)) = record {
    world = w;
    sent =
        update_status en req.deployment_id state_failed comp
          (some (concat ("docker run failed: " ∷ e ∷ ", " ∷ out ∷ [])))
        ∷ [];
    error = some e;
  }

  -- deployContainerd after Fetch
  unfoldable pub after_fetch : DeployRequest → String → W × Option String → Result W
  after_fetch req comp (w, some e) = record {
    world = w;
    sent = update_status en req.deployment_id state_failed comp (some e) ∷ [];
    error = some e;
  }
  after_fetch req comp (w, none) =
      let image = concat (req.image ∷ ":" ∷ req.revision ∷ []) in
      after_run req comp (M.docker_run req.revision image w)

  -- deployContainerd
  unfoldable pub deploy_containerd : DeployRequest → String → W → Result W
  deploy_containerd req comp w =
      let r = after_fetch req comp (M.fetch req.image req.revision w) in
      record r {
        sent =
            update_status en req.deployment_id state_pending comp none
            ∷ update_status en req.deployment_id state_installing comp none
            ∷ r.sent;
      }

  -- The loop over req.ContainerImages from index i on; it breaks at the first error. The error is
  -- statusMsg.
  unfoldable pub deploy_containers : DeployRequest → ℕ → List String → W → Result W
  deploy_containers req i [] w = record { world = w; sent = []; error = none }
  deploy_containers req i (img ∷ imgs) w =
      let r = deploy_containerd req (concat ("component-" ∷ M.decimal i ∷ [])) w in
      let rest = deploy_containers req (suc i) imgs r.world in
      elim r.error [
        | none ↦ record rest { sent = r.sent ++ rest.sent }
        | some e ↦ record r {
          error = some (concat ("Container deploy failed for " ∷ img ∷ ": " ∷ e ∷ []));
        }
      ]

  -- The loop over req.WasmImages: the first image is a failure. fmt.Sprintf has no argument for
  -- its second verb, and says so.
  unfoldable pub deploy_wasm : List String → W → Result W
  deploy_wasm [] w = record { world = w; sent = []; error = none }
  deploy_wasm (img ∷ imgs) w = record {
    world = w;
    sent = [];
    error = some (concat ("WASM deploy failed for " ∷ img ∷ ": %!v(MISSING)" ∷ []));
  }

  -- The branch on the runtime.
  unfoldable pub deploy : DeployRequest → W → Result W
  deploy req w =
      if en.runtime == "wasm"
      then deploy_wasm req.wasm_images w
      else deploy_containers req zero req.container_images w

  abbrev status_message : Option String → String
  status_message none = "Deployment successful"
  status_message (some message) = message

  unfoldable pub report_of : String → DeployRequest → Option String → DeploymentReport
  report_of now req error = record {
    deployment_id = req.deployment_id;
    site_id = en.site_id;
    node_id = en.node_id;
    app_name = "";
    status = status_completed;
    message = status_message error;
    state = "";
    timestamp = now;
  }

  -- The handler of startDeployListener. A failure to publish is only logged.
  unfoldable pub on_request : String → DeployRequest → W → W × List Sent
  on_request now req w =
      let r = deploy req w in
      (r.world, r.sent ++ report (status_subject en) (report_of now req r.error) ∷ [])
