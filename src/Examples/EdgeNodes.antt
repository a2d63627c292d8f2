-- ===== src/Examples/EdgeNodes.antt =====
-- An edge node that has docker but no network: every fetch fails but that of one revision.
use margo_hello_world.Common.{
  ℕ, String, List, [], ◌∷◌, ◌++◌, true, none, some, ◌==◌, numbers, words, if◌then◌else◌, ◌≡◌, refl,
  ◌<◌, ◌⊎◌,
}
use margo_hello_world.Model.{DeployRequest, Component}
use margo_hello_world.Lo.Deploy.{request_of}
use margo_hello_world.EdgeNode.{
  Machine, EdgeNode, on_request, deploy, deploy_containers, deploy_containerd, after_fetch,
  update_status,
}
use margo_hello_world.EdgeNode.States.{states, installs, failing, container_states}

-- The images that run, as the state of the machine.
abbrev pub machine : Machine (List String)
machine = record {
  fetch = λ image tag w. (w, if tag == "1.0" then none else some "no network");
  docker_run = λ name image w. (image ∷ w, none);
  decimal = λ n. if n == 0 then "0" else "1";
}

abbrev pub node : EdgeNode
node = record { site_id = "s1"; node_id = "n1"; runtime = "containerd" }

abbrev pub component : String → String → Component
component repository revision = record {
  name = "web";
  properties = record {
    repository = repository;
    revision = revision;
    wait = true;
    timeout = "5m";
    package_location = "";
    key_location = "";
  };
}

abbrev pub request : String → String → DeployRequest
request repository revision = record {
  app_name = "";
  image = "";
  token = "";
  deployment_id = "d1";
  git_repo_url = repository;
  wasm_images = [];
  container_images = repository ∷ [];
  revision = revision;
}

container_states_example :
    let sent = (on_request machine node "now" (request "r" "2.0") []).1 in
    (states sent ≡ installs 1) ⊎ ((k : ℕ) × ((k < 1) × (states sent ≡ installs k ++ failing)))
container_states_example = container_states machine node "now" (request "r" "2.0") [] refl

failed_test : states (on_request machine node "now" (request "r" "2.0") []).1 ≡ failing
unfolding on_request deploy deploy_containers deploy_containerd after_fetch update_status
failed_test = refl

requested_web : request_of (component "web" "1.0" ∷ []) "d1" ≡ some (request "web" "1.0")
unfolding request_of
requested_web = refl

requested_db : request_of (component "db" "1.0" ∷ []) "d1" ≡ some (request "db" "1.0")
unfolding request_of
requested_db = refl
