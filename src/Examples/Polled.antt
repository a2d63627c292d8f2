-- ===== src/Examples/Polled.antt =====
-- A local orchestrator that polls, with three hosts of which the second refuses every request.
use margo_hello_world.Common.{
  ℕ, String, List, [], ◌∷◌, ◌++◌, none, ◌==◌, words, ◌≡◌, ◌≢◌, refl, arith, inr, if◌then◌else◌, map,
}
use margo_hello_world.Common.Texts.{concat}
use margo_hello_world.Fsm.Tabled.{TableEngine, tabled_fire, tabled_fire_to}
use margo_hello_world.Fsm.{destination}
use margo_hello_world.Fsm.Runs.{fire_all}
use margo_hello_world.Loader.{new_loader}
use margo_hello_world.Model.{DeployRequest}
use margo_hello_world.Polling.{Hosts, Github, Poller, poll, post_deployment, after_post, deploy_url}
use margo_hello_world.Polling.Modes.{ModeLoop, mode_tick, trigger_fsm, event_of_mode}
use margo_hello_world.Polling.Refused.{poll_refused}
use margo_hello_world.Polling.Posted.{refusal_hidden}

-- The state counts nothing: it is the list of the urls that were posted to.
abbrev hosts : Hosts (List String)
hosts = record {
  post = λ url req w. (w ++ url ∷ [], if url == "http://n2/deploy" then inr 503 else inr 200);
}

abbrev request : DeployRequest
request = record {
  app_name = "web";
  image = "example.org/web";
  token = "";
  deployment_id = "";
  git_repo_url = "";
  wasm_images = [];
  container_images = [];
  revision = "1.0";
}

posted_test :
    (post_deployment hosts request ("http://n1" ∷ "http://n2" ∷ "http://n3" ∷ []) []).world
    ≡ "http://n1/deploy" ∷ "http://n2/deploy" ∷ []
unfolding post_deployment after_post deploy_url concat
posted_test = refl

n1_accepts : (w : List String) → (hosts.post (deploy_url "http://n1") request w).1 ≡ inr 200
unfolding deploy_url concat
n1_accepts w = refl

n2_refuses : (w : List String) → (hosts.post (deploy_url "http://n2") request w).1 ≡ inr 503
unfolding deploy_url concat
n2_refuses w = refl

not_ok : ◌≢◌ {A = ℕ} 503 200
not_ok e = omega (arith, e)

refusal_hidden_example :
    ((post_deployment hosts request ("http://n1" ∷ "http://n2" ∷ "http://n3" ∷ []) []).urls
      ≡ map deploy_url ("http://n1" ∷ "http://n2" ∷ []))
    × ((post_deployment hosts request ("http://n1" ∷ "http://n2" ∷ "http://n3" ∷ []) []).error
        ≡ none)
refusal_hidden_example =
    refusal_hidden hosts request ("http://n1" ∷ []) "http://n2" ("http://n3" ∷ []) 503 []
      (n1_accepts, tt) n2_refuses not_ok

abbrev github : Github
github = record { get_contents = λ cfg. inr none }

abbrev poller : Poller TableEngine hosts github (λ yaml. none)
poller = record {
  config = record {
    owner = "";
    repo = "deployments";
    token = "";
    path = "";
    nats_url = "";
    site = "s1";
  };
  journal = record { etag = ""; last_success = ""; last_commit_id = "" };
  hosts = "http://n1" ∷ [];
  machine = fire_all TableEngine ("enable_pull" ∷ []) (new_loader TableEngine);
  world = [];
}

poll_refused_example :
    let q = poll TableEngine hosts github (λ yaml. none) "now" poller in
    (q.machine.state ≡ poller.machine.state)
    × (q.journal ≡ poller.journal)
    × (q.hosts ≡ poller.hosts)
    × (q.world ≡ poller.world)
poll_refused_example =
    poll_refused TableEngine hosts github (λ yaml. none) ("enable_pull" ∷ []) "now" poller refl

abbrev first_mode : ModeLoop TableEngine
first_mode = record {
  current_mode = none;
  cancel_func = none;
  next_ctx = 0;
  cancelled = [];
  machine = new_loader TableEngine;
}

-- The second tick finds the mode unchanged.
ticks_test : (mode_tick TableEngine (mode_tick TableEngine first_mode)).machine.state ≡ "ready"
unfolding mode_tick trigger_fsm event_of_mode new_loader tabled_fire tabled_fire_to destination
ticks_test = refl
