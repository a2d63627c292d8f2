-- ===== src/Examples/Programs.antt =====
-- Starts of the programs.
use margo_hello_world.Common.{
  ◌&&◌, ◌+◌, ℕ, suc, String, [], ◌∷◌, false, Option, none, some, ◌==◌, words, numbers,
  if◌then◌else◌, ◌≡◌, ◌≢◌, refl, any, arith, ltb,
}
use margo_hello_world.Common.Texts.{concat}
use margo_hello_world.Common.Dict.{lookup}
use margo_hello_world.Git.{RepoConfig, Calls, State, done, absent}
use margo_hello_world.Programs.{Environment, Attempt, attempt_error, local_settings}
use margo_hello_world.Programs.Start.{returned, Surroundings, deployments, set_up, start_central}
use margo_hello_world.Programs.Waiting.{Fail}
use margo_hello_world.Programs.Started.{is_grpc, is_router, callbacks_unserved}
use margo_hello_world.Programs.Ready.{IsReady, set_up-IsReady}
use margo_hello_world.Health.{forward_url}
use margo_hello_world.Router.{
  Matching, serve_request, cors_headers, handled, deployment_status, aborted,
}
use margo_hello_world.Router.Forwarded.{status_path, forwarded_routed}

-- A database that answers at the third attempt.
abbrev third : ℕ → Attempt
third i = record {
  open_error = none;
  ping_error = if ltb i 3 then some "connection refused" else none;
}

third_fails : Fail third 1 2
unfolding attempt_error
third_fails = (("connection refused", refl), (("connection refused", refl), tt))

third_answers : attempt_error (third (1 + 2)) ≡ none
unfolding attempt_error
third_answers = refl

-- A disk without a working copy, on which every repository opens.
abbrev calls : Calls ℕ
calls = record {
  stat = λ path w. absent;
  mkdir_all = λ path w. (w, none);
  remove_all = λ path w. w;
  plain_open = λ path w. none;
  plain_clone = λ path url auth branch w. (suc w, none);
  worktree = λ path w. none;
  pull = λ path auth w. (w, none);
  add = λ path rel w. (w, none);
  commit = λ path msg w. (w, none);
  push = λ path auth w. (w, none);
  read_file = λ path w. none;
}

abbrev quiet : Surroundings
quiet = record {
  working_dir_error = none;
  read_dir_error = none;
  config_error = λ path. none;
  logger_error = none;
  tries = third;
  run_router = λ port. returned (some "in use");
}

abbrev unset : Environment
unset key = ""

quiet_returns : (port : String) → quiet.run_router port ≢ returned none
quiet_returns port e = ground (arith, e)

callbacks_unserved_example :
    (any is_grpc (start_central calls (("grpc", ":50052") ∷ []) unset quiet 0) ≡ false)
    × ((any is_router (start_central calls (("grpc", ":50052") ∷ []) unset quiet 0)
          && any (λ (o : String × String). o.0 == "grpc") (("grpc", ":50052") ∷ []))
        ≡ false)
callbacks_unserved_example =
    callbacks_unserved calls (("grpc", ":50052") ∷ []) unset quiet 0 quiet_returns

set_up-IsReady_example :
    (s : State ℕ) × (e : Option String) × (cfg : RepoConfig) × (set_up calls "secret" 0
      ≡ done (s, e))
    × (lookup "deployments" s.repos ≡ some cfg)
    × (lookup "deployments" s.locks ≡ some false)
    × IsReady calls (deployments "secret") (s.world, (cfg, e))
set_up-IsReady_example = set_up-IsReady calls "secret" 0

abbrev match : Matching
match pattern path =
    if path == "/api/v1/deployments/d1/status" then some (("id", "d1") ∷ []) else none

forwarded_routed_example :
    (forward_url (local_settings unset).co_url "d1"
      ≡ concat ("http://localhost:8080" ∷ "/api/v1/deployments/" ∷ "d1" ∷ "/status" ∷ []))
    × (serve_request match "POST" (status_path "d1") ≡ record {
      headers = cors_headers;
      reached = handled deployment_status (("id", "d1") ∷ []);
    })
    × (serve_request match "OPTIONS" (status_path "d1")
        ≡ record { headers = cors_headers; reached = aborted 204 })
unfolding concat
forwarded_routed_example = forwarded_routed match unset "d1" refl refl
