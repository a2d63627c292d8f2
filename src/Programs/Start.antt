-- ===== src/Programs/Start.antt =====
-- cmd/co/main.go: the start of the central orchestrator, up to the server that it waits in.
use margo_hello_world.Common.{
  ℕ, String, List, [], ◌∷◌, Option, none, some, ◌==◌, words, if◌then◌else◌, ◌⊎◌, inl, inr, any,
}
use mathlib.Core.Option.{get_or}
use margo_hello_world.Common.Dict.{Dict, lookup, insert}
use margo_hello_world.Git.{
  RepoConfig, git_local, git_remote, Calls, done, stuck, panicked, State, Answer, new_manager,
  register_repo,
}
use margo_hello_world.Git.Operations.{init_repo}
use margo_hello_world.Programs.{Environment, central_settings, Attempt, connect, Connecting}

-- The options of the command line, as a name and a value each, up to the first argument that is
-- not an option.
abbrev pub Options : Type 0
Options = List (String × String)

-- flag.Parse: the name of the first option that is not defined, or the values that were given.
unfoldable pub parse_flags : List String → Options → Dict String → String ⊎ Dict String
parse_flags defined [] values = inr values
parse_flags defined (o ∷ os) values =
    if any (λ n. n == o.0) defined then parse_flags defined os (insert o.0 o.1 values) else inl o.0

-- router.Run: it serves for ever, or returns.
pub data Served : Type 0 where
  serves : Served
  returned : Option String → Served

-- What main finds: the errors of its calls, and the rounds of the loop for the database.
pub record Surroundings : Type 0 where
  pub working_dir_error : Option String
  pub read_dir_error : Option String
  -- the error of LoadConfig for a path
  pub config_error : String → Option String
  pub logger_error : Option String
  pub tries : ℕ → Attempt
  pub run_router : String → Served

-- What main does, as far as it is seen from outside.
pub data Effect : Type 0 where
  -- log.Fatal with a message and the error that it prints, `none` for nil
  fatal : String → Option String → Effect
  -- flag.Parse ends the program at an option that is not defined
  bad_option : String → Effect
  connected : Effect
  metrics_on : String → Effect
  repository_ready : Effect
  hangs : Effect
  panics : Effect
  router_on : String → Effect
  grpc_on : String → Effect

-- if err != nil { log.Fatalf(message, err) }
unfoldable pub fatal_on : Option String → String → List Effect → List Effect
fatal_on none message next = next
fatal_on (some e) message next = fatal message (some e) ∷ []

unfoldable pub with_flags : String ⊎ Dict String → (Dict String → List Effect) → List Effect
with_flags (inl name) next = bad_option name ∷ []
with_flags (inr values) next = next values

-- The variable err in front of the loop is nil: the message prints it and not err1.
unfoldable pub with_database : Connecting → List Effect → List Effect
with_database c next = elim c.error [
  | none ↦ connected ∷ next
  | some e ↦ fatal "Failed to connect to Postgres after retries" none ∷ []
]

abbrev pub app_registry : RepoConfig
app_registry = record {
  name = "app-registry";
  mode = git_remote;
  local_path = "";
  remote_url = "https://github.com/edge-orchestration-platform/app-registry.git";
  token = "";
  branch = "main";
  working_path = "/tmp/app-registry";
}

unfoldable pub deployments : String → RepoConfig
deployments token = record {
  name = "deployments";
  mode = git_local;
  local_path = "/home/balaji/local-deployments";
  remote_url = "";
  token = token;
  branch = "main";
  working_path = "/tmp/deployments-co";
}

-- After router.Run: its error is fatal; then the goroutine of the gRPC server.
unfoldable pub after_router : Served → String → List Effect
after_router serves grpc_port = []
after_router (returned e) grpc_port = fatal_on e "" (grpc_on grpc_port ∷ [])

-- An answer whose error is not looked at.
unfoldable pub ignoring : {W : Type 0} → Answer W → (State W → Answer W) → Answer W
ignoring (done (s, e)) next = next s
ignoring stuck next = stuck
ignoring panicked next = panicked

module _ {W : Type 0} (calls : Calls W) where
  -- The two calls of Register, whose errors are ignored, and InitRepo.
  unfoldable pub set_up : String → W → Answer W
  set_up token w = ignoring (register_repo calls app_registry (new_manager calls w)) λ s.
      ignoring (register_repo calls (deployments token) s) λ s'. init_repo calls "deployments" s'

  unfoldable pub with_repositories : Answer W → List Effect → List Effect
  with_repositories (done (s, e)) next = fatal_on e "" (repository_ready ∷ next)
  with_repositories stuck next = hangs ∷ []
  with_repositories panicked next = panics ∷ []

  -- main
  unfoldable pub start_central : Options → Environment → Surroundings → W → List Effect
  start_central os env m w =
      let settings = central_settings env in
      fatal_on m.working_dir_error "" (
        fatal_on m.read_dir_error "" (
          with_flags (parse_flags ("config" ∷ []) os []) λ values.
            fatal_on (m.config_error (get_or (lookup "config" values) "./configs/co.yaml"))
              "error loading config"
              (fatal_on m.logger_error "can't initialize zap logger" (
                with_flags (parse_flags ("config" ∷ "grpc" ∷ []) os []) λ values'.
                  with_database (connect m.tries) (
                    metrics_on settings.metrics_port
                    ∷ with_repositories (set_up (env "GITHUB_TOKEN") w) (
                        router_on settings.port
                        ∷ after_router (m.run_router settings.port)
                            (get_or (lookup "grpc" values') ":50051")))))))
