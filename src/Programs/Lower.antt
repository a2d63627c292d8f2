-- ===== src/Programs/Lower.antt =====
-- cmd/lo/main.go and cmd/en/main.go: the starts of a local orchestrator and of an edge node.
use margo_hello_world.Common.{
  ℕ, String, List, [], ◌∷◌, Bool, true, false, Option, none, some, words, if◌then◌else◌, ◌&&◌, ◌≡◌,
  refl, arith, any, Option-cases, inl, inr,
}
use margo_hello_world.Common.Texts.{concat}
use margo_hello_world.Git.{RepoConfig, url}
use margo_hello_world.Programs.{
  Environment, Attempt, Connecting, connect, local_settings, edge_settings,
}
use margo_hello_world.Programs.Start.{deployments}

-- What the starts find: the errors of their calls, the rounds of the loop for the database, and
-- whether a local orchestrator is told to stop.
pub record Around : Type 0 where
  pub logger_error : Option String
  pub tries : ℕ → Attempt
  -- the error of natsbroker.New for a url
  pub nats_error : String → Option String
  -- the error of ListenAndServe or of router.Run; ErrServerClosed is none
  pub server_error : Option String
  pub signalled : Bool

-- What a start does, as far as it is seen from outside.
pub data Step : Type 0 where
  ends : String → Option String → Step
  connected : Step
  broker_on : String → Step
  registers : RepoConfig → Step
  -- the parts are made for a site, and the reports are forwarded to a url
  follows_site : String → String → Step
  node_on : String → String → String → Step
  metrics_on : String → Step
  monitor_on : Step
  server_on : String → Step
  cancelled : Step

-- if err != nil { log.Fatalf(message, err) }
unfoldable pub ends_on : Option String → String → List Step → List Step
ends_on none message next = next
ends_on (some e) message next = ends message (some e) ∷ []

-- The loop for the database; its message prints err, which is nil.
unfoldable pub after_connecting : Connecting → List Step → List Step
after_connecting c next = elim c.error [
  | none ↦ connected ∷ next
  | some e ↦ ends "Failed to connect to Postgres after retries" none ∷ []
]

-- The same repository as that of the central orchestrator, with a working copy of its own.
unfoldable pub local_deployments : String → RepoConfig
unfolding deployments
local_deployments token = record (deployments token) { working_path = "/tmp/deployments-lo" }

-- From the server on: it crashes, or the program waits for a signal.
unfoldable pub until_signal : Around → List Step
until_signal m =
    ends_on m.server_error "HTTP server crashed" (if m.signalled then cancelled ∷ [] else [])

-- main of cmd/lo
unfoldable pub start_local : Environment → Around → List Step
start_local env m =
    let settings = local_settings env in
    ends_on m.logger_error "can't initialize zap logger" (
      after_connecting (connect m.tries) (
        ends_on (m.nats_error settings.nats_url) "nats connect" (
          broker_on settings.nats_url
          ∷ registers (local_deployments (env "GITHUB_TOKEN"))
          ∷ follows_site settings.site_id settings.co_url
          ∷ metrics_on settings.metrics_port
          ∷ monitor_on
          ∷ server_on settings.port
          ∷ until_signal m)))

-- main of cmd/en
unfoldable pub start_edge : Environment → Around → List Step
start_edge env m =
    let settings = edge_settings env in
    ends_on (m.nats_error settings.nats_url) "Failed to connect to NATS" (
      broker_on settings.nats_url
      ∷ ends_on m.logger_error "can't initialize zap logger" (
          metrics_on settings.metrics_port
          ∷ node_on settings.site_id settings.node_id settings.runtime
          ∷ server_on settings.port
          ∷ ends_on m.server_error "Server failed to start" []))

abbrev pub is_forwarding : Step → Bool
is_forwarding (follows_site _ _) = true
is_forwarding (ends _ _) = false
is_forwarding connected = false
is_forwarding (broker_on _) = false
is_forwarding (registers _) = false
is_forwarding (node_on _ _ _) = false
is_forwarding (metrics_on _) = false
is_forwarding monitor_on = false
is_forwarding (server_on _) = false
is_forwarding cancelled = false

abbrev pub is_failed : Connecting → Bool
is_failed c = elim c.error [ none ↦ false | some _ ↦ true ]

-- A local orchestrator whose database does not answer within the ten attempts forwards no report.
pub database_first :
    (env : Environment) (m : Around)
    → (any is_forwarding (start_local env m) && is_failed (connect m.tries)) ≡ false
unfolding start_local ends_on after_connecting
database_first env m = elim (Option-cases (connect m.tries).error) [
  | inl e ↦ rw e (ground arith)
  | inr (x, e) ↦ elim (Option-cases m.logger_error) [
    | inl l ↦ rw (l, after_connecting, e) refl
    | inr (y, l) ↦ rw l refl
  ]
]

-- Where the central orchestrator works in the local repository itself, that is what the local ones
-- clone.
pub one_repository :
    (token other : String)
    → url (local_deployments other)
      ≡ concat (
          "file://"
          ∷ (record (deployments token) {
            working_path = (deployments token).local_path;
          }).working_path
          ∷ [])
unfolding url deployments local_deployments
one_repository token other = refl
