-- ===== src/Programs.antt =====
-- cmd/co/main.go, cmd/lo/main.go and cmd/en/main.go: the settings of the programs, and the loop
-- that waits for the database.
pub mod Start
pub mod Lower
pub mod Waiting
pub mod Started
pub mod Ready
use margo_hello_world.Common.{
  ℕ, zero, suc, ◌+◌, String, List, [], ◌∷◌, Option, none, some, ◌==◌, numbers, words, if◌then◌else◌,
}

-- os.Getenv: a variable that is not set reads as the empty text.
abbrev pub Environment : Type 0
Environment = String → String

-- v := os.Getenv(key); if v == "" { v = fallback }
unfoldable pub setting : String → String → Environment → String
setting key fallback env = if env key == "" then fallback else env key

pub record CentralSettings : Type 0 where
  pub port : String
  pub metrics_port : String
  pub dsn : String

unfoldable pub central_settings : Environment → CentralSettings
central_settings env = record {
  port = setting "PORT" "8080" env;
  metrics_port = setting "METRICS_PORT" "9200" env;
  dsn = env "DATABASE_URL";
}

pub record LocalSettings : Type 0 where
  pub port : String
  pub metrics_port : String
  pub repo : String
  pub co_url : String
  pub site_id : String
  pub nats_url : String
  pub dsn : String

unfoldable pub local_settings : Environment → LocalSettings
local_settings env = record {
  port = setting "PORT" "8081" env;
  metrics_port = setting "METRICS_PORT" "9201" env;
  repo = setting "REPO" "https://github.com/edge-orchestration-platform/deployments.git" env;
  co_url = setting "CO_URL" "http://localhost:8080/api/v1" env;
  site_id = setting "SITE_ID" "f95d34b2-8019-4590-a3ff-ff1e15ecc5d5" env;
  nats_url = setting "NATS_URL" "nats://localhost:4222" env;
  dsn = env "DATABASE_URL";
}

pub record EdgeSettings : Type 0 where
  pub port : String
  pub metrics_port : String
  pub site_id : String
  pub node_id : String
  pub runtime : String
  pub nats_url : String

unfoldable pub edge_settings : Environment → EdgeSettings
edge_settings env = record {
  port = setting "PORT" "8082" env;
  metrics_port = setting "METRICS_PORT" "9210" env;
  site_id = setting "SITE_ID" "f95d34b2-8019-4590-a3ff-ff1e15ecc5d5" env;
  node_id = setting "NODE_ID" "edge1-containerd" env;
  runtime = setting "RUNTIME" "containerd" env;
  nats_url = setting "NATS_URL" "nats://localhost:4222" env;
}

-- The errors of sql.Open and of Ping in one round of the loop.
pub record Attempt : Type 0 where
  pub open_error : Option String
  pub ping_error : Option String

-- err1 at the end of the round
unfoldable pub attempt_error : Attempt → Option String
attempt_error a = elim a.open_error [ none ↦ a.ping_error | some e ↦ some e ]

-- The seconds slept so far, and err1.
pub record Connecting : Type 0 where
  pub slept : ℕ
  pub error : Option String

-- The rounds that are left, and the number of the next one.
unfoldable pub connect_rounds : ℕ → ℕ → (ℕ → Attempt) → Connecting → Connecting
connect_rounds zero i tries c = c
connect_rounds (suc left) i tries c = elim (attempt_error (tries i)) [
  | none ↦ record c { error = none }
  | some e ↦ connect_rounds left (suc i) tries (record { slept = c.slept + 3; error = some e })
]

abbrev pub max_attempts : ℕ
max_attempts = 10

-- for i := 1; i <= 10; i++
unfoldable pub connect : (ℕ → Attempt) → Connecting
connect tries = connect_rounds max_attempts 1 tries (record { slept = 0; error = none })
