-- ===== src/Config.antt =====
-- internal/config/config.go and pkg/config/config.go, and the simulator of network loss of
-- internal/testenv/network.go with cmd/testenv/network_sim.go. The file system and the yaml library
-- are parameters.
use margo_hello_world.Common.{
  String, List, [], ◌∷◌, ◌++◌, Bool, Option, none, some, if◌then◌else◌, ◌⊎◌, inl, inr, ◌≡◌, refl,
}
use margo_hello_world.Common.Texts.{concat}
use margo_hello_world.Common.Dict.{lookup}
use margo_hello_world.Git.{Calls}
use margo_hello_world.Programs.{Environment}
use margo_hello_world.Programs.Start.{
  Surroundings, fatal, fatal_on, with_flags, parse_flags, start_central,
}

pub record ServerConfig : Type 0 where
  pub site : String
  pub node : String
  pub runtime : String
  pub region : String
  -- an int, as the text that it is read from
  pub port : String

pub record GitConfig : Type 0 where
  pub repo : String
  pub owner : String
  pub branch : String

pub record AppregistryConfig : Type 0 where
  pub repo : String
  pub branch : String

pub record Config : Type 0 where
  pub server : ServerConfig
  pub co_url : String
  pub database_url : String
  pub lo_url : String
  pub nats_url : String
  pub git : GitConfig
  pub appregistry : AppregistryConfig

pub record TriggerConfig : Type 0 where
  pub trigger_type : String
  pub interval : String
  pub repo_owner : String
  pub repo_name : String
  pub yaml_path : String
  pub token_env : String

pub record BrokerConfig : Type 0 where
  pub url : String
  pub topic : String

-- The Config of pkg/config
pub record PkgConfig : Type 0 where
  pub trigger : TriggerConfig
  pub broker : BrokerConfig

-- os.ReadFile, and yaml.Unmarshal into a zero value: what it has set, and its error.
pub record Reads : Type 0 where
  pub read_file : String → String ⊎ String
  pub unmarshal : String → Config × Option String
  pub unmarshal_pkg : String → PkgConfig × Option String

abbrev pub no_config : PkgConfig
no_config = record {
  trigger = record {
    trigger_type = "";
    interval = "0";
    repo_owner = "";
    repo_name = "";
    yaml_path = "";
    token_env = "";
  };
  broker = record { url = ""; topic = "" };
}

abbrev pub left_of : {A B : Type 0} → A ⊎ B → Option A
left_of (inl a) = some a
left_of (inr b) = none

module _ (R : Reads) where
  unfoldable pub parsed : Config × Option String → String ⊎ Config
  parsed (cfg, none) = inr cfg
  parsed (cfg, some e) = inl (concat ("failed to parse config file: " ∷ e ∷ []))

  -- LoadConfig of internal/config
  unfoldable pub load_config : String → String ⊎ Config
  unfolding parsed
  load_config path = elim (R.read_file path) [
    | inl e ↦ inl (concat ("failed to read config file: " ∷ e ∷ []))
    | inr text ↦ parsed (R.unmarshal text)
  ]

  -- LoadConfig of pkg/config, which returns what was set also with an error.
  unfoldable pub load_pkg_config : String → PkgConfig × Option String
  load_pkg_config path = elim (R.read_file path) [
    | inl e ↦ (no_config, some e)
    | inr text ↦ R.unmarshal_pkg text
  ]

  -- What cmd/co/main.go finds, when its configuration is read so.
  unfoldable pub reading : Surroundings → Surroundings
  unfolding load_config
  reading m = record m { config_error = λ path. left_of (load_config path) }

-- What the simulator does.
pub data SimulatorStep (Duration : Type 0) : Type 0 where
  runs : String → SimulatorStep Duration
  sleeps : Duration → SimulatorStep Duration
  prints : String → SimulatorStep Duration

module _ {Duration : Type 0} (second : Duration) (is_zero : Duration → Bool) where
  -- SimulateNetworkLoss drops the errors of both commands.
  unfoldable pub simulate_network_loss : Duration → List (SimulatorStep Duration) × Option String
  simulate_network_loss d = (
    runs "sudo tc qdisc add dev lo root netem loss 70%"
        ∷ sleeps d
        ∷ runs "sudo tc qdisc del dev lo root"
        ∷ [],
    none,
  )

  unfoldable pub after_simulation : Option String → List (SimulatorStep Duration)
  after_simulation none = prints "network simulation complete" ∷ sleeps second ∷ []
  after_simulation (some e) =
      prints (concat ("simulate network error: " ∷ e ∷ [])) ∷ sleeps second ∷ []

  -- main, once the options are parsed
  unfoldable pub network_sim : Duration → List (SimulatorStep Duration)
  unfolding simulate_network_loss after_simulation
  network_sim d =
      if is_zero d
      then prints "no duration provided" ∷ []
      else (let (steps, e) = simulate_network_loss d in steps ++ after_simulation e)

-- A central orchestrator without options whose configuration cannot be read ends with that error,
-- before it looks for its database.
unread_config :
    {W : Type 0} (R : Reads) (calls : Calls W) (env : Environment) (m : Surroundings) (w : W)
    (e : String)
    → m.working_dir_error ≡ none
    → m.read_dir_error ≡ none
    → R.read_file "./configs/co.yaml" ≡ inl e
    → start_central calls [] env (reading R m) w
      ≡ fatal "error loading config" (some (concat ("failed to read config file: " ∷ e ∷ []))) ∷ []
unfolding start_central reading load_config fatal_on with_flags parse_flags lookup
unread_config R calls env m w e dir entries unread =
    let failed : load_config R "./configs/co.yaml"
        ≡ inl (concat ("failed to read config file: " ∷ e ∷ [])) =
      rw (load_config, unread) refl in
    rw (dir, entries, failed) refl
