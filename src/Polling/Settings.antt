-- ===== src/Polling/Settings.antt =====
-- The settings that New of internal/orchestrator/local_orchestrator.go makes, and the address that
-- PollWithETag makes of them.
use margo_hello_world.Common.{String, [], ◌∷◌, ◌≡◌, refl}
use margo_hello_world.Common.Texts.{concat}
use margo_hello_world.Programs.{Environment}
use margo_hello_world.Polling.{LoConfig, Journal, etag_request}

-- The owner and the path are not set.
unfoldable pub new_config : Environment → String → String → String → LoConfig
new_config env site nats_url repo = record {
  owner = "";
  repo = repo;
  token = env "GITHUB_TOKEN";
  path = "";
  nats_url = nats_url;
  site = site;
}

-- Whatever a local orchestrator is started with, the address that it polls has no owner.
polled_without_owner :
    (env : Environment) (site nats_url repo : String) (j : Journal)
    → (etag_request (new_config env site nats_url repo) j).url
      ≡ concat
          ("https://raw.githubusercontent.com/" ∷ "" ∷ "/" ∷ repo ∷ "/main/desiredstate.yaml" ∷ [])
unfolding etag_request new_config
polled_without_owner env site nats_url repo j = refl
