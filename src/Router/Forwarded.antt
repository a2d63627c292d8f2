-- ===== src/Router/Forwarded.antt =====
-- The urls to which internal/orchestrator/health.go posts, at the routes of internal/api/router.go.
use Prim.Native.String.{◌++◌}
use text.Mathlib.TextLemmas.{append_assoc}
use margo_hello_world.Common.{sym, ap, ◌∙◌, String, [], ◌∷◌, some, ◌≡◌, refl}
use margo_hello_world.Common.Texts.{concat}
use margo_hello_world.Health.{forward_url}
use margo_hello_world.Programs.{Environment, local_settings, setting}
use margo_hello_world.Router.{
  Matching, handled, deployment_status, aborted, cors_headers, serve_request, find_route, routes,
  api, cors_middleware,
}

abbrev pub status_path : String → String
status_path id = concat ("/api/v1/deployments/" ∷ id ∷ "/status" ∷ [])

parts :
    (id : String)
    → "http://localhost:8080/api/v1" ++ ("/deployments/" ++ (id ++ "/status"))
      ≡ "http://localhost:8080" ++ ("/api/v1/deployments/" ++ (id ++ "/status"))
parts id =
    append_assoc "http://localhost:8080" "/api/v1" ("/deployments/" ++ (id ++ "/status"))
    ∙ ap (λ t. "http://localhost:8080" ++ t)
        (sym (append_assoc "/api/v1" "/deployments/" (id ++ "/status")))

-- When the router matches the pattern of the route of reports with the path of one id, and CO_URL
-- is not set, the url to which a local orchestrator forwards a report with that id is the path at
-- the address of the central orchestrator, a POST to the path is handled by
-- DeploymentStatusHandler with the id, and OPTIONS is answered 204 by the middleware, both with
-- its headers.
pub forwarded_routed :
    (match : Matching) (env : Environment) (id : String)
    → match "/api/v1/deployments/:id/status" (status_path id) ≡ some (("id", id) ∷ [])
    → env "CO_URL" ≡ ""
    → (forward_url (local_settings env).co_url id
        ≡ concat ("http://localhost:8080" ∷ "/api/v1/deployments/" ∷ id ∷ "/status" ∷ []))
      × (serve_request match "POST" (status_path id) ≡ record {
        headers = cors_headers;
        reached = handled deployment_status (("id", id) ∷ []);
      })
      × (serve_request match "OPTIONS" (status_path id)
          ≡ record { headers = cors_headers; reached = aborted 204 })
unfolding forward_url concat local_settings setting serve_request find_route routes api
    cors_middleware
forwarded_routed match env id h unset =
    (rw (setting, unset) (parts id), rw (find_route, h) refl, refl)
