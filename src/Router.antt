-- ===== src/Router.antt =====
-- internal/api/router.go and internal/api/middleware/cors.go: which handler answers a request. How
-- gin matches a path with the pattern of a route is a parameter: the values of the pattern's names.
pub mod Forwarded
use margo_hello_world.Common.{
  ℕ, String, List, [], ◌∷◌, Option, none, some, ◌==◌, words, if◌then◌else◌, ◌&&◌,
}
use margo_hello_world.Common.Texts.{concat}
use margo_hello_world.Common.Dict.{Dict}

-- The functions that the routes are given.
pub data Handler : Type 0 where
  deployment_status healthz list_apps create_app get_app create_deployment get_deployment_status
        handle_stream_deployment :
      Handler

pub record Route : Type 0 where
  pub method : String
  pub pattern : String
  pub handler : Handler

-- A route of the group "/api/v1".
unfoldable pub api : String → String → Handler → Route
api method path handler = record {
  method = method;
  pattern = concat ("/api/v1" ∷ path ∷ []);
  handler = handler;
}

-- NewRouter
unfoldable pub routes : List Route
unfolding api
routes =
    api "POST" "/deployments/:id/status" deployment_status
    ∷ api "GET" "/healthz" healthz
    ∷ api "GET" "/apps" list_apps
    ∷ api "POST" "/apps" create_app
    ∷ api "GET" "/apps/:id" get_app
    ∷ api "POST" "/deployments" create_deployment
    ∷ api "GET" "/deployments/:id/status" get_deployment_status
    ∷ api "GET" "/deployments/:id/stream" handle_stream_deployment
    ∷ []

-- What a request runs into.
pub data Reached : Type 0 where
  handled : Handler → Dict String → Reached
  not_found : Reached
  aborted : ℕ → Reached

abbrev pub Matching : Type 0
Matching = String → String → Option (Dict String)

unfoldable pub find_route : Matching → String → String → List Route → Reached
find_route match method path [] = not_found
find_route match method path (r ∷ rs) =
    let later = find_route match method path rs in
    if r.method == method
    then elim (match r.pattern path) [ some names ↦ handled r.handler names | none ↦ later ]
    else later

-- A response: its headers, and what made the rest of it.
pub record Response : Type 0 where
  pub headers : Dict String
  pub reached : Reached

unfoldable pub cors_headers : Dict String
cors_headers =
    ("Access-Control-Allow-Origin", "*")
    ∷ ("Access-Control-Allow-Methods", "GET, POST, PUT, DELETE, OPTIONS")
    ∷ ("Access-Control-Allow-Headers", "Content-Type, Authorization")
    ∷ []

-- CORSMiddleware; c.Next is `next`.
unfoldable pub cors_middleware : String → Reached → Response
cors_middleware method next = record {
  headers = cors_headers;
  reached = if method == "OPTIONS" then aborted 204 else next;
}

-- A request to the router; the middleware runs for a path without a route too.
unfoldable pub serve_request : Matching → String → String → Response
serve_request match method path = cors_middleware method (find_route match method path routes)
