-- ===== src/Requests.antt =====
-- CreateDeployment of internal/api/handlers/deployment.go, and what it builds. The queries of the
-- registry are a parameter, as are yaml.Marshal and the ids of the uuid library, here the n-th one
-- that is asked for. Log output and the durations of requests are left out.
pub mod Started
pub mod Refused
pub mod Delivered
use margo_hello_world.Common.{
  ℕ, suc, String, List, [], ◌∷◌, Bool, true, false, Option, none, some, ◌==◌, words, if◌then◌else◌,
  ◌⊎◌, inl, inr,
}
use margo_hello_world.Common.Texts.{concat}
use margo_hello_world.Model.{
  ApplicationDeployment, Component, ComponentProperties, DeploymentProfile, DeploymentStatus,
  Parameter, no_error, state_pending, state_installing,
}
use margo_hello_world.Central.{Calls, create_deployment}
use margo_hello_world.Status.{Database, Api, bump, save_deployment_status}

pub record HostMapping : Type 0 where
  pub site_id : String
  pub host_ids : List String

pub record App : Type 0 where
  pub app_id : String
  pub app_name : String
  pub sites : List HostMapping
  pub deploy_type : String

-- The rows that are read: ent.ApplicationDesc, ent.DeploymentProfile, ent.Component
pub record AppDesc : Type 0 where
  pub id : String
  pub name : String

pub record Profile : Type 0 where
  pub id : String
  pub profile_type : String

pub record ComponentRow : Type 0 where
  pub name : String
  pub properties : ComponentProperties

-- The queries, with an error or what was found; Only fails unless there is exactly one row.
pub record Registry : Type 0 where
  pub apps_by_id : String → String ⊎ List AppDesc
  pub apps_by_name : String → String ⊎ List AppDesc
  pub only_profile : String → String → Option Profile
  pub all_components : String → Option (List ComponentRow)

-- buildDeployParameters
unfoldable pub build_deploy_parameters : String → List Parameter
build_deploy_parameters site =
    record {
      name = "SiteId";
      value = site;
      targets = record { pointer = concat ("/sites/" ∷ site ∷ []); components = [] } ∷ [];
    }
    ∷ []

-- buildDeploymentComponents
unfoldable pub build_deployment_components : List ComponentRow → List Component
build_deployment_components [] = []
build_deployment_components (c ∷ cs) =
    record {
      name = c.name;
      properties = record {
        repository = c.properties.repository;
        revision = c.properties.revision;
        wait = c.properties.wait;
        timeout = c.properties.timeout;
        package_location = c.properties.package_location;
        key_location = c.properties.key_location;
      };
    }
    ∷ build_deployment_components cs

-- buildDeploymentProfile
unfoldable pub build_deployment_profile : Profile → List ComponentRow → DeploymentProfile
build_deployment_profile profile components = record {
  profile_type = profile.profile_type;
  components = build_deployment_components components;
}

-- buildApplicationDeployment, with the id that it generates
unfoldable pub build_application_deployment :
    AppDesc → Profile → List ComponentRow → String → String → ApplicationDeployment
build_application_deployment desc profile components site id = record {
  api_version = "margo.edge/v1";
  kind = "Deployment";
  metadata = record {
    name = concat (desc.name ∷ "-deployment" ∷ []);
    namespace = "";
    labels = ("app", desc.name) ∷ [];
    annotations = record { application_id = desc.id; id = id };
  };
  spec = record {
    deployment_profile = build_deployment_profile profile components;
    parameters = build_deploy_parameters site;
  };
}

-- The status that is saved of a new deployment.
unfoldable pub initial_status : String → DeploymentStatus
initial_status id = record {
  api_version = "";
  kind = "";
  deployment_id = id;
  status = record { state = state_installing; error = no_error };
  components =
      record { name = "digitron-orchestrator"; state = state_installing; error = no_error }
      ∷ record { name = "database-services"; state = state_pending; error = no_error }
      ∷ [];
}

pub data Response : Type 0 where
  failed : ℕ → String → Response
  started : List String → Response

-- What the query answers: an error, or exactly one row.
unfoldable pub one_app : String ⊎ List AppDesc → Response ⊎ AppDesc
one_app (inl e) = inl (failed 500 e)
one_app (inr []) = inl (failed 404 "no matching app found in registry")
one_app (inr (desc ∷ [])) = inr desc
one_app (inr (_ ∷ _ ∷ _)) = inl (failed 409 "multiple apps matched — ambiguous identifier")

-- The query that the request asks for, by id before name.
unfoldable pub find_app : Registry → App → Response ⊎ AppDesc
find_app g app =
    if app.app_id == ""
    then if app.app_name == ""
      then inl (failed 400 "app_id or app name must be provided")
      else one_app (g.apps_by_name app.app_name)
    else one_app (g.apps_by_id app.app_id)

-- The profile and the components of the app.
unfoldable pub read_profile :
    Registry → String → Response ⊎ AppDesc → Response ⊎ (AppDesc × (Profile × List ComponentRow))
read_profile g deploy_type (inl r) = inl r
read_profile g deploy_type (inr desc) = elim (g.only_profile desc.id deploy_type) [
  | none ↦ inl (failed 404 "deployment profile not found")
  | some profile ↦ elim (g.all_components profile.id) [
    | none ↦ inl (failed 404 "components  not found")
    | some components ↦ inr (desc, (profile, components))
  ]
]

-- The reading part of the handler: a response that ends it, or what the loop works with.
unfoldable pub read_registry : Registry → App → Response ⊎ (AppDesc × (Profile × List ComponentRow))
read_registry g app = read_profile g app.deploy_type (find_app g app)

module _ (D : Database) {W : Type 0} (calls : Calls W) (working_path : Option String)
    (new_id : ℕ → String) (marshal : ApplicationDeployment → Option String) where
  pub record Center : Type 0 where
    pub world : W
    pub api : Api D
    pub next_id : ℕ

  -- The pass of the loop once the desired state is marshalled; errors of CreateDeployment and of
  -- SaveDeploymentStatus are ignored. `none` is a panic.
  unfoldable pub start_site : String → String → String → Center → Option Center
  start_site site id yaml c = elim (create_deployment calls working_path site id yaml c.world) [
    | none ↦ none
    | some (w, _) ↦ some (record c {
      world = w;
      api = record (c.api) {
        rows = (save_deployment_status D (initial_status id) c.api.rows).0;
        incremented = bump id c.api.incremented;
      };
    })
  ]

  -- The loop over app.Sites, with the ids of the deployments.
  unfoldable pub start_sites :
      AppDesc
      → Profile
      → List ComponentRow
      → List HostMapping
      → Center
      → Option (Center × List String)
  start_sites desc profile components [] c = some (c, [])
  start_sites desc profile components (site ∷ sites) c =
      let id = new_id c.next_id in
      let c' = record c { next_id = suc c.next_id } in
      let dep = build_application_deployment desc profile components site.site_id id in
      let skipped = start_sites desc profile components sites c' in
      elim (marshal dep) [
        | none ↦ skipped
        | some yaml ↦ elim (start_site site.site_id id yaml c') [
          | none ↦ none
          | some c'' ↦ elim (start_sites desc profile components sites c'') [
            | none ↦ none
            | some r ↦ some (r.0, id ∷ r.1)
          ]
        ]
      ]

  -- CreateDeployment: the request's body, or the error of binding it.
  unfoldable pub create_deployment_handler :
      Registry → String ⊎ App → Center → Option (Center × Response)
  create_deployment_handler g (inl e) c = some (c, failed 400 e)
  create_deployment_handler g (inr app) c = elim (read_registry g app) [
    | inl r ↦ some (c, r)
    | inr (desc, (profile, components)) ↦ elim (start_sites desc profile components app.sites c) [
      | none ↦ none
      | some r ↦ some (r.0, started r.1)
    ]
  ]
