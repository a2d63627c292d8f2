-- ===== src/Apps.antt =====
-- internal/api/handlers/apps.go and persist.go: the registry of applications. The tables behind the
-- generated client are a parameter, as are the binding of a request and yaml.Unmarshal; the fetcher
-- is that of Fetcher. `none` is a panic, or a call of the fetcher that has not returned.
pub mod Tables
pub mod Saving
pub mod Persisted
pub mod Created
pub mod Registered
pub mod Retried
use margo_hello_world.Common.{
  ℕ, String, List, [], ◌∷◌, Option, none, some, ◌==◌, words, if◌then◌else◌, ◌⊎◌, inl, inr,
}
use margo_hello_world.Common.Texts.{concat}
use margo_hello_world.Model.{ComponentProperties}
use margo_hello_world.Description.{
  ApplicationDescription, ApplicationMetadata, Metadata, DeploymentProfile, Component, Resources,
  Peripheral, Interface, Float64,
}
use margo_hello_world.Central.{and_then}
use margo_hello_world.Fetcher.{GitFetcher, Client, fetch_app_resource}

-- What the builders of ent.ApplicationDesc, ent.DeploymentProfile and ent.Component are given.
pub record AppRow : Type 0 where
  pub id : String
  pub name : String
  pub version : String
  pub tags : List String
  pub tag_line : String
  pub vendor : String
  pub category : String
  pub description : String
  pub icon : String
  pub site : String

pub record ResourcesRow : Type 0 where
  pub cpu_cores : Float64
  pub memory : String
  pub storage : String
  pub cpu_architectures : List String
  pub peripherals : List (List (String × String))
  pub interfaces : List (List (String × String))

pub record ProfileRow : Type 0 where
  pub id : String
  pub profile_type : String
  pub app_id : String
  pub description : Option String
  pub resources : Option ResourcesRow

pub record ComponentRow : Type 0 where
  pub name : String
  pub deployment_profile_id : String
  pub properties : ComponentProperties

pub record Store (D : Type 0) : Type 0 where
  -- Save: the tables that it leaves, and its error
  pub save_app : AppRow → D → D × Option String
  pub save_profile : ProfileRow → D → D × Option String
  pub save_component : ComponentRow → D → D × Option String
  -- the queries: an error, or the rows
  pub all_apps : D → String ⊎ List AppRow
  pub get_app : String → D → Option AppRow
  pub name_contains_fold : String → D → String ⊎ List AppRow

unfoldable pub peripherals_to_map : List Peripheral → List (List (String × String))
peripherals_to_map [] = []
peripherals_to_map (p ∷ ps) =
    (("manufacturer", p.manufacturer) ∷ ("type", p.peripheral_type) ∷ ("model", p.model) ∷ [])
    ∷ peripherals_to_map ps

unfoldable pub interfaces_to_map : List Interface → List (List (String × String))
interfaces_to_map [] = []
interfaces_to_map (i ∷ is) = (("type", i.interface_type) ∷ []) ∷ interfaces_to_map is

-- The vendor and the category are the site.
unfoldable pub app_row : Metadata → ApplicationMetadata → AppRow
app_row m a = record {
  id = m.id;
  name = m.name;
  version = m.version;
  tags = a.tags;
  tag_line = a.tagline;
  vendor = a.site;
  category = a.site;
  description = a.description_file;
  icon = a.icon;
  site = a.site;
}

unfoldable pub resources_row : Option Resources → Option ResourcesRow
resources_row none = none
resources_row (some r) = some (record {
  cpu_cores = r.cpu.cores;
  memory = r.memory;
  storage = r.storage;
  cpu_architectures = r.cpu.architectures;
  peripherals = peripherals_to_map r.peripherals;
  interfaces = interfaces_to_map r.interfaces;
})

unfoldable pub profile_row : String → DeploymentProfile → ProfileRow
profile_row app_id p = record {
  id = p.id;
  profile_type = p.profile_type;
  app_id = app_id;
  description = if p.description == "" then none else some p.description;
  resources = resources_row p.required_resources;
}

unfoldable pub component_row : String → Component → ComponentRow
component_row profile_id c = record {
  name = c.name;
  deployment_profile_id = profile_id;
  properties = record {
    repository = c.properties.repository;
    revision = c.properties.revision;
    wait = c.properties.wait;
    timeout = c.properties.timeout;
    package_location = c.properties.package_location;
    key_location = c.properties.key_location;
  };
}

-- fmt.Errorf(text + ": %w", err) of a Save
unfoldable pub labelled : {D : Type 0} → String → D × Option String → D × Option String
labelled text (d, none) = (d, none)
labelled text (d, some e) = (d, some (concat (text ∷ ": " ∷ e ∷ [])))

module _ {D : Type 0} (S : Store D) where
  unfoldable pub persist_components : String → List Component → D → D × Option String
  persist_components id [] d = (d, none)
  persist_components id (c ∷ cs) d =
      and_then (labelled "failed to create component" (S.save_component (component_row id c) d))
        (persist_components id cs)

  -- The loop over the profiles; the components of a profile follow its own row.
  unfoldable pub persist_profiles : String → List DeploymentProfile → D → D × Option String
  persist_profiles app_id [] d = (d, none)
  persist_profiles app_id (p ∷ ps) d =
      and_then
        (labelled "failed to create deployment profile" (S.save_profile (profile_row app_id p) d))
        (λ d. and_then (persist_components p.id p.components d) (persist_profiles app_id ps))

  -- Persist, which is no transaction; a catalog without an application is a nil pointer that is read.
  unfoldable pub persist : ApplicationDescription → D → Option (D × Option String)
  persist ad d = elim ad.metadata.catalog.application [
    | none ↦ none
    | some a ↦ some (
        and_then (S.save_app (app_row ad.metadata a) d)
          (persist_profiles ad.metadata.id ad.deployment_profiles))
  ]

pub record CreateAppRequest : Type 0 where
  pub app_name : String
  pub repo_url : String

pub data Response : Type 0 where
  failed : ℕ → String → Response
  created : ApplicationDescription → Response
  found : AppRow → Response
  listed : List AppRow → Response

-- The database, the disk with the local copy, and the fetcher that the requests share.
pub record Shop (D Disk : Type 0) : Type 0 where
  pub db : D
  pub disk : Disk
  pub fetcher : GitFetcher

module _ {D Disk : Type 0} (S : Store D) where
  -- ListApps
  unfoldable pub list_apps : Shop D Disk → Response
  list_apps s = elim (S.all_apps s.db) [ inl e ↦ failed 500 e | inr apps ↦ listed apps ]

  -- GetApp
  unfoldable pub get_app : String → Shop D Disk → Response
  get_app id s = elim (S.get_app id s.db) [
    | none ↦ failed 404 "app not found"
    | some app ↦ found app
  ]

  module _ (C : Client Disk) (unmarshal : String → String ⊎ ApplicationDescription) where
    -- The end of CreateApp: what Persist comes to.
    unfoldable pub persisted :
        ApplicationDescription
        → Shop D Disk
        → Option (D × Option String)
        → Option (Shop D Disk × Response)
    persisted ad s none = none
    persisted ad s (some (d, some e)) = some (record s { db = d }, failed 400 e)
    persisted ad s (some (d, none)) = some (record s { db = d }, created ad)

    -- CreateApp, once margo.yaml is fetched.
    unfoldable pub fetched :
        Shop D Disk → Option (Disk × (String ⊎ String)) → Option (Shop D Disk × Response)
    unfolding persisted
    fetched s none = none
    fetched s (some (disk, inl e)) = some (record s { disk = disk }, failed 500 e)
    fetched s (some (disk, inr content)) =
        let t = record s { disk = disk } in
        elim (unmarshal content) [
          | inl e ↦ some (t, failed 400 e)
          | inr ad ↦ persisted ad t (persist S ad t.db)
        ]

    -- CreateApp, once no application matched; the fetcher keeps the address of the request.
    unfoldable pub add_app :
        ℕ → String → CreateAppRequest → Shop D Disk → Option (Shop D Disk × Response)
    unfolding fetched
    add_app fuel token req s =
        let g = record (s.fetcher) { repo_url = req.repo_url } in
        fetched (record s { fetcher = g })
          (fetch_app_resource C fuel g token req.app_name "margo.yaml" s.disk)

    -- CreateApp: the request's body, or the error of binding it.
    unfoldable pub create_app :
        ℕ → String → String ⊎ CreateAppRequest → Shop D Disk → Option (Shop D Disk × Response)
    create_app fuel token (inl e) s = some (s, failed 400 e)
    create_app fuel token (inr req) s = elim (S.name_contains_fold req.app_name s.db) [
      | inl e ↦ some (s, failed 500 e)
      | inr [] ↦ add_app fuel token req s
      | inr (app ∷ apps) ↦ some (s, failed 500 "duplicate apps found")
    ]
