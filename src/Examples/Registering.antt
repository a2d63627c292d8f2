-- ===== src/Examples/Registering.antt =====
-- A registry that holds its tables, in which a component without a name cannot be saved, and an
-- application with one profile and one component.
use mathlib.Core.List.{Perm}
use mathlib.Core.List.Perm
use margo_hello_world.Common.{
  String, List, [], ◌∷◌, ◌++◌, true, false, Option, none, some, ◌==◌, words, ◌≡◌, refl, ◌⊎◌, inl,
  inr, keep, any, map, if◌then◌else◌, Bool-cases,
}
use margo_hello_world.Common.Texts.{has_prefix, concat}
use margo_hello_world.Remote.{updated}
use margo_hello_world.Description.{
  ApplicationDescription, ApplicationMetadata, Component, DeploymentProfile,
}
use margo_hello_world.Requests
use margo_hello_world.Requests.{Registry, App, Profile, read_registry}
use margo_hello_world.Fetcher.{
  Client, opened, fetch_app_resource, clone_or_pull, round, opened_round, pulled_round, resource_of,
  read_target,
}
use margo_hello_world.Apps.{
  AppRow, ProfileRow, ComponentRow, Store, Shop, created, failed, CreateAppRequest, create_app,
  persist, app_row, labelled, persist_components, persist_profiles, fetched, add_app, persisted,
  profile_row, component_row,
}
use margo_hello_world.Central.{and_then}
use margo_hello_world.Apps.Tables.{
  Tables, IsDatabase, added, desc_of, profile_of, row_of, is_profile,
}
use margo_hello_world.Apps.Registered.{created_found}
use margo_hello_world.Apps.Persisted.{listed_as}
use margo_hello_world.Apps.Retried.{retry_refused}

abbrev save_app : AppRow → Tables → Tables × Option String
save_app r t = (record t { apps = t.apps ++ r ∷ [] }, none)

abbrev save_profile : ProfileRow → Tables → Tables × Option String
save_profile r t = (added t (r ∷ []) [], none)

abbrev save_component : ComponentRow → Tables → Tables × Option String
save_component r t = if r.name == "" then (t, some "name is empty") else (added t [] (r ∷ []), none)

abbrev matching : String → Tables → List AppRow
matching text t = keep (λ r. has_prefix text r.name) t.apps

abbrev store : Store Tables
store = record {
  save_app = save_app;
  save_profile = save_profile;
  save_component = save_component;
  all_apps = λ t. inr t.apps;
  get_app = λ id t. none;
  name_contains_fold = λ text t. inr (matching text t);
}

abbrev only : List ProfileRow → Option Profile
only [] = none
only (r ∷ []) = some (profile_of r)
only (r ∷ s ∷ rs) = none

abbrev registry : Tables → Registry
registry t = record {
  apps_by_id = λ id. inr (map desc_of (keep (λ a. a.id == id) t.apps));
  apps_by_name = λ name. inr (map desc_of (keep (λ a. a.name == name) t.apps));
  only_profile = λ app_id deploy_type. only (keep (is_profile app_id deploy_type) t.profiles);
  all_components = λ id. some (map row_of (keep (λ c. c.deployment_profile_id == id) t.components));
}

any_found :
    (text : String) (rs : List AppRow)
    → any (λ r. has_prefix text r.name) rs ≡ true
    → (r : AppRow) × (others : List AppRow) × (keep (λ r. has_prefix text r.name) rs ≡ r ∷ others)
any_found text [] h = cc
any_found text (x ∷ xs) h = elim (Bool-cases (has_prefix text x.name)) [
  | inl e ↦ (x, keep (λ r. has_prefix text r.name) xs, rw e refl)
  | inr e ↦ let k = rw e at h in let (r, others, p) = any_found text xs k in (r, others, rw e p)
]

component_saved :
    (r : ComponentRow) (t : Tables)
    → (save_component r t).1 ≡ none
    → (save_component r t).0 ≡ added t [] (r ∷ [])
component_saved r t h = elim (Bool-cases (r.name == "")) [
  | inl e ↦ let k = rw e at h in cc
  | inr e ↦ rw e refl
]

component_failed :
    (r : ComponentRow) (t : Tables) (e : String)
    → (save_component r t).1 ≡ some e
    → (save_component r t).0 ≡ t
component_failed r t e h = elim (Bool-cases (r.name == "")) [
  | inl p ↦ rw p refl
  | inr p ↦ let k = rw p at h in cc
]

store-IsDatabase : IsDatabase store registry (λ t. t) has_prefix
store-IsDatabase = record {
  app_saved = λ r d n. refl;
  profile_saved = λ r d n. refl;
  profile_failed = λ r d e n. cc;
  component_saved = component_saved;
  component_failed = component_failed;
  app_found = λ id d r e. rw e refl;
  profile_found = λ a t d r e. rw e refl;
  components_found = λ id d. (_, refl, Perm.refl _);
  name_found = λ text d h. let (r, others, e) = any_found text d.apps h in (r, others, rw e refl);
}

abbrev metadata_of_app : ApplicationMetadata
metadata_of_app = record {
  description_file = "readme.md";
  icon = "";
  license_file = "";
  release_notes = "";
  site = "example.org";
  tagline = "";
  tags = [];
}

abbrev profile : DeploymentProfile
profile = record {
  profile_type = "compose";
  id = "p1";
  description = "";
  components =
      record {
        name = "web";
        properties = record {
          repository = "example.org/web";
          revision = "1.0";
          wait = true;
          timeout = "";
          package_location = "";
          key_location = "";
        };
      }
      ∷ [];
  required_resources = none;
}

abbrev description : DeploymentProfile → ApplicationDescription
description p = record {
  api_version = "";
  kind = "ApplicationDescription";
  metadata = record {
    id = "a1";
    name = "digitron";
    description = "";
    version = "1";
    catalog = record { application = some metadata_of_app; author = []; organization = [] };
  };
  deployment_profiles = p ∷ [];
  parameters = [];
  configuration = none;
}

-- A disk that always holds the file.
abbrev client : Client String
client = record {
  is_missing = λ path d. false;
  remove_all = λ path d. d;
  plain_clone = λ path o d. (d, none);
  plain_open = λ path d. opened;
  worktree_error = λ path d. none;
  pull = λ path o d. (d, updated);
  read_file = λ path d. inr d;
}

abbrev shop : Tables → String → Shop Tables String
shop t url = record {
  db = t;
  disk = "margo.yaml";
  fetcher = record {
    repo_url = url;
    branch = "main";
    local_dir = "./cache/app-registry";
    token = "";
  };
}

abbrev no_rows : Tables
no_rows = record { apps = []; profiles = []; components = [] }

abbrev request : CreateAppRequest
request = record { app_name = "digi"; repo_url = "https://example.org/apps" }

abbrev unmarshal : DeploymentProfile → String → String ⊎ ApplicationDescription
unmarshal p text = inr (description p)

abbrev with_app : Tables
with_app = record no_rows { apps = app_row (description profile).metadata metadata_of_app ∷ [] }

abbrev all_saved : Tables
all_saved = record with_app {
  profiles = profile_row "a1" profile ∷ [];
  components = map (component_row "p1") profile.components;
}

abbrev deploy : App
deploy = record { app_id = "a1"; app_name = ""; sites = []; deploy_type = "compose" }

create_app_test :
    create_app store client (unmarshal profile) 1 "" (inr request) (shop no_rows "")
    ≡ some (shop all_saved "https://example.org/apps", created (description profile))
unfolding create_app add_app fetched persisted fetch_app_resource clone_or_pull round opened_round
    pulled_round resource_of read_target persist persist_profiles persist_components labelled
    and_then app_row profile_row component_row
create_app_test = refl

created_found_example :
    (rows : List Requests.ComponentRow) × (read_registry (registry all_saved) deploy
      ≡ inr (
        record { id = "a1"; name = "digitron" },
        (record { id = "p1"; profile_type = "compose" }, rows),
      ))
    × Perm rows (map listed_as profile.components)
created_found_example =
    created_found store registry (λ t. t) has_prefix store-IsDatabase client (unmarshal profile) 1
      "" request (shop no_rows "") (shop all_saved "https://example.org/apps") (description profile)
      metadata_of_app profile deploy create_app_test refl refl refl refl refl refl refl refl refl

-- The component has no name, and is not saved.
abbrev unnamed : DeploymentProfile
unnamed = record profile {
  components = map (λ (c : Component). record c { name = "" }) profile.components;
}

abbrev half_saved : Tables
half_saved = record with_app { profiles = profile_row "a1" unnamed ∷ [] }

unnamed_test :
    persist store (description unnamed) no_rows
    ≡ some (half_saved, some "failed to create component: name is empty")
unfolding persist persist_profiles persist_components labelled and_then app_row profile_row
    component_row concat
unnamed_test = refl

starts_with : has_prefix "digi" "digitron" ≡ true
unfolding has_prefix
starts_with = refl

retry_refused_example :
    create_app store client (unmarshal unnamed) 1 "" (inr request) (shop half_saved "")
    ≡ some (shop half_saved "", failed 500 "duplicate apps found")
retry_refused_example =
    retry_refused store registry (λ t. t) has_prefix store-IsDatabase client (unmarshal unnamed)
      (description unnamed) metadata_of_app no_rows
      (some "failed to create component: name is empty") 1 "" request (shop half_saved "") refl refl
      unnamed_test starts_with
