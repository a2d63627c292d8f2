-- ===== src/Examples/Center.antt =====
-- A central orchestrator whose database is a list of what was stored, and whose disk is full.
use margo_hello_world.Common.{
  ℕ, suc, ◌+◌, String, List, [], ◌∷◌, Option, none, some, ◌==◌, words, numbers, if◌then◌else◌, ◌≡◌,
  refl, inl, inr,
}
use margo_hello_world.Common.Dict.{lookup}
use margo_hello_world.Model.{ApplicationDeployment, DeploymentStatus, no_error}
use margo_hello_world.Central.{Calls}
use margo_hello_world.Streams.{new_stream_manager, broadcast, offer_all, channels}
use margo_hello_world.Status.{
  Database, Api, save_deployment_status, update_deployment_status, handle_statuses,
  deployment_status_handler, in_transaction, after_statement, update_all_components, commit,
}
use margo_hello_world.Status.Storing.{settled, after_all, save_statements, save_all_or_nothing}
use margo_hello_world.Status.Active.{terminal, gauge_after_reports}
use margo_hello_world.Requests.{
  AppDesc, Profile, ComponentRow, App, Registry, started, Center, create_deployment_handler,
  read_registry, find_app, one_app, read_profile,
}
use margo_hello_world.Requests.Started.{ids, occurrences, starts_every_site}
use margo_hello_world.Requests.Refused.{Answered, refused_unchanged}

-- The names of the components that are stored; one without a name is refused.
abbrev pub database : Database
database = record {
  Rows = List String;
  parse_uuid = λ text. if text == "" then inl "invalid UUID length: 0" else inr text;
  begin = λ rows. none;
  create_status = λ id state rows. (id ∷ rows, none);
  create_component =
      λ id c rows. (c.name ∷ rows, if c.name == "" then some "name must not be empty" else none);
  update_status = λ id state rows. (rows, none);
  update_components = λ ps c rows. (rows, if c.name == "" then some "connection lost" else none);
  commit_error = λ rows. none;
  rollback_error = none;
}

abbrev status_of : String → String → DeploymentStatus
status_of component state = record {
  api_version = "";
  kind = "";
  deployment_id = "d1";
  status = record { state = state; error = no_error };
  components = record { name = component; state = state; error = no_error } ∷ [];
}

save_all_or_nothing_example :
    save_deployment_status database (status_of "web" "pending") []
    ≡ settled database [] (after_all (save_statements database "d1" (status_of "web" "pending")) [])
save_all_or_nothing_example =
    save_all_or_nothing database "d1" (status_of "web" "pending") [] refl refl

-- A component without a name.
abbrev api : Api database
api = record {
  rows = [];
  incremented = λ id. 1;
  decremented = λ id. 0;
  manager = new_stream_manager;
}

-- Two components that are installed.
abbrev reports : List DeploymentStatus
reports = status_of "web" "pending" ∷ status_of "web" "installed" ∷ status_of "db" "installed" ∷ []

abbrev after_reports : Api database
after_reports = record {
  rows = [];
  incremented = λ id. 1;
  decremented = λ id.
      (if "d1" == id
        then suc (if "d1" == id then suc 0 else 0)
        else (if "d1" == id then suc 0 else 0));
  manager = new_stream_manager;
}

reports_handled : handle_statuses database "now" reports api ≡ some after_reports
unfolding handle_statuses deployment_status_handler update_deployment_status in_transaction
    after_statement update_all_components commit broadcast offer_all channels new_stream_manager
    lookup
reports_handled = refl

gauge_after_reports_example :
    (after_reports.decremented "d1" ≡ terminal "d1" reports + api.decremented "d1")
    × (after_reports.incremented "d1" ≡ api.incremented "d1")
gauge_after_reports_example =
    gauge_after_reports database "now" reports api after_reports "d1" reports_handled

terminal_test : terminal "d1" reports ≡ 2
terminal_test = refl

abbrev calls : Calls ℕ
calls = record {
  make_dir_of = λ path w. (suc w, none);
  write_file = λ path content w. (suc w, some "no space left on device");
  commit_and_push = λ path message w. (w, none);
}

abbrev new_id : ℕ → String
new_id n = if n == 0 then "d0" else "d1"

abbrev marshal : ApplicationDeployment → Option String
marshal dep = some dep.metadata.name

abbrev registry : Registry
registry = record {
  apps_by_id = λ id. inr (if id == "a1" then record { id = "a1"; name = "shop" } ∷ [] else []);
  apps_by_name = λ name. inr [];
  only_profile = λ id type. some (record { id = "p1"; profile_type = type });
  all_components = λ id. some [];
}

abbrev app : String → App
app id = record {
  app_id = id;
  app_name = "";
  sites = record { site_id = "s1"; host_ids = [] } ∷ record { site_id = "s2"; host_ids = [] } ∷ [];
  deploy_type = "compose";
}

abbrev center : Center database calls (some "repo") new_id marshal
center = record { world = 0; api = api; next_id = 0 }

abbrev found : AppDesc × (Profile × List ComponentRow)
found = (record { id = "a1"; name = "shop" }, (record { id = "p1"; profile_type = "compose" }, []))

found_a1 : read_registry registry (app "a1") ≡ inr found
unfolding read_registry read_profile find_app one_app
found_a1 = refl

-- The disk is full, and both sites are answered as started.
starts_every_site_example :
    (d : Center database calls (some "repo") new_id marshal) × ((create_deployment_handler database
          calls
          (some "repo")
          new_id
          marshal
          registry
          (inr (app "a1"))
          center
        ≡ some (d, started (ids new_id 0 2)))
      × ((x : String) → d.api.incremented x ≡ occurrences x (ids new_id 0 2) + 1))
starts_every_site_example =
    starts_every_site database calls "repo" new_id marshal (λ dep. (dep.metadata.name, refl))
      registry (app "a1") found center found_a1

refused_unchanged_example : Answered database calls (some "repo") new_id marshal center (
    create_deployment_handler database calls
      (some "repo")
      new_id
      marshal
      registry
      (inr (app "a2"))
      center)
refused_unchanged_example =
    refused_unchanged database calls (some "repo") new_id marshal registry (inr (app "a2")) center
