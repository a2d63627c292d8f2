-- ===== src/Examples/Recording.antt =====
-- A local orchestrator whose tables hold a deployment's id and a name for each component.
use margo_hello_world.Common.{
  ℕ, String, List, [], ◌∷◌, none, some, ◌==◌, words, if◌then◌else◌, ◌≡◌, ◌≢◌, refl, inr, ◌⊎◌, arith,
  length, keep, ◌&&◌,
}
use margo_hello_world.Model.{DeploymentStatus, no_error}
use margo_hello_world.Records.{Tables, Write, saves, updates, writes, update_deployment_record}
use margo_hello_world.Records.Components.{HasNoComponents, components_never_recorded}

abbrev count : String → String → List (String × String) → ℕ
count id name rows = length (keep (λ r. r.0 == id && r.1 == name) rows)

pub same_count : (n k : ℕ) → ◌≡◌ {A = String ⊎ ℕ} (inr n) (inr k) → k ≡ n
same_count n k h = ground (arith, h)

abbrev pub tables : Tables
tables = record {
  Rows = List (String × String);
  parse_uuid = λ text. inr text;
  name_error = λ name. if name == "" then some "value is less than the required length" else none;
  fresh = λ rows. record {
    clock = λ column. record { held_type = "time.Time"; content = "12:00" };
    new_id = "u1";
  };
  matching = count;
  create_status = λ id state rows. (rows, none);
  update_status = λ id state rows. (rows, none);
  update_components = λ id c rows. (rows, inr (count id c.name rows));
  insert_component = λ edge c rows. ((elim edge [ none ↦ "" | some id ↦ id ], c.name) ∷ rows, none);
  matching-create_status = λ id state rows d n. refl;
  matching-update_status = λ id state rows d n. refl;
  matching-update_components = λ id c rows d n. refl;
  updated_count = λ id c rows k h. same_count (count id c.name rows) k h;
}

abbrev installed : DeploymentStatus
installed = record {
  api_version = "";
  kind = "";
  deployment_id = "d1";
  status = record { state = "installed"; error = no_error };
  components = record { name = "component-0"; state = "installed"; error = no_error } ∷ [];
}

abbrev written : List (Write tables)
written = saves installed ∷ updates installed ∷ []

components_never_recorded_example :
    HasNoComponents tables (writes tables written [])
    × ((update_deployment_record tables installed (writes tables written [])).1 ≢ none)
components_never_recorded_example =
    components_never_recorded tables written [] installed (λ d n. refl) (λ e. ground (arith, e))
