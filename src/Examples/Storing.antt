-- ===== src/Examples/Storing.antt =====
-- The generated client over a table of component rows: each has its deployment and its name.
use margo_hello_world.Common.{
  ℕ, suc, String, List, [], ◌∷◌, Bool, true, false, Option, none, some, ◌==◌, words, if◌then◌else◌,
  ◌&&◌, ◌⊎◌, inr, ◌≡◌, ◌≢◌, refl, ap, arith,
}
use margo_hello_world.Common.Dict.{lookup}
use margo_hello_world.Model.{DeploymentStatus, DeploymentComponent, no_error}
use margo_hello_world.Status.{save_deployment_status}
use margo_hello_world.Records.{Tables, writes, update_deployment_record, saves, updates}
use margo_hello_world.Records.Components.{HasNoComponents, components_never_recorded}
use margo_hello_world.Ent.{
  constant, no_default, Field, required, component_status_schema, state_fields,
}
use margo_hello_world.Ent.Mutation.{
  Value, Mutation, new_mutation, op_create, find_field, field_of, set_field, field_cleared,
}
use margo_hello_world.Ent.Create.{
  SqlError, CreateSpec, UpdateSpec, Driver, Fresh, Predicate, id_eq, name_eq, has_deployment_with,
  string_value,
}
use margo_hello_world.Ent.Fields.{set_field-field_of}
use margo_hello_world.Ent.Client.Sql.{IsSql, tables}
use margo_hello_world.Ent.Client.Stored.{Transactions, database, refused_name_rolls_back}

abbrev Rows : Type 0
Rows = List (String × String)

abbrev fits : List Predicate → String × String → Bool
fits [] r = true
fits (id_eq id ∷ ps) r = false
fits (name_eq n ∷ ps) r = r.1 == n && fits ps r
fits (has_deployment_with d ∷ ps) r = r.0 == d && fits ps r

abbrev count : List Predicate → Rows → ℕ
count ps [] = 0
count ps (r ∷ rs) = if fits ps r then suc (count ps rs) else count ps rs

abbrev name_of : Option Value → String
name_of none = ""
name_of (some v) = v.content

abbrev inserted : List String → String → Rows → Rows
inserted [] name rows = rows
inserted (d ∷ _) name rows = (d, name) ∷ rows

unfoldable create_row : CreateSpec → Rows → Rows × Option SqlError
create_row spec rows =
    if spec.table == "deployment_component_status"
    then (inserted spec.deployments (name_of (lookup "name" spec.columns)) rows, none)
    else (rows, none)

abbrev driver : Driver Rows
driver = record {
  create_node = create_row;
  update_nodes = λ spec rows. (rows, inr (count spec.predicates rows));
}

created_status :
    (spec : CreateSpec) (w : Rows) (d n : String)
    → spec.table ≡ "deployment_status"
    → count (has_deployment_with d ∷ name_eq n ∷ []) (create_row spec w).0
      ≡ count (has_deployment_with d ∷ name_eq n ∷ []) w
unfolding create_row
created_status spec w d n e = simp e refl

updated_count :
    (spec : UpdateSpec) (w : Rows) (d n : String) (k : ℕ)
    → spec.table ≡ "deployment_component_status"
    → spec.predicates ≡ has_deployment_with d ∷ name_eq n ∷ []
    → ◌≡◌ {A = SqlError ⊎ ℕ} (inr (count spec.predicates w)) (inr k)
    → k ≡ count (has_deployment_with d ∷ name_eq n ∷ []) w
updated_count spec w d n k t p h = ground (arith, h, ap (λ ps. count ps w) p)

driver-IsSql : IsSql driver
driver-IsSql = record {
  matching = λ d n w. count (has_deployment_with d ∷ name_eq n ∷ []) w;
  created_status = created_status;
  updated_same = λ spec w d n e c a. refl;
  updated_count = updated_count;
}

abbrev not_empty : String → Option String
not_empty s = if s == "" then some "value is less than the required length" else none

abbrev fresh : Rows → Fresh
fresh rows = record {
  clock = λ column. record { held_type = "time.Time"; content = "12:00" };
  new_id = "u1";
}

abbrev component_of : String → DeploymentComponent
component_of name = record { name = name; state = "installed"; error = no_error }

abbrev transactions : Transactions Rows
transactions = record {
  parse = λ s. inr s;
  begins = λ w. none;
  commits = λ w. none;
  rolls_back = none;
}

abbrev unnamed : DeploymentStatus
unnamed = record {
  api_version = "";
  kind = "";
  deployment_id = "d1";
  status = record { state = "installed"; error = no_error };
  components = component_of "web" ∷ component_of "" ∷ [];
}

refused_name_rolls_back_example :
    save_deployment_status (database driver not_empty fresh transactions) unnamed [] ≡ ([], none)
refused_name_rolls_back_example =
    refused_name_rolls_back driver not_empty fresh transactions unnamed "d1" [] refl refl refl

abbrev state_field : Field
state_field = record {
  column = "state";
  go_type = "string";
  is_optional = false;
  fallback = constant "pending";
  on_update = no_default;
  not_empty = false;
  is_unique = false;
}

state_found : find_field "state" component_status_schema.fields ≡ some state_field
unfolding find_field component_status_schema state_fields required
state_found = refl

set_field-field_of_example :
    ((◌≡◌ {A = String} "string" "string")
      × (m' : Mutation) × (set_field component_status_schema "state"
            (string_value "x")
            (new_mutation op_create)
          ≡ (m', none))
      × (field_of component_status_schema.fields "state" m' ≡ some (string_value "x"))
      × ((other : String)
          → other ≢ "state"
          → field_of component_status_schema.fields other m'
            ≡ field_of component_status_schema.fields other (new_mutation op_create))
      × ((other : String) → field_cleared other m' ≡ field_cleared other (new_mutation op_create)))
    ⊎ ((◌≢◌ {A = String} "string" "string")
        × (e : String) × (set_field component_status_schema "state"
              (string_value "x")
              (new_mutation op_create)
            ≡ (new_mutation op_create, some e)))
set_field-field_of_example =
    set_field-field_of component_status_schema "state" (string_value "x") (new_mutation op_create)
      state_field state_found

abbrev local_tables : Tables
local_tables = tables driver not_empty fresh driver-IsSql (λ s. inr s)

-- The statements of the local orchestrator over this client.
never_recorded_test :
    HasNoComponents local_tables (writes local_tables (saves unnamed ∷ updates unnamed ∷ []) [])
    × ((update_deployment_record local_tables unnamed
          (writes local_tables (saves unnamed ∷ updates unnamed ∷ []) [])).1
        ≢ none)
unfolding driver-IsSql
never_recorded_test =
    components_never_recorded local_tables (saves unnamed ∷ updates unnamed ∷ []) [] unnamed
      (λ d n. refl) (λ e. ground (arith, e))
