-- ===== src/Ent.antt =====
-- ent/schema: what the database client knows of its tables, and the two tables of deployment states;
-- the other tables are in Ent/Tables. The client is generated from these files: Ent/Mutation,
-- Ent/Create and Ent/Update have its code for the two, Ent/Upsert and Ent/Query more of it.
pub mod Tables
pub mod Mutation
pub mod Create
pub mod Update
pub mod Fields
pub mod Query
pub mod Upsert
pub mod Client
use margo_hello_world.Common.{
  String, List, [], ◌∷◌, Bool, true, false, Option, none, some, ◌==◌, words, any,
}

-- Default of a field: a constant, or a function that yields the time.
pub data Default : Type 0 where
  no_default : Default
  constant : String → Default
  time_now : Default

-- field.String and the like; `go_type` is the type of the generated setter.
pub record Field : Type 0 where
  pub column : String
  pub go_type : String
  pub is_optional : Bool
  pub fallback : Default
  pub on_update : Default
  pub not_empty : Bool
  pub is_unique : Bool

-- edge.To and edge.From; an edge with Field("…") is kept in that field.
pub record Edge : Type 0 where
  pub name : String
  pub is_to_one : Bool
  pub is_required : Bool
  pub in_field : Option String

pub record EntSchema : Type 0 where
  pub type_name : String
  pub table : String
  pub id_type : String
  pub id_generated : Bool
  pub fields : List Field
  pub edges : List Edge

abbrev pub string_type : String
string_type = "string"

abbrev pub time_type : String
time_type = "time.Time"

abbrev pub uuid_type : String
uuid_type = "uuid.UUID"

unfoldable pub required : String → String → Field
required column go_type = record {
  column = column;
  go_type = go_type;
  is_optional = false;
  fallback = no_default;
  on_update = no_default;
  not_empty = false;
  is_unique = false;
}

unfoldable pub optional : String → String → Field
unfolding required
optional column go_type = record (required column go_type) { is_optional = true }

unfoldable pub edge_to : String → Edge
edge_to name = record { name = name; is_to_one = false; is_required = false; in_field = none }

-- edge.From(…).Ref(…).Unique().Field(column)
unfoldable pub edge_from : String → String → Edge
edge_from name column = record {
  name = name;
  is_to_one = true;
  is_required = false;
  in_field = some column;
}

-- The times that both tables of states have: Default(time.Now), and UpdateDefault of the second.
unfoldable pub state_times : List Field
unfolding required
state_times =
    record (required "created_at" time_type) { fallback = time_now }
    ∷ record (required "updated_at" time_type) { fallback = time_now; on_update = time_now }
    ∷ []

-- The state and the error that both have.
unfoldable pub state_fields : List Field
unfolding required optional state_times
state_fields =
    record (required "state" string_type) { fallback = constant "pending" }
    ∷ optional "error_code" string_type
    ∷ optional "error_message" string_type
    ∷ state_times

unfoldable pub component_status_schema : EntSchema
unfolding required state_fields
component_status_schema = record {
  type_name = "DeploymentComponentStatus";
  table = "deployment_component_status";
  id_type = uuid_type;
  id_generated = true;
  fields = record (required "name" string_type) { not_empty = true } ∷ state_fields;
  edges =
      record { name = "deployment"; is_to_one = true; is_required = true; in_field = none } ∷ [];
}

unfoldable pub deployment_status_schema : EntSchema
unfolding state_fields edge_to
deployment_status_schema = record {
  type_name = "DeploymentStatus";
  table = "deployment_status";
  id_type = uuid_type;
  id_generated = true;
  fields = state_fields;
  edges = edge_to "components" ∷ [];
}
