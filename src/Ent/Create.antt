-- ===== src/Ent/Create.antt =====
-- ent/deploymentcomponentstatus_create.go, with the schema as an argument: the defaults, the check
-- and the row of DeploymentComponentStatusCreate. No hook is registered. The library that runs the
-- statement is a parameter.
use margo_hello_world.Common.{
  ℕ, String, List, [], ◌∷◌, Bool, true, Option, none, some, words, if◌then◌else◌, ◌&&◌, ◌⊎◌,
  is_empty,
}
use margo_hello_world.Common.Texts.{concat}
use margo_hello_world.Common.Dict.{Dict}
use margo_hello_world.Ent.{Field, Edge, EntSchema, no_default, constant, time_now, Default}
use margo_hello_world.Ent.Mutation.{
  Value, Mutation, set_id, set_value, get_value, deployment_ids, is_some,
}

-- An error of sqlgraph, and whether IsConstraintError and *NotFoundError fit it.
pub record SqlError : Type 0 where
  pub message : String
  pub is_constraint : Bool
  pub is_not_found : Bool

-- sqlgraph.CreateSpec: the id, the columns that are set, and the nodes of the edge "deployment".
pub record CreateSpec : Type 0 where
  pub table : String
  pub id : Option String
  pub columns : Dict Value
  pub deployments : List String

-- The predicates of ent/deploymentcomponentstatus/where.go that the program uses.
pub data Predicate : Type 0 where
  id_eq : String → Predicate
  name_eq : String → Predicate
  has_deployment_with : String → Predicate

-- sqlgraph.UpdateSpec
pub record UpdateSpec : Type 0 where
  pub table : String
  pub predicates : List Predicate
  pub columns : Dict Value
  pub cleared : List String
  pub edges_cleared : Bool
  pub edges_added : List String

pub record Driver (W : Type 0) : Type 0 where
  pub create_node : CreateSpec → W → W × Option SqlError
  pub update_nodes : UpdateSpec → W → W × (SqlError ⊎ ℕ)

-- What DefaultCreatedAt, DefaultUpdatedAt and DefaultID yield when they are called.
pub record Fresh : Type 0 where
  pub clock : String → Value
  pub new_id : String

abbrev pub string_value : String → Value
string_value s = record { held_type = "string"; content = s }

-- if _, ok := m.F(); !ok { v := Default; m.SetF(v) }
unfoldable pub default_of : Fresh → String → Default → Mutation → Mutation
unfolding set_value
default_of fresh column no_default m = m
default_of fresh column (constant s) m = set_value column (string_value s) m
default_of fresh column time_now m = set_value column (fresh.clock column) m

unfoldable pub default_fields : Fresh → List Field → Mutation → Mutation
unfolding get_value default_of
default_fields fresh [] m = m
default_fields fresh (f ∷ fs) m =
    default_fields fresh fs
      (if is_some (get_value f.column m) then m else default_of fresh f.column f.fallback m)

-- defaults
unfoldable pub defaults : EntSchema → Fresh → Mutation → Mutation
unfolding default_fields set_id
defaults S fresh m =
    let m' = default_fields fresh S.fields m in
    if is_some m'.id then m' else (if S.id_generated then set_id fresh.new_id m' else m')

-- The texts of the two errors of a field, and of the error of an edge.
abbrev pub missing_field : EntSchema → Field → String
missing_field S f =
    concat ("ent: missing required field \"" ∷ S.type_name ∷ "." ∷ f.column ∷ "\"" ∷ [])

abbrev pub refused_value : EntSchema → Field → String → String
refused_value S f e = concat (
    concat ("ent: validator failed for field \"" ∷ S.type_name ∷ "." ∷ f.column ∷ "\": " ∷ [])
    ∷ e
    ∷ [])

abbrev pub missing_edge : EntSchema → Edge → String
missing_edge S e = concat ("ent: missing required edge \"" ∷ S.type_name ∷ "." ∷ e.name ∷ "\"" ∷ [])

-- The first error of several checks.
abbrev pub or_else : Option String → Option String → Option String
or_else none next = next
or_else (some e) next = some e

-- The check of the edges: the one that is required is "deployment".
unfoldable pub check_edges : EntSchema → List Edge → Mutation → Option String
unfolding deployment_ids
check_edges S [] m = none
check_edges S (e ∷ es) m =
    or_else (if e.is_required && is_empty (deployment_ids m) then some (missing_edge S e) else none)
      (check_edges S es m)

-- `validator` is what NotEmpty registers, NameValidator.
module _ (validator : String → Option String) where
  -- if err := NameValidator(v); err != nil { … }
  unfoldable pub refusal : EntSchema → Field → Option Value → Option String
  refusal S f none = none
  refusal S f (some v) =
      if f.not_empty
      then elim (validator v.content) [ none ↦ none | some e ↦ some (refused_value S f e) ]
      else none

  unfoldable pub check_field : EntSchema → Field → Mutation → Option String
  unfolding get_value refusal
  check_field S f m =
      or_else
        (if f.is_optional
          then none
          else if is_some (get_value f.column m)
          then none
          else some (missing_field S f))
        (refusal S f (get_value f.column m))

  unfoldable pub check_fields : EntSchema → List Field → Mutation → Option String
  unfolding check_field
  check_fields S [] m = none
  check_fields S (f ∷ fs) m = or_else (check_field S f m) (check_fields S fs m)

  -- check
  unfoldable pub check : EntSchema → Mutation → Option String
  unfolding check_fields check_edges
  check S m = or_else (check_fields S S.fields m) (check_edges S S.edges m)

  -- if value, ok := m.F(); ok { _spec.SetField(F, …, value) }
  unfoldable pub set_columns : List Field → Mutation → Dict Value
  unfolding get_value
  set_columns [] m = []
  set_columns (f ∷ fs) m =
      let rest = set_columns fs m in
      elim (get_value f.column m) [ none ↦ rest | some v ↦ (f.column, v) ∷ rest ]

  -- createSpec
  unfoldable pub create_spec : EntSchema → Mutation → CreateSpec
  unfolding set_columns deployment_ids
  create_spec S m = record {
    table = S.table;
    id = m.id;
    columns = set_columns S.fields m;
    deployments = deployment_ids m;
  }

  module _ {W : Type 0} (D : Driver W) where
    -- if sqlgraph.IsConstraintError(err) { err = &ConstraintError{…} }
    unfoldable pub create_error : SqlError → String
    create_error e =
        if e.is_constraint then concat ("ent: constraint failed: " ∷ e.message ∷ []) else e.message

    -- What follows CreateNode.
    unfoldable pub created : Mutation → W × Option SqlError → W × (Mutation × Option String)
    unfolding create_error
    created m (w, some e) = (w, (m, some (create_error e)))
    created m (w, none) = (w, (record m { done = true }, none))

    -- sqlSave
    unfoldable pub sql_save : EntSchema → Mutation → W → W × (Mutation × Option String)
    unfolding check create_spec created
    sql_save S m w = elim (check S m) [
      | some e ↦ (w, (m, some e))
      | none ↦ created m (D.create_node (create_spec S m) w)
    ]

    -- Save
    unfoldable pub save : EntSchema → Fresh → Mutation → W → W × (Mutation × Option String)
    unfolding defaults sql_save
    save S fresh m w = sql_save S (defaults S fresh m) w
