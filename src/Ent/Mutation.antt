-- ===== src/Ent/Mutation.antt =====
-- ent/mutation.go: DeploymentComponentStatusMutation. What it does by the name of a field is the
-- same for each field of a schema, so that the schema is an argument; DeploymentStatusMutation is
-- generated from the same template. An entity that is loaded is a dictionary of its fields.
use margo_hello_world.Common.{
  String, List, [], ◌∷◌, Bool, true, false, Option, none, some, ◌==◌, words, if◌then◌else◌, ◌⊎◌,
  inl, inr, keep, map,
}
use margo_hello_world.Common.Texts.{concat}
use margo_hello_world.Common.Dict.{Dict, lookup, insert, delete}
use margo_hello_world.Ent.{Field, EntSchema}

-- ent.Value: a value with the name of its type.
pub record Value : Type 0 where
  pub held_type : String
  pub content : String

pub data Op : Type 0 where
  op_create op_update op_update_one op_delete op_delete_one : Op

abbrev pub is_update_one : Op → Bool
is_update_one op_update_one = true
is_update_one op_create = false
is_update_one op_update = false
is_update_one op_delete = false
is_update_one op_delete_one = false

-- oldValue: a query of the entity, which withDeploymentComponentStatusID makes on the first call, or
-- the entity that withDeploymentComponentStatus was given.
pub data Source : Type 0 where
  queries : String ⊎ Dict Value → Source
  given : Dict Value → Source

-- The pointers of the fields are the values that are set, a nil pointer being a key that is missing.
pub record Mutation : Type 0 where
  pub op : Op
  pub id : Option String
  pub values : Dict Value
  pub cleared_fields : Dict Bool
  pub deployment : Option String
  pub cleared_deployment : Bool
  pub done : Bool
  pub old_value : Option Source

-- newDeploymentComponentStatusMutation
unfoldable pub new_mutation : Op → Mutation
new_mutation op = record {
  op = op;
  id = none;
  values = [];
  cleared_fields = [];
  deployment = none;
  cleared_deployment = false;
  done = false;
  old_value = none;
}

-- withDeploymentComponentStatusID and withDeploymentComponentStatus
unfoldable pub with_old : String → Source → Mutation → Mutation
with_old id source m = record m { id = some id; old_value = some source }

-- m.oldValue(ctx)
unfoldable pub load_old : Source → Mutation → String ⊎ Dict Value
load_old (queries loaded) m =
    if m.done then inl "querying old values post mutation is not allowed" else loaded
load_old (given row) m = inr row

unfoldable pub set_id : String → Mutation → Mutation
set_id id m = record m { id = some id }

-- SetName, SetState, SetErrorCode and so on: a field that was cleared stays among those.
unfoldable pub set_value : String → Value → Mutation → Mutation
set_value column v m = record m { values = insert column v m.values }

-- Name, State, ErrorCode and so on
unfoldable pub get_value : String → Mutation → Option Value
get_value column m = lookup column m.values

-- An error of OldName and so on.
abbrev pub old_error : String → String → String
old_error column rest = concat ("Old" ∷ column ∷ rest ∷ [])

-- The entity that was loaded, or the error, which is wrapped.
abbrev pub old_column : String → String ⊎ Dict Value → String ⊎ Option Value
old_column column (inl e) = inl (concat ("querying old value for Old" ∷ column ∷ ": " ∷ e ∷ []))
old_column column (inr row) = inr (lookup column row)

-- OldName, OldState and so on, with the column in place of the name of the method; `none` is a column
-- that the row does not have.
unfoldable pub old_value_of : String → Mutation → String ⊎ Option Value
unfolding load_old
old_value_of column m =
    if is_update_one m.op
    then elim m.id [
      | none ↦ inl (old_error column " requires an ID field in the mutation")
      | some _ ↦ elim m.old_value [
        | none ↦ inl (old_error column " requires an ID field in the mutation")
        | some source ↦ old_column column (load_old source m)
      ]
    ]
    else inl (old_error column " is only allowed on UpdateOne operations")

-- ClearErrorCode and ClearErrorMessage
unfoldable pub clear_value : String → Mutation → Mutation
clear_value column m = record m {
  values = delete column m.values;
  cleared_fields = insert column true m.cleared_fields;
}

-- ResetName, ResetErrorCode and so on. A field that is not optional is never among the cleared.
unfoldable pub reset_value : String → Mutation → Mutation
reset_value column m = record m {
  values = delete column m.values;
  cleared_fields = delete column m.cleared_fields;
}

unfoldable pub set_deployment_id : String → Mutation → Mutation
set_deployment_id id m = record m { deployment = some id }

unfoldable pub clear_deployment : Mutation → Mutation
clear_deployment m = record m { cleared_deployment = true }

-- DeploymentIDs
unfoldable pub deployment_ids : Mutation → List String
deployment_ids m = elim m.deployment [ none ↦ [] | some id ↦ id ∷ [] ]

unfoldable pub reset_deployment : Mutation → Mutation
reset_deployment m = record m { deployment = none; cleared_deployment = false }

abbrev pub is_some : {A : Type 0} → Option A → Bool
is_some none = false
is_some (some _) = true

-- Fields: those that are set, in the order of the schema.
unfoldable pub fields_of : List Field → Mutation → List String
fields_of fs m = map (λ f. f.column) (keep (λ f. is_some (lookup f.column m.values)) fs)

-- The case of a switch over the names of the fields.
unfoldable pub find_field : String → List Field → Option Field
find_field name [] = none
find_field name (f ∷ fs) = if f.column == name then some f else find_field name fs

-- Field
unfoldable pub field_of : List Field → String → Mutation → Option Value
field_of fs name m = elim (find_field name fs) [ none ↦ none | some f ↦ lookup name m.values ]

abbrev pub unknown_field : EntSchema → String → String → String
unknown_field S kind name = concat ("unknown " ∷ S.type_name ∷ kind ∷ name ∷ [])

-- OldField
unfoldable pub old_field : EntSchema → String → Mutation → String ⊎ Option Value
unfolding old_value_of
old_field S name m = elim (find_field name S.fields) [
  | none ↦ inl (unknown_field S " field " name)
  | some f ↦ old_value_of name m
]

-- SetField
unfoldable pub set_field : EntSchema → String → Value → Mutation → Mutation × Option String
unfolding set_value
set_field S name v m = elim (find_field name S.fields) [
  | none ↦ (m, some (unknown_field S " field " name))
  | some f ↦
      if v.held_type == f.go_type
      then (set_value name v m, none)
      else (m, some (concat ("unexpected type " ∷ v.held_type ∷ " for field " ∷ name ∷ [])))
]

-- AddField: neither table has a numeric field.
unfoldable pub add_field : EntSchema → String → Value → Mutation → Mutation × Option String
add_field S name v m = (m, some (unknown_field S " numeric field " name))

-- FieldCleared
unfoldable pub field_cleared : String → Mutation → Bool
field_cleared name m = is_some (lookup name m.cleared_fields)

-- ClearedFields
unfoldable pub cleared_fields_of : List Field → Mutation → List String
unfolding field_cleared
cleared_fields_of fs m =
    map (λ f. f.column) (keep (λ f. field_cleared f.column m) (keep (λ f. f.is_optional) fs))

-- ClearField
unfoldable pub clear_field : EntSchema → String → Mutation → Mutation × Option String
unfolding clear_value
clear_field S name m = elim (find_field name S.fields) [
  | none ↦ (m, some (unknown_field S " nullable field " name))
  | some f ↦
      if f.is_optional
      then (clear_value name m, none)
      else (m, some (unknown_field S " nullable field " name))
]

-- ResetField
unfoldable pub reset_field : EntSchema → String → Mutation → Mutation × Option String
unfolding reset_value
reset_field S name m = elim (find_field name S.fields) [
  | none ↦ (m, some (unknown_field S " field " name))
  | some f ↦ (reset_value name m, none)
]

abbrev pub edge_deployment : String
edge_deployment = "deployment"

-- AddedEdges
unfoldable pub added_edges : Mutation → List String
added_edges m = elim m.deployment [ none ↦ [] | some _ ↦ edge_deployment ∷ [] ]

-- AddedIDs
unfoldable pub added_ids : String → Mutation → List String
unfolding deployment_ids
added_ids name m = if name == edge_deployment then deployment_ids m else []

-- ClearedEdges
unfoldable pub cleared_edges : Mutation → List String
cleared_edges m = if m.cleared_deployment then edge_deployment ∷ [] else []

-- EdgeCleared
unfoldable pub edge_cleared : String → Mutation → Bool
edge_cleared name m = if name == edge_deployment then m.cleared_deployment else false

-- ClearEdge
unfoldable pub clear_edge : EntSchema → String → Mutation → Mutation × Option String
unfolding clear_deployment
clear_edge S name m =
    if name == edge_deployment
    then (clear_deployment m, none)
    else (m, some (unknown_field S " unique edge " name))

-- ResetEdge
unfoldable pub reset_edge : EntSchema → String → Mutation → Mutation × Option String
unfolding reset_deployment
reset_edge S name m =
    if name == edge_deployment
    then (reset_deployment m, none)
    else (m, some (unknown_field S " edge " name))
