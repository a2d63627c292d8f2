-- ===== src/Ent/Update.antt =====
-- ent/deploymentcomponentstatus_update.go, with the schema as an argument: the defaults, the check
-- and the statement of DeploymentComponentStatusUpdate.
use margo_hello_world.Common.{
  ℕ, String, List, [], ◌∷◌, Option, none, some, words, if◌then◌else◌, ◌&&◌, ◌⊎◌, inl, inr, is_empty,
  not,
}
use margo_hello_world.Common.Texts.{concat}
use margo_hello_world.Ent.{Field, Edge, EntSchema}
use margo_hello_world.Ent.Mutation.{Mutation, get_value, deployment_ids, is_some, cleared_fields_of}
use margo_hello_world.Ent.Create.{
  SqlError, Predicate, UpdateSpec, Driver, Fresh, default_of, or_else, refusal, set_columns,
  create_error,
}

-- defaults: the times with an UpdateDefault
unfoldable pub update_fields : Fresh → List Field → Mutation → Mutation
unfolding get_value default_of
update_fields fresh [] m = m
update_fields fresh (f ∷ fs) m =
    update_fields fresh fs
      (if is_some (get_value f.column m) then m else default_of fresh f.column f.on_update m)

unfoldable pub update_defaults : EntSchema → Fresh → Mutation → Mutation
unfolding update_fields
update_defaults S fresh m = update_fields fresh S.fields m

-- A required unique edge that is cleared although a new one is set.
unfoldable pub check_cleared : EntSchema → List Edge → Mutation → Option String
unfolding deployment_ids
check_cleared S [] m = none
check_cleared S (e ∷ es) m =
    or_else
      (if e.is_required && m.cleared_deployment && not (is_empty (deployment_ids m))
        then some (
            concat
              ("ent: clearing a required unique edge \"" ∷ S.type_name ∷ "." ∷ e.name ∷ "\"" ∷ []))
        else none)
      (check_cleared S es m)

module _ (validator : String → Option String) where
  unfoldable pub check_values : EntSchema → List Field → Mutation → Option String
  unfolding get_value
  check_values S [] m = none
  check_values S (f ∷ fs) m =
      or_else (refusal validator S f (get_value f.column m)) (check_values S fs m)

  -- check
  unfoldable pub update_check : EntSchema → Mutation → Option String
  unfolding check_values check_cleared
  update_check S m = or_else (check_values S S.fields m) (check_cleared S S.edges m)

  -- The specification of sqlSave.
  unfoldable pub update_spec : EntSchema → List Predicate → Mutation → UpdateSpec
  unfolding deployment_ids
  update_spec S ps m = record {
    table = S.table;
    predicates = ps;
    columns = set_columns validator S.fields m;
    cleared = cleared_fields_of S.fields m;
    edges_cleared = m.cleared_deployment;
    edges_added = deployment_ids m;
  }

  module _ {W : Type 0} (D : Driver W) where
    -- if err is a *NotFoundError { … } else if sqlgraph.IsConstraintError(err) { … }
    unfoldable pub update_error : EntSchema → SqlError → String
    update_error S e =
        if e.is_not_found
        then concat ("ent: " ∷ S.table ∷ " not found" ∷ [])
        else create_error validator D e

    -- What follows UpdateNodes.
    unfoldable pub updated : EntSchema → W × (SqlError ⊎ ℕ) → W × (String ⊎ ℕ)
    unfolding update_error
    updated S (w, inl e) = (w, inl (update_error S e))
    updated S (w, inr n) = (w, inr n)

    -- Save: defaults, then sqlSave
    unfoldable pub save_update :
        EntSchema → Fresh → List Predicate → Mutation → W → W × (String ⊎ ℕ)
    unfolding update_defaults update_check update_spec updated
    save_update S fresh ps m w =
        let m' = update_defaults S fresh m in
        elim (update_check S m') [
          | some e ↦ (w, inl e)
          | none ↦ updated S (D.update_nodes (update_spec S ps m') w)
        ]
