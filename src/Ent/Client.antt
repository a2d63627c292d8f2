-- ===== src/Ent/Client.antt =====
-- The statements of internal/orchestrator/db.go and of internal/api/handlers over the builders of
-- the generated client: what Records.Tables and Status.Database take as given.
pub mod Sql
pub mod Checked
pub mod Stored
use margo_hello_world.Common.{
  ℕ, String, List, [], ◌∷◌, Bool, true, false, Option, none, some, ◌⊎◌, inl, inr,
}
use margo_hello_world.Common.Dict.{insert}
use margo_hello_world.Model.{DeploymentState, DeploymentComponent, StatusError}
use margo_hello_world.Ent.{component_status_schema, deployment_status_schema}
use margo_hello_world.Ent.Mutation.{
  Mutation, op_create, op_update, new_mutation, set_id, set_value, set_deployment_id,
}
use margo_hello_world.Ent.Create.{
  Driver, Fresh, Predicate, id_eq, name_eq, has_deployment_with, string_value, save,
}
use margo_hello_world.Ent.Update.{save_update}

-- SetState(…).SetErrorCode(…).SetErrorMessage(…)
unfoldable pub set_state_of : String → StatusError → Mutation → Mutation
unfolding set_value
set_state_of state e m =
    set_value "error_message" (string_value e.message)
      (set_value "error_code" (string_value e.code) (set_value "state" (string_value state) m))

-- DeploymentComponentStatus.Create() with the fields of a component, and the edge where it is set.
unfoldable pub component_create : Option String → DeploymentComponent → Mutation
unfolding new_mutation set_value set_state_of set_deployment_id
component_create edge c =
    let m =
      set_state_of c.state c.error
        (set_value "name" (string_value c.name) (new_mutation op_create)) in
    elim edge [ none ↦ m | some id ↦ set_deployment_id id m ]

module _ {W : Type 0} (D : Driver W) (validator : String → Option String) (fresh : W → Fresh) where
  abbrev pub result : W × (Mutation × Option String) → W × Option String
  result (w, (m, e)) = (w, e)

  -- DeploymentComponentStatus.Create()….Save(ctx)
  unfoldable pub save_component : Option String → DeploymentComponent → W → W × Option String
  unfolding component_create save component_status_schema
  save_component edge c w =
      result (save validator D component_status_schema (fresh w) (component_create edge c) w)

  -- DeploymentStatus.Create().SetID(id).SetState(state).Save(ctx), of SaveDeploymentRecord
  unfoldable pub save_record : String → String → W → W × Option String
  unfolding set_value set_id new_mutation save deployment_status_schema
  save_record id state w = result (
      save validator D deployment_status_schema (fresh w)
        (set_value "state" (string_value state) (set_id id (new_mutation op_create))) w)

  -- The same with the error, of SaveDeploymentStatus
  unfoldable pub save_status : String → DeploymentState → W → W × Option String
  unfolding set_state_of set_id new_mutation save deployment_status_schema
  save_status id s w = result (
      save validator D deployment_status_schema (fresh w)
        (set_state_of s.state s.error (set_id id (new_mutation op_create))) w)

  -- DeploymentStatus.Update().Where(deploymentstatus.ID(id))….Save(ctx)
  unfoldable pub update_status_row : String → DeploymentState → W → W × (String ⊎ ℕ)
  unfolding set_state_of new_mutation save_update deployment_status_schema
  update_status_row id s w =
      save_update validator D deployment_status_schema (fresh w) (id_eq id ∷ [])
        (set_state_of s.state s.error (new_mutation op_update)) w

  -- DeploymentComponentStatus.Update().Where(…)….Save(ctx)
  unfoldable pub update_component_rows : List Predicate → DeploymentComponent → W → W × (String ⊎ ℕ)
  unfolding set_state_of new_mutation save_update component_status_schema
  update_component_rows ps c w =
      save_update validator D component_status_schema (fresh w) ps
        (set_state_of c.state c.error (new_mutation op_update)) w
