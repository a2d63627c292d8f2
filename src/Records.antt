-- ===== src/Records.antt =====
-- internal/orchestrator/db.go: the states of deployments that a local orchestrator records, with the
-- builder of a component of the generated client (Ent/Client). The database is a parameter; a
-- statement is a transaction of its own.
pub mod Components
use margo_hello_world.Common.{
  ℕ, zero, suc, String, List, [], ◌∷◌, Bool, true, false, Option, none, some, ◌==◌, words,
  if◌then◌else◌, ◌⊎◌, inl, inr, ◌≡◌,
}
use margo_hello_world.Model.{DeploymentStatus, DeploymentState, DeploymentComponent}
use margo_hello_world.Ent.{component_status_schema}
use margo_hello_world.Ent.Create.{Fresh, defaults, check}
use margo_hello_world.Ent.Client.{component_create}

-- The statements, with their errors. `matching` is the number of component rows with a name that
-- belong to a deployment; Update returns it when it succeeds, and changes no row's name or edge.
pub record Tables : Type 1 where
  pub Rows : Type 0
  pub parse_uuid : String → String ⊎ String
  pub name_error : String → Option String  -- NameValidator
  pub fresh : Rows → Fresh
  pub matching : String → String → Rows → ℕ
  pub create_status : String → String → Rows → Rows × Option String
  pub update_status : String → DeploymentState → Rows → Rows × Option String
  pub update_components : String → DeploymentComponent → Rows → Rows × (String ⊎ ℕ)
  pub insert_component : Option String → DeploymentComponent → Rows → Rows × Option String
  pub matching-create_status :
      (id state : String) (rows : Rows) (d n : String)
      → matching d n (create_status id state rows).0 ≡ matching d n rows
  pub matching-update_status :
      (id : String) (state : DeploymentState) (rows : Rows) (d n : String)
      → matching d n (update_status id state rows).0 ≡ matching d n rows
  pub matching-update_components :
      (id : String) (c : DeploymentComponent) (rows : Rows) (d n : String)
      → matching d n (update_components id c rows).0 ≡ matching d n rows
  pub updated_count :
      (id : String) (c : DeploymentComponent) (rows : Rows) (k : ℕ)
      → (update_components id c rows).1 ≡ inr k
      → k ≡ matching id c.name rows

-- uuid.Nil
abbrev pub nil_uuid : String
nil_uuid = "00000000-0000-0000-0000-000000000000"

module _ (T : Tables) where
  open T use {
    Rows, parse_uuid, fresh, create_status, update_status, update_components, insert_component,
    name_error,
  }

  -- The id of SaveDeploymentRecord: the error of uuid.Parse is ignored.
  abbrev pub id_or_nil : String ⊎ String → String
  id_or_nil (inl _) = nil_uuid
  id_or_nil (inr id) = id

  -- SaveDeploymentRecord
  unfoldable pub save_deployment_record : DeploymentStatus → Rows → Rows × Option String
  save_deployment_record dep rows =
      create_status (id_or_nil (parse_uuid dep.deployment_id)) dep.status.state rows

  -- DeploymentComponentStatus.Create()….Save(ctx): the defaults and the check of the builder, then
  -- the statement.
  unfoldable pub create_component :
      Option String → DeploymentComponent → Rows → Rows × Option String
  unfolding check defaults component_create component_status_schema
  create_component edge c rows =
      elim (check name_error component_status_schema
        (defaults component_status_schema (fresh rows) (component_create edge c))) [
          | some e ↦ (rows, some e)
          | none ↦ insert_component edge c rows
        ]

  -- What follows the update of one component: a row is created where none was updated. It is not
  -- attached to its deployment.
  unfoldable pub record_component : DeploymentComponent → Rows × (String ⊎ ℕ) → Rows × Option String
  record_component c (rows, inl e) = (rows, some e)
  record_component c (rows, inr zero) = create_component none c rows
  record_component c (rows, inr (suc _)) = (rows, none)

  -- if err != nil { return err }
  unfoldable pub unless_error :
      Rows × Option String → (Rows → Rows × Option String) → Rows × Option String
  unless_error (rows, none) next = next rows
  unless_error (rows, some e) next = (rows, some e)

  -- "If component list exists, update each component"
  unfoldable pub record_components : String → List DeploymentComponent → Rows → Rows × Option String
  record_components id [] rows = (rows, none)
  record_components id (c ∷ cs) rows =
      unless_error (record_component c (update_components id c rows)) (record_components id cs)

  -- UpdateDeploymentRecord
  unfoldable pub update_deployment_record : DeploymentStatus → Rows → Rows × Option String
  update_deployment_record dep rows = elim (parse_uuid dep.deployment_id) [
    | inl e ↦ (rows, some e)
    | inr id ↦ unless_error (update_status id dep.status rows) (record_components id dep.components)
  ]

  -- The two calls that change the records.
  pub data Write : Type 0 where
    saves : DeploymentStatus → Write
    updates : DeploymentStatus → Write

  unfoldable pub write : Write → Rows → Rows × Option String
  write (saves dep) rows = save_deployment_record dep rows
  write (updates dep) rows = update_deployment_record dep rows

  unfoldable pub writes : List Write → Rows → Rows
  writes [] rows = rows
  writes (w ∷ ws) rows = writes ws (write w rows).0
