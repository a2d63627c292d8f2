-- ===== src/Status.antt =====
-- internal/api/handlers/deploystatus.go, and SaveDeploymentStatus of
-- internal/api/handlers/deployment.go: the states of deployments in the database of the central
-- orchestrator. The database behind the generated client is a parameter. A transaction works on
-- its own contents of the tables, which a commit makes those of the database.
pub mod Storing
pub mod Active
pub mod Others
pub mod Listing
use margo_hello_world.Common.{
  ℕ, suc, String, List, [], ◌∷◌, Bool, true, false, Option, none, some, ◌==◌, words, if◌then◌else◌,
  ◌⊎◌, inl, inr, ◌||◌,
}
use margo_hello_world.Model.{DeploymentStatus, DeploymentState, DeploymentComponent}
use margo_hello_world.Ent.Create.{Predicate, name_eq}
use margo_hello_world.Streams.{StreamManager, DeployEvent, broadcast}

-- The calls of the client. A statement yields the contents that it leaves, and its error.
pub record Database : Type 1 where
  pub Rows : Type 0
  pub parse_uuid : String → String ⊎ String  -- an error, or the id
  pub begin : Rows → Option String
  pub create_status : String → DeploymentState → Rows → Rows × Option String
  pub create_component : String → DeploymentComponent → Rows → Rows × Option String
  pub update_status : String → DeploymentState → Rows → Rows × Option String
  -- the rows that all predicates hold of
  pub update_components : List Predicate → DeploymentComponent → Rows → Rows × Option String
  pub commit_error : Rows → Option String
  pub rollback_error : Option String

-- One more for a label.
abbrev pub bump : String → (String → ℕ) → String → ℕ
bump id f other = if id == other then suc (f other) else f other

-- ds.Status.State == "failed" || ds.Status.State == "installed"
abbrev pub is_terminal : DeploymentStatus → Bool
is_terminal ds = ds.status.state == "failed" || ds.status.state == "installed"

abbrev pub event_of : String → DeploymentStatus → DeployEvent
event_of now ds = record {
  deployment_id = ds.deployment_id;
  timestamp = now;
  site_id = "";
  message = "";
  status = ds.status.state;
}

module _ (D : Database) where
  open D use {
    Rows, parse_uuid, begin, create_status, create_component, update_status, update_components,
    commit_error, rollback_error,
  }

  -- tx.Commit(), of a transaction that began with `before`
  unfoldable pub commit : Rows → Rows → Rows × Option String
  commit before rows = elim (commit_error rows) [ none ↦ (rows, none) | some e ↦ (before, some e) ]

  -- if err != nil { return tx.Rollback() }
  unfoldable pub after_statement :
      Rows → Rows × Option String → (Rows → Rows × Option String) → Rows × Option String
  after_statement before (rows, none) next = next rows
  after_statement before (rows, some e) next = (before, rollback_error)

  -- The loop over ds.Components of SaveDeploymentStatus, then the commit.
  unfoldable pub save_components :
      String → Rows → List DeploymentComponent → Rows → Rows × Option String
  save_components id before [] rows = commit before rows
  save_components id before (c ∷ cs) rows =
      after_statement before (create_component id c rows) (save_components id before cs)

  -- uuid.Parse, client.Tx, and what is done in the transaction.
  unfoldable pub in_transaction :
      String → (String → Rows → Rows × Option String) → Rows → Rows × Option String
  in_transaction text body rows = elim (parse_uuid text) [
    | inl e ↦ (rows, some e)
    | inr id ↦ elim (begin rows) [ some e ↦ (rows, some e) | none ↦ body id rows ]
  ]

  unfoldable pub save_deployment_status : DeploymentStatus → Rows → Rows × Option String
  save_deployment_status ds rows =
      in_transaction ds.deployment_id
        (λ id r.
          after_statement r (create_status id ds.status r) (save_components id r ds.components))
        rows

  -- The loop of UpdateDeploymentStatus, with Where(NameEQ(c.Name)).
  unfoldable pub update_all_components :
      Rows → List DeploymentComponent → Rows → Rows × Option String
  update_all_components before [] rows = commit before rows
  update_all_components before (c ∷ cs) rows =
      after_statement before (update_components (name_eq c.name ∷ []) c rows)
        (update_all_components before cs)

  unfoldable pub update_deployment_status : DeploymentStatus → Rows → Rows × Option String
  update_deployment_status ds rows =
      in_transaction ds.deployment_id
        (λ id r.
          after_statement r (update_status id ds.status r) (update_all_components r ds.components))
        rows

  -- What the handlers share: the database, the gauge deployments_active as its increments and its
  -- decrements for a label, and the stream manager.
  pub record Api : Type 0 where
    pub rows : Rows
    pub incremented : String → ℕ
    pub decremented : String → ℕ
    pub manager : StreamManager

  -- DeploymentStatusHandler: `none` for a body that cannot be bound. The error of
  -- UpdateDeploymentStatus is ignored.
  unfoldable pub deployment_status_handler : String → Option DeploymentStatus → Api → Option Api
  deployment_status_handler now none api = some api
  deployment_status_handler now (some ds) api =
      let rows = (update_deployment_status ds api.rows).0 in
      let decremented =
        if is_terminal ds then bump ds.deployment_id api.decremented else api.decremented in
      elim (broadcast ds.deployment_id (event_of now ds) api.manager) [
        | none ↦ none
        | some m ↦ some (record api { rows = rows; decremented = decremented; manager = m })
      ]

  -- Requests one after the other.
  unfoldable pub handle_statuses : String → List DeploymentStatus → Api → Option Api
  handle_statuses now [] api = some api
  handle_statuses now (ds ∷ dss) api = elim (deployment_status_handler now (some ds) api) [
    | none ↦ none
    | some api' ↦ handle_statuses now dss api'
  ]
