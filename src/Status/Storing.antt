-- ===== src/Status/Storing.antt =====
-- SaveDeploymentStatus and UpdateDeploymentStatus as transactions.
use margo_hello_world.Common.{String, List, [], ◌∷◌, Option, none, some, ◌≡◌, refl, inr, ◌∙◌, map}
use margo_hello_world.Model.{DeploymentStatus, DeploymentComponent}
use margo_hello_world.Ent.Create.{name_eq}
use margo_hello_world.Status.{
  Database, commit, after_statement, save_components, in_transaction, save_deployment_status,
  update_all_components, update_deployment_status,
}

-- The contents that a statement leaves, if it succeeds.
abbrev after_one : {R : Type 0} → R × Option String → Option R
after_one (rows, none) = some rows
after_one (rows, some e) = none

-- The contents after statements that all succeed.
abbrev pub after_all : {R : Type 0} → List (R → R × Option String) → R → Option R
after_all [] rows = some rows
after_all (s ∷ ss) rows = elim (after_one (s rows)) [ none ↦ none | some r ↦ after_all ss r ]

module _ (D : Database) where
  open D use {
    Rows, parse_uuid, begin, create_status, create_component, update_status, update_components,
    rollback_error,
  }

  -- How a transaction ends: it is rolled back, or committed.
  abbrev pub settled : Rows → Option Rows → Rows × Option String
  settled before none = (before, rollback_error)
  settled before (some rows) = commit D before rows

  abbrev pub save_statements : String → DeploymentStatus → List (Rows → Rows × Option String)
  save_statements id ds = create_status id ds.status ∷ map (create_component id) ds.components

  abbrev pub named_update : DeploymentComponent → Rows → Rows × Option String
  named_update c = update_components (name_eq c.name ∷ []) c

  abbrev pub update_statements : String → DeploymentStatus → List (Rows → Rows × Option String)
  update_statements id ds = update_status id ds.status ∷ map named_update ds.components

  after_statement-settled :
      (before : Rows) (o : Rows × Option String) (next : Rows → Rows × Option String)
      (ss : List (Rows → Rows × Option String))
      → ((r : Rows) → next r ≡ settled before (after_all ss r))
      → after_statement D before o next
        ≡ settled before (elim (after_one o) [ none ↦ none | some r ↦ after_all ss r ])
  unfolding after_statement
  after_statement-settled before (rows, none) next ss h = h rows
  after_statement-settled before (rows, some e) next ss h = refl

  save_components-settled :
      (id : String) (before : Rows) (cs : List DeploymentComponent) (rows : Rows)
      → save_components D id before cs rows
        ≡ settled before (after_all (map (create_component id) cs) rows)
  unfolding save_components
  save_components-settled id before [] rows = refl
  save_components-settled id before (c ∷ cs) rows =
      after_statement-settled before (create_component id c rows) (save_components D id before cs)
        (map (create_component id) cs) (save_components-settled id before cs)

  update_components-settled :
      (before : Rows) (cs : List DeploymentComponent) (rows : Rows)
      → update_all_components D before cs rows
        ≡ settled before (after_all (map named_update cs) rows)
  unfolding update_all_components
  update_components-settled before [] rows = refl
  update_components-settled before (c ∷ cs) rows =
      after_statement-settled before (named_update c rows) (update_all_components D before cs)
        (map named_update cs) (update_components-settled before cs)

  in_transaction-runs :
      (text id : String) (body : String → Rows → Rows × Option String) (rows : Rows)
      → parse_uuid text ≡ inr id
      → begin rows ≡ none
      → in_transaction D text body rows ≡ body id rows
  unfolding in_transaction
  in_transaction-runs text id body rows p b = rw (in_transaction, p, b) refl

  -- SaveDeploymentStatus with a valid id runs its statements, the deployment first and then each
  -- component, as one transaction: if all succeed the result is that of the commit, and otherwise
  -- the tables stay as they were and the error is that of the rollback.
  pub save_all_or_nothing :
      (id : String) (ds : DeploymentStatus) (rows : Rows)
      → parse_uuid ds.deployment_id ≡ inr id
      → begin rows ≡ none
      → save_deployment_status D ds rows ≡ settled rows (after_all (save_statements id ds) rows)
  unfolding save_deployment_status
  save_all_or_nothing id ds rows p b =
      in_transaction-runs ds.deployment_id id _ rows p b
      ∙ after_statement-settled rows (create_status id ds.status rows)
          (save_components D id rows ds.components) (map (create_component id) ds.components)
          (save_components-settled id rows ds.components)

  -- UpdateDeploymentStatus with a valid id runs its statements as one transaction, as
  -- SaveDeploymentStatus does.
  pub update_all_or_nothing :
      (id : String) (ds : DeploymentStatus) (rows : Rows)
      → parse_uuid ds.deployment_id ≡ inr id
      → begin rows ≡ none
      → update_deployment_status D ds rows ≡ settled rows (after_all (update_statements id ds) rows)
  unfolding update_deployment_status
  update_all_or_nothing id ds rows p b =
      in_transaction-runs ds.deployment_id id _ rows p b
      ∙ after_statement-settled rows (update_status id ds.status rows)
          (update_all_components D rows ds.components) (map named_update ds.components)
          (update_components-settled rows ds.components)

  -- When a statement of SaveDeploymentStatus and one of UpdateDeploymentStatus fails, in
  -- transactions with a valid id that can be begun and rolled back, the tables are unchanged and
  -- both return no error.
  pub errors_lost :
      (id : String) (ds : DeploymentStatus) (rows : Rows)
      → parse_uuid ds.deployment_id ≡ inr id
      → begin rows ≡ none
      → rollback_error ≡ none
      → after_all (save_statements id ds) rows ≡ none
      → after_all (update_statements id ds) rows ≡ none
      → (save_deployment_status D ds rows ≡ (rows, none))
        × (update_deployment_status D ds rows ≡ (rows, none))
  errors_lost id ds rows p b r s u = (
    save_all_or_nothing id ds rows p b ∙ rw (s, r) refl,
    update_all_or_nothing id ds rows p b ∙ rw (u, r) refl,
  )
