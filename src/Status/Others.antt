-- ===== src/Status/Others.antt =====
-- UpdateDeploymentStatus of internal/api/handlers/deploystatus.go: whose components are updated.
use margo_hello_world.Common.{
  String, List, Bool, true, ◌&&◌, [], ◌∷◌, Option, none, some, ◌≡◌, refl, ap, ◌∙◌, inr, ◌==◌, words,
  if◌then◌else◌, arith, eq_refl,
}
use margo_hello_world.Model.{DeploymentStatus, DeploymentComponent}
use margo_hello_world.Ent.Create.{Predicate, id_eq, name_eq, has_deployment_with}
use margo_hello_world.Status.{
  Database, commit, after_statement, in_transaction, update_all_components,
  update_deployment_status,
}

-- A state in place of the one that is there, if there is one.
abbrev pub replaced : String → Option String → Option String
replaced new none = none
replaced new (some _) = some new

-- Whether all predicates hold of the row with an id that a deployment has for a name.
abbrev pub all_hold : List Predicate → String → String → String → Bool
all_hold [] id d n = true
all_hold (id_eq i ∷ ps) id d n = id == i && all_hold ps id d n
all_hold (name_eq m ∷ ps) id d n = n == m && all_hold ps id d n
all_hold (has_deployment_with e ∷ ps) id d n = d == e && all_hold ps id d n

-- How a database shows the states of components: an update sets the rows that its predicates hold
-- of, and one of the deployments touches none.
pub record Shown (D : Database) : Type 0 where
  pub state_of : D.Rows → String → String → Option String
  pub id_of : D.Rows → String → String → String
  pub state-update_status :
      (id : String) (ds : DeploymentStatus) (rows : D.Rows) (d n : String)
      → state_of (D.update_status id ds.status rows).0 d n ≡ state_of rows d n
  pub state-update_components :
      (ps : List Predicate) (c : DeploymentComponent) (rows : D.Rows) (d n : String)
      → (D.update_components ps c rows).1 ≡ none
      → state_of (D.update_components ps c rows).0 d n ≡ (
          if all_hold ps (id_of rows d n) d n
          then replaced c.state (state_of rows d n)
          else state_of rows d n)

module _ (D : Database) (V : Shown D) where
  open D use {Rows, parse_uuid, begin, update_status, update_components, commit_error}
  open V use {state_of}

  goes_on :
      (before : Rows) (o : Rows × Option String) (next : Rows → Rows × Option String)
      → o.1 ≡ none
      → after_statement D before o next ≡ next o.0
  unfolding after_statement
  goes_on before (rows, none) next h = refl
  goes_on before (rows, some e) next h = absurd (ground (arith, h))

  commits : (before rows : Rows) → commit_error rows ≡ none → commit D before rows ≡ (rows, none)
  unfolding commit
  commits before rows h = rw (commit, h) refl

  updated :
      (id : String) (ds : DeploymentStatus) (c : DeploymentComponent) (rows : Rows)
      → parse_uuid ds.deployment_id ≡ inr id
      → begin rows ≡ none
      → ds.components ≡ c ∷ []
      → (update_status id ds.status rows).1 ≡ none
      → (update_components (name_eq c.name ∷ []) c (update_status id ds.status rows).0).1 ≡ none
      → ((r : Rows) → commit_error r ≡ none)
      → update_deployment_status D ds rows
        ≡ ((update_components (name_eq c.name ∷ []) c (update_status id ds.status rows).0).0, none)
  unfolding update_deployment_status in_transaction update_all_components
  updated id ds c rows p b one u v k =
      rw (in_transaction, p, b, one)
        (goes_on rows (update_status id ds.status rows) _ u
          ∙ goes_on rows
              (update_components (name_eq c.name ∷ []) c (update_status id ds.status rows).0) _ v
          ∙ commits rows _ (k _))

  -- Over a database whose updates set the rows that all their predicates hold of and leave the
  -- others, an update with one component that succeeds gives its state also to the component of
  -- that name of every other deployment, as the filter is on the name alone.
  pub others_overwritten :
      (id : String) (ds : DeploymentStatus) (c : DeploymentComponent) (rows : Rows)
      (other old : String)
      → parse_uuid ds.deployment_id ≡ inr id
      → begin rows ≡ none
      → ds.components ≡ c ∷ []
      → (update_status id ds.status rows).1 ≡ none
      → (update_components (name_eq c.name ∷ []) c (update_status id ds.status rows).0).1 ≡ none
      → ((r : Rows) → commit_error r ≡ none)
      → state_of rows other c.name ≡ some old
      → state_of (update_deployment_status D ds rows).0 other c.name ≡ some c.state
  others_overwritten id ds c rows other old p b one u v k h =
      ap (λ r. state_of r.0 other c.name) (updated id ds c rows p b one u v k)
      ∙ V.state-update_components (name_eq c.name ∷ []) c (update_status id ds.status rows).0 other
          c.name v
      ∙ rw (eq_refl c.name, V.state-update_status id ds rows other c.name, h) refl
