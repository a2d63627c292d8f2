-- ===== src/Records/Components.antt =====
-- internal/orchestrator/db.go: what is recorded of the components of a deployment.
use margo_hello_world.Common.{
  ℕ, zero, suc, String, List, [], ◌∷◌, Option, none, some, ◌≡◌, ◌≢◌, refl, ◌∙◌, arith, inl, inr,
  Option-cases, Sum-cases, ◌⊎◌,
}
use margo_hello_world.Model.{DeploymentStatus, DeploymentComponent}
use margo_hello_world.Ent.Client.Checked.{checked_name, checked_edge}
use margo_hello_world.Records.{
  Tables, save_deployment_record, create_component, record_component, unless_error,
  record_components, update_deployment_record, Write, saves, updates, write, writes,
}

not_none : (x : String) → some x ≡ none → ⊥
not_none x q = ground (arith, q)

module _ (T : Tables) where
  open T use {Rows, parse_uuid, matching, create_status, update_status, update_components}

  -- No component is recorded of any deployment.
  abbrev pub HasNoComponents : Rows → Type 0
  HasNoComponents rows = (d n : String) → matching d n rows ≡ 0

  create_fails :
      (c : DeploymentComponent) (rows : Rows)
      → ((create_component T none c rows).0 ≡ rows) × ((create_component T none c rows).1 ≢ none)
  unfolding create_component
  create_fails c rows = elim (Option-cases (T.name_error c.name)) [
    | inl h ↦ rw (create_component, checked_edge T.name_error (T.fresh rows) c h) (refl, not_none _)
    | inr (x, h) ↦
        rw (create_component, checked_name T.name_error (T.fresh rows) none c x h)
          (refl, not_none _)
  ]

  record_component-HasNoComponents :
      (c : DeploymentComponent) (o : Rows × (String ⊎ ℕ))
      → HasNoComponents o.0
      → HasNoComponents (record_component T c o).0
  unfolding record_component
  record_component-HasNoComponents c (rows, inl e) h = h
  record_component-HasNoComponents c (rows, inr zero) h = rw ((create_fails c rows).0) h
  record_component-HasNoComponents c (rows, inr (suc _)) h = h

  unless_error-HasNoComponents :
      (o : Rows × Option String) (next : Rows → Rows × Option String)
      → HasNoComponents o.0
      → ((rows : Rows) → HasNoComponents rows → HasNoComponents (next rows).0)
      → HasNoComponents (unless_error T o next).0
  unfolding unless_error
  unless_error-HasNoComponents (rows, none) next h k = k rows h
  unless_error-HasNoComponents (rows, some e) next h k = h

  record_components-HasNoComponents :
      (id : String) (cs : List DeploymentComponent) (rows : Rows)
      → HasNoComponents rows
      → HasNoComponents (record_components T id cs rows).0
  unfolding record_components
  record_components-HasNoComponents id [] rows h = h
  record_components-HasNoComponents id (c ∷ cs) rows h =
      unless_error-HasNoComponents (record_component T c (update_components id c rows))
        (record_components T id cs)
        (record_component-HasNoComponents c (update_components id c rows)
          (λ d n. T.matching-update_components id c rows d n ∙ h d n))
        (record_components-HasNoComponents id cs)

  write-HasNoComponents :
      (w : Write T) (rows : Rows) → HasNoComponents rows → HasNoComponents (write T w rows).0
  unfolding write save_deployment_record update_deployment_record
  write-HasNoComponents (saves dep) rows h = λ d n. T.matching-create_status _ _ rows d n ∙ h d n
  write-HasNoComponents (updates dep) rows h = elim (Sum-cases (parse_uuid dep.deployment_id)) [
    | inl (x, e) ↦ rw (update_deployment_record, e) h
    | inr (id, e) ↦
        rw (update_deployment_record, e)
          (unless_error-HasNoComponents (update_status id dep.status rows)
            (record_components T id dep.components)
            (λ d n. T.matching-update_status id dep.status rows d n ∙ h d n)
            (record_components-HasNoComponents id dep.components))
  ]

  writes-HasNoComponents :
      (ws : List (Write T)) (rows : Rows)
      → HasNoComponents rows
      → HasNoComponents (writes T ws rows)
  unfolding writes
  writes-HasNoComponents [] rows h = h
  writes-HasNoComponents (w ∷ ws) rows h =
      writes-HasNoComponents ws (write T w rows).0 (write-HasNoComponents w rows h)

  -- An update of a component that is not there is an error.
  first_fails :
      (c : DeploymentComponent) (o : Rows × (String ⊎ ℕ))
      → ((k : ℕ) → o.1 ≡ inr k → k ≡ 0)
      → (record_component T c o).1 ≢ none
  unfolding record_component
  first_fails c (rows, inl e) h n = ground (arith, n)
  first_fails c (rows, inr zero) h n = (create_fails c rows).1 n
  first_fails c (rows, inr (suc k)) h n = ground (arith, h (suc k) refl)

  unless_error_fails :
      (o : Rows × Option String) (next : Rows → Rows × Option String)
      → o.1 ≢ none
      → (unless_error T o next).1 ≢ none
  unfolding unless_error
  unless_error_fails (rows, none) next h = absurd (h refl)
  unless_error_fails (rows, some e) next h = h

  components_fail :
      (id : String) (cs : List DeploymentComponent) (o : Rows × Option String)
      → cs ≢ []
      → HasNoComponents o.0
      → (unless_error T o (record_components T id cs)).1 ≢ none
  unfolding record_components unless_error
  components_fail id [] o n h = absurd (n refl)
  components_fail id (c ∷ cs) (rows, some e) n h = λ q. ground (arith, q)
  components_fail id (c ∷ cs) (rows, none) n h =
      unless_error_fails (record_component T c (update_components id c rows)) _ (
        first_fails c (update_components id c rows)
          (λ k e. T.updated_count id c rows k e ∙ h id c.name))

  -- When no component is recorded of any deployment, none ever is, whatever deployments are saved
  -- and updated, and every update with a component returns an error.
  pub components_never_recorded :
      (ws : List (Write T)) (rows : Rows) (dep : DeploymentStatus)
      → HasNoComponents rows
      → dep.components ≢ []
      → HasNoComponents (writes T ws rows)
        × ((update_deployment_record T dep (writes T ws rows)).1 ≢ none)
  unfolding update_deployment_record
  components_never_recorded ws rows dep h c =
      let later = writes T ws rows in
      let none_there = writes-HasNoComponents ws rows h in
      (
        none_there,
        elim (Sum-cases (parse_uuid dep.deployment_id)) [
          | inl (x, e) ↦ rw (update_deployment_record, e) (λ q. not_none x q)
          | inr (id, e) ↦
              rw (update_deployment_record, e)
                (components_fail id dep.components (update_status id dep.status later) c
                  (λ d n. T.matching-update_status id dep.status later d n ∙ none_there d n))
        ],
      )
