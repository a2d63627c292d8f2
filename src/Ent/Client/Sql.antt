-- ===== src/Ent/Client/Sql.antt =====
-- The interface Records.Tables of internal/orchestrator/db.go, filled by the generated client over a
-- database that counts rows as SQL does.
use margo_hello_world.Common.{
  ℕ, String, List, [], ◌∷◌, false, Option, none, some, ◌⊎◌, inl, inr, ◌≡◌, refl, ap, ◌∙◌,
  Option-cases, arith,
}
use margo_hello_world.Common.Dict.{lookup, insert}
use margo_hello_world.Model.{DeploymentState, DeploymentComponent}
use margo_hello_world.Records.{Tables}
use margo_hello_world.Ent.{EntSchema, component_status_schema, deployment_status_schema}
use margo_hello_world.Ent.Mutation.{Mutation, new_mutation, set_value, set_id, op_create, op_update}
use margo_hello_world.Ent.Create.{
  SqlError, CreateSpec, UpdateSpec, Driver, Fresh, Predicate, id_eq, name_eq, has_deployment_with,
  string_value, defaults, check, create_spec, created, sql_save, save, set_columns,
}
use margo_hello_world.Ent.Update.{
  update_defaults, update_fields, update_check, update_spec, updated, save_update,
}
use margo_hello_world.Ent.Client.{
  set_state_of, component_create, result, save_record, update_status_row, update_component_rows,
}

-- `matching` counts the rows of components with a name that belong to a deployment.
pub record IsSql {W : Type 0} (D : Driver W) : Type 0 where
  pub matching : String → String → W → ℕ
  -- a row of a deployment is no row of a component
  pub created_status :
      (spec : CreateSpec) (w : W) (d n : String)
      → spec.table ≡ "deployment_status"
      → matching d n (D.create_node spec w).0 ≡ matching d n w
  -- an update that sets no name and no edge leaves both
  pub updated_same :
      (spec : UpdateSpec) (w : W) (d n : String)
      → lookup "name" spec.columns ≡ none
      → spec.edges_cleared ≡ false
      → spec.edges_added ≡ []
      → matching d n (D.update_nodes spec w).0 ≡ matching d n w
  -- an update counts the rows that fit its predicates
  pub updated_count :
      (spec : UpdateSpec) (w : W) (d n : String) (k : ℕ)
      → spec.table ≡ "deployment_component_status"
      → spec.predicates ≡ has_deployment_with d ∷ name_eq n ∷ []
      → (D.update_nodes spec w).1 ≡ inr k
      → k ≡ matching d n w

refused : (e : String) (k : ℕ) → inl e ≡ inr k → ⊥
refused e k h = ground (arith, h)

module _ {W : Type 0} (D : Driver W) (validator : String → Option String) (fresh : W → Fresh) where
  status_table :
      (m : Mutation)
      → (create_spec validator deployment_status_schema m).table ≡ "deployment_status"
  unfolding create_spec deployment_status_schema
  status_table m = refl

  -- The statements of the two updates.
  abbrev status_update : String → DeploymentState → Fresh → UpdateSpec
  status_update id s fr = update_spec validator deployment_status_schema (id_eq id ∷ []) (
      update_defaults deployment_status_schema fr
        (set_state_of s.state s.error (new_mutation op_update)))

  abbrev component_update : List Predicate → DeploymentComponent → Fresh → UpdateSpec
  component_update ps c fr = update_spec validator component_status_schema ps (
      update_defaults component_status_schema fr
        (set_state_of c.state c.error (new_mutation op_update)))

  abbrev SetsNoName : UpdateSpec → Type 0
  SetsNoName spec =
      (lookup "name" spec.columns ≡ none) × (spec.edges_cleared ≡ false) × (spec.edges_added ≡ [])

  status_update-SetsNoName :
      (id : String) (s : DeploymentState) (fr : Fresh) → SetsNoName (status_update id s fr)
  unfolding lookup insert set_columns update_spec update_defaults update_fields
      deployment_status_schema set_state_of new_mutation
  status_update-SetsNoName id s fr = (refl, refl, refl)

  component_update-SetsNoName :
      (ps : List Predicate) (c : DeploymentComponent) (fr : Fresh)
      → SetsNoName (component_update ps c fr)
  unfolding lookup insert set_columns update_spec update_defaults update_fields
      component_status_schema set_state_of new_mutation
  component_update-SetsNoName ps c fr = (refl, refl, refl)

  component_update_fits :
      (ps : List Predicate) (c : DeploymentComponent) (fr : Fresh)
      → ((component_update ps c fr).table ≡ "deployment_component_status")
        × ((component_update ps c fr).predicates ≡ ps)
  unfolding update_spec component_status_schema
  component_update_fits ps c fr = (refl, refl)

  created_rows : (m : Mutation) (o : W × Option SqlError) → (created validator D m o).0 ≡ o.0
  unfolding created
  created_rows m (w, none) = refl
  created_rows m (w, some e) = refl

  updated_rows : (S : EntSchema) (o : W × (SqlError ⊎ ℕ)) → (updated validator D S o).0 ≡ o.0
  unfolding updated
  updated_rows S (w, inl e) = refl
  updated_rows S (w, inr n) = refl

  updated_number :
      (S : EntSchema) (o : W × (SqlError ⊎ ℕ)) (k : ℕ)
      → (updated validator D S o).1 ≡ inr k
      → o.1 ≡ inr k
  unfolding updated
  updated_number S (w, inl e) k h = ground (arith, h)
  updated_number S (w, inr n) k h = ground (arith, h)

  -- A creation leaves the rows, or what the statement leaves.
  save_rows :
      (P : W → Type 0) (S : EntSchema) (fr : Fresh) (m : Mutation) (w : W)
      → P w
      → P (D.create_node (create_spec validator S (defaults S fr m)) w).0
      → P (result D validator fresh (save validator D S fr m w)).0
  unfolding save sql_save
  save_rows P S fr m w h k = elim (Option-cases (check validator S (defaults S fr m))) [
    | inr (e, q) ↦ rw (sql_save, q) h
    | inl q ↦ rw (sql_save, q, created_rows) k
  ]

  update_rows :
      (P : W → Type 0) (S : EntSchema) (fr : Fresh) (ps : List Predicate) (m : Mutation) (w : W)
      → P w
      → P (D.update_nodes (update_spec validator S ps (update_defaults S fr m)) w).0
      → P (save_update validator D S fr ps m w).0
  unfolding save_update
  update_rows P S fr ps m w h k =
      elim (Option-cases (update_check validator S (update_defaults S fr m))) [
        | inr (e, q) ↦ rw (save_update, q) h
        | inl q ↦ rw (save_update, q, updated_rows) k
      ]

  update_number :
      (S : EntSchema) (fr : Fresh) (ps : List Predicate) (m : Mutation) (w : W) (k : ℕ)
      → (save_update validator D S fr ps m w).1 ≡ inr k
      → (D.update_nodes (update_spec validator S ps (update_defaults S fr m)) w).1 ≡ inr k
  unfolding save_update
  update_number S fr ps m w k h =
      elim (Option-cases (update_check validator S (update_defaults S fr m))) [
        | inr (e, q) ↦ absurd (refused e k (rw (save_update, q) at h))
        | inl q ↦ updated_number S _ k (rw (save_update, q) at h)
      ]

  -- The number of rows is not looked at.
  unfoldable pub no_count : W × (String ⊎ ℕ) → W × Option String
  no_count (w, inl e) = (w, some e)
  no_count (w, inr n) = (w, none)

  no_count_rows : (o : W × (String ⊎ ℕ)) → (no_count o).0 ≡ o.0
  unfolding no_count
  no_count_rows (w, inl e) = refl
  no_count_rows (w, inr n) = refl

  module _ (sql : IsSql D) where
    pub matching-save_record :
        (id state : String) (w : W) (d n : String)
        → sql.matching d n (save_record D validator fresh id state w).0 ≡ sql.matching d n w
    unfolding save_record
    matching-save_record id state w d n =
        let m = set_value "state" (string_value state) (set_id id (new_mutation op_create)) in
        let full = defaults deployment_status_schema (fresh w) m in
        save_rows (λ v. sql.matching d n v ≡ sql.matching d n w) deployment_status_schema (fresh w)
          m w refl
          (sql.created_status (create_spec validator deployment_status_schema full) w d n
            (status_table full))

    matching-update_status_row :
        (id : String) (s : DeploymentState) (w : W) (d n : String)
        → sql.matching d n (update_status_row D validator fresh id s w).0 ≡ sql.matching d n w
    unfolding update_status_row
    matching-update_status_row id s w d n =
        let (name, cleared, added) = status_update-SetsNoName id s (fresh w) in
        update_rows (λ v. sql.matching d n v ≡ sql.matching d n w) deployment_status_schema
          (fresh w) (id_eq id ∷ []) (set_state_of s.state s.error (new_mutation op_update)) w refl
          (sql.updated_same (status_update id s (fresh w)) w d n name cleared added)

    pub matching-update_component_rows :
        (ps : List Predicate) (c : DeploymentComponent) (w : W) (d n : String)
        → sql.matching d n (update_component_rows D validator fresh ps c w).0 ≡ sql.matching d n w
    unfolding update_component_rows
    matching-update_component_rows ps c w d n =
        let (name, cleared, added) = component_update-SetsNoName ps c (fresh w) in
        update_rows (λ v. sql.matching d n v ≡ sql.matching d n w) component_status_schema (fresh w)
          ps (set_state_of c.state c.error (new_mutation op_update)) w refl
          (sql.updated_same (component_update ps c (fresh w)) w d n name cleared added)

    pub counted :
        (id : String) (c : DeploymentComponent) (w : W) (k : ℕ)
        → (update_component_rows D validator fresh
            (has_deployment_with id ∷ name_eq c.name ∷ [])
            c
            w).1
          ≡ inr k
        → k ≡ sql.matching id c.name w
    unfolding update_component_rows
    counted id c w k h =
        let ps : List Predicate = has_deployment_with id ∷ name_eq c.name ∷ [] in
        let (table, predicates) = component_update_fits ps c (fresh w) in
        sql.updated_count (component_update ps c (fresh w)) w id c.name k table predicates (
          update_number component_status_schema (fresh w) ps
            (set_state_of c.state c.error (new_mutation op_update)) w k h)

    pub no_count_kept :
        (id : String) (s : DeploymentState) (w : W) (d n : String)
        → sql.matching d n (no_count (update_status_row D validator fresh id s w)).0
          ≡ sql.matching d n w
    no_count_kept id s w d n =
        ap (sql.matching d n) (no_count_rows (update_status_row D validator fresh id s w))
        ∙ matching-update_status_row id s w d n

    -- The statement of a creation that has passed its check.
    abbrev pub insert_row : Option String → DeploymentComponent → W → W × Option String
    insert_row edge c w =
        let m = defaults component_status_schema (fresh w) (component_create edge c) in
        result D validator fresh (
          created validator D m (D.create_node (create_spec validator component_status_schema m) w))

    -- The statements of internal/orchestrator/db.go, made with the generated client.
    abbrev pub tables : (String → String ⊎ String) → Tables
    tables parse = record {
      Rows = W;
      parse_uuid = parse;
      name_error = validator;
      fresh = fresh;
      matching = sql.matching;
      create_status = save_record D validator fresh;
      update_status = λ id s w. no_count (update_status_row D validator fresh id s w);
      update_components = λ id c w.
          update_component_rows D validator fresh (has_deployment_with id ∷ name_eq c.name ∷ []) c
            w;
      insert_component = insert_row;
      matching-create_status = matching-save_record;
      matching-update_status = no_count_kept;
      matching-update_components = λ id c w d n. matching-update_component_rows _ c w d n;
      updated_count = counted;
    }
