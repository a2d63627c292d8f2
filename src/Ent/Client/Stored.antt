-- ===== src/Ent/Client/Stored.antt =====
-- The interface Status.Database of internal/api/handlers, filled by the generated client, and what
-- SaveDeploymentStatus does with a component whose name its builder refuses.
use margo_hello_world.Common.{
  String, List, [], ◌∷◌, Bool, true, Option, none, some, ◌⊎◌, inl, inr, ◌≡◌, refl, arith,
  Option-cases, Bool-cases, any,
}
use margo_hello_world.Model.{DeploymentStatus, DeploymentState, DeploymentComponent}
use margo_hello_world.Status.{
  Database, after_statement, save_components, in_transaction, save_deployment_status,
}
use margo_hello_world.Ent.{deployment_status_schema}
use margo_hello_world.Ent.Mutation.{set_value, new_mutation, op_update, is_some}
use margo_hello_world.Ent.Create.{Driver, Fresh, id_eq, save, sql_save}
use margo_hello_world.Ent.Update.{save_update}
use margo_hello_world.Ent.Client.{set_state_of, save_component, save_status, update_component_rows}
use margo_hello_world.Ent.Client.Sql.{no_count}
use margo_hello_world.Ent.Client.Checked.{checked_name, bad_name}

-- What package uuid and the transactions yield.
pub record Transactions (W : Type 0) : Type 0 where
  pub parse : String → String ⊎ String
  pub begins : W → Option String
  pub commits : W → Option String
  pub rolls_back : Option String

module _ {W : Type 0} (D : Driver W) (validator : String → Option String) (fresh : W → Fresh)
    (tx : Transactions W) where
  -- The update of the state in UpdateDeploymentStatus, which sets the time itself.
  unfoldable pub update_status_now : String → DeploymentState → W → W × Option String
  unfolding save_update set_value set_state_of new_mutation no_count
  update_status_now id s w = no_count D validator fresh (
      save_update validator D deployment_status_schema (fresh w) (id_eq id ∷ [])
        (set_value "updated_at" ((fresh w).clock "updated_at")
          (set_state_of s.state s.error (new_mutation op_update)))
        w)

  -- The statements of the central orchestrator, made with the generated client.
  abbrev pub database : Database
  database = record {
    Rows = W;
    parse_uuid = tx.parse;
    begin = tx.begins;
    create_status = save_status D validator fresh;
    create_component = λ id c w. save_component D validator fresh (some id) c w;
    update_status = update_status_now;
    update_components =
        λ ps c w. no_count D validator fresh (update_component_rows D validator fresh ps c w);
    commit_error = tx.commits;
    rollback_error = tx.rolls_back;
  }

  abbrev is_refused : DeploymentComponent → Bool
  is_refused c = is_some (validator c.name)

  refused_component :
      (id : String) (c : DeploymentComponent) (w : W)
      → is_refused c ≡ true
      → (e : String) × (save_component D validator fresh (some id) c w ≡ (w, some e))
  unfolding save_component save sql_save
  refused_component id c w h = elim (Option-cases (validator c.name)) [
    | inl q ↦ ground (arith, q)
    | inr (e, q) ↦
        (bad_name e, rw (sql_save, checked_name validator (fresh w) (some id) c e q) refl)
  ]

  either_fails :
      (before : W) (o : W × Option String) (next : W → W × Option String)
      → ((w : W) → next w ≡ (before, tx.rolls_back))
      → after_statement database before o next ≡ (before, tx.rolls_back)
  unfolding after_statement
  either_fails before (w, none) next h = h w
  either_fails before (w, some e) next h = refl

  components_fail :
      (id : String) (before : W) (cs : List DeploymentComponent) (w : W)
      → any is_refused cs ≡ true
      → save_components database id before cs w ≡ (before, tx.rolls_back)
  unfolding save_components after_statement
  components_fail id before [] w h = ground (arith, h)
  components_fail id before (c ∷ cs) w h = elim (Bool-cases (is_refused c)) [
    | inl r ↦
        let (e, q) = refused_component id c w r in rw (save_components, q, after_statement) refl
    | inr r ↦
        either_fails before (save_component D validator fresh (some id) c w)
          (save_components database id before cs)
          (λ w'. components_fail id before cs w' (ground (arith, r, h)))
  ]

  -- When the id of a status parses and its transaction begins, and the validator refuses the name
  -- of one of its components, SaveDeploymentStatus over the generated client leaves the database
  -- as it was and returns what the rollback does, whatever the database answers to the statements
  -- before.
  pub refused_name_rolls_back :
      (ds : DeploymentStatus) (id : String) (w : W)
      → tx.parse ds.deployment_id ≡ inr id
      → tx.begins w ≡ none
      → any (λ c. is_some (validator c.name)) ds.components ≡ true
      → save_deployment_status database ds w ≡ (w, tx.rolls_back)
  unfolding save_deployment_status in_transaction
  refused_name_rolls_back ds id w parsed begun refused =
      rw (in_transaction, parsed, begun)
        (either_fails w (save_status D validator fresh id ds.status w)
          (save_components database id w ds.components)
          (λ w'. components_fail id w ds.components w' refused))
