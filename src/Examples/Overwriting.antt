-- ===== src/Examples/Overwriting.antt =====
-- A database of components, each with its deployment, and two deployments with a component-0.
use margo_hello_world.Common.{
  String, List, [], ◌∷◌, Option, none, some, ◌≡◌, refl, ◌==◌, words, if◌then◌else◌, ◌&&◌, inr, inl,
  Bool-cases, ap, ◌∙◌, arith, eq_iff,
}
use margo_hello_world.Model.{DeploymentStatus, DeploymentComponent, no_error}
use margo_hello_world.Ent.Create.{Predicate}
use margo_hello_world.Status.{Database, update_deployment_status}
use margo_hello_world.Status.Others.{all_hold, Shown, replaced, others_overwritten}

abbrev Row : Type 0
Row = String × String × String

abbrev set_state : List Predicate → DeploymentComponent → List Row → List Row
set_state ps c [] = []
set_state ps c ((d, n, s) ∷ rows) =
    let rest = set_state ps c rows in
    if all_hold ps "u1" d n then (d, n, c.state) ∷ rest else (d, n, s) ∷ rest

abbrev state_of : List Row → String → String → Option String
state_of [] d n = none
state_of ((e, m, s) ∷ rows) d n =
    let rest = state_of rows d n in if e == d && m == n then some s else rest

abbrev database : Database
database = record {
  Rows = List Row;
  parse_uuid = λ text. inr text;
  begin = λ rows. none;
  create_status = λ id state rows. (rows, none);
  create_component = λ id c rows. ((id, c.name, c.state) ∷ rows, none);
  update_status = λ id state rows. (rows, none);
  update_components = λ ps c rows. (set_state ps c rows, none);
  commit_error = λ rows. none;
  rollback_error = none;
}

set_state_shown :
    (ps : List Predicate) (c : DeploymentComponent) (rows : List Row) (d n : String)
    → state_of (set_state ps c rows) d n
      ≡ (if all_hold ps "u1" d n then replaced c.state (state_of rows d n) else state_of rows d n)
set_state_shown ps c [] d n = ground arith
set_state_shown ps c ((e, m, s) ∷ rows) d n =
    let rest = set_state_shown ps c rows d n in
    elim (Bool-cases (e == d)) [
      | inr q ↦ ground (arith, rest, q)
      | inl q ↦ elim (Bool-cases (m == n)) [
        | inr r ↦ ground (arith, rest, q, r)
        | inl r ↦
            let here = ap (λ x. all_hold ps "u1" x m) ((eq_iff e d).0 q) in
            let there = ap (λ x. all_hold ps "u1" d x) ((eq_iff m n).0 r) in
            ground (arith, rest, q, r, here ∙ there)
      ]
    ]

abbrev shown : Shown database
shown = record {
  state_of = state_of;
  id_of = λ rows d n. "u1";
  state-update_status = λ id ds rows d n. refl;
  state-update_components = λ ps c rows d n h. set_state_shown ps c rows d n;
}

abbrev component : DeploymentComponent
component = record { name = "component-0"; state = "failed"; error = no_error }

abbrev report : DeploymentStatus
report = record {
  api_version = "deployment.margo/v1";
  kind = "DeploymentStatus";
  deployment_id = "d1";
  status = record { state = "failed"; error = no_error };
  components = component ∷ [];
}

abbrev rows : List Row
rows = ("d1", "component-0", "pending") ∷ ("d2", "component-0", "installed") ∷ []

others_overwritten_example :
    state_of (update_deployment_status database report rows).0 "d2" "component-0" ≡ some "failed"
others_overwritten_example =
    others_overwritten database shown "d1" report component rows "d2" "installed" refl refl refl
      refl refl (λ r. refl) refl
