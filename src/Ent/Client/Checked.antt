-- ===== src/Ent/Client/Checked.antt =====
-- ent/deploymentcomponentstatus_create.go: the check of the mutation of a component that the program
-- creates.
use margo_hello_world.Common.{String, [], ◌∷◌, Option, none, some, ◌≡◌, refl}
use margo_hello_world.Common.Texts.{concat}
use margo_hello_world.Common.Dict.{lookup, insert}
use margo_hello_world.Model.{DeploymentComponent}
use margo_hello_world.Ent.{component_status_schema}
use margo_hello_world.Ent.Mutation.{new_mutation}
use margo_hello_world.Ent.Create.{
  Fresh, defaults, default_fields, check, check_fields, check_field, refusal,
}
use margo_hello_world.Ent.Client.{set_state_of, component_create}

abbrev pub no_edge : String
no_edge = "ent: missing required edge \"DeploymentComponentStatus.deployment\""

abbrev pub bad_name : String → String
bad_name e =
    concat ("ent: validator failed for field \"DeploymentComponentStatus.name\": " ∷ e ∷ [])

module _ (validator : String → Option String) (fr : Fresh) where
  abbrev pub checked : Option String → DeploymentComponent → Option String
  checked edge c =
      check validator component_status_schema
        (defaults component_status_schema fr (component_create edge c))

  pub checked_name :
      (edge : Option String) (c : DeploymentComponent) (e : String)
      → validator c.name ≡ some e
      → checked edge c ≡ some (bad_name e)
  unfolding check check_fields check_field refusal defaults default_fields component_create
      component_status_schema set_state_of new_mutation lookup insert concat
  checked_name none c e h = rw h refl
  checked_name (some id) c e h = rw h refl

  pub checked_edge :
      (c : DeploymentComponent) → validator c.name ≡ none → checked none c ≡ some no_edge
  unfolding check check_fields check_field refusal defaults default_fields component_create
      component_status_schema set_state_of new_mutation lookup insert concat
  checked_edge c h = rw h refl
