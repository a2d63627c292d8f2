-- ===== src/Status/Listing.antt =====
-- GetDeploymentsStatus of internal/api/handlers/deploystatus.go: the states of all deployments.
use margo_hello_world.Common.{ℕ, String, List, [], ◌∷◌, ◌⊎◌, inl, inr}

-- The rows of ent.DeploymentComponentStatus and ent.DeploymentStatus, the latter with the former.
pub record ComponentState : Type 0 where
  pub name : String
  pub state : String
  pub error_code : String
  pub error_message : String

pub record DeploymentRow : Type 0 where
  pub id : String
  pub state : String
  pub error_code : String
  pub error_message : String
  pub components : List ComponentState

-- A gin.H with texts; that of a deployment holds those of its components.
pub record ShownDeployment : Type 0 where
  pub fields : List (String × String)
  pub components : List (List (String × String))

unfoldable pub shown_components : List ComponentState → List (List (String × String))
shown_components [] = []
shown_components (c ∷ cs) =
    (("name", c.name)
      ∷ ("state", c.state)
      ∷ ("errorCode", c.error_code)
      ∷ ("errorMessage", c.error_message)
      ∷ [])
    ∷ shown_components cs

unfoldable pub shown_deployments : List DeploymentRow → List ShownDeployment
unfolding shown_components
shown_deployments [] = []
shown_deployments (d ∷ ds) =
    record {
      fields =
          ("id", d.id)
          ∷ ("deploymentID", d.id)
          ∷ ("state", d.state)
          ∷ ("errorCode", d.error_code)
          ∷ ("errorMessage", d.error_message)
          ∷ [];
      components = shown_components d.components;
    }
    ∷ shown_deployments ds

-- The response: its status, with an error and its details, or the deployments.
pub data Listing : Type 0 where
  not_listed : ℕ → String → String → Listing
  listed : ℕ → List ShownDeployment → Listing

-- GetDeploymentsStatus, of what the query answers
unfoldable pub get_deployments_status : String ⊎ List DeploymentRow → Listing
unfolding shown_deployments
get_deployments_status (inl e) = not_listed 500 "failed to fetch deployment statuses" e
get_deployments_status (inr ds) = listed 200 (shown_deployments ds)
