-- ===== src/Model.antt =====
-- pkg/model and pkg/deployment: the messages that the three tiers exchange. A Go string is a
-- `String`; a nil slice and an empty slice are both `[]`.
use margo_hello_world.Common.{String, List, Bool, ◌⊎◌, inl, inr}

-- pkg/model/deployment_status.go: the values of DeploymentStage
abbrev pub state_pending : String
state_pending = "pending"

abbrev pub state_installing : String
state_installing = "installing"

abbrev pub state_installed : String
state_installed = "installed"

abbrev pub state_failed : String
state_failed = "failed"

pub record StatusError : Type 0 where
  pub code : String
  pub message : String

abbrev pub no_error : StatusError
no_error = record { code = ""; message = "" }

pub record DeploymentState : Type 0 where
  pub state : String
  pub error : StatusError

pub record DeploymentComponent : Type 0 where
  pub name : String
  pub state : String
  pub error : StatusError

pub record DeploymentStatus : Type 0 where
  pub api_version : String
  pub kind : String
  pub deployment_id : String
  pub status : DeploymentState
  pub components : List DeploymentComponent

-- pkg/deployment/deployment_status.go
pub record DeployRequest : Type 0 where
  pub app_name : String
  pub image : String
  pub token : String
  pub deployment_id : String
  pub git_repo_url : String
  pub wasm_images : List String
  pub container_images : List String
  pub revision : String

pub record DeploymentReport : Type 0 where
  pub deployment_id : String
  pub site_id : String
  pub node_id : String
  pub app_name : String
  pub status : String
  pub message : String
  pub state : String
  pub timestamp : String

abbrev pub status_completed : String
status_completed = "completed"

-- pkg/application/deployment.go
pub record ComponentProperties : Type 0 where
  pub repository : String
  pub revision : String
  pub wait : Bool
  pub timeout : String
  pub package_location : String
  pub key_location : String

-- pkg/deployment/desired_state.go
pub record Component : Type 0 where
  pub name : String
  pub properties : ComponentProperties

pub record DeploymentProfile : Type 0 where
  pub profile_type : String
  pub components : List Component

pub record Target : Type 0 where
  pub pointer : String
  pub components : List String

pub record Parameter : Type 0 where
  pub name : String
  pub value : String
  pub targets : List Target

pub record Annotations : Type 0 where
  pub application_id : String
  pub id : String

pub record Metadata : Type 0 where
  pub name : String
  pub namespace : String
  pub labels : List (String × String)
  pub annotations : Annotations

pub record Spec : Type 0 where
  pub deployment_profile : DeploymentProfile
  pub parameters : List Parameter

pub record ApplicationDeployment : Type 0 where
  pub api_version : String
  pub kind : String
  pub metadata : Metadata
  pub spec : Spec

-- ParseDesiredStateYAML: os.ReadFile and yaml.Unmarshal, each with its error
unfoldable pub parse_desired_state_yaml :
    (String → String ⊎ String)
    → (String → String ⊎ ApplicationDeployment)
    → String
    → String ⊎ ApplicationDeployment
parse_desired_state_yaml read_file unmarshal path = elim (read_file path) [
  | inl e ↦ inl e
  | inr text ↦ unmarshal text
]
