-- ===== src/Description.antt =====
-- pkg/application: the description of an application, as it is read from its margo.yaml. A float64
-- is only passed on, and is the text that it is read from; a nil slice and an empty one are both [].
use margo_hello_world.Common.{String, List, Bool, Option, ◌⊎◌, inl, inr}
use margo_hello_world.Model.{ComponentProperties}

abbrev pub Float64 : Type 0
Float64 = String

-- pkg/application/catalog.go
pub record ApplicationMetadata : Type 0 where
  pub description_file : String
  pub icon : String
  pub license_file : String
  pub release_notes : String
  pub site : String
  pub tagline : String
  pub tags : List String

pub record Author : Type 0 where
  pub name : String
  pub email : String

pub record Organization : Type 0 where
  pub name : String
  pub site : String

pub record Catalog : Type 0 where
  pub application : Option ApplicationMetadata
  pub author : List Author
  pub organization : List Organization

-- pkg/application/deployment.go
pub record CpuInfo : Type 0 where
  pub cores : Float64
  pub architectures : List String

pub record Peripheral : Type 0 where
  pub peripheral_type : String
  pub manufacturer : String
  pub model : String

pub record Interface : Type 0 where
  pub interface_type : String

pub record Resources : Type 0 where
  pub cpu : CpuInfo
  pub memory : String
  pub storage : String
  pub peripherals : List Peripheral
  pub interfaces : List Interface

pub record Component : Type 0 where
  pub name : String
  pub properties : ComponentProperties

pub record DeploymentProfile : Type 0 where
  pub profile_type : String
  pub id : String
  pub description : String
  pub components : List Component
  pub required_resources : Option Resources

-- pkg/application/parameter.go
pub record Target : Type 0 where
  pub pointer : String
  pub components : List String

pub record Parameter : Type 0 where
  pub name : String
  pub value : String
  pub targets : List Target

-- pkg/application/configuration.go
pub record Setting : Type 0 where
  pub parameter : String
  pub name : String
  pub description : String
  pub immutable : Bool
  pub schema : String

pub record Section : Type 0 where
  pub name : String
  pub settings : List Setting

pub record Schema : Type 0 where
  pub name : String
  pub data_type : String
  pub allow_empty : Bool
  pub min_value : Option Float64
  pub max_value : Option Float64

pub record Configuration : Type 0 where
  pub sections : List Section
  pub schema : List Schema

-- pkg/application/description.go
pub record Metadata : Type 0 where
  pub id : String
  pub name : String
  pub description : String
  pub version : String
  pub catalog : Catalog

pub record ApplicationDescription : Type 0 where
  pub api_version : String
  pub kind : String
  pub metadata : Metadata
  pub deployment_profiles : List DeploymentProfile
  pub parameters : List (String × Parameter)
  pub configuration : Option Configuration

-- ParseFromFile: os.Getwd, os.ReadFile and yaml.Unmarshal, each with its error
unfoldable pub parse_from_file :
    String ⊎ String
    → (String → String ⊎ String)
    → (String → String ⊎ ApplicationDescription)
    → String
    → String ⊎ ApplicationDescription
parse_from_file (inl e) read_file unmarshal path = inl e
parse_from_file (inr cwd) read_file unmarshal path = elim (read_file path) [
  | inl e ↦ inl e
  | inr text ↦ unmarshal text
]
