-- ===== src/Ent/Query.antt =====
-- ent/deploymentstatus_query.go: the query of all deployments with their components, and the rows of
-- ent/deploymentstatus.go and ent/deploymentcomponentstatus.go that it fills. No interceptor, limit
-- or order is set. The library that runs the statements is a parameter.
pub mod Attached
pub mod Joined
use mathlib.Core.Option.{get_or}
use margo_hello_world.Common.{
  String, List, [], ◌∷◌, ◌++◌, Option, none, some, ◌==◌, words, if◌then◌else◌, ◌⊎◌, inl, inr, map,
}
use margo_hello_world.Common.Texts.{concat}
use margo_hello_world.Status.Listing.{ComponentState, DeploymentRow}

-- The columns of a row, `none` being NULL; the times are not shown to anyone.
pub record StatusColumns : Type 0 where
  pub id : String
  pub state : Option String
  pub error_code : Option String
  pub error_message : Option String

pub record ComponentColumns : Type 0 where
  pub id : String
  pub name : Option String
  pub state : Option String
  pub error_code : Option String
  pub error_message : Option String
  -- deployment_status_components
  pub foreign_key : Option String

-- sqlgraph.QueryNodes of the two tables, the second where the foreign key is one of those given.
pub record Queries (W : Type 0) : Type 0 where
  pub statuses : W → String ⊎ List StatusColumns
  pub components_in : List String → W → String ⊎ List ComponentColumns

-- assignValues of DeploymentStatus; NULL leaves the empty text. The edges are empty.
unfoldable pub assign_status : StatusColumns → DeploymentRow
assign_status c = record {
  id = c.id;
  state = get_or c.state "";
  error_code = get_or c.error_code "";
  error_message = get_or c.error_message "";
  components = [];
}

-- assignValues of DeploymentComponentStatus
unfoldable pub assign_component : ComponentColumns → ComponentState
assign_component c = record {
  name = get_or c.name "";
  state = get_or c.state "";
  error_code = get_or c.error_code "";
  error_message = get_or c.error_message "";
}

-- n.Edges.Components = append(n.Edges.Components, e)
abbrev pub attach : ComponentState → DeploymentRow → DeploymentRow
attach e n = record n { components = n.components ++ e ∷ [] }

-- node, ok := nodeids[fk], and assign(node, n): the map holds the last node with an id.
unfoldable pub assign_to :
    String → ComponentState → List DeploymentRow → Option (List DeploymentRow)
assign_to fk e [] = none
assign_to fk e (n ∷ nodes) = elim (assign_to fk e nodes) [
  | some later ↦ some (n ∷ later)
  | none ↦ if n.id == fk then some (attach e n ∷ nodes) else none
]

abbrev pub nil_key : String → String
nil_key id = concat ("foreign-key \"deployment_status_components\" is nil for node " ∷ id ∷ [])

abbrev pub unexpected_key : String → String → String
unexpected_key fk id = concat (
    "unexpected referenced foreign-key \"deployment_status_components\" returned " ∷ fk
    ∷ " for node " ∷ id ∷ [])

-- One round of the loop over the neighbors.
unfoldable pub assign_neighbor : ComponentColumns → List DeploymentRow → String ⊎ List DeploymentRow
unfolding assign_to assign_component
assign_neighbor n nodes = elim n.foreign_key [
  | none ↦ inl (nil_key n.id)
  | some fk ↦ elim (assign_to fk (assign_component n) nodes) [
    | none ↦ inl (unexpected_key fk n.id)
    | some nodes' ↦ inr nodes'
  ]
]

unfoldable pub assign_neighbors :
    List ComponentColumns → List DeploymentRow → String ⊎ List DeploymentRow
unfolding assign_neighbor
assign_neighbors [] nodes = inr nodes
assign_neighbors (n ∷ ns) nodes = elim (assign_neighbor n nodes) [
  | inl e ↦ inl e
  | inr nodes' ↦ assign_neighbors ns nodes'
]

-- loadComponents
unfoldable pub load_components :
    String ⊎ List ComponentColumns → List DeploymentRow → String ⊎ List DeploymentRow
unfolding assign_neighbors
load_components (inl e) nodes = inl e
load_components (inr neighbors) nodes = assign_neighbors neighbors nodes

module _ {W : Type 0} (Q : Queries W) where
  -- The end of sqlAll: with no node there is no second query.
  unfoldable pub load_edges : List DeploymentRow → W → String ⊎ List DeploymentRow
  unfolding load_components
  load_edges [] w = inr []
  load_edges (n ∷ ns) w =
      load_components (Q.components_in (map (λ (d : DeploymentRow). d.id) (n ∷ ns)) w) (n ∷ ns)

  -- Query().WithComponents().All(ctx)
  unfoldable pub all_with_components : W → String ⊎ List DeploymentRow
  unfolding load_edges assign_status
  all_with_components w = elim (Q.statuses w) [
    | inl e ↦ inl e
    | inr rows ↦ load_edges (map assign_status rows) w
  ]
