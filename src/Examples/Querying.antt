-- ===== src/Examples/Querying.antt =====
-- The query of the deployments over two tables kept as lists: three components of two deployments.
use margo_hello_world.Common.{String, List, [], ◌∷◌, none, some, words, inr, keep, ◌≡◌, refl}
use margo_hello_world.Status.Listing.{listed, shown_deployments, get_deployments_status}
use margo_hello_world.Ent.Query.{StatusColumns, ComponentColumns, Queries, all_with_components}
use margo_hello_world.Ent.Query.Attached.{belongs_in}
use margo_hello_world.Ent.Query.Joined.{join, all_with_components-join}

abbrev Tables : Type 0
Tables = List StatusColumns × List ComponentColumns

abbrev status_of : String → StatusColumns
status_of id = record {
  id = id;
  state = some "installed";
  error_code = none;
  error_message = some "";
}

abbrev component_of : String → String → String → ComponentColumns
component_of id name of = record {
  id = id;
  name = some name;
  state = none;
  error_code = some "E1";
  error_message = none;
  foreign_key = some of;
}

abbrev statuses : List StatusColumns
statuses = status_of "d1" ∷ status_of "d2" ∷ []

abbrev components : List ComponentColumns
components =
    component_of "c1" "web" "d2"
    ∷ component_of "c2" "db" "d1"
    ∷ component_of "c3" "cache" "d2"
    ∷ component_of "c4" "gone" "d3"
    ∷ []

abbrev queries : Queries Tables
queries = record {
  statuses = λ w. inr w.0;
  components_in = λ ids w. inr (keep (belongs_in ids) w.1);
}

all_with_components-join_example :
    get_deployments_status (all_with_components queries (statuses, components))
    ≡ listed 200 (shown_deployments (join statuses components))
all_with_components-join_example =
    all_with_components-join queries (statuses, components) components statuses refl
      (refl, (refl, tt)) refl
