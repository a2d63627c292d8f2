-- ===== src/Ent/Query/Joined.antt =====
-- The query of ent/deploymentstatus_query.go against a join of the two tables.
use mathlib.Core.Option.{get_or}
use margo_hello_world.Common.{
  Option, none, some, String, List, [], ◌∷◌, true, false, ◌==◌, words, inl, inr, map, keep, mem,
  All, ◌≡◌, refl, ap, ◌∙◌, arith, Bool-cases, Option-cases, eq_iff, eq_refl,
}
use margo_hello_world.Status.Listing.{
  ComponentState, DeploymentRow, listed, shown_deployments, get_deployments_status,
}
use margo_hello_world.Ent.Query.{
  StatusColumns, ComponentColumns, Queries, assign_status, assign_component, load_components,
  load_edges, all_with_components,
}
use margo_hello_world.Ent.Query.Attached.{
  id_of, belongs_to, belongs_in, joined, DistinctIds, assign_neighbors-joined,
}

kept_belong :
    (ids : List String) (table : List ComponentColumns)
    → All (λ c. belongs_in ids c ≡ true) (keep (belongs_in ids) table)
kept_belong ids [] = tt
kept_belong ids (c ∷ cs) = elim (Bool-cases (belongs_in ids c)) [
  | inl q ↦ rw q (q, kept_belong ids cs)
  | inr q ↦ rw q (kept_belong ids cs)
]

-- What belongs to one of the ids is among what belongs to any of them.
belongs_also :
    (id : String) (ids : List String) (c : ComponentColumns)
    → mem id ids ≡ true
    → belongs_in ids c ≡ false
    → belongs_to id c ≡ false
belongs_also id ids c m n = elim (Option-cases c.foreign_key) [
  | inl q ↦ rw q refl
  | inr (fk, q) ↦ elim (Bool-cases (fk == id)) [
    | inr f ↦ rw q f
    | inl f ↦
        let there : mem fk ids ≡ true = ap (λ x. mem x ids) ((eq_iff fk id).0 f) ∙ m in
        ground (arith, q, there, n)
  ]
]

keep_belonging :
    (id : String) (ids : List String) (table : List ComponentColumns)
    → mem id ids ≡ true
    → keep (belongs_to id) (keep (belongs_in ids) table) ≡ keep (belongs_to id) table
keep_belonging id ids [] m = refl
keep_belonging id ids (c ∷ cs) m = elim (Bool-cases (belongs_in ids c)) [
  | inr q ↦ rw (q, belongs_also id ids c m q) (keep_belonging id ids cs m)
  | inl q ↦ elim (Bool-cases (belongs_to id c)) [
    | inl f ↦ rw (q, f, keep_belonging id ids cs m) refl
    | inr f ↦ rw (q, f) (keep_belonging id ids cs m)
  ]
]

joined_with_each :
    (table : List ComponentColumns) (ids : List String) (nodes : List DeploymentRow)
    → All (λ (d : DeploymentRow). mem d.id ids ≡ true) nodes
    → map (joined (keep (belongs_in ids) table)) nodes ≡ map (joined table) nodes
joined_with_each table ids [] a = refl
joined_with_each table ids (n ∷ nodes) (m, a) =
    rw (keep_belonging n.id ids table m, joined_with_each table ids nodes a) refl

each_member :
    (nodes : List DeploymentRow) (ids : List String)
    → ((id : String) → mem id (map id_of nodes) ≡ true → mem id ids ≡ true)
    → All (λ (d : DeploymentRow). mem d.id ids ≡ true) nodes
each_member [] ids h = tt
each_member (n ∷ nodes) ids h = (
  h n.id (ground (arith, eq_refl n.id)),
  each_member nodes ids (λ id m. h id (ground (arith, m))),
)

-- A column as it is shown: NULL is the empty text.
abbrev pub column_text : Option String → String
column_text none = ""
column_text (some text) = text

abbrev pub component_shown : ComponentColumns → ComponentState
component_shown c = record {
  name = column_text c.name;
  state = column_text c.state;
  error_code = column_text c.error_code;
  error_message = column_text c.error_message;
}

-- The rows of a table of deployments with those of a table of components.
unfoldable pub join : List StatusColumns → List ComponentColumns → List DeploymentRow
join [] table = []
join (r ∷ rows) table =
    record {
      id = r.id;
      state = column_text r.state;
      error_code = column_text r.error_code;
      error_message = column_text r.error_message;
      components = map component_shown (keep (belongs_to r.id) table);
    }
    ∷ join rows table

get_or-column_text : (o : Option String) → get_or o "" ≡ column_text o
get_or-column_text none = refl
get_or-column_text (some text) = refl

assign_component-shown : (c : ComponentColumns) → assign_component c ≡ component_shown c
unfolding assign_component
assign_component-shown c =
    rw
      (
        get_or-column_text c.name,
        get_or-column_text c.state,
        get_or-column_text c.error_code,
        get_or-column_text c.error_message,
      )
      refl

all_shown : (cs : List ComponentColumns) → map assign_component cs ≡ map component_shown cs
all_shown [] = refl
all_shown (c ∷ cs) = rw (assign_component-shown c, all_shown cs) refl

status_ids :
    (rows : List StatusColumns)
    → map id_of (map assign_status rows) ≡ map (λ (r : StatusColumns). r.id) rows
unfolding assign_status
status_ids [] = refl
status_ids (r ∷ rows) = ap (λ xs. r.id ∷ xs) (status_ids rows)

joined-join :
    (rows : List StatusColumns) (table : List ComponentColumns)
    → map (joined table) (map assign_status rows) ≡ join rows table
unfolding join assign_status
joined-join [] table = refl
joined-join (r ∷ rows) table =
    rw
      (
        joined-join rows table,
        all_shown (keep (belongs_to r.id) table),
        get_or-column_text r.state,
        get_or-column_text r.error_code,
        get_or-column_text r.error_message,
      )
      refl

module _ {W : Type 0} (Q : Queries W) (w : W) (table : List ComponentColumns) where
  load_edges-joined :
      (nodes : List DeploymentRow)
      → DistinctIds (map id_of nodes)
      → Q.components_in (map id_of nodes) w ≡ inr (keep (belongs_in (map id_of nodes)) table)
      → load_edges Q nodes w ≡ inr (map (joined table) nodes)
  unfolding load_edges load_components
  load_edges-joined [] d answered = refl
  load_edges-joined (n ∷ nodes) d answered =
      let ids = map id_of (n ∷ nodes) in
      rw (load_edges, answered, load_components)
        (assign_neighbors-joined (keep (belongs_in ids) table) (n ∷ nodes) d (kept_belong ids table)
          ∙ ap inr
              (joined_with_each table ids (n ∷ nodes) (each_member (n ∷ nodes) ids (λ id m. m))))

  -- When the database answers the two queries with the rows of a table of deployments, no id of
  -- which stands twice, and with the rows of a table of components whose foreign key is one of
  -- those ids, then GetDeploymentsStatus over the generated query returns 200 with the join of the
  -- two tables: each deployment with the components that have its id as foreign key, in the order
  -- of the tables.
  pub all_with_components-join :
      (rows : List StatusColumns)
      → let ids = map (λ (r : StatusColumns). r.id) rows in
        Q.statuses w ≡ inr rows
        → DistinctIds ids
        → Q.components_in ids w ≡ inr (keep (belongs_in ids) table)
        → get_deployments_status (all_with_components Q w)
          ≡ listed 200 (shown_deployments (join rows table))
  unfolding all_with_components get_deployments_status
  all_with_components-join rows found distinct answered =
      let same = status_ids rows in
      let loaded =
        load_edges-joined (map assign_status rows) (rw same distinct) (rw same answered) in
      rw (all_with_components, found, loaded, joined-join rows table, get_deployments_status) refl
