-- ===== src/Ent/Query/Attached.antt =====
-- What the loop of ent/deploymentstatus_query.go over the components makes of the deployments.
use margo_hello_world.Common.{
  String, List, [], ◌∷◌, ◌++◌, Bool, true, false, none, some, ◌==◌, words, if◌then◌else◌, inl, inr,
  map, keep, mem, All, ◌≡◌, refl, sym, ap, ◌∙◌, arith, Bool-cases, Option-cases, eq_iff,
}
use mathlib.Core.List.{append_assoc, append-nil}
use margo_hello_world.Status.Listing.{ComponentState, DeploymentRow}
use margo_hello_world.Ent.Query.{
  ComponentColumns, assign_component, attach, assign_to, assign_neighbor, assign_neighbors,
}

abbrev pub id_of : DeploymentRow → String
id_of d = d.id

-- A component belongs to a deployment by its foreign key.
abbrev pub belongs_to : String → ComponentColumns → Bool
belongs_to id c = elim c.foreign_key [ none ↦ false | some fk ↦ fk == id ]

abbrev pub belongs_in : List String → ComponentColumns → Bool
belongs_in ids c = elim c.foreign_key [ none ↦ false | some fk ↦ mem fk ids ]

-- A deployment with the components of a list that belong to it, after those it has.
abbrev pub joined : List ComponentColumns → DeploymentRow → DeploymentRow
joined cs d = record d {
  components = d.components ++ map assign_component (keep (belongs_to d.id) cs);
}

-- No id stands twice.
abbrev pub DistinctIds : List String → Type 0
DistinctIds [] = Unit
DistinctIds (x ∷ xs) = (mem x xs ≡ false) × DistinctIds xs

abbrev attach_if : String → ComponentState → DeploymentRow → DeploymentRow
attach_if fk e d = if d.id == fk then attach e d else d

attach_missing :
    (fk : String) (e : ComponentState) (nodes : List DeploymentRow)
    → mem fk (map id_of nodes) ≡ false
    → (assign_to fk e nodes ≡ none) × (map (attach_if fk e) nodes ≡ nodes)
unfolding assign_to
attach_missing fk e [] m = (refl, refl)
attach_missing fk e (n ∷ nodes) m =
    let (later, same) = attach_missing fk e nodes (ground (arith, m)) in
    let here : n.id == fk ≡ false = ground (arith, m) in
    (rw (later, assign_to) (rw here refl), rw (here, same) refl)

attach_found :
    (fk : String) (e : ComponentState) (nodes : List DeploymentRow)
    → DistinctIds (map id_of nodes)
    → mem fk (map id_of nodes) ≡ true
    → assign_to fk e nodes ≡ some (map (attach_if fk e) nodes)
unfolding assign_to
attach_found fk e [] d m = cc
attach_found fk e (n ∷ nodes) d m = elim (Bool-cases (n.id == fk)) [
  | inr q ↦ rw (attach_found fk e nodes d.1 (ground (arith, m, q)), assign_to) (rw q refl)
  | inl q ↦
      let gone : mem fk (map id_of nodes) ≡ false =
        ap (λ x. mem x (map id_of nodes)) (sym ((eq_iff n.id fk).0 q)) ∙ d.0 in
      let (later, same) = attach_missing fk e nodes gone in
      rw (later, assign_to) (rw (q, same) refl)
]

joined_nil : (nodes : List DeploymentRow) → map (joined []) nodes ≡ nodes
joined_nil [] = refl
joined_nil (n ∷ nodes) = rw (append-nil n.components, joined_nil nodes) refl

ids_kept :
    (fk : String) (e : ComponentState) (nodes : List DeploymentRow)
    → map id_of (map (attach_if fk e) nodes) ≡ map id_of nodes
ids_kept fk e [] = refl
ids_kept fk e (n ∷ nodes) = elim (Bool-cases (n.id == fk)) [
  | inl q ↦ rw (q, ids_kept fk e nodes) refl
  | inr q ↦ rw (q, ids_kept fk e nodes) refl
]

belongs_flip :
    (fk : String) (c : ComponentColumns) (d : DeploymentRow)
    → c.foreign_key ≡ some fk
    → belongs_to d.id c ≡ (d.id == fk)
belongs_flip fk c d h = rw h (ground (arith, eq_iff fk d.id, eq_iff d.id fk))

joined_step :
    (fk : String) (c : ComponentColumns) (cs : List ComponentColumns) (d : DeploymentRow)
    → c.foreign_key ≡ some fk
    → joined cs (attach_if fk (assign_component c) d) ≡ joined (c ∷ cs) d
joined_step fk c cs d h = elim (Bool-cases (d.id == fk)) [
  | inr q ↦ rw (q, belongs_flip fk c d h, q) refl
  | inl q ↦
      rw (q, belongs_flip fk c d h, q)
        (ap (λ xs. record d { components = xs })
          (append_assoc d.components (assign_component c ∷ [])
            (map assign_component (keep (belongs_to d.id) cs))))
]

joined_steps :
    (fk : String) (c : ComponentColumns) (cs : List ComponentColumns) (nodes : List DeploymentRow)
    → c.foreign_key ≡ some fk
    → map (joined cs) (map (attach_if fk (assign_component c)) nodes) ≡ map (joined (c ∷ cs)) nodes
joined_steps fk c cs [] h = refl
joined_steps fk c cs (n ∷ nodes) h =
    ap (λ x. x ∷ map (joined cs) (map (attach_if fk (assign_component c)) nodes))
      (joined_step fk c cs n h)
    ∙ ap (λ xs. joined (c ∷ cs) n ∷ xs) (joined_steps fk c cs nodes h)

neighbor_found :
    (fk : String) (c : ComponentColumns) (nodes : List DeploymentRow)
    → c.foreign_key ≡ some fk
    → DistinctIds (map id_of nodes)
    → mem fk (map id_of nodes) ≡ true
    → assign_neighbor c nodes ≡ inr (map (attach_if fk (assign_component c)) nodes)
unfolding assign_neighbor
neighbor_found fk c nodes h d m =
    rw (assign_neighbor, h) (rw (attach_found fk (assign_component c) nodes d m) refl)

pub assign_neighbors-joined :
    (cs : List ComponentColumns) (nodes : List DeploymentRow)
    → DistinctIds (map id_of nodes)
    → All (λ c. belongs_in (map id_of nodes) c ≡ true) cs
    → assign_neighbors cs nodes ≡ inr (map (joined cs) nodes)
unfolding assign_neighbors
assign_neighbors-joined [] nodes d a = ap inr (sym (joined_nil nodes))
assign_neighbors-joined (c ∷ cs) nodes d (here, later) = elim (Option-cases c.foreign_key) [
  | inl q ↦ absurd (ground (arith, here, q))
  | inr (fk, q) ↦
      let e = assign_component c in
      let found : mem fk (map id_of nodes) ≡ true = ground (arith, here, q) in
      let same = ids_kept fk e nodes in
      let rest =
        assign_neighbors-joined cs (map (attach_if fk e) nodes) (rw same d) (rw same later) in
      rw (neighbor_found fk c nodes q d found, assign_neighbors)
        (rest ∙ ap inr (joined_steps fk c cs nodes q))
]
