-- ===== src/Ent/Upsert/Heartbeats.antt =====
-- CreateEdgeNode of internal/orchestrator/db.go over the insertion of ent/host_create.go: what a
-- heartbeat makes of the row of its node.
use margo_hello_world.Common.{
  String, List, [], ◌∷◌, not, Option, none, some, ◌==◌, words, if◌then◌else◌, ◌⊎◌, inl, inr, keep,
  mem, length, ◌≤◌, ◌≡◌, refl, sym, ◌∙◌, arith, Bool-cases, Sum-cases, Option-cases, eq_iff,
}
use margo_hello_world.Common.Dict.{Dict, lookup}
use margo_hello_world.Ent.Mutation.{Value}
use margo_hello_world.Ent.Create.{string_value}
use margo_hello_world.Ent.Upsert.{CreateNode, ignore_id, host_spec, exec, host_create, client_hosts}
use margo_hello_world.Ent.Upsert.Built.{given, ready, ready-proposed, exec-none, exec-some}
use margo_hello_world.Ent.Upsert.Sql.{uuid_value, proposed, has_value, or_value, IsUpsert}
use margo_hello_world.Health.{HealthMsg, HostRow, host_row, create_edge_node}

at_most_one : {A : Type 0} → (xs : List A) → length xs ≤ 1 → (xs ≡ []) ⊎ ((x : A) × (xs ≡ x ∷ []))
at_most_one [] b = inl refl
at_most_one (x ∷ []) b = inr (x, refl)
at_most_one (x ∷ y ∷ ys) b = ground (arith, b)

or_none : (o : Option Value) → o ≡ or_value o none
or_none none = refl
or_none (some v) = refl

module _ (column : String) (v : Value) (d : Dict Value) (no_id : lookup "id" d ≡ none) where
  over_id :
      lookup column (("id", v) ∷ d) ≡ or_value (lookup column d) (lookup column (("id", v) ∷ []))
  unfolding lookup
  over_id = elim (Bool-cases ("id" == column)) [
    | inl q ↦ rw (q, sym ((eq_iff "id" column).0 q), no_id) refl
    | inr q ↦ rw q (or_none (lookup column d))
  ]

  id_ignored :
      (old : Option Value)
      → (if mem column ("id" ∷ []) then old else or_value (lookup column (("id", v) ∷ d)) old)
        ≡ or_value (lookup column d) old
  unfolding lookup
  id_ignored old = elim (Bool-cases ("id" == column)) [
    | inl q ↦ rw (q, sym ((eq_iff "id" column).0 q), no_id) refl
    | inr q ↦ rw q refl
  ]

-- The row that a heartbeat finds, or one that has an id alone.
abbrev pub prior : List (Dict Value) → String → Dict Value
prior [] id = ("id", uuid_value id) ∷ []
prior (r ∷ _) id = r

-- The rows of a node, and those of the other nodes.
abbrev pub of_node : String → List (Dict Value) → List (Dict Value)
of_node id rows = keep (has_value "host_id" id) rows

abbrev pub of_others : String → List (Dict Value) → List (Dict Value)
of_others id rows = keep (λ r. not (has_value "host_id" id r)) rows

module _ {Number W : Type 0} (D : CreateNode W) (new_id : W → String)
    (float : Number → String) where
  module _ (rows : W → List (Dict Value)) (U : IsUpsert D rows) where
    -- The row of a node after a statement that returns no error.
    written_row :
        (h : HostRow Number) (w : W)
        → (D (host_spec (ready D new_id float h (new_id w))) w).1 ≡ none
        → length (of_node h.host_id (rows w)) ≤ 1
        → (r : Dict Value) × (of_node h.host_id
              (rows (D (host_spec (ready D new_id float h (new_id w))) w).0)
            ≡ r ∷ [])
          × ((column : String)
              → lookup column r
                ≡ or_value
                    (lookup column (given float h))
                    (lookup column (prior (of_node h.host_id (rows w)) (new_id w))))
    unfolding lookup
    written_row h w accepted one =
        let id = new_id w in
        let spec = host_spec (ready D new_id float h id) in
        let (row, on, ignored, _) = ready-proposed D new_id float h id in
        let v = string_value h.host_id in
        let named : lookup "host_id" (proposed spec) ≡ some v = rw row refl in
        elim (at_most_one (of_node h.host_id (rows w)) one) [
          | inl none_found ↦ (
            proposed spec,
            U.inserted spec w ignore_id "host_id" v accepted on named none_found,
            λ column. rw (row, none_found) (over_id column (uuid_value id) (given float h) refl),
          )
          | inr (r, found) ↦
              let (r', one', written) =
                U.replaced spec w ignore_id "host_id" v ("id" ∷ []) r accepted on ignored named
                  found in
              (
                r',
                one',
                λ column.
                    written column
                    ∙ rw (row, found)
                        (id_ignored column (uuid_value id) (given float h) refl (lookup column r)),
              )
        ]

    pub exec_outcome :
        (h : HostRow Number) (w : W)
        → length (of_node h.host_id (rows w)) ≤ 1
        → let result = exec D new_id (host_create D new_id float h) w in
          ((e : String) × (result.1 ≡ some e) × (rows result.0 ≡ rows w))
          ⊎ ((r : Dict Value) × (result.1 ≡ none)
              × (of_others h.host_id (rows result.0) ≡ of_others h.host_id (rows w))
              × (of_node h.host_id (rows result.0) ≡ r ∷ [])
              × ((column : String)
                  → lookup column r
                    ≡ or_value
                        (lookup column (given float h))
                        (lookup column (prior (of_node h.host_id (rows w)) (new_id w)))))
    unfolding lookup
    exec_outcome h w one =
        let id = new_id w in
        let spec = host_spec (ready D new_id float h id) in
        let (row, on, _, _) = ready-proposed D new_id float h id in
        let v = string_value h.host_id in
        let named : lookup "host_id" (proposed spec) ≡ some v = rw row refl in
        elim (Option-cases (D spec w).1) [
          | inl accepted ↦
              let (r, one', written) = written_row h w accepted one in
              let done = exec-none D new_id float h w accepted in
              let kept = U.others_kept spec w ignore_id "host_id" v accepted on named in
              inr (r, rw done refl, rw done kept, rw done one', written)
          | inr (e, failed) ↦
              let (message, done) = exec-some D new_id float h w e failed in
              inl (message, rw done refl, rw done (U.refused spec w e failed))
        ]

    -- Over a database that inserts with a conflict clause as documented, and that has at most one
    -- row of a node, CreateEdgeNode with a heartbeat of the node either returns an error and
    -- changes no row, or returns none, leaves the rows of the other nodes, and leaves the node one
    -- row: the site as it was parsed, the host id, the runtime, the free cpu, the status and the
    -- time are those of the heartbeat, and the id and every other column are as they were, not the
    -- id made for the insertion; a node without a row gets one with that id and those six columns.
    pub heartbeat_keeps_row :
        (parse_uuid : String → String ⊎ String) (from_hundred : Number → Number) (now : String)
        (h : HealthMsg Number) (w : W)
        → length (of_node h.node_id (rows w)) ≤ 1
        → let H = client_hosts D new_id float parse_uuid from_hundred in
          let result = create_edge_node H now h w in
          ((e : String) × (result.1 ≡ some e) × (rows result.0 ≡ rows w))
          ⊎ ((site : String) × (r : Dict Value) × (parse_uuid h.site_id ≡ inr site)
              × (result.1 ≡ none)
              × (of_others h.node_id (rows result.0) ≡ of_others h.node_id (rows w))
              × (of_node h.node_id (rows result.0) ≡ r ∷ [])
              × ((column : String)
                  → lookup column r
                    ≡ or_value
                        (lookup column (given float (host_row H now site h)))
                        (lookup column (prior (of_node h.node_id (rows w)) (new_id w)))))
    unfolding create_edge_node client_hosts host_row
    heartbeat_keeps_row parse_uuid from_hundred now h w one =
        let H = client_hosts D new_id float parse_uuid from_hundred in
        elim (Sum-cases (parse_uuid h.site_id)) [
          | inl (e, unparsed) ↦
              let stopped : create_edge_node H now h w ≡ (w, some e) = rw unparsed refl in
              inl (e, rw stopped refl, rw stopped refl)
          | inr (site, parsed) ↦
              let row = host_row H now site h in
              let ran : create_edge_node H now h w
                  ≡ exec D new_id (host_create D new_id float row) w =
                rw parsed refl in
              elim (exec_outcome row w one) [
                | inl (e, failed, same) ↦ inl (e, rw ran failed, rw ran same)
                | inr (r, accepted, kept, one', written) ↦
                    inr (site, r, parsed, rw ran accepted, rw ran kept, rw ran one', written)
              ]
        ]
