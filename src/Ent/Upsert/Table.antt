-- ===== src/Ent/Upsert/Table.antt =====
-- The table of hosts that internal/orchestrator keeps through ent/host_create.go.
use margo_hello_world.Common.{
  String, List, [], ◌∷◌, Bool, true, false, not, Option, none, some, ◌==◌, words, inl, inr, map,
  keep, length, ◌≤◌, ◌≡◌, ◌≢◌, refl, sym, ap, ◌∙◌, arith, Bool-cases, Option-cases, eq_iff,
}
use margo_hello_world.Common.Dict.{Dict, lookup}
use margo_hello_world.Ent.Mutation.{Value, is_some}
use margo_hello_world.Ent.Upsert.{CreateNode, exec, host_create}
use margo_hello_world.Ent.Upsert.Sql.{has_value-none, has_value-some, has_value, or_value, IsUpsert}
use margo_hello_world.Ent.Upsert.Built.{given}
use margo_hello_world.Ent.Upsert.Heartbeats.{prior, of_node, of_others, exec_outcome}
use margo_hello_world.Health.{HostRow}
use margo_hello_world.Health.Reached.{is_of}

abbrev text_of : Option Value → String
text_of none = ""
text_of (some v) = v.content

-- A row as the builder of a host is given it; a number is its text.
unfoldable pub row_of : Dict Value → HostRow String
row_of r = record {
  host_id = text_of (lookup "host_id" r);
  site_id = text_of (lookup "site_id" r);
  runtime = text_of (lookup "runtime" r);
  cpu_free = text_of (lookup "cpu_free" r);
  status = text_of (lookup "status" r);
  last_heartbeat = text_of (lookup "last_heartbeat" r);
}

abbrev is_named : Dict Value → Bool
is_named r = is_some (lookup "host_id" r)

abbrev pub host_rows : List (Dict Value) → List (HostRow String)
host_rows rows = map row_of (keep is_named rows)

module _ {A : Type 0} (p : A → Bool) (x : A) (xs : List A) where
  keep_yes : p x ≡ true → keep p (x ∷ xs) ≡ x ∷ keep p xs
  keep_yes h = rw h refl

  keep_no : p x ≡ false → keep p (x ∷ xs) ≡ keep p xs
  keep_no h = rw h refl

pub host_rows-of_node :
    (id : String) (rows : List (Dict Value))
    → keep (is_of id) (host_rows rows) ≡ map row_of (of_node id rows)
unfolding row_of
host_rows-of_node id [] = refl
host_rows-of_node id (r ∷ rows) =
    let rest = host_rows-of_node id rows in
    elim (Option-cases (lookup "host_id" r)) [
      | inl e ↦
          let other = keep_no (has_value "host_id" id) r rows (has_value-none "host_id" id r e) in
          let unnamed = keep_no is_named r rows (ap is_some e) in rw (unnamed, other) rest
      | inr (v, e) ↦
          let named = keep_yes is_named r rows (ap is_some e) in
          let there = has_value-some "host_id" id r v e in
          let here : is_of id (row_of r) ≡ (v.content == id) = ap (λ o. text_of o == id) e in
          elim (Bool-cases (v.content == id)) [
            | inl q ↦
                ap (λ rs. keep (is_of id) (map row_of rs)) named
                ∙ keep_yes (is_of id) (row_of r) (host_rows rows) (here ∙ q)
                ∙ ap (◌∷◌ (row_of r)) rest
                ∙ sym (ap (map row_of) (keep_yes (has_value "host_id" id) r rows (there ∙ q)))
            | inr q ↦
                ap (λ rs. keep (is_of id) (map row_of rs)) named
                ∙ keep_no (is_of id) (row_of r) (host_rows rows) (here ∙ q)
                ∙ rest
                ∙ sym (ap (map row_of) (keep_no (has_value "host_id" id) r rows (there ∙ q)))
          ]
    ]

keep_apart :
    {A : Type 0}
    → (p q : A → Bool) (xs : List A) → ((x : A) → p x ≡ true → q x ≡ false)
    → keep p (keep (λ x. not (q x)) xs) ≡ keep p xs
keep_apart p q [] apart = refl
keep_apart p q (x ∷ xs) apart =
    let rest = keep_apart p q xs apart in
    elim (Bool-cases (p x)) [
      | inl e ↦ rw (apart x e, e) (ap (◌∷◌ x) rest)
      | inr e ↦ elim (Bool-cases (q x)) [ inl f ↦ rw (f, e) rest | inr f ↦ rw (f, e) rest ]
    ]

differ : (a b : String) → a ≢ b → a == b ≡ false
differ a b n = elim (Bool-cases (a == b)) [ inl e ↦ absurd (n ((eq_iff a b).0 e)) | inr e ↦ e ]

-- Who is one node is not another.
one_name :
    (id other : String) (r : Dict Value)
    → id ≢ other
    → has_value "host_id" id r ≡ true
    → has_value "host_id" other r ≡ false
one_name id other r n h = elim (Option-cases (lookup "host_id" r)) [
  | inl e ↦ has_value-none "host_id" other r e
  | inr (v, e) ↦
      let mine : v.content == id ≡ true = sym (has_value-some "host_id" id r v e) ∙ h in
      has_value-some "host_id" other r v e ∙ rw ((eq_iff v.content id).0 mine) (differ id other n)
]

given_row :
    (h : HostRow String) (r old : Dict Value)
    → ((column : String)
        → lookup column r ≡ or_value (lookup column (given (λ x. x) h)) (lookup column old))
    → row_of r ≡ h
unfolding row_of lookup
given_row h r old written =
    rw
      (
        written "host_id",
        written "site_id",
        written "runtime",
        written "cpu_free",
        written "status",
        written "last_heartbeat",
      )
      refl

module _ {W : Type 0} (D : CreateNode W) (new_id : W → String) (rows : W → List (Dict Value)) where
  -- A database that has no node twice.
  abbrev pub IsUnique : W → Type 0
  IsUnique w = (id : String) → length (of_node id (rows w)) ≤ 1

  module _ (U : IsUpsert D rows) where
    abbrev pub after : HostRow String → W → W
    after h w = (exec D new_id (host_create D new_id (λ x. x) h) w).0

    pub inserts :
        (h : HostRow String) (w : W)
        → IsUnique w
        → (of_others h.host_id (rows (after h w)) ≡ of_others h.host_id (rows w))
          × ((exec D new_id (host_create D new_id (λ x. x) h) w).1 ≡ none
              → map row_of (of_node h.host_id (rows (after h w))) ≡ h ∷ [])
          × (length (of_node h.host_id (rows (after h w))) ≤ 1)
    inserts h w unique = elim (exec_outcome D new_id (λ x. x) rows U h w (unique h.host_id)) [
      | inl (e, failed, same) ↦ (
        ap (of_others h.host_id) same,
        (λ accepted. let never : none ≡ some e = sym accepted ∙ failed in cc),
        rw same (unique h.host_id),
      )
      | inr (r, _, kept, one, written) ↦
          let old = prior (of_node h.host_id (rows w)) (new_id w) in
          (
            kept,
            (λ accepted. ap (map row_of) one ∙ ap (λ x. x ∷ []) (given_row h r old written)),
            rw one (omega arith),
          )
    ]

    -- The rows of the other nodes.
    pub inserts_apart :
        (h : HostRow String) (w : W) (id : String)
        → IsUnique w
        → id ≢ h.host_id
        → of_node id (rows (after h w)) ≡ of_node id (rows w)
    inserts_apart h w id unique n =
        let mine = has_value "host_id" id in
        let its = has_value "host_id" h.host_id in
        let apart : (r : Dict Value) → mine r ≡ true → its r ≡ false =
          λ r. one_name id h.host_id r n in
        sym (keep_apart mine its (rows (after h w)) apart)
        ∙ ap (of_node id) (inserts h w unique).0
        ∙ keep_apart mine its (rows w) apart

    pub after-IsUnique : (h : HostRow String) (w : W) → IsUnique w → IsUnique (after h w)
    after-IsUnique h w unique id = elim (Bool-cases (id == h.host_id)) [
      | inl e ↦ rw ((eq_iff id h.host_id).0 e) (inserts h w unique).2
      | inr e ↦
          let n : id ≢ h.host_id = λ p. ground (arith, e, (eq_iff id h.host_id).1 p) in
          rw (inserts_apart h w id unique n) (unique id)
    ]
