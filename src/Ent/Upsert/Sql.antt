-- ===== src/Ent/Upsert/Sql.antt =====
-- The statement of ent/host_create.go as the database documents it: an insertion that, where a row
-- has the value of a column, writes the new values to that row.
use margo_hello_world.Common.{
  ap, String, List, [], ◌∷◌, ◌++◌, Bool, false, not, Option, none, some, ◌==◌, words, if◌then◌else◌,
  map, keep, mem, ◌≡◌,
}
use margo_hello_world.Common.Dict.{Dict, lookup}
use margo_hello_world.Ent.{uuid_type}
use margo_hello_world.Ent.Mutation.{Value}
use margo_hello_world.Ent.Create.{SqlError}
use margo_hello_world.Ent.Upsert.{
  HostMutation, ConflictOption, conflict_columns, resolve_with_new_values, resolve_with, SetCall,
  set_ignore, UpsertSpec, CreateNode,
}

abbrev pub uuid_value : String → Value
uuid_value id = record { held_type = uuid_type; content = id }

abbrev pub one_column : String → Option String → Dict Value
one_column column none = []
one_column column (some id) = (column, uuid_value id) ∷ []

abbrev pub first_site : List String → Option String
first_site [] = none
first_site (s ∷ _) = some s

-- The row that a statement proposes for insertion.
abbrev pub proposed : UpsertSpec → Dict Value
proposed spec =
    one_column "id" spec.id ++ one_column "site_id" (first_site spec.sites) ++ spec.columns

abbrev pub has_value : String → String → Dict Value → Bool
has_value column text r = elim (lookup column r) [ none ↦ false | some v ↦ v.content == text ]

pub has_value-none :
    (column text : String) (r : Dict Value)
    → lookup column r ≡ none
    → has_value column text r ≡ false
has_value-none column text r h = ap (λ o. elim o [ none ↦ false | some u ↦ u.content == text ]) h

pub has_value-some :
    (column text : String) (r : Dict Value) (v : Value)
    → lookup column r ≡ some v
    → has_value column text r ≡ (v.content == text)
has_value-some column text r v h = ap (λ o. elim o [ none ↦ false | some u ↦ u.content == text ]) h

abbrev pub or_value : Option Value → Option Value → Option Value
or_value none old = old
or_value (some v) old = some v

-- ON CONFLICT of a column, with the new values but for some columns.
abbrev pub overwriting : String → (HostMutation → List SetCall) → List ConflictOption
overwriting column f =
    conflict_columns (column ∷ []) ∷ resolve_with_new_values ∷ resolve_with f ∷ []

-- The statement as the database documents it. A column with NULL is missing from a row, and
-- `rows` is what a query of all hosts finds.
pub record IsUpsert {W : Type 0} (D : CreateNode W) (rows : W → List (Dict Value)) : Type 0 where
  pub refused :
      (spec : UpsertSpec) (w : W) (e : SqlError)
      → (D spec w).1 ≡ some e
      → rows (D spec w).0 ≡ rows w
  pub others_kept :
      (spec : UpsertSpec) (w : W) (f : HostMutation → List SetCall) (column : String) (v : Value)
      → (D spec w).1 ≡ none
      → spec.conflict ≡ overwriting column f
      → lookup column (proposed spec) ≡ some v
      → keep (λ r. not (has_value column v.content r)) (rows (D spec w).0)
        ≡ keep (λ r. not (has_value column v.content r)) (rows w)
  pub inserted :
      (spec : UpsertSpec) (w : W) (f : HostMutation → List SetCall) (column : String) (v : Value)
      → (D spec w).1 ≡ none
      → spec.conflict ≡ overwriting column f
      → lookup column (proposed spec) ≡ some v
      → keep (has_value column v.content) (rows w) ≡ []
      → keep (has_value column v.content) (rows (D spec w).0) ≡ proposed spec ∷ []
  pub replaced :
      (spec : UpsertSpec) (w : W) (f : HostMutation → List SetCall) (column : String) (v : Value)
      (ignored : List String) (r : Dict Value)
      → (D spec w).1 ≡ none
      → spec.conflict ≡ overwriting column f
      → f spec.builder ≡ map set_ignore ignored
      → lookup column (proposed spec) ≡ some v
      → keep (has_value column v.content) (rows w) ≡ r ∷ []
      → (r' : Dict Value) × (keep (has_value column v.content) (rows (D spec w).0) ≡ r' ∷ [])
        × ((other : String)
            → lookup other r' ≡ (
                if mem other ignored
                then lookup other r
                else or_value (lookup other (proposed spec)) (lookup other r)))
