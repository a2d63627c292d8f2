-- ===== src/Examples/Hosting.antt =====
-- A table of hosts with the conflict clause of the generated client.
use margo_hello_world.Common.{
  String, List, [], ◌∷◌, ◌++◌, Bool, true, false, not, Option, none, some, ◌==◌, words,
  if◌then◌else◌, inl, inr, map, keep, mem, ◌≡◌, refl, sym, ap, ◌∙◌, arith, Bool-cases, keep-append,
  eq_iff, eq_refl,
}
use mathlib.Core.List.{append-nil}
use margo_hello_world.Common.Dict.{Dict, lookup, insert, lookup-insert}
use margo_hello_world.Ent.Mutation.{Value}
use margo_hello_world.Ent.Create.{SqlError}
use margo_hello_world.Ent.Upsert.{
  HostMutation, ConflictOption, conflict_columns, resolve_with_new_values, resolve_with_ignore,
  do_nothing, resolve_with, SetCall, set_to, set_excluded, set_null, add_to, set_ignore, UpsertSpec,
  CreateNode,
}
use margo_hello_world.Ent.Upsert.Sql.{
  proposed, has_value, or_value, overwriting, IsUpsert, has_value-some,
}

abbrev pub Rows : Type 0
Rows = List (Dict Value)

abbrev first_column : List String → Option String
first_column [] = none
first_column (c ∷ _) = some c

abbrev column_of : List ConflictOption → Option String
column_of [] = none
column_of (conflict_columns cs ∷ _) = first_column cs
column_of (resolve_with_new_values ∷ _) = none
column_of (resolve_with_ignore ∷ _) = none
column_of (do_nothing ∷ _) = none
column_of (resolve_with f ∷ _) = none

abbrev ignored_in : List SetCall → List String
ignored_in [] = []
ignored_in (set_to c v ∷ calls) = ignored_in calls
ignored_in (set_excluded c ∷ calls) = ignored_in calls
ignored_in (set_null c ∷ calls) = ignored_in calls
ignored_in (add_to c v ∷ calls) = ignored_in calls
ignored_in (set_ignore c ∷ calls) = c ∷ ignored_in calls

abbrev ignored_by : List ConflictOption → HostMutation → List String
ignored_by [] m = []
ignored_by (conflict_columns cs ∷ opts) m = ignored_by opts m
ignored_by (resolve_with_new_values ∷ opts) m = ignored_by opts m
ignored_by (resolve_with_ignore ∷ opts) m = ignored_by opts m
ignored_by (do_nothing ∷ opts) m = ignored_by opts m
ignored_by (resolve_with f ∷ opts) m = ignored_in (f m)

-- The new values over a row, but for the ignored columns.
abbrev overwrite : List String → Dict Value → Dict Value → Dict Value
overwrite ignored [] r = r
overwrite ignored (e ∷ row) r =
    let rest = overwrite ignored row r in if mem e.0 ignored then rest else insert e.0 e.1 rest

abbrev new_row : List String → Dict Value → Rows → Dict Value
new_row ignored row [] = row
new_row ignored row (r ∷ _) = overwrite ignored row r

abbrev refusal : SqlError
refusal = record { message = "syntax error"; is_constraint = false; is_not_found = false }

abbrev at_value : String → Option Value → List String → Dict Value → Rows → Rows × Option SqlError
at_value c none ignored row w = (w, some refusal)
at_value c (some v) ignored row w = (
  keep (λ r. not (has_value c v.content r)) w
      ++ new_row ignored row (keep (has_value c v.content) w) ∷ [],
  none,
)

abbrev at_column : Option String → List String → Dict Value → Rows → Rows × Option SqlError
at_column none ignored row w = (w, some refusal)
at_column (some c) ignored row w = at_value c (lookup c row) ignored row w

unfoldable pub database : CreateNode Rows
database spec w =
    at_column (column_of spec.conflict) (ignored_by spec.conflict spec.builder) (proposed spec) w

ignored_in-map : (names : List String) → ignored_in (map set_ignore names) ≡ names
ignored_in-map [] = refl
ignored_in-map (n ∷ names) = ap (◌∷◌ n) (ignored_in-map names)

lookup-overwrite :
    (ignored : List String) (row r : Dict Value) (column : String)
    → lookup column (overwrite ignored row r) ≡ (
        if mem column ignored
        then lookup column r
        else or_value (lookup column row) (lookup column r))
unfolding lookup
lookup-overwrite ignored [] r column = ground arith
lookup-overwrite ignored (e ∷ row) r column =
    let rest = lookup-overwrite ignored row r column in
    let put = lookup-insert e.0 column e.1 (overwrite ignored row r) in
    elim (Bool-cases (e.0 == column)) [
      | inl q ↦
          let same = ap (λ c. mem c ignored) ((eq_iff e.0 column).0 q) in
          ground (arith, rest, put, q, same)
      | inr q ↦ ground (arith, rest, put, q)
    ]

-- A row that was kept passes the test, and the rows that fail it are kept by its opposite.
keep_opposite : (p : Dict Value → Bool) (w : Rows) → keep p (keep (λ r. not (p r)) w) ≡ []
keep_opposite p [] = refl
keep_opposite p (r ∷ w) = elim (Bool-cases (p r)) [
  | inl e ↦ rw e (keep_opposite p w)
  | inr e ↦ rw (e, e) (keep_opposite p w)
]

keep_twice :
    (p : Dict Value → Bool) (w : Rows)
    → keep (λ r. not (p r)) (keep (λ r. not (p r)) w) ≡ keep (λ r. not (p r)) w
keep_twice p [] = refl
keep_twice p (r ∷ w) = elim (Bool-cases (p r)) [
  | inl e ↦ rw e (keep_twice p w)
  | inr e ↦ rw (e, e) (ap (◌∷◌ r) (keep_twice p w))
]

keep_first :
    (p : Dict Value → Bool) (w : Rows) (r : Dict Value) (rs : Rows) → keep p w ≡ r ∷ rs → p r ≡ true
keep_first p [] r rs h = cc
keep_first p (x ∷ w) r rs h = elim (Bool-cases (p x)) [
  | inl e ↦ let here : keep p (x ∷ w) ≡ x ∷ keep p w = rw e refl in cc
  | inr e ↦ let later : keep p (x ∷ w) ≡ keep p w = rw e refl in keep_first p w r rs (sym later ∙ h)
]

module _ (spec : UpsertSpec) (w : Rows) (f : HostMutation → List SetCall) (column : String)
    (v : Value) (on : spec.conflict ≡ overwriting column f)
    (named : lookup column (proposed spec) ≡ some v) where
  abbrev has : Dict Value → Bool
  has = has_value column v.content

  abbrev new : Dict Value
  new = new_row (ignored_in (f spec.builder)) (proposed spec) (keep has w)

  pub answer : database spec w ≡ (keep (λ r. not (has r)) w ++ new ∷ [], none)
  unfolding database
  answer =
      ap (λ opts. at_column (column_of opts) (ignored_by opts spec.builder) (proposed spec) w) on
      ∙ ap (λ o. at_value column o (ignored_in (f spec.builder)) (proposed spec) w) named

  proposed-has : has (proposed spec) ≡ true
  proposed-has = has_value-some column v.content (proposed spec) v named ∙ eq_refl v.content

  overwrite-has :
      (r : Dict Value) (ignored : List String)
      → has r ≡ true
      → has (overwrite ignored (proposed spec) r) ≡ true
  overwrite-has r ignored h =
      let found = lookup-overwrite ignored (proposed spec) r column in
      let test : Option Value → Bool =
        λ o. elim o [ none ↦ false | some u ↦ u.content == v.content ] in
      elim (Bool-cases (mem column ignored)) [
        | inl e ↦
            let old : lookup column (overwrite ignored (proposed spec) r) ≡ lookup column r =
              found ∙ rw e refl in
            ap test old ∙ h
        | inr e ↦
            let written : lookup column (overwrite ignored (proposed spec) r) ≡ some v =
              found ∙ rw (e, named) refl in
            has_value-some column v.content (overwrite ignored (proposed spec) r) v written
            ∙ eq_refl v.content
      ]

  new-has : (found : Rows) → keep has w ≡ found → has new ≡ true
  new-has [] e =
      ap (λ rs. has (new_row (ignored_in (f spec.builder)) (proposed spec) rs)) e ∙ proposed-has
  new-has (r ∷ rs) e =
      ap (λ rs. has (new_row (ignored_in (f spec.builder)) (proposed spec) rs)) e
      ∙ overwrite-has r (ignored_in (f spec.builder)) (keep_first has w r rs e)

  others : keep (λ r. not (has r)) (database spec w).0 ≡ keep (λ r. not (has r)) w
  others =
      let refused : keep (λ r. not (has r)) (new ∷ []) ≡ [] = rw (new-has (keep has w) refl) refl in
      ap (λ a. keep (λ r. not (has r)) a.0) answer
      ∙ keep-append (λ r. not (has r)) (keep (λ r. not (has r)) w) (new ∷ [])
      ∙ rw (keep_twice has w, refused) (append-nil (keep (λ r. not (has r)) w))

  one : keep has (database spec w).0 ≡ new ∷ []
  one =
      let kept : keep has (new ∷ []) ≡ new ∷ [] = rw (new-has (keep has w) refl) refl in
      ap (λ a. keep has a.0) answer
      ∙ keep-append has (keep (λ r. not (has r)) w) (new ∷ [])
      ∙ rw (keep_opposite has w) kept

  written :
      (ignored : List String) (r : Dict Value)
      → f spec.builder ≡ map set_ignore ignored
      → keep has w ≡ r ∷ []
      → (other : String)
      → lookup other new ≡ (
          if mem other ignored
          then lookup other r
          else or_value (lookup other (proposed spec)) (lookup other r))
  written ignored r called found other =
      rw (found, called, ignored_in-map ignored) (lookup-overwrite ignored (proposed spec) r other)

column_refused :
    (c : String) (o : Option Value) (ignored : List String) (row : Dict Value) (w : Rows)
    (e : SqlError)
    → (at_value c o ignored row w).1 ≡ some e
    → (at_value c o ignored row w).0 ≡ w
column_refused c none ignored row w e h = refl
column_refused c (some v) ignored row w e h = cc

any_refused :
    (c : Option String) (ignored : List String) (row : Dict Value) (w : Rows) (e : SqlError)
    → (at_column c ignored row w).1 ≡ some e
    → (at_column c ignored row w).0 ≡ w
any_refused none ignored row w e h = refl
any_refused (some c) ignored row w e h = column_refused c (lookup c row) ignored row w e h

pub database-IsUpsert : IsUpsert database (λ w. w)
unfolding database
database-IsUpsert = record {
  refused = λ spec w e h.
      any_refused (column_of spec.conflict) (ignored_by spec.conflict spec.builder) (proposed spec)
        w e h;
  others_kept = λ spec w f column v a on named. others spec w f column v on named;
  inserted = λ spec w f column v a on named none_found.
      one spec w f column v on named
      ∙ ap (λ rs. new_row (ignored_in (f spec.builder)) (proposed spec) rs ∷ []) none_found;
  replaced = λ spec w f column v ignored r a on called named found. (
    _,
    one spec w f column v on named,
    written spec w f column v on named ignored r called found,
  );
}
