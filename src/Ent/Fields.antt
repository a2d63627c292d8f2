-- ===== src/Ent/Fields.antt =====
-- What DeploymentComponentStatusMutation of ent/mutation.go keeps of the values it is given by name.
use margo_hello_world.Common.{
  String, List, [], ◌∷◌, Bool, false, none, some, ◌==◌, words, if◌then◌else◌, ◌≡◌, ◌≢◌, refl, sym,
  ap, ◌∙◌, arith, Bool-cases, Option-cases, inl, inr, ◌⊎◌, eq_iff, eq_refl, mem,
}
use margo_hello_world.Common.Texts.{concat}
use margo_hello_world.Common.Dict.{lookup, lookup-insert}
use margo_hello_world.Ent.{Field, EntSchema}
use margo_hello_world.Ent.Mutation.{
  Value, Mutation, is_some, fields_of, find_field, field_of, set_field, set_value, field_cleared,
}

field_of_unset :
    (fs : List Field) (name : String) (m : Mutation)
    → lookup name m.values ≡ none
    → field_of fs name m ≡ none
unfolding field_of
field_of_unset fs name m h = elim (Option-cases (find_field name fs)) [
  | inl e ↦ rw (field_of, e) refl
  | inr (f, e) ↦ rw (field_of, e) h
]

field_of_here :
    (f : Field) (fs : List Field) (m : Mutation)
    → field_of (f ∷ fs) f.column m ≡ lookup f.column m.values
unfolding field_of find_field
field_of_here f fs m =
    let here : find_field f.column (f ∷ fs) ≡ some f = ground (arith, eq_refl f.column) in
    rw (field_of, here) refl

field_of_later :
    (f : Field) (fs : List Field) (name : String) (m : Mutation)
    → f.column == name ≡ false
    → field_of (f ∷ fs) name m ≡ field_of fs name m
unfolding field_of find_field
field_of_later f fs name m e =
    let later : find_field name (f ∷ fs) ≡ find_field name fs = rw e refl in
    rw (field_of, later) refl

mem-skip :
    (name column : String) (set : Bool) (rest : List String)
    → column == name ≡ false
    → mem name (if set then column ∷ rest else rest) ≡ mem name rest
mem-skip name column set rest e = ground (arith, e)

fields_of_step :
    (f : Field) (fs : List Field) (m : Mutation)
    → fields_of (f ∷ fs) m
      ≡ (if is_some (lookup f.column m.values) then f.column ∷ fields_of fs m else fields_of fs m)
unfolding fields_of
fields_of_step f fs m = elim (Bool-cases (is_some (lookup f.column m.values))) [
  | inl e ↦ rw e refl
  | inr e ↦ rw e refl
]

none_listed :
    (name : String) (m : Mutation) → mem name (fields_of [] m) ≡ is_some (field_of [] name m)
unfolding fields_of field_of find_field
none_listed name m = refl

-- Fields lists a name just where Field finds a value.
pub mem-fields_of :
    (fs : List Field) (name : String) (m : Mutation)
    → mem name (fields_of fs m) ≡ is_some (field_of fs name m)
mem-fields_of [] name m = none_listed name m
mem-fields_of (f ∷ fs) name m = elim (Bool-cases (f.column == name)) [
  | inr e ↦
      ap (mem name) (fields_of_step f fs m)
      ∙ (mem-skip name f.column (is_some (lookup f.column m.values)) (fields_of fs m) e
          ∙ (mem-fields_of fs name m ∙ ap is_some (sym (field_of_later f fs name m e))))
  | inl e ↦
      let same : f.column ≡ name = (eq_iff f.column name).0 e in
      rw (← same) (elim (Option-cases (lookup f.column m.values)) [
        | inl l ↦
            rw (fields_of_step f fs m, field_of_here f fs m, l)
              (mem-fields_of fs f.column m ∙ ap is_some (field_of_unset fs f.column m l))
        | inr (v, l) ↦
            rw (fields_of_step f fs m, field_of_here f fs m, l) (rw (eq_refl f.column) refl)
      ])
]

module _ (S : EntSchema) (name : String) (v : Value) (m : Mutation) (f : Field)
    (found : find_field name S.fields ≡ some f) where
  set_field_here : field_of S.fields name (set_value name v m) ≡ some v
  unfolding set_value field_of
  set_field_here =
      rw (field_of, found) (lookup-insert name name v m.values ∙ rw (eq_refl name) refl)

  set_field_other :
      (other : String)
      → other ≢ name
      → field_of S.fields other (set_value name v m) ≡ field_of S.fields other m
  unfolding set_value field_of
  set_field_other other n = elim (Option-cases (find_field other S.fields)) [
    | inl e ↦ rw (field_of, e) refl
    | inr (g, e) ↦
        rw (field_of, e)
          (elim (Bool-cases (name == other)) [
            | inl q ↦ absurd (n (sym ((eq_iff name other).0 q)))
            | inr q ↦ lookup-insert name other v m.values ∙ rw q refl
          ])
  ]

  cleared_kept : (other : String) → field_cleared other (set_value name v m) ≡ field_cleared other m
  unfolding set_value field_cleared
  cleared_kept other = refl

  -- SetField with the name of a field of the schema and a value of its type returns no error,
  -- Field then returns the value, and the other fields and the set of cleared fields are as they
  -- were; with a value of another type it returns an error and changes nothing.
  pub set_field-field_of :
      ((v.held_type ≡ f.go_type)
        × (m' : Mutation) × (set_field S name v m ≡ (m', none))
        × (field_of S.fields name m' ≡ some v)
        × ((other : String) → other ≢ name → field_of S.fields other m' ≡ field_of S.fields other m)
        × ((other : String) → field_cleared other m' ≡ field_cleared other m))
      ⊎ ((v.held_type ≢ f.go_type) × (e : String) × (set_field S name v m ≡ (m, some e)))
  unfolding set_field
  set_field-field_of = elim (Bool-cases (v.held_type == f.go_type)) [
    | inl e ↦ inl (
      (eq_iff v.held_type f.go_type).0 e,
      set_value name v m,
      rw (set_field, found, e) refl,
      set_field_here,
      set_field_other,
      cleared_kept,
    )
    | inr e ↦ inr (
      λ q. ground (arith, e, q, eq_iff v.held_type f.go_type),
      concat ("unexpected type " ∷ v.held_type ∷ " for field " ∷ name ∷ []),
      rw (set_field, found, e) refl,
    )
  ]
