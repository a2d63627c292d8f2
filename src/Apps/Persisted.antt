-- ===== src/Apps/Persisted.antt =====
-- What the tables hold after Persist of internal/api/handlers/persist.go, where it returned no error.
use mathlib.Core.List.{append-nil}
use mathlib.Core.Option.{get_or}
use margo_hello_world.Common.{
  String, List, [], ◌∷◌, ◌++◌, Bool, true, false, Option, none, some, ◌==◌, words, ◌≡◌, refl, sym,
  ap, ◌∙◌, inl, inr, keep, map, keep-append, keep-map, Bool-cases, eq_refl,
}
use margo_hello_world.Description.{
  ApplicationDescription, ApplicationMetadata, DeploymentProfile, Component,
}
use margo_hello_world.Requests
use margo_hello_world.Requests.{Registry, App, read_registry, read_profile, find_app, one_app}
use margo_hello_world.Central.{and_then}
use margo_hello_world.Apps.{
  AppRow, ComponentRow, Store, app_row, profile_row, component_row, persist, persist_profiles,
}
use margo_hello_world.Apps.Tables.{Tables, IsDatabase, added, rows_of, row_of, is_profile}
use margo_hello_world.Apps.Saving.{tables-persist_profiles}

keep_all {ℓ} : {A : Type ℓ} (xs : List A) → keep (λ x. true) xs ≡ xs
keep_all [] = refl
keep_all (x ∷ xs) = ap (◌∷◌ x) (keep_all xs)

keep_none {ℓ} : {A : Type ℓ} (xs : List A) → keep (λ x. false) xs ≡ []
keep_none [] = refl
keep_none (x ∷ xs) = keep_none xs

-- The row that a query finds of a component.
abbrev pub listed_as : Component → Requests.ComponentRow
listed_as c = record { name = c.name; properties = c.properties }

rows_again :
    (id : String) (cs : List Component) → map row_of (map (component_row id) cs) ≡ map listed_as cs
unfolding component_row
rows_again id [] = refl
rows_again id (c ∷ cs) = ap (◌∷◌ (listed_as c)) (rows_again id cs)

-- The rows of the components of one profile are those of the profiles with its id.
keep-rows_of :
    (id : String) (ps : List DeploymentProfile)
    → keep (λ c. c.deployment_profile_id == id) (rows_of ps) ≡ rows_of (keep (λ p. p.id == id) ps)
unfolding component_row
keep-rows_of id [] = refl
keep-rows_of id (p ∷ ps) =
    let rest = keep-rows_of id ps in
    let first = map (component_row p.id) p.components in
    let split = keep-append (λ c. c.deployment_profile_id == id) first (rows_of ps) in
    elim (Bool-cases (p.id == id)) [
      | inl e ↦
          let own =
            keep-map (λ c. c.deployment_profile_id == id) (component_row p.id) (λ c. true)
              p.components (λ c. e) in
          rw (split, own, keep_all p.components, e, rest) refl
      | inr e ↦
          let own =
            keep-map (λ c. c.deployment_profile_id == id) (component_row p.id) (λ c. false)
              p.components (λ c. e) in
          rw (split, own, keep_none p.components, e, rest) refl
    ]

no_error_before :
    {D : Type 0} (r : D × Option String) (next : D → D × Option String) (d' : D)
    → and_then r next ≡ (d', none)
    → (r.1 ≡ none) × (next r.0 ≡ (d', none))
unfolding and_then
no_error_before (d, none) next d' h = (refl, h)
no_error_before (d, some e) next d' h = let k = ap (λ r. r.1) h in cc

module _ {D : Type 0} (S : Store D) (registry : D → Registry) (tables : D → Tables)
    (matches : String → String → Bool) (h : IsDatabase S registry tables matches)
    (ad : ApplicationDescription) (a : ApplicationMetadata) (d d' : D)
    (with_app : ad.metadata.catalog.application ≡ some a)
    (saved : persist S ad d ≡ some (d', none)) where
  abbrev pub id : String
  id = ad.metadata.id

  abbrev pub stored : D × Option String
  stored = S.save_app (app_row ad.metadata a) d

  persist_ends : and_then stored (persist_profiles S id ad.deployment_profiles) ≡ (d', none)
  unfolding persist
  persist_ends =
      let k = rw (with_app, persist) at saved in
      ap (λ (o : Option (D × Option String)). get_or o (d', none)) k

  tables-persist :
      tables d'
      ≡ added
          (record (tables d) { apps = (tables d).apps ++ app_row ad.metadata a ∷ [] })
          (map (profile_row id) ad.deployment_profiles)
          (rows_of ad.deployment_profiles)
  tables-persist =
      let (n, m) =
        no_error_before stored (persist_profiles S id ad.deployment_profiles) d' persist_ends in
      let last =
        tables-persist_profiles S registry tables matches h id ad.deployment_profiles stored.0
          (ap (λ (r : D × Option String). r.1) m) in
      ap (λ (r : D × Option String). tables r.0) (sym m)
      ∙ last
      ∙ rw (h.app_saved (app_row ad.metadata a) d n) refl

  pub fresh_app :
      keep (λ r. r.id == id) (tables d).apps ≡ []
      → keep (λ r. r.id == id) (tables d').apps ≡ app_row ad.metadata a ∷ []
  unfolding app_row
  fresh_app f =
      rw
        (
          tables-persist,
          keep-append (λ (r : AppRow). r.id == id) (tables d).apps (app_row ad.metadata a ∷ []),
          f,
          eq_refl id,
        )
        refl

  module _ (p : DeploymentProfile) where
    pub fresh_profile :
        keep (is_profile id p.profile_type) (tables d).profiles ≡ []
        → keep (λ q. q.profile_type == p.profile_type) ad.deployment_profiles ≡ p ∷ []
        → keep (is_profile id p.profile_type) (tables d').profiles ≡ profile_row id p ∷ []
    unfolding profile_row
    fresh_profile f only =
        let test = is_profile id p.profile_type in
        let rows = map (profile_row id) ad.deployment_profiles in
        let of_app =
          keep-map test (profile_row id) (λ q. q.profile_type == p.profile_type)
            ad.deployment_profiles (λ q. rw (eq_refl id) refl) in
        rw (tables-persist, keep-append test (tables d).profiles rows, f, of_app, only) refl

    abbrev pub is_of : ComponentRow → Bool
    is_of c = c.deployment_profile_id == p.id

    pub fresh_components :
        keep is_of (tables d).components ≡ []
        → keep (λ q. q.id == p.id) ad.deployment_profiles ≡ p ∷ []
        → map row_of (keep is_of (tables d').components) ≡ map listed_as p.components
    unfolding component_row
    fresh_components f only =
        let split = keep-append is_of (tables d).components (rows_of ad.deployment_profiles) in
        rw
          (
            tables-persist,
            split,
            f,
            keep-rows_of p.id ad.deployment_profiles,
            only,
            append-nil (map (component_row p.id) p.components),
          )
          (rows_again p.id p.components)
