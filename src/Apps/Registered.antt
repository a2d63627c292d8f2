-- ===== src/Apps/Registered.antt =====
-- CreateApp of internal/api/handlers/apps.go and CreateDeployment of deployment.go together: an
-- application that was created can be deployed, with the components of its description.
use mathlib.Core.List.{Perm}
use margo_hello_world.Common.{
  ℕ, String, List, [], ◌∷◌, Bool, false, none, some, ◌==◌, words, ◌≡◌, refl, ◌⊎◌, inr, keep, map,
}
use margo_hello_world.Description.{ApplicationDescription, ApplicationMetadata, DeploymentProfile}
use margo_hello_world.Requests
use margo_hello_world.Requests.{Registry, App, read_registry, read_profile, find_app, one_app}
use margo_hello_world.Fetcher.{Client}
use margo_hello_world.Apps.{
  ComponentRow, Store, app_row, profile_row, persist, Shop, created, CreateAppRequest, create_app,
}
use margo_hello_world.Apps.Tables.{Tables, IsDatabase, desc_of, profile_of, is_profile}
use margo_hello_world.Apps.Created.{create_app_created}
use margo_hello_world.Apps.Persisted.{fresh_app, fresh_profile, fresh_components, listed_as}

module _ {D : Type 0} (S : Store D) (registry : D → Registry) (tables : D → Tables)
    (matches : String → String → Bool) (h : IsDatabase S registry tables matches)
    (ad : ApplicationDescription) (a : ApplicationMetadata) (d d' : D)
    (with_app : ad.metadata.catalog.application ≡ some a)
    (saved : persist S ad d ≡ some (d', none)) where
  abbrev id : String
  id = ad.metadata.id

  module _ (p : DeploymentProfile) where
    abbrev is_of : ComponentRow → Bool
    is_of c = c.deployment_profile_id == p.id

    -- The queries of CreateDeployment find what was saved.
    read_back :
        (app : App)
        → app.app_id ≡ id
        → (id == "") ≡ false
        → app.deploy_type ≡ p.profile_type
        → keep (λ r. r.id == id) (tables d).apps ≡ []
        → keep (is_profile id p.profile_type) (tables d).profiles ≡ []
        → keep is_of (tables d).components ≡ []
        → keep (λ q. q.profile_type == p.profile_type) ad.deployment_profiles ≡ p ∷ []
        → keep (λ q. q.id == p.id) ad.deployment_profiles ≡ p ∷ []
        → (rows : List Requests.ComponentRow) × (read_registry (registry d') app
            ≡ inr (desc_of (app_row ad.metadata a), (profile_of (profile_row id p), rows)))
          × Perm rows (map listed_as p.components)
    unfolding read_registry read_profile find_app one_app app_row profile_row
    read_back app by_id known by_type fa fp fc one_type one_id =
        let app_row_found =
          h.app_found id d' (app_row ad.metadata a)
            (fresh_app S registry tables matches h ad a d d' with_app saved fa) in
        let profile_row_found =
          h.profile_found id p.profile_type d' (profile_row id p)
            (fresh_profile S registry tables matches h ad a d d' with_app saved p fp one_type) in
        let (rows, found, perm) = h.components_found p.id d' in
        (
          rows,
          rw (by_id, by_type, known, app_row_found, profile_row_found, found) refl,
          rw (← fresh_components S registry tables matches h ad a d d' with_app saved p fc one_id)
              perm,
        )

module _ {D Disk : Type 0} (S : Store D) (registry : D → Registry) (tables : D → Tables)
    (matches : String → String → Bool) (h : IsDatabase S registry tables matches) (C : Client Disk)
    (unmarshal : String → String ⊎ ApplicationDescription) where
  -- Over a database that answers, when CreateApp answers a request with the description it
  -- created, and the tables held nothing of the application, of its profile p or of p's components
  -- before, then what CreateDeployment reads for the id of the application (not empty) and the
  -- type of p (the only profile of the description with its type and the only one with its id) is
  -- the application, p, and in some order the name and the properties of each component of p.
  pub created_found :
      (fuel : ℕ) (token : String) (req : CreateAppRequest) (s s' : Shop D Disk)
      (ad : ApplicationDescription) (a : ApplicationMetadata) (p : DeploymentProfile) (app : App)
      → create_app S C unmarshal fuel token (inr req) s ≡ some (s', created ad)
      → ad.metadata.catalog.application ≡ some a
      → app.app_id ≡ ad.metadata.id
      → (ad.metadata.id == "") ≡ false
      → app.deploy_type ≡ p.profile_type
      → keep (λ r. r.id == ad.metadata.id) (tables s.db).apps ≡ []
      → keep (is_profile ad.metadata.id p.profile_type) (tables s.db).profiles ≡ []
      → keep (λ c. c.deployment_profile_id == p.id) (tables s.db).components ≡ []
      → keep (λ q. q.profile_type == p.profile_type) ad.deployment_profiles ≡ p ∷ []
      → keep (λ q. q.id == p.id) ad.deployment_profiles ≡ p ∷ []
      → (rows : List Requests.ComponentRow) × (read_registry (registry s'.db) app
          ≡ inr (
            record { id = ad.metadata.id; name = ad.metadata.name },
            (record { id = p.id; profile_type = p.profile_type }, rows),
          ))
        × Perm rows (map listed_as p.components)
  unfolding app_row profile_row
  created_found fuel token req s s' ad a p app e with_app =
      let saved = create_app_created S C unmarshal fuel token req ad s s' e in
      read_back S registry tables matches h ad a s.db s'.db with_app saved p app
