-- ===== src/Apps/Tables.antt =====
-- What internal/api/handlers relies on of the tables of the registry, and what Persist adds to them.
use mathlib.Core.List.{Perm, append-nil, append_assoc}
use margo_hello_world.Common.{
  String, List, [], ◌∷◌, ◌++◌, Bool, true, none, some, ◌==◌, words, ◌≡◌, refl, inr, ◌&&◌, keep, any,
  map,
}
use margo_hello_world.Description.{DeploymentProfile}
use margo_hello_world.Requests
use margo_hello_world.Requests.{AppDesc, Profile, Registry}
use margo_hello_world.Apps.{AppRow, ProfileRow, ComponentRow, Store, component_row}

-- The rows of the three tables.
pub record Tables : Type 0 where
  pub apps : List AppRow
  pub profiles : List ProfileRow
  pub components : List ComponentRow

-- More rows at the end of two of the tables.
abbrev pub added : Tables → List ProfileRow → List ComponentRow → Tables
added t ps cs = record t { profiles = t.profiles ++ ps; components = t.components ++ cs }

pub added_none : (t : Tables) → added t [] [] ≡ t
added_none t = rw (append-nil t.profiles, append-nil t.components) refl

pub added_twice :
    (t : Tables) (ps qs : List ProfileRow) (cs ds : List ComponentRow)
    → added (added t ps cs) qs ds ≡ added t (ps ++ qs) (cs ++ ds)
added_twice t ps qs cs ds = rw (append_assoc t.profiles ps qs, append_assoc t.components cs ds) refl

abbrev pub desc_of : AppRow → AppDesc
desc_of r = record { id = r.id; name = r.name }

abbrev pub profile_of : ProfileRow → Profile
profile_of r = record { id = r.id; profile_type = r.profile_type }

abbrev pub row_of : ComponentRow → Requests.ComponentRow
row_of r = record { name = r.name; properties = r.properties }

abbrev pub is_profile : String → String → ProfileRow → Bool
is_profile app_id deploy_type r = r.app_id == app_id && r.profile_type == deploy_type

-- A database that answers: a Save without an error adds its row, one with an error adds none, and
-- the queries find what the tables hold, in any order. `matches` is the test of NameContainsFold.
pub record IsDatabase {D : Type 0} (S : Store D) (registry : D → Registry) (tables : D → Tables)
    (matches : String → String → Bool) : Type 0 where
  pub app_saved :
      (r : AppRow) (d : D)
      → (S.save_app r d).1 ≡ none
      → tables (S.save_app r d).0 ≡ record (tables d) { apps = (tables d).apps ++ r ∷ [] }
  pub profile_saved :
      (r : ProfileRow) (d : D)
      → (S.save_profile r d).1 ≡ none
      → tables (S.save_profile r d).0 ≡ added (tables d) (r ∷ []) []
  pub profile_failed :
      (r : ProfileRow) (d : D) (e : String)
      → (S.save_profile r d).1 ≡ some e
      → tables (S.save_profile r d).0 ≡ tables d
  pub component_saved :
      (r : ComponentRow) (d : D)
      → (S.save_component r d).1 ≡ none
      → tables (S.save_component r d).0 ≡ added (tables d) [] (r ∷ [])
  pub component_failed :
      (r : ComponentRow) (d : D) (e : String)
      → (S.save_component r d).1 ≡ some e
      → tables (S.save_component r d).0 ≡ tables d
  pub app_found :
      (id : String) (d : D) (r : AppRow)
      → keep (λ a. a.id == id) (tables d).apps ≡ r ∷ []
      → (registry d).apps_by_id id ≡ inr (desc_of r ∷ [])
  pub profile_found :
      (app_id deploy_type : String) (d : D) (r : ProfileRow)
      → keep (is_profile app_id deploy_type) (tables d).profiles ≡ r ∷ []
      → (registry d).only_profile app_id deploy_type ≡ some (profile_of r)
  pub components_found :
      (id : String) (d : D)
      → (rows : List Requests.ComponentRow) × ((registry d).all_components id ≡ some rows)
        × Perm rows (map row_of (keep (λ c. c.deployment_profile_id == id) (tables d).components))
  pub name_found :
      (text : String) (d : D)
      → any (λ a. matches text a.name) (tables d).apps ≡ true
      → (r : AppRow) × (rs : List AppRow) × (S.name_contains_fold text d ≡ inr (r ∷ rs))

-- The rows of the components of profiles, in the order in which they are saved.
abbrev pub rows_of : List DeploymentProfile → List ComponentRow
rows_of [] = []
rows_of (p ∷ ps) = map (component_row p.id) p.components ++ rows_of ps
