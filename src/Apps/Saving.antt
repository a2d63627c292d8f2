-- ===== src/Apps/Saving.antt =====
-- What the statements of Persist, in internal/api/handlers/persist.go, add to the tables.
use margo_hello_world.Common.{
  String, List, [], ◌∷◌, ◌++◌, Bool, Option, none, some, words, ◌≡◌, refl, sym, ap, ◌∙◌, map, arith,
}
use margo_hello_world.Description.{DeploymentProfile, Component}
use margo_hello_world.Requests.{Registry}
use margo_hello_world.Central.{and_then}
use margo_hello_world.Apps.{
  AppRow, ProfileRow, ComponentRow, Store, profile_row, component_row, labelled, persist_components,
  persist_profiles,
}
use margo_hello_world.Apps.Tables.{Tables, IsDatabase, added, added_none, added_twice, rows_of}

-- What the tables hold after two statements, where neither ended with an error.
module _ {D : Type 0} (tables : D → Tables) (t : Tables) (next : D → D × Option String)
    (ps qs : List ProfileRow) (cs ds : List ComponentRow) where
  chained :
      (r : D × Option String)
      → (and_then r next).1 ≡ none
      → (r.1 ≡ none → tables r.0 ≡ added t ps cs)
      → ((next r.0).1 ≡ none → tables (next r.0).0 ≡ added (tables r.0) qs ds)
      → tables (and_then r next).0 ≡ added t (ps ++ qs) (cs ++ ds)
  unfolding and_then
  chained (d, none) n f g = g n ∙ rw (f refl) (added_twice t ps qs cs ds)
  chained (d, some e) n f g = absurd (ground (arith, n))

  both_saved :
      (text : String) (r : D × Option String)
      → (and_then (labelled text r) next).1 ≡ none
      → (r.1 ≡ none → tables r.0 ≡ added t ps cs)
      → ((next r.0).1 ≡ none → tables (next r.0).0 ≡ added (tables r.0) qs ds)
      → tables (and_then (labelled text r) next).0 ≡ added t (ps ++ qs) (cs ++ ds)
  unfolding and_then labelled
  both_saved text (d, none) n f g = chained (d, none) n f g
  both_saved text (d, some e) n f g = absurd (ground (arith, n))

-- A statement and what follows leave the applications, where each of them does.
apps-and_then :
    {D : Type 0} (tables : D → Tables) (next : D → D × Option String) (apps : List AppRow)
    (r : D × Option String)
    → (tables r.0).apps ≡ apps
    → (tables (next r.0).0).apps ≡ (tables r.0).apps
    → (tables (and_then r next).0).apps ≡ apps
unfolding and_then
apps-and_then tables next apps (d, none) f g = g ∙ f
apps-and_then tables next apps (d, some e) f g = f

apps-labelled :
    {D : Type 0} (tables : D → Tables) (apps : List AppRow) (text : String) (r : D × Option String)
    → (r.1 ≡ none → (tables r.0).apps ≡ apps)
    → ((e : String) → r.1 ≡ some e → (tables r.0).apps ≡ apps)
    → (tables (labelled text r).0).apps ≡ apps
unfolding labelled
apps-labelled tables apps text (d, none) f g = f refl
apps-labelled tables apps text (d, some e) f g = g e refl

-- What a loop has added to the tables where it ended without an error.
module _ {D : Type 0} (S : Store D) (registry : D → Registry) (tables : D → Tables)
    (matches : String → String → Bool) (h : IsDatabase S registry tables matches) where
  tables-persist_components :
      (id : String) (cs : List Component) (d : D)
      → (persist_components S id cs d).1 ≡ none
      → tables (persist_components S id cs d).0 ≡ added (tables d) [] (map (component_row id) cs)
  unfolding persist_components
  tables-persist_components id [] d n = sym (added_none (tables d))
  tables-persist_components id (c ∷ cs) d n =
      both_saved tables (tables d) (persist_components S id cs) [] [] (component_row id c ∷ [])
        (map (component_row id) cs) "failed to create component"
        (S.save_component (component_row id c) d) n (h.component_saved (component_row id c) d)
        (tables-persist_components id cs (S.save_component (component_row id c) d).0)

  pub tables-persist_profiles :
      (app_id : String) (ps : List DeploymentProfile) (d : D)
      → (persist_profiles S app_id ps d).1 ≡ none
      → tables (persist_profiles S app_id ps d).0
        ≡ added (tables d) (map (profile_row app_id) ps) (rows_of ps)
  unfolding persist_profiles
  tables-persist_profiles app_id [] d n = sym (added_none (tables d))
  tables-persist_profiles app_id (p ∷ ps) d n =
      let saved = S.save_profile (profile_row app_id p) d in
      let rest = tables-persist_profiles app_id ps in
      both_saved tables (tables d)
        (λ d. and_then (persist_components S p.id p.components d) (persist_profiles S app_id ps))
        (profile_row app_id p ∷ []) (map (profile_row app_id) ps) [] (rows_of (p ∷ ps))
        "failed to create deployment profile" saved n (h.profile_saved (profile_row app_id p) d)
        (λ m.
          chained tables (tables saved.0) (persist_profiles S app_id ps) []
            (map (profile_row app_id) ps) (map (component_row p.id) p.components) (rows_of ps)
            (persist_components S p.id p.components saved.0) m
            (tables-persist_components p.id p.components saved.0)
            (rest (persist_components S p.id p.components saved.0).0))

  -- However the loops end, they leave the applications as they were.
  apps-persist_components :
      (id : String) (cs : List Component) (d : D)
      → (tables (persist_components S id cs d).0).apps ≡ (tables d).apps
  unfolding persist_components
  apps-persist_components id [] d = refl
  apps-persist_components id (c ∷ cs) d =
      let row = component_row id c in
      let text : String = "failed to create component" in
      let kept =
        apps-labelled tables (tables d).apps text (S.save_component row d)
          (λ n. ap (λ t. t.apps) (h.component_saved row d n))
          (λ e n. ap (λ t. t.apps) (h.component_failed row d e n)) in
      apps-and_then tables (persist_components S id cs) (tables d).apps
        (labelled text (S.save_component row d)) kept
        (apps-persist_components id cs (labelled text (S.save_component row d)).0)

  pub apps-persist_profiles :
      (app_id : String) (ps : List DeploymentProfile) (d : D)
      → (tables (persist_profiles S app_id ps d).0).apps ≡ (tables d).apps
  unfolding persist_profiles
  apps-persist_profiles app_id [] d = refl
  apps-persist_profiles app_id (p ∷ ps) d =
      let row = profile_row app_id p in
      let saved = labelled "failed to create deployment profile" (S.save_profile row d) in
      let kept =
        apps-labelled tables (tables d).apps "failed to create deployment profile"
          (S.save_profile row d) (λ n. ap (λ t. t.apps) (h.profile_saved row d n))
          (λ e n. ap (λ t. t.apps) (h.profile_failed row d e n)) in
      let stored = persist_components S p.id p.components saved.0 in
      let rest = apps-persist_profiles app_id ps stored.0 in
      apps-and_then tables
        (λ d. and_then (persist_components S p.id p.components d) (persist_profiles S app_id ps))
        (tables d).apps saved kept
        (apps-and_then tables (persist_profiles S app_id ps) (tables saved.0).apps stored
          (apps-persist_components p.id p.components saved.0) rest)
