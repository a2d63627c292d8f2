-- ===== src/Requests/Refused.antt =====
-- CreateDeployment of internal/api/handlers/deployment.go: the requests that are answered with an
-- error.
use margo_hello_world.Common.{
  ℕ, String, List, [], ◌∷◌, true, Option, none, some, ◌≡◌, refl, inl, inr, ◌⊎◌, Option-cases, ◌==◌,
  words, numbers, mem, Bool-cases, Sum-cases,
}
use margo_hello_world.Model.{ApplicationDeployment}
use margo_hello_world.Central.{Calls}
use margo_hello_world.Status.{Database}
use margo_hello_world.Requests.{
  AppDesc, App, Registry, Response, failed, started, Center, start_sites, create_deployment_handler,
  read_registry, find_app, one_app, read_profile,
}

abbrev pub statuses : List ℕ
statuses = 400 ∷ 404 ∷ 409 ∷ 500 ∷ []

-- A response that is an error, with one of the statuses.
abbrev pub IsRefusal : Response → Type 0
IsRefusal (failed code _) = mem code statuses ≡ true
IsRefusal (started _) = ⊥

abbrev IfRefused : {A : Type 0} → Response ⊎ A → Type 0
IfRefused (inl r) = IsRefusal r
IfRefused (inr _) = Unit

one_app-refusal : (found : String ⊎ List AppDesc) → IfRefused (one_app found)
unfolding one_app
one_app-refusal (inl e) = refl
one_app-refusal (inr []) = refl
one_app-refusal (inr (desc ∷ [])) = tt
one_app-refusal (inr (_ ∷ _ ∷ _)) = refl

find_app-refusal : (g : Registry) (app : App) → IfRefused (find_app g app)
unfolding find_app
find_app-refusal g app =
    let by_name = one_app-refusal (g.apps_by_name app.app_name) in
    let by_id = one_app-refusal (g.apps_by_id app.app_id) in
    elim (Bool-cases (app.app_id == "")) [
      | inr e ↦ rw e by_id
      | inl e ↦ elim (Bool-cases (app.app_name == "")) [
        | inl f ↦ rw (e, f) refl
        | inr f ↦ rw (e, f) by_name
      ]
    ]

read_profile-refusal :
    (g : Registry) (deploy_type : String) (o : Response ⊎ AppDesc)
    → IfRefused o
    → IfRefused (read_profile g deploy_type o)
unfolding read_profile
read_profile-refusal g t (inl r) h = h
read_profile-refusal g t (inr desc) h = elim (Option-cases (g.only_profile desc.id t)) [
  | inl e ↦ rw (read_profile, e) refl
  | inr (profile, e) ↦ elim (Option-cases (g.all_components profile.id)) [
    | inl f ↦ rw (read_profile, e, f) refl
    | inr (_, f) ↦ rw (read_profile, e, f) tt
  ]
]

read_registry-refusal : (g : Registry) (app : App) → IfRefused (read_registry g app)
unfolding read_registry
read_registry-refusal g app =
    read_profile-refusal g app.deploy_type (find_app g app) (find_app-refusal g app)

read_registry-IsRefusal :
    (g : Registry) (app : App) (r : Response) → read_registry g app ≡ inl r → IsRefusal r
read_registry-IsRefusal g app r e =
    let h : IfRefused (read_registry g app) = read_registry-refusal g app in rw e at h

module _ (D : Database) {W : Type 0} (calls : Calls W) (working_path : Option String)
    (new_id : ℕ → String) (marshal : ApplicationDeployment → Option String) where
  abbrev Site : Type 0
  Site = Center D {W = W} calls working_path new_id marshal

  -- What holds of an answer that is an error: it comes with the state before, and a status.
  abbrev pub Answered : Site → Option (Site × Response) → Type 0
  Answered c none = Unit
  Answered c (some (d, failed code _)) = (d ≡ c) × (mem code statuses ≡ true)
  Answered c (some (d, started _)) = Unit

  answer_refused : (c : Site) (r : Response) → IsRefusal r → Answered c (some (c, r))
  answer_refused c (failed code _) h = (refl, h)
  answer_refused c (started _) h = tt

  -- A request that is answered with an error leaves the central orchestrator as it was, and the
  -- status is 400, 404, 409 or 500.
  pub refused_unchanged :
      (g : Registry) (body : String ⊎ App) (c : Site)
      → Answered c (create_deployment_handler D calls working_path new_id marshal g body c)
  unfolding create_deployment_handler
  refused_unchanged g (inl e) c = (refl, refl)
  refused_unchanged g (inr app) c = elim (Sum-cases (read_registry g app)) [
    | inl (r, e) ↦
        rw (create_deployment_handler, e) (answer_refused c r (read_registry-IsRefusal g app r e))
    | inr (found, e) ↦
        elim (Option-cases (
          start_sites D calls working_path new_id marshal found.0 found.1.0 found.1.1 app.sites
            c)) [
              | inl f ↦ rw (create_deployment_handler, e, f) tt
              | inr (_, f) ↦ rw (create_deployment_handler, e, f) tt
            ]
  ]
