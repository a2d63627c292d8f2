-- ===== src/Requests/Delivered.antt =====
-- From internal/api/handlers/deployment.go over internal/watcher/watcher.go to
-- internal/orchestrator/local_orchestrator.go: what the edge nodes of a site are asked to do for
-- the deployments that the central orchestrator created.
use margo_hello_world.Common.{
  ℕ, none, String, List, [], ◌∷◌, ◌++◌, Option, some, ◌≡◌, ◌≢◌, refl, sym, ap, ◌∙◌, arith, inl, inr,
  map, All, ◌==◌, words, if◌then◌else◌, Bool-cases,
}
use mathlib.Core.Option.{get_or}
use mathlib.Core.List.{Perm}
use margo_hello_world.Common.Texts.{join}
use margo_hello_world.Common.Texts.Slashes.{IsElement}
use margo_hello_world.Model.{ApplicationDeployment}
use margo_hello_world.Lo.Deploy.{
  DeploymentChange, Host, Message, Deploying, deploy_subject, handle_git_polled, run_calls,
}
use margo_hello_world.Lo.Deploy.Messages.{
  messages, message_for, wanted, wanted_of, handle_git_polled-messages,
}
use margo_hello_world.Requests.{
  AppDesc, Profile, ComponentRow, build_application_deployment, build_deployment_profile,
  build_deployment_components,
}
use margo_hello_world.Watcher.{Answers, notify, pass}
use margo_hello_world.Watcher.Reports.{Created, IsCreated, Sees, path_of, told, pass-created}

-- What a node is asked for: the first component, under the id of the deployment.
abbrev pub node_message : ComponentRow → String → Host → Message
node_message row id node = record {
  subject = deploy_subject node.site_id node.host_id;
  request = record {
    app_name = "";
    image = "";
    token = "";
    deployment_id = id;
    git_repo_url = row.properties.repository;
    wasm_images = [];
    container_images = row.properties.repository ∷ [];
    revision = row.properties.revision;
  };
}

-- The messages for the deployments of a site.
abbrev pub node_messages : ComponentRow → List Host → String → List Created → List Message
node_messages row hosts site [] = []
node_messages row hosts site (d ∷ ds) =
    let rest = node_messages row hosts site ds in
    if d.0 == site then map (node_message row d.1) hosts ++ rest else rest

module _ (desc : AppDesc) (profile : Profile) (row : ComponentRow) (rows : List ComponentRow)
    (parse : String → Option ApplicationDeployment) (read_file : String → Option String)
    (path : String) (hosts : List Host) where
  abbrev built : Created → ApplicationDeployment
  built d = build_application_deployment desc profile (row ∷ rows) d.0 d.1

  -- The working copy holds the desired state that was built, as the yaml library reads it.
  abbrev pub IsWritten : Created → Type 0
  IsWritten d =
      (content : String) × (read_file (join (path ∷ path_of d ∷ [])) ≡ some content)
      × (parse content ≡ some (built d))

  built_message :
      (d : Created) → wanted_of parse hosts (some (built d)) ≡ map (node_message row d.1) hosts
  unfolding build_application_deployment build_deployment_profile build_deployment_components
      message_for wanted_of
  built_message d = refl

  wanted-told :
      (site : String) (ds : List Created)
      → All IsWritten ds
      → wanted parse hosts (told read_file path site ds) ≡ node_messages row hosts site ds
  unfolding wanted
  wanted-told site [] w = refl
  wanted-told site (d ∷ ds) w =
      let (content, r, p) = w.0 in
      let rest = wanted-told site ds w.1 in
      elim (Bool-cases (d.0 == site)) [
        | inr e ↦ rw e rest
        | inl e ↦ rw (e, r, p, built_message d, rest) refl
      ]

  built_has_component :
      (d : Created) (dep : ApplicationDeployment)
      → some (built d) ≡ some dep
      → dep.spec.deployment_profile.components ≢ []
  unfolding build_application_deployment build_deployment_profile build_deployment_components
  built_has_component d dep e n =
      let same = ap (λ o. (get_or o dep).spec.deployment_profile.components) e in
      ground (arith, same, n)

  have_components :
      (site : String) (ds : List Created)
      → All IsWritten ds
      → All
          (λ c.
            (dep : ApplicationDeployment)
            → parse c.content ≡ some dep
            → dep.spec.deployment_profile.components ≢ [])
          (told read_file path site ds)
  have_components site [] w = tt
  have_components site (d ∷ ds) w =
      let (content, r, p) = w.0 in
      let rest = have_components site ds w.1 in
      elim (Bool-cases (d.0 == site)) [
        | inr e ↦ rw e rest
        | inl e ↦ rw (e, r) ((λ dep q. built_has_component d dep (sym p ∙ q)), rest)
      ]

-- The deployments that a pass gives to OnChange, none where it is not called.
abbrev pub handed : String × Option (String × List DeploymentChange) → List DeploymentChange
handed (last, none) = []
handed (last, some (commit, ds)) = ds

handed-notify :
    (commit : String) (ds : List DeploymentChange) → handed (commit, notify commit ds) ≡ ds
handed-notify commit [] = refl
handed-notify commit (d ∷ ds) = refl

module _ (desc : AppDesc) (profile : Profile) (row : ComponentRow) (rows : List ComponentRow)
    (parse : String → Option ApplicationDeployment) (hosts : List Host) where
  -- When a pass of the watcher sees a new commit after an earlier one, the patch of which is a
  -- list of created deployments, and the working copy holds for each the desired state that was
  -- built for it from a profile with a component, the local orchestrator handles what the pass
  -- hands over without a panic, and however its goroutines advance every host is sent exactly one
  -- message for each deployment of the site, with its id and the repository and revision of the
  -- profile's first component, and nothing is sent for the deployments of other sites.
  pub delivered :
      (a : Answers) (path site last commit : String) (ds : List Created) (schedules : List (List ℕ))
      (among : List ℕ)
      → IsElement site
      → All IsCreated ds
      → Sees a path (some commit)
      → last ≢ ""
      → commit ≢ last
      → a.patch last commit ≡ some (map path_of ds)
      → All (IsWritten desc profile row rows parse a.read_file path hosts) ds
      → (calls : List Deploying) × (handle_git_polled parse hosts (handed (pass a site last))
          ≡ some calls)
        × Perm (messages (run_calls schedules among calls)) (node_messages row hosts site ds)
  delivered a path site last commit ds schedules among hs hd sees known new patch w =
      let changes = told a.read_file path site ds in
      let passed : handed (pass a site last) ≡ changes =
        ap handed (pass-created a path site last commit ds hs hd sees known new patch)
        ∙ handed-notify commit changes in
      let (calls, e, m) =
        handle_git_polled-messages parse hosts changes schedules among
          (have_components desc profile row rows parse a.read_file path hosts site ds w) in
      (
        calls,
        rw passed e,
        rw⁻¹ (wanted-told desc profile row rows parse a.read_file path hosts site ds w) m,
      )
