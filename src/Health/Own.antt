-- ===== src/Health/Own.antt =====
-- internal/edgenode/edgenode.go: what a node publishes before its report.
use margo_hello_world.Common.{
  ℕ, suc, String, List, [], ◌∷◌, Option, none, some, ◌==◌, words, ◌≡◌, refl, Bool-cases,
  Option-cases, inl, inr, All, All-append, numbers,
}
use margo_hello_world.Common.Texts.{concat}
use margo_hello_world.Model.{DeployRequest}
use margo_hello_world.EdgeNode.{
  Sent, status, report, Machine, EdgeNode, status_subject, update_status, deploy, deploy_wasm,
  deploy_containers, deploy_containerd, after_fetch, after_run,
}

-- A state of the request's deployment, on the subject of the node.
abbrev pub IsOwn : EdgeNode → DeployRequest → Sent → Type 0
IsOwn en req (status subject s) =
    (subject ≡ status_subject en) × (s.deployment_id ≡ req.deployment_id)
IsOwn en req (report subject r) = ⊥

module _ {W : Type 0} (M : Machine W) (en : EdgeNode) (req : DeployRequest) where
  abbrev pub Own : List Sent → Type 0
  Own ms = All (IsOwn en req) ms

  after_run-IsOwn :
      (comp : String) (r : W × Option (String × String)) → Own (after_run M en req comp r).sent
  unfolding after_run update_status
  after_run-IsOwn comp (w, none) = ((refl, refl), tt)
  after_run-IsOwn comp (w, some (e, out)) = ((refl, refl), tt)

  after_fetch-IsOwn :
      (comp : String) (r : W × Option String) → Own (after_fetch M en req comp r).sent
  unfolding after_fetch update_status
  after_fetch-IsOwn comp (w, some e) = ((refl, refl), tt)
  after_fetch-IsOwn comp (w, none) = after_run-IsOwn comp _

  containerd-IsOwn : (comp : String) (w : W) → Own (deploy_containerd M en req comp w).sent
  unfolding deploy_containerd update_status
  containerd-IsOwn comp w = ((refl, refl), ((refl, refl), after_fetch-IsOwn comp _))

  containers-IsOwn :
      (i : ℕ) (imgs : List String) (w : W) → Own (deploy_containers M en req i imgs w).sent
  unfolding deploy_containers
  containers-IsOwn i [] w = tt
  containers-IsOwn i (img ∷ imgs) w =
      let comp = concat ("component-" ∷ M.decimal i ∷ []) in
      let first = deploy_containerd M en req comp w in
      let own = containerd-IsOwn comp w in
      let rest = containers-IsOwn (suc i) imgs first.world in
      elim (Option-cases first.error) [
        | inl e ↦ rw (deploy_containers, e) (All-append _ first.sent _ own rest)
        | inr (x, e) ↦ rw (deploy_containers, e) own
      ]

  wasm-IsOwn : (imgs : List String) (w : W) → Own (deploy_wasm M en imgs w).sent
  unfolding deploy_wasm
  wasm-IsOwn [] w = tt
  wasm-IsOwn (img ∷ imgs) w = tt

  pub deploy-IsOwn : (w : W) → Own (deploy M en req w).sent
  unfolding deploy
  deploy-IsOwn w = elim (Bool-cases (en.runtime == "wasm")) [
    | inl e ↦ rw e (wasm-IsOwn req.wasm_images w)
    | inr e ↦ rw e (containers-IsOwn 0 req.container_images w)
  ]
