-- ===== src/EdgeNode/Revision.antt =====
-- internal/edgenode/edgenode.go: what the work of a node depends on.
use margo_hello_world.Common.{
  ℕ, String, List, [], ◌∷◌, Option, none, some, ◌≡◌, refl, sym, ap, ◌∙◌, inl, inr, Option-cases,
  ◌==◌, words, Bool-cases,
}
use mathlib.Core.Option.{get_or}
use margo_hello_world.Common.Texts.{concat}
use margo_hello_world.Model.{DeployRequest, Component}
use margo_hello_world.Lo.Deploy.{request_of}
use margo_hello_world.EdgeNode.{
  Machine, EdgeNode, after_run, after_fetch, deploy_containerd, deploy_containers, deploy_wasm,
  deploy, on_request,
}

module _ {W : Type 0} (M : Machine W) (en : EdgeNode) where
  world_after_run :
      (req req' : DeployRequest) (comp : String) (o : W × Option (String × String))
      → (after_run M en req comp o).world ≡ (after_run M en req' comp o).world
  unfolding after_run
  world_after_run req req' comp (w, none) = refl
  world_after_run req req' comp (w, some (e, out)) = refl

  world_after_fetch :
      (req req' : DeployRequest) (comp : String) (o : W × Option String)
      → req.image ≡ req'.image
      → req.revision ≡ req'.revision
      → (after_fetch M en req comp o).world ≡ (after_fetch M en req' comp o).world
  unfolding after_fetch
  world_after_fetch req req' comp (w, some e) p q = refl
  world_after_fetch req req' comp (w, none) p q = world_after_run req req' comp _ ∙ (λ i.
      (after_run M en req' comp (M.docker_run (q i) (concat (p i ∷ ":" ∷ q i ∷ [])) w)).world)

  -- Two requests with the same image and revision do the same to the machine.
  container_world :
      (req req' : DeployRequest) (comp : String) (w : W)
      → req.image ≡ req'.image
      → req.revision ≡ req'.revision
      → (deploy_containerd M en req comp w).world ≡ (deploy_containerd M en req' comp w).world
  unfolding deploy_containerd
  container_world req req' comp w p q =
      world_after_fetch req req' comp _ p q
      ∙ (λ i. (after_fetch M en req' comp (M.fetch (p i) (q i) w)).world)

  single_world :
      (req : DeployRequest) (i : ℕ) (img : String) (w : W)
      → (deploy_containers M en req i (img ∷ []) w).world
        ≡ (deploy_containerd M en req (concat ("component-" ∷ M.decimal i ∷ [])) w).world
  unfolding deploy_containers
  single_world req i img w =
      elim (Option-cases
        (deploy_containerd M en req (concat ("component-" ∷ M.decimal i ∷ [])) w).error) [
          | inl e ↦ rw (deploy_containers, e) refl
          | inr (_, e) ↦ rw (deploy_containers, e) refl
        ]

  -- A request with one image.
  one_image :
      (req req' : DeployRequest) (img img' : String) (w : W)
      → req.image ≡ req'.image
      → req.revision ≡ req'.revision
      → (req.wasm_images ≡ []) × (req'.wasm_images ≡ [])
      → (req.container_images ≡ img ∷ []) × (req'.container_images ≡ img' ∷ [])
      → (deploy M en req w).world ≡ (deploy M en req' w).world
  unfolding deploy deploy_wasm
  one_image req req' img img' w p q (a, a') (b, b') = elim (Bool-cases (en.runtime == "wasm")) [
    | inl e ↦ rw (e, a, a') refl
    | inr e ↦ rw e (
        ap (λ l. (deploy_containers M en req 0 l w).world) b
        ∙ single_world req 0 img w
        ∙ container_world req req' _ w p q
        ∙ sym (single_world req' 0 img' w)
        ∙ sym (ap (λ l. (deploy_containers M en req' 0 l w).world) b'))
  ]

  -- What a local orchestrator asks for.
  requested :
      (id : String) (c : Component) (cs : List Component) (req : DeployRequest)
      → request_of (c ∷ cs) id ≡ some req
      → (req.image ≡ "")
        × (req.revision ≡ c.properties.revision)
        × (req.wasm_images ≡ [])
        × (req.container_images ≡ c.properties.repository ∷ [])
  unfolding request_of
  requested id c cs req r = (
    sym (ap (λ o. (get_or o req).image) r),
    sym (ap (λ o. (get_or o req).revision) r),
    sym (ap (λ o. (get_or o req).wasm_images) r),
    sym (ap (λ o. (get_or o req).container_images) r),
  )

  -- What a node does to its machine for a request of the local orchestrator does not depend on the
  -- repository of the component, but on its revision alone.
  pub repository_ignored :
      (now id : String) (c d : Component) (cs ds : List Component) (req req' : DeployRequest)
      (w : W)
      → c.properties.revision ≡ d.properties.revision
      → request_of (c ∷ cs) id ≡ some req
      → request_of (d ∷ ds) id ≡ some req'
      → (on_request M en now req w).0 ≡ (on_request M en now req' w).0
  unfolding on_request
  repository_ignored now id c d cs ds req req' w same r r' =
      let a = requested id c cs req r in
      let b = requested id d ds req' r' in
      one_image req req' c.properties.repository d.properties.repository w (a.0 ∙ sym b.0)
        (a.1 ∙ same ∙ sym b.1) (a.2, b.2) (a.3, b.3)
