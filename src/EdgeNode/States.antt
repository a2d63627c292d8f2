-- ===== src/EdgeNode/States.antt =====
-- internal/edgenode/edgenode.go: the states that a node reports.
use margo_hello_world.Common.{
  ℕ, zero, suc, String, List, [], ◌∷◌, ◌++◌, false, Option, none, some, ◌≡◌, refl, arith, length,
  ◌<◌, ◌⊎◌, inl, inr, ◌==◌, words,
}
use mathlib.Core.List.{append-nil}
use margo_hello_world.Common.Texts.{concat}
use margo_hello_world.Model.{
  DeployRequest, state_pending, state_installing, state_installed, state_failed,
}
use margo_hello_world.EdgeNode.{
  Sent, status, report, Machine, EdgeNode, Result, after_run, after_fetch, deploy_containerd,
  deploy_containers, deploy, on_request, update_status,
}

-- The states of the status messages among those that were sent.
abbrev pub states : List Sent → List String
states [] = []
states (status _ s ∷ sent) = s.status.state ∷ states sent
states (report _ _ ∷ sent) = states sent

-- k containers that are installed, one after the other.
abbrev pub installs : ℕ → List String
installs zero = []
installs (suc k) = state_pending ∷ state_installing ∷ state_installed ∷ installs k

abbrev pub failing : List String
failing = state_pending ∷ state_installing ∷ state_failed ∷ []

-- How the containers of a request went, by the error and the messages of `deploy_containers`.
abbrev pub Outcome : {W : Type 0} → ℕ → Result W → Type 0
Outcome n r =
    ((r.error ≡ none) × (states r.sent ≡ installs n))
    ⊎ ((k : ℕ) × ((k < n)
          × ((e : String) × ((r.error ≡ some e) × (states r.sent ≡ installs k ++ failing)))))

module _ {W : Type 0} (M : Machine W) (en : EdgeNode) where
  after_run-outcome :
      (req : DeployRequest) (comp : String) (o : W × Option (String × String))
      → let r = after_run M en req comp o in
        ((r.error ≡ none) × (states r.sent ≡ state_installed ∷ []))
        ⊎ ((e : String) × ((r.error ≡ some e) × (states r.sent ≡ state_failed ∷ [])))
  unfolding after_run update_status
  after_run-outcome req comp (w, none) = inl (refl, refl)
  after_run-outcome req comp (w, some (e, out)) = inr (e, (refl, refl))

  after_fetch-outcome :
      (req : DeployRequest) (comp : String) (o : W × Option String)
      → let r = after_fetch M en req comp o in
        ((r.error ≡ none) × (states r.sent ≡ state_installed ∷ []))
        ⊎ ((e : String) × ((r.error ≡ some e) × (states r.sent ≡ state_failed ∷ [])))
  unfolding after_fetch update_status
  after_fetch-outcome req comp (w, none) = after_run-outcome req comp _
  after_fetch-outcome req comp (w, some e) = inr (e, (refl, refl))

  pub deploy_containerd-outcome :
      (req : DeployRequest) (comp : String) (w : W)
      → let r = deploy_containerd M en req comp w in
        ((r.error ≡ none) × (states r.sent ≡ installs 1))
        ⊎ ((e : String) × ((r.error ≡ some e) × (states r.sent ≡ failing)))
  unfolding deploy_containerd update_status
  deploy_containerd-outcome req comp w =
      elim (after_fetch-outcome req comp (M.fetch req.image req.revision w)) [
        | inl (e, s) ↦ inl (e, rw s refl)
        | inr (x, (e, s)) ↦ inr (x, (e, rw s refl))
      ]

  states-append : (a b : List Sent) → states (a ++ b) ≡ states a ++ states b
  states-append [] b = refl
  states-append (status _ s ∷ a) b = rw (states-append a b) refl
  states-append (report _ _ ∷ a) b = states-append a b

  pub deploy_containers-Outcome :
      (req : DeployRequest) (i : ℕ) (imgs : List String) (w : W)
      → Outcome (length imgs) (deploy_containers M en req i imgs w)
  unfolding deploy_containers
  deploy_containers-Outcome req i [] w = inl (refl, refl)
  deploy_containers-Outcome req i (img ∷ imgs) w =
      let comp = concat ("component-" ∷ M.decimal i ∷ []) in
      let r = deploy_containerd M en req comp w in
      elim (deploy_containerd-outcome req comp w) [
        | inr (x, (e, s)) ↦ rw (deploy_containers, e) (inr (0, (omega arith, (_, (refl, s)))))
        | inl (e, s) ↦ elim (deploy_containers-Outcome req (suc i) imgs r.world) [
          | inl (f, t) ↦ rw (deploy_containers, e) (inl (f, rw (states-append, s, t) refl))
          | inr (k, (l, (x, (f, t)))) ↦
              rw (deploy_containers, e)
                (inr (suc k, (omega arith, (x, (f, rw (states-append, s, t) refl)))))
        ]
      ]

  -- A node that runs containers reports pending, installing and installed for each image in turn,
  -- or stops at an image with pending, installing and failed.
  pub container_states :
      (now : String) (req : DeployRequest) (w : W)
      → en.runtime == "wasm" ≡ false
      → let n = length req.container_images in
        let sent = (on_request M en now req w).1 in
        (states sent ≡ installs n) ⊎ ((k : ℕ) × ((k < n) × (states sent ≡ installs k ++ failing)))
  unfolding on_request deploy
  container_states now req w h =
      rw h (elim (deploy_containers-Outcome req 0 req.container_images w) [
        | inl (e, s) ↦ inl (rw (states-append, s) (append-nil _))
        | inr (k, (l, (x, (e, s)))) ↦ inr (k, (l, rw (states-append, s) (append-nil _)))
      ])
