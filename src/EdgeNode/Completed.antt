-- ===== src/EdgeNode/Completed.antt =====
-- internal/edgenode/edgenode.go: the report at the end of a request.
use margo_hello_world.Common.{
  ℕ, suc, String, List, [], ◌∷◌, ◌++◌, Option, none, some, ◌≡◌, refl, inl, inr, Option-cases, ◌==◌,
  words, Bool-cases,
}
use margo_hello_world.Common.Texts.{concat}
use margo_hello_world.Model.{DeployRequest, status_completed}
use margo_hello_world.EdgeNode.{
  Sent, status, report, Machine, EdgeNode, after_run, after_fetch, deploy_containerd,
  deploy_containers, deploy_wasm, deploy, on_request, update_status, report_of,
}

-- The states of the reports among those that were sent.
abbrev pub report_states : List Sent → List String
report_states [] = []
report_states (status _ _ ∷ sent) = report_states sent
report_states (report _ r ∷ sent) = r.status ∷ report_states sent

report_states-append :
    (a b : List Sent) → report_states (a ++ b) ≡ report_states a ++ report_states b
report_states-append [] b = refl
report_states-append (status _ _ ∷ a) b = report_states-append a b
report_states-append (report _ r ∷ a) b = rw (report_states-append a b) refl

module _ {W : Type 0} (M : Machine W) (en : EdgeNode) where
  no_report_run :
      (req : DeployRequest) (comp : String) (o : W × Option (String × String))
      → report_states (after_run M en req comp o).sent ≡ []
  unfolding after_run update_status
  no_report_run req comp (w, none) = refl
  no_report_run req comp (w, some (e, out)) = refl

  no_report_fetch :
      (req : DeployRequest) (comp : String) (o : W × Option String)
      → report_states (after_fetch M en req comp o).sent ≡ []
  unfolding after_fetch update_status
  no_report_fetch req comp (w, none) = no_report_run req comp _
  no_report_fetch req comp (w, some e) = refl

  no_report_container :
      (req : DeployRequest) (comp : String) (w : W)
      → report_states (deploy_containerd M en req comp w).sent ≡ []
  unfolding deploy_containerd update_status
  no_report_container req comp w = no_report_fetch req comp _

  no_report_containers :
      (req : DeployRequest) (i : ℕ) (imgs : List String) (w : W)
      → report_states (deploy_containers M en req i imgs w).sent ≡ []
  unfolding deploy_containers
  no_report_containers req i [] w = refl
  no_report_containers req i (img ∷ imgs) w =
      let comp = concat ("component-" ∷ M.decimal i ∷ []) in
      let r = deploy_containerd M en req comp w in
      elim (Option-cases r.error) [
        | inr (_, e) ↦ rw (deploy_containers, e) (no_report_container req comp w)
        | inl e ↦
            rw (deploy_containers, e, report_states-append, no_report_container req comp w)
              (no_report_containers req (suc i) imgs r.world)
      ]

  no_report_wasm : (imgs : List String) (w : W) → report_states (deploy_wasm M en imgs w).sent ≡ []
  unfolding deploy_wasm
  no_report_wasm [] w = refl
  no_report_wasm (_ ∷ _) w = refl

  no_report_deploy : (req : DeployRequest) (w : W) → report_states (deploy M en req w).sent ≡ []
  unfolding deploy
  no_report_deploy req w = elim (Bool-cases (en.runtime == "wasm")) [
    | inl e ↦ rw e (no_report_wasm req.wasm_images w)
    | inr e ↦ rw e (no_report_containers req 0 req.container_images w)
  ]

  -- Whatever fetching and running come to, a node ends a request with exactly one report, and its
  -- status is "completed".
  pub always_completed :
      (now : String) (req : DeployRequest) (w : W)
      → report_states (on_request M en now req w).1 ≡ status_completed ∷ []
  unfolding on_request report_of
  always_completed now req w =
      rw (report_states-append (deploy M en req w).sent, no_report_deploy req w) refl
