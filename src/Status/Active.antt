-- ===== src/Status/Active.antt =====
-- DeploymentStatusHandler of internal/api/handlers/deploystatus.go: what a sequence of reports does
-- to the gauge of active deployments.
use margo_hello_world.Common.{
  ℕ, suc, ◌+◌, String, List, [], ◌∷◌, ◌&&◌, Bool, true, false, none, some, ◌==◌, words, ◌≡◌, refl,
  if◌then◌else◌, arith, Option-cases, inl, inr, sym, ap, ◌∙◌,
}
use mathlib.Core.Option.{get_or}
use margo_hello_world.Model.{DeploymentStatus}
use margo_hello_world.Streams.{broadcast}
use margo_hello_world.Status.{
  Database, Api, is_terminal, event_of, bump, deployment_status_handler, handle_statuses,
}

-- The reports of a deployment that end it.
abbrev pub terminal : String → List DeploymentStatus → ℕ
terminal id [] = 0
terminal id (ds ∷ dss) =
    let rest = terminal id dss in
    if is_terminal ds && ds.deployment_id == id then suc rest else rest

counted :
    (t : Bool) (key id : String) (f : String → ℕ) (n : ℕ)
    → (if t && key == id then suc n else n) + f id ≡ n + (if t then bump key f else f) id
counted false key id f n = refl
counted true key id f n = ground arith

counted_one :
    (t : Bool) (key id : String) (f : String → ℕ)
    → (if t then bump key f else f) id ≡ (if t && key == id then suc 0 else 0) + f id
counted_one t key id f = omega (arith, counted t key id f 0)

first_then_rest :
    (t : Bool) (key id : String) (n a b c : ℕ)
    → b ≡ (if t && key == id then suc 0 else 0) + a
    → c ≡ n + b
    → c ≡ (if t && key == id then suc n else n) + a
first_then_rest t key id n a b c h k = ground arith

module _ (D : Database) where
  no_panic : (api : Api D) → none ≡ some api → ⊥
  no_panic api h = ground arith

  one_report :
      (now : String) (ds : DeploymentStatus) (api api' : Api D) (id : String)
      → deployment_status_handler D now (some ds) api ≡ some api'
      → (api'.decremented id ≡ terminal id (ds ∷ []) + api.decremented id)
        × (api'.incremented id ≡ api.incremented id)
  unfolding deployment_status_handler
  one_report now ds api api' id h =
      elim (Option-cases (broadcast ds.deployment_id (event_of now ds) api.manager)) [
        | inl e ↦ absurd (no_panic _ (rw (deployment_status_handler, e) at h))
        | inr (m, e) ↦
            let k = rw (deployment_status_handler, e) at h in
            (
              sym (ap (λ o. (get_or o api').decremented id) k)
                  ∙ counted_one (is_terminal ds) ds.deployment_id id api.decremented,
              sym (ap (λ o. (get_or o api').incremented id) k),
            )
      ]

  -- A sequence of reports that is handled lowers the gauge of active deployments for an id once
  -- for each report of that id that says failed or installed, and raises it never.
  pub gauge_after_reports :
      (now : String) (dss : List DeploymentStatus) (api api' : Api D) (id : String)
      → handle_statuses D now dss api ≡ some api'
      → (api'.decremented id ≡ terminal id dss + api.decremented id)
        × (api'.incremented id ≡ api.incremented id)
  unfolding handle_statuses
  gauge_after_reports now [] api api' id h = (
    omega (arith, ap (λ o. (get_or o api').decremented id) h),
    sym (ap (λ o. (get_or o api').incremented id) h),
  )
  gauge_after_reports now (ds ∷ dss) api api' id h =
      elim (Option-cases (deployment_status_handler D now (some ds) api)) [
        | inl e ↦ absurd (no_panic _ (rw (handle_statuses, e) at h))
        | inr (mid, e) ↦
            let first = one_report now ds api mid id e in
            let rest = gauge_after_reports now dss mid api' id (rw (handle_statuses, e) at h) in
            (
              first_then_rest (is_terminal ds) ds.deployment_id id (terminal id dss)
                  (api.decremented id) (mid.decremented id) (api'.decremented id) first.0 rest.0,
              rest.1 ∙ first.1,
            )
      ]
