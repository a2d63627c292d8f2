-- ===== src/Requests/Started.antt =====
-- CreateDeployment of internal/api/handlers/deployment.go: the requests that start deployments.
use margo_hello_world.Common.{
  ℕ, zero, suc, ◌+◌, String, List, [], ◌∷◌, Option, some, ◌≡◌, refl, ap, arith, length, inr, ◌==◌,
  words, if◌then◌else◌,
}
use margo_hello_world.Model.{ApplicationDeployment}
use margo_hello_world.Central.{Calls, create_deployment}
use margo_hello_world.Status.{Database, bump}
use margo_hello_world.Requests.{
  AppDesc, Profile, ComponentRow, HostMapping, App, Registry, started, Center, start_site,
  start_sites, create_deployment_handler, read_registry, build_application_deployment,
}

-- The first `k` ids from the n-th on.
abbrev pub ids : (ℕ → String) → ℕ → ℕ → List String
ids new_id n zero = []
ids new_id n (suc k) = new_id n ∷ ids new_id (suc n) k

-- How often a text is in a list.
abbrev pub occurrences : String → List String → ℕ
occurrences x [] = 0
occurrences x (y ∷ ys) = let rest = occurrences x ys in if y == x then suc rest else rest

one_more :
    (id x : String) (n m a b d : ℕ)
    → m ≡ n
    → b ≡ (if id == x then suc a else a)
    → d ≡ m + b
    → d ≡ (if id == x then suc n else n) + a
one_more id x n m a b d p q r = ground arith

module _ (D : Database) {W : Type 0} (calls : Calls W) (path : String) (new_id : ℕ → String)
    (marshal : ApplicationDeployment → Option String)
    (total : (dep : ApplicationDeployment) → (yaml : String) × (marshal dep ≡ some yaml)) where
  abbrev Site : Type 0
  Site = Center D {W = W} calls (some path) new_id marshal

  start_site_total :
      (site id yaml : String) (c : Site)
      → (d : Site) × ((start_site D calls (some path) new_id marshal site id yaml c ≡ some d)
          × ((d.next_id ≡ c.next_id) × (d.api.incremented ≡ bump id c.api.incremented)))
  unfolding start_site create_deployment
  start_site_total site id yaml c = (_, (refl, (refl, refl)))

  -- All sites are passed, whatever the calls answer.
  start_sites_total :
      (desc : AppDesc) (profile : Profile) (components : List ComponentRow)
      (sites : List HostMapping) (c : Site)
      → (d : Site) × ((start_sites D calls
              (some path)
              new_id
              marshal
              desc
              profile
              components
              sites
              c
            ≡ some (d, ids new_id c.next_id (length sites)))
          × ((x : String)
              → d.api.incremented x
                ≡ occurrences x (ids new_id c.next_id (length sites)) + c.api.incremented x))
  unfolding start_sites
  start_sites_total desc profile components [] c = (c, (refl, λ x. omega arith))
  start_sites_total desc profile components (site ∷ sites) c =
      let id = new_id c.next_id in
      let c' = record c { next_id = suc c.next_id } in
      let (yaml, m) =
        total (build_application_deployment desc profile components site.site_id id) in
      let (mid, (e, (n, inc))) = start_site_total site.site_id id yaml c' in
      let (d, (f, rest)) = start_sites_total desc profile components sites mid in
      (
        d,
        (
          rw (start_sites, m, e, f) (ap (λ k. some (d, id ∷ ids new_id k (length sites))) n),
          λ x.
              one_more id x _ _ _ _ _ (ap (λ k. occurrences x (ids new_id k (length sites))) n)
                (ap (λ f. f x) inc) (rest x),
        ),
      )

  -- A request whose app, profile and components are found is answered with the next ids of the
  -- generator, one for each of its sites in order, whether or not anything could be written or
  -- saved, as long as every desired state can be marshalled and the repository is registered; each
  -- id is counted once in the gauge of active deployments.
  pub starts_every_site :
      (g : Registry) (app : App) (found : AppDesc × (Profile × List ComponentRow)) (c : Site)
      → read_registry g app ≡ inr found
      → (d : Site) × ((create_deployment_handler D calls (some path) new_id marshal g (inr app) c
            ≡ some (d, started (ids new_id c.next_id (length app.sites))))
          × ((x : String)
              → d.api.incremented x
                ≡ occurrences x (ids new_id c.next_id (length app.sites)) + c.api.incremented x))
  unfolding create_deployment_handler
  starts_every_site g app (desc, (profile, components)) c e =
      let (d, (f, inc)) = start_sites_total desc profile components app.sites c in
      (d, (rw (create_deployment_handler, e, f) refl, inc))
