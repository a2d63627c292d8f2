-- ===== src/Apps/Created.antt =====
-- A request that CreateApp of internal/api/handlers/apps.go answers as created.
use mathlib.Core.Option.{get_or}
use margo_hello_world.Common.{
  ℕ, String, [], ◌∷◌, Option, none, some, words, ◌≡◌, refl, ap, ◌⊎◌, inl, inr, Sum-cases,
}
use margo_hello_world.Description.{ApplicationDescription}
use margo_hello_world.Fetcher.{Client}
use margo_hello_world.Apps.{
  Store, persist, Shop, Response, created, CreateAppRequest, create_app, add_app, fetched,
  persisted,
}

module _ {D Disk : Type 0} (S : Store D) (C : Client Disk)
    (unmarshal : String → String ⊎ ApplicationDescription) where
  persisted_created :
      (ad ad' : ApplicationDescription) (s s' : Shop D Disk) (o : Option (D × Option String))
      → persisted S C unmarshal ad s o ≡ some (s', created ad')
      → o ≡ (persist S ad s.db)
      → persist S ad' s.db ≡ some (s'.db, none)
  unfolding persisted
  persisted_created ad ad' s s' none h p = cc
  persisted_created ad ad' s s' (some (d, some e)) h p = cc
  persisted_created ad ad' s s' (some (d, none)) h p =
      let same : ad ≡ ad' = cc in
      let db : d ≡ s'.db =
        ap (λ (o : Option (Shop D Disk × Response)). (get_or o (s', created ad)).0.db) h in
      rw (← same, ← db, p) refl

  fetched_created :
      (ad : ApplicationDescription) (s s' : Shop D Disk) (o : Option (Disk × (String ⊎ String)))
      → fetched S C unmarshal s o ≡ some (s', created ad)
      → persist S ad s.db ≡ some (s'.db, none)
  unfolding fetched
  fetched_created ad s s' none h = cc
  fetched_created ad s s' (some (disk, inl e)) h = cc
  fetched_created ad s s' (some (disk, inr content)) h = elim (Sum-cases (unmarshal content)) [
    | inl (e, p) ↦ let k = rw (p, fetched) at h in cc
    | inr (ad', p) ↦
        let k = rw (p, fetched) at h in
        persisted_created ad' ad (record s { disk = disk }) s' (persist S ad' s.db) k refl
  ]

  -- A request that is answered as created has saved the description without an error.
  pub create_app_created :
      (fuel : ℕ) (token : String) (req : CreateAppRequest) (ad : ApplicationDescription)
      (s s' : Shop D Disk)
      → create_app S C unmarshal fuel token (inr req) s ≡ some (s', created ad)
      → persist S ad s.db ≡ some (s'.db, none)
  unfolding create_app add_app
  create_app_created fuel token req ad s s' h =
      elim (Sum-cases (S.name_contains_fold req.app_name s.db)) [
        | inl (e, p) ↦ let k = rw (p, create_app) at h in cc
        | inr ([], p) ↦
            let k = rw (p, create_app) at h in
            let g = record (s.fetcher) { repo_url = req.repo_url } in
            fetched_created ad (record s { fetcher = g }) s' _ k
        | inr (x ∷ xs, p) ↦ let k = rw (p, create_app) at h in cc
      ]
