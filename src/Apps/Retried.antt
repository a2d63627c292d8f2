-- ===== src/Apps/Retried.antt =====
-- CreateApp of internal/api/handlers/apps.go after a Persist that has saved the application's row.
use margo_hello_world.Common.{
  ℕ, String, List, [], ◌∷◌, ◌++◌, Bool, true, Option, none, some, ◌≡◌, refl, ◌∙◌, ap, ◌⊎◌, inr, any,
  arith,
}
use mathlib.Core.Option.{get_or}
use margo_hello_world.Description.{ApplicationDescription, ApplicationMetadata}
use margo_hello_world.Requests.{Registry}
use margo_hello_world.Central.{and_then}
use margo_hello_world.Fetcher.{Client}
use margo_hello_world.Apps.{
  AppRow, Store, app_row, persist, persist_profiles, Shop, failed, CreateAppRequest, create_app,
}
use margo_hello_world.Apps.Tables.{Tables, IsDatabase}
use margo_hello_world.Apps.Saving.{apps-persist_profiles}

any_last {ℓ} :
    {A : Type ℓ} (p : A → Bool) (xs : List A) (x : A) → p x ≡ true → any p (xs ++ x ∷ []) ≡ true
any_last p [] x h = ground arith
any_last p (y ∷ xs) x h = ground (arith, any_last p xs x h)

after_no_error :
    {D : Type 0} (r : D × Option String) (next : D → D × Option String)
    → r.1 ≡ none
    → and_then r next ≡ next r.0
unfolding and_then
after_no_error (d, none) next h = refl
after_no_error (d, some e) next h = cc

module _ {D Disk : Type 0} (S : Store D) (registry : D → Registry) (tables : D → Tables)
    (matches : String → String → Bool) (h : IsDatabase S registry tables matches) (C : Client Disk)
    (unmarshal : String → String ⊎ ApplicationDescription) where
  -- The row of the application stays, however the profiles and the components end.
  apps-persist :
      (ad : ApplicationDescription) (a : ApplicationMetadata) (d : D) (r : D × Option String)
      → ad.metadata.catalog.application ≡ some a
      → (S.save_app (app_row ad.metadata a) d).1 ≡ none
      → persist S ad d ≡ some r
      → (tables r.0).apps ≡ (tables d).apps ++ app_row ad.metadata a ∷ []
  unfolding persist
  apps-persist ad a d r with_app saved p =
      let row = app_row ad.metadata a in
      let k = rw (with_app, persist) at p in
      let ends = ap (λ (o : Option (D × Option String)). get_or o r) k in
      let kept =
        apps-persist_profiles S registry tables matches h ad.metadata.id ad.deployment_profiles
          (S.save_app row d).0 in
      let next = persist_profiles S ad.metadata.id ad.deployment_profiles in
      rw (← ends, after_no_error (S.save_app row d) next saved)
        (kept ∙ ap (λ t. t.apps) (h.app_saved row d saved))

  -- Over a database that answers, when Persist saved the row of an application, then whether or
  -- not it went on to end with an error, CreateApp refuses each request whose name matches that of
  -- the application as a duplicate, and changes nothing.
  pub retry_refused :
      (ad : ApplicationDescription) (a : ApplicationMetadata) (d : D) (e : Option String) (fuel : ℕ)
      (token : String) (req : CreateAppRequest) (s : Shop D Disk)
      → ad.metadata.catalog.application ≡ some a
      → (S.save_app (app_row ad.metadata a) d).1 ≡ none
      → persist S ad d ≡ some (s.db, e)
      → matches req.app_name ad.metadata.name ≡ true
      → create_app S C unmarshal fuel token (inr req) s
        ≡ some (s, failed 500 "duplicate apps found")
  unfolding create_app app_row
  retry_refused ad a d e fuel token req s with_app saved p m =
      let kept = apps-persist ad a d (s.db, e) with_app saved p in
      let row = app_row ad.metadata a in
      let test : any (λ r. matches req.app_name r.name) (tables s.db).apps ≡ true =
        rw kept (any_last (λ (r : AppRow). matches req.app_name r.name) (tables d).apps row m) in
      let (r, rs, found) = h.name_found req.app_name s.db test in rw (found, create_app) refl
