-- ===== src/Images.antt =====
-- internal/ocifetch/fetcher.go: the fetcher of images. The registry library and the local store
-- are parameters.
use margo_hello_world.Common.{
  String, [], ◌∷◌, Option, none, some, ◌≡◌, ◌⊎◌, inl, inr, refl, ap, sym, ◌∙◌, arith, Sum-cases,
}
use margo_hello_world.Common.Texts.{concat}
use margo_hello_world.EdgeNode.{Machine}

pub record Fetcher : Type 0 where
  pub image : String
  pub tag : String
  pub token : String

-- auth.Credential, for the host of the registry that the image names
pub record Credential : Type 0 where
  pub registry : String
  pub username : String
  pub password : String

pub record Registry (W : Type 0) : Type 0 where
  -- remote.NewRepository: an error, or the host of the registry
  pub new_repository : String → String ⊎ String
  -- oci.New of a directory
  pub new_store : String → W → W × Option String
  -- oras.Copy of an image with a tag into the store of a directory
  pub copy : String → Credential → String → String → W → W × Option String

abbrev pub local_cache : String
local_cache = "local-cache"

-- return fmt.Errorf("prefix: %w", err)
abbrev prefixed : String → String → Option String
prefixed prefix e = some (concat (prefix ∷ ": " ∷ e ∷ []))

module _ {W : Type 0} (R : Registry W) where
  -- The last step of Fetch, with the answer of oras.Copy.
  unfoldable pub copied : W × Option String → W × Option String
  copied (w, none) = (w, none)
  copied (w, some e) = (w, prefixed "oras copy failed" e)

  unfoldable pub with_store : W × Option String → (W → W × Option String) → W × Option String
  with_store (w, none) next = next w
  with_store (w, some e) next = (w, prefixed "failed to create oci store" e)

  -- Fetch
  unfoldable pub fetch : Fetcher → W → W × Option String
  fetch f w = elim (R.new_repository f.image) [
    | inl e ↦ (w, prefixed "invalid repo" e)
    | inr registry ↦ with_store (R.new_store local_cache w) λ w'. copied (
        R.copy f.image (record { registry = registry; username = "balaji"; password = f.token })
          f.tag local_cache w')
  ]

  -- The fetcher that the listener of an edge node makes for each component.
  unfoldable pub fetching : String → Machine W → Machine W
  unfolding fetch
  fetching token M = record M {
    fetch = λ image tag w. fetch (record { image = image; tag = tag; token = token }) w;
  }

  copied_ok : (r : W × Option String) → (copied r).1 ≡ none → copied r ≡ r
  unfolding copied
  copied_ok (w, none) h = refl
  copied_ok (w, some e) h = ground (arith, h)

  with_store_ok :
      (r : W × Option String) (next : W → W × Option String)
      → (with_store r next).1 ≡ none
      → with_store r next ≡ next r.0
  unfolding with_store
  with_store_ok (w, none) next h = refl
  with_store_ok (w, some e) next h = absurd (ground (arith, h))

  -- Fetch has no error only if the image names a repository and its tag has been copied into the
  -- store; what it leaves is then what the copy left.
  pub fetched :
      (f : Fetcher) (w : W)
      → (fetch f w).1 ≡ none
      → (registry : String) × (R.new_repository f.image ≡ inr registry)
        × (fetch f w
            ≡ R.copy f.image
                (record { registry = registry; username = "balaji"; password = f.token })
                f.tag
                local_cache
                (R.new_store local_cache w).0)
  unfolding fetch with_store
  fetched f w h = elim (Sum-cases (R.new_repository f.image)) [
    | inl (e, p) ↦
        let refused : fetch f w ≡ (w, prefixed "invalid repo" e) = rw (fetch, p) refl in
        absurd (ground (arith, ap (λ (r : W × Option String). r.1) refused, h))
    | inr (registry, p) ↦
        let copying : W → W × Option String = λ w'.
          R.copy f.image (record { registry = registry; username = "balaji"; password = f.token })
            f.tag local_cache w' in
        let stored = R.new_store local_cache w in
        let opened : fetch f w ≡ with_store stored (λ w'. copied (copying w')) =
          rw (fetch, p) refl in
        let ok = sym (ap (λ (r : W × Option String). r.1) opened) ∙ h in
        let e = with_store_ok stored (λ w'. copied (copying w')) ok in
        let ok' = sym (ap (λ (r : W × Option String). r.1) e) ∙ ok in
        (registry, p, opened ∙ (e ∙ copied_ok (copying stored.0) ok'))
  ]
