-- ===== src/Polling/Posted.antt =====
-- PostDeployment of internal/orchestrator/poll.go: which hosts a request is posted to.
use margo_hello_world.Common.{
  ℕ, String, List, [], ◌∷◌, ◌++◌, none, ◌==◌, numbers, ◌≡◌, ◌≢◌, refl, ap, inl, inr, map, All,
  ==_iff, Bool-cases,
}
use margo_hello_world.Model.{DeployRequest}
use margo_hello_world.Polling.{Hosts, deploy_url, post_deployment, after_post}

module _ {W : Type 0} (H : Hosts W) (req : DeployRequest) where
  -- Whatever happened before, the host answers with this status.
  abbrev pub Answers : ℕ → String → Type 0
  Answers code host = (w : W) → (H.post (deploy_url host) req w).1 ≡ inr code

  refused_first :
      (host : String) (hosts : List String) (code : ℕ) (w : W)
      → Answers code host
      → code ≢ 200
      → ((post_deployment H req (host ∷ hosts) w).urls ≡ deploy_url host ∷ [])
        × ((post_deployment H req (host ∷ hosts) w).error ≡ none)
  unfolding post_deployment after_post
  refused_first host hosts code w a n = elim (Bool-cases (code == 200)) [
    | inl e ↦ absurd (n ((==_iff code 200).0 e))
    | inr e ↦ rw (a w, e) (refl, refl)
  ]

  -- When every host up to one accepts a request and that one always answers with a status other
  -- than 200, PostDeployment posts to the hosts up to and including that one, not to those behind
  -- it, and returns no error.
  pub refusal_hidden :
      (front : List String) (host : String) (back : List String) (code : ℕ) (w : W)
      → All (Answers 200) front
      → Answers code host
      → code ≢ 200
      → ((post_deployment H req (front ++ host ∷ back) w).urls
          ≡ map deploy_url (front ++ host ∷ []))
        × ((post_deployment H req (front ++ host ∷ back) w).error ≡ none)
  unfolding post_deployment after_post
  refusal_hidden [] host back code w os a n = refused_first host back code w a n
  refusal_hidden (x ∷ front) host back code w (o, os) a n =
      let (urls, error) =
        refusal_hidden front host back code (H.post (deploy_url x) req w).0 os a n in
      rw (o w) (ap (◌∷◌ (deploy_url x)) urls, error)
