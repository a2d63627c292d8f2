-- ===== src/Watcher/History.antt =====
-- A run of a watcher of internal/watcher/watcher.go, from its start over a history of commits.
use margo_hello_world.Common.{
  String, List, [], ◌∷◌, none, some, ◌≡◌, refl, ◌≢◌, ap, map, All, inr, ◌⊎◌,
}
use margo_hello_world.Common.Texts.Slashes.{IsElement}
use margo_hello_world.Lo.Deploy.{DeploymentChange}
use margo_hello_world.Watcher.{Answers, passes, start, notify, called_first}
use margo_hello_world.Watcher.Reports.{
  Created, path_of, told, IsCreated, Sees, pass-created, pass_loses,
}

-- A pass that sees a new commit, with the deployments that it created.
pub record Seen : Type 0 where
  pub answers : Answers
  pub path : String
  pub commit : String
  pub created : List Created

-- Passes that each see the next commit of a history.
abbrev pub IsHistory : String → List Seen → Type 0
IsHistory last [] = Unit
IsHistory last (h ∷ hs) =
    Sees h.answers h.path (some h.commit)
    × (last ≢ "")
    × (h.commit ≢ last)
    × (h.answers.patch last h.commit ≡ some (map path_of h.created))
    × All IsCreated h.created
    × IsHistory h.commit hs

abbrev pub final : String → List Seen → String
final last [] = last
final last (h ∷ hs) = final h.commit hs

-- The calls of OnChange: one for each commit that created a deployment of the site.
abbrev pub handed_over : String → List Seen → List (String × List DeploymentChange)
handed_over site [] = []
handed_over site (h ∷ hs) =
    called_first (notify h.commit (told h.answers.read_file h.path site h.created))
      (handed_over site hs)

passes-history :
    (site last : String) (hs : List Seen)
    → IsElement site
    → IsHistory last hs
    → passes (map (λ h. h.answers) hs) site last ≡ (final last hs, handed_over site hs)
unfolding passes
passes-history site last [] e h = refl
passes-history site last (x ∷ hs) e (sees, known, new, patch, created, rest) =
    rw
      (
        pass-created x.answers x.path site last x.commit x.created e created sees known new patch,
        passes-history site x.commit hs e rest,
      )
      refl

-- A watcher that is started on a known head, and whose passes each see the next commit of a
-- history in which every commit changes the desired states of created deployments, hands over for
-- each commit the deployments of its own site alone, each with its id and in order, and nothing
-- else. The names of sites and deployments are elements of a path without "/".
pub start-history :
    (site head : String) (hs : List Seen)
    → IsElement site
    → IsHistory head hs
    → start none (some head) (map (λ h. h.answers) hs) site
      ≡ inr (final head hs, handed_over site hs)
unfolding start
start-history site head hs e h = ap inr (passes-history site head hs e h)

-- When a pass of a watcher sees a new commit and no commit was known before, or the patch to it
-- cannot be had, and each later pass sees the next commit of a history of created deployments,
-- then the calls of the callback are those for the later commits alone: what the first commit
-- changed is never handed over.
pub lost_for_good :
    (a : Answers) (path site last commit : String) (hs : List Seen)
    → IsElement site
    → Sees a path (some commit)
    → commit ≢ last
    → (last ≡ "") ⊎ (a.patch last commit ≡ none)
    → IsHistory commit hs
    → passes (a ∷ map (λ h. h.answers) hs) site last ≡ (final commit hs, handed_over site hs)
unfolding passes
lost_for_good a path site last commit hs e sees new lost h =
    rw (pass_loses a path site last commit sees new lost, passes-history site commit hs e h) refl
