-- ===== src/Watcher.antt =====
-- internal/watcher/watcher.go: the loop that looks for changed deployments of one site, and
-- ChangedFilesBetween of internal/gitmanager/gitmanager.go. What git and the file system answer
-- during a pass is a parameter.
pub mod Selection
pub mod Reports
pub mod History
use margo_hello_world.Common.{
  ℕ, String, List, [], ◌∷◌, Bool, true, false, Option, none, some, ◌==◌, words, if◌then◌else◌, ◌&&◌,
  ◌⊎◌, inl, inr,
}
use margo_hello_world.Common.Texts.{concat, has_prefix, has_suffix, trim_slash, split, join}
use margo_hello_world.Lo.Deploy.{DeploymentChange}

-- The answers to the calls of one pass.
pub record Answers : Type 0 where
  pub pulled : Bool  -- Pull returned no error
  pub working_path : Option String  -- GetRepoConfig
  pub head : Option (Option String)  -- PlainOpen, then Head
  pub patch : String → String → Option (List String)  -- the names of the files in a patch
  pub read_file : String → Option String  -- os.ReadFile

-- ChangedFilesBetween
unfoldable pub changed_files_between :
    (String → String → Option (List String)) → String → String → Option (List String)
changed_files_between patch old new = if old == "" then some [] else patch old new

-- strings.TrimSuffix(w.SiteID, "/") + "/"
unfoldable pub site_prefix : String → String
site_prefix site = concat (trim_slash site ∷ "/" ∷ [])

unfoldable pub is_selected : String → String → Bool
is_selected site f = has_prefix (site_prefix site) f && has_suffix "desiredstate.yaml" f

-- parts[len(parts)-2], where there are two
unfoldable pub last_but_one : List String → String
last_but_one [] = ""
last_but_one (a ∷ []) = ""
last_but_one (a ∷ b ∷ []) = a
last_but_one (a ∷ b ∷ c ∷ parts) = last_but_one (b ∷ c ∷ parts)

unfoldable pub extract_deployment_id : String → String
extract_deployment_id path = last_but_one (split path)

-- The loop over the changed files, with the copy read at `working_path`.
unfoldable pub changes_in :
    (String → Option String) → String → String → List String → List DeploymentChange
changes_in read_file working_path site [] = []
changes_in read_file working_path site (f ∷ files) =
    let rest = changes_in read_file working_path site files in
    if is_selected site f
    then elim (read_file (join (working_path ∷ f ∷ []))) [
      | none ↦ rest
      | some content ↦
          record { deployment_id = extract_deployment_id f; file_path = f; content = content }
          ∷ rest
    ]
    else rest

-- ref.Hash().String(), or "" for a nil reference
abbrev pub hash_of : Option String → String
hash_of none = ""
hash_of (some h) = h

-- The call of OnChange, where there is one.
abbrev pub notify : String → List DeploymentChange → Option (String × List DeploymentChange)
notify commit [] = none
notify commit (d ∷ ds) = some (commit, d ∷ ds)

-- The pass from the new commit on: the next value of `last`, and the call of OnChange.
unfoldable pub inspect_commit :
    Answers → String → String → String → String → String × Option (String × List DeploymentChange)
inspect_commit a site working_path last commit =
    if commit == last then (last, none) else elim (changed_files_between a.patch last commit) [
      | none ↦ (commit, none)
      | some files ↦ (commit, notify commit (changes_in a.read_file working_path site files))
    ]

-- The case of the timer in the loop of Start.
unfoldable pub pass : Answers → String → String → String × Option (String × List DeploymentChange)
pass a site last =
    if a.pulled
    then elim a.working_path [
      | none ↦ (last, none)
      | some path ↦ elim a.head [
        | none ↦ (last, none)
        | some ref ↦ inspect_commit a site path last (hash_of ref)
      ]
    ]
    else (last, none)

-- A call, where there is one, in front of those that come later.
abbrev pub called_first {ℓ} : {A : Type ℓ} → Option A → List A → List A
called_first none later = later
called_first (some c) later = c ∷ later

-- Passes one after the other, with the calls of OnChange in order.
unfoldable pub passes :
    List Answers → String → String → String × List (String × List DeploymentChange)
passes [] site last = (last, [])
passes (a ∷ as') site last =
    let (next, called) = pass a site last in
    let (final, more) = passes as' site next in (final, called_first called more)

-- Start: the error of EnsureClone, or the passes from the head that it found. Stop ends the list.
unfoldable pub start :
    Option String
    → Option String
    → List Answers
    → String
    → String ⊎ (String × List (String × List DeploymentChange))
start (some e) head answers site = inl e
start none head answers site = inr (passes answers site (hash_of head))
