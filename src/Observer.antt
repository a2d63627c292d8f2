-- ===== src/Observer.antt =====
-- internal/gitobserver/observer.go: the loop that looks for changed deployments of one site in the
-- commits of a repository. What the git library and the file system answer is a parameter; `none`
-- is a panic of the Go runtime (a nil pointer that is read).
pub mod Equivalence
pub mod Opening
use margo_hello_world.Common.{
  String, List, [], ◌∷◌, Bool, true, false, Option, none, some, ◌==◌, words, if◌then◌else◌, ◌&&◌,
  ◌||◌, ◌⊎◌, inl, inr,
}
use margo_hello_world.Common.Texts.{concat, has_prefix, has_suffix, split}
use margo_hello_world.Lo.Deploy.{DeploymentChange}
use margo_hello_world.Remote.{
  BasicAuth, CloneOptions, PullOptions, Pulled, updated, up_to_date, pull_failed,
}
use margo_hello_world.Watcher.{last_but_one, notify, called_first}

-- OnChange is `watched` where it is not nil.
pub record RepoWatcher : Type 0 where
  pub repo_url : String
  pub branch : String
  pub watched : Bool
  pub token : String
  pub local_path : String

unfoldable pub new : String → String → RepoWatcher
new repo_url branch = record {
  repo_url = repo_url;
  branch = branch;
  watched = false;
  token = "";
  local_path = "";
}

-- The steps of FetchYamlFile in the git library, each with its error; an object is its hash.
pub record Repository : Type 0 where
  pub head : String ⊎ String
  pub commit_object : String → String ⊎ String
  pub commit_tree : String → String ⊎ String
  pub find_entry : String → String → String ⊎ String
  pub blob_object : String → String ⊎ String
  pub reader : String → String ⊎ String
  pub copy : String → String ⊎ String
  -- the names in the statistics of a patch between commits, `none` for a nil pointer that is read
  pub patch_stats : Option String → Option String → Option (List String)

-- fmt.Errorf(text + ": %w", err)
unfoldable pub wrap : String → String ⊎ String → String ⊎ String
wrap text (inl e) = inl (concat (text ∷ ": " ∷ e ∷ []))
wrap text (inr x) = inr x

-- if err != nil { return nil, err }
abbrev pub then_next : String ⊎ String → (String → String ⊎ String) → String ⊎ String
then_next (inl e) f = inl e
then_next (inr x) f = f x

-- The entry of a file, whose error is not passed on.
unfoldable pub entry_of : Repository → String → String → String ⊎ String
entry_of r path tree = elim (r.find_entry tree path) [
  | inl e ↦ inl (concat ("file not found in tree: " ∷ path ∷ []))
  | inr x ↦ inr x
]

unfoldable pub fetch_yaml_file : Repository → String → String ⊎ String
unfolding wrap entry_of
fetch_yaml_file r path = then_next (wrap "failed to get HEAD" r.head) (λ ref.
    then_next (wrap "failed to get commit" (r.commit_object ref)) (λ commit.
      then_next (wrap "failed to get tree" (r.commit_tree commit)) (λ tree.
        then_next (entry_of r path tree) (λ entry.
          then_next (wrap "failed to get blob" (r.blob_object entry)) (λ blob.
            then_next (wrap "failed to open blob reader" (r.reader blob))
              (λ opened. wrap "failed to copy file content" (r.copy opened)))))))

-- x, _ := f(): the value, or a nil pointer
abbrev pub value_of : String ⊎ String → Option String
value_of (inl e) = none
value_of (inr x) = some x

unfoldable pub get_changed_files : Repository → String → String → Option (List String)
get_changed_files r old new =
    if old == ""
    then some []
    else r.patch_stats (value_of (r.commit_object old)) (value_of (r.commit_object new))

unfoldable pub extract_deployment_id : String → String
extract_deployment_id path = last_but_one (split path)

-- fmt.Sprintf("%s/", siteID)
unfoldable pub site_dir : String → String
site_dir site = concat (site ∷ "/" ∷ [])

-- The loop that fills siteFiles.
unfoldable pub site_files : String → List String → List String
site_files dir [] = []
site_files dir (f ∷ files) =
    let rest = site_files dir files in if dir == "" || has_prefix dir f then f ∷ rest else rest

-- The loop that fills deployments.
unfoldable pub deployments_in : Repository → List String → List DeploymentChange
deployments_in r [] = []
deployments_in r (f ∷ files) =
    let rest = deployments_in r files in
    if has_suffix "desiredstate.yaml" f
    then elim (fetch_yaml_file r f) [
      | inl e ↦ rest
      | inr content ↦
          record { deployment_id = extract_deployment_id f; file_path = f; content = content }
          ∷ rest
    ]
    else rest

abbrev pub Called : Type 0
Called = Option (String × List DeploymentChange)

-- len(deployments) > 0 && r.OnChange != nil
abbrev pub if_watched : Bool → Called → Called
if_watched true c = c
if_watched false c = none

-- The pass from the new commit on: the next value of lastCommit, and the call of OnChange.
unfoldable pub inspect_commit :
    Repository → Bool → String → String → String → Option (String × Called)
inspect_commit r watched dir last commit =
    if commit == last then some (last, none) else elim (get_changed_files r last commit) [
      | none ↦ none
      | some files ↦
          some
            (commit, if_watched watched (notify commit (deployments_in r (site_files dir files))))
    ]

-- The answers to the calls of one pass: that of Pull for its options, then the repository.
pub record Answers : Type 0 where
  pub pull : PullOptions → Pulled
  pub repository : Repository

-- The credentials, where there is a token.
abbrev pub auth_of : String → Option BasicAuth
auth_of token = if token == "" then none else some (record { username = "git"; password = token })

unfoldable pub pull_options : String → PullOptions
pull_options token = record { remote_name = "origin"; force = true; auth = auth_of token }

-- The case of the timer in the loop of Start.
unfoldable pub pass : RepoWatcher → Answers → String → String → Option (String × Called)
unfolding inspect_commit pull_options
pass w a dir last = elim (a.pull (pull_options w.token)) [
  | pull_failed e ↦ some (last, none)
  | _ ↦ elim (value_of a.repository.head) [
    | none ↦ none
    | some commit ↦ inspect_commit a.repository w.watched dir last commit
  ]
]

abbrev Calls : Type 0
Calls = List (String × List DeploymentChange)

-- What a pass and those after it left.
abbrev pub followed_by : Called → Option (String × Calls) → Option (String × Calls)
followed_by called none = none
followed_by called (some (final, more)) = some (final, called_first called more)

-- Passes one after the other, up to Stop.
unfoldable pub passes : RepoWatcher → List Answers → String → String → Option (String × Calls)
passes w [] dir last = some (last, [])
passes w (a ∷ as') dir last = elim (pass w a dir last) [
  | none ↦ none
  | some (next, called) ↦ followed_by called (passes w as' dir next)
]
