-- ===== src/Observer/Opening.antt =====
-- The start of the loop of internal/gitobserver/observer.go: the local copy is opened or cloned.
use margo_hello_world.Common.{
  String, List, [], ◌∷◌, Bool, true, false, Option, none, some, ◌==◌, words, if◌then◌else◌, ◌⊎◌,
}
use margo_hello_world.Common.Texts.{concat}
use margo_hello_world.Lo.Deploy.{DeploymentChange}
use margo_hello_world.Remote.{CloneOptions}
use margo_hello_world.Observer.{RepoWatcher, Answers, auth_of, value_of, site_dir, passes}

-- The calls that change the local copy.
pub data DiskCall : Type 0 where
  remove_all : String → DiskCall
  plain_clone : String → CloneOptions → DiskCall
  plain_open : String → DiskCall

-- Their answers: whether .git is missing, and the errors of PlainOpen, PlainClone and Worktree.
pub record Opened : Type 0 where
  pub git_missing : Bool
  pub open_error : Option String
  pub clone_error : CloneOptions → Option String
  pub worktree_error : Option String
  pub head : String ⊎ String

abbrev pub repo_cache : String
repo_cache = "/tmp/repo-cache"

-- r.Token and r.LocalPath at the start
unfoldable pub prepared : String → RepoWatcher → RepoWatcher
prepared env w = record w {
  token = if w.token == "" then env else w.token;
  local_path = repo_cache;
}

unfoldable pub clone_options : RepoWatcher → CloneOptions
clone_options w = record {
  url = w.repo_url;
  branch = w.branch;
  single_branch = false;
  depth_one = true;
  auth = auth_of w.token;
}

-- os.RemoveAll, then PlainClone
unfoldable pub fresh_clone : RepoWatcher → Opened → List DiskCall × Option String
unfolding clone_options
fresh_clone w o = (
  remove_all w.local_path ∷ plain_clone w.local_path (clone_options w) ∷ [],
  o.clone_error (clone_options w),
)

-- The calls made, and the error that is left.
unfoldable pub open_or_clone : RepoWatcher → Opened → List DiskCall × Option String
open_or_clone w o = if o.git_missing then fresh_clone w o else elim o.open_error [
  | none ↦ (plain_open w.local_path ∷ [], none)
  | some e ↦ let (calls, err) = fresh_clone w o in (plain_open w.local_path ∷ calls, err)
]

pub data Outcome : Type 0 where
  failed : String → Outcome
  panicked : Outcome
  stopped : String → List (String × List DeploymentChange) → Outcome

-- The end of the passes.
abbrev pub ended : Option (String × List (String × List DeploymentChange)) → Outcome
ended none = panicked
ended (some (last, calls)) = stopped last calls

-- Start, once the copy is open: Worktree, then Head, then the passes.
unfoldable pub watch : RepoWatcher → Opened → List Answers → String → Outcome
watch w o answers site = elim o.worktree_error [
  | some e ↦ failed (concat ("worktree failed: " ∷ e ∷ []))
  | none ↦ elim (value_of o.head) [
    | none ↦ panicked
    | some head ↦ ended (passes w answers (site_dir site) head)
  ]
]

unfoldable pub start :
    String → RepoWatcher → Opened → List Answers → String → List DiskCall × Outcome
start env w o answers site =
    let r = prepared env w in
    let (calls, err) = open_or_clone r o in
    (
      calls,
      elim err [
        | some e ↦ failed (concat ("git open/clone failed: " ∷ e ∷ []))
        | none ↦ watch r o answers site
      ],
    )
