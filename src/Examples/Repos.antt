-- ===== src/Examples/Repos.antt =====
-- A manager whose one repository is corrupt.
use margo_hello_world.Common.{
  ℕ, suc, List, [], ◌∷◌, true, false, none, some, ◌==◌, words, numbers, if◌then◌else◌, ◌≡◌, refl,
  any, arith, Bool-cases, inl, inr, eq_iff, sym, ap, ◌∙◌,
}
use mathlib.Core.Option.{get_or}
use margo_hello_world.Common.Dict.{lookup}
use margo_hello_world.Git.{RepoConfig, Calls, present, stuck, State, pull_repo, new_manager}
use margo_hello_world.Git.Operations.{Call, registers, ensures, pulls, commits, is_pull, run_calls}
use margo_hello_world.Git.Locking.{IsIdle, Settles}
use margo_hello_world.Git.Deadlock.{calls_settle, pull_stuck}

-- A disk on which nothing can be opened before something is cloned; the state counts the clones.
abbrev calls : Calls ℕ
calls = record {
  stat = λ path w. present;
  mkdir_all = λ path w. (w, none);
  remove_all = λ path w. w;
  plain_open = λ path w. if w == 0 then some "repository does not exist" else none;
  plain_clone = λ path url auth branch w. (suc w, none);
  worktree = λ path w. none;
  pull = λ path auth w. (w, some "already up-to-date");
  add = λ path rel w. (w, none);
  commit = λ path msg w. (w, none);
  push = λ path auth w. (w, none);
  read_file = λ path w. none;
}

abbrev config : RepoConfig
config = record {
  name = "deployments";
  mode = "remote";
  local_path = "";
  remote_url = "https://example.org/deployments.git";
  token = "";
  branch = "main";
  working_path = "repo";
}

abbrev session : List (Call calls)
session =
    registers config
    ∷ ensures "deployments"
    ∷ commits "deployments" "s1/d1/desiredstate.yaml" "add"
    ∷ pulls "deployments"
    ∷ []

calls_settle_example :
    Settles (any (is_pull calls) session ≡ true) (run_calls calls session (new_manager calls 0))
calls_settle_example = calls_settle calls session 0

abbrev registered : State ℕ
registered = record {
  repos = ("deployments", config) ∷ [];
  locks = ("deployments", false) ∷ [];
  world = 0;
}

registered-IsIdle : IsIdle registered
unfolding lookup
registered-IsIdle n cfg h = elim (Bool-cases ("deployments" == n)) [
  | inl e ↦ (
    ap (λ o. (get_or o cfg).name) (sym (rw (lookup, e) at h)) ∙ (eq_iff "deployments" n).0 e,
    rw e refl,
  )
  | inr e ↦ absurd (ground (arith, e, h))
]

found : lookup "deployments" registered.repos ≡ some config
unfolding lookup
found = refl

pull_stuck_example : pull_repo calls "deployments" registered ≡ stuck
pull_stuck_example =
    pull_stuck calls "deployments" config registered "repository does not exist" registered-IsIdle
      found refl
