-- ===== src/Fetcher.antt =====
-- internal/gitfetcher/fetcher.go: the local copy of the repository of applications. The disk and the
-- git library are a parameter: the calls that change the disk, and the answers of those that do not.
pub mod Termination
use margo_hello_world.Common.{
  ℕ, zero, suc, String, List, [], ◌∷◌, Bool, true, false, Option, none, some, if◌then◌else◌, ◌⊎◌,
  inl, inr,
}
use margo_hello_world.Common.Texts.{concat, join}
use margo_hello_world.Remote.{
  BasicAuth, CloneOptions, PullOptions, Pulled, updated, up_to_date, pull_failed,
}

pub record GitFetcher : Type 0 where
  pub repo_url : String
  pub branch : String
  pub local_dir : String
  pub token : String

-- The error of PlainOpen, where there is one: os.ErrNotExist or another one.
pub data Opened : Type 0 where
  opened : Opened
  not_exist : Opened
  open_failed : String → Opened

pub record Client (Disk : Type 0) : Type 0 where
  -- os.IsNotExist of the error of os.Stat
  pub is_missing : String → Disk → Bool
  pub remove_all : String → Disk → Disk
  pub plain_clone : String → CloneOptions → Disk → Disk × Option String
  pub plain_open : String → Disk → Opened
  -- the error of Worktree, which leaves a nil pointer
  pub worktree_error : String → Disk → Option String
  pub pull : String → PullOptions → Disk → Disk × Pulled
  -- os.ReadFile
  pub read_file : String → Disk → String ⊎ String

-- How a call ended, with the disk that it left and its error.
pub data Outcome (Disk : Type 0) : Type 0 where
  out_of_fuel : Outcome Disk
  panicked : Outcome Disk
  returned : Disk → Option String → Outcome Disk

unfoldable pub git_dir : GitFetcher → String
git_dir g = join (g.local_dir ∷ ".git" ∷ [])

unfoldable pub clone_options : GitFetcher → String → CloneOptions
clone_options g password = record {
  url = g.repo_url;
  branch = g.branch;
  single_branch = true;
  depth_one = true;
  auth = some (record { username = "git"; password = password });
}

unfoldable pub pull_options : Option BasicAuth → PullOptions
pull_options auth = record { remote_name = "origin"; force = false; auth = auth }

module _ {Disk : Type 0} (C : Client Disk) where
  -- if err != nil { return fmt.Errorf("clone failed: %w", err) }
  unfoldable pub clone_result : Disk × Option String → Disk × Option String
  clone_result (d, none) = (d, none)
  clone_result (d, some e) = (d, some (concat ("clone failed: " ∷ e ∷ [])))

  unfoldable pub clone : GitFetcher → Disk → Disk × Option String
  unfolding clone_result clone_options git_dir
  clone g d =
      if C.is_missing (git_dir g) d
      then clone_result (C.plain_clone g.local_dir (clone_options g g.token) d)
      else (d, some (concat ("repo already exists at " ∷ g.local_dir ∷ [])))

  -- The result of the last call of Pull.
  unfoldable pub pull_result : Disk × Pulled → Disk × Option String
  pull_result (d, updated) = (d, none)
  pull_result (d, up_to_date) = (d, none)
  pull_result (d, pull_failed e) = (d, some e)

  unfoldable pub pull : GitFetcher → Disk → Disk × Option String
  unfolding pull_result pull_options
  pull g d = elim (C.plain_open g.local_dir d) [
    | not_exist ↦ (d, some "repo not found; please clone first")
    | open_failed e ↦ (d, some (concat ("open repo failed: " ∷ e ∷ [])))
    | opened ↦ elim (C.worktree_error g.local_dir d) [
      | some e ↦ (d, some (concat ("worktree failed: " ∷ e ∷ [])))
      | none ↦ pull_result (C.pull g.local_dir (pull_options none) d)
    ]
  ]

  -- The token is GITHUB_TOKEN of the environment.
  abbrev pub auth_of : String → BasicAuth
  auth_of token = record { username = "git"; password = token }

  abbrev pub cloned : Disk × Option String → Outcome Disk
  cloned (d, e) = returned d e

  -- One round of CloneOrPull: its outcome, or the disk from which it calls itself.
  unfoldable pub pulled_round : GitFetcher → Disk × Pulled → Outcome Disk ⊎ Disk
  pulled_round g (d, updated) = inl (returned d none)
  pulled_round g (d, up_to_date) = inl (returned d none)
  pulled_round g (d, pull_failed e) = inr (C.remove_all g.local_dir d)

  unfoldable pub opened_round : GitFetcher → String → Disk → Outcome Disk ⊎ Disk
  unfolding pulled_round pull_options
  opened_round g token d = elim (C.worktree_error g.local_dir d) [
    | some e ↦ inl panicked
    | none ↦ pulled_round g (C.pull g.local_dir (pull_options (some (auth_of token))) d)
  ]

  unfoldable pub round : GitFetcher → String → Disk → Outcome Disk ⊎ Disk
  unfolding opened_round clone_options git_dir
  round g token d =
      if C.is_missing (git_dir g) d
      then inl (cloned (C.plain_clone g.local_dir (clone_options g token) d))
      else elim (C.plain_open g.local_dir d) [
        | opened ↦ opened_round g token d
        | _ ↦ inr (C.remove_all g.local_dir d)
      ]

  -- CloneOrPull, which calls itself without a bound, on fuel.
  unfoldable pub clone_or_pull : ℕ → GitFetcher → String → Disk → Outcome Disk
  clone_or_pull zero g token d = out_of_fuel
  clone_or_pull (suc fuel) g token d = elim (round g token d) [
    | inl o ↦ o
    | inr d' ↦ clone_or_pull fuel g token d'
  ]

  -- os.ReadFile, with its error
  unfoldable pub read_target : String → Disk → String ⊎ String
  read_target target d = elim (C.read_file target d) [
    | inl e ↦ inl (concat ("read file failed (" ∷ target ∷ "): " ∷ e ∷ []))
    | inr content ↦ inr content
  ]

  -- What FetchAppResource does with the outcome of CloneOrPull; `none` is a panic, or no return.
  unfoldable pub resource_of :
      GitFetcher → String → String → Outcome Disk → Option (Disk × (String ⊎ String))
  unfolding read_target
  resource_of g app path out_of_fuel = none
  resource_of g app path panicked = none
  resource_of g app path (returned d (some e)) =
      some (d, inl (concat ("git fetch failed: " ∷ e ∷ [])))
  resource_of g app path (returned d none) =
      some (d, read_target (join (g.local_dir ∷ app ∷ path ∷ [])) d)

  unfoldable pub fetch_app_resource :
      ℕ → GitFetcher → String → String → String → Disk → Option (Disk × (String ⊎ String))
  unfolding resource_of
  fetch_app_resource fuel g token app path d = resource_of g app path (clone_or_pull fuel g token d)
