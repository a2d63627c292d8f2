-- ===== src/Git.antt =====
-- internal/gitmanager/gitmanager.go: the registered repositories and their locks. go-git and the
-- file system are the parameter `Calls` over a state `W` of the disk and the remotes. One call is
-- followed through: a lock that it waits for while it holds it itself is never released.
pub mod Operations
pub mod Locking
pub mod Settling
pub mod Deadlock
use margo_hello_world.Common.{
  ℕ, String, List, [], ◌∷◌, Bool, true, false, Option, none, some, ◌==◌, words, if◌then◌else◌,
}
use margo_hello_world.Common.Texts.{concat, join}
use margo_hello_world.Common.Dict.{Dict, lookup, insert}

-- GitMode is a text: "local" and "remote" are its two constants.
abbrev pub git_local : String
git_local = "local"

abbrev pub git_remote : String
git_remote = "remote"

pub record RepoConfig : Type 0 where
  pub name : String
  pub mode : String
  pub local_path : String
  pub remote_url : String
  pub token : String
  pub branch : String
  pub working_path : String

unfoldable pub url : RepoConfig → String
url c = if c.mode == git_local then concat ("file://" ∷ c.local_path ∷ []) else c.remote_url

-- The password of the basic authentication, where there is one.
unfoldable pub auth : RepoConfig → Option String
auth c = if c.mode == git_local then none else (if c.token == "" then none else some c.token)

-- os.Stat
pub data Stat : Type 0 where
  present absent unreadable : Stat

-- filepath.Join(cfg.WorkingPath, ".git")
abbrev pub git_dir : RepoConfig → String
git_dir cfg = join (cfg.working_path ∷ ".git" ∷ [])

-- The calls of go-git and of package os, with their errors.
pub record Calls (W : Type 0) : Type 0 where
  pub stat : String → W → Stat
  pub mkdir_all : String → W → W × Option String
  pub remove_all : String → W → W
  pub plain_open : String → W → Option String
  pub plain_clone : String → String → Option String → String → W → W × Option String
  pub worktree : String → W → Option String
  pub pull : String → Option String → W → W × Option String
  pub add : String → String → W → W × Option String
  pub commit : String → String → W → W × Option String
  pub push : String → Option String → W → W × Option String
  pub read_file : String → W → Option String

-- git.NoErrAlreadyUpToDate
abbrev pub up_to_date : String
up_to_date = "already up-to-date"

-- fmt.Errorf("prefix: %w", err), of an error that may be nil
abbrev pub wrap : String → Option String → Option String
wrap prefix none = none
wrap prefix (some e) = some (concat (prefix ∷ ": " ∷ e ∷ []))

-- if err == git.NoErrAlreadyUpToDate { return nil }
abbrev pub unless_up_to_date : Option String → Option String
unless_up_to_date none = none
unless_up_to_date (some e) = if e == up_to_date then none else some e

-- How a call ends.
pub data Outcome (A : Type 0) : Type 0 where
  done : A → Outcome A
  stuck : Outcome A  -- it waits for ever
  panicked : Outcome A

-- The manager and what it works on. A lock is held or free.
pub record State (W : Type 0) : Type 0 where
  pub repos : Dict RepoConfig
  pub locks : Dict Bool
  pub world : W

-- The error of a call, `none` for nil.
abbrev pub Answer : Type 0 → Type 0
Answer W = Outcome (State W × Option String)

abbrev pub not_registered : String → String
not_registered name = concat ("repo not registered: " ∷ name ∷ [])

module _ {W : Type 0} (calls : Calls W) where
  open calls use {
    stat, mkdir_all, remove_all, plain_open, plain_clone, worktree, add, push, read_file,
  }

  unfoldable pub new_manager : W → State W
  new_manager w = record { repos = []; locks = []; world = w }

  -- Register
  unfoldable pub register_repo : RepoConfig → State W → Answer W
  register_repo cfg s =
      if cfg.working_path == ""
      then done (s, some "WorkingPath required")
      else done (
        record s { repos = insert cfg.name cfg s.repos; locks = insert cfg.name false s.locks },
        none,
      )

  -- The deferred Unlock.
  unfoldable pub released : String → Answer W → Answer W
  released name (done (s, e)) = done (record s { locks = insert name false s.locks }, e)
  released name stuck = stuck
  released name panicked = panicked

  -- lk.Lock(); defer lk.Unlock(), around `body`; without a lock the answer is `missing`
  unfoldable pub locking : Answer W → String → (State W → Answer W) → State W → Answer W
  locking missing name body s = elim (lookup name s.locks) [
    | none ↦ missing
    | some held ↦
        if held then stuck else released name (body (record s { locks = insert name true s.locks }))
  ]

  -- withLock
  unfoldable pub with_lock : String → (State W → Answer W) → State W → Answer W
  with_lock name body s =
      locking (done (s, some (concat ("no lock for repo " ∷ name ∷ [])))) name body s

  -- A body that does not touch the manager.
  abbrev pub lifted : (W → W × Option String) → State W → Answer W
  lifted f s = let (w, e) = f s.world in done (record s { world = w }, e)

  -- os.RemoveAll, then git.PlainClone into the working path
  unfoldable pub clone_afresh : String → RepoConfig → W → W × Option String
  clone_afresh prefix cfg w =
      let (w', e) =
        plain_clone cfg.working_path (url cfg) (auth cfg) cfg.branch
          (remove_all cfg.working_path w) in
      (w', wrap prefix e)

  unfoldable pub ensure_body : RepoConfig → W → W × Option String
  ensure_body cfg w = elim (stat (git_dir cfg) w) [
    | absent ↦ clone_afresh "clone failed" cfg w
    | present ↦ elim (plain_open cfg.working_path w) [
      | none ↦ (w, none)
      | some _ ↦ clone_afresh "reclone failed" cfg w
    ]
    | unreadable ↦ elim (plain_open cfg.working_path w) [
      | none ↦ (w, none)
      | some _ ↦ clone_afresh "reclone failed" cfg w
    ]
  ]

  -- ensureCloneLocked: a missing lock is a nil pointer.
  unfoldable pub ensure_clone_locked : RepoConfig → State W → Answer W
  ensure_clone_locked cfg s = locking panicked cfg.name (lifted (ensure_body cfg)) s

  -- GetConfig, and what is done with the configuration.
  unfoldable pub with_config : String → (RepoConfig → State W → Answer W) → State W → Answer W
  with_config name next s = elim (lookup name s.repos) [
    | none ↦ done (s, some (not_registered name))
    | some cfg ↦ next cfg s
  ]

  -- EnsureClone
  unfoldable pub ensure_clone : String → State W → Answer W
  ensure_clone name s = with_config name ensure_clone_locked s

  -- Pull, once the repository is open
  unfoldable pub pull_worktree : RepoConfig → W → W × Option String
  pull_worktree cfg w = elim (worktree cfg.working_path w) [
    | some e ↦ (w, some e)
    | none ↦ let (w', e) = calls.pull cfg.working_path (auth cfg) w in (w', unless_up_to_date e)
  ]

  -- what follows on an answer without an error
  unfoldable pub and_next : Answer W → (State W → Answer W) → Answer W
  and_next (done (s, none)) next = next s
  and_next (done (s, some e)) next = done (s, some e)
  and_next stuck next = stuck
  and_next panicked next = panicked

  unfoldable pub pull_body : RepoConfig → State W → Answer W
  pull_body cfg s = elim (plain_open cfg.working_path s.world) [
    | none ↦ lifted (pull_worktree cfg) s
    | some _ ↦ and_next (ensure_clone_locked cfg s) (lifted (pull_worktree cfg))
  ]

  -- Pull
  unfoldable pub pull_repo : String → State W → Answer W
  pull_repo name s = with_config name (λ cfg. with_lock name (pull_body cfg)) s
