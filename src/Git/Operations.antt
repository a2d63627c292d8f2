-- ===== src/Git/Operations.antt =====
-- internal/gitmanager/gitmanager.go: InitRepo and CommitAndPush, and the calls of a
-- manager.
use margo_hello_world.Common.{
  String, List, [], ◌∷◌, Bool, true, false, Option, none, some, ◌==◌, words, if◌then◌else◌,
}
use margo_hello_world.Common.Texts.{concat, join}
use margo_hello_world.Common.Dict.{lookup, insert}
use margo_hello_world.Git.{
  RepoConfig, url, auth, present, absent, unreadable, Calls, wrap, unless_up_to_date, Outcome, done,
  stuck, panicked, State, Answer, git_local, git_remote, with_config, with_lock, lifted,
  register_repo, ensure_clone, pull_repo, git_dir,
}

module _ {W : Type 0} (calls : Calls W) where
  open calls use {
    stat, mkdir_all, remove_all, plain_open, plain_clone, worktree, add, push, read_file,
  }

  -- if err != nil { return fmt.Errorf(prefix, err) }
  unfoldable pub unless_failed :
      String
      → W × Option String
      → (W → W × (RepoConfig × Option String))
      → RepoConfig
      → W × (RepoConfig × Option String)
  unless_failed prefix (w, none) next cfg = next w
  unless_failed prefix (w, some e) next cfg = (w, (cfg, wrap prefix (some e)))

  -- "Case 2: Clone fresh"
  unfoldable pub init_clone : RepoConfig → W → W × (RepoConfig × Option String)
  init_clone cfg w =
      if cfg.mode == git_local
      then unless_failed "open local repo failed" (w, plain_open cfg.local_path w)
          (λ w'. (w', (record cfg { working_path = cfg.local_path }, none))) cfg
      else if cfg.mode == git_remote
      then unless_failed "clone failed"
          (plain_clone cfg.working_path (url cfg) (auth cfg) cfg.branch w) (λ w'. (w', (cfg, none)))
          cfg
      else (w, (cfg, none))

  -- "Case 1: Already initialized"; a directory that cannot be opened is wiped first.
  unfoldable pub init_open : RepoConfig → W → W × (RepoConfig × Option String)
  init_open cfg w = elim (stat (git_dir cfg) w) [
    | absent ↦ init_clone cfg w
    | unreadable ↦ init_clone cfg w
    | present ↦ elim (plain_open cfg.working_path w) [
      | none ↦ (w, (cfg, none))
      | some _ ↦
          unless_failed "mkdir (recreate)"
            (mkdir_all cfg.working_path (remove_all cfg.working_path w)) (init_clone cfg) cfg
    ]
  ]

  unfoldable pub init_body : RepoConfig → W → W × (RepoConfig × Option String)
  init_body cfg w = elim (stat cfg.working_path w) [
    | absent ↦ unless_failed "mkdir working" (mkdir_all cfg.working_path w) (init_open cfg) cfg
    | present ↦ init_open cfg w
    | unreadable ↦ init_open cfg w
  ]

  -- The configuration is shared with the map, so that a new working path is the map's too.
  unfoldable pub init_locked : String → RepoConfig → State W → Answer W
  init_locked name cfg s =
      let r = init_body cfg s.world in
      done (record s { repos = insert name r.1.0 s.repos; world = r.0 }, r.1.1)

  -- InitRepo
  unfoldable pub init_repo : String → State W → Answer W
  init_repo name s = with_config calls name (λ cfg. with_lock calls name (init_locked name cfg)) s

  -- One step of CommitAndPush after the other.
  unfoldable pub and_then : W × Option String → (W → W × Option String) → W × Option String
  and_then (w, none) next = next w
  and_then (w, some e) next = (w, some e)

  unfoldable pub commit_body : RepoConfig → String → String → W → W × Option String
  commit_body cfg rel msg w =
      let wrapped : String → W × Option String → W × Option String =
        λ prefix r. (r.0, wrap prefix r.1) in
      and_then (w, wrap "open repo" (plain_open cfg.working_path w))
        λ w1.
          and_then (w1, wrap "worktree" (worktree cfg.working_path w1))
            λ w2.
              and_then (wrapped (concat ("add " ∷ rel ∷ [])) (add cfg.working_path rel w2)) λ w3.
                and_then (wrapped "commit" (calls.commit cfg.working_path msg w3)) λ w4.
                  let (w5, e) = push cfg.working_path (auth cfg) w4 in
                  (w5, wrap "push" (unless_up_to_date e))

  -- CommitAndPush
  unfoldable pub commit_and_push : String → String → String → State W → Answer W
  commit_and_push name rel msg s =
      with_config calls name (λ cfg. with_lock calls name (lifted calls (commit_body cfg rel msg)))
        s

  -- What ReadFile returns of the file, once it has pulled; the error of the pull is ignored.
  unfoldable pub read_after : String → Answer W → Outcome (State W × Option String)
  read_after path (done (s, _)) = done (s, read_file path s.world)
  read_after path stuck = stuck
  read_after path panicked = panicked

  -- ReadFile: the content, or `none` with an error
  unfoldable pub read_repo_file : String → String → State W → Outcome (State W × Option String)
  read_repo_file name rel s = elim (lookup name s.repos) [
    | none ↦ done (s, none)
    | some cfg ↦ read_after (join (cfg.working_path ∷ rel ∷ [])) (pull_repo calls name s)
  ]

  -- The calls that change a manager or what it works on.
  pub data Call : Type 0 where
    registers : RepoConfig → Call
    inits : String → Call
    ensures : String → Call
    pulls : String → Call
    commits : String → String → String → Call

  unfoldable pub call : Call → State W → Answer W
  call (registers cfg) s = register_repo calls cfg s
  call (inits name) s = init_repo name s
  call (ensures name) s = ensure_clone calls name s
  call (pulls name) s = pull_repo calls name s
  call (commits name rel msg) s = commit_and_push name rel msg s

  abbrev pub is_pull : Call → Bool
  is_pull (registers _) = false
  is_pull (inits _) = false
  is_pull (ensures _) = false
  is_pull (pulls _) = true
  is_pull (commits _ _ _) = false

  abbrev pub go_on : Answer W → (State W → Answer W) → Answer W
  go_on (done (s, e)) next = next s
  go_on stuck next = stuck
  go_on panicked next = panicked

  -- Calls one after the other, whatever errors they return.
  unfoldable pub run_calls : List Call → State W → Answer W
  run_calls [] s = done (s, none)
  run_calls (c ∷ cs) s = go_on (call c s) (run_calls cs)
