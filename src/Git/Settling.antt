-- ===== src/Git/Settling.antt =====
-- internal/gitmanager/gitmanager.go: every operation leaves the locks free.
use margo_hello_world.Common.{
  String, true, false, Option, none, some, ◌==◌, words, ◌≡◌, refl, sym, ap, ◌∙◌, arith, Bool-cases,
  Option-cases, inl, inr, ◌⊎◌, eq_iff,
}
use mathlib.Core.Option.{get_or}
use margo_hello_world.Common.Dict.{Dict, lookup, insert, lookup-insert}
use margo_hello_world.Git.{
  Stat, present, absent, unreadable, git_local, git_remote, git_dir, RepoConfig, Calls, stuck,
  panicked, State, Answer, with_config, locking, lifted, register_repo, ensure_clone,
  ensure_clone_locked, ensure_body, pull_repo, pull_body, pull_worktree, and_next,
}
use margo_hello_world.Git.Operations.{
  init_repo, init_locked, init_body, init_open, init_clone, unless_failed, commit_and_push,
  commit_body, Call, registers, inits, ensures, pulls, commits, call, is_pull,
}
use margo_hello_world.Git.Locking.{
  IsIdle, IsIdleBut, Settles, lookup_same, lookup_other, locked, locked-IsIdleBut, locking-Settles,
  with_lock-Settles, lifted-Ends,
}

stat_cases : (s : Stat) → (s ≡ present) ⊎ ((s ≡ absent) ⊎ (s ≡ unreadable))
stat_cases present = inl refl
stat_cases absent = inr (inl refl)
stat_cases unreadable = inr (inr refl)

module _ {W : Type 0} (calls : Calls W) where
  pub ensure_clone-Settles :
      (P : Type 0) (name : String) (s : State W) → IsIdle s → Settles P (ensure_clone calls name s)
  unfolding ensure_clone with_config ensure_clone_locked
  ensure_clone-Settles P name s idle = elim (Option-cases (lookup name s.repos)) [
    | inl e ↦ rw (with_config, e) idle
    | inr (cfg, e) ↦
        let free : lookup cfg.name s.locks ≡ some false =
          rw (idle name cfg e).0 (idle name cfg e).1 in
        rw (with_config, e)
          (locking-Settles calls P panicked cfg.name (lifted calls (ensure_body calls cfg)) s free (
            lifted-Ends calls (IsIdleBut cfg.name) P (ensure_body calls cfg) (locked cfg.name s)
              (λ w. locked-IsIdleBut calls cfg.name s idle)))
  ]

  -- What is found under a key that was just written.
  written :
      (key n : String) (new c : RepoConfig) (d : Dict RepoConfig)
      → key == n ≡ true
      → lookup n (insert key new d) ≡ some c
      → new.name ≡ c.name
  written key n new c d e f =
      let same : some new ≡ some c = sym (lookup-insert key n new d ∙ rw e refl) ∙ f in
      ap (λ o. (get_or o c).name) same

  registered :
      (cfg : RepoConfig) (s : State W) (n : String) (c : RepoConfig)
      → IsIdle s
      → lookup n (insert cfg.name cfg s.repos) ≡ some c
      → (c.name ≡ n) × (lookup n (insert cfg.name false s.locks) ≡ some false)
  registered cfg s n c idle f = elim (Bool-cases (cfg.name == n)) [
    | inl e ↦ (
      sym (written cfg.name n cfg c s.repos e f) ∙ (eq_iff cfg.name n).0 e,
      lookup-insert cfg.name n false s.locks ∙ rw e refl,
    )
    | inr e ↦
        let old : lookup n s.repos ≡ some c = sym (lookup_other cfg.name n cfg s.repos e) ∙ f in
        ((idle n c old).0, lookup_other cfg.name n false s.locks e ∙ (idle n c old).1)
  ]

  pub register_repo-Settles :
      (P : Type 0) (cfg : RepoConfig) (s : State W)
      → IsIdle s
      → Settles P (register_repo calls cfg s)
  unfolding register_repo
  register_repo-Settles P cfg s idle = elim (Bool-cases (cfg.working_path == "")) [
    | inl e ↦ rw e idle
    | inr e ↦ rw e (λ n c f. registered cfg s n c idle f)
  ]

  unless_failed-name :
      (prefix : String) (o : W × Option String) (next : W → W × (RepoConfig × Option String))
      (cfg : RepoConfig)
      → ((w : W) → (next w).1.0.name ≡ cfg.name)
      → (unless_failed calls prefix o next cfg).1.0.name ≡ cfg.name
  unfolding unless_failed
  unless_failed-name prefix (w, none) next cfg h = h w
  unless_failed-name prefix (w, some e) next cfg h = refl

  init_clone-name : (cfg : RepoConfig) (w : W) → (init_clone calls cfg w).1.0.name ≡ cfg.name
  unfolding init_clone
  init_clone-name cfg w = elim (Bool-cases (cfg.mode == git_local)) [
    | inl e ↦ rw e (unless_failed-name _ _ _ cfg (λ w'. refl))
    | inr e ↦ elim (Bool-cases (cfg.mode == git_remote)) [
      | inl f ↦ rw (e, f) (unless_failed-name _ _ _ cfg (λ w'. refl))
      | inr f ↦ rw (e, f) refl
    ]
  ]

  init_open-name : (cfg : RepoConfig) (w : W) → (init_open calls cfg w).1.0.name ≡ cfg.name
  unfolding init_open
  init_open-name cfg w = elim (stat_cases (calls.stat (git_dir cfg) w)) [
    | inl e ↦ elim (Option-cases (calls.plain_open cfg.working_path w)) [
      | inl f ↦ rw (init_open, e, f) refl
      | inr (_, f) ↦ rw (init_open, e, f) (unless_failed-name _ _ _ cfg (init_clone-name cfg))
    ]
    | inr (inl e) ↦ rw (init_open, e) (init_clone-name cfg w)
    | inr (inr e) ↦ rw (init_open, e) (init_clone-name cfg w)
  ]

  init_body-name : (cfg : RepoConfig) (w : W) → (init_body calls cfg w).1.0.name ≡ cfg.name
  unfolding init_body
  init_body-name cfg w = elim (stat_cases (calls.stat cfg.working_path w)) [
    | inl e ↦ rw (init_body, e) (init_open-name cfg w)
    | inr (inl e) ↦ rw (init_body, e) (unless_failed-name _ _ _ cfg (init_open-name cfg))
    | inr (inr e) ↦ rw (init_body, e) (init_open-name cfg w)
  ]

  pub init_repo-Settles :
      (P : Type 0) (name : String) (s : State W) → IsIdle s → Settles P (init_repo calls name s)
  unfolding init_repo init_locked
  init_repo-Settles P name s idle =
      with_lock-Settles calls P name (init_locked calls name) s idle (λ cfg e n c f.
        elim (Bool-cases (name == n)) [
          | inl g ↦ (
            sym (written name n _ c s.repos g f)
                ∙ init_body-name cfg s.world
                ∙ (idle name cfg e).0
                ∙ (eq_iff name n).0 g,
            λ h. absurd (ground (arith, g, h)),
          )
          | inr g ↦
              locked-IsIdleBut calls name s idle n c (sym (lookup_other name n _ s.repos g) ∙ f)
        ])

  pub commit_and_push-Settles :
      (P : Type 0) (name rel msg : String) (s : State W)
      → IsIdle s
      → Settles P (commit_and_push calls name rel msg s)
  unfolding commit_and_push
  commit_and_push-Settles P name rel msg s idle =
      with_lock-Settles calls P name (λ cfg. lifted calls (commit_body calls cfg rel msg)) s idle
        (λ cfg e.
          lifted-Ends calls (IsIdleBut name) P (commit_body calls cfg rel msg) (locked name s)
            (λ w. locked-IsIdleBut calls name s idle))

  locking_held :
      (missing : Answer W) (name : String) (body : State W → Answer W) (s : State W)
      → lookup name s.locks ≡ some true
      → locking calls missing name body s ≡ stuck
  unfolding locking
  locking_held missing name body s e = rw (locking, e) refl

  ensure_held :
      (cfg : RepoConfig) (name : String) (s : State W)
      → cfg.name ≡ name
      → ensure_clone_locked calls cfg (locked name s) ≡ stuck
  unfolding ensure_clone_locked
  ensure_held cfg name s q =
      locking_held panicked cfg.name _ (locked name s) (rw q (lookup_same name true s.locks))

  -- A pull of a repository that cannot be opened waits for its own lock.
  pub pull_body_stuck :
      (cfg : RepoConfig) (name : String) (s : State W) (e : String)
      → cfg.name ≡ name
      → calls.plain_open cfg.working_path s.world ≡ some e
      → pull_body calls cfg (locked name s) ≡ stuck
  unfolding pull_body and_next
  pull_body_stuck cfg name s e q h = rw (pull_body, h, ensure_held cfg name s q) refl

  pub pull_repo-Settles :
      (P : Type 0) (name : String) (s : State W) → IsIdle s → P → Settles P (pull_repo calls name s)
  unfolding pull_repo pull_body
  pull_repo-Settles P name s idle p =
      with_lock-Settles calls P name (pull_body calls) s idle (λ cfg e.
        elim (Option-cases (calls.plain_open cfg.working_path s.world)) [
          | inl o ↦
              rw (pull_body, o)
                (lifted-Ends calls (IsIdleBut name) P (pull_worktree calls cfg) (locked name s)
                  (λ w. locked-IsIdleBut calls name s idle))
          | inr (x, o) ↦ rw (pull_body_stuck cfg name s x (idle name cfg e).0 o) p
        ])

  pub call-Settles :
      (P : Type 0) (c : Call calls) (s : State W)
      → IsIdle s
      → (is_pull calls c ≡ true → P)
      → Settles P (call calls c s)
  unfolding call
  call-Settles P (registers cfg) s idle p = register_repo-Settles P cfg s idle
  call-Settles P (inits name) s idle p = init_repo-Settles P name s idle
  call-Settles P (ensures name) s idle p = ensure_clone-Settles P name s idle
  call-Settles P (pulls name) s idle p = pull_repo-Settles P name s idle (p refl)
  call-Settles P (commits name rel msg) s idle p = commit_and_push-Settles P name rel msg s idle
