-- ===== src/Programs/Ready.antt =====
-- The deployments repository of cmd/co/main.go, after InitRepo.
use margo_hello_world.Common.{
  String, true, false, Option, none, some, ◌==◌, words, ◌⊎◌, inl, inr, ◌≡◌, refl, Option-cases,
}
use margo_hello_world.Common.Dict.{lookup, insert}
use margo_hello_world.Git.{
  RepoConfig, git_local, Calls, done, State, new_manager, register_repo, with_config, with_lock,
  locking, released, Stat, present, absent, unreadable, git_dir,
}
use margo_hello_world.Git.Operations.{
  init_repo, init_locked, init_body, init_open, init_clone, unless_failed,
}
use margo_hello_world.Programs.Start.{deployments, ignoring, set_up}

Stat-cases : (x : Stat) → (x ≡ present) ⊎ ((x ≡ absent) ⊎ (x ≡ unreadable))
Stat-cases present = inl refl
Stat-cases absent = inr (inl refl)
Stat-cases unreadable = inr (inr refl)

module _ {W : Type 0} (calls : Calls W) where
  -- What InitRepo of a local repository leaves: the configuration is the old one, or works in the
  -- local repository itself; where there is no error, its working path opens.
  pub record IsReady (cfg : RepoConfig) (r : W × (RepoConfig × Option String)) : Type 0 where
    pub config : (r.1.0 ≡ cfg) ⊎ (r.1.0 ≡ record cfg { working_path = cfg.local_path })
    pub opens : ((e : String) × (r.1.1 ≡ some e)) ⊎ (calls.plain_open r.1.0.working_path r.0 ≡ none)

  unless_failed-IsReady :
      (prefix : String) (cfg : RepoConfig) (r : W × Option String)
      (next : W → W × (RepoConfig × Option String))
      → (r.1 ≡ none → IsReady cfg (next r.0))
      → IsReady cfg (unless_failed calls prefix r next cfg)
  unfolding unless_failed
  unless_failed-IsReady prefix cfg (w, none) next h = h refl
  unless_failed-IsReady prefix cfg (w, some e) next h = record {
    config = inl refl;
    opens = inl (_, refl);
  }

  module _ (cfg : RepoConfig) (is_local : cfg.mode == git_local ≡ true) where
    init_clone-IsReady : (w : W) → IsReady cfg (init_clone calls cfg w)
    unfolding init_clone
    init_clone-IsReady w =
        rw (is_local, init_clone)
          (unless_failed-IsReady "open local repo failed" cfg (w, calls.plain_open cfg.local_path w)
            (λ w'. (w', (record cfg { working_path = cfg.local_path }, none)))
            (λ e. record { config = inr refl; opens = inr e }))

    init_open-IsReady : (w : W) → IsReady cfg (init_open calls cfg w)
    unfolding init_open
    init_open-IsReady w = elim (Stat-cases (calls.stat (git_dir cfg) w)) [
      | inr (inl e) ↦ rw (e, init_open) (init_clone-IsReady w)
      | inr (inr e) ↦ rw (e, init_open) (init_clone-IsReady w)
      | inl e ↦ elim (Option-cases (calls.plain_open cfg.working_path w)) [
        | inl o ↦ rw (e, init_open, o) (record { config = inl refl; opens = inr o })
        | inr (x, o) ↦
            rw (e, init_open, o)
              (unless_failed-IsReady "mkdir (recreate)" cfg
                (calls.mkdir_all cfg.working_path (calls.remove_all cfg.working_path w))
                (init_clone calls cfg)
                (λ _.
                  init_clone-IsReady
                    (calls.mkdir_all cfg.working_path (calls.remove_all cfg.working_path w)).0))
      ]
    ]

    init_body-IsReady : (w : W) → IsReady cfg (init_body calls cfg w)
    unfolding init_body
    init_body-IsReady w = elim (Stat-cases (calls.stat cfg.working_path w)) [
      | inl e ↦ rw (e, init_body) (init_open-IsReady w)
      | inr (inl e) ↦
          rw (e, init_body)
            (unless_failed-IsReady "mkdir working" cfg (calls.mkdir_all cfg.working_path w)
              (init_open calls cfg) (λ _. init_open-IsReady (calls.mkdir_all cfg.working_path w).0))
      | inr (inr e) ↦ rw (e, init_body) (init_open-IsReady w)
    ]

  -- When the central orchestrator starts, registering its repositories and InitRepo of the
  -- deployments neither panic nor wait for ever; the deployments stay registered with a free lock,
  -- and their working path is the configured one or the local repository itself; either InitRepo
  -- has an error, which ends the program, or the repository opens at that path.
  pub set_up-IsReady :
      (token : String) (w : W)
      → (s : State W) × (e : Option String) × (cfg : RepoConfig) × (set_up calls token w
          ≡ done (s, e))
        × (lookup "deployments" s.repos ≡ some cfg)
        × (lookup "deployments" s.locks ≡ some false)
        × IsReady (deployments token) (s.world, (cfg, e))
  unfolding set_up ignoring register_repo new_manager init_repo with_config with_lock locking
      released init_locked lookup insert deployments
  set_up-IsReady token w =
      let r = init_body calls (deployments token) w in
      (_, r.1.1, r.1.0, refl, refl, refl, init_body-IsReady (deployments token) refl w)
