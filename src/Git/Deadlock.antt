-- ===== src/Git/Deadlock.antt =====
-- internal/gitmanager/gitmanager.go: which sequences of calls come to an end.
use margo_hello_world.Common.{String, List, [], ◌∷◌, true, some, ◌≡◌, refl, arith, any}
use margo_hello_world.Common.Dict.{lookup}
use margo_hello_world.Git.{
  RepoConfig, Calls, done, stuck, panicked, State, Answer, with_config, with_lock, locking,
  released, pull_repo, new_manager,
}
use margo_hello_world.Git.Operations.{Call, call, is_pull, go_on, run_calls}
use margo_hello_world.Git.Locking.{IsIdle, Settles}
use margo_hello_world.Git.Settling.{call-Settles, pull_body_stuck}

module _ {W : Type 0} (calls : Calls W) where
  go_on-Settles :
      (P : Type 0) (o : Answer W) (next : State W → Answer W)
      → Settles P o
      → ((t : State W) → IsIdle t → Settles P (next t))
      → Settles P (go_on calls o next)
  go_on-Settles P (done (t, _)) next h k = k t h
  go_on-Settles P stuck next h k = h
  go_on-Settles P panicked next h k = h

  run_calls-Settles :
      (P : Type 0) (cs : List (Call calls)) (s : State W)
      → IsIdle s
      → (any (is_pull calls) cs ≡ true → P)
      → Settles P (run_calls calls cs s)
  unfolding run_calls
  run_calls-Settles P [] s idle p = idle
  run_calls-Settles P (c ∷ cs) s idle p =
      go_on-Settles P (call calls c s) (run_calls calls cs)
        (call-Settles calls P c s idle (λ e. p (ground (arith, e))))
        (λ t h. run_calls-Settles P cs t h (λ e. p (ground (arith, e))))

  new_manager-IsIdle : (w : W) → IsIdle (new_manager calls w)
  unfolding new_manager lookup
  new_manager-IsIdle w n cfg h = absurd (ground (arith, h))

  -- Calls that register, initialise, clone, pull and commit, made one after the other on a new
  -- manager, never panic on a missing lock; each that returns leaves every lock free, and they can
  -- only wait for ever if one of them is a pull.
  pub calls_settle :
      (cs : List (Call calls)) (w : W)
      → Settles (any (is_pull calls) cs ≡ true) (run_calls calls cs (new_manager calls w))
  calls_settle cs w = run_calls-Settles _ cs (new_manager calls w) (new_manager-IsIdle w) (λ e. e)

  -- A pull of a registered repository that cannot be opened never returns, when all locks are free
  -- before it.
  pub pull_stuck :
      (name : String) (cfg : RepoConfig) (s : State W) (e : String)
      → IsIdle s
      → lookup name s.repos ≡ some cfg
      → calls.plain_open cfg.working_path s.world ≡ some e
      → pull_repo calls name s ≡ stuck
  unfolding pull_repo with_config with_lock locking released
  pull_stuck name cfg s e idle found closed =
      rw
        (
          with_config,
          found,
          with_lock,
          locking,
          (idle name cfg found).1,
          pull_body_stuck calls cfg name s e (idle name cfg found).0 closed,
        )
        refl
