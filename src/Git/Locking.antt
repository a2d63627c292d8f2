-- ===== src/Git/Locking.antt =====
-- internal/gitmanager/gitmanager.go: the locks are free between calls.
use margo_hello_world.Common.{
  String, true, false, Option, some, ◌==◌, words, ◌≡◌, refl, ◌∙◌, Bool-cases, Option-cases, inl,
  inr, eq_refl,
}
use margo_hello_world.Common.Dict.{Dict, lookup, insert, lookup-insert}
use margo_hello_world.Git.{
  RepoConfig, Calls, done, stuck, panicked, State, Answer, with_config, with_lock, locking,
  released, lifted,
}

pub lookup_same :
    {V : Type 0} (key : String) (v : V) (d : Dict V) → lookup key (insert key v d) ≡ some v
lookup_same key v d = lookup-insert key key v d ∙ rw (eq_refl key) refl

pub lookup_other :
    {V : Type 0} (key n : String) (v : V) (d : Dict V)
    → key == n ≡ false
    → lookup n (insert key v d) ≡ lookup n d
lookup_other key n v d e = lookup-insert key n v d ∙ rw e refl

module _ {W : Type 0} where
  -- Every repository is registered under its name and has a lock that is free.
  abbrev pub IsIdle : State W → Type 0
  IsIdle s =
      (n : String) (cfg : RepoConfig)
      → lookup n s.repos ≡ some cfg
      → (cfg.name ≡ n) × (lookup n s.locks ≡ some false)

  -- The same but for the lock of one repository.
  abbrev pub IsIdleBut : String → State W → Type 0
  IsIdleBut name s =
      (n : String) (cfg : RepoConfig)
      → lookup n s.repos ≡ some cfg
      → (cfg.name ≡ n) × (name == n ≡ false → lookup n s.locks ≡ some false)

  -- An answer that is no panic, leaves such a state, and is stuck only if `P`.
  abbrev pub Ends : (State W → Type 0) → Type 0 → Answer W → Type 0
  Ends Q P (done (t, _)) = Q t
  Ends Q P stuck = P
  Ends Q P panicked = ⊥

  abbrev pub Settles : Type 0 → Answer W → Type 0
  Settles P o = Ends IsIdle P o

  abbrev pub locked : String → State W → State W
  locked name s = record s { locks = insert name true s.locks }

module _ {W : Type 0} (calls : Calls W) where
  pub released-Settles :
      (P : Type 0) (name : String) (o : Answer W)
      → Ends (IsIdleBut name) P o
      → Settles P (released calls name o)
  unfolding released
  released-Settles P name (done (t, _)) h = λ n cfg e. elim (Bool-cases (name == n)) [
    | inr f ↦ ((h n cfg e).0, lookup_other name n false t.locks f ∙ (h n cfg e).1 f)
    | inl f ↦ ((h n cfg e).0, lookup-insert name n false t.locks ∙ rw f refl)
  ]
  released-Settles P name stuck h = h
  released-Settles P name panicked h = h

  pub locked-IsIdleBut : (name : String) (s : State W) → IsIdle s → IsIdleBut name (locked name s)
  locked-IsIdleBut name s h n cfg e =
      ((h n cfg e).0, λ f. lookup_other name n true s.locks f ∙ (h n cfg e).1)

  -- A call that takes the lock of a registered repository.
  pub locking-Settles :
      (P : Type 0) (missing : Answer W) (name : String) (body : State W → Answer W) (s : State W)
      → lookup name s.locks ≡ some false
      → Ends (IsIdleBut name) P (body (locked name s))
      → Settles P (locking calls missing name body s)
  unfolding locking
  locking-Settles P missing name body s e h =
      rw (locking, e) (released-Settles P name (body (locked name s)) h)

  -- The same for a call by name, whether or not it is registered.
  pub with_lock-Settles :
      (P : Type 0) (name : String) (body : RepoConfig → State W → Answer W) (s : State W)
      → IsIdle s
      → ((cfg : RepoConfig)
          → lookup name s.repos ≡ some cfg
          → Ends (IsIdleBut name) P (body cfg (locked name s)))
      → Settles P (with_config calls name (λ cfg. with_lock calls name (body cfg)) s)
  unfolding with_config with_lock
  with_lock-Settles P name body s idle h = elim (Option-cases (lookup name s.repos)) [
    | inl e ↦ rw (with_config, e) idle
    | inr (cfg, e) ↦
        rw (with_config, e) (locking-Settles P _ name (body cfg) s (idle name cfg e).1 (h cfg e))
  ]

  -- A body that leaves the manager alone.
  pub lifted-Ends :
      (Q : State W → Type 0) (P : Type 0) (f : W → W × Option String) (s : State W)
      → ((w : W) → Q (record s { world = w }))
      → Ends Q P (lifted calls f s)
  lifted-Ends Q P f s h = h (f s.world).0
