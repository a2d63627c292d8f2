-- ===== src/Fetcher/Termination.antt =====
-- CloneOrPull of internal/gitfetcher/fetcher.go: when its calls of itself end.
use margo_hello_world.Common.{
  ℕ, zero, suc, String, true, false, Option, ◌≡◌, refl, ◌⊎◌, inl, inr, ◌≢◌, Bool-cases,
  Option-cases, Sum-cases,
}
use margo_hello_world.Remote.{Pulled, updated, up_to_date, pull_failed}
use margo_hello_world.Fetcher.{
  GitFetcher, Client, Opened, opened, not_exist, open_failed, Outcome, out_of_fuel, panicked,
  returned, git_dir, clone_options, cloned, pulled_round, opened_round, round, clone_or_pull,
}

-- The call came to an end.
abbrev pub IsEnded : {Disk : Type 0} → Outcome Disk → Type 0
IsEnded out_of_fuel = ⊥
IsEnded panicked = Unit
IsEnded (returned d e) = Unit

-- What a round ends with is an end, or it starts again from a disk without the directory.
abbrev pub IsRound : {Disk : Type 0} → Client Disk → GitFetcher → Outcome Disk ⊎ Disk → Type 0
IsRound {Disk} C g (inl o) = IsEnded o
IsRound {Disk} C g (inr d') = (e : Disk) × (d' ≡ C.remove_all g.local_dir e)

module _ {Disk : Type 0} (C : Client Disk) (g : GitFetcher) (token : String) where
  pulled_round-IsRound : (d : Disk) (p : Disk × Pulled) → IsRound C g (pulled_round C g p)
  unfolding pulled_round
  pulled_round-IsRound d (e, updated) = tt
  pulled_round-IsRound d (e, up_to_date) = tt
  pulled_round-IsRound d (e, pull_failed x) = (e, refl)

  opened_round-IsRound : (d : Disk) → IsRound C g (opened_round C g token d)
  unfolding opened_round
  opened_round-IsRound d = elim (Option-cases (C.worktree_error g.local_dir d)) [
    | inr (e, p) ↦ rw (opened_round, p) tt
    | inl p ↦ rw (opened_round, p) (pulled_round-IsRound d _)
  ]

  Opened-cases :
      (o : Opened) → (o ≡ opened) ⊎ ((o ≡ not_exist) ⊎ ((e : String) × (o ≡ open_failed e)))
  Opened-cases opened = inl refl
  Opened-cases not_exist = inr (inl refl)
  Opened-cases (open_failed e) = inr (inr (e, refl))

  round-IsRound : (d : Disk) → IsRound C g (round C g token d)
  unfolding round
  round-IsRound d = elim (Bool-cases (C.is_missing (git_dir g) d)) [
    | inl m ↦ rw (round, m) tt
    | inr m ↦ elim (Opened-cases (C.plain_open g.local_dir d)) [
      | inl p ↦ rw (round, m, p) (opened_round-IsRound d)
      | inr (inl p) ↦ rw (round, m, p) (d, refl)
      | inr (inr (e, p)) ↦ rw (round, m, p) (d, refl)
    ]
  ]

  -- A round on a disk without the directory clones.
  round_missing :
      (d : Disk)
      → C.is_missing (git_dir g) d ≡ true
      → round C g token d ≡ inl (cloned C (C.plain_clone g.local_dir (clone_options g token) d))
  unfolding round
  round_missing d m = rw (round, m) refl

  pub round_ends :
      (n : ℕ) (d : Disk) (o : Outcome Disk)
      → round C g token d ≡ inl o
      → clone_or_pull C (suc n) g token d ≡ o
  unfolding clone_or_pull
  round_ends n d o p = rw (clone_or_pull, p) refl

  round_again :
      (n : ℕ) (d e : Disk)
      → round C g token d ≡ inr e
      → clone_or_pull C (suc n) g token d ≡ clone_or_pull C n g token e
  unfolding clone_or_pull
  round_again n d e p = rw (clone_or_pull, p) refl

  cloned-IsEnded : (r : Disk × Option String) → IsEnded (cloned C r)
  cloned-IsEnded (d, e) = tt

  module _
      (removes : (d : Disk) → C.is_missing (git_dir g) (C.remove_all g.local_dir d) ≡ true) where
    -- After a removal one round is enough.
    again-IsEnded :
        (n : ℕ) (d e : Disk)
        → round C g token d ≡ inr e
        → IsEnded (clone_or_pull C (suc n) g token e)
          × (clone_or_pull C (suc n) g token e ≡ clone_or_pull C 1 g token e)
    again-IsEnded n d e p =
        let (before, q) = rw p at (round-IsRound d) in
        let missing : C.is_missing (git_dir g) e ≡ true = rw q (removes before) in
        let done = round_missing e missing in
        rw (round_ends n e _ done, round_ends 0 e _ done)
          (cloned-IsEnded (C.plain_clone g.local_dir (clone_options g token) e), refl)

    -- When RemoveAll always leaves no copy of the repository, CloneOrPull comes to an end (it
    -- returns, or it panics on a missing worktree) within two rounds, and more fuel gives the same
    -- outcome.
    pub clone_or_pull-IsEnded :
        (n : ℕ) (d : Disk)
        → IsEnded (clone_or_pull C (suc (suc n)) g token d)
          × (clone_or_pull C (suc (suc n)) g token d ≡ clone_or_pull C 2 g token d)
    clone_or_pull-IsEnded n d = elim (Sum-cases (round C g token d)) [
      | inl (o, p) ↦
          let ends : IsEnded o = rw p at (round-IsRound d) in
          rw (round_ends (suc n) d o p, round_ends 1 d o p) (ends, refl)
      | inr (e, p) ↦ rw (round_again (suc n) d e p, round_again 1 d e p) (again-IsEnded n d e p)
    ]

  -- A copy that does not open, and that cannot be removed, leads to the next round.
  round_stuck :
      (d : Disk)
      → C.is_missing (git_dir g) d ≡ false
      → C.plain_open g.local_dir d ≢ opened
      → C.remove_all g.local_dir d ≡ d
      → round C g token d ≡ inr d
  unfolding round
  round_stuck d m o r = elim (Opened-cases (C.plain_open g.local_dir d)) [
    | inl p ↦ absurd (o p)
    | inr (inl p) ↦ rw (round, m, p, r) refl
    | inr (inr (e, p)) ↦ rw (round, m, p, r) refl
  ]

  -- From a copy that exists, does not open, and is left as it is by RemoveAll, CloneOrPull never
  -- returns: every fuel runs out.
  pub clone_or_pull_loops :
      (fuel : ℕ) (d : Disk)
      → C.is_missing (git_dir g) d ≡ false
      → C.plain_open g.local_dir d ≢ opened
      → C.remove_all g.local_dir d ≡ d
      → clone_or_pull C fuel g token d ≡ out_of_fuel
  unfolding clone_or_pull
  clone_or_pull_loops zero d m o r = refl
  clone_or_pull_loops (suc fuel) d m o r =
      let rest = clone_or_pull_loops fuel d m o r in
      rw (round_again fuel d d (round_stuck d m o r)) rest
