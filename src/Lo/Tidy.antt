-- ===== src/Lo/Tidy.antt =====
-- The contexts of the mode processes of internal/orchestrator/local_orchestrator.go: handleNetworkChange
-- stops all processes but those that it starts.
use margo_hello_world.Common.{
  ℕ, ◌<◌, String, List, [], ◌∷◌, Bool, true, false, some, ◌==◌, numbers, words, not, mem, keep,
  keep-append, ◌≡◌, refl, sym, ap, ◌∙◌, All, All-append, All-map, arith, ==_iff, Bool-cases, inl,
  inr,
}
use margo_hello_world.Fsm.{Engine}
use margo_hello_world.Lo.{
  Process, Orchestrator, new_orchestrator, started, handle_network_change, live,
}

keep_none {ℓ} :
    {A : Type ℓ} (p : A → Bool) (xs : List A) → All (λ x. p x ≡ false) xs → keep p xs ≡ []
keep_none p [] a = refl
keep_none p (x ∷ xs) a = rw a.0 (keep_none p xs a.1)

keep-All {ℓ} : {A : Type ℓ} (p : A → Bool) (xs : List A) → All (λ x. p x ≡ true) xs → keep p xs ≡ xs
keep-All p [] a = refl
keep-All p (x ∷ xs) a = rw a.0 (ap (◌∷◌ x) (keep-All p xs a.1))

All-started : (m : String) (c : ℕ) → All (λ p. p.ctx ≡ c) (started m c)
unfolding started
All-started m c = elim (Bool-cases (m == "adaptive")) [
  | inl a ↦ rw a (refl, tt)
  | inr a ↦ elim (Bool-cases (m == "pushpreferred")) [
    | inl b ↦ rw (a, b) (refl, tt)
    | inr b ↦ elim (Bool-cases (m == "offline")) [
      | inl d ↦ rw (a, b, d) (refl, tt)
      | inr d ↦ rw (a, b, d) tt
    ]
  ]
]

module _ (E : Engine) where
  -- A process that is not cancelled runs under the context that cancelFunc stops, and contexts are
  -- numbered below `next_ctx`.
  pub record IsTidy (l : Orchestrator E) : Type 0 where
    pub current : All (λ p. mem p.ctx l.cancelled ≡ false → l.cancel_func ≡ some p.ctx) l.processes
    pub made : All (λ p. p.ctx < l.next_ctx) l.processes
    pub old : (c : ℕ) → mem c l.cancelled ≡ true → c < l.next_ctx
    pub stoppable : (c : ℕ) → l.cancel_func ≡ some c → c < l.next_ctx

  pub new-IsTidy : IsTidy (new_orchestrator E)
  unfolding new_orchestrator
  new-IsTidy = record { current = tt; made = tt; old = λ c h. cc; stoppable = λ c h. cc }

  module _ (m : String) (l : Orchestrator E) (h : IsTidy l) where
    abbrev next : Orchestrator E
    next = handle_network_change E m l

    -- The new context is fresh, and all others that were not cancelled are.
    fresh : mem l.next_ctx next.cancelled ≡ false
    unfolding handle_network_change
    fresh = ground (arith, h.old l.next_ctx, h.stoppable l.next_ctx, ==_iff _ l.next_ctx)

    old_cancelled :
        (p : Process)
        → (mem p.ctx l.cancelled ≡ false → l.cancel_func ≡ some p.ctx)
        → mem p.ctx next.cancelled ≡ true
    unfolding handle_network_change
    old_cancelled p q = ground (arith, q, ==_iff p.ctx p.ctx)

    abbrev is_live : Process → Bool
    is_live p = not (mem p.ctx next.cancelled)

    none_left : keep is_live l.processes ≡ []
    none_left =
        keep_none is_live l.processes
          (All-map _ _ l.processes (λ p q. ground (arith, old_cancelled p q)) h.current)

    started_live : keep is_live (started m l.next_ctx) ≡ started m l.next_ctx
    started_live = keep-All is_live (started m l.next_ctx) (
        All-map _ _ (started m l.next_ctx) (λ p q. ground (arith, fresh))
          (All-started m l.next_ctx))

    -- What handleNetworkChange leaves running is what it has started.
    pub live-handle_network_change : live E next ≡ started m l.next_ctx
    unfolding live handle_network_change
    live-handle_network_change =
        keep-append is_live l.processes (started m l.next_ctx) ∙ rw (none_left, started_live) refl

    pub handle-IsTidy : IsTidy next
    unfolding handle_network_change
    handle-IsTidy = record {
      current =
          All-append _ l.processes (started m l.next_ctx)
            (All-map _ _ l.processes (λ p q n. ground (arith, old_cancelled p q)) h.current)
            (All-map _ _ (started m l.next_ctx) (λ p q n. ap some (sym q))
              (All-started m l.next_ctx));
      made =
          All-append _ l.processes (started m l.next_ctx)
            (All-map _ _ l.processes (λ p q. omega arith) h.made)
            (All-map _ _ (started m l.next_ctx) (λ p q. omega arith) (All-started m l.next_ctx));
      old = λ c q. ground (arith, h.old c, h.stoppable c, ==_iff _ c);
      stoppable = λ c q. ground arith;
    }
