-- ===== src/Loader/States.antt =====
-- The states that the loader's machine can reach.
use margo_hello_world.Common.{
  String, List, [], ◌∷◌, words, ◌≡◌, ◌≢◌, refl, ◌∙◌, inl, inr, ◌⊎◌, arith, eq_iff, All,
}
use margo_hello_world.Fsm.{Engine, destination}
use margo_hello_world.Fsm.Runs.{
  after, after_all, fire_all, current-fire, current-fire_all, table-fire_all,
}
use margo_hello_world.Loader.{loader_events, new_loader, WorkResult, on_result}

-- Neither deploying nor failed.
abbrev pub IsCalm : String → Type 0
IsCalm s = (s ≡ "idle") ⊎ (s ≡ "ready")

IsCalm-after_idle : (e : String) → e ≢ "deploy" → IsCalm (after e loader_events "idle")
unfolding after destination
IsCalm-after_idle e n = ground (arith, eq_iff "deploy" e)

IsCalm-after_ready : (e : String) → e ≢ "deploy" → IsCalm (after e loader_events "ready")
unfolding after destination
IsCalm-after_ready e n = ground (arith, eq_iff "deploy" e)

IsCalm-after : (e s : String) → e ≢ "deploy" → IsCalm s → IsCalm (after e loader_events s)
IsCalm-after e s n (inl i) = rw i (IsCalm-after_idle e n)
IsCalm-after e s n (inr r) = rw r (IsCalm-after_ready e n)

IsCalm-after_all :
    (es : List String) (s : String)
    → All (λ e. e ≢ "deploy") es
    → IsCalm s
    → IsCalm (after_all loader_events es s)
unfolding after_all
IsCalm-after_all [] s a c = c
IsCalm-after_all (e ∷ es) s a c =
    IsCalm-after_all es (after e loader_events s) a.1 (IsCalm-after e s a.0 c)

-- In a calm state the table has no transition for the two events of the result listener.
results_stay :
    (s : String)
    → IsCalm s
    → (after "fail" loader_events s ≡ s) × (after "success" loader_events s ≡ s)
unfolding after destination
results_stay s (inl i) = (rw i refl, rw i refl)
results_stay s (inr r) = (rw r refl, rw r refl)

module _ (E : Engine) where
  open E use {Machine, current, table, fire}

  -- While no "deploy" is fired the machine of a new loader is idle or ready, whatever other events
  -- are fired, known to its table or not.
  pub IsCalm-without_deploy :
      (es : List String)
      → All (λ e. e ≢ "deploy") es
      → IsCalm (current (fire_all E es (new_loader E)))
  unfolding new_loader
  IsCalm-without_deploy es a =
      rw (current-fire_all E es (new_loader E), E.table-make, E.current-make)
        (IsCalm-after_all es "idle" a (inl refl))

  on_result_stays :
      (r : WorkResult) (m : Machine)
      → table m ≡ loader_events
      → IsCalm (current m)
      → current (on_result E r m) ≡ current m
  unfolding on_result
  on_result_stays r m t c =
      let (f, s) = results_stay (current m) c in
      ground (arith, current-fire E "fail" m, current-fire E "success" m, t)

  -- Then no result of a deployment changes the machine's state: it is ready or idle after a failed
  -- deployment as after a successful one.
  pub result_not_recorded :
      (es : List String) (r : WorkResult)
      → All (λ e. e ≢ "deploy") es
      → current (on_result E r (fire_all E es (new_loader E)))
        ≡ current (fire_all E es (new_loader E))
  unfolding new_loader
  result_not_recorded es r a =
      on_result_stays r (fire_all E es (new_loader E))
        (table-fire_all E es (new_loader E) ∙ E.table-make "idle" loader_events)
        (IsCalm-without_deploy es a)
