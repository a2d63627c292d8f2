-- ===== src/Fsm/Runs.antt =====
-- A machine under a list of events, by its table alone.
use mathlib.Core.Option.{get_or}
use margo_hello_world.Common.{
  String, List, [], ◌∷◌, some, ◌==◌, words, ◌≡◌, refl, sym, ◌∙◌, ap, inl, inr, arith, Bool-cases,
  Option-cases, eq_iff,
}
use margo_hello_world.Fsm.{Transition, Engine, destination}

-- The state after one event.
unfoldable pub after : String → List Transition → String → String
after e ts s = get_or (destination e s ts) s

-- The states after a list of events.
unfoldable pub after_all : List Transition → List String → String → String
after_all ts [] s = s
after_all ts (e ∷ es) s = after_all ts es (after e ts s)

module _ (E : Engine) where
  open E use {Machine, make, current, table, fire}

  unfoldable pub fire_all : List String → Machine → Machine
  fire_all [] m = m
  fire_all (e ∷ es) m = fire_all es (fire e m).0

  pub current-fire :
      (e : String) (m : Machine) → current (fire e m).0 ≡ after e (table m) (current m)
  unfolding after
  current-fire e m = elim (Option-cases (destination e (current m) (table m))) [
    | inl none_ ↦ rw none_ (E.fire_refused e m none_).0
    | inr (d, some_) ↦ elim (Bool-cases (d == current m)) [
      | inl same ↦
          let d_eq = (eq_iff d (current m)).0 same in
          rw some_ ((E.fire_stays e m (some_ ∙ ap some d_eq)).0 ∙ sym d_eq)
      | inr other ↦
          rw some_ (E.fire_moves e m d some_ (λ q. ground (arith, eq_iff d (current m)))).0
    ]
  ]

  pub current-fire_all :
      (es : List String) (m : Machine)
      → current (fire_all es m) ≡ after_all (table m) es (current m)
  unfolding fire_all after_all
  current-fire_all [] m = refl
  current-fire_all (e ∷ es) m =
      rw (current-fire_all es (fire e m).0, E.table-fire e m, current-fire e m) refl

  pub table-fire_all : (es : List String) (m : Machine) → table (fire_all es m) ≡ table m
  unfolding fire_all
  table-fire_all [] m = refl
  table-fire_all (e ∷ es) m = table-fire_all es (fire e m).0 ∙ E.table-fire e m
