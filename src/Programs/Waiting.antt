-- ===== src/Programs/Waiting.antt =====
-- How long the programs wait for the database.
use margo_hello_world.Common.{
  ℕ, zero, suc, ◌+◌, ◌*◌, ◌<◌, String, Option, none, some, ◌≡◌, arith, numbers, sym, ap, ◌∙◌,
}
use margo_hello_world.Programs.{
  Attempt, attempt_error, Connecting, connect_rounds, connect, max_attempts,
}

-- The attempts `from`, …, `from + n - 1` fail.
abbrev pub Fail : (ℕ → Attempt) → ℕ → ℕ → Type 0
Fail tries from zero = Unit
Fail tries from (suc n) =
    ((e : String) × (attempt_error (tries from) ≡ some e)) × Fail tries (suc from) n

abbrev waited : ℕ → Option String → Connecting
waited seconds e = record { slept = seconds; error = e }

module _ (tries : ℕ → Attempt) where
  abbrev found : ℕ → Option String
  found i = attempt_error (tries i)

  -- The first round that succeeds is the last one.
  rounds_succeed :
      (n left from slept : ℕ) (e : Option String)
      → n < left
      → Fail tries from n
      → found (from + n) ≡ none
      → connect_rounds left from tries (waited slept e) ≡ waited (slept + 3 * n) none
  unfolding connect_rounds
  rounds_succeed n zero from slept e h f ok = absurd (omega (arith, h))
  rounds_succeed zero (suc left) from slept e h f ok =
      let here : found from ≡ none = ap found (omega arith) ∙ ok in
      rw (here, connect_rounds) (ap (λ t. waited t none) (omega arith))
  rounds_succeed (suc n) (suc left) from slept e h ((e', failed), f) ok =
      let later : found (suc from + n) ≡ none = ap found (omega arith) ∙ ok in
      rw (failed, connect_rounds)
        (rounds_succeed n left (suc from) (slept + 3) (some e') (omega (arith, h)) f later
          ∙ ap (λ t. waited t none) (omega arith))

  -- Every round that is left fails.
  rounds-Fail :
      (left from slept : ℕ) (e : Option String)
      → Fail tries from (suc left)
      → connect_rounds (suc left) from tries (waited slept e)
        ≡ waited (slept + 3 * suc left) (found (from + left))
  unfolding connect_rounds
  rounds-Fail zero from slept e ((e', failed), f) =
      let here : some e' ≡ found (from + 0) = sym failed ∙ ap found (omega arith) in
      rw (failed, connect_rounds) (ap (waited (slept + 3)) here)
  rounds-Fail (suc left) from slept e ((e', failed), f) =
      rw (failed, connect_rounds)
        (rounds-Fail left (suc from) (slept + 3) (some e') f
          ∙ (ap (λ t. waited t (found (suc from + left))) (omega arith)
              ∙ ap (λ i. waited (slept + 3 * suc (suc left)) (found i)) (omega arith)))

  -- When the first n attempts at the database fail and the next one succeeds, with n less than
  -- ten, the program goes on without an error after 3 * n seconds of sleep.
  pub connect_waits :
      (n : ℕ)
      → n < max_attempts
      → Fail tries 1 n
      → attempt_error (tries (1 + n)) ≡ none
      → connect tries ≡ record { slept = 3 * n; error = none }
  unfolding connect
  connect_waits n h f ok =
      rounds_succeed n max_attempts 1 0 none h f ok ∙ ap (λ t. waited t none) (omega arith)

  -- When every attempt fails, the loop ends after 30 seconds with the error of the last one.
  pub connect-Fail :
      Fail tries 1 max_attempts
      → connect tries ≡ record { slept = 30; error = attempt_error (tries 10) }
  unfolding connect
  connect-Fail f = rounds-Fail 9 1 0 none f
