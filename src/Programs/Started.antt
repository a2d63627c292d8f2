-- ===== src/Programs/Started.antt =====
-- What the start of the central orchestrator in cmd/co/main.go reaches.
use margo_hello_world.Common.{
  String, List, [], ◌∷◌, Bool, true, false, Option, none, some, ◌==◌, words, ◌⊎◌, inl, inr, any,
  ◌≡◌, ◌≢◌, refl, sym, ap, ◌∙◌, arith, Bool-cases, Option-cases, ◌&&◌, eq_iff,
}
use mathlib.Core.Option.{get_or}
use margo_hello_world.Common.Dict.{Dict, lookup, insert}
use margo_hello_world.Git.{Calls, done, stuck, panicked, Answer}
use margo_hello_world.Programs.{Environment, central_settings, connect, Connecting}
use margo_hello_world.Programs.Start.{
  Options, parse_flags, Served, serves, returned, Surroundings, Effect, fatal, bad_option,
  connected, metrics_on, repository_ready, hangs, panics, router_on, grpc_on, fatal_on, with_flags,
  with_database, after_router, set_up, with_repositories, start_central,
}

abbrev pub is_grpc : Effect → Bool
is_grpc (grpc_on _) = true
is_grpc (fatal _ _) = false
is_grpc (bad_option _) = false
is_grpc connected = false
is_grpc (metrics_on _) = false
is_grpc repository_ready = false
is_grpc hangs = false
is_grpc panics = false
is_grpc (router_on _) = false

abbrev pub is_router : Effect → Bool
is_router (router_on _) = true
is_router (fatal _ _) = false
is_router (bad_option _) = false
is_router connected = false
is_router (metrics_on _) = false
is_router repository_ready = false
is_router hangs = false
is_router panics = false
is_router (grpc_on _) = false

-- An option that is not defined ends flag.Parse.
undefined_stops :
    (name : String) (defined : List String) (os : Options) (values : Dict String)
    → any (λ n. n == name) defined ≡ false
    → any (λ o. o.0 == name) os ≡ true
    → (bad : String) × (parse_flags defined os values ≡ inl bad)
unfolding parse_flags
undefined_stops name defined [] values u h = absurd (ground (arith, h))
undefined_stops name defined (o ∷ os) values u h = elim (Bool-cases (any (λ n. n == o.0) defined)) [
  | inr e ↦ (o.0, rw (e, parse_flags) refl)
  | inl e ↦ elim (Bool-cases (o.0 == name)) [
    | inl f ↦
        absurd (
          ground (arith, sym e ∙ (ap (λ x. any (λ n. n == x) defined) ((eq_iff o.0 name).0 f) ∙ u)))
    | inr f ↦
        let (bad, p) =
          undefined_stops name defined os (insert o.0 o.1 values) u (ground (arith, h)) in
        (bad, rw (e, parse_flags) p)
  ]
]

-- The parts of main that are neither the server of callbacks nor the router.
module _ (P : Effect → Bool)
    (quiet : (e : Option String) (m : String) → P (fatal m e) ≡ false) where
  fatal_on_quiet :
      (e : Option String) (m : String) (next : List Effect)
      → any P next ≡ false
      → any P (fatal_on e m next) ≡ false
  unfolding fatal_on
  fatal_on_quiet none m next h = h
  fatal_on_quiet (some e) m next h = rw (quiet (some e) m) refl

  with_flags_quiet :
      (parsed : String ⊎ Dict String) (next : Dict String → List Effect)
      → ((name : String) → P (bad_option name) ≡ false)
      → ((values : Dict String) → any P (next values) ≡ false)
      → any P (with_flags parsed next) ≡ false
  unfolding with_flags
  with_flags_quiet (inl name) next b h = rw (b name) refl
  with_flags_quiet (inr values) next b h = h values

fatal_no_grpc :
    (e : Option String) (m : String) (next : List Effect)
    → any is_grpc next ≡ false
    → any is_grpc (fatal_on e m next) ≡ false
fatal_no_grpc = fatal_on_quiet is_grpc (λ _ _. refl)

fatal_no_router :
    (e : Option String) (m : String) (next : List Effect)
    → any is_router next ≡ false
    → any is_router (fatal_on e m next) ≡ false
fatal_no_router = fatal_on_quiet is_router (λ _ _. refl)

stopped_quiet :
    (parsed : String ⊎ Dict String) (bad : String) (next : Dict String → List Effect)
    → parsed ≡ inl bad
    → any is_router (with_flags parsed next) ≡ false
unfolding with_flags
stopped_quiet parsed bad next p = rw (p, with_flags) refl

with_database_quiet :
    (c : Connecting) (next : List Effect)
    → any is_grpc next ≡ false
    → any is_grpc (with_database c next) ≡ false
unfolding with_database
with_database_quiet c next h = elim (Option-cases c.error) [
  | inl e ↦ rw (e, with_database) h
  | inr (x, e) ↦ rw (e, with_database) refl
]

module _ {W : Type 0} (calls : Calls W) where
  with_repositories_quiet :
      (o : Answer W) (next : List Effect)
      → any is_grpc next ≡ false
      → any is_grpc (with_repositories calls o next) ≡ false
  unfolding with_repositories
  with_repositories_quiet (done (s, e)) next h =
      fatal_on_quiet is_grpc (λ _ _. refl) e "" (repository_ready ∷ next) h
  with_repositories_quiet stuck next h = refl
  with_repositories_quiet panicked next h = refl

  after_router_quiet :
      (served : Served) (port : String)
      → served ≢ returned none
      → any is_grpc (after_router served port) ≡ false
  unfolding after_router fatal_on
  after_router_quiet serves port n = refl
  after_router_quiet (returned none) port n = absurd (n refl)
  after_router_quiet (returned (some e)) port n = refl

  grpc_stops :
      (os : Options) (env : Environment) (m : Surroundings) (w : W)
      → (any is_router (start_central calls os env m w) && any (λ o. o.0 == "grpc") os) ≡ false
  unfolding start_central
  grpc_stops os env m w = elim (Bool-cases (any (λ (o : String × String). o.0 == "grpc") os)) [
    | inr e ↦ ground (arith, e)
    | inl given ↦
        let (bad, p) = undefined_stops "grpc" ("config" ∷ []) os [] refl given in
        let quiet : any is_router (start_central calls os env m w) ≡ false =
          fatal_no_router m.working_dir_error _ _
            (fatal_no_router m.read_dir_error _ _ (stopped_quiet _ bad _ p)) in
        rw quiet refl
  ]

  -- When the server of the API never returns without an error, no start of the central
  -- orchestrator gets to the gRPC server for the callbacks of the local orchestrators; and no
  -- start with the option -grpc gets to the API either, whatever the environment, the other
  -- options, and the errors on the way are.
  pub callbacks_unserved :
      (os : Options) (env : Environment) (m : Surroundings) (w : W)
      → ((port : String) → m.run_router port ≢ returned none)
      → (any is_grpc (start_central calls os env m w) ≡ false)
        × ((any is_router (start_central calls os env m w) && any (λ o. o.0 == "grpc") os) ≡ false)
  unfolding start_central
  callbacks_unserved os env m w never = (
    fatal_no_grpc m.working_dir_error _ _ (
        fatal_no_grpc m.read_dir_error _ _ (
          with_flags_quiet is_grpc (λ _ _. refl) _ _ (λ _. refl)
            λ values.
              fatal_no_grpc (m.config_error (get_or (lookup "config" values) "./configs/co.yaml")) _
                _
                (fatal_no_grpc m.logger_error _ _ (
                  with_flags_quiet is_grpc (λ _ _. refl) _ _ (λ _. refl)
                    λ values'. with_database_quiet (connect m.tries) _ (
                      with_repositories_quiet (set_up calls (env "GITHUB_TOKEN") w) _ (
                        after_router_quiet (m.run_router (central_settings env).port)
                          (get_or (lookup "grpc" values') ":50051")
                          (never (central_settings env).port))))))),
    grpc_stops os env m w,
  )
