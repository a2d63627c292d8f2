-- ===== src/Lo/Deploy/Messages.antt =====
-- Which messages the edge nodes get for a changed deployment.
use margo_hello_world.Common.{
  ℕ, zero, suc, String, List, [], ◌∷◌, ◌++◌, Option, none, some, ◌≡◌, ◌≢◌, refl, sym, ◌∙◌, ap, map,
  inl, inr, arith, Option-cases, All, is_empty, if◌then◌else◌,
}
use mathlib.Core.List.{append-nil, append_assoc, Perm, perm_append_comm}
use mathlib.Core.List.Perm
use margo_hello_world.Model.{ApplicationDeployment, Component}
use margo_hello_world.Lo.Deploy.{
  DeploymentChange, Host, Message, Action, saves, publishes, reports, empty_status, deploy_subject,
  request_of, deploy_to_node, deploy_to_nodes, deploy_to_edges, handle_git_polled, Deploying,
  advance, interleave, until_done, each_until_done, run_calls, first_schedule, other_schedules,
}

-- The messages among the actions.
unfoldable pub messages : List Action → List Message
messages [] = []
messages (saves s ∷ acts) = messages acts
messages (publishes m ∷ acts) = m ∷ messages acts
messages (reports r ∷ acts) = messages acts

messages-append : (xs ys : List Action) → messages (xs ++ ys) ≡ messages xs ++ messages ys
unfolding messages
messages-append [] ys = refl
messages-append (saves s ∷ xs) ys = messages-append xs ys
messages-append (publishes m ∷ xs) ys = ap (◌∷◌ m) (messages-append xs ys)
messages-append (reports r ∷ xs) ys = messages-append xs ys

-- The messages that goroutines are yet to send, and those of several calls.
unfoldable pub all_messages : Deploying → List Message
all_messages [] = []
all_messages (g ∷ gs) = messages g ++ all_messages gs

unfoldable pub messages_of_calls : List Deploying → List Message
messages_of_calls [] = []
messages_of_calls (call ∷ calls) = all_messages call ++ messages_of_calls calls

front-perm : {A : Type 0} → (xs ys zs : List A) → Perm (xs ++ (ys ++ zs)) (ys ++ (xs ++ zs))
front-perm xs ys zs =
    rw⁻¹ (append_assoc xs ys zs, append_assoc ys xs zs)
      (Perm.append_right zs (perm_append_comm xs ys))

advance-messages :
    (i : ℕ) (gs : Deploying)
    → Perm (messages (advance i gs).0 ++ all_messages (advance i gs).1) (all_messages gs)
unfolding advance messages all_messages
advance-messages i [] = Perm.refl []
advance-messages zero ([] ∷ gs) = Perm.refl _
advance-messages zero ((a ∷ acts) ∷ gs) =
    rw⁻¹
      (
        append_assoc (messages (a ∷ [])) (messages acts) (all_messages gs),
        messages-append (a ∷ []) acts,
      )
      (Perm.refl _)
advance-messages (suc i) (g ∷ gs) =
    Perm.trans (front-perm (messages (advance i gs).0) (messages g) (all_messages (advance i gs).1))
      (Perm.append_left (messages g) (advance-messages i gs))

interleave-messages :
    (schedule : List ℕ) (gs : Deploying)
    → Perm (messages (interleave schedule gs)) (all_messages gs)
unfolding interleave messages all_messages
interleave-messages [] [] = Perm.refl []
interleave-messages [] (g ∷ gs) =
    rw (messages-append g (interleave [] gs))
      (Perm.append_left (messages g) (interleave-messages [] gs))
interleave-messages (i ∷ schedule) gs =
    rw (messages-append (advance i gs).0 (interleave schedule (advance i gs).1)) (
      Perm.trans
        (Perm.append_left (messages (advance i gs).0)
          (interleave-messages schedule (advance i gs).1))
        (advance-messages i gs))

until_done-messages :
    (schedule : List ℕ) (gs : Deploying)
    → Perm (messages (until_done schedule gs)) (all_messages gs)
unfolding until_done messages
until_done-messages schedule gs =
    rw (messages-append (interleave schedule gs), append-nil) (interleave-messages schedule gs)

each_until_done-messages :
    (schedules : List (List ℕ)) (calls : List Deploying)
    → Perm (all_messages (each_until_done schedules calls)) (messages_of_calls calls)
unfolding each_until_done all_messages messages_of_calls
each_until_done-messages schedules [] = Perm.refl []
each_until_done-messages schedules (call ∷ calls) =
    Perm.append (until_done-messages (first_schedule schedules) call)
      (each_until_done-messages (other_schedules schedules) calls)

run_calls-messages :
    (schedules : List (List ℕ)) (among : List ℕ) (calls : List Deploying)
    → Perm (messages (run_calls schedules among calls)) (messages_of_calls calls)
unfolding run_calls
run_calls-messages schedules among calls =
    Perm.trans (interleave-messages among (each_until_done schedules calls))
      (each_until_done-messages schedules calls)

-- What a node is to receive for a deployment: its first component, on the node's own subject.
unfoldable pub message_for : ApplicationDeployment → Component → Host → Message
message_for dep c node = record {
  subject = deploy_subject node.site_id node.host_id;
  request = record {
    app_name = "";
    image = "";
    token = "";
    deployment_id = dep.metadata.annotations.id;
    git_repo_url = c.properties.repository;
    wasm_images = [];
    container_images = c.properties.repository ∷ [];
    revision = c.properties.revision;
  };
}

module _ (dep : ApplicationDeployment) (c : Component) (cs : List Component)
    (has : dep.spec.deployment_profile.components ≡ c ∷ cs) where
  to_node :
      (node : Host)
      → deploy_to_node node dep
        ≡ some (saves empty_status ∷ publishes (message_for dep c node) ∷ [])
  unfolding deploy_to_node message_for
  to_node node = rw (has, request_of) refl

  to_nodes :
      (nodes : List Host)
      → (gs : Deploying) × (deploy_to_nodes nodes dep ≡ some gs)
        × (all_messages gs ≡ map (message_for dep c) nodes)
  unfolding deploy_to_nodes messages all_messages
  to_nodes [] = ([], refl, refl)
  to_nodes (node ∷ nodes) =
      let (gs, e, m) = to_nodes nodes in
      (
        (saves empty_status ∷ publishes (message_for dep c node) ∷ []) ∷ gs,
        rw (to_node node, deploy_to_nodes) (rw e refl),
        ap (◌∷◌ (message_for dep c node)) m,
      )

  -- A deployment with a component is sent to every host of the table, once, however the goroutines
  -- advance: its first component, on the subject of the host.
  pub deploy_to_edges-messages :
      (nodes : List Host) (schedule : List ℕ)
      → (gs : Deploying) × (deploy_to_edges nodes dep ≡ some gs)
        × Perm (messages (until_done schedule gs)) (map (message_for dep c) nodes)
  unfolding deploy_to_edges
  deploy_to_edges-messages nodes schedule =
      let (gs, e, m) = to_nodes nodes in (gs, e, rw⁻¹ m (until_done-messages schedule gs))

-- A deployment without a component makes the program panic if there is a host; if there is none it
-- starts no goroutine, and nothing is sent.
pub deploy_to_edges_no_component :
    (dep : ApplicationDeployment) (nodes : List Host)
    → dep.spec.deployment_profile.components ≡ []
    → deploy_to_edges nodes dep ≡ (if is_empty nodes then some [] else none)
unfolding deploy_to_edges deploy_to_nodes deploy_to_node
deploy_to_edges_no_component dep [] h = refl
deploy_to_edges_no_component dep (node ∷ nodes) h = rw (h, request_of) refl

module _ (parse : String → Option ApplicationDeployment) (hosts : List Host) where
  -- What the hosts are to receive for one file: nothing if it holds no deployment.
  unfoldable pub wanted_of : Option ApplicationDeployment → List Message
  wanted_of none = []
  wanted_of (some dep) = elim dep.spec.deployment_profile.components [
    | [] ↦ []
    | c ∷ cs ↦ map (message_for dep c) hosts
  ]

  unfoldable pub wanted : List DeploymentChange → List Message
  wanted [] = []
  wanted (d ∷ ds) = wanted_of (parse d.content) ++ wanted ds

  pub wanted_first :
      (dep : ApplicationDeployment) (c : Component) (cs : List Component)
      → dep.spec.deployment_profile.components ≡ c ∷ cs
      → wanted_of (some dep) ≡ map (message_for dep c) hosts
  unfolding wanted_of
  wanted_first dep c cs h = ground (arith, h)

  sends_wanted :
      (dep : ApplicationDeployment) (cs : List Component)
      → dep.spec.deployment_profile.components ≡ cs
      → cs ≢ []
      → (gs : Deploying) × (deploy_to_edges hosts dep ≡ some gs)
        × (all_messages gs ≡ wanted_of (some dep))
  unfolding deploy_to_edges
  sends_wanted dep [] h n = absurd (n refl)
  sends_wanted dep (c ∷ cs) h n =
      let (gs, e, m) = to_nodes dep c cs h hosts in (gs, e, m ∙ sym (wanted_first dep c cs h))

  starts_wanted :
      (ds : List DeploymentChange)
      → All
          (λ d.
            (dep : ApplicationDeployment)
            → parse d.content ≡ some dep
            → dep.spec.deployment_profile.components ≢ [])
          ds
      → (calls : List Deploying) × (handle_git_polled parse hosts ds ≡ some calls)
        × (messages_of_calls calls ≡ wanted ds)
  unfolding handle_git_polled wanted wanted_of messages_of_calls
  starts_wanted [] a = ([], refl, refl)
  starts_wanted (d ∷ ds) a =
      let (calls, f, k) = starts_wanted ds a.1 in
      elim (Option-cases (parse d.content)) [
        | inl p ↦ (calls, rw (p, handle_git_polled) f, rw p k)
        | inr (dep, p) ↦
            let (gs, e, m) = sends_wanted dep _ refl (a.0 dep p) in
            (gs ∷ calls, rw (p, handle_git_polled) (rw e (rw f refl)), rw (p, m, k) refl)
      ]

  -- A batch of changed files in which every deployment has a component is handled without a panic,
  -- and however the goroutines of its files and of their nodes advance every host is sent exactly
  -- one message for each file that holds a deployment, the other files being passed over.
  pub handle_git_polled-messages :
      (ds : List DeploymentChange) (schedules : List (List ℕ)) (among : List ℕ)
      → All
          (λ d.
            (dep : ApplicationDeployment)
            → parse d.content ≡ some dep
            → dep.spec.deployment_profile.components ≢ [])
          ds
      → (calls : List Deploying) × (handle_git_polled parse hosts ds ≡ some calls)
        × Perm (messages (run_calls schedules among calls)) (wanted ds)
  handle_git_polled-messages ds schedules among a =
      let (calls, e, m) = starts_wanted ds a in
      (calls, e, rw⁻¹ m (run_calls-messages schedules among calls))
