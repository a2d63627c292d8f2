-- ===== src/Node/Monitor.antt =====
-- How a deployment on an edge node ends, and what happens after one that failed.
use margo_hello_world.Common.{
  String, List, [], ◌∷◌, Bool, true, false, none, some, words, ◌≡◌, refl, ◌∙◌, if◌then◌else◌, inl,
  inr, ◌⊎◌, ◌||◌, arith,
}
use margo_hello_world.Common.Dict.{Dict}
use margo_hello_world.Fsm.{Engine, destination, invalid_event, is_known}
use margo_hello_world.Fsm.Runs.{
  after, after_all, fire_all, current-fire, current-fire_all, table-fire_all,
}
use margo_hello_world.Node.{
  node_events, some_failed, all_done, not_done, EdgeNode, start_deployment, inspect, monitor_pass,
  is_failed, is_busy,
}

module _ (E : Engine) where
  open E use {Machine, current, table, fire}

  -- Some container has failed.
  unfoldable pub any_failed : Dict Machine → Bool
  any_failed [] = false
  any_failed ((id, c) ∷ cs) = is_failed E c || any_failed cs

  -- Some container is running or was not started.
  unfoldable pub any_busy : Dict Machine → Bool
  any_busy [] = false
  any_busy ((id, c) ∷ cs) = is_busy E c || any_busy cs

  -- The pass finds the same whatever the order of the containers.
  inspect_lem :
      (cs : Dict Machine) (all : Bool)
      → inspect E cs all ≡ (
          if any_failed cs
          then some_failed
          else if any_busy cs
          then not_done
          else if all
          then all_done
          else not_done)
  unfolding inspect any_failed any_busy
  inspect_lem [] all = refl
  inspect_lem ((id, c) ∷ cs) all = ground (arith, inspect_lem cs all, inspect_lem cs false)

  -- Of a node that is deploying, a pass of the monitor returns at once when a container has failed,
  -- with the node in error; it returns when no container is running or created, with the node idle;
  -- and otherwise it goes on, and the node still deploys.
  pub monitor_pass_outcome :
      (e : EdgeNode E)
      → table e.machine ≡ node_events
      → current e.machine ≡ "node_deploying"
      → (current (monitor_pass E e).0.machine ≡ (
          if any_failed e.containers
          then "node_error"
          else if any_busy e.containers
          then "node_deploying"
          else "node_idle"))
        × ((monitor_pass E e).1 ≡ (
            if any_failed e.containers
            then true
            else if any_busy e.containers
            then false
            else true))
  unfolding monitor_pass
  monitor_pass_outcome e t c =
      let failed : current (fire "deployment_failed" e.machine).0 ≡ "node_error" =
        rw (current-fire E, t, c) (unfold after destination in refl) in
      let done : current (fire "deployment_success" e.machine).0 ≡ "node_idle" =
        rw (current-fire E, t, c) (unfold after destination in refl) in
      (ground (arith, inspect_lem e.containers true), ground (arith, inspect_lem e.containers true))

error_after : (e : String) → after e node_events "node_error" ≡ "node_error"
unfolding after destination
error_after e = ground arith

error_after_all : (es : List String) → after_all node_events es "node_error" ≡ "node_error"
unfolding after_all
error_after_all [] = refl
error_after_all (e ∷ es) = rw (error_after e) (error_after_all es)

-- The states that a node reaches.
abbrev IsNodeState : String → Type 0
IsNodeState s = (s ≡ "node_idle") ⊎ (s ≡ "node_deploying") ⊎ (s ≡ "node_error")

node_after : (e s : String) → IsNodeState s → IsNodeState (after e node_events s)
unfolding after destination
node_after e s (inl p) = rw p (ground arith)
node_after e s (inr (inl p)) = rw p (ground arith)
node_after e s (inr (inr p)) = rw p (ground arith)

node_after_all :
    (es : List String) (s : String) → IsNodeState s → IsNodeState (after_all node_events es s)
unfolding after_all
node_after_all [] s h = h
node_after_all (e ∷ es) s h = node_after_all es (after e node_events s) (node_after e s h)

reset_refused : (s : String) → IsNodeState s → destination "reset" s node_events ≡ none
unfolding destination
reset_refused s (inl p) = rw p refl
reset_refused s (inr (inl p)) = rw p refl
reset_refused s (inr (inr p)) = rw p refl

module _ (E : Engine) where
  open E use {Machine, make, current, table, fire}

  -- After any events a new node's machine refuses "reset": its two source states are no states of
  -- this machine.
  pub reset_never_accepted :
      (es : List String)
      → (fire "reset" (fire_all E es (make "node_idle" node_events))).1 ≡ some invalid_event
  reset_never_accepted es =
      let m = fire_all E es (make "node_idle" node_events) in
      let t : table m ≡ node_events =
        table-fire_all E es (make "node_idle" node_events) ∙ E.table-make "node_idle" node_events in
      let h : destination "reset" (current m) (table m) ≡ none =
        rw (t, current-fire_all E es (make "node_idle" node_events), E.table-make, E.current-make)
          (reset_refused _ (node_after_all es "node_idle" (inl refl))) in
      (E.fire_refused "reset" m h).1 ∙ rw t (unfold is_known in refl)

  -- A node in error stays in error whatever events are fired, and starts no deployment: its
  -- containers stay as they are.
  pub error_is_final :
      (e : EdgeNode E) (es cids : List String)
      → table e.machine ≡ node_events
      → current e.machine ≡ "node_error"
      → (current (fire_all E es e.machine) ≡ "node_error")
        × (current (start_deployment E cids e).machine ≡ "node_error")
        × ((start_deployment E cids e).containers ≡ e.containers)
  unfolding start_deployment
  error_is_final e es cids t c =
      let h : destination "start_deployment" (current e.machine) (table e.machine) ≡ none =
        rw (c, t) (unfold destination in refl) in
      let (s, x) = E.fire_refused "start_deployment" e.machine h in
      (
        rw (current-fire_all E es e.machine, t, c) (error_after_all es),
        ground (arith, s, x),
        ground (arith, s, x),
      )
