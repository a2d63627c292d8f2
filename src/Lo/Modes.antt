-- ===== src/Lo/Modes.antt =====
-- Which mode process of internal/orchestrator/local_orchestrator.go runs, and when the monitor's
-- events are lost.
use margo_hello_world.Common.{
  ℕ, zero, suc, ◌≤◌, String, List, [], ◌∷◌, ◌++◌, Option, none, some, ◌==◌, numbers, words, ltb,
  length, if◌then◌else◌, ◌≡◌, refl, arith, Bool-cases, inl, inr,
}
use margo_hello_world.Fsm.{Engine}
use margo_hello_world.Model.{ApplicationDeployment}
use margo_hello_world.Lo.Deploy.{Host, Deploying, handle_git_polled}
use margo_hello_world.Lo.{
  Payload, git_polled, network_change, Event, event_git_polled, event_network_change, queue_cap,
  Orchestrator, new_orchestrator, trigger_event, monitor_tick, detect_mode, started,
  handle_network_change, live, handle_payload, with_calls, fired, dispatch,
}
use margo_hello_world.Lo.Turns.{
  IfAny, IfAny-elim, Turn, ticks, dispatches, triggers, take_turn, take_turns,
}
use margo_hello_world.Lo.Tidy.{IsTidy, new-IsTidy, handle-IsTidy, live-handle_network_change}

module _ (E : Engine) (parse : String → Option ApplicationDeployment) (hosts : List Host) where
  -- Nothing that is live but what the last change of mode started.
  abbrev OneLive : Orchestrator E → Type 0
  OneLive l = IsTidy E l × (length (live E l) ≤ 1)

  length-started : (m : String) (c : ℕ) → length (started m c) ≤ 1
  unfolding started
  length-started m c = ground arith

  trigger_keeps :
      (name : String) (p : Payload) (l : Orchestrator E)
      → OneLive l
      → OneLive (trigger_event E name p l)
  unfolding trigger_event live
  trigger_keeps name p l h = elim (Bool-cases (ltb (length l.queue) queue_cap)) [
    | inl e ↦ rw e (
      record { current = h.0.current; made = h.0.made; old = h.0.old; stoppable = h.0.stoppable },
      h.1,
    )
    | inr e ↦ rw e h
  ]

  tick_keeps : (mode : String) (l : Orchestrator E) → OneLive l → OneLive (monitor_tick E mode l).1
  unfolding monitor_tick live
  tick_keeps mode l h = elim (Bool-cases (detect_mode == mode)) [
    | inl e ↦ rw e h
    | inr e ↦
        let k = trigger_keeps event_network_change (network_change mode detect_mode) l h in
        rw e (
          record {
            current = k.0.current;
            made = k.0.made;
            old = k.0.old;
            stoppable = k.0.stoppable;
          },
          k.1,
        )
  ]

  -- Only the machine, the queue, the mode or the calls differ.
  like :
      (l t : Orchestrator E)
      → OneLive l
      → t.cancel_func ≡ l.cancel_func
      → t.next_ctx ≡ l.next_ctx
      → t.cancelled ≡ l.cancelled
      → t.processes ≡ l.processes
      → OneLive t
  unfolding live
  like l t h a b c d = (
    record {
      current = rw (a, c, d) h.0.current;
      made = rw (b, d) h.0.made;
      old = λ x q. rw b (h.0.old x (rw c at q));
      stoppable = λ x q. rw b (h.0.stoppable x (rw a at q));
    },
    rw (c, d) h.1,
  )

  calls_keep :
      (o : Option (List Deploying)) (l : Orchestrator E)
      → OneLive l
      → IfAny OneLive (with_calls E parse hosts o l)
  unfolding with_calls
  calls_keep none l h = tt
  calls_keep (some calls) l h = like l _ h refl refl refl refl

  change_keeps :
      (m : String) (l : Orchestrator E) → OneLive l → OneLive (handle_network_change E m l)
  change_keeps m l h = (
    handle-IsTidy E m l h.0,
    rw (live-handle_network_change E m l h.0) (length-started m l.next_ctx),
  )

  payload_keeps :
      (p : Payload) (name : String) (l : Orchestrator E)
      → OneLive l
      → IfAny OneLive (handle_payload E parse hosts p name l)
  unfolding handle_payload
  payload_keeps (git_polled c ds) name l h = elim (Bool-cases (name == event_git_polled)) [
    | inl y ↦ rw y (calls_keep (handle_git_polled parse hosts ds) l h)
    | inr n ↦ rw n h
  ]
  payload_keeps (network_change old new) name l h =
      elim (Bool-cases (name == event_network_change)) [
        | inl y ↦ rw y (change_keeps new l h)
        | inr n ↦ rw n h
      ]

  fired_keeps :
      (name : String) (o : Option (Orchestrator E))
      → IfAny OneLive o
      → IfAny OneLive (fired E parse hosts name o)
  unfolding fired
  fired_keeps name none h = tt
  fired_keeps name (some l) h = like l _ h refl refl refl refl

  dispatch_keeps : (l : Orchestrator E) → OneLive l → IfAny OneLive (dispatch E parse hosts l)
  unfolding dispatch
  dispatch_keeps l h = go l.queue refl
    where
      go : (q : List Event) → l.queue ≡ q → IfAny OneLive (dispatch E parse hosts l)
      go [] e = rw (e, dispatch) h
      go (ev ∷ evs) e =
          rw (e, dispatch)
            (fired_keeps ev.name _
              (payload_keeps ev.payload ev.name _ (like l _ h refl refl refl refl)))

  turn_keeps :
      (t : Turn) (s : String × Orchestrator E)
      → OneLive s.1
      → IfAny (λ u. OneLive u.1) (take_turn E parse hosts t s)
  unfolding take_turn
  turn_keeps ticks (mode, l) h = tick_keeps mode l h
  turn_keeps dispatches (mode, l) h =
      IfAny-elim OneLive _ (dispatch E parse hosts l) (λ t. some (mode, t)) (dispatch_keeps l h)
        (λ t k. k)
  turn_keeps (triggers name p) (mode, l) h = trigger_keeps name p l h

  turns_keep :
      (ts : List Turn) (s : String × Orchestrator E)
      → OneLive s.1
      → IfAny (λ u. OneLive u.1) (take_turns E parse hosts ts s)
  unfolding take_turns
  turns_keep [] s h = h
  turns_keep (t ∷ ts) s h =
      IfAny-elim (λ u. OneLive u.1) _ (take_turn E parse hosts t s) (take_turns E parse hosts ts)
        (turn_keeps t s h) (λ u k. turns_keep ts u k)

  -- However the monitor, the dispatcher and the watchers take turns from a new orchestrator, at
  -- most one mode process is running under a context that is not cancelled, unless the program has
  -- panicked.
  pub one_mode_process :
      (ts : List Turn)
      → IfAny (λ u. length (live E u.1) ≤ 1) (take_turns E parse hosts ts ("", new_orchestrator E))
  unfolding new_orchestrator live
  one_mode_process ts =
      go (take_turns E parse hosts ts ("", new_orchestrator E))
        (turns_keep ts ("", new_orchestrator E) (new-IsTidy E, omega arith))
    where
      go :
          (o : Option (String × Orchestrator E))
          → IfAny (λ u. OneLive u.1) o
          → IfAny (λ u. length (live E u.1) ≤ 1) o
      go none k = tt
      go (some u) k = k.1

module _ (E : Engine) where
  unfoldable pub ticks_of : ℕ → String × Orchestrator E → String × Orchestrator E
  ticks_of zero s = s
  ticks_of (suc n) s = ticks_of n (monitor_tick E s.0 s.1)

  settled : (n : ℕ) (l : Orchestrator E) → ticks_of n (detect_mode, l) ≡ (detect_mode, l)
  unfolding ticks_of monitor_tick
  settled zero l = refl
  settled (suc n) l = settled n l

  -- The monitor queues its change of mode at the first tick if there is room in the queue, and
  -- never again. When the queue is full at that tick the event is dropped, and yet the mode counts
  -- as changed: no later tick queues it, so no mode process is started.
  pub ticks_once :
      (n : ℕ) (l : Orchestrator E)
      → (ticks_of (suc n) ("", l)).1.queue ≡ (
          if ltb (length l.queue) queue_cap
          then l.queue
            ++ record { name = event_network_change; payload = network_change "" detect_mode } ∷ []
          else l.queue)
  unfolding ticks_of monitor_tick trigger_event
  ticks_once n l = elim (Bool-cases (ltb (length l.queue) queue_cap)) [
    | inl e ↦ rw (settled n, e) refl
    | inr e ↦ rw (settled n, e) refl
  ]
