-- ===== src/Polling/Refused.antt =====
-- Poll of internal/orchestrator/sync_engine.go on the machine of internal/fsmloader/loader.go.
use margo_hello_world.Common.{String, List, Option, none, words, ◌≡◌, refl}
use margo_hello_world.Fsm.{Engine, destination}
use margo_hello_world.Fsm.Runs.{fire_all, table-fire_all}
use margo_hello_world.Loader.{loader_events, new_loader}
use margo_hello_world.Model.{ApplicationDeployment}
use margo_hello_world.Polling.{Hosts, Github, Poller, poll}

-- No state of the loader's table takes the event of Poll.
no_request : (s : String) → destination "receive_request" s loader_events ≡ none
unfolding destination
no_request s = refl

module _ (E : Engine) {W : Type 0} (H : Hosts W) (G : Github)
    (unmarshal : String → Option ApplicationDeployment) where
  open E use {current, table, fire}

  -- Whatever events were fired on the machine of a new loader, Poll leaves its state, the journal
  -- and the hosts as they are and contacts no host, because no state of the loader takes its first
  -- event.
  pub poll_refused :
      (es : List String) (now : String) (p : Poller E H G unmarshal)
      → p.machine ≡ fire_all E es (new_loader E)
      → (current (poll E H G unmarshal now p).machine ≡ current p.machine)
        × ((poll E H G unmarshal now p).journal ≡ p.journal)
        × ((poll E H G unmarshal now p).hosts ≡ p.hosts)
        × ((poll E H G unmarshal now p).world ≡ p.world)
  unfolding poll new_loader
  poll_refused es now p made =
      let entries : table p.machine ≡ loader_events =
        rw (made, table-fire_all, E.table-make) refl in
      let nowhere : destination "receive_request" (current p.machine) (table p.machine) ≡ none =
        rw entries (no_request (current p.machine)) in
      let (same, refused) = E.fire_refused "receive_request" p.machine nowhere in
      rw (refused, poll) (same, refl, refl, refl)
