-- ===== src/Examples/Streams.antt =====
-- The streams of two followers.
use margo_hello_world.Common.{
  ℕ, ◌+◌, String, List, [], ◌∷◌, length, ◌++◌, true, false, some, ◌≡◌, ◌≢◌, refl, mem, length,
  arith, take, numbers, words,
}
use margo_hello_world.Common.Dict.{lookup, insert}
use margo_hello_world.Streams.{
  DeployEvent, StreamManager, new_stream_manager, channels, register, unregister, Call, registers,
  unregisters, broadcasts, receives, run, chan_cap,
}
use margo_hello_world.Streams.Spec.{new_spec, spec_run, performs}
use margo_hello_world.Streams.Refinement.{performs-spec_run}
use margo_hello_world.Streams.Safety.{IsSafe, new-IsSafe, register-IsSafe}
use margo_hello_world.Streams.Delivery.{
  run-new_total, broadcast_all, broadcast_all_keeps_first, unregister-register,
}
use margo_hello_world.Streams.Follow.{Session, streaming, turns}
use margo_hello_world.Streams.Follow.Draining.{Drained, turns_drain}

abbrev told : String → DeployEvent
told status = record {
  deployment_id = "d1";
  timestamp = "";
  site_id = "";
  message = "";
  status = status;
}

abbrev calls : List Call
calls =
    registers "d1"
    ∷ registers "d1"
    ∷ broadcasts "d1" (told "pending")
    ∷ unregisters "d1" 0
    ∷ unregisters "d1" 0
    ∷ broadcasts "d1" (told "failed")
    ∷ receives 1
    ∷ []

run-new_total_example : (t : StreamManager) × (run calls new_stream_manager ≡ some t) × IsSafe t
run-new_total_example = run-new_total calls

abbrev one_follower : StreamManager
one_follower = (register "d1" new_stream_manager).0

one_follower-IsSafe : IsSafe one_follower
one_follower-IsSafe = register-IsSafe "d1" new_stream_manager new-IsSafe

one_follower_listed : mem 0 (channels one_follower "d1") ≡ true
unfolding register new_stream_manager lookup insert
one_follower_listed = refl

one_follower_room : length (one_follower.chan 0).buffer + 10 ≡ chan_cap
unfolding register new_stream_manager lookup insert
one_follower_room = refl

broadcast_all_keeps_first_example :
    (t : StreamManager) × (broadcast_all "d1" (told "pending" ∷ told "failed" ∷ []) one_follower
      ≡ some t)
    × ((t.chan 0).buffer
        ≡ (one_follower.chan 0).buffer ++ take 10 (told "pending" ∷ told "failed" ∷ []))
    × ((c : ℕ) → mem c (channels one_follower "d1") ≡ false → t.chan c ≡ one_follower.chan c)
broadcast_all_keeps_first_example =
    broadcast_all_keeps_first "d1" (told "pending" ∷ told "failed" ∷ []) one_follower 0 10
      one_follower-IsSafe one_follower_listed one_follower_room

unregister-register_example :
    (t : StreamManager) × (unregister "d1"
        (register "d1" one_follower).1
        (register "d1" one_follower).0
      ≡ some t)
    × ((j : String) → channels t j ≡ channels one_follower j)
    × ((t.chan (register "d1" one_follower).1).closed ≡ true)
    × ((c : ℕ) → c ≢ (register "d1" one_follower).1 → t.chan c ≡ one_follower.chan c)
unregister-register_example = unregister-register "d1" one_follower one_follower-IsSafe

-- The follower has not read the event that ends its stream.
abbrev after_failure : StreamManager
after_failure = record one_follower {
  chan = λ c. record {
    buffer = told "pending" ∷ told "failed" ∷ told "installed" ∷ [];
    closed = false;
  };
}

after_failure-IsSafe : IsSafe after_failure
unfolding channels
after_failure-IsSafe = record {
  listed_open = λ j c m. refl;
  listed_made = one_follower-IsSafe.listed_made;
  once = one_follower-IsSafe.once;
  owner = one_follower-IsSafe.owner;
}

abbrev client : Session
client = record { id = "d1"; ch = 0; written = []; phase = streaming }

after_failure_listed : mem client.ch (channels after_failure client.id) ≡ true
unfolding register new_stream_manager lookup insert
after_failure_listed = refl

after_failure_buffer :
    (after_failure.chan client.ch).buffer ≡ told "pending" ∷ told "failed" ∷ told "installed" ∷ []
after_failure_buffer = refl

turns_drain_example :
    (t : StreamManager) × (d : Session) × (turns 3 client after_failure ≡ some (t, d))
    × Drained client (told "pending" ∷ told "failed" ∷ told "installed" ∷ []) t d
turns_drain_example =
    turns_drain 3 (told "pending" ∷ told "failed" ∷ told "installed" ∷ []) client after_failure
      after_failure-IsSafe refl after_failure_listed after_failure_buffer (omega arith)

abbrev after_success : StreamManager
after_success = record one_follower {
  chan = λ c. record { buffer = told "installing" ∷ told "installed" ∷ []; closed = false };
}

after_success-IsSafe : IsSafe after_success
unfolding channels
after_success-IsSafe = record {
  listed_open = λ j c m. refl;
  listed_made = one_follower-IsSafe.listed_made;
  once = one_follower-IsSafe.once;
  owner = one_follower-IsSafe.owner;
}

performs-spec_run_example : performs calls new_stream_manager ≡ some (spec_run calls new_spec)
performs-spec_run_example = performs-spec_run calls
