-- ===== src/Streams/Bounds.antt =====
-- The buffers of internal/streammanager/stream_manager.go: no channel holds more than its capacity.
use margo_hello_world.Common.{
  ℕ, ◌≤◌, String, List, [], ◌∷◌, some, numbers, words, length, ◌≡◌, refl, arith, length-append,
}
use margo_hello_world.Streams.{
  DeployEvent, Channel, StreamManager, chan_cap, new_stream_manager, register, receive, Call,
  registers, unregisters, broadcasts, receives, call, run,
}
use margo_hello_world.Streams.Effects.{accept, unregister_total, Unregistered}
use margo_hello_world.Streams.Safety.{
  IsSafe, new-IsSafe, register-IsSafe, unregister-IsSafe, broadcast_total, broadcast-IsSafe,
  Broadcasted, receive-IsSafe,
}

abbrev pub IsBounded : StreamManager → Type 0
IsBounded s = (c : ℕ) → length (s.chan c).buffer ≤ chan_cap

length-accept :
    (ev : DeployEvent) (c : Channel)
    → length c.buffer ≤ chan_cap
    → length (accept ev c).buffer ≤ chan_cap
length-accept ev c h = ground (arith, length-append c.buffer (ev ∷ []))

new-IsBounded : IsBounded new_stream_manager
unfolding new_stream_manager
new-IsBounded c = omega arith

register-IsBounded : (id : String) (s : StreamManager) → IsBounded s → IsBounded (register id s).0
unfolding register
register-IsBounded id s h c = ground (arith, h c)

unregister-IsBounded :
    (id : String) (ch : ℕ) (s t : StreamManager)
    → Unregistered id ch s t
    → IsBounded s
    → IsBounded t
unregister-IsBounded id ch s t u h c = ground (arith, u.chans c, h c)

broadcast-IsBounded :
    (id : String) (ev : DeployEvent) (s t : StreamManager)
    → Broadcasted id ev s t
    → IsBounded s
    → IsBounded t
broadcast-IsBounded id ev s t b h c = ground (arith, b.chans c, length-accept ev (s.chan c) (h c))

receive-IsBounded : (ch : ℕ) (s : StreamManager) → IsBounded s → IsBounded (receive ch s).0
unfolding receive
receive-IsBounded ch s h c = ground (arith, h c, h ch)

-- What a call leaves: it does not panic, and the manager is safe and bounded.
call-IsBounded :
    (c : Call) (s : StreamManager)
    → IsSafe s
    → IsBounded s
    → (t : StreamManager) × (call c s ≡ some t) × IsSafe t × IsBounded t
unfolding call
call-IsBounded (registers id) s h b =
    ((register id s).0, refl, register-IsSafe id s h, register-IsBounded id s b)
call-IsBounded (unregisters id ch) s h b =
    let (t, e, u) = unregister_total id ch s (h.listed_open id ch) in
    (t, e, unregister-IsSafe id ch s t u h, unregister-IsBounded id ch s t u b)
call-IsBounded (broadcasts id ev) s h b =
    let (t, e, u) = broadcast_total id ev s h in
    (t, e, broadcast-IsSafe id ev s t u h, broadcast-IsBounded id ev s t u b)
call-IsBounded (receives ch) s h b =
    ((receive ch s).0, refl, receive-IsSafe ch s h, receive-IsBounded ch s b)

calls-IsBounded :
    (cs : List Call) (s : StreamManager)
    → IsSafe s
    → IsBounded s
    → (t : StreamManager) × (run cs s ≡ some t) × IsBounded t
unfolding run
calls-IsBounded [] s h b = (s, refl, b)
calls-IsBounded (c ∷ cs) s h b =
    let (t, e, k, l) = call-IsBounded c s h b in
    let (u, f, m) = calls-IsBounded cs t k l in (u, rw (e, run) f, m)

-- Any calls of a new stream manager, in any order, end without a panic, and no channel then holds
-- more than the ten events of its capacity.
pub run_bounded :
    (cs : List Call)
    → (t : StreamManager) × (run cs new_stream_manager ≡ some t)
      × ((c : ℕ) → length (t.chan c).buffer ≤ chan_cap)
run_bounded cs = calls-IsBounded cs new_stream_manager new-IsSafe new-IsBounded
