-- ===== src/Streams/Follow.antt =====
-- HandleStreamDeployment of internal/api/handlers/deployment.go: one client's loop over its channel.
-- The responses written are the framed events; `marshal` stands for json.Marshal, which is not
-- modelled. A write to a client that is gone fails silently, so it does not show here.
pub mod Draining
use margo_hello_world.Common.{
  ℕ, zero, suc, String, List, [], ◌∷◌, ◌++◌, Bool, true, false, Option, none, some, ◌==◌, numbers,
  words, ◌||◌, if◌then◌else◌, ◌≡◌, refl, ap, arith, any, All, ◌⊎◌, inl, inr, eq_iff, mem,
  Bool-cases,
}
use mathlib.Core.List.{append_assoc}
use margo_hello_world.Model.{state_pending, state_installing, state_installed, state_failed}
use margo_hello_world.Streams.{
  DeployEvent, StreamManager, Received, event, ended, blocked, channels, register, unregister,
  receive,
}

pub data Phase : Type 0 where
  streaming finished refused : Phase

-- One request: the channel that it reads, what it has written and where its loop stands.
pub record Session : Type 0 where
  pub id : String
  pub ch : ℕ
  pub written : List DeployEvent
  pub phase : Phase

-- ev.Status == "completed" || ev.Status == "failed"
abbrev pub is_last : DeployEvent → Bool
is_last ev = ev.status == "completed" || ev.status == "failed"

-- The handler up to its loop. Without a flusher it answers 500, before it registers.
unfoldable pub open_stream : Bool → String → StreamManager → StreamManager × Session
open_stream false id s = (s, record { id = id; ch = 0; written = []; phase = refused })
open_stream true id s =
    let (t, ch) = register id s in (t, record { id = id; ch = ch; written = []; phase = streaming })

-- The deferred Unregister, when the loop is left.
unfoldable pub close_stream : Session → StreamManager → Option (StreamManager × Session)
close_stream c s = elim (unregister c.id c.ch s) [
  | none ↦ none
  | some t ↦ some (t, record c { phase = finished })
]

-- What the loop does with what it received.
unfoldable pub on_received : Received → Session → StreamManager → Option (StreamManager × Session)
on_received blocked c s = some (s, c)
on_received ended c s = close_stream c s
on_received (event ev) c s =
    let c' = record c { written = c.written ++ ev ∷ [] } in
    if is_last ev then close_stream c' s else some (s, c')

-- One turn of `for ev := range ch`.
unfoldable pub turn : Session → StreamManager → Option (StreamManager × Session)
turn c s = elim c.phase [
  | streaming ↦ let (t, r) = receive c.ch s in on_received r c t
  | finished ↦ some (s, c)
  | refused ↦ some (s, c)
]

-- `n` turns with no call of another handler between them.
unfoldable pub turns : ℕ → Session → StreamManager → Option (StreamManager × Session)
turns zero c s = some (s, c)
turns (suc n) c s = elim (turn c s) [ none ↦ none | some (t, d) ↦ turns n d t ]
