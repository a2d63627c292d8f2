-- ===== src/Streams.antt =====
-- internal/streammanager/stream_manager.go: the channels of the clients that follow a deployment.
-- A channel is a reference into `chan`, since the manager and the client share it. `none` is a
-- panic of the Go runtime (a send on a closed channel, a close of a closed channel).
pub mod Effects
pub mod Safety
pub mod Delivery
pub mod Bounds
pub mod Spec
pub mod Refinement
pub mod Follow
use mathlib.Core.Option.{get_or}
use margo_hello_world.Common.{
  ℕ, suc, String, List, [], ◌∷◌, ◌++◌, Bool, true, false, Option, none, some, ◌==◌, numbers, ltb,
  length, is_empty, if◌then◌else◌,
}
use margo_hello_world.Common.Dict.{Dict, lookup, insert, delete}

pub record DeployEvent : Type 0 where
  pub deployment_id : String
  pub timestamp : String
  pub site_id : String
  pub message : String
  pub status : String

-- A buffered Go channel, as far as the senders and the receiver can tell.
pub record Channel : Type 0 where
  pub buffer : List DeployEvent
  pub closed : Bool

pub record StreamManager : Type 0 where
  pub streams : Dict (List ℕ)
  pub chan : ℕ → Channel
  pub next : ℕ  -- the channels made so far are those below

abbrev pub chan_cap : ℕ
chan_cap = 10

abbrev pub empty_channel : Channel
empty_channel = record { buffer = []; closed = false }

abbrev pub update : (ℕ → Channel) → ℕ → Channel → ℕ → Channel
update f p v q = if p == q then v else f q

unfoldable pub new_stream_manager : StreamManager
new_stream_manager = record { streams = []; chan = λ _. empty_channel; next = 0 }

-- s.streams[deployID]: a missing key reads as the nil slice
unfoldable pub channels : StreamManager → String → List ℕ
channels s id = get_or (lookup id s.streams) []

unfoldable pub register : String → StreamManager → StreamManager × ℕ
unfolding channels
register id s = (
  record s {
    streams = insert id (channels s id ++ s.next ∷ []) s.streams;
    chan = update s.chan s.next empty_channel;
    next = suc s.next;
  },
  s.next,
)

-- append(channels[:i], channels[i+1:]...) at the first i with channels[i] == ch
unfoldable pub remove_first : ℕ → List ℕ → List ℕ
remove_first ch [] = []
remove_first ch (c ∷ cs) = if c == ch then cs else c ∷ remove_first ch cs

-- close(c)
unfoldable pub close : ℕ → StreamManager → Option StreamManager
close c s =
    if (s.chan c).closed
    then none
    else some (record s { chan = update s.chan c (record (s.chan c) { closed = true }) })

-- the loop of Unregister over `channels`: what is found first is closed and cut out
unfoldable pub cut : String → ℕ → List ℕ → StreamManager → Option StreamManager
unfolding remove_first close
cut id ch [] s = some s
cut id ch (c ∷ cs) s =
    let rest = cut id ch cs s in
    if c == ch
    then elim (close c s) [
      | none ↦ none
      | some t ↦ some (record t { streams = insert id (remove_first ch (channels s id)) t.streams })
    ]
    else rest

-- if len(s.streams[deployID]) == 0 { delete(s.streams, deployID) }
unfoldable pub drop_empty : String → StreamManager → StreamManager
unfolding channels
drop_empty id s = if is_empty (channels s id) then record s { streams = delete id s.streams } else s

unfoldable pub unregister : String → ℕ → StreamManager → Option StreamManager
unregister id ch s = elim (cut id ch (channels s id) s) [
  | none ↦ none
  | some t ↦ some (drop_empty id t)
]

-- select { case ch <- ev: default: }
unfoldable pub offer : DeployEvent → Channel → Option Channel
offer ev c =
    if c.closed
    then none
    else some
        (if ltb (length c.buffer) chan_cap then record c { buffer = c.buffer ++ ev ∷ [] } else c)

unfoldable pub offer_all : List ℕ → DeployEvent → (ℕ → Channel) → Option (ℕ → Channel)
offer_all [] ev chan = some chan
offer_all (c ∷ cs) ev chan = elim (offer ev (chan c)) [
  | none ↦ none
  | some c' ↦ offer_all cs ev (update chan c c')
]

unfoldable pub broadcast : String → DeployEvent → StreamManager → Option StreamManager
broadcast id ev s = elim (offer_all (channels s id) ev s.chan) [
  | none ↦ none
  | some chan ↦ some (record s { chan = chan })
]

-- What the receiver of a channel sees next: an event, the end of a closed channel, or nothing yet.
pub data Received : Type 0 where
  event : DeployEvent → Received
  ended : Received
  blocked : Received

abbrev pub taken : Channel → Channel × Received
taken c = elim c.buffer [
  | [] ↦ (c, if c.closed then ended else blocked)
  | ev ∷ rest ↦ (record c { buffer = rest }, event ev)
]

unfoldable pub receive : ℕ → StreamManager → StreamManager × Received
receive ch s = let (c, r) = taken (s.chan ch) in (record s { chan = update s.chan ch c }, r)

-- The calls that the handlers make of a manager, in the order in which its mutex lets them in.
pub data Call : Type 0 where
  registers : String → Call
  unregisters : String → ℕ → Call
  broadcasts : String → DeployEvent → Call
  receives : ℕ → Call

unfoldable pub call : Call → StreamManager → Option StreamManager
call (registers id) s = some (register id s).0
call (unregisters id ch) s = unregister id ch s
call (broadcasts id ev) s = broadcast id ev s
call (receives ch) s = some (receive ch s).0

unfoldable pub run : List Call → StreamManager → Option StreamManager
run [] s = some s
run (c ∷ cs) s = elim (call c s) [ none ↦ none | some t ↦ run cs t ]
