-- ===== src/Streams/Spec.antt =====
-- What internal/streammanager/stream_manager.go promises, without lists of channels: each follower
-- has one deployment that it follows, and an inbox.
use margo_hello_world.Common.{
  ℕ, suc, String, List, [], ◌∷◌, ◌++◌, Bool, true, false, Option, none, some, ◌==◌, numbers, words,
  ltb, length, if◌then◌else◌, ◌&&◌,
}
use margo_hello_world.Streams.{
  DeployEvent, StreamManager, Received, event, ended, blocked, Call, registers, unregisters,
  broadcasts, receives, register, unregister, broadcast, receive, chan_cap,
}

pub record Followers : Type 0 where
  pub follows : ℕ → Option String
  pub inbox : ℕ → List DeployEvent
  pub is_over : ℕ → Bool
  pub next : ℕ

-- What a caller learns of its call.
pub data Output : Type 0 where
  registered : ℕ → Output
  received : Received → Output
  silent : Output

abbrev pub new_spec : Followers
new_spec = record { follows = λ c. none; inbox = λ c. []; is_over = λ c. false; next = 0 }

abbrev pub is_following : String → Option String → Bool
is_following id none = false
is_following id (some j) = j == id

-- An event that finds no room is dropped.
abbrev pub put : DeployEvent → List DeployEvent → List DeployEvent
put ev evs = if ltb (length evs) chan_cap then evs ++ ev ∷ [] else evs

abbrev pub first_of : List DeployEvent → Bool → Received
first_of [] over = if over then ended else blocked
first_of (ev ∷ evs) over = event ev

abbrev pub rest_of : List DeployEvent → List DeployEvent
rest_of [] = []
rest_of (ev ∷ evs) = evs

unfoldable pub spec_step : Call → Followers → Followers × Output
spec_step (registers id) a = (
  record {
    follows = λ c. if a.next == c then some id else a.follows c;
    inbox = λ c. if a.next == c then [] else a.inbox c;
    is_over = λ c. if a.next == c then false else a.is_over c;
    next = suc a.next;
  },
  registered a.next,
)
spec_step (unregisters id ch) a = (
  record a {
    follows = λ c. if is_following id (a.follows ch) && ch == c then none else a.follows c;
    is_over = λ c. if is_following id (a.follows ch) && ch == c then true else a.is_over c;
  },
  silent,
)
spec_step (broadcasts id ev) a = (
  record a { inbox = λ c. if is_following id (a.follows c) then put ev (a.inbox c) else a.inbox c },
  silent,
)
spec_step (receives ch) a = (
  record a { inbox = λ c. if ch == c then rest_of (a.inbox ch) else a.inbox c },
  received (first_of (a.inbox ch) (a.is_over ch)),
)

unfoldable pub spec_run : List Call → Followers → List Output
spec_run [] a = []
spec_run (c ∷ cs) a = let (b, o) = spec_step c a in o ∷ spec_run cs b

-- The same calls of the manager, with what each of them returns.
unfoldable pub perform : Call → StreamManager → Option (StreamManager × Output)
perform (registers id) s = let (t, c) = register id s in some (t, registered c)
perform (unregisters id ch) s = elim (unregister id ch s) [
  | none ↦ none
  | some t ↦ some (t, silent)
]
perform (broadcasts id ev) s = elim (broadcast id ev s) [ none ↦ none | some t ↦ some (t, silent) ]
perform (receives ch) s = let (t, r) = receive ch s in some (t, received r)

-- What is put in front of the outputs that come later.
abbrev pub output_first : Output → Option (List Output) → Option (List Output)
output_first o none = none
output_first o (some os) = some (o ∷ os)

unfoldable pub performs : List Call → StreamManager → Option (List Output)
performs [] s = some []
performs (c ∷ cs) s = elim (perform c s) [
  | none ↦ none
  | some (t, o) ↦ output_first o (performs cs t)
]
