-- ===== src/Streams/Follow/Draining.antt =====
-- A client that has its turns reads its channel to the end, or to the event that ends the stream.
use margo_hello_world.Common.{
  ℕ, zero, suc, ◌≤◌, String, List, [], ◌∷◌, ◌++◌, true, false, some, numbers, words, if◌then◌else◌,
  ◌≡◌, refl, ◌∙◌, ap, arith, any, All, ◌⊎◌, inl, inr, mem, Bool-cases, length, ==_iff,
}
use mathlib.Core.List.{append_assoc, append-nil}
use margo_hello_world.Model.{state_pending, state_installing, state_installed}
use margo_hello_world.Streams.{DeployEvent, StreamManager, channels, receive, event, blocked}
use margo_hello_world.Streams.Effects.{unregister_total}
use margo_hello_world.Streams.Safety.{IsSafe, receive-IsSafe}
use margo_hello_world.Streams.Follow.{
  Session, streaming, finished, is_last, turn, turns, close_stream, on_received,
}

-- The events up to the first one that ends the stream, and that one.
pub through_last : List DeployEvent → List DeployEvent
through_last [] = []
through_last (ev ∷ evs) = let rest = through_last evs in ev ∷ (if is_last ev then [] else rest)

channels-receive :
    (ch : ℕ) (j : String) (s : StreamManager) → channels (receive ch s).0 j ≡ channels s j
unfolding receive channels
channels-receive ch j s = refl

module _ (ch : ℕ) (s : StreamManager) where
  receive_blocked :
      (s.chan ch).buffer ≡ []
      → (s.chan ch).closed ≡ false
      → ((receive ch s).1 ≡ blocked) × (((receive ch s).0.chan ch).buffer ≡ [])
  unfolding receive
  receive_blocked b o = (ground arith, ground (arith, ==_iff ch ch))

  receive_event :
      (ev : DeployEvent) (evs : List DeployEvent)
      → (s.chan ch).buffer ≡ ev ∷ evs
      → ((receive ch s).1 ≡ event ev) × (((receive ch s).0.chan ch).buffer ≡ evs)
  unfolding receive
  receive_event ev evs b = (ground arith, ground (arith, ==_iff ch ch))

-- Where a session stands after `n` turns: the manager is safe, the loop has written the events
-- through the last one, and it is finished exactly if there was a last one.
pub record Drained (c : Session) (b : List DeployEvent) (t : StreamManager) (d : Session)
    : Type 0 where
  pub wrote : d.written ≡ c.written ++ through_last b
  pub ends : d.phase ≡ (if any is_last b then finished else streaming)

turn_waits :
    (c : Session) (s : StreamManager)
    → c.phase ≡ streaming
    → (receive c.ch s).1 ≡ blocked
    → turn c s ≡ some ((receive c.ch s).0, c)
unfolding turn on_received
turn_waits c s p r = ground arith

turn_reads :
    (c : Session) (s : StreamManager) (ev : DeployEvent)
    → c.phase ≡ streaming
    → (receive c.ch s).1 ≡ event ev
    → is_last ev ≡ false
    → turn c s ≡ some ((receive c.ch s).0, record c { written = c.written ++ ev ∷ [] })
unfolding turn on_received
turn_reads c s ev p r l = ground arith

turn_ends :
    (c : Session) (s : StreamManager) (ev : DeployEvent)
    → IsSafe s
    → c.phase ≡ streaming
    → (receive c.ch s).1 ≡ event ev
    → is_last ev ≡ true
    → (t : StreamManager) × (turn c s
        ≡ some (t, record c { written = c.written ++ ev ∷ []; phase = finished }))
unfolding turn on_received close_stream
turn_ends c s ev h p r l =
    let (t, e, u) =
      unregister_total c.id c.ch (receive c.ch s).0
        ((receive-IsSafe c.ch s h).listed_open c.id c.ch) in
    (t, ground (arith, e))

turns_finished :
    (n : ℕ) (c : Session) (s : StreamManager) → c.phase ≡ finished → turns n c s ≡ some (s, c)
unfolding turns turn
turns_finished zero c s p = refl
turns_finished (suc n) c s p = ground (arith, turns_finished n c s)

-- A client that reads an open channel of a safe manager, and gets at least as many turns as the
-- channel holds events, none of the other handlers' calls between them, writes the events
-- through the first that ends the stream; it is finished if there is one, and waits otherwise.
pub turns_drain :
    (n : ℕ) (b : List DeployEvent) (c : Session) (s : StreamManager)
    → IsSafe s
    → c.phase ≡ streaming
    → mem c.ch (channels s c.id) ≡ true
    → (s.chan c.ch).buffer ≡ b
    → length b ≤ n
    → (t : StreamManager) × (d : Session) × (turns n c s ≡ some (t, d)) × Drained c b t d
unfolding turns through_last
turns_drain zero [] c s h p m b l = (s, c, refl, record { wrote = rw append-nil; ends = p })
turns_drain zero (ev ∷ evs) c s h p m b l = absurd (omega arith)
turns_drain (suc n) [] c s h p m b l =
    let (r, b') = receive_blocked c.ch s b (h.listed_open c.id c.ch m) in
    let (t, d, e, dr) =
      turns_drain n [] c (receive c.ch s).0 (receive-IsSafe c.ch s h) p
        (rw (channels-receive c.ch c.id s) m) b' (omega arith) in
    (t, d, rw (turn_waits c s p r, turns) e, record { wrote = dr.wrote; ends = dr.ends })
turns_drain (suc n) (ev ∷ evs) c s h p m b l =
    let (r, b') = receive_event c.ch s ev evs b in
    elim (Bool-cases (is_last ev)) [
      | inl last ↦
          let (t, e) = turn_ends c s ev h p r last in
          (
            t,
            record c { written = c.written ++ ev ∷ []; phase = finished },
            rw (e, turns) (turns_finished n _ t refl),
            record { wrote = rw last refl; ends = rw last refl },
          )
      | inr more ↦
          let (t, d, e, dr) =
            turns_drain n evs (record c { written = c.written ++ ev ∷ [] }) (receive c.ch s).0
              (receive-IsSafe c.ch s h) p (rw (channels-receive c.ch c.id s) m) b' (omega arith) in
          (
            t,
            d,
            rw (turn_reads c s ev p r more, turns) e,
            record {
              wrote = rw more (dr.wrote ∙ append_assoc c.written (ev ∷ []) (through_last evs));
              ends = rw more dr.ends;
            },
          )
    ]

-- What an edge node reports of a deployment that goes well.
abbrev pub IsProgress : DeployEvent → Type 0
IsProgress ev =
    (ev.status ≡ state_pending) ⊎ (ev.status ≡ state_installing) ⊎ (ev.status ≡ state_installed)

not_last_of_IsProgress : (ev : DeployEvent) → IsProgress ev → is_last ev ≡ false
not_last_of_IsProgress ev (inl e) = rw e
not_last_of_IsProgress ev (inr (inl e)) = rw e
not_last_of_IsProgress ev (inr (inr e)) = rw e

through_last_progress :
    (b : List DeployEvent) → All IsProgress b → (any is_last b ≡ false) × (through_last b ≡ b)
unfolding through_last
through_last_progress [] h = (refl, refl)
through_last_progress (ev ∷ evs) h =
    let (a, t) = through_last_progress evs h.1 in
    let e = not_last_of_IsProgress ev h.0 in (rw e a, rw e (ap (◌∷◌ ev) t))

-- A client whose channel holds only the states that an edge node reports of a deployment that
-- succeeds ("pending", "installing", "installed") writes them all and still waits: the loop ends
-- at "completed" and "failed" alone.
pub turns_success :
    (n : ℕ) (c : Session) (s : StreamManager)
    → IsSafe s
    → c.phase ≡ streaming
    → mem c.ch (channels s c.id) ≡ true
    → All IsProgress (s.chan c.ch).buffer
    → length (s.chan c.ch).buffer ≤ n
    → (t : StreamManager) × (d : Session) × (turns n c s ≡ some (t, d))
      × (d.written ≡ c.written ++ (s.chan c.ch).buffer)
      × (d.phase ≡ streaming)
turns_success n c s h p m g l =
    let (t, d, e, dr) = turns_drain n (s.chan c.ch).buffer c s h p m refl l in
    let (a, all) = through_last_progress (s.chan c.ch).buffer g in
    (t, d, e, rw all at dr.wrote, rw a at dr.ends)
