-- ===== src/Streams/Delivery.antt =====
-- What the followers of a deployment receive from Broadcast, and what Unregister undoes.
use margo_hello_world.Common.{
  ℕ, zero, suc, ◌+◌, ◌≤◌, String, List, [], ◌∷◌, ◌++◌, true, false, Option, none, some, ◌==◌,
  numbers, words, if◌then◌else◌, ◌≡◌, ◌≢◌, refl, ap, ◌∙◌, inl, inr, arith, Bool-cases, ==_iff,
  eq_iff, eq_refl, mem, length, take, length-append, ltb,
}
use mathlib.Core.List.{append_assoc, append-nil}
use margo_hello_world.Streams.{
  DeployEvent, StreamManager, Channel, channels, register, unregister, broadcast, chan_cap,
  new_stream_manager, Call, run, remove_first,
}
use margo_hello_world.Streams.Effects.{
  mem-append, channels-register, chan-register, Unregistered, unregister_total, accept,
}
use margo_hello_world.Streams.Safety.{
  IsSafe, new-IsSafe, run_total, broadcast_total, broadcast-IsSafe,
}

-- Whatever the handlers call, and in whatever order, a new manager never panics: no event is sent
-- on a closed channel and none is closed twice, and the manager it ends in is safe.
pub run-new_total :
    (cs : List Call) → (t : StreamManager) × (run cs new_stream_manager ≡ some t) × IsSafe t
run-new_total cs = run_total cs new_stream_manager new-IsSafe

unfoldable pub broadcast_all : String → List DeployEvent → StreamManager → Option StreamManager
broadcast_all id [] s = some s
broadcast_all id (ev ∷ evs) s = elim (broadcast id ev s) [
  | none ↦ none
  | some t ↦ broadcast_all id evs t
]

accept_all : List DeployEvent → Channel → Channel
accept_all [] c = c
accept_all (ev ∷ evs) c = accept_all evs (accept ev c)

accept_all_full :
    (evs : List DeployEvent) (c : Channel) → chan_cap ≤ length c.buffer → accept_all evs c ≡ c
unfolding accept_all
accept_all_full [] c h = refl
accept_all_full (ev ∷ evs) c h = ground (arith, accept_all_full evs c)

take-nil : (r : ℕ) → take {A = DeployEvent} r [] ≡ []
take-nil zero = refl
take-nil (suc r) = refl

-- `r` is the room that is left.
buffer-accept_all :
    (r : ℕ) (evs : List DeployEvent) (c : Channel)
    → length c.buffer + r ≡ chan_cap
    → (accept_all evs c).buffer ≡ c.buffer ++ take r evs
unfolding accept_all
buffer-accept_all r [] c h = rw (take-nil r, append-nil)
buffer-accept_all zero (ev ∷ evs) c h = rw (accept_all_full (ev ∷ evs) c (omega arith), append-nil)
buffer-accept_all (suc r) (ev ∷ evs) c h =
    let room : ltb (length c.buffer) chan_cap ≡ true = ground arith in
    rw (room, accept_all)
      (rw
        (buffer-accept_all r evs (record c { buffer = c.buffer ++ ev ∷ [] })
          (omega (arith, length-append c.buffer (ev ∷ []))))
        (append_assoc c.buffer (ev ∷ []) (take r evs)))

-- The manager after Broadcast of `evs`, one by one, seen from one channel.
record Delivered (id : String) (evs : List DeployEvent) (s t : StreamManager) : Type 0 where
  lists : (j : String) → channels t j ≡ channels s j
  chans :
      (c : ℕ) → t.chan c ≡ (if mem c (channels s id) then accept_all evs (s.chan c) else s.chan c)

broadcast_all_total :
    (id : String) (evs : List DeployEvent) (s : StreamManager)
    → IsSafe s
    → (t : StreamManager) × (broadcast_all id evs s ≡ some t) × IsSafe t × Delivered id evs s t
unfolding broadcast_all accept_all
broadcast_all_total id [] s h =
    (s, refl, h, record { lists = λ j. refl; chans = λ c. ground arith })
broadcast_all_total id (ev ∷ evs) s h =
    let (t, e, b) = broadcast_total id ev s h in
    let (u, f, k, d) = broadcast_all_total id evs t (broadcast-IsSafe id ev s t b h) in
    (
      u,
      rw (e, broadcast_all) f,
      k,
      record {
        lists = λ j. d.lists j ∙ b.lists j;
        chans = λ c. ground (arith, d.chans c, b.chans c, b.lists id);
      },
    )

-- A follower of `id` whose channel has room for `r` more events receives, in order, the first `r`
-- of those that are broadcast to `id` while it reads nothing, and the rest are dropped; a channel
-- that does not follow `id` is left as it was.
pub broadcast_all_keeps_first :
    (id : String) (evs : List DeployEvent) (s : StreamManager) (ch r : ℕ)
    → IsSafe s
    → mem ch (channels s id) ≡ true
    → length (s.chan ch).buffer + r ≡ chan_cap
    → (t : StreamManager) × (broadcast_all id evs s ≡ some t)
      × ((t.chan ch).buffer ≡ (s.chan ch).buffer ++ take r evs)
      × ((c : ℕ) → mem c (channels s id) ≡ false → t.chan c ≡ s.chan c)
broadcast_all_keeps_first id evs s ch r h m room =
    let (t, e, k, d) = broadcast_all_total id evs s h in
    (
      t,
      e,
      ground (arith, d.chans ch, buffer-accept_all r evs (s.chan ch)),
      λ c n. ground (arith, d.chans c),
    )

remove_first_last : (xs : List ℕ) (c : ℕ) → mem c xs ≡ false → remove_first c (xs ++ c ∷ []) ≡ xs
unfolding remove_first
remove_first_last [] c m = ground (arith, ==_iff c c)
remove_first_last (x ∷ xs) c m = ground (arith, remove_first_last xs c)

module _ (id : String) (s : StreamManager) (h : IsSafe s) where
  abbrev joined : StreamManager
  joined = (register id s).0

  not_listed : mem s.next (channels s id) ≡ false
  not_listed = ground (arith, h.listed_made id s.next)

  channels-joined : channels joined id ≡ channels s id ++ s.next ∷ []
  channels-joined = ground (arith, channels-register id id s, eq_refl id)

  listed : mem s.next (channels joined id) ≡ true
  listed = ground (
    arith,
    channels-joined,
    mem-append s.next (channels s id) (s.next ∷ []),
    ==_iff s.next s.next,
  )

  open_joined : (joined.chan s.next).closed ≡ false
  open_joined = ground (arith, chan-register id s s.next, ==_iff s.next s.next)

  module _ (t : StreamManager) (u : Unregistered id s.next joined t) where
    lists_back : (j : String) → channels t j ≡ channels s j
    lists_back j = elim (Bool-cases (id == j)) [
      | inl e ↦
          rw (u.lists j, e, channels-joined, remove_first_last (channels s id) s.next not_listed)
            (ap (channels s) ((eq_iff id j).0 e))
      | inr e ↦ rw (u.lists j, e, channels-register id j s, e) refl
    ]

    chans_back : ((t.chan s.next).closed ≡ true) × ((c : ℕ) → c ≢ s.next → t.chan c ≡ s.chan c)
    chans_back = (
      ground (arith, u.chans s.next, listed, ==_iff s.next s.next),
      λ c n. ground (arith, u.chans c, chan-register id s c, ==_iff s.next c),
    )

  -- Unregister with the channel that Register returned takes the follower out again: it succeeds,
  -- every deployment has the followers that it had before, the new channel is closed, and all
  -- others are as they were.
  pub unregister-register :
      (t : StreamManager) × (unregister id (register id s).1 (register id s).0 ≡ some t)
      × ((j : String) → channels t j ≡ channels s j)
      × ((t.chan (register id s).1).closed ≡ true)
      × ((c : ℕ) → c ≢ (register id s).1 → t.chan c ≡ s.chan c)
  unfolding register
  unregister-register =
      let (t, e, u) = unregister_total id s.next joined (λ _. open_joined) in
      (t, e, lists_back t u, (chans_back t u).0, (chans_back t u).1)
