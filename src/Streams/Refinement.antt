-- ===== src/Streams/Refinement.antt =====
-- The manager of internal/streammanager/stream_manager.go does what Spec says.
use margo_hello_world.Common.{
  ℕ, String, List, [], ◌∷◌, Bool, true, Option, none, some, ◌==◌, numbers, words, ◌≡◌, refl, ap,
  ◌∙◌, arith, mem, ◌&&◌, Bool-cases, inl, inr, ==_iff, eq_iff,
}
use margo_hello_world.Common.Dict.{lookup}
use margo_hello_world.Streams.{
  DeployEvent, StreamManager, channels, new_stream_manager, register, receive, Call, registers,
  unregisters, broadcasts, receives, taken,
}
use margo_hello_world.Streams.Effects.{
  channels-register, mem-append, mem-remove_first, Unregistered, unregister_total,
}
use margo_hello_world.Streams.Safety.{
  IsSafe, new-IsSafe, register-IsSafe, unregister-IsSafe, Broadcasted, broadcast_total,
  broadcast-IsSafe, receive-IsSafe,
}
use margo_hello_world.Streams.Spec.{
  Followers, new_spec, is_following, first_of, rest_of, registered, received, spec_step, spec_run,
  perform, performs,
}

pub record Represents (s : StreamManager) (a : Followers) : Type 0 where
  pub listed : (j : String) (c : ℕ) → mem c (channels s j) ≡ is_following j (a.follows c)
  pub inboxes : (c : ℕ) → (s.chan c).buffer ≡ a.inbox c
  pub closed : (c : ℕ) → (s.chan c).closed ≡ a.is_over c
  pub made : s.next ≡ a.next

new-Represents : Represents new_stream_manager new_spec
unfolding new_stream_manager channels lookup
new-Represents = record {
  listed = λ j c. refl;
  inboxes = λ c. refl;
  closed = λ c. refl;
  made = refl;
}

taken_lem :
    (evs : List DeployEvent) (over : Bool)
    → ((taken (record { buffer = evs; closed = over })).0.buffer ≡ rest_of evs)
      × ((taken (record { buffer = evs; closed = over })).0.closed ≡ over)
      × ((taken (record { buffer = evs; closed = over })).1 ≡ first_of evs over)
taken_lem [] over = (refl, refl, refl)
taken_lem (ev ∷ evs) over = (refl, refl, refl)

follows_one :
    (i j : String) (o : Option String) → is_following i o ≡ true → is_following j o ≡ (i == j)
follows_one i j none m = cc
follows_one i j (some k) m = rw ((eq_iff k i).0 m) refl

module _ (s : StreamManager) (a : Followers) (h : IsSafe s) (r : Represents s a) where
  register-Represents : (id : String) → Represents (register id s).0 (spec_step (registers id) a).0
  unfolding register spec_step
  register-Represents id = record {
    listed = λ j c. ground (
      arith,
      channels-register id j s,
      mem-append c (channels s id) (s.next ∷ []),
      r.listed j c,
      r.made,
      ==_iff s.next c,
      eq_iff id j,
      h.listed_made j c,
    );
    inboxes = λ c. ground (arith, r.inboxes c, r.made);
    closed = λ c. ground (arith, r.closed c, r.made);
    made = ground (arith, r.made);
  }

  registered_next : (id : String) → (register id s).1 ≡ a.next
  unfolding register
  registered_next id = r.made

  broadcast-Represents :
      (id : String) (ev : DeployEvent) (t : StreamManager)
      → Broadcasted id ev s t
      → Represents t (spec_step (broadcasts id ev) a).0
  unfolding spec_step
  broadcast-Represents id ev t b = record {
    listed = λ j c. rw (b.lists j) (r.listed j c);
    inboxes = λ c. ground (arith, b.chans c, r.listed id c, r.inboxes c);
    closed = λ c. ground (arith, b.chans c, r.closed c);
    made = b.next_same ∙ r.made;
  }

  receive-Represents : (ch : ℕ) → Represents (receive ch s).0 (spec_step (receives ch) a).0
  unfolding receive spec_step channels
  receive-Represents ch =
      let (rest, same, first) = taken_lem (s.chan ch).buffer (s.chan ch).closed in
      record {
        listed = r.listed;
        inboxes = λ c. ground (arith, rest, r.inboxes ch, r.inboxes c);
        closed = λ c. ground (arith, same, r.closed c, ==_iff ch c);
        made = r.made;
      }

  received_first : (ch : ℕ) → (receive ch s).1 ≡ first_of (a.inbox ch) (a.is_over ch)
  unfolding receive
  received_first ch =
      let (rest, same, first) = taken_lem (s.chan ch).buffer (s.chan ch).closed in
      first ∙ rw (r.inboxes ch, r.closed ch) refl

  unregister-Represents :
      (id : String) (ch : ℕ) (t : StreamManager)
      → Unregistered id ch s t
      → Represents t (spec_step (unregisters id ch) a).0
  unfolding spec_step
  unregister-Represents id ch t u = record {
    listed = λ j c. elim (Bool-cases (is_following id (a.follows ch) && ch == c)) [
      | inl e ↦
          rw (u.lists j, e)
            (ground (
              arith,
              mem-remove_first c ch (channels s id) (h.once id),
              follows_one id j (a.follows ch),
              r.listed j c,
              ==_iff ch c,
            ))
      | inr e ↦
          rw (u.lists j, e)
            (ground (
              arith,
              mem-remove_first c ch (channels s id) (h.once id),
              eq_iff id j,
              r.listed j c,
              r.listed id ch,
              ==_iff ch c,
            ))
    ];
    inboxes = λ c. ground (arith, u.chans c, r.inboxes c, r.inboxes ch, ==_iff ch c);
    closed = λ c. ground (arith, u.chans c, r.listed id ch, r.closed c);
    made = u.next_same ∙ r.made;
  }

-- What one call leaves and returns.
perform-spec_step :
    (c : Call) (s : StreamManager) (a : Followers)
    → IsSafe s
    → Represents s a
    → (t : StreamManager) × (perform c s ≡ some (t, (spec_step c a).1))
      × IsSafe t
      × Represents t (spec_step c a).0
unfolding perform spec_step
perform-spec_step (registers id) s a h r = (
  (register id s).0,
  ap (λ n. some ((register id s).0, registered n)) (registered_next s a h r id),
  register-IsSafe id s h,
  register-Represents s a h r id,
)
perform-spec_step (unregisters id ch) s a h r =
    let (t, e, u) = unregister_total id ch s (h.listed_open id ch) in
    (
      t,
      rw (e, perform) refl,
      unregister-IsSafe id ch s t u h,
      unregister-Represents s a h r id ch t u,
    )
perform-spec_step (broadcasts id ev) s a h r =
    let (t, e, b) = broadcast_total id ev s h in
    (
      t,
      rw (e, perform) refl,
      broadcast-IsSafe id ev s t b h,
      broadcast-Represents s a h r id ev t b,
    )
perform-spec_step (receives ch) s a h r = (
  (receive ch s).0,
  ap (λ o. some ((receive ch s).0, received o)) (received_first s a h r ch),
  receive-IsSafe ch s h,
  receive-Represents s a h r ch,
)

performs_all :
    (cs : List Call) (s : StreamManager) (a : Followers)
    → IsSafe s
    → Represents s a
    → performs cs s ≡ some (spec_run cs a)
unfolding performs spec_run
performs_all [] s a h r = refl
performs_all (c ∷ cs) s a h r =
    let (t, e, k, q) = perform-spec_step c s a h r in
    let later = performs_all cs t (spec_step c a).0 k q in rw (e, performs) (rw later refl)

-- Whatever the handlers call, and in whatever order, a new stream manager does not panic and
-- returns what the specification does: each channel has one deployment that it follows and an
-- inbox of at most ten events, Broadcast puts an event in the inbox of every follower that has
-- room, a receiver takes the oldest event of its inbox, or finds the channel ended once Unregister
-- has closed it.
pub performs-spec_run :
    (cs : List Call) → performs cs new_stream_manager ≡ some (spec_run cs new_spec)
performs-spec_run cs = performs_all cs new_stream_manager new_spec new-IsSafe new-Represents
