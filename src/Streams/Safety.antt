-- ===== src/Streams/Safety.antt =====
-- The stream manager never sends on a closed channel, and never closes a channel twice.
use margo_hello_world.Common.{
  ℕ, ◌<◌, String, List, [], ◌∷◌, true, false, some, ◌==◌, numbers, words, if◌then◌else◌, ◌≡◌, refl,
  ◌⊎◌, inl, inr, arith, Bool-cases, ==_iff, eq_iff, mem,
}
use margo_hello_world.Common.Dict.{lookup}
use margo_hello_world.Streams.{
  DeployEvent, StreamManager, channels, new_stream_manager, register, broadcast, receive, Call,
  registers, unregisters, broadcasts, receives, call, run,
}
use margo_hello_world.Streams.Effects.{
  Distinct, Distinct-append, Distinct-remove_first, mem-append, mem-remove_first, channels-register,
  Unregistered, unregister_total, accept, offer_all_total,
}

pub record IsSafe (s : StreamManager) : Type 0 where
  -- a listed channel is open, and was made by this manager
  pub listed_open : (j : String) (c : ℕ) → mem c (channels s j) ≡ true → (s.chan c).closed ≡ false
  pub listed_made : (j : String) (c : ℕ) → mem c (channels s j) ≡ true → c < s.next
  -- it is listed once, under one deployment
  pub once : (j : String) → Distinct (channels s j)
  pub owner :
      (i j : String) (c : ℕ) → mem c (channels s i) ≡ true → mem c (channels s j) ≡ true → i ≡ j

not_listed_new : (j : String) (c : ℕ) → mem c (channels new_stream_manager j) ≡ true → ⊥
unfolding new_stream_manager channels lookup
not_listed_new j c m = cc

once_new : (j : String) → Distinct (channels new_stream_manager j)
unfolding new_stream_manager channels lookup
once_new j = tt

pub new-IsSafe : IsSafe new_stream_manager
new-IsSafe = record {
  listed_open = λ j c m. absurd (not_listed_new j c m);
  listed_made = λ j c m. absurd (not_listed_new j c m);
  once = once_new;
  owner = λ i j c m n. absurd (not_listed_new i c m);
}

module _ (id : String) (s : StreamManager) (h : IsSafe s) where
  -- a channel listed after Register is the new one, under `id`, or was listed there before
  listed_register :
      (j : String) (c : ℕ)
      → mem c (channels (register id s).0 j) ≡ true
      → ((id ≡ j) × (c ≡ s.next)) ⊎ (mem c (channels s j) ≡ true)
  listed_register j c m = ground (
    arith,
    channels-register id j s,
    eq_iff id j,
    mem-append c (channels s id) (s.next ∷ []),
    ==_iff s.next c,
  )

  once_register : (j : String) → Distinct (channels (register id s).0 j)
  once_register j = elim (Bool-cases (id == j)) [
    | inl e ↦
        rw (channels-register, e)
          (Distinct-append (channels s id) s.next (h.once id)
            (ground (arith, h.listed_made id s.next)))
    | inr e ↦ rw (channels-register, e) (h.once j)
  ]

  pub register-IsSafe : IsSafe (register id s).0
  unfolding register
  register-IsSafe = record {
    listed_open =
        λ j c m. ground (arith, listed_register j c m, h.listed_open j c, h.listed_made j c);
    listed_made = λ j c m. ground (arith, listed_register j c m, h.listed_made j c);
    once = once_register;
    owner = λ i j c m n. ground (
      arith,
      listed_register i c m,
      listed_register j c n,
      h.owner i j c,
      h.listed_made i c,
      h.listed_made j c,
    );
  }

module _ (id : String) (ch : ℕ) (s t : StreamManager) (u : Unregistered id ch s t)
    (h : IsSafe s) where
  -- a channel listed after Unregister was listed before, and is not the one removed from `id`
  listed_unregister :
      (j : String) (c : ℕ)
      → mem c (channels t j) ≡ true
      → (mem c (channels s j) ≡ true) × ((id ≡ j) → (ch ≡ c) → ⊥)
  listed_unregister j c m = elim (Bool-cases (id == j)) [
    | inl e ↦
        let both = rw (u.lists j, e, mem-remove_first c ch (channels s id) (h.once id)) at m in
        (ground (arith, eq_iff id j), λ p q. ground (arith, ==_iff ch c))
    | inr e ↦ (rw (u.lists j, e) at m, λ p q. ground (arith, eq_iff id j))
  ]

  once_unregister : (j : String) → Distinct (channels t j)
  once_unregister j = elim (Bool-cases (id == j)) [
    | inl e ↦ rw (u.lists j, e) (Distinct-remove_first ch (channels s id) (h.once id))
    | inr e ↦ rw (u.lists j, e) (h.once j)
  ]

  pub unregister-IsSafe : IsSafe t
  unregister-IsSafe = record {
    listed_open = λ j c m.
        ground (
          arith,
          u.chans c,
          listed_unregister j c m,
          h.listed_open j c,
          h.owner id j c,
          ==_iff ch c,
        );
    listed_made = λ j c m. ground (arith, listed_unregister j c m, h.listed_made j c, u.next_same);
    once = once_unregister;
    owner = λ i j c m n. h.owner i j c (listed_unregister i c m).0 (listed_unregister j c n).0;
  }

-- What Broadcast leaves: each channel of the deployment was offered the event once.
pub record Broadcasted (id : String) (ev : DeployEvent) (s t : StreamManager) : Type 0 where
  pub lists : (j : String) → channels t j ≡ channels s j
  pub chans :
      (c : ℕ) → t.chan c ≡ (if mem c (channels s id) then accept ev (s.chan c) else s.chan c)
  pub next_same : t.next ≡ s.next

-- Broadcast does not panic.
pub broadcast_total :
    (id : String) (ev : DeployEvent) (s : StreamManager)
    → IsSafe s
    → (t : StreamManager) × (broadcast id ev s ≡ some t) × Broadcasted id ev s t
unfolding channels broadcast
broadcast_total id ev s h =
    let (after, done, each) =
      offer_all_total (channels s id) ev s.chan (h.once id) (h.listed_open id) in
    (
      record s { chan = after },
      rw (done, broadcast),
      record { lists = λ j. refl; chans = each; next_same = refl },
    )

pub broadcast-IsSafe :
    (id : String) (ev : DeployEvent) (s t : StreamManager)
    → Broadcasted id ev s t
    → IsSafe s
    → IsSafe t
broadcast-IsSafe id ev s t b h = record {
  listed_open = λ j c m. ground (arith, b.chans c, b.lists j, h.listed_open j c);
  listed_made = λ j c m. ground (arith, b.lists j, b.next_same, h.listed_made j c);
  once = λ j. rw (b.lists j) (h.once j);
  owner = λ i j c m n. h.owner i j c (rw (b.lists i) at m) (rw (b.lists j) at n);
}

pub receive-IsSafe : (ch : ℕ) (s : StreamManager) → IsSafe s → IsSafe (receive ch s).0
unfolding receive channels
receive-IsSafe ch s h = record {
  listed_open = λ j c m. ground (arith, h.listed_open j c, ==_iff ch c);
  listed_made = h.listed_made;
  once = h.once;
  owner = h.owner;
}

call_total :
    (c : Call) (s : StreamManager) → IsSafe s → (t : StreamManager) × (call c s ≡ some t) × IsSafe t
unfolding call
call_total (registers id) s h = ((register id s).0, refl, register-IsSafe id s h)
call_total (unregisters id ch) s h =
    let (t, e, u) = unregister_total id ch s (h.listed_open id ch) in
    (t, e, unregister-IsSafe id ch s t u h)
call_total (broadcasts id ev) s h =
    let (t, e, b) = broadcast_total id ev s h in (t, e, broadcast-IsSafe id ev s t b h)
call_total (receives ch) s h = ((receive ch s).0, refl, receive-IsSafe ch s h)

-- From a safe manager, any calls in any order end without a panic, in a safe manager.
pub run_total :
    (cs : List Call) (s : StreamManager)
    → IsSafe s
    → (t : StreamManager) × (run cs s ≡ some t) × IsSafe t
unfolding run
run_total [] s h = (s, refl, h)
run_total (c ∷ cs) s h =
    let (t, e, k) = call_total c s h in let (u, f, l) = run_total cs t k in (u, rw (e, run) f, l)
