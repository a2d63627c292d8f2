-- ===== src/Streams/Effects.antt =====
-- What each operation of the stream manager does to the channels of each deployment.
use margo_hello_world.Common.{
  ℕ, String, List, [], ◌∷◌, ◌++◌, true, false, not, ◌&&◌, ◌||◌, some, ◌==◌, numbers, words,
  if◌then◌else◌, ◌≡◌, refl, inl, inr, arith, Bool-cases, ==_iff, eq_iff, mem, ltb, length,
}
use margo_hello_world.Common.Dict.{insert, lookup-insert, lookup-delete}
use margo_hello_world.Streams.{
  DeployEvent, Channel, StreamManager, channels, register, remove_first, close, cut, drop_empty,
  unregister, offer, offer_all, update, chan_cap, empty_channel,
}

-- No channel is listed twice.
abbrev pub Distinct : List ℕ → Type 0
Distinct [] = Unit
Distinct (x ∷ xs) = (mem x xs ≡ false) × Distinct xs

pub mem-append : (a : ℕ) (xs ys : List ℕ) → mem a (xs ++ ys) ≡ (mem a xs || mem a ys)
mem-append a [] ys = refl
mem-append a (x ∷ xs) ys = ground (arith, mem-append a xs ys)

pub Distinct-append :
    (xs : List ℕ) (c : ℕ) → Distinct xs → mem c xs ≡ false → Distinct (xs ++ c ∷ [])
Distinct-append [] c d f = (refl, tt)
Distinct-append (x ∷ xs) c d f =
    (ground (arith, mem-append x xs (c ∷ [])), Distinct-append xs c d.1 (ground arith))

pub mem-remove_first :
    (a c : ℕ) (xs : List ℕ) → Distinct xs → mem a (remove_first c xs) ≡ (not (c == a) && mem a xs)
unfolding remove_first
mem-remove_first a c [] d = ground arith
mem-remove_first a c (x ∷ xs) d = ground (arith, mem-remove_first a c xs d.1)

pub Distinct-remove_first : (c : ℕ) (xs : List ℕ) → Distinct xs → Distinct (remove_first c xs)
unfolding remove_first
Distinct-remove_first c [] d = tt
Distinct-remove_first c (x ∷ xs) d = elim (Bool-cases (x == c)) [
  | inl e ↦ rw e d.1
  | inr e ↦ rw e (ground (arith, mem-remove_first x c xs d.1), Distinct-remove_first c xs d.1)
]

pub remove_first_missing : (c : ℕ) (xs : List ℕ) → mem c xs ≡ false → remove_first c xs ≡ xs
unfolding remove_first
remove_first_missing c [] m = refl
remove_first_missing c (x ∷ xs) m = ground (arith, remove_first_missing c xs)

pub channels-register :
    (id j : String) (s : StreamManager)
    → channels (register id s).0 j
      ≡ (if id == j then channels s id ++ s.next ∷ [] else channels s j)
unfolding register
channels-register id j s = simp lookup-insert (ground arith)

pub chan-register :
    (id : String) (s : StreamManager) (c : ℕ)
    → (register id s).0.chan c ≡ update s.chan s.next empty_channel c
unfolding register
chan-register id s c = refl

channels-drop_empty :
    (id j : String) (s : StreamManager) → channels (drop_empty id s) j ≡ channels s j
unfolding drop_empty
channels-drop_empty id j s = ground (arith, lookup-delete id j s.streams, eq_iff id j)

chan-drop_empty : (id : String) (s : StreamManager) → (drop_empty id s).chan ≡ s.chan
unfolding drop_empty
chan-drop_empty id s = ground arith

next-drop_empty : (id : String) (s : StreamManager) → (drop_empty id s).next ≡ s.next
unfolding drop_empty
next-drop_empty id s = ground arith

abbrev pub shut : Channel → Channel
shut c = record c { closed = true }

-- The state after the loop has found the channel.
abbrev cut_out : String → ℕ → StreamManager → StreamManager
cut_out id ch s = record s {
  chan = update s.chan ch (shut (s.chan ch));
  streams = insert id (remove_first ch (channels s id)) s.streams;
}

cut_found :
    (id : String) (ch : ℕ) (cs : List ℕ) (s : StreamManager)
    → mem ch cs ≡ true
    → (s.chan ch).closed ≡ false
    → cut id ch cs s ≡ some (cut_out id ch s)
unfolding cut
cut_found id ch [] s m o = cc
cut_found id ch (c ∷ cs) s m o = elim (Bool-cases (c == ch)) [
  | inl e ↦ let same : c ≡ ch = (==_iff c ch).0 e in rw (e, cut) (rw same (rw (o, close)))
  | inr e ↦ rw (e, cut) (cut_found id ch cs s (ground arith) o)
]

cut_missing :
    (id : String) (ch : ℕ) (cs : List ℕ) (s : StreamManager)
    → mem ch cs ≡ false
    → cut id ch cs s ≡ some s
unfolding cut
cut_missing id ch [] s m = refl
cut_missing id ch (c ∷ cs) s m = ground (arith, cut_missing id ch cs s)

channels-cut_out :
    (id j : String) (ch : ℕ) (s : StreamManager)
    → channels (cut_out id ch s) j
      ≡ (if id == j then remove_first ch (channels s id) else channels s j)
unfolding channels
channels-cut_out id j ch s = simp lookup-insert (ground arith)

-- What Unregister leaves: the channel is out of the deployment's list and closed, if it was there.
pub record Unregistered (id : String) (ch : ℕ) (s t : StreamManager) : Type 0 where
  pub lists :
      (j : String)
      → channels t j ≡ (if id == j then remove_first ch (channels s id) else channels s j)
  pub chans :
      (c : ℕ)
      → t.chan c ≡ (if mem ch (channels s id) && ch == c then shut (s.chan ch) else s.chan c)
  pub next_same : t.next ≡ s.next

-- Unregister ends without a panic where the channel, if it is listed, is open.
pub unregister_total :
    (id : String) (ch : ℕ) (s : StreamManager)
    → (mem ch (channels s id) ≡ true → (s.chan ch).closed ≡ false)
    → (t : StreamManager) × (unregister id ch s ≡ some t) × Unregistered id ch s t
unfolding unregister
unregister_total id ch s o = elim (Bool-cases (mem ch (channels s id))) [
  | inl m ↦ (
    drop_empty id (cut_out id ch s),
    rw (cut_found id ch (channels s id) s m (o m), unregister),
    record {
      lists = λ j. rw channels-drop_empty (channels-cut_out id j ch s);
      chans = λ c. rw (chan-drop_empty, m) refl;
      next_same = next-drop_empty id (cut_out id ch s);
    },
  )
  | inr m ↦ (
    drop_empty id s,
    rw (cut_missing id ch (channels s id) s m, unregister),
    record {
      lists = λ j.
          rw (channels-drop_empty, remove_first_missing ch (channels s id) m)
            (ground (arith, eq_iff id j));
      chans = λ c. rw (chan-drop_empty, m) refl;
      next_same = next-drop_empty id s;
    },
  )
]

-- What a channel holds after the select of Broadcast: the event is dropped where it is full.
abbrev pub accept : DeployEvent → Channel → Channel
accept ev c =
    if ltb (length c.buffer) chan_cap then record c { buffer = c.buffer ++ ev ∷ [] } else c

offer_open : (ev : DeployEvent) (c : Channel) → c.closed ≡ false → offer ev c ≡ some (accept ev c)
unfolding offer
offer_open ev c o = ground arith

-- Over distinct open channels the loop of Broadcast ends, and each is offered the event once.
pub offer_all_total :
    (cs : List ℕ) (ev : DeployEvent) (chan : ℕ → Channel)
    → Distinct cs
    → ((c : ℕ) → mem c cs ≡ true → (chan c).closed ≡ false)
    → (after : ℕ → Channel) × (offer_all cs ev chan ≡ some after)
      × ((c : ℕ) → after c ≡ (if mem c cs then accept ev (chan c) else chan c))
unfolding offer_all
offer_all_total [] ev chan d o = (chan, refl, λ c. refl)
offer_all_total (x ∷ cs) ev chan d o =
    let now = update chan x (accept ev (chan x)) in
    let (after, done, each) = offer_all_total cs ev now d.1 (λ c m. ground (arith, o c, o x)) in
    (
      after,
      rw (offer_open ev (chan x) (o x (ground (arith, ==_iff x x))), offer_all) done,
      λ c. ground (arith, each c, ==_iff x c),
    )
