-- ===== src/Health/Followed.antt =====
-- internal/edgenode/edgenode.go, internal/orchestrator/health.go, internal/api/handlers and
-- internal/streammanager together: what the followers of a deployment get of the states that an
-- edge node publishes.
use margo_hello_world.Common.{
  ℕ, ◌+◌, String, List, [], ◌∷◌, ◌++◌, true, none, some, words, ◌≡◌, ◌≢◌, refl, sym, ap, ◌∙◌,
  if◌then◌else◌, Bool-cases, Option-cases, inl, inr, All, mem, length, take, numbers,
}
use mathlib.Core.Option.{get_or}
use margo_hello_world.Model.{DeployRequest, DeploymentReport, DeploymentStatus}
use margo_hello_world.EdgeNode.{
  Sent, status, report, Machine, EdgeNode, status_subject, on_request, deploy, report_of,
}
use margo_hello_world.Streams.{DeployEvent, channels, chan_cap, broadcast}
use margo_hello_world.Streams.Safety.{IsSafe, broadcast_total, broadcast-IsSafe, Broadcasted}
use margo_hello_world.Streams.Delivery.{broadcast_all, broadcast_all_keeps_first}
use margo_hello_world.Records as Records
use margo_hello_world.Records.{update_deployment_record}
use margo_hello_world.Status.{
  Database, Api, event_of, is_terminal, bump, update_deployment_status, deployment_status_handler,
}
use margo_hello_world.Health.{
  Network, Tiers, forward_url, on_all, on_sent, on_status, forward_to_co, decode_status, answered,
  zero_status, subject_of,
}
use margo_hello_world.Health.Own.{IsOwn, deploy-IsOwn}

-- The events that the states among the messages become.
abbrev pub events : String → List Sent → List DeployEvent
events now [] = []
events now (status subject s ∷ ms) = event_of now s ∷ events now ms
events now (report subject r ∷ ms) = events now ms

module _ (T : Records.Tables) (D : Database) (N : Network) (base now : String) where
  -- The handler of the central orchestrator broadcasts once, from a safe manager.
  handled :
      (s : DeploymentStatus) (api : Api D)
      → IsSafe api.manager
      → (api' : Api D) × (deployment_status_handler D now (some s) api ≡ some api')
        × (broadcast s.deployment_id (event_of now s) api.manager ≡ some api'.manager)
        × Broadcasted s.deployment_id (event_of now s) api.manager api'.manager
  unfolding deployment_status_handler
  handled s api h =
      let (m, e, b) = broadcast_total s.deployment_id (event_of now s) api.manager h in
      let rows = (update_deployment_status D s api.rows).0 in
      let decremented =
        if is_terminal s then bump s.deployment_id api.decremented else api.decremented in
      (
        record api { rows = rows; decremented = decremented; manager = m },
        rw (e, deployment_status_handler) refl,
        e,
        b,
      )

  module _ (en : EdgeNode) (req : DeployRequest) (id_known : req.deployment_id ≢ "")
      (heard : N.subscribed (status_subject en) ≡ true)
      (posted : N.arrives (forward_url base req.deployment_id) ≡ true) where
    -- One state, forwarded: the same as its broadcast.
    own_sent :
        (subject : String) (s : DeploymentStatus) (t : Tiers T D N base now)
        → IsOwn en req (status subject s)
        → IsSafe t.api.manager
        → (t' : Tiers T D N base now) × (on_sent T D N base now (status subject s) t ≡ some t')
          × IsSafe t'.api.manager
          × (broadcast req.deployment_id (event_of now s) t.api.manager ≡ some t'.api.manager)
          × ((j : String) → channels t'.api.manager j ≡ channels t.api.manager j)
    unfolding on_sent on_status forward_to_co decode_status answered
    own_sent subject s t (p, q) h =
        let (api, e, b, k) = handled s t.api h in
        let on_subject : N.subscribed subject ≡ true = rw p heard in
        let on_url : N.arrives (forward_url base s.deployment_id) ≡ true = rw q posted in
        (
          record t { records = (update_deployment_record T s t.records).0; api = api },
          rw (on_subject, on_url, e) refl,
          broadcast-IsSafe s.deployment_id (event_of now s) t.api.manager api.manager k h,
          rw (← q) b,
          k.lists,
        )

    forwarded_in_turn :
        (ms : List Sent) (t : Tiers T D N base now)
        → All (IsOwn en req) ms
        → IsSafe t.api.manager
        → (t' : Tiers T D N base now) × (on_all T D N base now ms t ≡ some t')
          × IsSafe t'.api.manager
          × (broadcast_all req.deployment_id (events now ms) t.api.manager ≡ some t'.api.manager)
          × ((j : String) → channels t'.api.manager j ≡ channels t.api.manager j)
    unfolding on_all broadcast_all
    forwarded_in_turn [] t o h = (t, refl, h, refl, λ j. refl)
    forwarded_in_turn (report subject r ∷ ms) t (o, os) h = absurd o
    forwarded_in_turn (status subject s ∷ ms) t (o, os) h =
        let (t', e, k, b, same) = own_sent subject s t o h in
        let (t'', f, l, c, same') = forwarded_in_turn ms t' os k in
        (t'', rw (on_all, e) f, l, rw (broadcast_all, b) c, λ j. same' j ∙ same j)

    -- The report at the end is decoded as a status of no deployment, which the followers of this
    -- one do not see.
    report_sent :
        (r : Sent) (t : Tiers T D N base now) (ch : ℕ)
        → decode_status r ≡ zero_status
        → IsSafe t.api.manager
        → mem ch (channels t.api.manager req.deployment_id) ≡ true
        → (t' : Tiers T D N base now) × (on_sent T D N base now r t ≡ some t')
          × (t'.api.manager.chan ch ≡ t.api.manager.chan ch)
    unfolding on_sent on_status forward_to_co answered
    report_sent r t ch z h listed =
        let records = (update_deployment_record T zero_status t.records).0 in
        elim (Bool-cases (N.subscribed (subject_of r))) [
          | inr n ↦ (t, rw n refl, refl)
          | inl y ↦ elim (Bool-cases (N.arrives (forward_url base ""))) [
            | inr n ↦ (record t { records = records }, rw (y, z, n) refl, refl)
            | inl a ↦
                let (api, e, b, k) = handled zero_status t.api h in
                (
                  record t { records = records; api = api },
                  rw (y, z, a, e) refl,
                  elim (Bool-cases (mem ch (channels t.api.manager ""))) [
                    | inl m ↦ absurd (id_known (h.owner req.deployment_id "" ch listed m))
                    | inr m ↦ k.chans ch ∙ rw m refl
                  ],
                )
          ]
        ]

    on_all-append :
        (ms ns : List Sent) (t t' : Tiers T D N base now)
        → on_all T D N base now ms t ≡ some t'
        → on_all T D N base now (ms ++ ns) t ≡ on_all T D N base now ns t'
    unfolding on_all
    on_all-append [] ns t t' h =
        ap (λ o. elim o [ none ↦ none | some u ↦ on_all T D N base now ns u ]) h
    on_all-append (m ∷ ms) ns t t' h = elim (Option-cases (on_sent T D N base now m t)) [
      | inl e ↦ let k = rw (e, on_all) at h in cc
      | inr (u, e) ↦ let k = rw (e, on_all) at h in rw (e, on_all) (on_all-append ms ns u t' k)
    ]

events-append_report :
    (now subject : String) (r : DeploymentReport) (ms : List Sent)
    → events now (ms ++ report subject r ∷ []) ≡ events now ms
events-append_report now subject r [] = refl
events-append_report now subject r (status subject' s ∷ ms) =
    ap (◌∷◌ (event_of now s)) (events-append_report now subject r ms)
events-append_report now subject r (report subject' s ∷ ms) = events-append_report now subject r ms

-- When a node deploys a request whose id is not empty, the local orchestrator is subscribed to its
-- subject, the url of the deployment exists, and a client follows it in a safe manager with room
-- for r more events, then the handlers of all messages that the node publishes end without a
-- panic, and the channel of the client has got, in order, the first r of the states that the node
-- published, and nothing else.
pub states_followed :
    (T : Records.Tables) (D : Database) (N : Network) (base now : String) (en : EdgeNode)
    (req : DeployRequest) {W : Type 0} (M : Machine W) (at_node : String) (w : W)
    (t : Tiers T D N base now) (ch room : ℕ)
    → req.deployment_id ≢ ""
    → N.subscribed (status_subject en) ≡ true
    → N.arrives (forward_url base req.deployment_id) ≡ true
    → IsSafe t.api.manager
    → mem ch (channels t.api.manager req.deployment_id) ≡ true
    → length (t.api.manager.chan ch).buffer + room ≡ chan_cap
    → (t' : Tiers T D N base now) × (on_all T D N base now (on_request M en at_node req w).1 t
        ≡ some t')
      × ((t'.api.manager.chan ch).buffer
          ≡ (t.api.manager.chan ch).buffer
            ++ take room (events now (on_request M en at_node req w).1))
unfolding on_request on_all decode_status
states_followed T D N base now en req M at_node w t ch room known heard posted h listed fits =
    let ms = (deploy M en req w).sent in
    let r = report_of M en at_node req (deploy M en req w).error in
    let last = report (status_subject en) r in
    let (t1, e1, k, b, same) =
      forwarded_in_turn T D N base now en req known heard posted ms t (deploy-IsOwn M en req w) h in
    let still : mem ch (channels t1.api.manager req.deployment_id) ≡ true =
      rw (same req.deployment_id) listed in
    let (t2, e2, c) =
      report_sent T D N base now en req known heard posted last t1 ch refl k still in
    let (m, f, buffer, others) =
      broadcast_all_keeps_first req.deployment_id (events now ms) t.api.manager ch room h listed
        fits in
    let one : m ≡ t1.api.manager = ap (λ o. get_or o m) (sym f ∙ b) in
    (
      t2,
      on_all-append T D N base now en req known heard posted ms (last ∷ []) t t1 e1
          ∙ rw (on_all, e2) refl,
      rw (c, ← one, events-append_report now (status_subject en) r ms) buffer,
    )
