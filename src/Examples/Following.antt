-- ===== src/Examples/Following.antt =====
-- A client that follows deployment d1 while node n1 deploys it.
use margo_hello_world.Common.{
  ◌+◌, String, List, [], ◌∷◌, ◌++◌, true, some, ◌==◌, words, numbers, ◌≡◌, ◌≢◌, refl, arith, map,
  mem, length, take, eq_iff,
}
use margo_hello_world.Common.Dict.{lookup, insert}
use margo_hello_world.Common.Texts.{concat}
use margo_hello_world.Model.{state_pending, state_installing, state_installed}
use margo_hello_world.Streams.{StreamManager, new_stream_manager, register, channels, chan_cap}
use margo_hello_world.Streams.Safety.{IsSafe, new-IsSafe, register-IsSafe}
use margo_hello_world.EdgeNode.{
  Sent, on_request, status_subject, deploy, deploy_containers, deploy_containerd, after_fetch,
  after_run, update_status,
}
use margo_hello_world.Health.{Network, Tiers, on_all, forward_url}
use margo_hello_world.Health.Followed.{events, states_followed}
use margo_hello_world.Examples.Center.{database}
use margo_hello_world.Examples.Recording.{tables}
use margo_hello_world.Examples.EdgeNodes.{machine, node, request}

-- Only the subject of the node is heard, and only the url of d1 exists.
abbrev network : Network
network = record {
  subscribed = λ subject. subject == status_subject node;
  arrives = λ url. url == forward_url "http://co/api/v1" "d1";
}

abbrev followed : StreamManager
followed = (register "d1" new_stream_manager).0

abbrev tiers : Tiers tables database network "http://co/api/v1" "now"
tiers = record {
  records = [];
  api = record { rows = []; incremented = λ id. 0; decremented = λ id. 0; manager = followed };
}

abbrev sent : List Sent
sent = (on_request machine node "now" (request "r" "1.0") []).1

followed-IsSafe : IsSafe followed
followed-IsSafe = register-IsSafe "d1" new_stream_manager new-IsSafe

listed : mem 0 (channels followed "d1") ≡ true
unfolding register channels new_stream_manager lookup insert
listed = refl

room : length (followed.chan 0).buffer + 10 ≡ chan_cap
unfolding register new_stream_manager
room = refl

d1_known : ◌≢◌ {A = String} "d1" ""
d1_known e = ground (arith, eq_iff "d1" "")

heard : (status_subject node == status_subject node) ≡ true
unfolding status_subject concat
heard = refl

posted : (forward_url "http://co/api/v1" "d1" == forward_url "http://co/api/v1" "d1") ≡ true
unfolding forward_url concat
posted = refl

events_test :
    map (λ e. e.status) (events "now" sent)
    ≡ state_pending ∷ state_installing ∷ state_installed ∷ []
unfolding on_request deploy deploy_containers deploy_containerd after_fetch after_run update_status
events_test = refl

states_followed_example :
    (t : Tiers tables database network "http://co/api/v1" "now") × (on_all tables database network
        "http://co/api/v1" "now" sent tiers
      ≡ some t)
    × ((t.api.manager.chan 0).buffer ≡ (followed.chan 0).buffer ++ take 10 (events "now" sent))
states_followed_example =
    states_followed tables database network "http://co/api/v1" "now" node (request "r" "1.0")
      machine "now" [] tiers 0 10 d1_known heard posted followed-IsSafe listed room
