-- ===== src/Tests/Servers.antt =====
-- Runs of `Server` (app/server.cpp).
use morphling_c.Base.{◌+◌, arith, ◌≡◌, refl, false, List, [], ◌∷◌, ◌++◌, none, some, lookup}
use morphling_c.Message.{ReplicaId}
use morphling_c.Keys.Owner.{first_guidance}
use morphling_c.Morphling.{guidance_message}
use morphling_c.Morphling.Valid.{fresh}
use morphling_c.Server.{PeerContext, Server, ctx_of}
use morphling_c.Server.Peers.{
  Event, connected, accepted, after_events, Exclusive, after_events-Exclusive, after_events-crossed,
}

abbrev three_peers : List ReplicaId
three_peers = 0 ∷ 1 ∷ 2 ∷ []

abbrev waiting : ReplicaId → PeerContext
waiting id = record {
  id = id;
  socket_bev = some (10 + id);
  proactive_connected = false;
  passive_connected = false;
}

-- Servers 0 and 1 after `init_peer_ctx`.
abbrev first_server : Server
first_server = record {
  peer_trans = [];
  peer_ctx = (1, waiting 1) ∷ (2, waiting 2) ∷ [];
  replica = fresh first_guidance 0 three_peers;
  me = 0;
  peers = three_peers;
  freed = [];
}

abbrev second_server : Server
second_server = record {
  peer_trans = [];
  peer_ctx = (0, waiting 0) ∷ (2, waiting 2) ∷ [];
  replica = fresh first_guidance 1 three_peers;
  me = 1;
  peers = three_peers;
  freed = [];
}

abbrev events : List Event
events =
    connected 1 11
    ∷ accepted 20 none
    ∷ accepted 21 (some (guidance_message second_server.replica))
    ∷ []

none_both : Exclusive first_server.peer_ctx
unfolding ctx_of lookup
none_both id = ground arith

after_events-Exclusive_example : Exclusive (after_events events first_server).peer_ctx
after_events-Exclusive_example = after_events-Exclusive events first_server none_both

after_events-crossed_example :
    let a' =
      after_events
        (connected second_server.me 11
          ∷ accepted 31 (some (guidance_message second_server.replica))
          ∷ [])
        first_server in
    let b' =
      after_events
        (connected first_server.me 10
          ∷ accepted 30 (some (guidance_message first_server.replica))
          ∷ [])
        second_server in
    (lookup second_server.me a'.peer_trans ≡ some 11)
    × (b'.freed ≡ second_server.freed ++ 30 ∷ [])
    × (lookup first_server.me b'.peer_trans ≡ some 10)
    × (a'.freed ≡ first_server.freed ++ 31 ∷ [])
unfolding ctx_of lookup
after_events-crossed_example =
    after_events-crossed first_server second_server 11 10 30 31 refl refl refl refl
