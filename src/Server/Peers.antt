-- ===== src/Server/Peers.antt =====
-- The life of the connections between two servers (app/server.cpp).
use morphling_c.Base.{
  ◌≡◌, refl, sym, ap, subst, ◌∙◌, Bool, true, false, ◌&&◌, List, [], ◌∷◌, ◌++◌, Option, none, some,
  Dict, lookup, insert, lookup-insert, lookup-insert_self, ◌==◌, if◌then◌else◌, Bool-cases, inl,
  inr, arith,
}
use morphling_c.Message.{ReplicaId, GuidanceMessage}
use morphling_c.Morphling.{Transport, guidance_message}
use morphling_c.Morphling.Valid.{from_me}
use morphling_c.Server.{PeerContext, Server, ctx_of, connect_peer_event_cb, recv_init_msg}

-- What happens to the connections of a server: one that it makes to a peer is made, or a message
-- comes in on one that it has accepted.
pub data Event : Type 0 where
  connected : ReplicaId → Transport → Event
  accepted : Transport → Option GuidanceMessage → Event

pub after_event : Event → Server → Server
after_event (connected id bev) s = (connect_peer_event_cb id bev s).0
after_event (accepted bev msg) s = recv_init_msg bev msg s

pub after_events : List Event → Server → Server
after_events [] s = s
after_events (e ∷ es) s = after_events es (after_event e s)

-- No peer counts as connected both ways.
abbrev pub Exclusive : Dict PeerContext → Type 0
Exclusive ctxs =
    (id : ReplicaId)
    → ((ctx_of id ctxs).proactive_connected && (ctx_of id ctxs).passive_connected) ≡ false

ctx_of-insert :
    (id j : ReplicaId) (ctx : PeerContext) (ctxs : Dict PeerContext)
    → ctx_of j (insert id ctx ctxs) ≡ (if id == j then ctx else ctx_of j ctxs)
unfolding ctx_of
ctx_of-insert id j ctx ctxs = ground (arith, lookup-insert id j ctx ctxs)

insert-Exclusive :
    (id : ReplicaId) (ctx : PeerContext) (ctxs : Dict PeerContext)
    → Exclusive ctxs
    → (ctx.proactive_connected && ctx.passive_connected) ≡ false
    → Exclusive (insert id ctx ctxs)
insert-Exclusive id ctx ctxs old new j = elim (Bool-cases (id == j)) [
  | inl here ↦ rw (ctx_of-insert id j ctx ctxs, here) new
  | inr elsewhere ↦ rw (ctx_of-insert id j ctx ctxs, elsewhere) (old j)
]

-- What the callbacks make of the contexts.
connect_ctx :
    (id : ReplicaId) (bev : Transport) (s : Server)
    → (connect_peer_event_cb id bev s).0.peer_ctx ≡ (
        if (ctx_of id s.peer_ctx).passive_connected
        then s.peer_ctx
        else insert id (record (ctx_of id s.peer_ctx) { proactive_connected = true }) s.peer_ctx)
unfolding connect_peer_event_cb
connect_ctx id bev s = elim (Bool-cases (ctx_of id s.peer_ctx).passive_connected) [
  | inl passive ↦ rw passive
  | inr free ↦ rw free
]

recv_ctx :
    (bev : Transport) (msg : GuidanceMessage) (s : Server)
    → (recv_init_msg bev (some msg) s).peer_ctx ≡ (
        if (ctx_of msg.from s.peer_ctx).proactive_connected
        then s.peer_ctx
        else insert msg.from
            (record (ctx_of msg.from s.peer_ctx) {
              passive_connected = true;
              socket_bev = some bev;
            })
            s.peer_ctx)
unfolding recv_init_msg
recv_ctx bev msg s = elim (Bool-cases (ctx_of msg.from s.peer_ctx).proactive_connected) [
  | inl proactive ↦ rw proactive
  | inr free ↦ rw free
]

-- A choice of two maps that are both good.
choice-Exclusive :
    (b : Bool) (x y : Dict PeerContext)
    → (b ≡ true → Exclusive x)
    → (b ≡ false → Exclusive y)
    → Exclusive (if b then x else y)
choice-Exclusive true x y p q = p refl
choice-Exclusive false x y p q = q refl

connect-Exclusive :
    (id : ReplicaId) (bev : Transport) (s : Server)
    → Exclusive s.peer_ctx
    → Exclusive (connect_peer_event_cb id bev s).0.peer_ctx
connect-Exclusive id bev s old = subst Exclusive (sym (connect_ctx id bev s)) (
    choice-Exclusive (ctx_of id s.peer_ctx).passive_connected s.peer_ctx _ (λ _. old)
      (λ free.
        insert-Exclusive id (record (ctx_of id s.peer_ctx) { proactive_connected = true })
          s.peer_ctx old (ground (arith, free))))

recv-Exclusive :
    (bev : Transport) (msg : Option GuidanceMessage) (s : Server)
    → Exclusive s.peer_ctx
    → Exclusive (recv_init_msg bev msg s).peer_ctx
unfolding recv_init_msg
recv-Exclusive bev none s old = old
recv-Exclusive bev (some msg) s old = subst Exclusive (sym (recv_ctx bev msg s)) (
    choice-Exclusive (ctx_of msg.from s.peer_ctx).proactive_connected s.peer_ctx _ (λ _. old)
      (λ free.
        insert-Exclusive msg.from
          (record (ctx_of msg.from s.peer_ctx) { passive_connected = true; socket_bev = some bev })
          s.peer_ctx old (ground (arith, free))))

-- Whatever connections are made and whatever comes in on accepted ones, in any order, no peer ever
-- counts as connected both by a connection that the server made and by one that it accepted.
pub after_events-Exclusive :
    (es : List Event) (s : Server) → Exclusive s.peer_ctx → Exclusive (after_events es s).peer_ctx
unfolding after_events after_event
after_events-Exclusive [] s old = old
after_events-Exclusive (connected id bev ∷ es) s old =
    after_events-Exclusive es (connect_peer_event_cb id bev s).0 (connect-Exclusive id bev s old)
after_events-Exclusive (accepted bev msg ∷ es) s old =
    after_events-Exclusive es (recv_init_msg bev msg s) (recv-Exclusive bev msg s old)

-- The server after it has made a connection, if the peer has made none.
abbrev reached : ReplicaId → Transport → Server → Server
reached id bev s = record s {
  peer_ctx = insert id (record (ctx_of id s.peer_ctx) { proactive_connected = true }) s.peer_ctx;
  peer_trans = insert id bev s.peer_trans;
}

connect_lem :
    (id : ReplicaId) (bev : Transport) (s : Server)
    → (ctx_of id s.peer_ctx).passive_connected ≡ false
    → (connect_peer_event_cb id bev s).0 ≡ reached id bev s
unfolding connect_peer_event_cb
connect_lem id bev s free = rw free

recv_lem :
    (bev : Transport) (msg : GuidanceMessage) (s : Server)
    → (ctx_of msg.from s.peer_ctx).proactive_connected ≡ true
    → recv_init_msg bev (some msg) s ≡ record s { freed = s.freed ++ bev ∷ [] }
unfolding recv_init_msg
recv_lem bev msg s proactive = rw proactive

reached-proactive :
    (id from : ReplicaId) (bev : Transport) (s : Server)
    → from ≡ id
    → (ctx_of from (reached id bev s).peer_ctx).proactive_connected ≡ true
reached-proactive id from bev s same = ground (
  arith,
  same,
  ctx_of-insert id from (record (ctx_of id s.peer_ctx) { proactive_connected = true }) s.peer_ctx,
)

-- A server that has made its connection to a peer gives up the one that it accepts from that peer.
given_up :
    (s : Server) (id : ReplicaId) (mine theirs : Transport) (msg : GuidanceMessage)
    → (ctx_of id s.peer_ctx).passive_connected ≡ false
    → msg.from ≡ id
    → after_events (connected id mine ∷ accepted theirs (some msg) ∷ []) s
      ≡ record (reached id mine s) { freed = s.freed ++ theirs ∷ [] }
unfolding after_events after_event
given_up s id mine theirs msg free same =
    ap (recv_init_msg theirs (some msg)) (connect_lem id mine s free)
    ∙ recv_lem theirs msg (reached id mine s) (reached-proactive id msg.from mine s same)

-- Two servers connect to each other at the same time: each makes its connection, and is then sent
-- the other's guidance on the connection that it accepts. Then each has freed the one that it
-- accepted, which is the other end of the connection that its peer keeps for sending.
pub after_events-crossed :
    (a b : Server) (x y x' y' : Transport)
    → (ctx_of b.me a.peer_ctx).passive_connected ≡ false
    → (ctx_of a.me b.peer_ctx).passive_connected ≡ false
    → a.replica.me ≡ a.me
    → b.replica.me ≡ b.me
    → let a' =
        after_events (connected b.me x ∷ accepted y' (some (guidance_message b.replica)) ∷ []) a in
      let b' =
        after_events (connected a.me y ∷ accepted x' (some (guidance_message a.replica)) ∷ []) b in
      (lookup b.me a'.peer_trans ≡ some x)
      × (b'.freed ≡ b.freed ++ x' ∷ [])
      × (lookup a.me b'.peer_trans ≡ some y)
      × (a'.freed ≡ a.freed ++ y' ∷ [])
after_events-crossed a b x y x' y' free_a free_b own_a own_b =
    let at_a =
      given_up a b.me x y' (guidance_message b.replica) free_a (from_me b.replica ∙ own_b) in
    let at_b =
      given_up b a.me y x' (guidance_message a.replica) free_b (from_me a.replica ∙ own_a) in
    (
      ap (λ (s : Server). lookup b.me s.peer_trans) at_a ∙ lookup-insert_self b.me x a.peer_trans,
      ap (λ (s : Server). s.freed) at_b,
      ap (λ (s : Server). lookup a.me s.peer_trans) at_b ∙ lookup-insert_self a.me y b.peer_trans,
      ap (λ (s : Server). s.freed) at_a,
    )
