-- ===== src/Nested/Once.antt =====
-- The server of extra/server.cpp over a run: how often it answers each request.
use morphling_c.Base.{
  ℕ, suc, ◌+◌, ◌≡◌, ◌<◌, inl, inr, refl, sym, ap, subst, ◌∙◌, Bool, true, false, ◌||◌, ◌&&◌, List,
  [], ◌∷◌, ◌++◌, append_assoc, none, some, Dict, length, length-append, get_elem?, get_elem?-append,
  get_elem?_total, get_elem?-some_lt, ◌==◌, if◌then◌else◌, ok, ok-injective, Bool-cases, arith,
}
use native.Mathlib.Decide.{ℕ_discrete}
use morphling_c.Message.{Bytes, ReplicaId}
use morphling_c.Nested.{
  IntBits, Address, Sent, UdpServer, Datagram, nested_message, nested_reply_message,
  client_reply_message, serve, max_seq,
}
use morphling_c.Nested.Answers.{addresses, questions, requests, listed, answers, Honest}
use morphling_c.Nested.Serving.{started, serve_lem}

-- Where the answers with a number go to.
abbrev pub answers_to : IntBits → List Sent → List Address
answers_to i [] = []
answers_to i ((to, client_reply_message n) ∷ sent) =
    let rest = answers_to i sent in if i == n then to ∷ rest else rest
answers_to i ((to, nested_message n) ∷ sent) = answers_to i sent
answers_to i ((to, nested_reply_message n) ∷ sent) = answers_to i sent

-- Whether a peer replies to a number.
abbrev pub replied : IntBits → List Datagram → Bool
replied i [] = false
replied i (d ∷ ds) = (d.type_number == 2 && i == d.data_int) || replied i ds

answers_to-append :
    (i : IntBits) (xs ys : List Sent) → answers_to i (xs ++ ys) ≡ answers_to i xs ++ answers_to i ys
answers_to-append i [] ys = refl
answers_to-append i ((to, client_reply_message n) ∷ sent) ys =
    ground (arith, answers_to-append i sent ys)
answers_to-append i ((to, nested_message n) ∷ sent) ys = answers_to-append i sent ys
answers_to-append i ((to, nested_reply_message n) ∷ sent) ys = answers_to-append i sent ys

answers_to-questions :
    (i me n : ℕ) (peers : Dict Address) → answers_to i (questions me n peers) ≡ []
answers_to-questions i me n [] = refl
answers_to-questions i me n ((id, to) ∷ peers) = elim (Bool-cases (id == me)) [
  | inl own ↦ rw own (answers_to-questions i me n peers)
  | inr other ↦ rw other (answers_to-questions i me n peers)
]

-- The client with a number, if it is to get an answer.
abbrev due : IntBits → List Address → List ℕ → List Datagram → List Address
due i clients answered ds =
    if listed i answered
    then []
    else (if replied i ds
        then elim (get_elem? (clients ++ requests ds) i) [ some to ↦ to ∷ [] | none ↦ [] ]
        else [])

module _ (me : ReplicaId) (peers : Dict Address) (i : IntBits) where
  -- A reply for a number that was answered before.
  due-old :
      (n : IntBits) (clients : List Address) (answered : List ℕ) (ds : List Datagram)
      → listed n answered ≡ true
      → due i clients answered ds ≡ (
          if listed i answered
          then []
          else (if i == n || replied i ds
              then elim (get_elem? (clients ++ requests ds) i) [ some to ↦ to ∷ [] | none ↦ [] ]
              else []))
  due-old n clients answered ds old = elim (ℕ_discrete i n) [
    | yes same ↦ rw (same, old) refl
    | no other ↦ ground (arith, other)
  ]

  -- The first reply for a number.
  due-fresh :
      (n : IntBits) (a : Address) (clients : List Address) (answered : List ℕ) (ds : List Datagram)
      → listed n answered ≡ false
      → get_elem? clients n ≡ some a
      → (if i == n then a ∷ due i clients (n ∷ answered) ds else due i clients (n ∷ answered) ds)
        ≡ (if listed i answered
            then []
            else (if i == n || replied i ds
                then elim (get_elem? (clients ++ requests ds) i) [ some to ↦ to ∷ [] | none ↦ [] ]
                else []))
  due-fresh n a clients answered ds fresh at = elim (ℕ_discrete i n) [
    | yes same ↦
        let found : get_elem? (clients ++ requests ds) n ≡ some a =
          get_elem?-append clients (requests ds) n (get_elem?-some_lt clients n at) ∙ at in
        rw (same, fresh, found) (ground arith)
    | no other ↦ ground (arith, other)
  ]

  -- Of what a server should send, the answers with one number.
  answers-due :
      (ds : List Datagram) (clients : List Address) (answered : List ℕ)
      → Honest (length clients) ds
      → answers_to i (answers me peers clients answered ds) ≡ due i clients answered ds
  answers-due [] clients answered h = ground arith
  answers-due (d ∷ ds) clients answered h = elim (ℕ_discrete d.type_number 0) [
    | yes e ↦
        let t0 : (d.type_number == 0) ≡ true = ground (arith, e) in
        let t2 : (d.type_number == 2) ≡ false = ground (arith, e) in
        let (lt, h') : (length clients < max_seq) × Honest (suc (length clients)) ds = rw t0 at h in
        rw
          (
            t0,
            t2,
            answers_to-append i (questions me (length clients) peers)
                (answers me peers (clients ++ d.addr ∷ []) answered ds),
            answers_to-questions i me (length clients) peers,
            answers-due ds (clients ++ d.addr ∷ []) answered (
                subst (λ (n : ℕ). Honest n ds) (omega (arith, length-append clients (d.addr ∷ [])))
                  h'),
            append_assoc clients (d.addr ∷ []) (requests ds),
          )
          refl
    | no r0 ↦ elim (ℕ_discrete d.type_number 2) [
      | yes e ↦
          let (lt, h') : (d.data_int < length clients) × Honest (length clients) ds = rw e at h in
          elim (Bool-cases (listed d.data_int answered)) [
            | inl old ↦
                rw (e, old, answers-due ds clients answered h')
                  (due-old d.data_int clients answered ds old)
            | inr fresh ↦
                let (a, at) = get_elem?_total clients d.data_int lt in
                rw (e, fresh, at, answers-due ds clients (d.data_int ∷ answered) h')
                  (due-fresh d.data_int a clients answered ds fresh at)
          ]
      | no r2 ↦
          let t0 : (d.type_number == 0) ≡ false = ground (arith, r0) in
          let t2 : (d.type_number == 2) ≡ false = ground (arith, r2) in
          elim (Bool-cases (d.type_number == 1)) [
            | inl t1 ↦
                let (null, h') : (d.binary_start ≡ 0) × Honest (length clients) ds =
                  rw (t0, t1) at h in
                rw (t0, t1, t2) (answers-due ds clients answered h')
            | inr t1 ↦ rw (t0, t1, t2) (answers-due ds clients answered (rw (t0, t1, t2) at h))
          ]
    ]
  ]

-- A number that a peer replies to belongs to a request.
replied_lt :
    (i : IntBits) (ds : List Datagram) (asked : ℕ)
    → Honest asked ds
    → replied i ds ≡ true
    → i < asked + length (requests ds)
replied_lt i [] asked h r = cc
replied_lt i (d ∷ ds) asked h r = ground (arith, replied_lt i ds asked, replied_lt i ds (suc asked))

-- A server that has been started answers a request at most once, over every run of at most 1000000
-- requests in which peers reply only to numbers that have been given out, and no question writes an
-- address where the server keeps a vector. Of what it sends, the
-- answers with a number go to exactly one place, the client whose request has that number, if any peer has replied
-- to the number, however often; and there are none if no peer has.
pub answered_once :
    (inet_addr : Bytes → ℕ) (inet_ntoa : ℕ → Bytes) (anything self : ReplicaId) (addrs : Dict Bytes)
    (ports : Dict ℕ) (ds : List Datagram) (s' : UdpServer) (sent : List Sent) (i : IntBits)
    → Honest 0 ds
    → serve inet_addr inet_ntoa ds (started inet_addr inet_ntoa anything self addrs ports)
      ≡ ok (s', sent)
    → (replied i ds ≡ true
        → (a : Address) × (get_elem? (requests ds) i ≡ some a) × (answers_to i sent ≡ a ∷ []))
      × (replied i ds ≡ false → answers_to i sent ≡ [])
answered_once inet_addr inet_ntoa anything self addrs ports ds s' sent i h e =
    let (s2, f) = serve_lem inet_addr inet_ntoa anything self addrs ports ds h in
    let all =
      answers-due self (addresses (started inet_addr inet_ntoa anything self addrs ports).peer_info)
        i ds [] [] h in
    let same : answers_to i sent ≡ due i [] [] ds =
      ap (λ (o : UdpServer × List Sent). answers_to i o.1) (ok-injective (sym e ∙ f)) ∙ all in
    (
      λ yes_replied.
          let (a, at) =
            get_elem?_total (requests ds) i (omega (arith, replied_lt i ds 0 h yes_replied)) in
          (a, at, same ∙ rw (yes_replied, at) refl),
      λ none_replied. same ∙ rw none_replied refl,
    )
