-- ===== src/Nested/Answers.antt =====
-- What the server of extra/server.cpp should send over a run, and its state against that.
use morphling_c.Base.{
  ℕ, suc, ◌≡◌, ◌≤◌, ◌<◌, Bool, true, false, ◌||◌, List, [], ◌∷◌, ◌++◌, none, some, Dict, lookup,
  map, length, get_elem?, ◌==◌, if◌then◌else◌,
}
use morphling_c.Message.{ReplicaId}
use morphling_c.Gauge.{Gauge}
use morphling_c.Nested.{
  Address, Sent, UdpServer, UdpDestination, PeerInfo, Datagram, nested_reply_message,
  client_reply_message, calls_on_client_msg, calls_on_nested_msg, calls_on_nested_reply_msg,
  max_seq, nested_message,
}

-- Whether a number is listed.
abbrev pub listed : ℕ → List ℕ → Bool
listed n [] = false
listed n (m ∷ ms) = n == m || listed n ms

-- The address of every peer.
abbrev pub addresses : Dict PeerInfo → Dict Address
addresses [] = []
addresses ((id, info) ∷ peers) = (id, info.sock_addr) ∷ addresses peers

-- Where the peers other than the server itself are.
abbrev pub others : ReplicaId → Dict Address → List Address
others me [] = []
others me ((id, to) ∷ peers) = let rest = others me peers in if id == me then rest else to ∷ rest

-- A question with the number `n` to each of them.
abbrev pub questions : ReplicaId → ℕ → Dict Address → List Sent
questions me n peers = map (λ (to : Address). (to, nested_message n)) (others me peers)

-- What a server sends that has had requests from `clients`, in order, and has answered those with
-- the numbers `answered`: a request gets the next number and is passed on to the other peers, a
-- peer's question gets its reply, and the first reply for a number goes to that client.
abbrev pub answers : ReplicaId → Dict Address → List Address → List ℕ → List Datagram → List Sent
answers me peers clients answered [] = []
answers me peers clients answered (d ∷ ds) =
    let asked = answers me peers (clients ++ d.addr ∷ []) answered ds in
    let same = answers me peers clients answered ds in
    let replied = answers me peers clients (d.data_int ∷ answered) ds in
    if d.type_number == 0
    then questions me (length clients) peers ++ asked
    else (if d.type_number == 1
        then (d.addr, nested_reply_message d.data_int) ∷ same
        else (if d.type_number == 2
            then (if listed d.data_int answered then same else elim (get_elem? clients d.data_int) [
              | some to ↦ (to, client_reply_message d.data_int) ∷ replied
              | none ↦ same
            ])
            else same))

-- The clients that make requests, in order.
abbrev pub requests : List Datagram → List Address
requests [] = []
requests (d ∷ ds) = let rest = requests ds in if d.type_number == 0 then d.addr ∷ rest else rest

-- There are at most as many requests as the server has bits for, peers reply to numbers that they
-- have been asked about, and no question brings an address with it where the server keeps a vector.
abbrev pub Honest : ℕ → List Datagram → Type 0
Honest asked [] = Unit {0}
Honest asked (d ∷ ds) =
    if d.type_number == 0
    then (asked < max_seq) × Honest (suc asked) ds
    else (if d.type_number == 1
        then (d.binary_start ≡ 0) × Honest asked ds
        else (if d.type_number == 2
            then (d.data_int < asked) × Honest asked ds
            else Honest asked ds))

-- The gauge's two series are equally long.
abbrev pub Even : Gauge → Type 0
Even g = length g.measure_probe1 ≡ length g.measure_probe2

-- A server against the clients that have asked it and the numbers that it has answered.
pub record Matches (s : UdpServer) (clients : List Address) (answered : List ℕ) : Type 0 where
  pub registered :
      s.callbacks
      ≡ (0, calls_on_client_msg) ∷ (1, calls_on_nested_msg) ∷ (2, calls_on_nested_reply_msg) ∷ []
  pub numbered : s.seq ≡ length clients
  pub room : length clients ≤ max_seq
  pub bits : length s.seq_finished ≡ max_seq
  pub finished : (i : ℕ) → i < max_seq → get_elem? s.seq_finished i ≡ some (listed i answered)
  pub issued : (i : ℕ) → listed i answered ≡ true → i < length clients
  pub waiting :
      (i : ℕ) (a : Address)
      → get_elem? clients i ≡ some a
      → listed i answered ≡ false
      → (dest : UdpDestination) × (lookup i s.pending_client ≡ some dest) × (dest.addr ≡ a)
  pub none_else : (i : ℕ) → length clients ≤ i → lookup i s.pending_client ≡ none
  pub even : Even s.gauge
