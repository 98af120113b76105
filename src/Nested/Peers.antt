-- ===== src/Nested/Peers.antt =====
-- The peers of the server of extra/server.cpp: `set_info`, and the loop of `on_client_msg`.
use morphling_c.Base.{
  ℕ, ◌%◌, ◌^◌, ◌≡◌, ◌<◌, inl, inr, refl, sym, ap, ◌∙◌, [], ◌∷◌, ◌++◌, append_assoc, append-nil,
  Option, none, some, Dict, lookup, insert, lookup-insert_ne, ◌==◌, Bool-cases, arith,
}
use native.Mathlib.Decide.{ℕ_discrete}
use morphling_c.Message.{Bytes}
use morphling_c.Nested.{Address, PeerInfo, nest_peers, set_peer_info}
use morphling_c.Nested.Answers.{addresses, questions}

pub nest_peers-questions :
    (me n : ℕ) (peers : Dict PeerInfo)
    → n < 2 ^ 32
    → nest_peers me n peers ≡ questions me n (addresses peers)
nest_peers-questions me n [] small = refl
nest_peers-questions me n ((id, info) ∷ peers) small =
    let whole : n % 2 ^ 32 ≡ n = omega (arith, small) in
    elim (Bool-cases (id == me)) [
      | inl own ↦ rw own (nest_peers-questions me n peers small)
      | inr other ↦ rw (other, whole, nest_peers-questions me n peers small) refl
    ]

-- Each name has one address.
abbrev pub AllDistinct : Dict Bytes → Type 0
AllDistinct [] = Unit {0}
AllDistinct ((id, text) ∷ addrs) = (lookup id addrs ≡ none) × AllDistinct addrs

none-some : {A : Type 0} {x : A} → ¬ (none ≡ some x)
none-some {A} {x} e = cc

insert_new :
    (key : ℕ) (value : PeerInfo) (table : Dict PeerInfo)
    → lookup key table ≡ none
    → insert key value table ≡ table ++ (key, value) ∷ []
unfolding lookup insert
insert_new key value [] missing = refl
insert_new key value ((other, old) ∷ table) missing = elim (Bool-cases (other == key)) [
  | inl same ↦ absurd (ground (same, missing, arith))
  | inr apart ↦ rw (apart, insert_new key value table (rw apart at missing)) refl
]

addresses-append : (xs ys : Dict PeerInfo) → addresses (xs ++ ys) ≡ addresses xs ++ addresses ys
addresses-append [] ys = refl
addresses-append ((id, info) ∷ xs) ys = ap (◌∷◌ (id, info.sock_addr)) (addresses-append xs ys)

-- The address of each peer, by the two tables that the program is given: the number of its text, and
-- 16 bits of its port, or 0 if it has none.
abbrev pub port_of : Option ℕ → ℕ
port_of none = 0
port_of (some port) = port % 65536

sent_port : (port : Option ℕ) → (elim port [ some p ↦ p | none ↦ 0 ]) % 2 ^ 16 ≡ port_of port
sent_port none = refl
sent_port (some p) = refl

found : (id : ℕ) (text : Bytes) (addrs : Dict Bytes) → lookup id ((id, text) ∷ addrs) ≡ some text
unfolding lookup
found id text addrs = ground arith

-- The names that come later are still new after one is inserted.
still_new :
    (id x : ℕ) (text t : Bytes) (addrs : Dict Bytes) (infos : Dict PeerInfo) (info : PeerInfo)
    → lookup id addrs ≡ none
    → ((i : ℕ) (u : Bytes) → lookup i ((id, text) ∷ addrs) ≡ some u → lookup i infos ≡ none)
    → lookup x addrs ≡ some t
    → lookup x (insert id info infos) ≡ none
unfolding lookup
still_new id x text t addrs infos info missing new at = elim (ℕ_discrete id x) [
  | yes same ↦ absurd (none-some (sym missing ∙ ap (λ (i : ℕ). lookup i addrs) same ∙ at))
  | no apart ↦ lookup-insert_ne id x info infos apart ∙ new x t (ground (arith, apart, at))
]

module _ (inet_addr : Bytes → ℕ) (inet_ntoa : ℕ → Bytes) where
  abbrev pub configured : Dict Bytes → Dict ℕ → Dict Address
  configured [] ports = []
  configured ((id, text) ∷ addrs) ports =
      (id, record { ip = inet_addr text; port = port_of (lookup id ports) })
      ∷ configured addrs ports

  pub set_peer_info-configured :
      (addrs : Dict Bytes) (ports : Dict ℕ) (infos : Dict PeerInfo)
      → AllDistinct addrs
      → ((id : ℕ) (text : Bytes) → lookup id addrs ≡ some text → lookup id infos ≡ none)
      → addresses (set_peer_info inet_addr inet_ntoa addrs ports infos)
        ≡ addresses infos ++ configured addrs ports
  unfolding set_peer_info
  set_peer_info-configured [] ports infos distinct new = sym (append-nil (addresses infos))
  set_peer_info-configured ((id, text) ∷ addrs) ports infos distinct new =
      let port : ℕ = elim (lookup id ports) [ some p ↦ p | none ↦ 0 ] in
      let info : PeerInfo = record {
        ip = text;
        port = port;
        sock_addr = record { ip = inet_addr text; port = port % 2 ^ 16 };
      } in
      let here : lookup id infos ≡ none = new id text (found id text addrs) in
      let to : port % 2 ^ 16 ≡ port_of (lookup id ports) = sent_port (lookup id ports) in
      let grown : insert id info infos ≡ infos ++ (id, info) ∷ [] = insert_new id info infos here in
      set_peer_info-configured addrs ports (insert id info infos) distinct.1
        (λ x t at. still_new id x text t addrs infos info distinct.0 new at)
      ∙ ap (λ (is : Dict PeerInfo). addresses is ++ configured addrs ports) grown
      ∙ ap (λ (known : Dict Address). known ++ configured addrs ports)
          (addresses-append infos ((id, info) ∷ []))
      ∙ append_assoc (addresses infos) ((id, info.sock_addr) ∷ []) (configured addrs ports)
      ∙ ap
          (λ (q : ℕ).
            addresses infos
            ++ (id, record { ip = inet_addr text; port = q }) ∷ configured addrs ports)
          to
