-- ===== src/Nested/Replies.antt =====
-- `UDPServer::on_nested_reply_msg` of extra/server.cpp.
use morphling_c.Base.{
  ℕ, ◌+◌, ◌-◌, ◌^◌, ◌≡◌, ◌<◌, refl, sym, ap, ◌∙◌, true, false, List, [], ◌∷◌, some, erase,
  lookup-erase_ne, length, length-set, get_elem?, get_elem?-set_self, get_elem?-set_ne,
  get_elem?-some_lt, set, ltb, if◌then◌else◌, ok, arith,
}
use native.Mathlib.Decide.{ℕ_discrete}
use morphling_c.Nested.{IntBits, Address, UdpServer, client_reply_message, on_nested_reply_msg}
use morphling_c.Nested.Answers.{listed, Matches}

-- The server after the first reply for a number.
abbrev pub answered_for : IntBits → UdpServer → UdpServer
answered_for n s = record s {
  seq_finished = set s.seq_finished n true;
  pending_client = erase n s.pending_client;
}

pub answered_for-Matches :
    (s : UdpServer) (clients : List Address) (answered : List ℕ) (n : IntBits)
    → Matches s clients answered
    → n < length clients
    → Matches (answered_for n s) clients (n ∷ answered)
answered_for-Matches s clients answered n m lt = record {
  registered = m.registered;
  numbered = m.numbered;
  room = m.room;
  bits = length-set s.seq_finished n true ∙ m.bits;
  finished = λ i below. elim (ℕ_discrete n i) [
    | yes same ↦
        ap (get_elem? (set s.seq_finished n true)) (sym same)
        ∙ get_elem?-set_self s.seq_finished n true (omega (arith, m.bits, m.room, lt))
        ∙ ground (arith, same)
    | no other ↦
        get_elem?-set_ne s.seq_finished true other ∙ m.finished i below ∙ ground (arith, other)
  ];
  issued = λ i voted. elim (ℕ_discrete n i) [
    | yes same ↦ omega (arith, same, lt)
    | no other ↦ m.issued i (ground (arith, other, voted))
  ];
  waiting = λ i a at fresh. elim (ℕ_discrete n i) [
    | yes same ↦ absurd (ground (arith, same, fresh))
    | no other ↦
        let (d, e, own) = m.waiting i a at (ground (arith, other, fresh)) in
        (d, lookup-erase_ne n i s.pending_client other ∙ e, own)
  ];
  none_else = λ i le.
      lookup-erase_ne n i s.pending_client (λ e. omega (arith, e, le, lt)) ∙ m.none_else i le;
  even = m.even;
}

-- A reply for a number that has been answered.
pub on_nested_reply_msg-later :
    (s : UdpServer) (clients : List Address) (answered : List ℕ) (n : IntBits)
    → Matches s clients answered
    → listed n answered ≡ true
    → on_nested_reply_msg n s ≡ ok (s, [])
unfolding on_nested_reply_msg
on_nested_reply_msg-later s clients answered n m old =
    let small : (if ltb n (2 ^ 31) then n else n + (2 ^ 64 - 2 ^ 32)) ≡ n =
      ground (arith, m.issued n old, m.room) in
    rw (small, m.finished n (omega (arith, m.issued n old, m.room)), old) refl

-- The first reply for a number.
pub on_nested_reply_msg-first :
    (s : UdpServer) (clients : List Address) (answered : List ℕ) (n : IntBits) (a : Address)
    → Matches s clients answered
    → get_elem? clients n ≡ some a
    → listed n answered ≡ false
    → on_nested_reply_msg n s ≡ ok (answered_for n s, (a, client_reply_message n) ∷ [])
unfolding on_nested_reply_msg
on_nested_reply_msg-first s clients answered n a m at fresh =
    let lt = get_elem?-some_lt clients n at in
    let small : (if ltb n (2 ^ 31) then n else n + (2 ^ 64 - 2 ^ 32)) ≡ n =
      ground (arith, lt, m.room) in
    let (dest, e, own) = m.waiting n a at fresh in
    rw (small, m.finished n (omega (arith, lt, m.room)), fresh, e, own) refl
