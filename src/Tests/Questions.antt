-- ===== src/Tests/Questions.antt =====
-- Runs of the servers of extra/server.cpp and extra/echo_server.cpp.
use morphling_c.Base.{
  lookup, ℕ, ◌+◌, ◌≡◌, refl, true, false, List, [], ◌∷◌, ◌++◌, some, Dict, get_elem?, ok, fault,
  arith,
}
use morphling_c.Message.{Bytes}
use morphling_c.Nested.{Address, UdpServer, Datagram, serve}
use morphling_c.Nested.Answers.{answers, addresses, requests, Honest}
use morphling_c.Nested.Serving.{started, serve_lem, serve-answers}
use morphling_c.Nested.Peers.{AllDistinct, configured}
use morphling_c.Gauge.{loop_time}
use morphling_c.Echo
use morphling_c.Echo.Times
use morphling_c.Echo.{EchoServer}
use morphling_c.Echo.Times.{replies, measured, serve-measured}
use morphling_c.Nested.Once.{answers_to, replied, answered_once}
use morphling_c.Nested.Stray.{stray_fault, stray_reply}

abbrev texts : Dict Bytes
texts = (0, 1 ∷ []) ∷ (1, 2 ∷ []) ∷ (2, 3 ∷ []) ∷ []

abbrev ports : Dict ℕ
ports = (0, 40713) ∷ (1, 40714) ∷ (2, 40715) ∷ []

texts-AllDistinct : AllDistinct texts
unfolding lookup
texts-AllDistinct = (refl, (refl, (refl, tt)))

-- Texts stand for the addresses.
abbrev address_of : Bytes → ℕ
address_of [] = 0
address_of (b ∷ bytes) = b

abbrev text_of : ℕ → Bytes
text_of n = n ∷ []

abbrev from : ℕ → ℕ → ℕ → Datagram
from ip kind n = record {
  type_number = kind;
  data_int = n;
  binary_start = 0;
  addr = record { ip = ip; port = 40714 };
  start = 10;
  end = 12;
}

-- Two requests, a question, three replies, and a datagram of another type.
abbrev arrivals : List Datagram
arrivals =
    from 7 0 5 ∷ from 2 2 0 ∷ from 3 1 4 ∷ from 8 0 5 ∷ from 3 2 0 ∷ from 3 2 1 ∷ from 9 3 0 ∷ []

arrivals-Honest : Honest 0 arrivals
arrivals-Honest =
    (omega arith, (omega arith, (refl, (omega arith, (omega arith, (omega arith, tt))))))

-- What the first of them does.
answers-arrivals : answers_to 0 (answers 0 [] [] [] arrivals) ≡ record { ip = 7; port = 40714 } ∷ []
answers-arrivals = refl

-- The server after them.
outcome :
    (s' : UdpServer) × (serve address_of text_of arrivals
        (started address_of text_of 5 0 texts ports)
      ≡ ok (
        s',
        answers 0 (addresses (started address_of text_of 5 0 texts ports).peer_info) [] [] arrivals,
      ))
outcome = serve_lem address_of text_of 5 0 texts ports arrivals arrivals-Honest

serve-answers_example :
    (s' : UdpServer) × (serve address_of text_of arrivals
        (started address_of text_of 5 0 texts ports)
      ≡ ok (s', answers 0 (configured address_of text_of texts ports) [] [] arrivals))
serve-answers_example =
    serve-answers address_of text_of 5 0 texts ports arrivals texts-AllDistinct arrivals-Honest

answered_once_example :
    (replied 1 arrivals ≡ true
      → (a : Address) × (get_elem? (requests arrivals) 1 ≡ some a)
        × (answers_to 1 (
              answers 0
                (addresses (started address_of text_of 5 0 texts ports).peer_info)
                []
                []
                arrivals)
            ≡ a ∷ []))
    × (replied 1 arrivals ≡ false
        → answers_to 1 (
            answers 0
              (addresses (started address_of text_of 5 0 texts ports).peer_info)
              []
              []
              arrivals)
          ≡ [])
answered_once_example =
    answered_once address_of text_of 5 0 texts ports arrivals outcome.0
      (answers 0 (addresses (started address_of text_of 5 0 texts ports).peer_info) [] [] arrivals)
      1 arrivals-Honest outcome.1

stray_reply_example :
    serve address_of text_of
      (arrivals ++ from 9 2 77 ∷ [])
      (started address_of text_of 5 0 texts ports)
    ≡ fault (stray_fault 77)
stray_reply_example =
    stray_reply address_of text_of 5 0 texts ports arrivals [] (from 9 2 77) arrivals-Honest refl
      (omega arith)

-- A request, a datagram of another type, and a request.
abbrev echo_of : ℕ → ℕ → ℕ → Echo.Datagram
echo_of ip kind now = record {
  type_number = kind;
  addr = record { ip = ip; port = 9 };
  handling = now;
  peeking = now + 1;
  peeked = now + 2;
  receiving = now + 3;
  replied = now + 4;
  handled = now + 5;
}

abbrev echoes : List Echo.Datagram
echoes = echo_of 7 0 10 ∷ echo_of 8 3 20 ∷ echo_of 9 0 90 ∷ []

-- The second request is measured from 20, and not from 90.
measured-echoes : measured 0 [] echoes ≡ loop_time 0 (10, 15) ∷ loop_time 1 (20, 95) ∷ []
measured-echoes = refl

serve-measured_example :
    (s' : EchoServer) × (Echo.serve echoes (Times.started address_of text_of 5 0 texts ports)
      ≡ ok (s', replies echoes, measured 0 [] echoes))
serve-measured_example = serve-measured address_of text_of 5 0 texts ports echoes
