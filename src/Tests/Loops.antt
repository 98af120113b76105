-- ===== src/Tests/Loops.antt =====
-- Runs of `send_multiple` of extra/client.cpp.
use morphling_c.Base.{ℕ, ◌≡◌, ◌<◌, refl, Bool, true, List, [], ◌∷◌, length, ok, arith}
use morphling_c.Nested.{Address}
use morphling_c.Loop.{
  ConnectionContext, Arrival, finished, connect, send_multiple, send_loop, send_idle,
  event_base_loop, new_udp_event,
}
use morphling_c.Loop.Idle.{AllWhole, answers}
use morphling_c.Loop.Counts.{Counted, send_multiple-counts}
use morphling_c.Loop.Done.{send_multiple-done}

abbrev server : Address
server = record { ip = 1; port = 40713 }

abbrev always : ℕ → Bool
always n = true

abbrev reply_on : ℕ → Arrival
reply_on i = record { conn = i; type_number = 3; size = 8; available = 8; source = server }

-- A datagram of another type, which is dropped.
abbrev noise_on : ℕ → Arrival
noise_on i = record { conn = i; type_number = 0; size = 8; available = 3; source = server }

abbrev batch : List Arrival
batch = reply_on 1 ∷ noise_on 0 ∷ []

batch-AllWhole : AllWhole batch
batch-AllWhole = (λ e. (omega arith, omega arith), (λ e. absurd (omega (arith, e)), tt))

batch-answers : (i : ℕ) → i < 2 → answers i batch ≡ true
batch-answers i lt = ground (arith, lt)

abbrev batches : List (List Arrival)
batches = batch ∷ batch ∷ batch ∷ []

send_multiple-done_example :
    (sent : List ℕ) × (last : List ConnectionContext) × (send_multiple 3 always server
        (4 ∷ 5 ∷ [])
        batches
      ≡ ok (finished, sent, last))
    × (length sent ≡ 3)
send_multiple-done_example =
    send_multiple-done 3 always server (4 ∷ 5 ∷ []) batches (λ n. refl) (omega arith) (omega arith)
      (
        batch-AllWhole,
        batch-answers,
        (batch-AllWhole, batch-answers, (batch-AllWhole, batch-answers, tt)),
      )
      (omega arith)

-- Two connections share three messages.
three_sent :
    send_multiple 3 always server (4 ∷ 5 ∷ []) batches
    ≡ ok (finished, 4 ∷ 5 ∷ 4 ∷ [], connect server (4 ∷ 5 ∷ []))
unfolding send_multiple send_loop send_idle event_base_loop new_udp_event
three_sent = refl

send_multiple-counts_example :
    Counted 3 always 0 (finished, 4 ∷ 5 ∷ 4 ∷ [], connect server (4 ∷ 5 ∷ []))
send_multiple-counts_example =
    send_multiple-counts 3 always server (4 ∷ 5 ∷ []) batches
      (finished, 4 ∷ 5 ∷ 4 ∷ [], connect server (4 ∷ 5 ∷ [])) (omega arith) three_sent
