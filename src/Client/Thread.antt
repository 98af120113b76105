-- ===== src/Client/Thread.antt =====
-- `thread_run` of app/client2.cpp: the loops in which a thread drives its clients. What a call of the
-- event loop does is given: the messages that arrive, or how it fails.
pub mod Keeps
pub mod Turns
pub mod Done
use morphling_c.Base.{
  ℕ, zero, suc, ◌+◌, Bool, true, false, ◌&&◌, List, [], ◌∷◌, ◌++◌, Option, none, some, length, set,
  get_elem?, if◌then◌else◌, Result, ok, out_of_range, or_fault, ◌>>=◌,
}
use morphling_c.Message.{Bytes, ReplicaId, Operation, ClientMessage}
use morphling_c.Client.{Client, Reply, is_idle, check_setup, handle_reply, handle_ur_reply}
use morphling_c.Client.Sending.{Outgoing, Options, one_send}

-- A message to the client with an index, on its connection to a replica.
abbrev pub Delivery : Type 0
Delivery = ℕ × ReplicaId × Reply

-- `event_base_loop` with `EVLOOP_ONCE`: it runs callbacks, while the clients of other threads take so
-- many numbers from `g_sent_nums`; or it returns -1; or 1, with nothing left to wait for.
pub data Loop : Type 0 where
  ran : ℕ → List Delivery → Loop
  failed no_events : Loop

-- The callback of a connection.
unfoldable pub deliver : Options → List Client → Delivery → Result (List Client)
deliver cfg cs (i, id, msg) = do
  c ← or_fault (get_elem? cs i) out_of_range
  c' ← if cfg.unreplicated_read then handle_ur_reply c id msg else handle_reply c id msg
  ok (set cs i c')

unfoldable pub deliver_all : Options → List Client → List Delivery → Result (List Client)
deliver_all cfg cs [] = ok cs
deliver_all cfg cs (d ∷ ds) = do cs' ← deliver cfg cs d; deliver_all cfg cs' ds

-- The first loop, until `check_setup` agrees or the event loop fails. Also what is left of the turns,
-- and whether it has ended. That nothing is left to wait for is only logged.
unfoldable pub setup_loop :
    Options → List Client → List Loop → Result (List Client × List Loop × Bool)
setup_loop cfg cs [] = ok (cs, [], false)
setup_loop cfg cs (failed ∷ turns) = ok (cs, turns, true)
setup_loop cfg cs (no_events ∷ turns) = do
  (cs', setup) ← check_setup cs
  elim setup [ true ↦ ok (cs', turns, true) | false ↦ setup_loop cfg cs' turns ]
setup_loop cfg cs (ran others ds ∷ turns) = do
  cs' ← deliver_all cfg cs ds
  (cs'', setup) ← check_setup cs'
  elim setup [ true ↦ ok (cs'', turns, true) | false ↦ setup_loop cfg cs'' turns ]

unfoldable pub all_idle : List Client → Bool
all_idle [] = true
all_idle (c ∷ cs) = is_idle c.status && all_idle cs

-- How the second loop ends: all requests are done, or the event loop gives up, or it goes on past the
-- turns that are given.
pub data Ending : Type 0 where
  all_done gave_up goes_on : Ending

module _ (pack_op : Operation → Bytes) (pack_msg : ClientMessage → Bytes) where
  -- `one_ready_client`, and `one_send` of the client that it finds; also that client as it is then.
  unfoldable pub send_ready :
      Options → ℕ → List Client → Result (List Client × ℕ × Option Client × List Outgoing)
  send_ready cfg sent [] = ok ([], sent, none, [])
  send_ready cfg sent (c ∷ cs) =
      if is_idle c.status
      then (do
        (c', sent', out) ← one_send pack_op pack_msg cfg sent c
        ok (c' ∷ cs, sent', some c', out))
      else (do (cs', sent', ready, out) ← send_ready cfg sent cs; ok (c ∷ cs', sent', ready, out))

  -- `has_finish_all` of a client that was ready, with all clients idle.
  abbrev pub finished : Option Client → List Client → Bool
  finished none cs = false
  finished (some c) cs = c.finish_all_msg && all_idle cs

  -- The second loop. Also the shared count, all that went out, and how it ended.
  unfoldable pub request_loop :
      Options → ℕ → List Client → List Loop → Result (List Client × ℕ × List Outgoing × Ending)
  request_loop cfg sent cs [] = do
    (cs', sent', ready, out) ← send_ready cfg sent cs
    ok (cs', sent', out, if finished ready cs' then all_done else goes_on)
  request_loop cfg sent cs (turn ∷ turns) = do
    (cs', sent', ready, out) ← send_ready cfg sent cs
    elim (finished ready cs') [
      | true ↦ ok (cs', sent', out, all_done)
      | false ↦ elim turn [
        | failed ↦ ok (cs', sent', out, gave_up)
        | no_events ↦ ok (cs', sent', out, gave_up)
        | ran others ds ↦ (do
          cs'' ← deliver_all cfg cs' ds
          (last, count, more, ending) ← request_loop cfg (sent' + others) cs'' turns
          ok (last, count, out ++ more, ending))
      ]
    ]
