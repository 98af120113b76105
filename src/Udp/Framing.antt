-- ===== src/Udp/Framing.antt =====
-- `UDPTransport::__send` (app/server2.cpp) against `SocketTransport::__send` (app/server.cpp).
use morphling_c.Base.{ℕ, ◌^◌, ◌≡◌, ◌<◌, ap, ◌++◌, length, arith}
use morphling_c.Message.{Bytes}
use morphling_c.Wire.{MessageType, header, send_frame}
use morphling_c.Udp.{send_datagram}

-- Below 2 ^ 24 bytes, both write the same.
pub send_datagram_lem :
    (t : MessageType) (payload : Bytes)
    → length payload < 2 ^ 24
    → send_datagram t payload ≡ send_frame t payload
unfolding send_datagram send_frame
send_datagram_lem t payload small = ap (λ (n : ℕ). header t n ++ payload) (omega (arith, small))
