-- ===== src/Udp/Socket.antt =====
-- `recvfrom` on a socket of datagrams, as app/server2.cpp calls it.
use morphling_c.Base.{ℕ}
use morphling_c.Message.{Bytes}
use morphling_c.Morphling.{Transport}

-- With `MSG_PEEK` the call returns the first bytes of the datagram that comes next, as many as it
-- is asked for at most, and leaves it; so it is a function of the state, which it does not change.
-- Without, the datagram is taken, and its sender is named.
pub record DatagramSocket (In : Type 0) : Type 0 where
  pub peek : ℕ → In → Bytes
  pub recvfrom : ℕ → In → Bytes × Transport × In
