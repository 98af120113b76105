-- ===== src/Wire/Buffer.antt =====
-- `bufferevent_read` of libevent, which the code under app/ calls to take bytes from a connection.
use morphling_c.Base.{ℕ, ◌≡◌, ◌≤◌, ◌<◌, length, take, drop}
use morphling_c.Message.{Bytes}

-- What the documentation of libevent says of it: a read removes bytes from the front of those that
-- have arrived, no more than it is asked for, and it removes some if it is asked for some and some
-- are there.
pub record Bufferevent (In : Type 0) : Type 0 where
  pub read : ℕ → In → Bytes × In
  pub arrived : In → Bytes
  pub count : ℕ → In → ℕ
  pub count_bound : (n : ℕ) (i : In) → count n i ≤ n
  pub count_arrived : (n : ℕ) (i : In) → count n i ≤ length (arrived i)
  pub count_some : (n : ℕ) (i : In) → 0 < n → 0 < length (arrived i) → 0 < count n i
  pub read_front : (n : ℕ) (i : In) → (read n i).0 ≡ take (count n i) (arrived i)
  pub read_rest : (n : ℕ) (i : In) → arrived (read n i).1 ≡ drop (count n i) (arrived i)
