-- ===== src/Wire/Framing.antt =====
-- `full_read` and `recv_msg` (app/utils.cpp) on what has arrived on a connection.
use morphling_c.Base.{
  ℕ, zero, suc, ◌+◌, ◌-◌, ◌≡◌, ◌≤◌, ◌<◌, refl, ap, ◌∙◌, ◌++◌, append_assoc, append-nil, length,
  length-append, length-take, length-drop, take, drop, drop-drop, take-append-slice, leb, leb→le,
  Bool-cases, inl, inr, ok, fault, out_of_range, out_of_fuel, ◌>>=◌, arith,
}
use morphling_c.Message.{Bytes}
use morphling_c.Wire.Buffer.{Bufferevent}
use morphling_c.Wire.{store, full_read}

module _ {In : Type 0} (bev : Bufferevent In) where
  open bev use {read, arrived, count, count_bound, count_arrived, count_some, read_front, read_rest}

  length-read : (n : ℕ) (i : In) → length (read n i).0 ≡ count n i
  length-read n i =
      ap length (read_front n i)
      ∙ length-take (count n i) (arrived i)
      ∙ omega (arith, count_arrived n i)

  -- What is left to arrive after a read.
  length-rest : (n : ℕ) (i : In) → length (arrived (read n i).1) ≡ length (arrived i) - count n i
  length-rest n i = ap length (read_rest n i) ∙ length-drop (count n i) (arrived i)

  store_fits :
      (room n : ℕ) (buf : Bytes) (i : In)
      → length buf + count n i ≤ room
      → store room buf (read n i).0 ≡ ok (buf ++ (read n i).0)
  store_fits room n buf i fits = ground (arith, length-read n i)

  -- What a read returns, and what would come after it.
  read_then :
      (n : ℕ) (i : In)
      → (read n i).0 ++ take (n - length (read n i).0) (arrived (read n i).1) ≡ take n (arrived i)
  read_then n i =
      rw (length-read n i, read_front n i, read_rest n i)
        (take-append-slice (count n i) (n - count n i) (arrived i)
          ∙ ap (λ (k : ℕ). take k (arrived i)) (omega (arith, count_bound n i)))

  rest_then :
      (n : ℕ) (i : In) → drop (n - length (read n i).0) (arrived (read n i).1) ≡ drop n (arrived i)
  rest_then n i =
      rw (length-read n i, read_rest n i)
        (drop-drop (count n i) (n - count n i) (arrived i)
          ∙ ap (λ (k : ℕ). drop k (arrived i)) (omega (arith, count_bound n i)))

  -- If enough bytes have arrived and there is room for them, `full_read` ends within as many turns
  -- as it is asked for bytes: it writes just the bytes asked for, behind what the buffer holds, and
  -- leaves the others.
  pub full_read_lem :
      (fuel cap n : ℕ) (buf : Bytes) (i : In)
      → n ≤ fuel
      → n ≤ length (arrived i)
      → length buf + n ≤ cap
      → (i' : In) × (full_read bev fuel cap buf n i ≡ ok (buf ++ take n (arrived i), i'))
        × (arrived i' ≡ drop n (arrived i))
  unfolding full_read
  full_read_lem fuel cap zero buf i enough there fits = (i, rw (append-nil buf), refl)
  full_read_lem zero cap (suc r) buf i enough there fits = absurd (omega arith)
  full_read_lem (suc fuel) cap (suc r) buf i enough there fits =
      let n = suc r in
      let k = count n i in
      let bound : k ≤ n = count_bound n i in
      let gained : 0 < k = count_some n i (omega arith) (omega arith) in
      let rest =
        full_read_lem fuel cap (n - length (read n i).0) (buf ++ (read n i).0) (read n i).1
          (omega (arith, length-read n i)) (omega (arith, length-read n i, length-rest n i))
          (omega (arith, length-read n i, length-append buf (read n i).0)) in
      (
        rest.0,
        rw (store_fits cap n buf i (omega arith), ◌>>=◌, rest.1, append_assoc, read_then n i),
        rest.2 ∙ rest_then n i,
      )

  -- If fewer bytes have arrived than are asked for, `full_read` does not end, however many turns it
  -- takes.
  pub full_read_short :
      (fuel cap n : ℕ) (buf : Bytes) (i : In)
      → length (arrived i) < n
      → length buf + length (arrived i) ≤ cap
      → full_read bev fuel cap buf n i ≡ fault out_of_fuel
  unfolding full_read
  full_read_short fuel cap zero buf i short fits = absurd (omega arith)
  full_read_short zero cap (suc r) buf i short fits = refl
  full_read_short (suc fuel) cap (suc r) buf i short fits =
      rw (store_fits cap (suc r) buf i (omega (arith, count_arrived (suc r) i)), ◌>>=◌)
        (full_read_short fuel cap (suc r - length (read (suc r) i).0) (buf ++ (read (suc r) i).0)
          (read (suc r) i).1
          (omega (arith, count_arrived (suc r) i, length-read (suc r) i, length-rest (suc r) i))
          (omega (
            arith,
            count_arrived (suc r) i,
            length-rest (suc r) i,
            length-read (suc r) i,
            length-append buf (read (suc r) i).0,
          )))

  -- If the bytes asked for have arrived and there is no room for them, `full_read` writes past the
  -- end of the buffer.
  pub full_read_overflow :
      (fuel cap n : ℕ) (buf : Bytes) (i : In)
      → n ≤ fuel
      → n ≤ length (arrived i)
      → length buf ≤ cap
      → cap < length buf + n
      → full_read bev fuel cap buf n i ≡ fault out_of_range
  unfolding full_read
  full_read_overflow fuel cap zero buf i enough there within over = absurd (omega arith)
  full_read_overflow zero cap (suc r) buf i enough there within over = absurd (omega arith)
  full_read_overflow (suc fuel) cap (suc r) buf i enough there within over =
      elim (Bool-cases (leb (length buf + length (read (suc r) i).0) cap)) [
        | inl fits ↦
            let gained : 0 < count (suc r) i = count_some (suc r) i (omega arith) (omega arith) in
            rw (fits, ◌>>=◌)
              (full_read_overflow fuel cap (suc r - length (read (suc r) i).0)
                (buf ++ (read (suc r) i).0) (read (suc r) i).1
                (omega (arith, length-read (suc r) i))
                (omega (arith, count_bound (suc r) i, length-read (suc r) i, length-rest (suc r) i))
                (omega (arith, leb→le _ _ fits, length-append buf (read (suc r) i).0))
                (omega (
                  arith,
                  count_bound (suc r) i,
                  length-read (suc r) i,
                  length-append buf (read (suc r) i).0,
                )))
        | inr over_now ↦ rw (over_now, ◌>>=◌)
      ]
