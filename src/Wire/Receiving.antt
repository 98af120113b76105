-- ===== src/Wire/Receiving.antt =====
-- Messages over a connection: what `SocketTransport::__send` (app/server.cpp) and `pack_operation`
-- write, `recv_msg` (app/utils.cpp) reads.
use Prim.Native.Nat.{bit_or}
use morphling_c.Base.{
  ℕ, ◌+◌, ◌*◌, ◌/◌, ◌%◌, ◌^◌, ◌≡◌, ◌≢◌, ◌≤◌, ◌<◌, ◌⊎◌, inl, inr, refl, ap, ◌∙◌, [], ◌++◌, length,
  length-append, drop, take-append_length, drop-append_length, ltb, ltb→lt, Bool-cases, ok, fault,
  out_of_range, out_of_fuel, aborted, ◌>>=◌, arith,
}
use morphling_c.Base.Bits.{bit_or_high, bit_or_low}
use morphling_c.Message.{Bytes, Operation, ClientMessage}
use morphling_c.Wire.Buffer.{Bufferevent}
use morphling_c.Wire.{
  MessageType, unknown, append, append_reply, client, client_reply, guidance, get_guidance,
  type_byte, type_of, header, send_frame, payload_size, pack_operation, full_read, recv_payload,
  recv_msg,
}
use morphling_c.Wire.Framing.{full_read_lem, full_read_short, full_read_overflow}

pub type_of-type_byte : (t : MessageType) → t ≢ unknown → type_of (type_byte t) ≡ t
unfolding type_of type_byte
type_of-type_byte unknown h = absurd (h refl)
type_of-type_byte append h = refl
type_of-type_byte append_reply h = refl
type_of-type_byte client h = refl
type_of-type_byte client_reply h = refl
type_of-type_byte guidance h = refl
type_of-type_byte get_guidance h = refl

-- A size below 2 ^ 24 is read back from its three bytes.
pub payload_size-header : (t : MessageType) (n : ℕ) → n < 2 ^ 24 → payload_size (header t n) ≡ n
unfolding payload_size
payload_size-header t n small =
    ap (λ (x : ℕ). bit_or (bit_or x (n / 256 % 256 * 2 ^ 8)) (n / 65536 % 256 * 2 ^ 16)) none_yet
    ∙ ap (λ (x : ℕ). bit_or x (n / 65536 % 256 * 2 ^ 16)) two
    ∙ bit_or_low 16 (n / 65536 % 256) (n / 256 % 256 * 2 ^ 8 + n % 256) (omega arith)
    ∙ omega arith
  where
    none_yet : bit_or 0 (n / 1 % 256) ≡ n % 256
    none_yet = bit_or_high 8 0 (n / 1 % 256) (omega arith) ∙ omega arith

    two : bit_or (n % 256) (n / 256 % 256 * 2 ^ 8) ≡ n / 256 % 256 * 2 ^ 8 + n % 256
    two = bit_or_low 8 (n / 256 % 256) (n % 256) (omega arith)

module _ {In : Type 0} (bev : Bufferevent In) where
  open bev use {arrived}

  recv_payload_lem :
      (fuel room : ℕ) (t : MessageType) (size : ℕ) (i : In)
      → t ≢ unknown
      → recv_payload bev fuel room t size i
        ≡ (full_read bev fuel room [] size i >>= λ p. ok (t, p.0, p.1))
  unfolding recv_payload
  recv_payload_lem fuel room unknown size i h = absurd (h refl)
  recv_payload_lem fuel room append size i h = refl
  recv_payload_lem fuel room append_reply size i h = refl
  recv_payload_lem fuel room client size i h = refl
  recv_payload_lem fuel room client_reply size i h = refl
  recv_payload_lem fuel room guidance size i h = refl
  recv_payload_lem fuel room get_guidance size i h = refl

  -- After a header, `recv_msg` goes on to read as many bytes as it says.
  after_header :
      (fuel room : ℕ) (t : MessageType) (size : ℕ) (rest : Bytes) (i : In)
      → t ≢ unknown
      → arrived i ≡ header t size ++ rest
      → size < 2 ^ 24
      → 4 ≤ fuel
      → 4 ≤ room
      → (i' : In) × (arrived i' ≡ rest)
        × (recv_msg bev fuel room i
            ≡ (full_read bev fuel room [] size i' >>= λ p. ok (t, p.0, p.1)))
  unfolding recv_msg
  after_header fuel room t size rest i known come small enough fits =
      let four : length (arrived i) ≡ 4 + length rest = ap length come ∙ omega arith in
      let first = full_read_lem bev fuel room 4 [] i enough (omega arith) fits in
      (
        first.0,
        first.2 ∙ ap (drop 4) come,
        rw (first.1, ◌>>=◌, come, payload_size-header t size small, type_of-type_byte t known)
            (recv_payload_lem fuel room t size first.0 known),
      )

  -- What `SocketTransport::__send` writes for a payload of any known type, below 2 ^ 24 bytes and
  -- no longer than the buffer, `recv_msg` reads back: the type and the payload, and what follows on
  -- the connection is left there.
  pub recv_msg-send_frame :
      (fuel room : ℕ) (t : MessageType) (payload rest : Bytes) (i : In)
      → t ≢ unknown
      → arrived i ≡ send_frame t payload ++ rest
      → length payload < 2 ^ 24
      → length payload ≤ room
      → length payload ≤ fuel
      → 4 ≤ room
      → 4 ≤ fuel
      → (i' : In) × (recv_msg bev fuel room i ≡ ok (t, payload, i')) × (arrived i' ≡ rest)
  unfolding send_frame
  recv_msg-send_frame fuel room t payload rest i known come small fits enough space turns =
      let h =
        after_header fuel room t (length payload) (payload ++ rest) i known come small turns
          space in
      let gained : length (arrived h.0) ≡ length payload + length rest =
        ap length h.1 ∙ length-append payload rest in
      let p =
        full_read_lem bev fuel room (length payload) [] h.0 enough (omega arith) (omega arith) in
      (
        p.0,
        rw (h.2, p.1, ◌>>=◌, h.1, take-append_length payload rest),
        p.2 ∙ rw h.1 (drop-append_length payload rest),
      )

  -- A message whose payload has not wholly arrived keeps `recv_msg` turning for ever, since nothing
  -- else can run that would let the rest arrive.
  pub recv_msg_short :
      (fuel room : ℕ) (t : MessageType) (size : ℕ) (part : Bytes) (i : In)
      → t ≢ unknown
      → arrived i ≡ header t size ++ part
      → size < 2 ^ 24
      → length part < size
      → length part ≤ room
      → 4 ≤ room
      → 4 ≤ fuel
      → recv_msg bev fuel room i ≡ fault out_of_fuel
  recv_msg_short fuel room t size part i known come small short fits space turns =
      let h = after_header fuel room t size part i known come small turns space in
      let left : length (arrived h.0) ≡ length part = ap length h.1 in
      rw (h.2, full_read_short bev fuel room size [] h.0 (omega arith) (omega arith), ◌>>=◌)

  -- A message whose payload has arrived and is longer than the buffer makes `recv_msg` write past
  -- the end of the buffer.
  pub recv_msg_overflow :
      (fuel room : ℕ) (t : MessageType) (payload : Bytes) (i : In)
      → t ≢ unknown
      → arrived i ≡ send_frame t payload
      → length payload < 2 ^ 24
      → room < length payload
      → length payload ≤ fuel
      → 4 ≤ room
      → recv_msg bev fuel room i ≡ fault out_of_range
  unfolding send_frame
  recv_msg_overflow fuel room t payload i known come small over enough space =
      let h =
        after_header fuel room t (length payload) payload i known come small (omega arith) space in
      let left : length (arrived h.0) ≡ length payload = ap length h.1 in
      rw (
        h.2,
        full_read_overflow bev fuel room (length payload) [] h.0 enough (omega arith) (omega arith)
            (omega arith),
        ◌>>=◌,
      )

  -- `pack_operation` aborts on a packed message of 2000 bytes or more. Any other it frames as a
  -- client's message, and when that has arrived, `recv_msg` with a buffer of 2048 bytes reads back
  -- the packed message, in which the operation stands packed.
  pub recv_msg-pack_operation :
      (pack_op : Operation → Bytes) (pack_msg : ClientMessage → Bytes) (op : Operation)
      (msg : ClientMessage)
      → let packed = pack_msg (record msg { op = pack_op op }) in
        ((2000 ≤ length packed) × (pack_operation pack_op pack_msg op msg ≡ fault aborted))
        ⊎ ((bytes : Bytes) × (pack_operation pack_op pack_msg op msg ≡ ok bytes)
            × ((fuel : ℕ) (rest : Bytes) (i : In)
                → 2048 ≤ fuel
                → arrived i ≡ bytes ++ rest
                → (i' : In) × (recv_msg bev fuel 2048 i ≡ ok (client, packed, i'))
                  × (arrived i' ≡ rest)))
  unfolding pack_operation send_frame
  recv_msg-pack_operation pack_op pack_msg op msg =
      let packed = pack_msg (record msg { op = pack_op op }) in
      elim (Bool-cases (ltb (length packed) 2000)) [
        | inl small ↦ inr (
          send_frame client packed,
          rw (small, ◌>>=◌)
              (ap (λ (n : ℕ). ok (header client n ++ packed)) (omega (arith, ltb→lt _ _ small))),
          λ fuel rest i enough come.
              recv_msg-send_frame fuel 2048 client packed rest i (λ e. cc) come
                (omega (arith, ltb→lt _ _ small)) (omega (arith, ltb→lt _ _ small))
                (omega (arith, ltb→lt _ _ small)) (omega arith) (omega arith),
        )
        | inr large ↦ inl (ground arith, rw (large, ◌>>=◌))
      ]
