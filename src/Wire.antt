-- ===== src/Wire.antt =====
-- app/utils.cpp, and the framing of `SocketTransport` in app/server.cpp: how a message travels as
-- bytes.
pub mod Buffer
pub mod Framing
pub mod Receiving
pub mod Addresses
use Prim.Native.Nat.{bit_or}
use morphling_c.Base.{
  ℕ, zero, suc, ◌+◌, ◌-◌, ◌*◌, ◌/◌, ◌%◌, ◌^◌, Bool, true, false, List, [], ◌∷◌, ◌++◌, length,
  get_or, ltb, leb, ◌==◌, if◌then◌else◌, Option, none, some, Result, ok, fault, out_of_range,
  out_of_fuel, aborted, ◌>>=◌, ◌>>◌, guard,
}
use morphling_c.Message.{Bytes, Operation, ClientMessage}
use morphling_c.Wire.Buffer.{Bufferevent}

pub data MessageType : Type 0 where
  unknown append append_reply client client_reply guidance get_guidance : MessageType

-- `type & 0xFF`
unfoldable pub type_byte : MessageType → ℕ
type_byte unknown = 0xff
type_byte append = 0
type_byte append_reply = 1
type_byte client = 2
type_byte client_reply = 3
type_byte guidance = 4
type_byte get_guidance = 5

-- The cast and the test in `recv_msg`.
unfoldable pub type_of : ℕ → MessageType
type_of byte =
    if byte == 0
    then append
    else (if byte == 1
        then append_reply
        else (if byte == 2
            then client
            else (if byte == 3
                then client_reply
                else (if byte == 4
                    then guidance
                    else (if byte == 5 then get_guidance else unknown)))))

-- `(size >> (i * 8)) & 0xFF`
abbrev pub size_byte : ℕ → ℕ → ℕ
size_byte i size = size / 2 ^ (8 * i) % 2 ^ 8

-- The four bytes before a payload. The fourth byte of the size is overwritten with the type.
abbrev pub header : MessageType → ℕ → Bytes
header t size = size_byte 0 size ∷ size_byte 1 size ∷ size_byte 2 size ∷ type_byte t ∷ []

-- What `SocketTransport::__send` writes.
unfoldable pub send_frame : MessageType → Bytes → Bytes
send_frame t payload = header t (length payload) ++ payload

-- The loop in `recv_msg` over the first three bytes.
pub payload_size : Bytes → ℕ
payload_size buf =
    bit_or (bit_or (bit_or 0 (get_or buf 0 0)) (get_or buf 1 0 * 2 ^ 8)) (get_or buf 2 0 * 2 ^ 16)

-- `pack_get_guiddance`
unfoldable pub pack_get_guidance : Bytes
pack_get_guidance = 0 ∷ 0 ∷ 0 ∷ type_byte get_guidance ∷ []

-- `msgpack::pack` of an operation and of a client's message are parameters. The size is a
-- `uint32_t`.
module _ (pack_op : Operation → Bytes) (pack_msg : ClientMessage → Bytes) where
  unfoldable pub pack_operation : Operation → ClientMessage → Result Bytes
  pack_operation op msg = do
    let msg_buf = pack_msg (record msg { op = pack_op op })
    guard (ltb (length msg_buf) 2000) aborted
    ok (header client (length msg_buf % 2 ^ 32) ++ msg_buf)

-- A turn of the loop in `full_read`: `got` is written behind what the buffer of `cap` bytes holds.
abbrev pub store : ℕ → Bytes → Bytes → Result Bytes
store cap buf got =
    if leb (length buf + length got) cap then ok (buf ++ got) else fault out_of_range

-- Reading from a connection.
module _ {In : Type 0} (bev : Bufferevent In) where
  open bev use {read}

  -- A read returns no more bytes than it is asked for.
  pub full_read : ℕ → ℕ → Bytes → ℕ → In → Result (Bytes × In)
  full_read fuel cap buf zero i = ok (buf, i)
  full_read zero cap buf (suc remain) i = fault out_of_fuel
  full_read (suc fuel) cap buf (suc remain) i = store cap buf (read (suc remain) i).0 >>= λ buf'.
      full_read fuel cap buf' (suc remain - length (read (suc remain) i).0) (read (suc remain) i).1

  -- Read and drop, `size` bytes at most in a turn, until there is nothing.
  pub drain_read : ℕ → ℕ → In → Result In
  drain_read zero size i = fault out_of_fuel
  drain_read (suc fuel) size i = elim (length (read size i).0) [
    | zero ↦ ok (read size i).1
    | suc _ ↦ drain_read fuel size (read size i).1
  ]

  -- The part of `recv_msg` after the header.
  pub recv_payload : ℕ → ℕ → MessageType → ℕ → In → Result (MessageType × Bytes × In)
  recv_payload fuel cap unknown size i = ok (unknown, [], i)
  recv_payload fuel cap t size i = do
    (payload, i') ← full_read fuel cap [] size i
    ok (t, payload, i')

  pub recv_msg : ℕ → ℕ → In → Result (MessageType × Bytes × In)
  recv_msg fuel cap i = do
    (buf, i') ← full_read fuel cap [] 4 i
    recv_payload fuel cap (type_of (get_or buf 3 0)) (payload_size buf) i'

-- `parse_addr`: the text up to the first comma, and what follows that comma.
pub break_comma : Bytes → Bytes × Option Bytes
break_comma [] = ([], none)
break_comma (c ∷ cs) =
    let rest = break_comma cs in if c == b',' then ([], some cs) else (c ∷ rest.0, rest.1)

-- The loop, which goes on while it finds a comma.
pub parse_addr : ℕ → Bytes → Result (List Bytes)
parse_addr zero arg = fault out_of_fuel
parse_addr (suc fuel) arg = elim (break_comma arg).1 [
  | none ↦ ok ((break_comma arg).0 ∷ [])
  | some rest ↦ (do more ← parse_addr fuel rest; ok ((break_comma arg).0 ∷ more))
]
