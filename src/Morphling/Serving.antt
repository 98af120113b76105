-- ===== src/Morphling/Serving.antt =====
-- `Morphling::maybe_apply` and `Morphling::handle_read` (core/morphling.cpp) as a key-value store:
-- a store is a function from keys to bytes, in which a key that was never written reads as no
-- bytes.
use morphling_c.Base.{
  ℕ, ◌≡◌, refl, ap, ◌∙◌, List, [], ◌∷◌, Bool-cases, inl, inr, Option, some, Dict, lookup, insert,
  lookup-insert, ◌==◌, if◌then◌else◌, ok, ◌>>=◌, or_fault, arith,
}
use morphling_c.Message.{Bytes, Entry, Operation}
use morphling_c.Morphling.{
  Morphling, Transport, Send, client_reply, client_reply_of, stored, read_storage, apply_operation,
  parse_operation, apply_entry, apply_all, maybe_apply,
}

abbrev pub Store : Type 0
Store = ℕ → Bytes

-- The replica holds the store.
abbrev pub Holds : Dict Bytes → Store → Type 0
Holds storage f = (key : ℕ) → stored key storage ≡ f key

-- An operation of type 1 writes, and every other one reads.
abbrev pub after : Operation → Store → Store
after op f key =
    if op.op_type == 1 then (if op.key_hash == key then op.payload else f key) else f key

abbrev pub answer : Operation → Store → Bytes
answer op f = if op.op_type == 1 then [] else f op.key_hash

abbrev pub after_all : List Operation → Store → Store
after_all [] f = f
after_all (op ∷ ops) f = after_all ops (after op f)

-- The replies to the clients that wait, in order.
abbrev pub served : Morphling → List Operation → List Transport → Store → List Send
served m [] ts f = []
served m (op ∷ ops) [] f = []
served m (op ∷ ops) (t ∷ ts) f =
    (t, client_reply (client_reply_of m op.key_hash (answer op f))) ∷ served m ops ts (after op f)

stored-insert :
    (key j : ℕ) (bytes : Bytes) (storage : Dict Bytes)
    → stored key (insert j bytes storage) ≡ (if j == key then bytes else stored key storage)
unfolding stored
stored-insert key j bytes storage = ground (arith, lookup-insert j key bytes storage)

stored-read_storage :
    (key j : ℕ) (storage : Dict Bytes) → stored key (read_storage j storage) ≡ stored key storage
unfolding read_storage
stored-read_storage key j storage = ground (arith, stored-insert key j (stored j storage) storage)

apply_operation_lem :
    (op : Operation) (storage : Dict Bytes) (f : Store)
    → Holds storage f
    → Holds (apply_operation op storage).0 (after op f)
      × ((apply_operation op storage).1 ≡ answer op f)
unfolding apply_operation
apply_operation_lem op storage f h = elim (Bool-cases (op.op_type == 1)) [
  | inl write ↦
      (λ key. rw (write, stored-insert key op.key_hash op.payload storage, h key), rw write)
  | inr read ↦ (
    λ key. rw (read, stored-read_storage key op.key_hash storage, h key),
    rw (read, h op.key_hash),
  )
]

module _ (unpack : Bytes → Option Operation) where
  -- The entries unpack to the operations, and for each a client waits.
  pub data Awaited (pendings : Dict Transport)
      : List Entry → List Operation → List Transport → Type 0 where
    nothing_left : Awaited pendings [] [] []
    one_more :
        {e : Entry} {op : Operation} {t : Transport} {es : List Entry} {ops : List Operation}
        {ts : List Transport}
        → unpack e.payload ≡ some op
        → lookup e.index pendings ≡ some t
        → Awaited pendings es ops ts
        → Awaited pendings (e ∷ es) (op ∷ ops) (t ∷ ts)

  apply_entry_lem :
      (m : Morphling) (e : Entry) (op : Operation) (t : Transport)
      → unpack e.payload ≡ some op
      → lookup e.index m.client_pendings ≡ some t
      → apply_entry unpack m e
        ≡ ok (
          record m { storage = (apply_operation op m.storage).0 },
          (t, client_reply (client_reply_of m op.key_hash (apply_operation op m.storage).1)) ∷ [],
        )
  unfolding apply_entry parse_operation
  apply_entry_lem m e op t u w = rw (u, or_fault, ◌>>=◌, w)

  apply_all_lem :
      (p : Dict Transport) (m : Morphling) {es : List Entry} {ops : List Operation}
      {ts : List Transport} (f : Store)
      → m.client_pendings ≡ p
      → Awaited p es ops ts
      → Holds m.storage f
      → (storage : Dict Bytes) × (apply_all unpack m es
          ≡ ok (record m { storage = storage }, served m ops ts f))
        × Holds storage (after_all ops f)
  unfolding apply_all client_reply_of
  apply_all_lem p m f same nothing_left h = (m.storage, refl, h)
  apply_all_lem p m f same (one_more {e} {op} {t} u w more) h =
      let effect = apply_operation_lem op m.storage f h in
      let rest =
        apply_all_lem p (record m { storage = (apply_operation op m.storage).0 }) (after op f) same
          more effect.0 in
      (
        rest.0,
        rw (apply_entry_lem m e op t u (ap (lookup e.index) same ∙ w), ◌>>=◌, rest.1, effect.1),
        rest.2,
      )

  -- Let the storage hold a store, and let a client wait for each entry that is to be applied. Then
  -- `maybe_apply` carries out the operations in order on the store: each waiting client is sent its
  -- reply, in that order, with the bytes that a read finds at its place in the order; the storage
  -- then holds the store after all of them, no entry is left to apply, and nothing else has
  -- changed.
  pub maybe_apply-served :
      (m : Morphling) (ops : List Operation) (ts : List Transport) (f : Store)
      → Awaited m.client_pendings m.apply_entries ops ts
      → Holds m.storage f
      → (storage : Dict Bytes) × (maybe_apply unpack m
          ≡ ok (record m { storage = storage; apply_entries = [] }, served m ops ts f))
        × Holds storage (after_all ops f)
  unfolding maybe_apply
  maybe_apply-served m ops ts f w h =
      let all = apply_all_lem m.client_pendings m f refl w h in (all.0, rw (all.1, ◌>>=◌), all.2)
