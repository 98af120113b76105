-- ===== src/Loop/Idle.antt =====
-- `new_udp_event` of extra/client.cpp: which connections a turn of the event loop leaves idle.
use morphling_c.Base.{
  ℕ, suc, ◌≡◌, ◌≤◌, ◌<◌, ◌⊎◌, inl, inr, refl, sym, ap, ◌∙◌, Bool, true, false, ◌||◌, List, [], ◌∷◌,
  length, length-set, get_elem?, get_elem?-set_self, get_elem?-set_ne, get_elem?-some_lt, set, leb,
  ◌==◌, none, some, Option-cases, ok, ◌>>=◌, min, arith,
}
use native.Mathlib.Decide.{ℕ_discrete}
use morphling_c.Loop.{ConnectionContext, Arrival, event_base_loop, new_udp_event, idle_count}

-- A reply that has arrived as its header says, and fits the buffer; other datagrams are dropped.
abbrev pub AllWhole : List Arrival → Type 0
AllWhole [] = Unit {0}
AllWhole (a ∷ batch) =
    (a.type_number ≡ 3 → (a.size ≤ a.available) × (a.size ≤ 2048)) × AllWhole batch

-- Whether a datagram for a connection is among them.
abbrev pub answers : ℕ → List Arrival → Bool
answers i [] = false
answers i (a ∷ batch) = a.conn == i || answers i batch

-- Each of some batches answers each of `n` connections.
abbrev pub AllAnswered : ℕ → List (List Arrival) → Type 0
AllAnswered n [] = Unit {0}
AllAnswered n (batch ∷ batches) =
    AllWhole batch × ((i : ℕ) → i < n → answers i batch ≡ true) × AllAnswered n batches

-- A connection is idle, if there is one.
abbrev pub IdleAt : List ConnectionContext → ℕ → Type 0
IdleAt conns i = (c : ConnectionContext) → get_elem? conns i ≡ some c → c.status ≡ 0

pub idle_count_all :
    (conns : List ConnectionContext)
    → ((i : ℕ) → i < length conns → IdleAt conns i)
    → idle_count conns ≡ length conns
idle_count_all [] h = refl
idle_count_all (c ∷ conns) h =
    let first : c.status ≡ 0 = h 0 (omega arith) c refl in
    rw first (omega (arith, idle_count_all conns (λ i lt. h (suc i) (omega (arith, lt)))))

new_udp_event_whole :
    (a : Arrival) (c : ConnectionContext)
    → (a.type_number ≡ 3 → (a.size ≤ a.available) × (a.size ≤ 2048))
    → new_udp_event a c ≡ ok (record c { status = 0; udp_dest = a.source })
unfolding new_udp_event
new_udp_event_whole a c whole = elim (ℕ_discrete a.type_number 3) [
  | yes reply ↦
      let (all, fits) = whole reply in
      let read_n : min a.size a.available ≡ a.size = omega (arith, all) in
      let inside : leb a.size 2048 ≡ true = ground (arith, fits) in
      rw (reply, read_n, inside) (ground arith)
  | no other ↦ ground (arith, other)
]

none-some : {A : Type 0} {x : A} → ¬ (none ≡ some x)
none-some {A} {x} e = cc

pub some_injective : {A : Type 0} {x y : A} → some x ≡ some y → x ≡ y
some_injective e = cc

-- A datagram for no connection.
still_missing :
    (a : Arrival) (batch : List Arrival) (conns : List ConnectionContext) (i : ℕ)
    → get_elem? conns a.conn ≡ none
    → IdleAt conns i ⊎ (answers i (a ∷ batch) ≡ true)
    → IdleAt conns i ⊎ (answers i batch ≡ true)
still_missing a batch conns i missing (inl idle) = inl idle
still_missing a batch conns i missing (inr answered) = elim (ℕ_discrete a.conn i) [
  | yes same ↦
      let nobody : get_elem? conns i ≡ none = ap (get_elem? conns) (sym same) ∙ missing in
      inl (λ c at. absurd (none-some (sym nobody ∙ at)))
  | no other ↦ inr (ground (arith, other, answered))
]

-- A datagram that makes its connection idle.
now_idle :
    (a : Arrival) (batch : List Arrival) (conns : List ConnectionContext) (i : ℕ)
    (c : ConnectionContext)
    → get_elem? conns a.conn ≡ some c
    → IdleAt conns i ⊎ (answers i (a ∷ batch) ≡ true)
    → IdleAt (set conns a.conn (record c { status = 0; udp_dest = a.source })) i
      ⊎ (answers i batch ≡ true)
now_idle a batch conns i c at q = elim (ℕ_discrete a.conn i) [
  | yes same ↦ inl (λ c' at'.
      ap (λ (x : ConnectionContext). x.status)
        (sym (
          some_injective (
            sym (
              get_elem?-set_self conns a.conn (record c { status = 0; udp_dest = a.source })
                (get_elem?-some_lt conns a.conn at))
            ∙ ap (get_elem? (set conns a.conn (record c { status = 0; udp_dest = a.source }))) same
            ∙ at'))))
  | no other ↦ elim q [
    | inl idle ↦ inl (λ c' at'.
        idle c'
          (sym (get_elem?-set_ne conns (record c { status = 0; udp_dest = a.source }) other) ∙ at'))
    | inr answered ↦ inr (ground (arith, other, answered))
  ]
]

-- Who is idle stays idle, and who is answered gets idle.
pub event_base_loop-idle :
    (batch : List Arrival) (conns : List ConnectionContext)
    → AllWhole batch
    → (conns' : List ConnectionContext) × (event_base_loop batch conns ≡ ok conns')
      × (length conns' ≡ length conns)
      × ((i : ℕ) → IdleAt conns i ⊎ (answers i batch ≡ true) → IdleAt conns' i)
unfolding event_base_loop
event_base_loop-idle [] conns h =
    (conns, refl, refl, λ i q c at. elim q [ inl idle ↦ idle c at | inr answered ↦ cc ])
event_base_loop-idle (a ∷ batch) conns h = elim (Option-cases (get_elem? conns a.conn)) [
  | inl missing ↦
      let (conns', e, size, idle) = event_base_loop-idle batch conns h.1 in
      (
        conns',
        rw (missing, event_base_loop) e,
        size,
        λ i q. idle i (still_missing a batch conns i missing q),
      )
  | inr (c, at) ↦
      let (conns', e, size, idle) =
        event_base_loop-idle batch (set conns a.conn (record c { status = 0; udp_dest = a.source }))
          h.1 in
      (
        conns',
        rw (at, new_udp_event_whole a c h.0, event_base_loop, ◌>>=◌) e,
        size ∙ length-set conns a.conn (record c { status = 0; udp_dest = a.source }),
        λ i q. idle i (now_idle a batch conns i c at q),
      )
]
