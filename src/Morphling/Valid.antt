-- ===== src/Morphling/Valid.antt =====
-- The well-formed replicas of core/morphling.cpp, and what the callbacks of a group do to its
-- replica.
use morphling_c.Base.{
  ℕ, zero, suc, ◌+◌, subst, ◌≡◌, ◌<◌, refl, sym, ap, ◌∙◌, List, [], ◌∷◌, ◌++◌, append-nil,
  append_assoc, some, length, get_elem?, set, ok, arith, get_elem?-set_self, get_elem?-set_ne,
  length-set, get_elem?-some_lt,
}
use native.Mathlib.Decide.{ℕ_discrete}
use mathlib.Core.Option.{some-injective}
use morphling_c.Message.{ReplicaId, GenericMessage}
use morphling_c.Keys.{default_key_space}
use morphling_c.Keys.Owner.{init_local_guidance-owner}
use morphling_c.Smr.{Smr, Callback, send_append_entry, send_append_entry_reply, apply}
use morphling_c.Smr
use morphling_c.Smr.Valid.{init-IsValid, init_gid, init_me, init_peers}
use morphling_c.Guidance.{Guidance}
use morphling_c.Smr.Committing.{applied}
use morphling_c.Morphling.{
  guidance_message, Morphling, init_groups, init, run_callback, run_callbacks, put_group,
}

-- A group that belongs to the replica: valid, with its own number, and with the replica's peers.
pub record IsGroup (m : Morphling) (gid : ℕ) (s : Smr) : Type 0 where
  pub valid : Smr.Valid.IsValid s
  pub number : s.gid ≡ gid
  pub owner : s.me ≡ m.me
  pub fellows : s.peers ≡ m.peers

pub record IsValid (m : Morphling) : Type 0 where
  pub groups : length m.smrs ≡ default_key_space
  pub each : (gid : ℕ) (s : Smr) → get_elem? m.smrs gid ≡ some s → IsGroup m gid s

-- The messages among callbacks, in order.
abbrev pub queued : List Callback → List GenericMessage
queued [] = []
queued (send_append_entry msg ∷ cs) = msg ∷ queued cs
queued (send_append_entry_reply msg ∷ cs) = msg ∷ queued cs
queued (apply es ∷ cs) = queued cs

pub run_callbacks_lem :
    (m : Morphling) (cs : List Callback)
    → run_callbacks m cs ≡ record m {
      next_msgs = m.next_msgs ++ queued cs;
      apply_entries = m.apply_entries ++ applied cs;
    }
unfolding run_callbacks run_callback
run_callbacks_lem m [] = rw (append-nil m.next_msgs, append-nil m.apply_entries)
run_callbacks_lem m (send_append_entry msg ∷ cs) =
    rw (run_callbacks_lem (record m { next_msgs = m.next_msgs ++ msg ∷ [] }) cs, append_assoc)
run_callbacks_lem m (send_append_entry_reply msg ∷ cs) =
    rw (run_callbacks_lem (record m { next_msgs = m.next_msgs ++ msg ∷ [] }) cs, append_assoc)
run_callbacks_lem m (apply es ∷ cs) =
    rw (run_callbacks_lem (record m { apply_entries = m.apply_entries ++ es }) cs, append_assoc)

pub put_group_lem :
    (m : Morphling) (gid : ℕ) (s : Smr) (cs : List Callback)
    → put_group m gid s cs ≡ record m {
      smrs = set m.smrs gid s;
      next_msgs = m.next_msgs ++ queued cs;
      apply_entries = m.apply_entries ++ applied cs;
    }
unfolding put_group
put_group_lem m gid s cs = run_callbacks_lem (record m { smrs = set m.smrs gid s }) cs

-- A replica stays valid if one of its groups is replaced by a valid one of the same number and
-- peers.
pub set-IsValid :
    (m m' : Morphling) (gid : ℕ) (s : Smr)
    → IsValid m
    → m'.me ≡ m.me
    → m'.peers ≡ m.peers
    → m'.smrs ≡ set m.smrs gid s
    → IsGroup m gid s
    → IsValid m'
set-IsValid m m' gid s v own fellow new g = record {
  groups = ap length new ∙ length-set m.smrs gid s ∙ v.groups;
  each = λ k r at. elim (ℕ_discrete gid k) [
    | yes same ↦ here k r same (sym (ap (λ (ss : List Smr). get_elem? ss k) new) ∙ at)
    | no other ↦
        let old : IsGroup m k r = v.each k r (
          sym (get_elem?-set_ne m.smrs s other)
          ∙ sym (ap (λ (ss : List Smr). get_elem? ss k) new)
          ∙ at) in
        moved old
  ];
}
  where
    moved : {k : ℕ} {r : Smr} → IsGroup m k r → IsGroup m' k r
    moved i = record {
      valid = i.valid;
      number = i.number;
      owner = i.owner ∙ sym own;
      fellows = i.fellows ∙ sym fellow;
    }

    here : (k : ℕ) (r : Smr) → gid ≡ k → get_elem? (set m.smrs gid s) k ≡ some r → IsGroup m' k r
    here k r same at =
        subst (λ (x : Smr). IsGroup m' k x) is_s (subst (λ (j : ℕ). IsGroup m' j s) same (moved g))
      where
        is_s : s ≡ r
        is_s = some-injective _ _ (
            sym (
              get_elem?-set_self m.smrs gid s (
                omega (
                  arith,
                  same,
                  length-set m.smrs gid s,
                  get_elem?-some_lt (set m.smrs gid s) k at,
                )))
            ∙ ap (λ (j : ℕ). get_elem? (set m.smrs gid s) j) same
            ∙ at)

init_groups-get :
    (me : ReplicaId) (peers : List ReplicaId) (n gid k : ℕ) (s : Smr)
    → get_elem? (init_groups me peers gid n) k ≡ some s
    → s ≡ Smr.init me peers (gid + k)
unfolding init_groups
init_groups-get me peers zero gid k s e = cc
init_groups-get me peers (suc n) gid zero s e =
    sym (some-injective _ _ e) ∙ ap (Smr.init me peers) (omega arith)
init_groups-get me peers (suc n) gid (suc k) s e =
    init_groups-get me peers n (suc gid) k s e ∙ ap (Smr.init me peers) (omega arith)

length-init_groups :
    (me : ReplicaId) (peers : List ReplicaId) (n gid : ℕ) → length (init_groups me peers gid n) ≡ n
unfolding init_groups
length-init_groups me peers zero gid = refl
length-init_groups me peers (suc n) gid = ap suc (length-init_groups me peers n (suc gid))

-- The replica that the constructor makes.
abbrev pub fresh : Guidance → ReplicaId → List ReplicaId → Morphling
fresh guide id peers = record {
  guide = guide;
  me = id;
  peers = peers;
  smrs = init_groups id peers 0 default_key_space;
  next_msgs = [];
  apply_entries = [];
  client_pendings = [];
  storage = [];
}

pub fresh-IsValid :
    (guide : Guidance) (id : ReplicaId) (peers : List ReplicaId)
    → id < length peers
    → IsValid (fresh guide id peers)
fresh-IsValid guide id peers h = record {
  groups = length-init_groups id peers default_key_space 0;
  each = λ k r at.
      subst (λ (x : Smr). IsGroup (fresh guide id peers) k x)
        (sym (init_groups-get id peers default_key_space 0 k r at)) (new k);
}
  where
    new : (k : ℕ) → IsGroup (fresh guide id peers) k (Smr.init id peers (0 + k))
    new k = record {
      valid = init-IsValid id peers (0 + k) h;
      number = init_gid id peers (0 + k) ∙ omega arith;
      owner = init_me id peers (0 + k);
      fellows = init_peers id peers (0 + k);
    }

-- With three peers, the constructor makes a valid replica, whose guidance has epoch 1.
pub init-fresh :
    (id : ReplicaId) (peers : List ReplicaId)
    → length peers ≡ 3
    → id < 3
    → (g : Guidance) × (init id peers ≡ ok (fresh g id peers))
      × (g.epoch ≡ 1)
      × IsValid (fresh g id peers)
unfolding init
init-fresh id peers three h =
    let started = init_local_guidance-owner peers three in
    (started.0, rw started.1, started.2, fresh-IsValid started.0 id peers (omega (arith, three)))

-- The guidance that a replica sends bears its number.
pub from_me : (m : Morphling) → (guidance_message m).from ≡ m.me
unfolding guidance_message
from_me m = refl
