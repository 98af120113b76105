-- ===== src/Morphling/Stamping.antt =====
-- `Morphling::prepare_msgs` (core/morphling.cpp): what becomes of the messages that wait.
use morphling_c.Base.{ℕ, ◌≡◌, refl, List, [], ◌∷◌}
use morphling_c.Message.{ReplicaId, Body, append, append_reply, client, guidance, GenericMessage}
use morphling_c.Morphling.{stamp, stamp_all}

-- What a message becomes that a replica `me` sends in an epoch: those of the log carry both.
abbrev pub Marked : ReplicaId → ℕ → Body → Body → Type 0
Marked me epoch (append old) (append new) =
    (new.from ≡ me)
    × (new.epoch ≡ epoch)
    × (new.prev_term ≡ old.prev_term)
    × (new.prev_index ≡ old.prev_index)
    × (new.commit ≡ old.commit)
    × (new.group_id ≡ old.group_id)
    × (new.entries ≡ old.entries)
Marked me epoch (append_reply old) (append_reply new) =
    (new.from ≡ me)
    × (new.epoch ≡ epoch)
    × (new.success ≡ old.success)
    × (new.group_id ≡ old.group_id)
    × (new.index ≡ old.index)
Marked me epoch (client old) new = new ≡ client old
Marked me epoch (guidance old) new = new ≡ guidance old
Marked me epoch _ _ = ⊥

abbrev pub AllMarked : ReplicaId → ℕ → List GenericMessage → List GenericMessage → Type 0
AllMarked me epoch [] [] = Unit {0}
AllMarked me epoch (old ∷ olds) (new ∷ news) =
    (new.to ≡ old.to) × Marked me epoch old.body new.body × AllMarked me epoch olds news
AllMarked me epoch _ _ = ⊥

pub stamp_all-AllMarked :
    (me : ReplicaId) (epoch : ℕ) (msgs : List GenericMessage)
    → AllMarked me epoch msgs (stamp_all me epoch msgs)
unfolding stamp_all stamp
stamp_all-AllMarked me epoch [] = tt
stamp_all-AllMarked me epoch (msg ∷ msgs) = (refl, mark msg.body, stamp_all-AllMarked me epoch msgs)
  where
    mark : (body : Body) → Marked me epoch body (stamp me epoch body)
    mark (append old) = (refl, refl, refl, refl, refl, refl, refl)
    mark (append_reply old) = (refl, refl, refl, refl, refl)
    mark (client old) = refl
    mark (guidance old) = refl
