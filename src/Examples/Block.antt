-- ===== src/Examples/Block.antt =====
-- The theorems of `Block` at a concrete block.
use mpt_flat_poc.Prelude.{ℕ, ◌≡◌, refl, some, none, List, [], ◌∷◌, list_eqb, precedes}
use mpt_flat_poc.Block.{StateOp, delete_account, wipe_storage, set_storage, delete_storage}
use mpt_flat_poc.Block.Normalize.{normalize_block, recreate}
use mpt_flat_poc.Block.Scan.{scan_ops}
use mpt_flat_poc.Block.Index.{normalize_block-scan}
use mpt_flat_poc.Block.Effect.{World, no_slots, run_block}
use mpt_flat_poc.Block.Outcome.{net_world, slots-net_world, fields-net_world}
use mpt_flat_poc.Result.{ok}

-- Two accounts; the first is destroyed, created anew by a slot write, and written twice.
abbrev ops : List (List ℕ × StateOp)
ops =
    (1 ∷ [], set_storage (5 ∷ []) (9 ∷ []))
    ∷ (1 ∷ [], delete_account)
    ∷ (1 ∷ [], set_storage (7 ∷ []) (2 ∷ []))
    ∷ (0 ∷ [], wipe_storage)
    ∷ (1 ∷ [], delete_storage (8 ∷ []))
    ∷ (1 ∷ [], set_storage (7 ∷ []) (3 ∷ []))
    ∷ []

abbrev world : World
world key = record { fields = some (4, 100, []); slots = λ s. some (6 ∷ []) }

normalize_block-scan_example : normalize_block ops ≡ ok (scan_ops [] ops)
normalize_block-scan_example = normalize_block-scan ops

slots-net_world_example :
    (net_world world (scan_ops [] ops) (1 ∷ [])).slots (7 ∷ [])
    ≡ (run_block world ops (1 ∷ [])).slots (7 ∷ [])
slots-net_world_example =
    slots-net_world world ops (scan_ops [] ops) (1 ∷ []) (7 ∷ []) (normalize_block-scan ops)

fields-net_world_example :
    (net_world world (scan_ops [] ops) (1 ∷ [])).fields ≡ (run_block world ops (1 ∷ [])).fields
unfolding list_eqb precedes recreate scan_ops
fields-net_world_example =
    fields-net_world world ops (scan_ops [] ops) (1 ∷ []) (normalize_block-scan ops) refl

-- A slot set and deleted again in one block creates a missing account in sequence, and does not in
-- the net update.
abbrev touched : List (List ℕ × StateOp)
touched = (1 ∷ [], set_storage (5 ∷ []) (9 ∷ [])) ∷ (1 ∷ [], delete_storage (5 ∷ [])) ∷ []

abbrev nobody : World
nobody key = record { fields = none; slots = no_slots }

touched_net : (net_world nobody (scan_ops [] touched) (1 ∷ [])).fields ≡ none
unfolding net_world scan_ops list_eqb recreate
touched_net = refl

touched_sequence : ((run_block nobody touched (1 ∷ [])).fields ≡ none) → ⊥
unfolding run_block list_eqb
touched_sequence e = cc
