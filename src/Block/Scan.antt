-- ===== src/Block/Scan.antt =====
-- src/lib.rs: what `normalize_block` computes, with a scan of the account's slots for each operation
-- and no index.
use mpt_flat_poc.Prelude.{ℕ, suc, true, Option, none, some, List, [], ◌∷◌, list_eqb, if◌then◌else◌}
use mpt_flat_poc.Block.{
  StateOp, set_account, delete_account, wipe_storage, set_storage, delete_storage, set_fields,
  delete, SlotUpdate, NetUpdate, is_delete,
}
use mpt_flat_poc.Block.Normalize.{Updates, net_at, put_net, recreate}

-- The last write to a slot wins, at the place of the first.
unfoldable pub put_slot : List SlotUpdate → List ℕ → Option (List ℕ) → List SlotUpdate
put_slot [] slot v = (slot, v) ∷ []
put_slot (u ∷ us) slot v =
    let rest = put_slot us slot v in if list_eqb slot u.0 then (u.0, v) ∷ us else u ∷ rest

-- One place further, and the place behind the last where there is none.
abbrev pub further : Option ℕ → Option ℕ
further none = none
further (some i) = some (suc i)

abbrev pub or_end : ℕ → Option ℕ → Option ℕ
or_end n none = some n
or_end n (some i) = some i

-- The position of a slot.
unfoldable pub position : List SlotUpdate → List ℕ → Option ℕ
position [] slot = none
position (u ∷ us) slot =
    let rest = position us slot in if list_eqb slot u.0 then some 0 else further rest

unfoldable pub scan_op : NetUpdate → StateOp → NetUpdate
unfolding put_slot
scan_op u (set_account nonce balance code_hash) = record u {
  account = set_fields nonce balance code_hash;
}
scan_op u delete_account = record u { account = delete; wipe = true; slots = [] }
scan_op u wipe_storage = record u { wipe = true; slots = [] }
scan_op u (set_storage slot v) =
    let w = recreate u in record w { slots = put_slot w.slots slot (some v) }
scan_op u (delete_storage slot) =
    if is_delete u.account then u else record u { slots = put_slot u.slots slot none }

unfoldable pub scan_ops : Updates → List (List ℕ × StateOp) → Updates
unfolding net_at put_net scan_op
scan_ops m [] = m
scan_ops m (o ∷ ops) = scan_ops (put_net m o.0 (scan_op (net_at m o.0) o.1)) ops
