-- ===== src/Block/Normalize.antt =====
-- src/lib.rs: `normalize_block`. The ordered map is an association list in key order, the index map
-- of slots a function from the two keys.
use mpt_flat_poc.Prelude.{
  ℕ, zero, suc, true, ◌&&◌, Option, none, some, List, [], ◌∷◌, ◌++◌, length, list_eqb, precedes,
  if◌then◌else◌,
}
use mpt_flat_poc.Block.{
  StateOp, set_account, delete_account, wipe_storage, set_storage, delete_storage, set_fields,
  delete, SlotUpdate, NetUpdate, no_update, is_delete,
}
use mpt_flat_poc.Record.Ops.{empty_code_hash}
use mpt_flat_poc.Result.{Result, ok, err, ◌>>=◌, panicked}

-- `BTreeMap<Key, NetUpdate>` and `HashMap<(Key, Key), usize>`.
abbrev pub Updates : Type 0
Updates = List (List ℕ × NetUpdate)

abbrev pub SlotIndex : Type 0
SlotIndex = List ℕ → List ℕ → Option ℕ

unfoldable pub net_at : Updates → List ℕ → NetUpdate
net_at [] key = no_update
net_at (e ∷ m) key = let rest = net_at m key in if list_eqb key e.0 then e.1 else rest

unfoldable pub put_net : Updates → List ℕ → NetUpdate → Updates
put_net [] key u = (key, u) ∷ []
put_net (e ∷ m) key u =
    let rest = put_net m key u in
    if list_eqb key e.0
    then (key, u) ∷ m
    else if precedes key e.0
    then (key, u) ∷ e ∷ m
    else e ∷ rest

unfoldable pub set_index : SlotIndex → List ℕ → List ℕ → Option ℕ → SlotIndex
set_index idx key slot o k s = if list_eqb k key && list_eqb s slot then o else idx k s

-- `for (k, _) in upd.slots.drain(..) { slot_idx.remove(&(key, k)); }`
unfoldable pub drain : SlotIndex → List ℕ → List SlotUpdate → SlotIndex
unfolding set_index
drain idx key [] = idx
drain idx key (u ∷ us) = drain (set_index idx key u.0 none) key us

-- `upd.slots[i].1 = v`, a panic out of range.
unfoldable pub write_value : List SlotUpdate → ℕ → Option (List ℕ) → Result (List SlotUpdate)
write_value [] i v = err panicked
write_value (u ∷ us) zero v = ok ((u.0, v) ∷ us)
write_value (u ∷ us) (suc i) v = write_value us i v >>= λ ws. ok (u ∷ ws)

-- The entry of the slot index, occupied or vacant.
unfoldable pub write_entry :
    SlotIndex
    → List ℕ
    → NetUpdate
    → List ℕ
    → Option (List ℕ)
    → Option ℕ
    → Result (NetUpdate × SlotIndex)
unfolding write_value set_index
write_entry idx key u slot v (some i) =
    write_value u.slots i v >>= λ slots'. ok (record u { slots = slots' }, idx)
write_entry idx key u slot v none = ok (
  record u { slots = u.slots ++ ((slot, v) ∷ []) },
  set_index idx key slot (some (length u.slots)),
)

unfoldable pub write_slot :
    SlotIndex → List ℕ → NetUpdate → List ℕ → Option (List ℕ) → Result (NetUpdate × SlotIndex)
unfolding write_entry
write_slot idx key u slot v = write_entry idx key u slot v (idx key slot)

-- A slot write re-creates an account that the block deleted.
unfoldable pub recreate : NetUpdate → NetUpdate
recreate u =
    if is_delete u.account then record u { account = set_fields 0 0 empty_code_hash } else u

-- The `match` on the operation.
unfoldable pub fold_op : SlotIndex → List ℕ → NetUpdate → StateOp → Result (NetUpdate × SlotIndex)
unfolding drain write_slot
fold_op idx key u (set_account nonce balance code_hash) =
    ok (record u { account = set_fields nonce balance code_hash }, idx)
fold_op idx key u delete_account =
    ok (record u { account = delete; wipe = true; slots = [] }, drain idx key u.slots)
fold_op idx key u wipe_storage = ok (record u { wipe = true; slots = [] }, drain idx key u.slots)
fold_op idx key u (set_storage slot v) = write_slot idx key (recreate u) slot (some v)
fold_op idx key u (delete_storage slot) =
    if is_delete u.account then ok (u, idx) else write_slot idx key u slot none

unfoldable pub fold_ops : Updates → SlotIndex → List (List ℕ × StateOp) → Result Updates
unfolding net_at put_net fold_op
fold_ops m idx [] = ok m
fold_ops m idx (o ∷ ops) =
    fold_op idx o.0 (net_at m o.0) o.1 >>= λ r. fold_ops (put_net m o.0 r.0) r.1 ops

unfoldable pub normalize_block : List (List ℕ × StateOp) → Result Updates
unfolding fold_ops
normalize_block ops = fold_ops [] (λ key slot. none) ops
