-- ===== src/Block/Effect.antt =====
-- src/lib.rs: what the operations of a block mean for one account, abstractly: in sequence, each as
-- `FlatMpt`'s operation of its own, and as a net update in the order of `apply_net_in_record`
-- (wipe, account outcome, slots).
use mpt_flat_poc.Prelude.{
  ℕ, Bool, true, false, Option, none, some, List, [], ◌∷◌, list_eqb, if◌then◌else◌,
}
use mpt_flat_poc.Block.{
  StateOp, set_account, delete_account, wipe_storage, set_storage, delete_storage, AccountOutcome,
  keep, set_fields, delete, SlotUpdate, NetUpdate,
}
use mpt_flat_poc.Record.Ops.{empty_code_hash}

abbrev pub Fields : Type 0
Fields = ℕ × ℕ × List ℕ

-- An account: its fields, if it exists, and its slots.
pub record Acct : Type 0 where
  pub fields : Option Fields
  pub slots : List ℕ → Option (List ℕ)

abbrev pub no_slots : List ℕ → Option (List ℕ)
no_slots s = none

abbrev pub write : (List ℕ → Option (List ℕ)) → List ℕ → Option (List ℕ) → List ℕ → Option (List ℕ)
write f slot v s = if list_eqb s slot then v else f s

-- A slot write creates a missing account.
abbrev pub created : Option Fields → Option Fields
created none = some (0, 0, empty_code_hash)
created (some f) = some f

unfoldable pub run_op : Acct → StateOp → Acct
run_op a (set_account nonce balance code_hash) = record a {
  fields = some (nonce, balance, code_hash);
}
run_op a delete_account = record { fields = none; slots = no_slots }
run_op a wipe_storage = record a { slots = no_slots }
run_op a (set_storage slot v) = record {
  fields = created a.fields;
  slots = write a.slots slot (some v);
}
run_op a (delete_storage slot) = record a { slots = write a.slots slot none }

unfoldable pub write_slots : Acct → List SlotUpdate → Acct
write_slots a [] = a
write_slots a ((slot, some v) ∷ us) =
    write_slots (record { fields = created a.fields; slots = write a.slots slot (some v) }) us
write_slots a ((slot, none) ∷ us) = write_slots (record a { slots = write a.slots slot none }) us

unfoldable pub set_outcome : Acct → AccountOutcome → Acct
set_outcome a keep = a
set_outcome a (set_fields nonce balance code_hash) = record a {
  fields = some (nonce, balance, code_hash);
}
set_outcome a delete = record { fields = none; slots = no_slots }

unfoldable pub cleared : Bool → Acct → Acct
cleared true a = record a { slots = no_slots }
cleared false a = a

-- `apply_net_in_record` returns after a deletion.
unfoldable pub apply_net : Acct → NetUpdate → Acct
unfolding write_slots set_outcome cleared
apply_net a u = elim u.account [
  | delete ↦ record { fields = none; slots = no_slots }
  | other ↦ write_slots (set_outcome (cleared u.wipe a) u.account) u.slots
]

-- The accounts of a state, by key.
abbrev pub World : Type 0
World = List ℕ → Acct

-- The operations of a block one by one, each on the account of its key.
unfoldable pub run_block : World → List (List ℕ × StateOp) → World
unfolding run_op
run_block w [] = w
run_block w (o ∷ ops) =
    run_block (λ key. if list_eqb key o.0 then run_op (w key) o.1 else w key) ops
