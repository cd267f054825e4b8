-- ===== src/Block.antt =====
-- src/lib.rs: the operations of a block and their net effect on each account.
use mpt_flat_poc.Prelude.{ℕ, Bool, true, false, Option, none, some, List, []}
pub mod Normalize
pub mod Scan
pub mod Index
pub mod Effect
pub mod Sequence
pub mod Outcome

pub data StateOp : Type 0 where
  -- nonce, balance, code_hash
  set_account : ℕ → ℕ → List ℕ → StateOp
  delete_account : StateOp
  wipe_storage : StateOp
  -- slot, value
  set_storage : List ℕ → List ℕ → StateOp
  delete_storage : List ℕ → StateOp

pub data AccountOutcome : Type 0 where
  keep : AccountOutcome
  -- nonce, balance, code_hash
  set_fields : ℕ → ℕ → List ℕ → AccountOutcome
  delete : AccountOutcome

-- A slot and its final value; `none` deletes it.
abbrev pub SlotUpdate : Type 0
SlotUpdate = List ℕ × Option (List ℕ)

pub record NetUpdate : Type 0 where
  pub wipe : Bool
  pub account : AccountOutcome
  pub slots : List SlotUpdate

-- What `map.entry(key).or_insert` puts in.
abbrev pub no_update : NetUpdate
no_update = record { wipe = false; account = keep; slots = [] }

abbrev pub is_delete : AccountOutcome → Bool
is_delete delete = true
is_delete _ = false
