-- ===== src/Record/DeleteOps.antt =====
-- src/lib.rs: what a delete removes, and what it did to a subtree.
use mpt_flat_poc.Prelude.{ℕ, List}

pub data DeleteOp : Type 0 where
  value : DeleteOp
  account : DeleteOp
  storage : List ℕ → DeleteOp
  wipe_storage : DeleteOp

pub data NodeDelete : Type 0 where
  absent : NodeDelete
  changed : NodeDelete
  removed : NodeDelete
