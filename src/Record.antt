-- ===== src/Record.antt =====
-- src/lib.rs: a record's node tree: reading (`node_get`), inserting (`record_node_insert`) and
-- deleting (`record_node_delete`). The code passes a key and a depth and only ever looks at
-- `key_nibbles(key)[depth..]`: a function here takes those remaining nibbles, `rest`.
pub mod Ops
pub mod Insert
pub mod Get
pub mod DeleteOps
pub mod Applied
pub mod Delete
pub mod Trie
pub mod Paths
pub mod Values
pub mod Fuel
pub mod Effects
pub mod Accounts
pub mod Order
pub mod Deletes
