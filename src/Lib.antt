-- ===== src/Lib.antt =====
-- mpt-flat-poc keeps an Ethereum state trie in one flat file. Small subtrees are stored as records;
-- a record holds a tree of nodes with the reference (hash or inline RLP) of each cached, and is read
-- lazily: a child is first a slice of the record's bytes, parsed when a walk enters it. An insert or
-- a delete descends the node tree, changes one leaf, restores the canonical form on the way back and
-- computes the references anew. Records are written to a log-structured file of regions, whose
-- allocator reuses a region only when nothing can read it any more.
--
-- The parts, by file:
-- - Prelude, Result: shared names, lists over the native numbers, the error results. A panic
--   (`unreachable!`, an index out of range) is the error `panicked`.
-- - Externals: keccak256 and the RLP codec of third-party crates, as parameters (`Externals`). The
--   one hypothesis used on them is that keccak256 gives 32 bytes.
-- - Eth: src/eth.rs, `hex_prefix`, `key_nibbles`, `rlp_list`.
-- - Node: src/lib.rs, `Node`, `NodeRef`, `hash_node` and the constructors that cache references
--   (`leaf_node`, `account_node`, `make_extension`, `make_branch`). The 16 slots are `Slots`, in
--   mutual recursion with `Node`.
-- - Codec: src/lib.rs, the record codec: Write (`write_node`, `node_size`, `serialize_subtree`),
--   Reader (`CompactReader`), Lazy (`LazyReader`, `parse_node_lazy`).
-- - Record: src/lib.rs, the operations on a record's node tree: Insert (`record_node_insert`), Get
--   (`node_get`, `node_get_storage`), Delete (`record_node_delete`). The program passes a key and a
--   depth and looks only at `key_nibbles(key)[depth..]`; a function here takes those nibbles,
--   `rest`. Trie states the canonical form, for all paths of one length, and what a tree holds
--   (`look`); its child modules prove what inserts and deletes do to it. Values, Deletes and Accounts read that for value tries
--   (storage tries) and for state tries of structured accounts with nested storage.
-- - Regions: src/lib.rs, `RegionAlloc`: Ops has its operations, Reuse its transition system; PinOrder,
--   Pins and Released are about the regions held for snapshots.
-- - Block: src/lib.rs, `StateOp`, `NetUpdate` and `normalize_block` (Normalize), a fold with a scan in
--   place of the index (Scan), and what a block means for an account (Effect). The ordered map of the
--   net updates is an association list in key order, the slot index a function.
-- - CodeStore: src/state.rs, `CodeStore`: put, get and the scan of `open`, on a file that is its bytes
--   and whose operations do not fail.
-- - Frontier: src/lib.rs, the nodes kept in RAM above the records (`RamNode`, `RamChild`, `hash_ram`):
--   Get (`ram_get`, `ram_get_storage`), Collect (`ram_collect_storage`), Insert (`insert_ram`,
--   `insert_in_record`), Promote (`promote_to_mem`). Leaf, Promoted, Extended and Account are about
--   a record that is rewritten or promoted; Collect/Complete and
--   Collect/Account about the slots of a storage trie and of an account, Collect/Composite about the
--   records of a promoted account.
-- - Reference: src/eth.rs, `root`, `secure_root`: the root of a trie from all its pairs at once.
-- - Examples: tests, and the theorems at concrete inputs.
--
-- Fuel: a call with fuel 0 returns `out_of_fuel`. An insert below h nibbles needs h + 1 units, 65 for
-- a 32-byte key; a slot write runs a second insert inside the account's leaf, 130 together. A read
-- needs two units a level, one for the node and one for a slice that is parsed: 264 with nested
-- storage. The theorems have these bounds as hypotheses and give a result, never only a partial one.
--
-- Numbers: lengths and indices in memory are unbounded; u32 and u64 counters of the allocator wrap.
-- The allocator's theorems take a file of fewer than 2^50 pages, so that no unit number wraps.
--
-- Not modelled: deletes in the frontier, the writes to the file with the hot-record cache off, the application of a block,
-- garbage collection, persistence and the file itself, cursors, reveal and `EthState` on top.
-- Overflow children are in the model of the nodes, but no canonical tree has one: this build never
-- writes them. Accounts stored as opaque values are in the definitions; the theorems on state tries
-- are about structured accounts.
pub mod Prelude
pub mod Externals
pub mod Result
pub mod Eth
pub mod Node
pub mod Codec
pub mod Record
pub mod Regions
pub mod Reference
pub mod Block
pub mod Frontier
pub mod CodeStore
pub mod Examples
