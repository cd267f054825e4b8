-- ===== src/Codec/Copy.antt =====
-- src/lib.rs: nodes that fit a record, and nodes with the same content: some children in one are
-- unparsed slices (`Node::Raw`) of what the other has parsed.
use mpt_flat_poc.Prelude.{ℕ, ◌^◌, ◌<◌, ◌≤◌, ◌≡◌, false, List, length}
use mpt_flat_poc.Externals.{Externals}
use mpt_flat_poc.Node.{
  DiskPtr, NodeRef, Node, Slots, empty, leaf, extension, branch, overflow, raw, account, end,
  vacant, filled, size, hash_node, account_node,
}
use mpt_flat_poc.Codec.Write.{write_node, node_size}
use mpt_flat_poc.Codec.Lazy.{parse_node_lazy}
use mpt_flat_poc.Codec.Size.{PathFits, RefFits}
use mpt_flat_poc.Codec.Holds.{Holds}
use mpt_flat_poc.Node.Access.{is_raw, is_empty}
use mpt_flat_poc.Result.{ok}

module _ ⦃x : Externals⦄ where
  -- The parts fit their fields, and a slice is what the writer makes of the node that it parses to.
  -- An account's cached references are those that `account_node` computes: the writer drops them.
  mutual
    pub data Storable : Node → Type 0 where
      st_empty : Storable empty
      st_leaf :
          (path value : List ℕ) (nref : NodeRef)
          → PathFits path
          → length path ≤ 128
          → length value < 4294967296
          → RefFits nref
          → Storable (leaf path value nref)
      st_extension :
          (path : List ℕ) (child : Node) (nref : NodeRef)
          → PathFits path
          → length path ≤ 128
          → RefFits nref
          → Storable child
          → Storable (extension path child nref)
      st_branch :
          (cs : Slots) (nref : NodeRef)
          → size cs ≡ 16
          → RefFits nref
          → StorableSlots cs
          → Storable (branch cs nref)
      st_overflow :
          (unit len : ℕ) (root : List ℕ)
          → unit < 4294967296
          → len < 4294967296
          → length root ≡ 32
          → Storable (overflow (record { unit = unit; len = len }) root)
      st_account :
          (path : List ℕ) (nonce balance : ℕ) (code_hash : List ℕ) (storage : Node)
          → PathFits path
          → length path ≤ 128
          → nonce < 256 ^ 8
          → balance < 256 ^ 32
          → length code_hash ≡ 32
          → Storable storage
          → Storable (account_node path nonce balance code_hash storage)
      st_raw :
          (buf : List ℕ) (off : ℕ) (bytes : List ℕ) (n : Node)
          → parse_node_lazy buf off (length bytes) ≡ ok n
          → write_node n ≡ ok bytes
          → Holds buf off bytes
          → is_raw n ≡ false
          → is_empty n ≡ false
          → Storable n
          → Storable (raw buf off (length bytes) (hash_node n))

    pub data StorableSlots : Slots → Type 0 where
      st_end : StorableSlots end
      st_vacant : (cs : Slots) → StorableSlots cs → StorableSlots (vacant cs)
      st_filled :
          (c : Node) (cs : Slots)
          → node_size c < 4294967296
          → Storable c
          → StorableSlots cs
          → StorableSlots (filled c cs)

  mutual
    pub data Copy : Node → Node → Type 0 where
      cp_empty : Copy empty empty
      cp_leaf :
          (path value : List ℕ) (nref : NodeRef)
          → Copy (leaf path value nref) (leaf path value nref)
      cp_extension :
          (path : List ℕ) (c c' : Node) (nref : NodeRef)
          → is_raw c' ≡ false
          → Copy c c'
          → Copy (extension path c nref) (extension path c' nref)
      cp_branch :
          (cs cs' : Slots) (nref : NodeRef)
          → CopySlots cs cs'
          → Copy (branch cs nref) (branch cs' nref)
      cp_overflow : (ptr : DiskPtr) (root : List ℕ) → Copy (overflow ptr root) (overflow ptr root)
      cp_account :
          (path : List ℕ) (nonce balance : ℕ) (code_hash : List ℕ) (s s' : Node) (root : List ℕ)
          (nref : NodeRef)
          → Copy s s'
          → Copy
              (account path nonce balance code_hash s root nref)
              (account path nonce balance code_hash s' root nref)
      cp_raw_left :
          (buf : List ℕ) (off len : ℕ) (nref : NodeRef) (n n' : Node)
          → parse_node_lazy buf off len ≡ ok n
          → Copy n n'
          → Copy (raw buf off len nref) n'
      cp_raw_right :
          (buf : List ℕ) (off len : ℕ) (nref : NodeRef) (n n' : Node)
          → parse_node_lazy buf off len ≡ ok n'
          → Copy n n'
          → Copy n (raw buf off len nref)

    pub data CopySlots : Slots → Slots → Type 0 where
      cp_end : CopySlots end end
      cp_vacant : (cs cs' : Slots) → CopySlots cs cs' → CopySlots (vacant cs) (vacant cs')
      cp_filled :
          (c c' : Node) (cs cs' : Slots)
          → Copy c c'
          → CopySlots cs cs'
          → CopySlots (filled c cs) (filled c' cs')
