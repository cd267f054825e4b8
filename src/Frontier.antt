-- ===== src/Frontier.antt =====
-- src/lib.rs: the frontier in RAM, `RamNode`, `RamChild`, `PromotedAccount`, and its hashes. A
-- `HashCell` is the hash it holds, if it is set; a hash computed is also stored in the cell, which
-- later reads return in place of the computation.
pub mod Get
pub mod Collect
pub mod Promote
pub mod Insert
pub mod Leaf
pub mod Promoted
pub mod Extended
pub mod Account
use mpt_flat_poc.Prelude.{ℕ, ◌+◌, ◌*◌, false, Option, none, some, List, [], ◌∷◌}
use mpt_flat_poc.Externals.{Externals}
use mpt_flat_poc.Codec.Reader.{be_value}
use mpt_flat_poc.Node.{DiskPtr, NodeRef, hash, finalize, empty_hash, ext_ref, leaf_ref, branch_ref}
use mpt_flat_poc.Result.{Result, ok, err, ◌>>=◌}

-- `RamSlots` is the array `[Option<RamChild>; 16]`, slot 0 first.
mutual
  pub data RamNode : Type 0 where
    ram_empty : RamNode
    -- path, child, hash
    ram_extension : List ℕ → RamNode → Option (List ℕ) → RamNode
    ram_branch : RamSlots → Option (List ℕ) → RamNode

  pub data RamChild : Type 0 where
    ram : RamNode → RamChild
    -- ptr, root
    disk : DiskPtr → List ℕ → RamChild
    -- path, nonce, balance, code_hash, storage
    promoted : List ℕ → ℕ → List ℕ → List ℕ → RamNode → RamChild
    -- bytes, root
    mem : List ℕ → List ℕ → RamChild

  pub data RamSlots : Type 0 where
    ram_end : RamSlots
    ram_vacant : RamSlots → RamSlots
    ram_filled : RamChild → RamSlots → RamSlots

-- The presence bits, slot 0 in bit 0.
unfoldable pub ram_bitmap : RamSlots → ℕ
ram_bitmap ram_end = 0
ram_bitmap (ram_vacant cs) = 2 * ram_bitmap cs
ram_bitmap (ram_filled c cs) = 1 + 2 * ram_bitmap cs

module _ ⦃x : Externals⦄ where
  unfoldable pub ram_account_rlp : ℕ → List ℕ → List ℕ → List ℕ → List ℕ
  unfolding be_value
  ram_account_rlp nonce balance code_hash storage_root = x.encode_account (record {
    nonce = nonce;
    balance = be_value 0 balance;
    storage_root = storage_root;
    code_hash = code_hash;
  })

  unfoldable mutual
    pub hash_ram : RamNode → Result (List ℕ)
    hash_ram ram_empty = ok empty_hash
    hash_ram (ram_extension path child (some cached)) = ok cached
    hash_ram (ram_extension path child none) =
        hash_ram child >>= λ h. ok (finalize (ext_ref path (hash h)))
    hash_ram (ram_branch children (some cached)) = ok cached
    hash_ram (ram_branch children none) = do
      refs ← ram_refs children
      nref ← branch_ref (ram_bitmap children) refs
      ok (finalize nref)

    pub ram_child_hash : RamChild → Result (List ℕ)
    ram_child_hash (ram node) = hash_ram node
    ram_child_hash (disk ptr root) = ok root
    ram_child_hash (mem bytes root) = ok root
    ram_child_hash (promoted path nonce balance code_hash storage) = do
      sr ← hash_ram storage
      ok (finalize (leaf_ref path (ram_account_rlp nonce balance code_hash sr)))

    -- `children.iter().flatten().map(|child| NodeRef::Hash(ram_child_hash(child)))`.
    pub ram_refs : RamSlots → Result (List NodeRef)
    ram_refs ram_end = ok []
    ram_refs (ram_vacant cs) = ram_refs cs
    ram_refs (ram_filled c cs) = do h ← ram_child_hash c; refs ← ram_refs cs; ok (hash h ∷ refs)
