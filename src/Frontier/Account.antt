-- ===== src/Frontier/Account.antt =====
-- src/lib.rs: an account whose storage no longer fits its record, promoted into the frontier.
use mpt_flat_poc.Prelude.{
  ℕ, suc, ◌+◌, ◌^◌, ◌<◌, ◌≤◌, ◌≡◌, refl, sym, ◌∙◌, ap, none, List, [], ◌∷◌, ◌++◌, length, drop,
  arith, list_eqb, Bool-cases, inl, inr, lt→ltb,
}
use mpt_flat_poc.Externals.{Externals}
use mpt_flat_poc.Eth.{key_nibbles}
use mpt_flat_poc.Node.{NodeRef, Node, Slots, branch, hash_node, finalize, account_node}
use mpt_flat_poc.Codec.Write.{be_bytes}
use mpt_flat_poc.Codec.Holds.{be_value-be_bytes}
use mpt_flat_poc.Codec.Size.{PathFits}
use mpt_flat_poc.Frontier.{
  RamNode, ram_branch, RamChild, promoted, hash_ram, ram_child_hash, ram_account_rlp,
}
use mpt_flat_poc.Frontier.Get.{ram_get, ram_get_child, ram_get_storage_child}
use mpt_flat_poc.Frontier.Promote.{
  promote_to_mem, promote_account_to_ram, promoted_account, ram_wrap,
}
use mpt_flat_poc.Frontier.Promoted.{
  Splits, PromotedBranch, promote_children-PromotedBranch, length-snoc,
}
use mpt_flat_poc.Record.Get.{Store, local_depth, node_get, node_get_storage, at_path}
use mpt_flat_poc.Record.Trie.{Trie, Nibbles}
use mpt_flat_poc.Record.Trie.Get.{node_get-look}
use mpt_flat_poc.Record.Values.{IsValue, Bytes, key_nibbles-Nibbles, length-key_nibbles}
use mpt_flat_poc.Frontier.Promote.{promote_children}
use mpt_flat_poc.Result.{ok}

-- Behind the 64 nibbles of the account's key the depth starts again.
local_depth-account : (p : List ℕ) → length p ≡ 64 → (i : ℕ) → local_depth (p ++ (i ∷ [])) ≡ 0 + 1
unfolding local_depth
local_depth-account p e i =
    let long : length (p ++ (i ∷ [])) ≡ 65 = omega (arith, length-snoc p i, e) in
    rw (lt→ltb 64 (length (p ++ (i ∷ []))) (omega (arith, long))) (omega (arith, long))

within_128 : 63 ≤ 128
within_128 = omega arith

module _ ⦃x : Externals⦄ (wide : (bytes : List ℕ) → length (x.keccak256 bytes) ≡ 32)
    (prefix path : List ℕ) (whole : length (prefix ++ path) ≡ 64) (fits : PathFits (prefix ++ path))
    (nonce balance : ℕ) (balance_fits : balance < 256 ^ 32) (code_hash : List ℕ) (cs : Slots)
    (sref : NodeRef) where
  abbrev storage_branch : Node
  storage_branch = branch cs sref

  abbrev big_account : Node
  big_account = account_node path nonce balance code_hash storage_branch

  account_rlp :
      (root : List ℕ)
      → ram_account_rlp nonce (be_bytes 32 balance) code_hash root
        ≡ x.encode_account (record {
          nonce = nonce;
          balance = balance;
          storage_root = root;
          code_hash = code_hash;
        })
  unfolding ram_account_rlp
  account_rlp root =
      ap
        (λ v.
          x.encode_account
            (record { nonce = nonce; balance = v; storage_root = root; code_hash = code_hash }))
        (be_value-be_bytes 32 balance balance_fits)

  module _ (st : RamNode) (rooted : hash_ram st ≡ ok (finalize sref)) where
    promoted-hash :
        ram_child_hash (promoted path nonce (be_bytes 32 balance) code_hash st)
        ≡ ok (finalize (hash_node big_account))
    unfolding account_node hash_node hash_ram
    promoted-hash = rw (rooted, account_rlp (finalize sref)) refl

    promoted-get :
        (store : Store) (g depth : ℕ) (nibbles key : List ℕ)
        → drop (depth + 1) nibbles ≡ key
        → ram_get_child store g
            (promoted path nonce (be_bytes 32 balance) code_hash st)
            nibbles
            depth
          ≡ node_get store (suc g) nibbles big_account key
    unfolding account_node node_get at_path ram_get hash_node
    promoted-get store g depth nibbles key at =
        rw (at, rooted, account_rlp (finalize sref))
          (elim (Bool-cases (list_eqb key path)) [
            | inl same ↦ rw same refl
            | inr other ↦ rw other refl
          ])

    promoted-get_storage :
        (store : Store) (g depth : ℕ) (nibbles slot key : List ℕ)
        → drop (depth + 1) nibbles ≡ key
        → ram_get store g st (key_nibbles slot) 0
          ≡ node_get store g (key_nibbles slot) storage_branch (key_nibbles slot)
        → ram_get_storage_child store g
            (promoted path nonce (be_bytes 32 balance) code_hash st)
            nibbles
            depth
            slot
          ≡ node_get_storage store (suc g) nibbles slot big_account key
    unfolding account_node node_get_storage ram_get_storage_child
    promoted-get_storage store g depth nibbles slot key at below =
        rw (at, below)
          (elim (Bool-cases (list_eqb key path)) [
            | inl same ↦ rw same refl
            | inr other ↦ rw other refl
          ])

  storage_read :
      (b : PromotedBranch wide
        (prefix ++ path)
        fits
        (omega (arith, whole))
        0
        (local_depth-account (prefix ++ path) whole)
        63
        within_128
        cs
        sref
        (promote_children (prefix ++ path) 0 cs))
      → Trie IsValue 64 storage_branch
      → (store : Store) (g : ℕ) (nibbles key : List ℕ) → nibbles ≡ key
      → Nibbles key
      → length key ≡ 64
      → 130 ≤ g
      → ram_get store g (ram_branch b.rcs none) nibbles 0
        ≡ node_get store g nibbles storage_branch key
  storage_read b t store g nibbles [] at nib e bg = absurd (omega (arith, e))
  storage_read b t store g nibbles (i ∷ rest) at nib e bg =
      b.reads store g nibbles i rest at nib.0 (omega (arith, e)) (omega (arith, bg))
      ∙ sym (node_get-look store nibbles t g (i ∷ rest) e (omega (arith, bg)))

  -- An account alone in its record, whose prefix, not empty, and path are 64 nibbles, with a branch
  -- on top of its storage, a canonical value trie: every child of the branch has a hash for its
  -- reference and fits a record, the balance fits 32 bytes and keccak256 gives 32 bytes. The promoted
  -- account that takes the record's place has the record's root; a read of a key gives what it gave
  -- in the record, and so does a read of any slot of 32 bytes.
  pub promote_account_to_ram_lem :
      (store : Store) (g depth : ℕ) (nibbles slot : List ℕ)
      → length prefix ≡ depth + 1
      → Trie IsValue 64 storage_branch
      → Splits (length (prefix ++ path) + 1) cs
      → length slot ≡ 32
      → Bytes slot
      → 130 ≤ g
      → (c : RamChild) × (promote_account_to_ram (record { prefix = prefix; node = big_account })
          ≡ ok c)
        × (ram_child_hash c ≡ ok (finalize (hash_node big_account)))
        × (ram_get_child store g c nibbles depth
            ≡ node_get store (suc g) nibbles big_account (drop (length prefix) nibbles))
        × (ram_get_storage_child store g c nibbles depth slot
            ≡ node_get_storage store
                (suc g)
                nibbles
                slot
                big_account
                (drop (length prefix) nibbles))
  unfolding promote_account_to_ram promote_to_mem promoted_account ram_wrap account_node
  promote_account_to_ram_lem store g depth nibbles slot d t sp slot_size bytes bg =
      let b =
        promote_children-PromotedBranch wide (prefix ++ path) fits (omega (arith, whole)) 0
          (local_depth-account (prefix ++ path) whole) 63 within_128 cs sref t sp in
      (
        promoted path nonce (be_bytes 32 balance) code_hash (ram_branch b.rcs none),
        rw b.made refl,
        promoted-hash (ram_branch b.rcs none) b.hashes,
        promoted-get (ram_branch b.rcs none) b.hashes store g depth nibbles
            (drop (length prefix) nibbles) (ap (λ n. drop n nibbles) (sym d)),
        promoted-get_storage (ram_branch b.rcs none) b.hashes store g depth nibbles slot
            (drop (length prefix) nibbles) (ap (λ n. drop n nibbles) (sym d))
            (storage_read b t store g (key_nibbles slot) (key_nibbles slot) refl
              (key_nibbles-Nibbles slot bytes) (omega (arith, length-key_nibbles slot, slot_size))
              bg),
      )
