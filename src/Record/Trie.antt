-- ===== src/Record/Trie.antt =====
-- What a record's node tree has to be: the invariant of the nodes that `record_node_insert` and
-- `record_node_delete` build (src/lib.rs), and what the tree holds at a key.
pub mod Look
pub mod Get
pub mod Under
pub mod Split
pub mod Insert
pub mod Descend
pub mod Fork
pub mod Refine
pub mod Lift
pub mod Remove
pub mod Shorten
pub mod Collapse
pub mod Refold
pub mod Delete
pub mod Keys
pub mod Apart
pub mod Unique
pub mod GetStorage
pub mod Parts
pub mod Copied
pub mod Stored
use mpt_flat_poc.Prelude.{
  ℕ, zero, suc, ◌+◌, ◌*◌, ◌<◌, ◌≤◌, ◌≡◌, Bool, true, false, Option, none, some, List, [], ◌∷◌,
  length, drop, list_eqb, if◌then◌else◌,
}
use mpt_flat_poc.Externals.{Externals, Account}
use mpt_flat_poc.Node.{
  NodeRef, Node, Slots, empty, leaf, extension, branch, overflow, raw, account, slot_at, size,
  hash_node, finalize, leaf_node, account_node, make_extension, make_branch,
}
use mpt_flat_poc.Node.Access.{is_raw, is_empty, is_branch, occupied}
use mpt_flat_poc.Codec.Holds.{Cut}
use mpt_flat_poc.Codec.Lazy.{parse_node_lazy}
use mpt_flat_poc.Record.Get.{starts_with}
use mpt_flat_poc.Result.{Result, ok, err}

-- What a leaf holds.
pub data Payload : Type 0 where
  value : List ℕ → Payload
  -- nonce, balance, code_hash, storage
  fields : ℕ → ℕ → List ℕ → Node → Payload

abbrev pub Nibbles : List ℕ → Type 0
Nibbles [] = Unit
Nibbles (n ∷ path) = (n < 16) × Nibbles path

module _ ⦃x : Externals⦄ where
  -- The leaf of a payload, its cached references computed.
  unfoldable pub terminal : Payload → List ℕ → Node
  unfolding leaf_node account_node
  terminal (value v) path = leaf_node path v
  terminal (fields nonce balance code_hash storage) path =
      account_node path nonce balance code_hash storage

  -- The leaf's value: an account's RLP has the root of its storage.
  unfoldable pub payload_value : Payload → List ℕ
  payload_value (value v) = v
  payload_value (fields nonce balance code_hash storage) = x.encode_account (record {
    nonce = nonce;
    balance = balance;
    storage_root = finalize (hash_node storage);
    code_hash = code_hash;
  })

  -- Canonical trees whose paths from here have `h` nibbles: every cached reference is the one
  -- that its parts give, a branch has at least two children and no empty one, and an extension
  -- has a path and stands above a branch. `Good` says which payloads may stand in the tree.
  pub data Trie (Good : Payload → Type 0) : ℕ → Node → Type 0 where
    nothing : {h : ℕ} → Trie Good h empty
    single :
        {h : ℕ} (p : Payload) (path : List ℕ)
        → Good p
        → Nibbles path
        → length path ≡ h
        → Trie Good h (terminal p path)
    along :
        {h : ℕ} (k n : ℕ) (path : List ℕ) (child : Node)
        → Nibbles (n ∷ path)
        → length (n ∷ path) + k ≡ h
        → is_branch child ≡ true
        → Trie Good k child
        → Trie Good h (make_extension (n ∷ path) child)
    fork :
        {h : ℕ} (k : ℕ) (cs : Slots) (nref : NodeRef)
        → h ≡ suc k
        → size cs ≡ 16
        → 2 ≤ occupied cs
        → make_branch cs ≡ ok (branch cs nref)
        → ((i : ℕ) (c : Node) → slot_at cs i ≡ some c → is_empty c ≡ false)
        → ((i : ℕ) (c : Node) → slot_at cs i ≡ some c → Trie Good k c)
        → Trie Good h (branch cs nref)
    sliced :
        {h : ℕ} (buf : List ℕ) (off len : ℕ) (n : Node)
        → parse_node_lazy buf off len ≡ ok n
        → Cut buf off len n
        → is_raw n ≡ false
        → is_empty n ≡ false
        → Trie Good h n
        → Trie Good h (raw buf off len (hash_node n))

  -- The payload at the end of the path `rest`; an overflow record is not entered.
  unfoldable pub find : ℕ → Node → List ℕ → Option Payload
  unfolding slot_at starts_with
  find zero node rest = none
  find (suc fuel) empty rest = none
  find (suc fuel) (leaf path v nref) rest = if list_eqb rest path then some (value v) else none
  find (suc fuel) (account path nonce balance code_hash s root nref) rest =
      if list_eqb rest path then some (fields nonce balance code_hash s) else none
  find (suc fuel) (extension path child nref) rest =
      let below = find fuel child (drop (length path) rest) in
      if starts_with rest path then below else none
  find (suc fuel) (branch children nref) [] = none
  find (suc fuel) (branch children nref) (idx ∷ rest) = elim (slot_at children idx) [
    | none ↦ none
    | some c ↦ find fuel c rest
  ]
  find (suc fuel) (overflow ptr root) rest = none
  find (suc fuel) (raw buf off len nref) rest = elim (parse_node_lazy buf off len) [
    | ok n ↦ find fuel n rest
    | err e ↦ none
  ]

  -- `find` with fuel enough for the path: a level of nodes costs two units at most.
  unfoldable pub look : Node → List ℕ → Option Payload
  look node rest = find (suc (suc (2 * length rest))) node rest

  abbrev pub look_in : Option Node → List ℕ → Option Payload
  look_in none rest = none
  look_in (some c) rest = look c rest
