-- ===== src/Reference.antt =====
-- src/eth.rs: the reference trie, which computes a root from all pairs at once. An ordered map is an
-- association list in key order.
use mpt_flat_poc.Prelude.{
  ℕ, zero, suc, true, false, List, [], ◌∷◌, length, precedes, take, drop, ◌==◌, ltb, list_eqb,
  if◌then◌else◌,
}
use mpt_flat_poc.Externals.{Externals}
use mpt_flat_poc.Eth.{hex_prefix, key_nibbles, rlp_string, rlp_list}
use mpt_flat_poc.Record.Insert.{common_prefix}
use mpt_flat_poc.Result.{Result, ok, err, ◌>>=◌, panicked, out_of_fuel}

-- A key and its value.
abbrev pub Entry : Type 0
Entry = List ℕ × List ℕ

-- The key of the last entry.
unfoldable pub last_key : List ℕ → List Entry → List ℕ
last_key key [] = key
last_key key (e ∷ es) = last_key e.0 es

unfoldable pub common_prefix_len : List Entry → ℕ
unfolding last_key common_prefix
common_prefix_len [] = 0
common_prefix_len (e ∷ es) = common_prefix e.0 (last_key e.0 es)

unfoldable pub strip : ℕ → List Entry → List Entry
strip n [] = []
strip n (e ∷ es) = (drop n e.0, e.1) ∷ strip n es

-- The entries below nibble `i`, one nibble shorter.
unfoldable pub bucket : ℕ → List Entry → List Entry
bucket i [] = []
bucket i (([], v) ∷ es) = bucket i es
bucket i ((n ∷ key, v) ∷ es) = let rest = bucket i es in if n == i then (key, v) ∷ rest else rest

-- The value of the key that ends at a branch.
unfoldable pub branch_value : List Entry → List ℕ
branch_value [] = []
branch_value (([], v) ∷ es) = v
branch_value ((n ∷ key, v) ∷ es) = branch_value es

-- `map.insert` and `map.remove` of the ordered map.
unfoldable pub insert_entry : List ℕ → List ℕ → List Entry → List Entry
unfolding precedes
insert_entry key v [] = (key, v) ∷ []
insert_entry key v (e ∷ es) =
    let rest = insert_entry key v es in
    if list_eqb key e.0
    then (key, v) ∷ es
    else if precedes key e.0
    then (key, v) ∷ e ∷ es
    else e ∷ rest

unfoldable pub remove_entry : List ℕ → List Entry → List Entry
remove_entry key [] = []
remove_entry key (e ∷ es) =
    let rest = remove_entry key es in if list_eqb key e.0 then es else e ∷ rest

-- The loop of `root` over its pairs.
unfoldable pub collect : List Entry → List Entry → List Entry
unfolding insert_entry remove_entry
collect [] m = m
collect ((k, []) ∷ es) m = collect es (remove_entry (key_nibbles k) m)
collect ((k, b ∷ v) ∷ es) m = collect es (insert_entry (key_nibbles k) (b ∷ v) m)

module _ ⦃x : Externals⦄ where
  unfoldable pub node_ref : List ℕ → List ℕ
  node_ref rlp = if ltb (length rlp) 32 then rlp else rlp_string (x.keccak256 rlp)

  -- The items of the slots from `i` on.
  unfoldable pub branch_slots :
      (List Entry → Result (List ℕ)) → ℕ → ℕ → List Entry → Result (List (List ℕ))
  unfolding bucket node_ref branch_value
  branch_slots encode zero i es = ok (rlp_string (branch_value es) ∷ [])
  branch_slots encode (suc n) i es =
      let below = encode (bucket i es) in
      branch_slots encode n (suc i) es >>= λ items. elim (bucket i es) [
        | [] ↦ ok (rlp_string [] ∷ items)
        | e ∷ rest ↦ below >>= λ child. ok (node_ref child ∷ items)
      ]

  unfoldable pub encode_branch : (List Entry → Result (List ℕ)) → List Entry → Result (List ℕ)
  unfolding branch_slots
  encode_branch encode es = branch_slots encode 16 0 es >>= λ items. ok (rlp_list items)

  -- Two or more entries.
  unfoldable pub encode_entries :
      (List Entry → Result (List ℕ)) → List ℕ → ℕ → List Entry → Result (List ℕ)
  unfolding encode_branch strip
  encode_entries encode key zero es = encode_branch encode es
  encode_entries encode key (suc n) es = encode (strip (suc n) es) >>= λ child.
      ok (rlp_list (rlp_string (hex_prefix (take (suc n) key) false) ∷ node_ref child ∷ []))

  -- A level of the recursion costs one unit of fuel.
  unfoldable pub encode_node : ℕ → List Entry → Result (List ℕ)
  unfolding encode_entries common_prefix_len
  encode_node zero es = err out_of_fuel
  encode_node (suc fuel) [] = err panicked
  encode_node (suc fuel) (e ∷ []) =
      ok (rlp_list (rlp_string (hex_prefix e.0 true) ∷ rlp_string e.1 ∷ []))
  encode_node (suc fuel) (e ∷ e' ∷ es) =
      encode_entries (encode_node fuel) e.0 (common_prefix_len (e ∷ e' ∷ es)) (e ∷ e' ∷ es)

  unfoldable pub root : ℕ → List Entry → Result (List ℕ)
  unfolding collect encode_node
  root fuel pairs = elim (collect pairs []) [
    | [] ↦ ok (x.keccak256 (128 ∷ []))
    | e ∷ es ↦ encode_node fuel (e ∷ es) >>= λ rlp. ok (x.keccak256 rlp)
  ]

  unfoldable pub hashed : List Entry → List Entry
  hashed [] = []
  hashed (e ∷ es) = (x.keccak256 e.0, e.1) ∷ hashed es

  unfoldable pub secure_root : ℕ → List Entry → Result (List ℕ)
  unfolding root hashed
  secure_root fuel pairs = root fuel (hashed pairs)
