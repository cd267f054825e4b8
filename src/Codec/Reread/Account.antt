-- ===== src/Codec/Reread/Account.antt =====
-- src/lib.rs: an account written and read again.
use mpt_flat_poc.Prelude.{
  ℕ, ◌+◌, ◌^◌, ◌<◌, ◌≤◌, ◌≡◌, refl, List, [], ◌∷◌, ◌++◌, length, length-append, arith,
}
use mpt_flat_poc.Externals.{Externals}
use mpt_flat_poc.Node.{Node, hash_node, account_node}
use mpt_flat_poc.Codec.Write.{le_bytes, be_bytes, write_node}
use mpt_flat_poc.Codec.Reader.{read_account}
use mpt_flat_poc.Codec.Lazy.{read_tagged_lazy, read_node_lazy}
use mpt_flat_poc.Codec.Size.{PathFits, write_nibble_path-fits, length-le_bytes, length-be_bytes}
use mpt_flat_poc.Codec.Holds.{
  Holds, left, right, read_bytes-Holds, read_nibble_path-Holds, le_value-le_bytes,
  be_value-be_bytes,
}
use mpt_flat_poc.Codec.Copy.{st_account, cp_account}
use mpt_flat_poc.Codec.Reread.{Back, Reread, by_tag, path_bytes}

module _ ⦃x : Externals⦄ (path : List ℕ) (nonce balance : ℕ) (code_hash : List ℕ) (storage : Node)
    (f : PathFits path) (short : length path ≤ 128) (nf : nonce < 256 ^ 8) (bf : balance < 256 ^ 32)
    (cf : length code_hash ≡ 32) (s : Reread storage) where
  abbrev account_rest : List ℕ
  account_rest =
      path_bytes path
      ++ (le_bytes 8 nonce ++ (be_bytes 32 balance ++ (code_hash ++ (s.tag ∷ s.rest))))

  record AccountAt (buf : List ℕ) (q : ℕ) : Type 0 where
    path_at : Holds buf q (path_bytes path)
    nonce_at : Holds buf (q + length (path_bytes path)) (le_bytes 8 nonce)
    balance_at : Holds buf (q + length (path_bytes path) + 8) (be_bytes 32 balance)
    code_at : Holds buf (q + length (path_bytes path) + 8 + 32) code_hash
    storage_at : Holds buf (q + length (path_bytes path) + 8 + 32 + 32) (s.tag ∷ s.rest)

  account_at : (buf : List ℕ) (pos : ℕ) → Holds buf pos (5 ∷ account_rest) → AccountAt buf (pos + 1)
  account_at buf pos h =
      let tail₃ : List ℕ = code_hash ++ (s.tag ∷ s.rest) in
      let tail₂ : List ℕ = be_bytes 32 balance ++ tail₃ in
      let tail₁ : List ℕ = le_bytes 8 nonce ++ tail₂ in
      let q : ℕ = pos + 1 + length (path_bytes path) in
      let h₁ : Holds buf (pos + 1) account_rest = right (5 ∷ []) account_rest h refl in
      let h₂ : Holds buf q tail₁ = right (path_bytes path) tail₁ h₁ refl in
      let h₃ : Holds buf (q + 8) tail₂ =
        right (le_bytes 8 nonce) tail₂ h₂ (omega (arith, length-le_bytes 8 nonce)) in
      let h₄ : Holds buf (q + 8 + 32) tail₃ =
        right (be_bytes 32 balance) tail₃ h₃ (omega (arith, length-be_bytes 32 balance)) in
      record {
        path_at = left (path_bytes path) tail₁ h₁;
        nonce_at = left (le_bytes 8 nonce) tail₂ h₂;
        balance_at = left (be_bytes 32 balance) tail₃ h₃;
        code_at = left code_hash (s.tag ∷ s.rest) h₄;
        storage_at = right code_hash (s.tag ∷ s.rest) h₄ (omega (arith, cf));
      }

  account_end :
      (pos : ℕ)
      → pos + 1 + length (path_bytes path) + 8 + 32 + 32 + length (s.tag ∷ s.rest)
        ≡ pos + length (5 ∷ account_rest)
  account_end pos = simp (length-append, length-le_bytes, length-be_bytes, cf) (omega arith)

  account_room : (fuel : ℕ) → length account_rest ≤ fuel → length (s.tag ∷ s.rest) ≤ fuel
  account_room fuel h = omega (arith, h, account_end 0)

  account-Back :
      (buf : List ℕ) (pos fuel : ℕ)
      → Holds buf pos (5 ∷ account_rest)
      → length account_rest ≤ fuel
      → Back
          (account_node path nonce balance code_hash storage)
          (5 ∷ account_rest)
          (read_tagged_lazy 5 (read_node_lazy fuel) buf (pos + 1))
          (pos + length (5 ∷ account_rest))
  unfolding write_node read_tagged_lazy read_account hash_node account_node
  account-Back buf pos fuel h enough =
      let at = account_at buf pos h in
      let b = s.read buf _ fuel at.storage_at (account_room fuel enough) in
      record {
        n' = account_node path nonce balance code_hash b.n';
        runs =
            rw
              (
                read_nibble_path-Holds path (pos + 1) at.path_at f short,
                read_bytes-Holds (le_bytes 8 nonce) 8 at.nonce_at (length-le_bytes 8 nonce),
                read_bytes-Holds (be_bytes 32 balance) 32 at.balance_at
                    (length-be_bytes 32 balance),
                read_bytes-Holds code_hash 32 at.code_at cf,
                b.runs,
                le_value-le_bytes 8 nonce nf,
                be_value-be_bytes 32 balance bf,
                account_end pos,
              )
              refl;
        copy = rw b.same_hash (cp_account path nonce balance code_hash storage b.n' _ _ b.copy);
        storable = st_account path nonce balance code_hash b.n' f short nf bf cf b.storable;
        rewritten = rw (write_nibble_path-fits path f (omega arith), b.rewritten) refl;
        not_raw = refl;
        same_hash = rw b.same_hash refl;
      }

  pub account-Reread : Reread (account_node path nonce balance code_hash storage)
  unfolding write_node hash_node account_node
  account-Reread = record {
    tag = 5;
    rest = account_rest;
    written = rw (write_nibble_path-fits path f (omega arith), s.written) refl;
    read = by_tag (account_node path nonce balance code_hash storage) 5 account_rest account-Back;
    extract = λ e. cc;
  }
