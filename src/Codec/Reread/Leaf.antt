-- ===== src/Codec/Reread/Leaf.antt =====
-- src/lib.rs: a leaf written and read again.
use mpt_flat_poc.Prelude.{
  ℕ, ◌+◌, ◌<◌, ◌≤◌, ◌≡◌, refl, List, [], ◌∷◌, ◌++◌, length, length-append, arith,
}
use mpt_flat_poc.Externals.{Externals}
use mpt_flat_poc.Node.{NodeRef, leaf, hash_node}
use mpt_flat_poc.Codec.Write.{len_bytes, write_ref, write_node}
use mpt_flat_poc.Codec.Reader.{read_leaf}
use mpt_flat_poc.Codec.Lazy.{extract_tagged, extract_ref, read_tagged_lazy}
use mpt_flat_poc.Codec.Size.{PathFits, RefFits, write_nibble_path-fits, length-len_bytes}
use mpt_flat_poc.Codec.Holds.{
  Holds, left, right, read_bytes-Holds, read_u8-Holds, read_u32-Holds, read_ref-Holds,
  read_nibble_path-Holds, skip_nibble_path-Holds,
}
use mpt_flat_poc.Codec.Copy.{st_leaf, cp_leaf}
use mpt_flat_poc.Result.{ok}
use mpt_flat_poc.Codec.Reread.{Reread, by_tag, whole, path_bytes}

module _ ⦃x : Externals⦄ (path value : List ℕ) (nref : NodeRef) (f : PathFits path)
    (short : length path ≤ 128) (small : length value < 4294967296) (r : RefFits nref) where
  abbrev leaf_rest : List ℕ
  leaf_rest = path_bytes path ++ (len_bytes (length value) ++ (value ++ write_ref nref))

  record LeafAt (buf : List ℕ) (q : ℕ) : Type 0 where
    path_at : Holds buf q (path_bytes path)
    len_at : Holds buf (q + length (path_bytes path)) (len_bytes (length value))
    value_at : Holds buf (q + length (path_bytes path) + 4) value
    ref_at : Holds buf (q + length (path_bytes path) + 4 + length value) (write_ref nref)

  leaf_at : (buf : List ℕ) (pos : ℕ) → Holds buf pos (1 ∷ leaf_rest) → LeafAt buf (pos + 1)
  leaf_at buf pos h =
      let tail₂ : List ℕ = value ++ write_ref nref in
      let tail₁ : List ℕ = len_bytes (length value) ++ tail₂ in
      let h₁ : Holds buf (pos + 1) leaf_rest = right (1 ∷ []) leaf_rest h refl in
      let h₂ : Holds buf (pos + 1 + length (path_bytes path)) tail₁ =
        right (path_bytes path) tail₁ h₁ refl in
      let h₃ : Holds buf (pos + 1 + length (path_bytes path) + 4) tail₂ =
        right (len_bytes (length value)) tail₂ h₂
          (omega (arith, length-len_bytes (length value))) in
      record {
        path_at = left (path_bytes path) tail₁ h₁;
        len_at = left (len_bytes (length value)) tail₂ h₂;
        value_at = left value (write_ref nref) h₃;
        ref_at = right value (write_ref nref) h₃ refl;
      }

  leaf-extract : extract_ref (1 ∷ leaf_rest) ≡ ok nref
  unfolding extract_ref extract_tagged
  leaf-extract =
      let at = leaf_at (1 ∷ leaf_rest) 0 (whole (1 ∷ leaf_rest)) in
      rw
        (
          read_u8-Holds {pos = 0} 1 leaf_rest (whole (1 ∷ leaf_rest)),
          skip_nibble_path-Holds path 1 at.path_at short,
          read_u32-Holds (length value) at.len_at small,
          read_bytes-Holds value (length value) at.value_at refl,
          read_ref-Holds nref at.ref_at r,
        )
        refl

  leaf_end :
      (pos : ℕ)
      → pos + 1 + length (path_bytes path) + 4 + length value + length (write_ref nref)
        ≡ pos + length (1 ∷ leaf_rest)
  leaf_end pos = simp (length-append, length-len_bytes) (omega arith)

  pub leaf-Reread : Reread (leaf path value nref)
  unfolding write_node read_tagged_lazy read_leaf hash_node
  leaf-Reread = record {
    tag = 1;
    rest = leaf_rest;
    written = rw (write_nibble_path-fits path f (omega arith)) refl;
    read = by_tag (leaf path value nref) 1 leaf_rest (λ buf pos fuel h enough. record {
      n' = leaf path value nref;
      runs =
          let at = leaf_at buf pos h in
          rw
            (
              read_nibble_path-Holds path (pos + 1) at.path_at f short,
              read_u32-Holds (length value) at.len_at small,
              read_bytes-Holds value (length value) at.value_at refl,
              read_ref-Holds nref at.ref_at r,
              leaf_end pos,
            )
            refl;
      copy = cp_leaf path value nref;
      storable = st_leaf path value nref f short small r;
      rewritten = rw (write_nibble_path-fits path f (omega arith)) refl;
      not_raw = refl;
      same_hash = refl;
    });
    extract = λ e. leaf-extract;
  }
