-- ===== src/Codec/Reread/Extension.antt =====
-- src/lib.rs: an extension written and read again.
use mpt_flat_poc.Prelude.{ℕ, ◌+◌, ◌≤◌, ◌≡◌, refl, List, [], ◌∷◌, ◌++◌, length, length-append, arith}
use mpt_flat_poc.Externals.{Externals}
use mpt_flat_poc.Node.{NodeRef, Node, extension, hash_node}
use mpt_flat_poc.Codec.Write.{write_ref, write_node}
use mpt_flat_poc.Codec.Reader.{read_extension}
use mpt_flat_poc.Codec.Lazy.{extract_tagged, extract_ref, read_tagged_lazy, read_node_lazy}
use mpt_flat_poc.Codec.Size.{PathFits, RefFits, write_nibble_path-fits}
use mpt_flat_poc.Codec.Holds.{
  Holds, left, right, read_u8-Holds, read_ref-Holds, read_nibble_path-Holds, skip_nibble_path-Holds,
}
use mpt_flat_poc.Codec.Copy.{st_extension, cp_extension}
use mpt_flat_poc.Result.{ok}
use mpt_flat_poc.Codec.Reread.{Back, Reread, by_tag, whole, path_bytes}

module _ ⦃x : Externals⦄ (path : List ℕ) (child : Node) (nref : NodeRef) (f : PathFits path)
    (short : length path ≤ 128) (r : RefFits nref) (c : Reread child) where
  abbrev ext_rest : List ℕ
  ext_rest = path_bytes path ++ (write_ref nref ++ (c.tag ∷ c.rest))

  record ExtensionAt (buf : List ℕ) (q : ℕ) : Type 0 where
    path_at : Holds buf q (path_bytes path)
    ref_at : Holds buf (q + length (path_bytes path)) (write_ref nref)
    child_at : Holds buf (q + length (path_bytes path) + length (write_ref nref)) (c.tag ∷ c.rest)

  extension_at : (buf : List ℕ) (pos : ℕ) → Holds buf pos (2 ∷ ext_rest) → ExtensionAt buf (pos + 1)
  extension_at buf pos h =
      let tail₁ : List ℕ = write_ref nref ++ (c.tag ∷ c.rest) in
      let h₁ : Holds buf (pos + 1) ext_rest = right (2 ∷ []) ext_rest h refl in
      let h₂ : Holds buf (pos + 1 + length (path_bytes path)) tail₁ =
        right (path_bytes path) tail₁ h₁ refl in
      record {
        path_at = left (path_bytes path) tail₁ h₁;
        ref_at = left (write_ref nref) (c.tag ∷ c.rest) h₂;
        child_at = right (write_ref nref) (c.tag ∷ c.rest) h₂ refl;
      }

  extension-extract : extract_ref (2 ∷ ext_rest) ≡ ok nref
  unfolding extract_ref extract_tagged
  extension-extract =
      let at = extension_at (2 ∷ ext_rest) 0 (whole (2 ∷ ext_rest)) in
      rw
        (
          read_u8-Holds {pos = 0} 2 ext_rest (whole (2 ∷ ext_rest)),
          skip_nibble_path-Holds path 1 at.path_at short,
          read_ref-Holds nref at.ref_at r,
        )
        refl

  extension_end :
      (pos : ℕ)
      → pos + 1 + length (path_bytes path) + length (write_ref nref) + length (c.tag ∷ c.rest)
        ≡ pos + length (2 ∷ ext_rest)
  extension_end pos = simp length-append (omega arith)

  extension_room : (fuel : ℕ) → length ext_rest ≤ fuel → length (c.tag ∷ c.rest) ≤ fuel
  extension_room fuel h = omega (
    arith,
    h,
    length-append (path_bytes path) (write_ref nref ++ (c.tag ∷ c.rest)),
    length-append (write_ref nref) (c.tag ∷ c.rest),
  )

  extension-Back :
      (buf : List ℕ) (pos fuel : ℕ)
      → Holds buf pos (2 ∷ ext_rest)
      → length ext_rest ≤ fuel
      → Back
          (extension path child nref)
          (2 ∷ ext_rest)
          (read_tagged_lazy 2 (read_node_lazy fuel) buf (pos + 1))
          (pos + length (2 ∷ ext_rest))
  unfolding write_node read_tagged_lazy read_extension hash_node
  extension-Back buf pos fuel h enough =
      let at = extension_at buf pos h in
      let b = c.read buf _ fuel at.child_at (extension_room fuel enough) in
      record {
        n' = extension path b.n' nref;
        runs =
            rw
              (
                read_nibble_path-Holds path (pos + 1) at.path_at f short,
                read_ref-Holds nref at.ref_at r,
                b.runs,
                extension_end pos,
              )
              refl;
        copy = cp_extension path child b.n' nref b.not_raw b.copy;
        storable = st_extension path b.n' nref f short r b.storable;
        rewritten = rw (write_nibble_path-fits path f (omega arith), b.rewritten) refl;
        not_raw = refl;
        same_hash = refl;
      }

  pub extension-Reread : Reread (extension path child nref)
  unfolding write_node hash_node
  extension-Reread = record {
    tag = 2;
    rest = ext_rest;
    written = rw (write_nibble_path-fits path f (omega arith), c.written) refl;
    read = by_tag (extension path child nref) 2 ext_rest extension-Back;
    extract = λ e. extension-extract;
  }
