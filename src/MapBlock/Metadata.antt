-- ===== src/MapBlock/Metadata.antt =====
-- deserialize_metadata_28 and deserialize_metadata_29 of src/lib/map_reader/mapblock.cc: how they can end.
use minetest_map_analyzer.Prelude.{
  some, sym, ℕ, zero, suc, ◌≤◌, ◌≡◌, ap, ◌∙◌, false, List, length, get_elem?, get_elem?-lt,
  length-set, set, leb, ◌==◌, Bool-cases, inl, inr, arith,
}
use minetest_map_analyzer.Exceptions.{Result, ok, throw, bind_result, ok-injective}
use minetest_map_analyzer.Blob.{BlobReader, reader, size, pure, ◌>>=◌}
use minetest_map_analyzer.Blob.Safety.{Safe-pure, Safe-read_u8, Safe-read_u16}
use minetest_map_analyzer.Blob.Handled.{Ending, Handled, Safe-Handled, Handled-bind}
use minetest_map_analyzer.Compression.{Zlib}
use minetest_map_analyzer.Compression.Safety.{Safe-decompress_zlib}
use minetest_map_analyzer.Node.{Node, deserialize_metadata}
use minetest_map_analyzer.Node.Safety.{Safe-deserialize_metadata}
use minetest_map_analyzer.MapBlock.{nodes_per_block}
use minetest_map_analyzer.MapBlock.Parts.{
  meta_at, meta_loop, meta_of_version, read_metadata, deserialize_metadata_28,
  deserialize_metadata_29,
}

module _ (report : BlobReader → BlobReader) where
  -- The node read at a position replaces the old one.
  meta_at_node :
      (version : ℕ) (nodes : List Node) (local_pos : ℕ) (node : Node) (r : BlobReader)
      → leb nodes_per_block local_pos ≡ false
      → get_elem? nodes local_pos ≡ some node
      → meta_at report version nodes local_pos r
        ≡ (deserialize_metadata version node >>= λ node'. pure (set nodes local_pos node')) r
  unfolding meta_at
  meta_at_node version nodes local_pos node r e e' = rw (e, e')

  meta_at-Handled :
      (version : ℕ) (nodes : List Node) (local_pos : ℕ)
      → length nodes ≡ nodes_per_block
      → Handled (meta_at report version nodes local_pos)
  meta_at-Handled version nodes local_pos len = record {
    at = λ r v. elim (Bool-cases (leb nodes_per_block local_pos)) [
      | inl e ↦ unfold meta_at in rw e tt
      | inr e ↦
          let (node, at_pos) = get_elem?-lt nodes local_pos (ground arith) in
          rw (meta_at_node version nodes local_pos node r e at_pos) (
            (Handled-bind (deserialize_metadata version node) _
                (Safe-Handled _ (Safe-deserialize_metadata version node))
                (λ node' q q' eq. Safe-Handled _ (Safe-pure (set nodes local_pos node')))).at
              r v)
    ];
  }

  set_node_length :
      (nodes nodes' : List Node) (local_pos : ℕ) (r' : BlobReader) (o : Result (Node × BlobReader))
      → bind_result {B = List Node × BlobReader} o (λ p. ok (set nodes local_pos p.0, p.1))
        ≡ ok (nodes', r')
      → length nodes' ≡ length nodes
  set_node_length nodes nodes' local_pos r' (throw e) h = cc
  set_node_length nodes nodes' local_pos r' (ok (node, q)) h =
      ap (λ (p : List Node × BlobReader). length p.0) (sym (ok-injective h))
      ∙ length-set nodes local_pos node

  meta_at-length :
      (version : ℕ) (nodes nodes' : List Node) (local_pos : ℕ) (r r' : BlobReader)
      → length nodes ≡ nodes_per_block
      → meta_at report version nodes local_pos r ≡ ok (nodes', r')
      → length nodes' ≡ nodes_per_block
  meta_at-length version nodes nodes' local_pos r r' len h =
      elim (Bool-cases (leb nodes_per_block local_pos)) [
        | inl e ↦ unfold meta_at in cc (rw e at h)
        | inr e ↦
            let (node, at_pos) = get_elem?-lt nodes local_pos (ground arith) in
            set_node_length nodes nodes' local_pos r' (deserialize_metadata version node r)
              (rw (meta_at_node version nodes local_pos node r e at_pos) at h)
            ∙ len
      ]

  meta_loop-Handled :
      (left version : ℕ) (nodes : List Node)
      → length nodes ≡ nodes_per_block
      → Handled (meta_loop report left version nodes)
  unfolding meta_loop
  meta_loop-Handled zero version nodes len = Safe-Handled _ (Safe-pure nodes)
  meta_loop-Handled (suc left) version nodes len =
      Handled-bind _ _ (Safe-Handled _ (Safe-read_u16 "meta.pos")) λ local_pos q q' e.
        Handled-bind _ _ (meta_at-Handled version nodes local_pos len) λ nodes' r r' e'.
          meta_loop-Handled left version nodes'
            (meta_at-length version nodes nodes' local_pos r r' len e')

  meta_of_version-Handled :
      (nodes : List Node) (version : ℕ)
      → length nodes ≡ nodes_per_block
      → Handled (meta_of_version report nodes version)
  unfolding meta_of_version
  meta_of_version-Handled nodes version len = record {
    at = λ r v. elim (Bool-cases (version == 0)) [
      | inl e ↦ rw e v
      | inr e ↦ elim (Bool-cases (version == 2)) [
        | inr e' ↦ rw (e, e') tt
        | inl e' ↦
            rw (e, e')
              ((Handled-bind _ _ (Safe-Handled _ (Safe-read_u16 "meta.count"))
                  (λ count q q' eq. meta_loop-Handled count version nodes len)).at
                r v)
      ]
    ];
  }

  read_metadata-Handled :
      (nodes : List Node) → length nodes ≡ nodes_per_block → Handled (read_metadata report nodes)
  unfolding read_metadata
  read_metadata-Handled nodes len =
      Handled-bind _ _ (Safe-Handled _ (Safe-read_u8 "meta.version"))
        (λ version q q' e. meta_of_version-Handled nodes version len)

module _ (nodes : List Node) (h : length nodes ≡ nodes_per_block) where
  Ending-back :
      (r : BlobReader) (o : Result (List Node × BlobReader))
      → r.ptr ≤ size r
      → Ending o
      → Ending (bind_result {B = List Node × BlobReader} o (λ p. ok (p.0, r)))
  Ending-back r (ok (nodes', inner)) v e = v
  Ending-back r (throw e) v h' = h'

  deserialize_metadata_28-Handled : (zlib : Zlib) → Handled (deserialize_metadata_28 zlib nodes)
  unfolding deserialize_metadata_28
  deserialize_metadata_28-Handled zlib =
      Handled-bind _ _ (Safe-Handled _ (Safe-decompress_zlib zlib "metadata")) λ buffer q q' e.
        record {
          at = λ r v.
              Ending-back r (read_metadata (λ inner. r) nodes (reader buffer)) v
                ((read_metadata-Handled (λ inner. r) nodes h).at (reader buffer) (omega arith));
        }

  deserialize_metadata_29-Handled : Handled (deserialize_metadata_29 nodes)
  unfolding deserialize_metadata_29
  deserialize_metadata_29-Handled = read_metadata-Handled (λ r. r) nodes h

-- On a block with all its nodes and from a reader inside its blob, reading the metadata of format 28 ends:
-- it returns with a reader inside its blob, or throws a SerializationError. No index is out of range,
-- whatever zlib returns.
pub deserialize_metadata_28-Ending :
    (zlib : Zlib) (nodes : List Node) (r : BlobReader)
    → length nodes ≡ nodes_per_block
    → r.ptr ≤ size r
    → Ending (deserialize_metadata_28 zlib nodes r)
deserialize_metadata_28-Ending zlib nodes r h v =
    (deserialize_metadata_28-Handled nodes h zlib).at r v

-- On a block with all its nodes and from a reader inside its blob, reading the metadata of format 29 ends:
-- it returns with a reader inside its blob, or throws a SerializationError. No index is out of range.
deserialize_metadata_29-Ending :
    (nodes : List Node) (r : BlobReader)
    → length nodes ≡ nodes_per_block
    → r.ptr ≤ size r
    → Ending (deserialize_metadata_29 nodes r)
deserialize_metadata_29-Ending nodes r h v = (deserialize_metadata_29-Handled nodes h).at r v
