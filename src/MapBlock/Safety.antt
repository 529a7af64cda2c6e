-- ===== src/MapBlock/Safety.antt =====
-- The nodes, static objects and timers of src/lib/map_reader/mapblock.cc: how reading them can end.
use minetest_map_analyzer.Prelude.{
  ℕ, zero, suc, ◌+◌, ◌*◌, ◌≤◌, ◌<◌, ◌≡◌, refl, ap, List, [], ◌∷◌, length, get_elem?-lt, ◌==◌,
  Bool-cases, inl, inr, arith,
}
use minetest_map_analyzer.Exceptions.{ok}
use minetest_map_analyzer.Blob.{BlobReader, Read, size, big_endian}
use minetest_map_analyzer.Blob.Safety.{
  Outcome, Safe, Safe-pure, Safe-bind, Safe-read_u8, Safe-read_u16, safe_rules,
}
use minetest_map_analyzer.Compression.{Zlib}
use minetest_map_analyzer.Compression.Safety.{Safe-decompress_zlib}
use minetest_map_analyzer.Node.{Node}
use minetest_map_analyzer.MapBlock.{nodes_per_block, param0_size, param1_size, node_data_size}
use minetest_map_analyzer.MapBlock.Parts.{
  word_at, resize_nodes, fill_nodes, nodes_of_buffer, deserialize_nodes_28, read_param0,
  read_param1, read_param2, deserialize_nodes_29, static_object, repeat, objects_of_version,
  deserialize_static_objects, node_timer, deserialize_node_timers,
}

length-resize_nodes : (n : ℕ) (nodes : List Node) → length (resize_nodes n nodes) ≡ n
unfolding resize_nodes
length-resize_nodes zero nodes = refl
length-resize_nodes (suc n) [] = ap suc (length-resize_nodes n [])
length-resize_nodes (suc n) (node ∷ nodes) = ap suc (length-resize_nodes n nodes)

Safe-static_object : Safe static_object
unfolding static_object
Safe-static_object = search safe_rules depth 9

Safe-node_timer : Safe node_timer
unfolding node_timer
Safe-node_timer = search safe_rules depth 9

Safe-repeat : (n : ℕ) (body : Read (Unit {0})) → Safe body → Safe (repeat n body)
unfolding repeat
Safe-repeat zero body h = Safe-pure tt
Safe-repeat (suc n) body h = Safe-bind body _ h (λ u. Safe-repeat n body h)

Safe-objects_of_version : (v : ℕ) → Safe (objects_of_version v)
unfolding objects_of_version
Safe-objects_of_version v = search (safe_rules, Safe-repeat, Safe-static_object) depth 8

-- Skipping the static objects always ends, inside the blob or with a SerializationError.
Safe-deserialize_static_objects : Safe deserialize_static_objects
unfolding deserialize_static_objects
Safe-deserialize_static_objects = search (safe_rules, Safe-objects_of_version) depth 8

-- So does skipping the node timers.
Safe-deserialize_node_timers : Safe deserialize_node_timers
unfolding deserialize_node_timers
Safe-deserialize_node_timers = search (safe_rules, Safe-repeat, Safe-node_timer) depth 8

Safe-read_param0 : (nodes : List Node) → Safe (read_param0 nodes)
unfolding read_param0
Safe-read_param0 [] = Safe-pure []
Safe-read_param0 (node ∷ nodes) =
    Safe-bind _ _ (Safe-read_u16 "nodes.param0")
      λ p. Safe-bind _ _ (Safe-read_param0 nodes) λ rest. Safe-pure _

Safe-read_param1 : (nodes : List Node) → Safe (read_param1 nodes)
unfolding read_param1
Safe-read_param1 [] = Safe-pure []
Safe-read_param1 (node ∷ nodes) =
    Safe-bind _ _ (Safe-read_u8 "nodes.param1")
      λ p. Safe-bind _ _ (Safe-read_param1 nodes) λ rest. Safe-pure _

Safe-read_param2 : (nodes : List Node) → Safe (read_param2 nodes)
unfolding read_param2
Safe-read_param2 [] = Safe-pure []
Safe-read_param2 (node ∷ nodes) =
    Safe-bind _ _ (Safe-read_u8 "nodes.param2")
      λ p. Safe-bind _ _ (Safe-read_param2 nodes) λ rest. Safe-pure _

Safe-deserialize_nodes_29 : (nodes : List Node) → Safe (deserialize_nodes_29 nodes)
unfolding deserialize_nodes_29
Safe-deserialize_nodes_29 nodes =
    search (safe_rules, Safe-read_param0, Safe-read_param1, Safe-read_param2) depth 8

word_at_lem : (bytes : List ℕ) (i : ℕ) → i + 1 < length bytes → (v : ℕ) × (word_at bytes i ≡ ok v)
word_at_lem bytes i h =
    let (hi, e) = get_elem?-lt bytes i (omega arith) in
    let (lo, e') = get_elem?-lt bytes (i + 1) h in (big_endian (hi ∷ lo ∷ []), rw (e, e'))

-- Every index that the loop over the buffer reads is inside it.
fill_nodes_lem :
    (buffer : List ℕ) (i : ℕ) (nodes : List Node)
    → length buffer ≡ node_data_size
    → i + length nodes ≤ nodes_per_block
    → (nodes' : List Node) × (fill_nodes buffer i nodes ≡ ok nodes')
      × (length nodes' ≡ length nodes)
unfolding fill_nodes
fill_nodes_lem buffer i [] h k = ([], refl, refl)
fill_nodes_lem buffer i (node ∷ nodes) h k =
    let (p0, e0) = word_at_lem buffer (i * 2) (omega arith) in
    let (p1, e1) = get_elem?-lt buffer (param0_size + i) (omega arith) in
    let (p2, e2) = get_elem?-lt buffer (param0_size + param1_size + i) (omega arith) in
    let (rest, e, len) = fill_nodes_lem buffer (i + 1) nodes h (omega arith) in
    (
      record node { param_0 = p0; param_1 = p1; param_2 = p2 } ∷ rest,
      rw (e0, e1, e2, e),
      ap suc len,
    )

Safe-nodes_of_buffer : (nodes : List Node) (buffer : List ℕ) → Safe (nodes_of_buffer nodes buffer)
unfolding nodes_of_buffer
Safe-nodes_of_buffer nodes buffer = record {
  at = λ r v. elim (Bool-cases (length buffer == node_data_size)) [
    | inl e ↦
        let (filled, run, len) =
          fill_nodes_lem buffer 0 (resize_nodes nodes_per_block nodes) (ground arith)
            (omega (arith, length-resize_nodes nodes_per_block nodes)) in
        rw (e, run) (refl, omega arith, v)
    | inr e ↦ rw e (refl, omega arith)
  ];
}

-- Reading the nodes of format 28 ends, and no byte outside the decompressed buffer is read.
Safe-deserialize_nodes_28 :
    (zlib : Zlib) (nodes : List Node) → Safe (deserialize_nodes_28 zlib nodes)
unfolding deserialize_nodes_28
Safe-deserialize_nodes_28 zlib nodes =
    Safe-bind _ _ (Safe-decompress_zlib zlib "nodes") (Safe-nodes_of_buffer nodes)

-- From a reader inside its blob, reading the nodes of format 28 ends: either it returns, with the reader
-- moved forward inside the same blob, or it throws a SerializationError that shows the blob's size. No
-- index leaves the decompressed buffer or the vector of nodes.
pub deserialize_nodes_28-Outcome :
    (zlib : Zlib) (nodes : List Node) (r : BlobReader)
    → r.ptr ≤ size r
    → Outcome r (deserialize_nodes_28 zlib nodes r)
deserialize_nodes_28-Outcome zlib nodes r v = (Safe-deserialize_nodes_28 zlib nodes).at r v

-- From a reader inside its blob, reading the nodes of format 29 ends: either it returns, with the reader
-- moved forward inside the same blob, or it throws a SerializationError that shows the blob's size.
deserialize_nodes_29-Outcome :
    (nodes : List Node) (r : BlobReader) → r.ptr ≤ size r → Outcome r (deserialize_nodes_29 nodes r)
deserialize_nodes_29-Outcome nodes r v = (Safe-deserialize_nodes_29 nodes).at r v
