-- ===== src/MapBlock/Parts.antt =====
-- src/lib/map_reader/mapblock.cc: the parts of a block that involve no names, which are the nodes, the
-- metadata, the static objects and the timers.
use minetest_map_analyzer.Prelude.{
  ℕ, zero, suc, ◌+◌, ◌*◌, List, [], ◌∷◌, length, get_elem?, set, leb, ◌==◌, if◌then◌else◌,
}
use minetest_map_analyzer.Exceptions.{Extra, Result, ok, bind_result, or_out_of_range, or_undefined}
use minetest_map_analyzer.Blob.{
  BlobReader, Read, reader, pure, fail, read_u8, read_u16, read_s32, skip, serialization_error,
  big_endian, ◌>>=◌, ◌>>◌,
}
use minetest_map_analyzer.Node.{Node, new_node, deserialize_metadata}
use minetest_map_analyzer.Compression.{Zlib, decompress_zlib}
use minetest_map_analyzer.MapBlock.{nodes_per_block, param0_size, param1_size, node_data_size}

-- `nodes_.resize(n)`
unfoldable pub resize_nodes : ℕ → List Node → List Node
resize_nodes zero nodes = []
resize_nodes (suc n) [] = new_node ∷ resize_nodes n []
resize_nodes (suc n) (node ∷ nodes) = node ∷ resize_nodes n nodes

-- ntohs of the two bytes at an index.
abbrev pub word_at : List ℕ → ℕ → Result ℕ
word_at bytes i =
    bind_result (or_undefined (get_elem? bytes i)) λ hi.
      bind_result (or_undefined (get_elem? bytes (i + 1))) λ lo. ok (big_endian (hi ∷ lo ∷ []))

-- The loop of deserialize_nodes_28, from the node with index `i` on.
unfoldable pub fill_nodes : List ℕ → ℕ → List Node → Result (List Node)
fill_nodes buffer i [] = ok []
fill_nodes buffer i (node ∷ nodes) = bind_result (word_at buffer (i * 2)) λ p0.
    bind_result (or_undefined (get_elem? buffer (param0_size + i))) λ p1.
      bind_result (or_undefined (get_elem? buffer (param0_size + param1_size + i))) λ p2.
        bind_result (fill_nodes buffer (i + 1) nodes)
          λ rest. ok (record node { param_0 = p0; param_1 = p1; param_2 = p2 } ∷ rest)

-- The body of deserialize_nodes_28 behind its decompression.
unfoldable pub nodes_of_buffer : List Node → List ℕ → Read (List Node)
nodes_of_buffer nodes buffer r =
    if length buffer == node_data_size
    then bind_result (fill_nodes buffer 0 (resize_nodes nodes_per_block nodes))
        (λ nodes'. ok (nodes', r))
    else serialization_error r "MapBlock::deserialize_nodes"
        (Extra.wrong_node_bytes (length buffer))

-- MapBlock::deserialize_nodes_28
unfoldable pub deserialize_nodes_28 : Zlib → List Node → Read (List Node)
deserialize_nodes_28 zlib nodes = do
  buffer ← decompress_zlib zlib "nodes"
  nodes_of_buffer nodes buffer

-- The three loops of deserialize_nodes_29.
unfoldable pub read_param0 : List Node → Read (List Node)
read_param0 [] = pure []
read_param0 (node ∷ nodes) = do
  p ← read_u16 "nodes.param0"
  rest ← read_param0 nodes
  pure (record node { param_0 = p } ∷ rest)

unfoldable pub read_param1 : List Node → Read (List Node)
read_param1 [] = pure []
read_param1 (node ∷ nodes) = do
  p ← read_u8 "nodes.param1"
  rest ← read_param1 nodes
  pure (record node { param_1 = p } ∷ rest)

unfoldable pub read_param2 : List Node → Read (List Node)
read_param2 [] = pure []
read_param2 (node ∷ nodes) = do
  p ← read_u8 "nodes.param2"
  rest ← read_param2 nodes
  pure (record node { param_2 = p } ∷ rest)

-- MapBlock::deserialize_nodes_29
unfoldable pub deserialize_nodes_29 : List Node → Read (List Node)
deserialize_nodes_29 nodes = do
  with_param0 ← read_param0 (resize_nodes nodes_per_block nodes)
  with_param1 ← read_param1 with_param0
  read_param2 with_param1

-- The metadata of the two formats differ in the reader that an error names: `report` gives it.
module _ (report : BlobReader → BlobReader) where
  unfoldable pub meta_at : ℕ → List Node → ℕ → Read (List Node)
  meta_at version nodes local_pos r =
      if leb nodes_per_block local_pos
      then serialization_error (report r) "MapBlock::deserialize_metadata"
          (Extra.invalid_meta_pos local_pos)
      else bind_result (or_out_of_range (get_elem? nodes local_pos)) λ node.
        (deserialize_metadata version node >>= λ node'. pure (set nodes local_pos node')) r

  -- The loop over the nodes that have metadata.
  unfoldable pub meta_loop : ℕ → ℕ → List Node → Read (List Node)
  meta_loop zero version nodes = pure nodes
  meta_loop (suc left) version nodes = do
    local_pos ← read_u16 "meta.pos"
    nodes' ← meta_at version nodes local_pos
    meta_loop left version nodes'

  unfoldable pub meta_of_version : List Node → ℕ → Read (List Node)
  meta_of_version nodes version r =
      if version == 0
      then ok (nodes, r)
      else if version == 2
      then (do count ← read_u16 "meta.count"; meta_loop count version nodes) r
      else serialization_error (report r) "deserialize_metadata"
          (Extra.unsupported_meta_version version)

  unfoldable pub read_metadata : List Node → Read (List Node)
  read_metadata nodes = do version ← read_u8 "meta.version"; meta_of_version nodes version

-- MapBlock::deserialize_metadata_28: the metadata has a blob of its own, and bytes behind it are ignored.
unfoldable pub deserialize_metadata_28 : Zlib → List Node → Read (List Node)
deserialize_metadata_28 zlib nodes = do
  meta_buffer ← decompress_zlib zlib "metadata"
  λ r. bind_result (read_metadata (λ inner. r) nodes (reader meta_buffer)) (λ p. ok (p.0, r))

-- MapBlock::deserialize_metadata_29
unfoldable pub deserialize_metadata_29 : List Node → Read (List Node)
deserialize_metadata_29 nodes = read_metadata (λ r. r) nodes

unfoldable pub static_object : Read (Unit {0})
static_object = do
  kind ← read_u8 "static_object.type"
  x ← read_s32 "static_object.x"
  y ← read_s32 "static_object.y"
  z ← read_s32 "static_object.z"
  data_size ← read_u16 "static_object.data_size"
  skip data_size "static_object.data"

-- A loop that counts down and keeps nothing.
unfoldable pub repeat : ℕ → Read (Unit {0}) → Read (Unit {0})
repeat zero body = pure tt
repeat (suc left) body = body >> repeat left body

unfoldable pub objects_of_version : ℕ → Read (Unit {0})
objects_of_version obj_version =
    if obj_version == 0
    then (do obj_count ← read_u16 "static_object.count"; repeat obj_count static_object)
    else fail "deserialize_static_objects" (Extra.unsupported_object_version obj_version)

-- MapBlock::deserialize_static_objects
unfoldable pub deserialize_static_objects : Read (Unit {0})
deserialize_static_objects = do
  obj_version ← read_u8 "static_object.version"
  objects_of_version obj_version

unfoldable pub node_timer : Read (Unit {0})
node_timer = do
  pos ← read_u16 "timer.pos"
  timeout ← read_s32 "timer.timeout"
  elapsed ← read_s32 "timer.elapsed"
  pure tt

-- MapBlock::deserialize_node_timers
unfoldable pub deserialize_node_timers : Read (Unit {0})
deserialize_node_timers = do
  single_timer_len ← read_u8 "timer.len"
  num_of_timers ← read_u16 "timer.count"
  repeat num_of_timers node_timer
