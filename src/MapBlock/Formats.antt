-- ===== src/MapBlock/Formats.antt =====
-- src/lib/map_reader/mapblock.cc: the two formats of a block, and MapBlock::deserialize.
use minetest_map_analyzer.Prelude.{ℕ, List, min, take, ◌==◌, if◌then◌else◌}
use minetest_map_analyzer.Exceptions.{Extra, Result, ok, bind_result}
use minetest_map_analyzer.Blob
use minetest_map_analyzer.Blob.{
  BlobReader, Read, reader, remaining, ahead, read_u8, read_u16, read_u32,
}
use minetest_map_analyzer.Compression.{Zlib, Zstd, decompress_zstd}
use minetest_map_analyzer.MapBlock.{MapBlock, new_block, Action, pure, read, ◌>>=◌}
use minetest_map_analyzer.MapBlock.Parts.{
  deserialize_nodes_28, deserialize_nodes_29, deserialize_metadata_28, deserialize_metadata_29,
  deserialize_static_objects, deserialize_node_timers,
}
use minetest_map_analyzer.MapBlock.Names.{deserialize_name_id_mapping, remap_param0}

-- MapBlock::verify_all_data_consumed. The message shows at most 128 of the bytes left.
unfoldable pub verify_all_data_consumed : Read (Unit {0})
verify_all_data_consumed r =
    if remaining r == 0
    then ok (tt, r)
    else Blob.fail "MapBlock::deserialize"
        (Extra.left_over (take (min 128 (remaining r)) (ahead r))) r

unfoldable pub check_content_width : ℕ → Read (Unit {0})
check_content_width width =
    if width == 2
    then Blob.pure tt
    else Blob.fail "MapBlock::deserialize" (Extra.unsupported_content_width width)

unfoldable pub check_params_width : ℕ → Read (Unit {0})
check_params_width width =
    if width == 2
    then Blob.pure tt
    else Blob.fail "MapBlock::deserialize" (Extra.unsupported_params_width width)

module _ (zlib : Zlib) (zstd : Zstd) {S : Type 0} (add : S → List ℕ → Result (ℕ × S)) where
  -- MapBlock::deserialize_format_28
  unfoldable pub deserialize_format_28 : MapBlock → Action S MapBlock
  deserialize_format_28 block = do
    flags ← read (read_u8 "flags")
    lighting_complete ← read (read_u16 "lighting_complete")
    content_width ← read (read_u8 "content_width")
    content_ok ← read (check_content_width content_width)
    params_width ← read (read_u8 "params_width")
    params_ok ← read (check_params_width params_width)
    nodes ← read (deserialize_nodes_28 zlib block.nodes)
    nodes' ← read (deserialize_metadata_28 zlib nodes)
    objects ← read deserialize_static_objects
    timestamp ← read (read_u32 "timestamp")
    param0_map ← deserialize_name_id_mapping add block.param0_map
    timers ← read deserialize_node_timers
    pure (record block {
      flags = flags;
      lighting_complete = lighting_complete;
      timestamp = timestamp;
      content_width = content_width;
      params_width = params_width;
      nodes = nodes';
      param0_map = param0_map;
    })

  -- The part of deserialize_format_29 that reads the decompressed bytes.
  unfoldable pub format_29_body : MapBlock → Action S MapBlock
  format_29_body block = do
    flags ← read (read_u8 "flags")
    lighting_complete ← read (read_u16 "lighting_complete")
    timestamp ← read (read_u32 "timestamp")
    param0_map ← deserialize_name_id_mapping add block.param0_map
    content_width ← read (read_u8 "content_width")
    content_ok ← read (check_content_width content_width)
    params_width ← read (read_u8 "params_width")
    params_ok ← read (check_params_width params_width)
    nodes ← read (deserialize_nodes_29 block.nodes)
    nodes' ← read (deserialize_metadata_29 nodes)
    objects ← read deserialize_static_objects
    timers ← read deserialize_node_timers
    consumed ← read verify_all_data_consumed
    pure (record block {
      flags = flags;
      lighting_complete = lighting_complete;
      timestamp = timestamp;
      content_width = content_width;
      params_width = params_width;
      nodes = nodes';
      param0_map = param0_map;
    })

  -- What a reader of its own returned, with the outer reader as it stands.
  abbrev back_to :
      BlobReader → Result (MapBlock × BlobReader) × S → Result (MapBlock × BlobReader) × S
  back_to r (result, s) = (bind_result result (λ p. ok (p.0, r)), s)

  -- MapBlock::deserialize_format_29
  unfoldable pub deserialize_format_29 : MapBlock → Action S MapBlock
  deserialize_format_29 block = do
    fmt29_raw ← read (decompress_zstd zstd "format-29.zstd")
    λ r s. back_to r (format_29_body block (reader fmt29_raw) s)

  unfoldable pub deserialize_version : MapBlock → Action S MapBlock
  deserialize_version block =
      if block.version == 28
      then deserialize_format_28 block
      else if block.version == 29
      then deserialize_format_29 block
      else read (Blob.fail "MapBlock::deserialize" (Extra.unsupported_version block.version))

  unfoldable pub finish_nodes : MapBlock → Read MapBlock
  finish_nodes block r =
      bind_result (remap_param0 block.param0_map block.nodes)
        (λ nodes. ok (record block { nodes = nodes }, r))

  -- MapBlock::deserialize, on a block as the constructor leaves it.
  unfoldable pub deserialize : Action S MapBlock
  deserialize = do
    version ← read (read_u8 "version")
    block ← deserialize_version (record new_block { version = version })
    remapped ← read (finish_nodes block)
    consumed ← read verify_all_data_consumed
    pure remapped
