-- ===== src/Tests/Blocks.antt =====
-- Blocks, on a compression that stores its bytes: one call takes all the input, and writes as much of it
-- as there is room for.
use minetest_map_analyzer.Prelude.{
  ℕ, zero, suc, length-drop, ◌≤◌, ◌<◌, ◌≡◌, some, List, [], ◌∷◌, map, length, length-replicate,
  replicate, drop, take, set, ltb, if◌then◌else◌, arith,
}
use minetest_map_analyzer.Prelude.Int.{ℤ, pos}
use minetest_map_analyzer.Exceptions.{ok, throw, undefined, out_of_range}
use minetest_map_analyzer.Blob.{BlobReader, reader}
use minetest_map_analyzer.Blob.Safety.{Outcome}
use minetest_map_analyzer.Blob.Handled.{Ending}
use minetest_map_analyzer.Compression.{Call, Zlib, Zstd, decompress_zlib, decompress_zstd}
use minetest_map_analyzer.Compression.Safety.{decompress_zlib-Outcome, decompress_zstd-Outcome}
use minetest_map_analyzer.Node.{Node, new_node}
use minetest_map_analyzer.MapBlock.{nodes_per_block}
use minetest_map_analyzer.MapBlock.Parts.{deserialize_nodes_28, deserialize_metadata_28}
use minetest_map_analyzer.MapBlock.Names.{make_room, store_entry, remap_param0}
use minetest_map_analyzer.MapBlock.Entries.{
  all_mapped, renumber, remap_param0_lem, store_entry-make_room,
}
use minetest_map_analyzer.MapBlock.Safety.{deserialize_nodes_28-Outcome}
use minetest_map_analyzer.MapBlock.Metadata.{deserialize_metadata_28-Ending}

pub length-take : (n : ℕ) (xs : List ℕ) → length (take n xs) ≤ n
length-take zero xs = omega arith
length-take (suc n) [] = omega arith
length-take (suc n) (x ∷ xs) = omega (arith, length-take n xs)

abbrev stored : ℕ → List ℕ → ℕ → Call (Unit {0})
stored status input room = record {
  status = status;
  used = length input;
  written = take room input;
  stream = tt;
}

pub not_running : ◌≡◌ {A = ℕ} 1 0 → ⊥
not_running e = omega arith

-- The stream ends with the only call.
abbrev pub stored_zlib : Zlib
stored_zlib = record {
  Stream = Unit {0};
  inflate_init = some tt;
  inflate = λ s. stored 1;
  pending = λ s input. length input;
  inflate_within = λ s input room. (omega arith, length-take room input);
  inflate_progress = λ s input room e. absurd (not_running e);
}

abbrev blob : BlobReader
blob = reader (0 ∷ 1 ∷ 2 ∷ [])

decompress_zlib-Outcome_example : Outcome blob (decompress_zlib stored_zlib "test" blob)
decompress_zlib-Outcome_example = decompress_zlib-Outcome stored_zlib "test" blob (omega arith)

-- A call takes all the input; a call without input is an error.
abbrev stored_call : List ℕ → ℕ → Call (Unit {0})
stored_call [] room = record { status = 1; used = 0; written = []; stream = tt }
stored_call (c ∷ input) room = stored 0 (c ∷ input) room

pub stored_call-within :
    (input : List ℕ) (room : ℕ)
    → ((stored_call input room).used ≤ length input)
      × (length (stored_call input room).written ≤ room)
stored_call-within [] room = (omega arith, omega arith)
stored_call-within (c ∷ input) room = (omega arith, length-take room (c ∷ input))

pub stored_call-progress :
    (input : List ℕ) (room : ℕ)
    → (stored_call input room).status ≡ 0
    → length (drop (stored_call input room).used input) < length input
stored_call-progress [] room e = cc
stored_call-progress (c ∷ input) room e = omega (arith, length-drop (length input) input)

abbrev pub stored_zstd : Zstd
stored_zstd = record {
  Stream = Unit {0};
  init_stream = tt;
  decompress_stream = λ s. stored_call;
  pending = λ s input. length input;
  decompress_within = λ s. stored_call-within;
  decompress_progress = λ s. stored_call-progress;
}

decompress_zstd-Outcome_example : Outcome blob (decompress_zstd stored_zstd "test" blob)
decompress_zstd-Outcome_example = decompress_zstd-Outcome stored_zstd "test" blob (omega arith)

deserialize_nodes_28-Outcome_example : Outcome blob (deserialize_nodes_28 stored_zlib [] blob)
deserialize_nodes_28-Outcome_example =
    deserialize_nodes_28-Outcome stored_zlib [] blob (omega arith)

abbrev full_block : List Node
full_block = replicate nodes_per_block new_node

full_length : length full_block ≡ nodes_per_block
full_length = length-replicate nodes_per_block new_node

deserialize_metadata_28-Ending_example :
    Ending (deserialize_metadata_28 stored_zlib full_block blob)
deserialize_metadata_28-Ending_example =
    deserialize_metadata_28-Ending stored_zlib full_block blob full_length (omega arith)

abbrev entries : List ℤ
entries = pos 2 ∷ pos 9 ∷ []

abbrev second : Node
second = record new_node { param_0 = 1 }

remap_param0_lem_example : remap_param0 entries (new_node ∷ second ∷ []) ≡ (
    if all_mapped entries (new_node ∷ second ∷ [])
    then ok (map (renumber entries) (new_node ∷ second ∷ []))
    else throw out_of_range)
remap_param0_lem_example = remap_param0_lem entries (new_node ∷ second ∷ [])

store_entry-make_room_example :
    store_entry (make_room entries 5) 5 (pos 7)
    ≡ (if ltb 5 (length entries) then ok (set entries 5 (pos 7)) else throw undefined)
store_entry-make_room_example = store_entry-make_room entries 5 (pos 7)
