-- ===== src/MapBlock/Names.antt =====
-- deserialize_name_id_mapping and remap_param0 of src/lib/map_reader/mapblock.cc: the map from the numbers in
-- the block to the numbers of the whole run.
use minetest_map_analyzer.Prelude.{
  ℕ, zero, suc, ◌-◌, ◌%◌, ◌^◌, List, [], ◌∷◌, ◌++◌, length, get_elem?, set, take, replicate, leb,
  ltb, ◌==◌, if◌then◌else◌,
}
use minetest_map_analyzer.Prelude.Int.{ℤ, negsuc, to_u16, signed32}
use minetest_map_analyzer.Exceptions.{
  Extra, Result, ok, throw, undefined, bind_result, or_out_of_range,
}
use minetest_map_analyzer.Blob
use minetest_map_analyzer.Blob.{BlobReader, read_u8, read_u16, read_str}
use minetest_map_analyzer.Node.{Node}
use minetest_map_analyzer.MapBlock.{Action, pure, read, ◌>>=◌}

-- `param0_map_.resize(n, -1)`
unfoldable pub resize_map : ℕ → List ℤ → List ℤ
resize_map n entries = take n entries ++ replicate (n - length entries) (negsuc 0)

-- The growth before an entry is written: only to `id` entries, and only where there are fewer.
unfoldable pub make_room : List ℤ → ℕ → List ℤ
make_room entries id = if ltb (length entries) id then resize_map id entries else entries

-- `param0_map_[id] = value`, which is undefined outside the vector.
unfoldable pub store_entry : List ℤ → ℕ → ℤ → Result (List ℤ)
store_entry entries id value =
    if ltb id (length entries) then ok (set entries id value) else throw undefined

-- A size_t stored in an int.
abbrev pub to_int : ℕ → ℤ
to_int n = signed32 (n % 2 ^ 32)

-- MapBlock::remap_param0: the entry of each node, as a uint16_t.
unfoldable pub remap_param0 : List ℤ → List Node → Result (List Node)
remap_param0 entries [] = ok []
remap_param0 entries (node ∷ nodes) =
    bind_result (or_out_of_range (get_elem? entries node.param_0)) λ entry.
      bind_result (remap_param0 entries nodes)
        λ rest. ok (record node { param_0 = to_u16 entry } ∷ rest)

-- The cache of names, of which the block uses one method: ThreadLocalIdMap::Add.
module _ {S : Type 0} (add : S → List ℕ → Result (ℕ × S)) where
  -- The write of the number that Add returned.
  abbrev name_added :
      List ℤ → ℕ → BlobReader → S → Result (ℕ × S) → Result (List ℤ × BlobReader) × S
  name_added entries id r s (throw e) = (throw e, s)
  name_added entries id r s (ok (n, s')) =
      (bind_result (store_entry entries id (to_int n)) (λ entries'. ok (entries', r)), s')

  -- `param0_map_[id] = id_map.Add(name)`
  unfoldable pub add_name : List ℤ → ℕ → List ℕ → Action S (List ℤ)
  add_name entries id name r s = name_added entries id r s (add s name)

  unfoldable pub check_id : ℕ → Action S (Unit {0})
  check_id id = read (
      if leb 4096 id
      then Blob.fail "deserialize_name_id_mapping" (Extra.illegal_nim_id id)
      else Blob.pure tt)

  -- The loop of deserialize_name_id_mapping.
  unfoldable pub name_loop : ℕ → List ℤ → Action S (List ℤ)
  name_loop zero entries = pure entries
  name_loop (suc left) entries = do
    id ← read (read_u16 "nim.id")
    checked ← check_id id
    name_len ← read (read_u16 "nim.name_len")
    name ← read (read_str name_len "nim.name")
    entries' ← add_name (make_room entries id) id name
    name_loop left entries'

  unfoldable pub names_of_version : List ℤ → ℕ → Action S (List ℤ)
  names_of_version entries nim_version =
      if nim_version == 0
      then (do
        nim_count ← read (read_u16 "nim.count")
        name_loop nim_count (resize_map nim_count entries))
      else read
          (Blob.fail "deserialize_name_id_mapping" (Extra.unsupported_nim_version nim_version))

  -- MapBlock::deserialize_name_id_mapping
  unfoldable pub deserialize_name_id_mapping : List ℤ → Action S (List ℤ)
  deserialize_name_id_mapping entries = do
    nim_version ← read (read_u8 "nim.version")
    names_of_version entries nim_version
