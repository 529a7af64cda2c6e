-- ===== src/MapBlock/Entries.antt =====
-- The mapping of names and remap_param0 of src/lib/map_reader/mapblock.cc: the entries of the vector.
use minetest_map_analyzer.Prelude.{
  ℕ, zero, suc, ◌-◌, ◌≡◌, refl, Bool, true, false, ◌&&◌, Option, none, some, List, [], ◌∷◌, map,
  length, length-append, length-replicate, min, get_elem?, get_elem?-lt, get_elem?-ge, set, take,
  replicate, ltb, if◌then◌else◌, Bool-cases, inl, inr, arith,
}
use minetest_map_analyzer.Prelude.Int.{ℤ, negsuc, to_u16}
use minetest_map_analyzer.Exceptions.{ok, throw, undefined, out_of_range}
use minetest_map_analyzer.Node.{Node}
use minetest_map_analyzer.MapBlock.Names.{resize_map, make_room, store_entry, remap_param0}

length-take : (n : ℕ) (xs : List ℤ) → length (take n xs) ≡ min n (length xs)
length-take zero xs = omega arith
length-take (suc n) [] = omega arith
length-take (suc n) (x ∷ xs) = omega (arith, length-take n xs)

-- `resize(n, -1)` leaves n entries.
length-resize_map : (n : ℕ) (entries : List ℤ) → length (resize_map n entries) ≡ n
unfolding resize_map
length-resize_map n entries = omega (
  arith,
  length-append (take n entries) (replicate (n - length entries) (negsuc 0)),
  length-take n entries,
  length-replicate (n - length entries) (negsuc 0),
)

-- The growth before a write does not help: the write is inside the vector just where it was inside
-- it before, and any other write is out of bounds.
pub store_entry-make_room :
    (entries : List ℤ) (id : ℕ) (value : ℤ)
    → store_entry (make_room entries id) id value
      ≡ (if ltb id (length entries) then ok (set entries id value) else throw undefined)
unfolding store_entry make_room
store_entry-make_room entries id value = elim (Bool-cases (ltb (length entries) id)) [
  | inl e ↦
      let same = length-resize_map id entries in
      let here : ltb id (length (resize_map id entries)) ≡ false = ground arith in
      let before : ltb id (length entries) ≡ false = ground arith in rw (e, here, before) refl
  | inr e ↦ rw e refl
]

-- The number of a node that the map has, as a uint16_t.
abbrev pub entry_or : ℕ → Option ℤ → ℕ
entry_or n none = n
entry_or n (some entry) = to_u16 entry

abbrev pub renumber : List ℤ → Node → Node
renumber entries node = record node {
  param_0 = entry_or node.param_0 (get_elem? entries node.param_0);
}

abbrev pub all_mapped : List ℤ → List Node → Bool
all_mapped entries [] = true
all_mapped entries (node ∷ nodes) = ltb node.param_0 (length entries) && all_mapped entries nodes

-- If the number of each node is an index of the map, then each node gets the entry there and keeps
-- all else; otherwise std::out_of_range is thrown.
pub remap_param0_lem :
    (entries : List ℤ) (nodes : List Node)
    → remap_param0 entries nodes
      ≡ (if all_mapped entries nodes then ok (map (renumber entries) nodes) else throw out_of_range)
unfolding remap_param0
remap_param0_lem entries [] = refl
remap_param0_lem entries (node ∷ nodes) = elim (Bool-cases (ltb node.param_0 (length entries))) [
  | inl e ↦
      let (entry, at_index) = get_elem?-lt entries node.param_0 (ground arith) in
      elim (Bool-cases (all_mapped entries nodes)) [
        | inl e' ↦ rw (e, at_index, remap_param0_lem entries nodes, e') refl
        | inr e' ↦ rw (e, at_index, remap_param0_lem entries nodes, e') refl
      ]
  | inr e ↦ rw (e, get_elem?-ge entries node.param_0 (ground arith)) refl
]
