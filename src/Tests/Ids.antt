-- ===== src/Tests/Ids.antt =====
-- The maps of names: the cases of src/lib/id_map/id_map_test.cc, and the theorems at small maps.
use minetest_map_analyzer.Prelude.{
  ℕ, ◌+◌, ◌≤◌, ◌<◌, ◌≡◌, refl, none, some, List, [], ◌++◌, length, if◌then◌else◌, str_eq, arith,
}
use minetest_map_analyzer.Prelude.Strings.{find, insert}
use minetest_map_analyzer.Exceptions.{ok, throw, undefined}
use minetest_map_analyzer.Minegeld.{codes}
use minetest_map_analyzer.IdMap.{IdMap, IdMapItem, DirtyList, empty, size, get, get_dirty, add}
use minetest_map_analyzer.IdMap.Laws.{IsValid, IsValid-empty, add-IsValid}
use minetest_map_analyzer.IdMap.Contract.{add_contract}
use minetest_map_analyzer.IdMap.Dirty.{
  IsLogged, AreItems, up_to, numbers, add-IsLogged, get_dirty-IsLogged,
}
use minetest_map_analyzer.IdMap.Local
use minetest_map_analyzer.IdMap.Local.{ThreadLocalIdMap, new_cache}
use minetest_map_analyzer.IdMap.Local.Coherence.{IsCoherent, add_refines, add_overrun}

abbrev air : List ℕ
air = codes "air"

abbrev lava : List ℕ
lava = codes "lava"

abbrev one : IdMap ℕ
one = (add none 0 empty air).1

one-IsValid : IsValid none 0 one
one-IsValid = add-IsValid none 0 empty air (IsValid-empty none 0)

add_contract_example :
    ((item : IdMapItem ℕ) × (get (add none 0 one lava).1 (add none 0 one lava).0 ≡ ok item)
      × (item.key ≡ lava))
    × (add none 0 (add none 0 one lava).1 lava ≡ add none 0 one lava)
    × (find air (add none 0 one lava).1.by_string
        ≡ (if str_eq lava air then some (add none 0 one lava).0 else find air one.by_string))
    × (size (add none 0 one lava).1 ≤ size one + 1)
add_contract_example = add_contract none 0 one lava air one-IsValid

one-IsLogged : IsLogged [] one
one-IsLogged = add-IsLogged none 0 empty air [] refl

get_dirty-IsLogged_example :
    (pairs : DirtyList) × (m : IdMap ℕ) × (get_dirty one ≡ ok (pairs, m))
    × AreItems one.by_id pairs
    × ([] ++ numbers pairs ≡ up_to (length one.by_id))
    × IsLogged ([] ++ numbers pairs) m
    × IsValid none 0 m
    × (m.by_id ≡ one.by_id)
get_dirty-IsLogged_example = get_dirty-IsLogged none 0 one [] one-IsValid one-IsLogged

new_cache-IsCoherent : IsCoherent new_cache one
unfolding find
new_cache-IsCoherent = record { numbers = λ key id e. cc; pointers = λ key id e. cc }

few_items : length one.by_id < new_cache.slots
unfolding add find
few_items = omega arith

add_refines_example :
    (cache : ThreadLocalIdMap) × (Local.add none 0 (new_cache, one) lava
      ≡ ok ((add none 0 one lava).0, (cache, (add none 0 one lava).1)))
    × IsCoherent cache (add none 0 one lava).1
    × (cache.slots ≡ new_cache.slots)
add_refines_example =
    add_refines none 0 new_cache one lava one-IsValid new_cache-IsCoherent few_items

-- A cache with room for one item, as the program's is with room for 65536.
abbrev small_cache : ThreadLocalIdMap
small_cache = record { slots = 1; slot = λ i. none; by_string = [] }

no_entry : find lava small_cache.by_string ≡ none
unfolding find
no_entry = refl

fresh : find lava one.by_string ≡ none
unfolding add find insert str_eq
fresh = refl

full : length one.by_id ≡ small_cache.slots
unfolding add find
full = refl

add_overrun_example : Local.add none 0 (small_cache, one) lava ≡ throw undefined
add_overrun_example = add_overrun none 0 small_cache one lava no_entry fresh full

two_adds : (add none 0 one lava).0 ≡ 1
unfolding add find insert str_eq
two_adds = refl
