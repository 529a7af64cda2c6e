-- ===== src/IdMap/Local.antt =====
-- ThreadLocalIdMap of src/lib/id_map/id_map.h: a thread's cache of the shared map.
-- The vector of pointers is its size and what stands at each index: `none` for null, and `some id` for
-- a pointer to the item with that number in the shared vector. A pointer stays good: that `by_id_` is
-- reallocated, once it holds more items than the constructor reserves, is not modelled.
pub mod Coherence
use minetest_map_analyzer.Prelude.{
  ℕ, ◌+◌, Option, none, some, List, [], ◌∷◌, get_elem?, ltb, leb, ◌==◌, if◌then◌else◌, str_eq,
}
use minetest_map_analyzer.Prelude.Strings.{find, insert}
use minetest_map_analyzer.Exceptions.{Result, ok, throw, out_of_range, undefined, bind_result}
use minetest_map_analyzer.IdMap
use minetest_map_analyzer.IdMap.{IdMapItem, IdMap}

-- IdMap::kReservedSize
abbrev pub reserved_size : ℕ
reserved_size = 65536

-- ThreadLocalIdMap, without its reference to the shared map.
pub record ThreadLocalIdMap : Type 0 where
  pub slots : ℕ
  pub slot : ℕ → Option ℕ
  pub by_string : List (List ℕ × ℕ)

-- ThreadLocalIdMap::ThreadLocalIdMap
abbrev pub new_cache : ThreadLocalIdMap
new_cache = record { slots = reserved_size; slot = λ i. none; by_string = [] }

-- `by_id_[id] = &item`, which is undefined outside the vector.
abbrev pub store : ThreadLocalIdMap → List ℕ → ℕ → Result ThreadLocalIdMap
store cache key id =
    if ltb id cache.slots
    then ok (record cache {
      slot = λ i. (if i == id then some id else cache.slot i);
      by_string = insert key id cache.by_string;
    })
    else throw undefined

-- The vector grows only where the number is greater than its size.
abbrev pub make_room : ThreadLocalIdMap → ℕ → ThreadLocalIdMap
make_room cache id = if ltb cache.slots id then record cache { slots = id + 1 } else cache

-- The state that a call reads and writes: the thread's cache and the shared map.
abbrev pub Caches : Type 0 → Type 0
Caches E = ThreadLocalIdMap × IdMap E

module _ {E : Type 0} (callback : Option (List ℕ → E)) (value_init : E) where
  -- The part of Add after a miss.
  unfoldable pub add_shared : ThreadLocalIdMap → IdMap E → List ℕ → Result (ℕ × Caches E)
  add_shared cache shared key =
      let (id, shared') = IdMap.add callback value_init shared key in
      bind_result (store (make_room cache id) key id) λ cache'. ok (id, (cache', shared'))

  abbrev known : Caches E → Option ℕ → Result (ℕ × Caches E) → Result (ℕ × Caches E)
  known caches none rest = rest
  known caches (some id) rest = ok (id, caches)

  -- ThreadLocalIdMap::Add
  unfoldable pub add : Caches E → List ℕ → Result (ℕ × Caches E)
  add (cache, shared) key =
      known (cache, shared) (find key cache.by_string) (add_shared cache shared key)

module _ {E : Type 0} where
  -- Where a pointer leads. An item with an empty key is looked up in the shared map again.
  unfoldable pub follow : IdMap E → ℕ → Option ℕ → Result (IdMapItem E)
  follow shared id none = throw undefined
  follow shared id (some target) =
      bind_result (IdMap.get shared target)
        λ item. if str_eq item.key [] then IdMap.get shared id else ok item

  -- ThreadLocalIdMap::Get
  unfoldable pub get : Caches E → ℕ → Result (IdMapItem E)
  unfolding follow
  get (cache, shared) id =
      if ltb id cache.slots then follow shared id (cache.slot id) else throw out_of_range
