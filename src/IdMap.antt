-- ===== src/IdMap.antt =====
-- src/lib/id_map/id_map.h: the shared map between strings and numbers.
-- Each method holds the mutex from its start to its end, so it is one step on the shared state. The
-- vectors are lists, the queue of dirty numbers is a list with its front first, and the callback
-- and the value-initialised TExtra are parameters, since the template leaves them open.
pub mod Laws
pub mod Contract
pub mod Dirty
pub mod Local
use minetest_map_analyzer.Prelude.{
  ℕ, ◌-◌, ◌^◌, Option, none, some, List, [], ◌∷◌, ◌++◌, length, get_elem?,
}
use minetest_map_analyzer.Prelude.Strings.{find, insert}
use minetest_map_analyzer.Exceptions.{Result, ok, bind_result, or_out_of_range}

-- IdMapItem
pub record IdMapItem (E : Type 0) : Type 0 where
  pub id : ℕ
  pub key : List ℕ
  pub extra : E

-- IdMap, without its callback.
pub record IdMap (E : Type 0) : Type 0 where
  pub by_id : List (IdMapItem E)
  pub by_string : List (List ℕ × ℕ)
  pub dirty : List ℕ

-- DirtyList
abbrev pub DirtyList : Type 0
DirtyList = List (ℕ × List ℕ)

module _ {E : Type 0} where
  abbrev pub empty : IdMap E
  empty = record { by_id = []; by_string = []; dirty = [] }

  -- IdMap::size
  abbrev pub size : IdMap E → ℕ
  size m = length m.by_id

  -- `at` of the vector of items.
  abbrev pub item_at : List (IdMapItem E) → ℕ → Result (IdMapItem E)
  item_at items id = or_out_of_range (get_elem? items id)

  -- IdMap::Get(size_t)
  unfoldable pub get : IdMap E → ℕ → Result (IdMapItem E)
  get m id = item_at m.by_id id

  -- The loop of GetDirty, on the numbers that are left in the queue.
  unfoldable pub dirty_loop : List (IdMapItem E) → List ℕ → Result DirtyList
  dirty_loop items [] = ok []
  dirty_loop items (id ∷ rest) =
      bind_result (item_at items id)
        λ item. bind_result (dirty_loop items rest) λ more. ok ((id, item.key) ∷ more)

  -- IdMap::GetDirty
  unfoldable pub get_dirty : IdMap E → Result (DirtyList × IdMap E)
  unfolding dirty_loop
  get_dirty m =
      bind_result (dirty_loop m.by_id m.dirty) λ pairs. ok (pairs, record m { dirty = [] })

-- The two parameters: the optional callback, and the value of a TExtra that no callback has made.
module _ {E : Type 0} (callback : Option (List ℕ → E)) (value_init : E) where
  abbrev pub extra_of : List ℕ → E
  extra_of key = elim callback [ none ↦ value_init | some make ↦ make key ]

  abbrev pub new_item : IdMap E → List ℕ → IdMapItem E
  new_item m key = record { id = length m.by_id; key = key; extra = extra_of key }

  -- What Add does to the members for a new key.
  abbrev pub grown : IdMap E → List ℕ → IdMap E
  grown m key = record {
    by_id = m.by_id ++ (new_item m key ∷ []);
    by_string = insert key (length m.by_id) m.by_string;
    dirty = m.dirty ++ (length m.by_id ∷ []);
  }

  -- IdMap::Add
  unfoldable pub add : IdMap E → List ℕ → ℕ × IdMap E
  add m key = elim (find key m.by_string) [
    | some id ↦ (id, m)
    | none ↦ (length m.by_id, grown m key)
  ]

  abbrev pub not_found_item : IdMapItem E
  not_found_item = record { id = 2 ^ 64 - 1; key = []; extra = value_init }

  -- IdMap::Get(const std::string &)
  unfoldable pub get_by_string : IdMap E → List ℕ → Result (IdMapItem E)
  get_by_string m key = elim (find key m.by_string) [
    | some id ↦ item_at m.by_id id
    | none ↦ ok not_found_item
  ]
