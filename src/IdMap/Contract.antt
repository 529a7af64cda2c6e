-- ===== src/IdMap/Contract.antt =====
-- What a caller of IdMap::Add in src/lib/id_map/id_map.h relies on.
use minetest_map_analyzer.Prelude.{
  ℕ, ◌+◌, ◌≤◌, ◌≡◌, Option, some, List, [], ◌∷◌, arith, if◌then◌else◌, Option-cases, inl, inr,
  length-append, str_eq,
}
use minetest_map_analyzer.Prelude.Strings.{find}
use minetest_map_analyzer.Exceptions.{ok}
use minetest_map_analyzer.IdMap.{IdMapItem, IdMap, size, get, new_item, add}
use minetest_map_analyzer.IdMap.Laws

module _ {E : Type 0} (callback : Option (List ℕ → E)) (value_init : E) where
  add_size : (m : IdMap E) (key : List ℕ) → size (add callback value_init m key).1 ≤ size m + 1
  add_size m key = elim (Option-cases (find key m.by_string)) [
    | inr (id, e) ↦ rw (Laws.add_known callback value_init m key id e) (omega arith)
    | inl e ↦
        rw (Laws.add_new callback value_init m key e)
          (omega (arith, length-append m.by_id (new_item callback value_init m key ∷ [])))
  ]

  add_idem :
      (m : IdMap E) (key : List ℕ)
      → Laws.IsValid callback value_init m
      → add callback value_init (add callback value_init m key).1 key
        ≡ add callback value_init m key
  add_idem m key v =
      Laws.add_known callback value_init _ key _ (Laws.add_lem callback value_init m key v)

  get_of_find :
      (m : IdMap E) (key : List ℕ) (i : ℕ)
      → Laws.IsValid callback value_init m
      → find key m.by_string ≡ some i
      → (item : IdMapItem E) × (get m i ≡ ok item) × (item.key ≡ key)
  unfolding get
  get_of_find m key i v e = let (item, at_i, key_eq) = v.strings key i e in (item, rw at_i, key_eq)

  -- On a valid map, `add` returns a number under which `get` finds an item with the key, adding the
  -- key again returns the same number and changes nothing, a lookup finds this number for the key and
  -- for any other key what it found before, and the map grows by at most one item.
  pub add_contract :
      (m : IdMap E) (key j : List ℕ)
      → Laws.IsValid callback value_init m
      → ((item : IdMapItem E) × (get
              (add callback value_init m key).1
              (add callback value_init m key).0
            ≡ ok item)
          × (item.key ≡ key))
        × (add callback value_init (add callback value_init m key).1 key
            ≡ add callback value_init m key)
        × (find j (add callback value_init m key).1.by_string
            ≡ (if str_eq key j then some (add callback value_init m key).0 else find j m.by_string))
        × (size (add callback value_init m key).1 ≤ size m + 1)
  add_contract m key j v = (
    get_of_find _ key _ (Laws.add-IsValid callback value_init m key v)
        (Laws.add_lem callback value_init m key v),
    add_idem m key v,
    Laws.find-add callback value_init m key j v,
    add_size m key,
  )
