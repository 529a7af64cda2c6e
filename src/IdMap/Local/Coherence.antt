-- ===== src/IdMap/Local/Coherence.antt =====
-- ThreadLocalIdMap of src/lib/id_map/id_map.h: the cache against the shared map.
use minetest_map_analyzer.Prelude.{
  ℕ, ◌<◌, ◌≡◌, refl, false, Option, none, some, List, length, ltb, ◌==◌, if◌then◌else◌, str_eq,
  lt→ltb, Bool-cases, Option-cases, inl, inr, arith,
}
use minetest_map_analyzer.Prelude.Strings.{find, insert, find-insert, str_eq_iff}
use minetest_map_analyzer.Exceptions.{ok, throw, undefined}
use minetest_map_analyzer.IdMap
use minetest_map_analyzer.IdMap.{IdMapItem, IdMap}
use minetest_map_analyzer.IdMap.Laws
use minetest_map_analyzer.IdMap.Local.{ThreadLocalIdMap, store, add_shared, add}

-- Every cached string has the number that the shared map gives it, and a pointer to that item.
pub record IsCoherent {E : Type 0} (cache : ThreadLocalIdMap) (shared : IdMap E) : Type 0 where
  pub numbers :
      (key : List ℕ) (id : ℕ)
      → find key cache.by_string ≡ some id
      → find key shared.by_string ≡ some id
  pub pointers :
      (key : List ℕ) (id : ℕ)
      → find key cache.by_string ≡ some id
      → (id < cache.slots) × (cache.slot id ≡ some id)

module _ {E : Type 0} (callback : Option (List ℕ → E)) (value_init : E) where
  -- A cache that is coherent with the shared map still is after an `add` of another thread on
  -- the shared map.
  shared_add-IsCoherent :
      (cache : ThreadLocalIdMap) (shared : IdMap E) (key : List ℕ)
      → IsCoherent cache shared
      → IsCoherent cache (IdMap.add callback value_init shared key).1
  shared_add-IsCoherent cache shared key c = record {
    numbers = λ j id e. Laws.add_keeps_find callback value_init shared key j id (c.numbers j id e);
    pointers = c.pointers;
  }

  store_lem :
      (cache : ThreadLocalIdMap) (key : List ℕ) (id : ℕ)
      → id < cache.slots
      → store cache key id
        ≡ ok (record cache {
          slot = λ i. (if i == id then some id else cache.slot i);
          by_string = insert key id cache.by_string;
        })
  store_lem cache key id h = rw (lt→ltb id cache.slots h)

  -- A hit answers from the cache.
  add_hit :
      (cache : ThreadLocalIdMap) (shared : IdMap E) (key : List ℕ) (id : ℕ)
      → find key cache.by_string ≡ some id
      → add callback value_init (cache, shared) key ≡ ok (id, (cache, shared))
  unfolding add
  add_hit cache shared key id e = rw e

  -- The cache after a miss that the shared map answered by `id`.
  abbrev pub filled : ThreadLocalIdMap → List ℕ → ℕ → ThreadLocalIdMap
  filled cache key id = record cache {
    slot = λ i. (if i == id then some id else cache.slot i);
    by_string = insert key id cache.by_string;
  }

  add_miss :
      (cache : ThreadLocalIdMap) (shared : IdMap E) (key : List ℕ)
      → find key cache.by_string ≡ none
      → (IdMap.add callback value_init shared key).0 < cache.slots
      → add callback value_init (cache, shared) key
        ≡ ok (
          (IdMap.add callback value_init shared key).0,
          (
            filled cache key (IdMap.add callback value_init shared key).0,
            (IdMap.add callback value_init shared key).1,
          ),
        )
  unfolding add add_shared
  add_miss cache shared key e h =
      let id = (IdMap.add callback value_init shared key).0 in
      let stay : ltb cache.slots id ≡ false = ground arith in rw (e, stay, lt→ltb id cache.slots h)

  filled-IsCoherent :
      (cache : ThreadLocalIdMap) (shared : IdMap E) (key : List ℕ) (id : ℕ)
      → IsCoherent cache shared
      → find key shared.by_string ≡ some id
      → id < cache.slots
      → IsCoherent (filled cache key id) shared
  filled-IsCoherent cache shared key id c e h = record {
    numbers = λ j i f. elim (Bool-cases (str_eq key j)) [
      | inl same ↦
          let now : some id ≡ some i = rw (find-insert, same) at f in
          cc (e, (str_eq_iff key j).0 same, now)
      | inr ne ↦ c.numbers j i (rw (find-insert, ne) at f)
    ];
    pointers = λ j i f. elim (Bool-cases (str_eq key j)) [
      | inl same ↦
          let now : some id ≡ some i = rw (find-insert, same) at f in
          let eq : id ≡ i = cc in (omega arith, ground arith)
      | inr ne ↦ let old = c.pointers j i (rw (find-insert, ne) at f) in (old.0, ground arith)
    ];
  }

  -- Through a coherent cache with room for the number, `add` returns the number and leaves the shared map
  -- that a direct `add` on the shared map does, and the cache stays coherent.
  pub add_refines :
      (cache : ThreadLocalIdMap) (shared : IdMap E) (key : List ℕ)
      → Laws.IsValid callback value_init shared
      → IsCoherent cache shared
      → length shared.by_id < cache.slots
      → (cache' : ThreadLocalIdMap) × (add callback value_init (cache, shared) key
          ≡ ok (
            (IdMap.add callback value_init shared key).0,
            (cache', (IdMap.add callback value_init shared key).1),
          ))
        × IsCoherent cache' (IdMap.add callback value_init shared key).1
        × (cache'.slots ≡ cache.slots)
  add_refines cache shared key v c room = elim (Option-cases (find key cache.by_string)) [
    | inr (id, e) ↦
        rw (Laws.add_known callback value_init shared key id (c.numbers key id e))
          (cache, add_hit cache shared key id e, c, refl)
    | inl e ↦
        let id = (IdMap.add callback value_init shared key).0 in
        let fits : id < cache.slots = omega (arith, Laws.add-le callback value_init shared key v) in
        (
          filled cache key id,
          add_miss cache shared key e fits,
          filled-IsCoherent cache _ key id (shared_add-IsCoherent cache shared key c)
              (Laws.add_lem callback value_init shared key v) fits,
          refl,
        )
  ]

  -- Where the shared map has as many items as the cache has slots, adding a string that neither
  -- has writes outside the vector of the cache.
  pub add_overrun :
      (cache : ThreadLocalIdMap) (shared : IdMap E) (key : List ℕ)
      → find key cache.by_string ≡ none
      → find key shared.by_string ≡ none
      → length shared.by_id ≡ cache.slots
      → add callback value_init (cache, shared) key ≡ throw undefined
  unfolding add add_shared
  add_overrun cache shared key miss fresh full =
      let stay : ltb cache.slots (length shared.by_id) ≡ false = ground arith in
      let out : ltb (length shared.by_id) cache.slots ≡ false = ground arith in
      rw (miss, Laws.add_new callback value_init shared key fresh, stay, out)
