-- ===== src/IdMap/Dirty.antt =====
-- IdMap::GetDirty of src/lib/id_map/id_map.h: the queue of the numbers that are not reported.
use minetest_map_analyzer.Prelude.{
  ℕ, zero, suc, ◌<◌, ◌≡◌, refl, ap, sym, ◌∙◌, Option, some, List, [], ◌∷◌, ◌++◌, map, length,
  get_elem?, get_elem?-lt, length-append, append-nil, append_assoc, arith, All, Option-cases, inl,
  inr,
}
use minetest_map_analyzer.Prelude.Strings.{find}
use minetest_map_analyzer.Exceptions.{ok}
use minetest_map_analyzer.IdMap.{IdMapItem, IdMap, DirtyList, get_dirty, dirty_loop, new_item, add}
use minetest_map_analyzer.IdMap.Laws.{IsValid, add_known, add_new}

-- 0, 1, up to n - 1
abbrev pub up_to : ℕ → List ℕ
up_to zero = []
up_to (suc n) = up_to n ++ (n ∷ [])

abbrev pub numbers : DirtyList → List ℕ
numbers = map (λ p. p.0)

-- The numbers reported so far, and then those in the queue, are all numbers in order.
abbrev pub IsLogged : {E : Type 0} → List ℕ → IdMap E → Type 0
IsLogged reported m = reported ++ m.dirty ≡ up_to (length m.by_id)

-- Each pair holds a number and the key of the item that has it.
abbrev pub AreItems : {E : Type 0} → List (IdMapItem E) → DirtyList → Type 0
AreItems {E} items =
    All (λ p. (item : IdMapItem E) × (get_elem? items p.0 ≡ some item) × (item.key ≡ p.1))

dirty_loop_lem :
    {E : Type 0} (items : List (IdMapItem E)) (queue : List ℕ)
    → All (λ i. i < length items) queue
    → (pairs : DirtyList) × (dirty_loop items queue ≡ ok pairs)
      × (numbers pairs ≡ queue)
      × AreItems items pairs
unfolding dirty_loop
dirty_loop_lem items [] h = ([], refl, refl, tt)
dirty_loop_lem items (i ∷ queue) h =
    let (item, at_i) = get_elem?-lt items i h.0 in
    let (pairs, run, nums, are) = dirty_loop_lem items queue h.1 in
    ((i, item.key) ∷ pairs, rw (at_i, run), ap (λ l. i ∷ l) nums, ((item, at_i, refl), are))

module _ {E : Type 0} (callback : Option (List ℕ → E)) (value_init : E) where
  -- If the numbers reported so far and then those in the queue are all numbers of the map in
  -- order, they still are after an `add`.
  pub add-IsLogged :
      (m : IdMap E) (key : List ℕ) (reported : List ℕ)
      → IsLogged reported m
      → IsLogged reported (add callback value_init m key).1
  add-IsLogged m key reported h = elim (Option-cases (find key m.by_string)) [
    | inr (id, e) ↦ rw (add_known callback value_init m key id e) h
    | inl e ↦ rw (add_new callback value_init m key e) (
        sym (append_assoc reported m.dirty _)
        ∙ ap (λ l. l ++ (length m.by_id ∷ [])) h
        ∙ ap up_to {x = suc (length m.by_id)}
            {y = length (m.by_id ++ new_item callback value_init m key ∷ [])}
            (omega (arith, length-append m.by_id (new_item callback value_init m key ∷ []))))
  ]

  -- On a valid map, where the numbers reported so far and then those in the queue are all
  -- numbers in order, GetDirty does not throw. It reports the queued numbers with the keys of
  -- their items, so that all numbers have then been reported once and in order, and leaves a
  -- valid map with the same items and an empty queue.
  pub get_dirty-IsLogged :
      (m : IdMap E) (reported : List ℕ)
      → IsValid callback value_init m
      → IsLogged reported m
      → (pairs : DirtyList) × (m' : IdMap E) × (get_dirty m ≡ ok (pairs, m'))
        × AreItems m.by_id pairs
        × (reported ++ numbers pairs ≡ up_to (length m.by_id))
        × IsLogged (reported ++ numbers pairs) m'
        × IsValid callback value_init m'
        × (m'.by_id ≡ m.by_id)
  unfolding get_dirty
  get_dirty-IsLogged m reported v h =
      let (pairs, run, nums, are) = dirty_loop_lem m.by_id m.dirty v.dirty_known in
      let all : reported ++ numbers pairs ≡ up_to (length m.by_id) = ap (◌++◌ reported) nums ∙ h in
      (
        pairs,
        record m { dirty = [] },
        rw run,
        are,
        all,
        append-nil (reported ++ numbers pairs) ∙ all,
        record { items = v.items; strings = v.strings; dirty_known = tt },
        refl,
      )
