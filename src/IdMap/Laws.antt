-- ===== src/IdMap/Laws.antt =====
-- IdMap of src/lib/id_map/id_map.h: the validity of the two directions of the map, and Add.
use minetest_map_analyzer.Prelude.{
  ℕ, ◌≤◌, ◌<◌, ◌≡◌, refl, ap, sym, ◌∙◌, subst, Option, none, some, List, [], ◌∷◌, ◌++◌, length,
  get_elem?, arith, All, false, Bool-cases, if◌then◌else◌, Option-cases, inl, inr, length-append,
  str_eq, get_elem?-append_left, get_elem?-append_last, get_elem?-some_lt, get_elem?-append_cases,
}
use minetest_map_analyzer.Prelude.Strings.{find, insert, find-insert, str_eq_iff, str_eq_refl}
use minetest_map_analyzer.IdMap.{IdMapItem, IdMap, empty, extra_of, new_item, grown, add}

All-append_last :
    {P Q : ℕ → Type 0} (xs : List ℕ) (y : ℕ)
    → ((i : ℕ) → P i → Q i)
    → All P xs
    → Q y
    → All Q (xs ++ y ∷ [])
All-append_last [] y f h q = (q, tt)
All-append_last (x ∷ xs) y f h q = (f x h.0, All-append_last xs y f h.1 q)

module _ {E : Type 0} (callback : Option (List ℕ → E)) (value_init : E) where
  -- What holds of every IdMap between two calls.
  pub record IsValid (m : IdMap E) : Type 0 where
    pub items :
        (i : ℕ) (item : IdMapItem E)
        → get_elem? m.by_id i ≡ some item
        → (item.id ≡ i)
          × (item.extra ≡ extra_of callback value_init item.key)
          × (find item.key m.by_string ≡ some i)
    pub strings :
        (key : List ℕ) (i : ℕ)
        → find key m.by_string ≡ some i
        → (item : IdMapItem E) × (get_elem? m.by_id i ≡ some item) × (item.key ≡ key)
    pub dirty_known : All (λ i. i < length m.by_id) m.dirty

  pub IsValid-empty : IsValid empty
  unfolding find
  IsValid-empty = record { items = λ i item e. cc; strings = λ key i e. cc; dirty_known = tt }

  pub add_known :
      (m : IdMap E) (key : List ℕ) (id : ℕ)
      → find key m.by_string ≡ some id
      → add callback value_init m key ≡ (id, m)
  unfolding add
  add_known m key id e = rw (e, add)

  pub add_new :
      (m : IdMap E) (key : List ℕ)
      → find key m.by_string ≡ none
      → add callback value_init m key ≡ (length m.by_id, grown callback value_init m key)
  unfolding add
  add_new m key e = rw (e, add)

  module _ (m : IdMap E) (key : List ℕ) (v : IsValid m) (fresh : find key m.by_string ≡ none) where
    grown_items :
        (i : ℕ) (item : IdMapItem E)
        → get_elem? (grown callback value_init m key).by_id i ≡ some item
        → (item.id ≡ i)
          × (item.extra ≡ extra_of callback value_init item.key)
          × (find item.key (grown callback value_init m key).by_string ≡ some i)
    grown_items i item e = elim (get_elem?-append_cases m.by_id _ i e) [
      | inl old ↦
          let (id, extra, found) = v.items i item old in
          (
            id,
            extra,
            find-insert key item.key (length m.by_id) m.by_string
                ∙ ground (
                  arith,
                  str_eq_iff key item.key,
                  ap (λ k. find k m.by_string) {x = key} {y = item.key},
                ),
          )
      | inr (last, new) ↦
          subst
            (λ it.
              (it.id ≡ i)
              × (it.extra ≡ extra_of callback value_init it.key)
              × (find it.key (insert key (length m.by_id) m.by_string) ≡ some i))
            (sym new)
            (
              sym last,
              refl,
              find-insert key key (length m.by_id) m.by_string ∙ rw (str_eq_refl key, last),
            )
    ]

    grown_strings :
        (j : List ℕ) (i : ℕ)
        → find j (grown callback value_init m key).by_string ≡ some i
        → (item : IdMapItem E) × (get_elem? (grown callback value_init m key).by_id i ≡ some item)
          × (item.key ≡ j)
    grown_strings j i e = elim (Bool-cases (str_eq key j)) [
      | inl same ↦
          let at_end : some (length m.by_id) ≡ some i =
            rw (find-insert key j (length m.by_id) m.by_string, same) at e in
          let same_id : length m.by_id ≡ i = cc in
          (
            new_item callback value_init m key,
            subst
                (λ n.
                  get_elem? (m.by_id ++ new_item callback value_init m key ∷ []) n
                  ≡ some (new_item callback value_init m key))
                same_id (get_elem?-append_last m.by_id _),
            (str_eq_iff key j).0 same,
          )
      | inr other ↦
          let (item, old, key_eq) =
            v.strings j i (rw (find-insert key j (length m.by_id) m.by_string, other) at e) in
          (item, get_elem?-append_left m.by_id _ i (get_elem?-some_lt m.by_id i old) ∙ old, key_eq)
    ]

    grown_dirty :
        All
          (λ i. i < length (grown callback value_init m key).by_id)
          (grown callback value_init m key).dirty
    grown_dirty =
        let bound = length-append m.by_id (new_item callback value_init m key ∷ []) in
        All-append_last m.dirty (length m.by_id) (λ i h. omega arith) v.dirty_known (omega arith)

  -- `add` keeps an IdMap valid.
  pub add-IsValid :
      (m : IdMap E) (key : List ℕ) → IsValid m → IsValid (add callback value_init m key).1
  add-IsValid m key v = elim (Option-cases (find key m.by_string)) [
    | inr (id, e) ↦ rw (add_known m key id e) v
    | inl e ↦ rw (add_new m key e) (record {
      items = grown_items m key v e;
      strings = grown_strings m key v e;
      dirty_known = grown_dirty m key v e;
    })
  ]

  -- The number that `add` returns is the key's own.
  pub add_lem :
      (m : IdMap E) (key : List ℕ)
      → IsValid m
      → find key (add callback value_init m key).1.by_string
        ≡ some (add callback value_init m key).0
  add_lem m key v = elim (Option-cases (find key m.by_string)) [
    | inr (id, e) ↦ rw (add_known m key id e) e
    | inl e ↦ rw (add_new m key e, find-insert, str_eq_refl key)
  ]

  add_other :
      (m : IdMap E) (key j : List ℕ)
      → str_eq key j ≡ false
      → find j (add callback value_init m key).1.by_string ≡ find j m.by_string
  add_other m key j ne = elim (Option-cases (find key m.by_string)) [
    | inr (id, e) ↦ rw (add_known m key id e)
    | inl e ↦ rw (add_new m key e, find-insert, ne)
  ]

  -- What a lookup finds behind `add`.
  pub find-add :
      (m : IdMap E) (key j : List ℕ)
      → IsValid m
      → find j (add callback value_init m key).1.by_string
        ≡ (if str_eq key j then some (add callback value_init m key).0 else find j m.by_string)
  find-add m key j v = elim (Bool-cases (str_eq key j)) [
    | inr ne ↦ rw ne (add_other m key j ne)
    | inl same ↦ rw same (
        ap (λ k. find k (add callback value_init m key).1.by_string)
          (sym ((str_eq_iff key j).0 same))
        ∙ add_lem m key v)
  ]

  pub add_keeps_find :
      (m : IdMap E) (key j : List ℕ) (i : ℕ)
      → find j m.by_string ≡ some i
      → find j (add callback value_init m key).1.by_string ≡ some i
  add_keeps_find m key j i h = elim (Bool-cases (str_eq key j)) [
    | inr ne ↦ add_other m key j ne ∙ h
    | inl same ↦
        let k : key ≡ j = (str_eq_iff key j).0 same in
        let known : find key m.by_string ≡ some i = rw k h in rw (add_known m key i known) h
  ]

  -- The number is that of an item there is, or the next one.
  pub add-le :
      (m : IdMap E) (key : List ℕ) → IsValid m → (add callback value_init m key).0 ≤ length m.by_id
  add-le m key v = elim (Option-cases (find key m.by_string)) [
    | inr (id, e) ↦
        let (item, at_id, key_eq) = v.strings key id e in
        rw (add_known m key id e) (omega (arith, get_elem?-some_lt m.by_id id at_id))
    | inl e ↦ rw (add_new m key e) (omega arith)
  ]

  -- An item that is found under a number stays there.
  add_keeps :
      (m : IdMap E) (key : List ℕ) (i : ℕ) (item : IdMapItem E)
      → get_elem? m.by_id i ≡ some item
      → get_elem? (add callback value_init m key).1.by_id i ≡ some item
  add_keeps m key i item h = elim (Option-cases (find key m.by_string)) [
    | inr (id, e) ↦ rw (add_known m key id e) h
    | inl e ↦
        rw (add_new m key e) (get_elem?-append_left m.by_id _ i (get_elem?-some_lt m.by_id i h) ∙ h)
  ]

  -- Two keys with one number are one key.
  id_injective :
      (m : IdMap E) (a b : List ℕ) (i : ℕ)
      → IsValid m
      → find a m.by_string ≡ some i
      → find b m.by_string ≡ some i
      → a ≡ b
  id_injective m a b i v ea eb =
      let (x, at_a, key_a) = v.strings a i ea in
      let (y, at_b, key_b) = v.strings b i eb in
      let same : x ≡ y = cc in sym key_a ∙ ap (λ (it : IdMapItem E). it.key) same ∙ key_b
