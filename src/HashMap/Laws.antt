-- ===== src/HashMap/Laws.antt =====
-- HashMap::Ref and HashMap::size of src/lib/hashmap/hashmap.h, on keys that `operator==` tells apart.
use minetest_map_analyzer.Prelude.{
  ℕ, zero, suc, ◌+◌, ◌%◌, ◌^◌, ◌<◌, ◌≡◌, refl, ◌∙◌, ap, ◌↔◌, inl, inr, true, false, some, List, [],
  ◌∷◌, length, ◌==◌, if◌then◌else◌, Bool-cases, arith,
}
use minetest_map_analyzer.Prelude.Int.{pos, to_u64, signed32}
use minetest_map_analyzer.HashMap.{
  HashKey, HashMap, hash_bucket_count, find_in, modify_in, value_or, find, modify, accumulate, size,
  bucket_of,
}

module _ {K V : Type 0} (key : HashKey K) (value_init : V)
    (equal_iff : (a b : K) → (key.equal a b ≡ true) ↔ (a ≡ b)) where
  equal_refl : (k : K) → key.equal k k ≡ true
  equal_refl k = (equal_iff k k).1 refl

  find_in-modify_in :
      (k j : K) (f : V → V) (entries : List (K × V))
      → find_in key value_init j (modify_in key value_init k f entries) ≡ (
          if key.equal k j
          then some (f (value_or key value_init (find_in key value_init k entries)))
          else find_in key value_init j entries)
  unfolding find_in modify_in
  find_in-modify_in k j f [] = refl
  find_in-modify_in k j f ((i, v) ∷ entries) =
      ground (arith, equal_iff k j, equal_iff i k, equal_iff i j, find_in-modify_in k j f entries)

  -- Keys in different buckets are different.
  other_bucket :
      (k j : K)
      → (bucket_of key value_init j == bucket_of key value_init k) ≡ false
      → key.equal k j ≡ false
  other_bucket k j e = elim (Bool-cases (key.equal k j)) [
    | inr ne ↦ ne
    | inl same ↦
        let index : bucket_of key value_init k ≡ bucket_of key value_init j =
          ap (bucket_of key value_init) ((equal_iff k j).0 same) in
        absurd (ground arith)
  ]

  -- Behind a write through the reference to `k`, a lookup of `k` finds what was written on the old value, or
  -- on a new value if there was none, and a lookup of any other key finds what it found before.
  pub find-modify :
      (k j : K) (f : V → V) (m : HashMap K V)
      → find key value_init j (modify key value_init k f m) ≡ (
          if key.equal k j
          then some (f (value_or key value_init (find key value_init k m)))
          else find key value_init j m)
  unfolding find modify
  find-modify k j f m =
      elim (Bool-cases (bucket_of key value_init j == bucket_of key value_init k)) [
        | inl e ↦
            let same : bucket_of key value_init j ≡ bucket_of key value_init k = ground arith in
            rw e (
              find_in-modify_in k j f (m.buckets (bucket_of key value_init j))
              ∙ ap
                  (λ i.
                    if key.equal k j
                    then some (f (value_or key value_init (find_in key value_init k (m.buckets i))))
                    else find_in key value_init j (m.buckets (bucket_of key value_init j)))
                  same)
        | inr e ↦ rw (e, other_bucket k j e)
      ]

module _ {K V : Type 0} (m : HashMap K V) where
  -- The entries of the buckets from `i` on.
  unfoldable pub entries_from : ℕ → ℕ → ℕ
  entries_from zero i = 0
  entries_from (suc left) i = length (m.buckets i) + entries_from left (i + 1)

  unfoldable pub entries : ℕ
  entries = entries_from hash_bucket_count 0

  add_int : (a n : ℕ) → a + n < 2 ^ 31 → signed32 ((to_u64 (pos a) + n) % 2 ^ 32) ≡ pos (a + n)
  add_int a n h = ground arith

  accumulate-eq :
      (left i a : ℕ)
      → a + entries_from left i < 2 ^ 31
      → accumulate left i m (pos a) ≡ pos (a + entries_from left i)
  unfolding accumulate entries_from
  accumulate-eq zero i a h = ap pos (omega arith)
  accumulate-eq (suc left) i a h =
      rw (add_int a (length (m.buckets i)) (omega arith))
        (accumulate-eq left (i + 1) (a + length (m.buckets i)) (omega arith) ∙ ap pos (omega arith))

  narrow : (n : ℕ) → n < 2 ^ 31 → to_u64 (pos (0 + n)) ≡ n
  narrow n h = ground arith

  add_none : (n : ℕ) → n < 2 ^ 31 → 0 + n < 2 ^ 31
  add_none n h = omega arith

  -- With fewer than 2 ^ 31 entries in all buckets together, `size` is their count.
  size-entries : entries < 2 ^ 31 → size m ≡ entries
  unfolding size entries
  size-entries h =
      ap to_u64 (accumulate-eq hash_bucket_count 0 0 (add_none entries h)) ∙ narrow entries h
