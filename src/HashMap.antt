-- ===== src/HashMap.antt =====
-- src/lib/hashmap/hashmap.h: the map in buckets, each with a mutex of its own.
-- The vector of buckets is a function of the index. An index is a remainder by their count, so that
-- `at` has no index to throw for. `Ref` returns a reference: a call and what is then written through the
-- reference are `modify`, and a call of which the value is only read is `ref`. The class has no method for a
-- lookup: `find` is what `ref` reads, and what proofs say that a map holds.
pub mod Laws
use minetest_map_analyzer.Prelude.{
  ℕ, zero, suc, ◌+◌, ◌-◌, ◌%◌, ◌^◌, Bool, Option, none, some, List, [], ◌∷◌, length, ◌==◌,
  if◌then◌else◌,
}
use minetest_map_analyzer.Prelude.Int.{ℤ, pos, to_u64, signed32}

-- kHashBucketCount
abbrev pub hash_bucket_count : ℕ
hash_bucket_count = 1117

-- TKey with KeyHashFunc and its `operator==`.
pub record HashKey (K : Type 0) : Type 0 where
  pub hash : K → ℕ
  pub equal : K → K → Bool

pub record HashMap (K : Type 0) (V : Type 0) : Type 0 where
  pub buckets : ℕ → List (K × V)

module _ {K V : Type 0} (key : HashKey K) (value_init : V) where
  -- HashMap::HashMap
  abbrev pub new_map : HashMap K V
  new_map = record { buckets = λ i. [] }

  abbrev value_or : Option V → V
  value_or none = value_init
  value_or (some v) = v

  unfoldable pub find_in : K → List (K × V) → Option V
  find_in k [] = none
  find_in k ((j, v) ∷ rest) = if key.equal j k then some v else find_in k rest

  -- `data_[k]`, which adds a value-initialised entry for a new key, and a write of `f` of the value.
  unfoldable pub modify_in : K → (V → V) → List (K × V) → List (K × V)
  modify_in k f [] = (k, f value_init) ∷ []
  modify_in k f ((j, v) ∷ rest) =
      if key.equal j k then (j, f v) ∷ rest else (j, v) ∷ modify_in k f rest

  abbrev bucket_of : K → ℕ
  bucket_of k = key.hash k % hash_bucket_count

  unfoldable pub find : K → HashMap K V → Option V
  find k m = find_in k (m.buckets (bucket_of k))

  -- HashMap::Ref, with a write.
  unfoldable pub modify : K → (V → V) → HashMap K V → HashMap K V
  modify k f m = record {
    buckets = λ i. if i == bucket_of k then modify_in k f (m.buckets i) else m.buckets i;
  }

  -- HashMap::Ref, with a read.
  unfoldable pub ref : K → HashMap K V → V × HashMap K V
  ref k m = let m' = modify k (λ v. v) m in (value_or (find k m'), m')

module _ {K V : Type 0} where
  -- The accumulator is an int, since the initial value 0 is one; the sum is formed in size_t.
  unfoldable pub accumulate : ℕ → ℕ → HashMap K V → ℤ → ℤ
  accumulate zero i m acc = acc
  accumulate (suc left) i m acc =
      accumulate left (i + 1) m (signed32 ((to_u64 acc + length (m.buckets i)) % 2 ^ 32))

  -- HashMap::size
  unfoldable pub size : HashMap K V → ℕ
  size m = to_u64 (accumulate hash_bucket_count 0 m (pos 0))
