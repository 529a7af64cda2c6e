-- ===== src/App/Consumer/Steps.antt =====
-- src/app/consumer.cc: what a consumer does with a key, as a relation on its state, and how it can end.
use minetest_map_analyzer.Prelude.{
  ℕ, zero, suc, ◌+◌, ◌≡◌, refl, Bool, Option, none, some, List, [], ◌∷◌, ◌++◌, get_elem?, ltb, ◌==◌,
  length, str_eq, Bool-cases, Option-cases, inl, inr,
}
use minetest_map_analyzer.Prelude.Int.{ℤ}
use minetest_map_analyzer.Prelude.Strings.{find}
use minetest_map_analyzer.Exceptions.{
  Exception, Result, ok, throw, serialization, out_of_range, sqlite3_error, undefined, out_of_fuel,
  Result-cases, Ends, Any, Ends-bind_result, Ends-or_out_of_range, Ends-or_undefined,
}
use minetest_map_analyzer.Blob.{BlobReader}
use minetest_map_analyzer.Compression.{Zlib, Zstd}
use minetest_map_analyzer.Pos.{Pos, map_block_pos}
use minetest_map_analyzer.Node.{Node, get_owner}
use minetest_map_analyzer.IdMap
use minetest_map_analyzer.IdMap.{IdMapItem, IdMap}
use minetest_map_analyzer.IdMap.Local
use minetest_map_analyzer.IdMap.Local.{
  Caches, ThreadLocalIdMap, new_cache, follow, store, make_room, add_shared,
}
use minetest_map_analyzer.MapBlock.{MapBlock, nodes_per_block}
use minetest_map_analyzer.App.BlockQueue.{Queue, NoTombstone, tombstone}
use minetest_map_analyzer.App.NodeScan.{
  NodeIdMapExtraInfo, ActorIdMapExtraInfo, Scan, owner_number, scan_node, scan_loop,
}
use minetest_map_analyzer.App.Consumer.{
  Work, with_app, count_good, count_bad, node_caches, with_nodes, uniform_of, record_block,
  consume_block, caught, consume_parsed, consume_raw, consume_key, consume_loop,
}

Ends-store : (cache : ThreadLocalIdMap) (key : List ℕ) (id : ℕ) → Ends Any (store cache key id)
Ends-store cache key id = elim (Bool-cases (ltb id cache.slots)) [
  | inl e ↦ rw e tt
  | inr e ↦ rw e tt
]

module _ {E : Type 0} where
  Ends-get : (shared : IdMap E) (id : ℕ) → Ends Any (IdMap.get shared id)
  unfolding IdMap.get
  Ends-get shared id = Ends-or_out_of_range (get_elem? shared.by_id id)

  Ends-follow : (shared : IdMap E) (id : ℕ) (target : Option ℕ) → Ends Any (follow shared id target)
  unfolding follow
  Ends-follow shared id none = tt
  Ends-follow shared id (some target) =
      Ends-bind_result Any Any (IdMap.get shared target) _ (Ends-get shared target) λ item u.
        elim (Bool-cases (str_eq item.key [])) [
          | inl e ↦ rw e (Ends-get shared id)
          | inr e ↦ rw e tt
        ]

  Ends-Local_get : (caches : Caches E) (id : ℕ) → Ends Any (Local.get caches id)
  unfolding Local.get
  Ends-Local_get (cache, shared) id = elim (Bool-cases (ltb id cache.slots)) [
    | inl e ↦ rw e (Ends-follow shared id (cache.slot id))
    | inr e ↦ rw e tt
  ]

  Ends-add :
      (callback : Option (List ℕ → E)) (value_init : E) (caches : Caches E) (key : List ℕ)
      → Ends Any (Local.add callback value_init caches key)
  unfolding Local.add add_shared
  Ends-add callback value_init (cache, shared) key =
      elim (Option-cases (find key cache.by_string)) [
        | inl e ↦
            let id = (IdMap.add callback value_init shared key).0 in
            rw e (
              Ends-bind_result {A = ThreadLocalIdMap} {B = ℕ × Caches E} Any Any
                (store (make_room cache id) key id) _ (Ends-store (make_room cache id) key id)
                λ c u. tt)
        | inr (id, e) ↦ rw e tt
      ]

Ends-owner_number :
    (actors : Caches ActorIdMapExtraInfo) (owner : List ℕ) → Ends Any (owner_number actors owner)
unfolding owner_number
Ends-owner_number actors [] = tt
Ends-owner_number actors (c ∷ owner) = Ends-add none _ actors (c ∷ owner)

Ends-uniform_of : (mb : MapBlock) → Ends Any (uniform_of mb)
Ends-uniform_of mb = elim (Bool-cases (length mb.param0_map == 1)) [
  | inl e ↦ rw e (Ends-bind_result Any Any _ _ (Ends-or_undefined (get_elem? mb.nodes 0)) λ n u. tt)
  | inr e ↦ rw e tt
]

module _ (track_minegeld : Bool) (cache : Caches NodeIdMapExtraInfo) (p : Pos) where
  Ends-scan_node :
      (i : ℕ) (node : Node) (s : Scan) → Ends Any (scan_node track_minegeld cache p i node s)
  unfolding scan_node
  Ends-scan_node i node s =
      Ends-bind_result Any Any _ _ (Ends-Local_get cache node.param_0) λ info u.
        Ends-bind_result Any Any _ _ (Ends-owner_number s.actors (get_owner node.metadata))
          λ owner v. tt

  Ends-scan_loop :
      (left i : ℕ) (nodes : List Node) (s : Scan)
      → Ends Any (scan_loop track_minegeld cache p left i nodes s)
  unfolding scan_loop
  Ends-scan_loop zero i nodes s = tt
  Ends-scan_loop (suc left) i nodes s =
      Ends-bind_result Any Any _ _ (Ends-or_undefined (get_elem? nodes i)) λ node u.
        Ends-bind_result Any Any _ _ (Ends-scan_node i node s)
          λ s' v. Ends-scan_loop left (i + 1) nodes s'

module _ (threshold : ℕ) where
  -- A block that is counted as bad changes the names that are known and the counter, and one that is
  -- counted as good is recorded.
  pub data Handled (p : Pos) (w : Work) : Work → Type 0 where
    bad :
        (caches : Caches NodeIdMapExtraInfo)
        → Handled p w (with_app count_bad (with_nodes caches w))
    good :
        (caches : Caches NodeIdMapExtraInfo) (uniform : ℕ) (s : Scan)
        → Handled p w
            (record_block threshold p uniform s (with_app count_good (with_nodes caches w)))

  -- The keys, handled one after the other.
  pub data Consumed : List ℤ → Work → Work → Type 0 where
    done : {w : Work} → Consumed [] w w
    next :
        {key : ℤ} {keys : List ℤ} {w v u : Work}
        → Handled (map_block_pos key) w v
        → Consumed keys v u
        → Consumed (key ∷ keys) w u

  module _ (track_minegeld : Bool) where
    consume_block-Handled :
        (p : Pos) (mb : MapBlock) (w : Work) (caches : Caches NodeIdMapExtraInfo)
        → Ends (Handled p w) (
            consume_block threshold track_minegeld p mb (with_app count_good (with_nodes caches w)))
    unfolding consume_block
    consume_block-Handled p mb w caches =
        Ends-bind_result Any (Handled p w) _ _
          (Ends-scan_loop track_minegeld _ p nodes_per_block 0 mb.nodes _)
          λ s u.
            Ends-bind_result Any (Handled p w) _ _ (Ends-uniform_of mb)
              λ uniform v. good caches uniform s

    caught-Handled :
        (p : Pos) (e : Exception) (w : Work) (caches : Caches NodeIdMapExtraInfo)
        → Ends (Handled p w) (caught threshold track_minegeld e (with_nodes caches w))
    unfolding caught
    caught-Handled p (serialization e) w caches = bad caches
    caught-Handled p out_of_range w caches = tt
    caught-Handled p sqlite3_error w caches = tt
    caught-Handled p undefined w caches = tt
    caught-Handled p out_of_fuel w caches = tt

    consume_parsed-Handled :
        (p : Pos) (parsed : Result (MapBlock × BlobReader) × Caches NodeIdMapExtraInfo) (w : Work)
        → Ends (Handled p w) (consume_parsed threshold track_minegeld p parsed w)
    unfolding consume_parsed
    consume_parsed-Handled p (ok (mb, rest), caches) w = consume_block-Handled p mb w caches
    consume_parsed-Handled p (throw e, caches) w = caught-Handled p e w caches

    module _ (zlib : Zlib) (zstd : Zstd) (lookup : List ℕ → NodeIdMapExtraInfo)
        (load : Pos → Result (Option (List ℕ))) (load_ends : (p : Pos) → Ends Any (load p)) where
      consume_raw-Handled :
          (p : Pos) (raw : Option (List ℕ)) (w : Work)
          → Ends (Handled p w) (consume_raw threshold track_minegeld zlib zstd lookup load p raw w)
      unfolding consume_raw
      consume_raw-Handled p none w = bad (node_caches w)
      consume_raw-Handled p (some bytes) w = consume_parsed-Handled p _ w

      consume_key-Handled :
          (key : ℤ) (w : Work)
          → Ends
              (Handled (map_block_pos key) w)
              (consume_key threshold track_minegeld zlib zstd lookup load key w)
      unfolding consume_key
      consume_key-Handled key w =
          Ends-bind_result Any (Handled (map_block_pos key) w) _ _ (load_ends (map_block_pos key))
            λ raw u. consume_raw-Handled (map_block_pos key) raw w

      -- Behind the loop, the tombstone is left, and all keys before it have been handled.
      abbrev pub IsConsumed : List ℤ → Work → Queue × Work → Type 0
      IsConsumed keys w (queue, w') = (queue ≡ tombstone ∷ []) × Consumed keys w w'

      abbrev pub LoopEnds : List ℤ → Work → Option (Result (Queue × Work)) → Type 0
      LoopEnds keys w none = ⊥
      LoopEnds keys w (some result) = Ends (IsConsumed keys w) result

      LoopEnds-next :
          (key : ℤ) (keys : List ℤ) (w v : Work) (o : Option (Result (Queue × Work)))
          → Handled (map_block_pos key) w v
          → LoopEnds keys v o
          → LoopEnds (key ∷ keys) w o
      LoopEnds-next key keys w v none a h = h
      LoopEnds-next key keys w v (some (throw e)) a h = h
      LoopEnds-next key keys w v (some (ok (queue, u))) a (left, c) = (left, next a c)

      -- The loop of a consumer, on keys of which none is the tombstone, with the tombstone behind them.
      pub consume_loop-LoopEnds :
          (keys : List ℤ) (w : Work)
          → NoTombstone keys
          → LoopEnds keys w (
              consume_loop threshold track_minegeld zlib zstd lookup load
                (keys ++ tombstone ∷ [])
                w)
      unfolding consume_loop
      consume_loop-LoopEnds [] w h = (refl, done)
      consume_loop-LoopEnds (key ∷ keys) w h =
          let handled = consume_key-Handled key w in
          rw h.0
            (elim (Result-cases
              (consume_key threshold track_minegeld zlib zstd lookup load key w)) [
                | inl (v, e) ↦ rw e (
                    LoopEnds-next key keys w v _ (rw e at handled)
                      (consume_loop-LoopEnds keys v h.1))
                | inr (x, e) ↦ rw e (rw e at handled)
              ])
