-- ===== src/App/Threaded/Serial.antt =====
-- App::RunConsumer of src/app/consumer.cc: what a consumer does with a key on its own is one of the things
-- that it does beside other threads.
use minetest_map_analyzer.Prelude.{
  ℕ, ◌≡◌, refl, ap, sym, ◌∙◌, subst, Bool, true, false, Option, none, some, List, [], ◌∷◌, ◌++◌,
  length, ltb, Bool-cases, inl, inr,
}
use minetest_map_analyzer.Prelude.Int.{ℤ}
use minetest_map_analyzer.Exceptions.{
  Exception, Result, ok, throw, serialization, out_of_range, sqlite3_error, undefined, out_of_fuel,
  bind_result, bind_result-ok, ok-injective,
}
use minetest_map_analyzer.Blob.{BlobReader}
use minetest_map_analyzer.Compression.{Zlib, Zstd}
use minetest_map_analyzer.Pos.{Pos, map_block_pos}
use minetest_map_analyzer.IdMap.Local.{Caches}
use minetest_map_analyzer.MapBlock.{MapBlock, nodes_per_block}
use minetest_map_analyzer.App.BlockData.{modify_data}
use minetest_map_analyzer.App.Preserve
use minetest_map_analyzer.App.NodeScan.{NodeIdMapExtraInfo, DataWriterNode, Scan, scan_loop}
use minetest_map_analyzer.App.State.{App, enqueue_map_block_pos, enqueue_nodes, push_nodes}
use minetest_map_analyzer.App.Consumer.{
  Work, with_app, with_nodes, with_actors, count_good, count_bad, node_caches, uniform_of, new_scan,
  enqueue_some, note_anthropocene, flush_list, enqueue_preserve, store_block, record_block,
  set_data, consume_block, caught, consume_parsed, consume_raw, consume_key, parse_block,
}
use minetest_map_analyzer.App.Threaded.Consuming.{Phase, Local, Move, at, listed}
use minetest_map_analyzer.App.Threaded.Views.{View, view, enqueue_some-view}

-- The steps of one consumer, one after the other.
pub data Moves (threshold : ℕ) (lookup : List ℕ → NodeIdMapExtraInfo)
    (load : Pos → Result (Option (List ℕ))) (app : App) (x : Local) : App → Local → Type 0 where
  rest : Moves threshold lookup load app x app x
  next :
      {app' app'' : App} {y z : Local}
      → Moves threshold lookup load app x app' y
      → Move threshold lookup load app' y app'' z
      → Moves threshold lookup load app x app'' z

enqueue_view :
    (positions : List Pos) (a b : App)
    → view a ≡ view b
    → view (enqueue_preserve positions a) ≡ view (enqueue_preserve positions b)
unfolding enqueue_preserve
enqueue_view positions a b v =
    ap (λ (u : View). record u { preserve = Preserve.enqueue positions u.preserve }) v

-- The view of the App, and the list, behind a block is noted.
note_anthropocene-view :
    (threshold : ℕ) (flag : Bool) (p : Pos) (a : App) (w : Work)
    → view a ≡ view w.app
    → (view (note_anthropocene threshold flag p (listed a w.anthropocene_list)).app
        ≡ view (note_anthropocene threshold flag p w).app)
      × ((note_anthropocene threshold flag p (listed a w.anthropocene_list)).anthropocene_list
          ≡ (note_anthropocene threshold flag p w).anthropocene_list)
unfolding note_anthropocene flush_list
note_anthropocene-view threshold false p a w v = (v, refl)
note_anthropocene-view threshold true p a w v =
    elim (Bool-cases (ltb threshold (length (w.anthropocene_list ++ p ∷ [])))) [
      | inl h ↦ rw h (enqueue_view (w.anthropocene_list ++ p ∷ []) a w.app v, refl)
      | inr h ↦ rw h (v, refl)
    ]

-- The nodes that wait for the data writer.
note_anthropocene-node_queue :
    (threshold : ℕ) (flag : Bool) (p : Pos) (w : Work)
    → (note_anthropocene threshold flag p w).app.node_queue ≡ w.app.node_queue
unfolding note_anthropocene flush_list enqueue_preserve
note_anthropocene-node_queue threshold false p w = refl
note_anthropocene-node_queue threshold true p w =
    elim (Bool-cases (ltb threshold (length (w.anthropocene_list ++ p ∷ [])))) [
      | inl h ↦ rw h refl
      | inr h ↦ rw h refl
    ]

enqueue_some-node_queue :
    (nodes : List DataWriterNode) (a b : App)
    → a.node_queue ≡ b.node_queue
    → (enqueue_some nodes a).node_queue ≡ (enqueue_some nodes b).node_queue
unfolding enqueue_nodes
enqueue_some-node_queue [] a b e = e
enqueue_some-node_queue (node ∷ nodes) a b e = ap (push_nodes (node ∷ nodes)) e

module _ (threshold : ℕ) (lookup : List ℕ → NodeIdMapExtraInfo)
    (load : Pos → Result (Option (List ℕ))) where
  -- Behind the steps, the App has the view of the other and its queue of nodes, and the consumer is ready, with
  -- its list.
  abbrev pub Follows : ℤ → Work → Work → Type 0
  Follows key w w' =
      (app : App) × Moves threshold lookup load w.app (at (Phase.loading key) w.anthropocene_list)
        app (at Phase.ready w'.anthropocene_list)
      × (view app ≡ view w'.app)
      × (app.node_queue ≡ w'.app.node_queue)

  bad-Follows :
      (key : ℤ) (caches : Caches NodeIdMapExtraInfo) (bytes : List ℕ) (w : Work)
      → load (map_block_pos key) ≡ ok (some bytes)
      → Follows key w (with_app count_bad (with_nodes caches w))
  bad-Follows key (cache, shared) bytes w e =
      (count_bad w.app, next rest (Move.malformed key w.anthropocene_list bytes e), refl, refl)

  good-Follows :
      (key : ℤ) (caches : Caches NodeIdMapExtraInfo) (bytes : List ℕ) (uniform : ℕ) (s : Scan)
      (w : Work)
      → load (map_block_pos key) ≡ ok (some bytes)
      → Follows key w (
          record_block threshold
            (map_block_pos key)
            uniform
            s
            (with_app count_good (with_nodes caches w)))
  unfolding record_block store_block enqueue_map_block_pos
  good-Follows key (cache, shared) bytes uniform s w e =
      let p = map_block_pos key in
      let flag = s.anthropocene in
      let list = w.anthropocene_list in
      let a1 = count_good w.app in
      let a2 = enqueue_some s.node_queue a1 in
      let a3 : App = record a2 {
        block_data = modify_data p (set_data uniform flag) a2.block_data;
      } in
      let a4 = enqueue_map_block_pos p a3 in
      let v = with_actors s.actors (with_app count_good (with_nodes (cache, shared) w)) in
      let stored = with_app (store_block p uniform s.node_queue flag) v in
      let write = modify_data p (set_data uniform flag) in
      let same : view a4 ≡ view stored.app =
        ap
          (λ (u : View). record u {
            block_data = write u.block_data;
            block_queue = u.block_queue ++ p ∷ [];
          })
          (enqueue_some-view s.node_queue a1)
        ∙ sym (
            ap
              (λ (u : View). record u {
                block_data = write v.app.block_data;
                block_queue = u.block_queue ++ p ∷ [];
              })
              (enqueue_some-view s.node_queue v.app)) in
      let noted = note_anthropocene-view threshold flag p a4 stored same in
      (
        (note_anthropocene threshold flag p (listed a4 list)).app,
        subst
            (λ l.
              Moves threshold lookup load w.app (at (Phase.loading key) list)
                (note_anthropocene threshold flag p (listed a4 list)).app (at Phase.ready l))
            noted.1
            (next
              (next
                (next
                  (next (next rest (Move.parsed key list bytes e))
                    (Move.scanned key list s.node_queue uniform flag))
                  (Move.write key list uniform flag))
                (Move.push key list flag))
              (Move.note key list flag)),
        noted.0,
        note_anthropocene-node_queue threshold flag p (listed a4 list)
            ∙ enqueue_some-node_queue s.node_queue a1 v.app refl
            ∙ sym (note_anthropocene-node_queue threshold flag p stored),
      )

  same_result : (key : ℤ) (w u v : Work) → ok u ≡ ok v → Follows key w u → Follows key w v
  same_result key w u v e f = subst (λ x. Follows key w x) (ok-injective e) f

  throws_nothing : {e : Exception} {u : Work} → throw e ≡ ok u → ⊥
  throws_nothing e = cc

  scanned-Follows :
      (key : ℤ) (caches : Caches NodeIdMapExtraInfo) (bytes : List ℕ) (w w' : Work)
      → load (map_block_pos key) ≡ ok (some bytes)
      → (scan : Result Scan) (uniform : Result ℕ)
      → bind_result scan (λ s. bind_result uniform λ u. ok (
          record_block threshold
            (map_block_pos key)
            u
            s
            (with_app count_good (with_nodes caches w))))
        ≡ ok w'
      → Follows key w w'
  scanned-Follows key caches bytes w w' e (ok s) (ok uniform) h =
      same_result key w
        (record_block threshold (map_block_pos key) uniform s
          (with_app count_good (with_nodes caches w)))
        w' h (good-Follows key caches bytes uniform s w e)
  scanned-Follows key caches bytes w w' e (ok s) (throw x) h = absurd (throws_nothing h)
  scanned-Follows key caches bytes w w' e (throw x) uniform h = absurd (throws_nothing h)

  module _ (track_minegeld : Bool) (zlib : Zlib) (zstd : Zstd) where
    block-Follows :
        (key : ℤ) (caches : Caches NodeIdMapExtraInfo) (bytes : List ℕ) (mb : MapBlock)
        (w w' : Work)
        → load (map_block_pos key) ≡ ok (some bytes)
        → consume_block threshold track_minegeld
            (map_block_pos key)
            mb
            (with_app count_good (with_nodes caches w))
          ≡ ok w'
        → Follows key w w'
    unfolding consume_block
    block-Follows key caches bytes mb w w' e h =
        let p = map_block_pos key in
        let v = with_app count_good (with_nodes caches w) in
        scanned-Follows key caches bytes w w' e
          (scan_loop track_minegeld (node_caches v) p nodes_per_block 0 mb.nodes (new_scan v))
          (uniform_of mb) h

    parsed-Follows :
        (key : ℤ) (bytes : List ℕ) (o : Result (MapBlock × BlobReader) × Caches NodeIdMapExtraInfo)
        (w w' : Work)
        → load (map_block_pos key) ≡ ok (some bytes)
        → consume_parsed threshold track_minegeld (map_block_pos key) o w ≡ ok w'
        → Follows key w w'
    unfolding consume_parsed caught
    parsed-Follows key bytes (ok (mb, left), caches) w w' e h =
        block-Follows key caches bytes mb w w' e h
    parsed-Follows key bytes (throw (serialization x), caches) w w' e h =
        same_result key w (with_app count_bad (with_nodes caches w)) w' h
          (bad-Follows key caches bytes w e)
    parsed-Follows key bytes (throw out_of_range, caches) w w' e h = absurd (throws_nothing h)
    parsed-Follows key bytes (throw sqlite3_error, caches) w w' e h = absurd (throws_nothing h)
    parsed-Follows key bytes (throw undefined, caches) w w' e h = absurd (throws_nothing h)
    parsed-Follows key bytes (throw out_of_fuel, caches) w w' e h = absurd (throws_nothing h)

    raw-Follows :
        (key : ℤ) (raw : Option (List ℕ)) (w w' : Work)
        → load (map_block_pos key) ≡ ok raw
        → consume_raw threshold track_minegeld zlib zstd lookup load (map_block_pos key) raw w
          ≡ ok w'
        → Follows key w w'
    unfolding consume_raw
    raw-Follows key none w w' e h =
        same_result key w (with_app count_bad w) w' h
          (count_bad w.app, next rest (Move.missing key w.anthropocene_list e), refl, refl)
    raw-Follows key (some bytes) w w' e h =
        parsed-Follows key bytes
          (parse_block threshold track_minegeld zlib zstd lookup load bytes w) w w' e h

    -- Where a consumer on its own returns from a round, a consumer beside other threads can take the steps
    -- of that round: from the same App it comes to one with the same counters, the same map of blocks and the
    -- same queues, those of keys, positions to preserve, blocks and nodes, and with the same list of positions.
    -- The maps of names are not compared.
    pub consume_key-Follows :
        (key : ℤ) (w w' : Work)
        → consume_key threshold track_minegeld zlib zstd lookup load key w ≡ ok w'
        → Follows key w w'
    unfolding consume_key
    consume_key-Follows key w w' h =
        let p = map_block_pos key in
        let (raw, e, h1) =
          bind_result-ok (load p)
            (λ raw. consume_raw threshold track_minegeld zlib zstd lookup load p raw w) h in
        raw-Follows key raw w w' e h1
