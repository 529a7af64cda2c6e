-- ===== src/App/Threaded/Covered/Moves.antt =====
-- App::RunConsumer of src/app/consumer.cc beside other threads: every step keeps the marked positions
-- covered.
use minetest_map_analyzer.Prelude.{
  ℕ, ◌≡◌, refl, ap, sym, ◌∙◌, subst, Bool, true, false, Option, List, [], ◌∷◌, ◌++◌, Memᴰ, All,
  append-nil, append_assoc, Bool-cases, inl, inr, ◌==◌, arith,
}
use minetest_map_analyzer.Prelude.Int.{ℤ}
use minetest_map_analyzer.Prelude.Families.{update, update-all}
use mathlib.Core.List.Memᴰ
use minetest_map_analyzer.Exceptions.{Result}
use minetest_map_analyzer.Pos.{Pos, map_block_pos, pos_eq}
use minetest_map_analyzer.Pos.Ids.{IsBlockPos, map_block_pos-IsBlockPos}
use minetest_map_analyzer.Pos.Hash.{pos_eq_iff}
use minetest_map_analyzer.App.BlockData.{MapBlockHashMap, data_at, modify_data}
use minetest_map_analyzer.App.BlockData.Laws.{data_at-modify_data}
use minetest_map_analyzer.App.Preserve.{PreserveQueue}
use minetest_map_analyzer.App.Preserve.Merge.{concat}
use minetest_map_analyzer.App.NodeScan.{NodeIdMapExtraInfo}
use minetest_map_analyzer.App.State.{App, enqueue_map_block_pos}
use minetest_map_analyzer.App.Consumer.{set_data}
use minetest_map_analyzer.App.Consumer.Marked.{unmarked, mem-append_last, All-append}
use minetest_map_analyzer.App.Consumer.Recorded.{
  queued, concat-append, with_marked, note_anthropocene-pending, note_anthropocene-Kept,
  flush_rest-queued, flush_rest-Kept,
}
use minetest_map_analyzer.App.Threaded.Consuming.{Phase, Local, Move, listed, at}
use minetest_map_analyzer.App.Threaded.Views.{enqueue_some-view}
use minetest_map_analyzer.App.Threaded.Covered.{
  IsCovering, IsSpread, IsAdded, Move-IsAdded, held, with_flag,
}

pub All-split : (P : Pos → Type 0) (a b : List Pos) → All P (a ++ b) → All P a × All P b
All-split P [] b h = (tt, h)
All-split P (x ∷ a) b (h, hs) = let (k, l) = All-split P a b hs in ((h, k), l)

mem_here :
    {p : Pos} (f : ℕ → Local) (i : ℕ) (l : Local) → Memᴰ p (held l) → Memᴰ p (held (update f i l i))
mem_here f i l m = let same : (i == i) ≡ true = ground arith in rw same m

-- What a consumer keeps and what is in the queue of packets is the same, together.
moved :
    (r : ℤ) (m : MapBlockHashMap) (queue queue' : PreserveQueue) (packet : List Pos)
    (local : ℕ → Local) (i : ℕ) (l : Local)
    → queue'.final_queue ≡ queue.final_queue
    → concat queue'.merge_queue ++ held l ≡ concat queue.merge_queue ++ held (local i)
    → ((p : Pos) → Memᴰ p (concat queue.merge_queue) → Memᴰ p (concat queue'.merge_queue))
    → IsCovering r m queue packet local
    → IsCovering r m queue' packet (update local i l)
moved r m queue queue' packet local i l final e grown c =
    let blocks = All-split IsBlockPos (concat queue'.merge_queue) (held l) (
      subst (All IsBlockPos) (sym e) (
        All-append IsBlockPos (concat queue.merge_queue) (held (local i)) c.queue_blocks
          (c.held_blocks i))) in
    record {
      marked = λ p flag. elim (c.marked p flag) [
        | inl (j, h) ↦ elim (Bool-cases (j == i)) [
          | inr other ↦ inl (j, rw other h)
          | inl same ↦
              let here : j ≡ i = ground arith in
              let both =
                subst (λ x. Memᴰ p x) (sym e)
                  (Memᴰ.append_right (concat queue.merge_queue)
                    (subst (λ k. Memᴰ p (held (local k))) here h)) in
              elim (Memᴰ.append_cases (concat queue'.merge_queue) both) [
                | inl q ↦ inr (inl q)
                | inr k ↦ inl (i, mem_here local i l k)
              ]
        ]
        | inr (inl q) ↦ inr (inl (grown p q))
        | inr (inr (inl k)) ↦ inr (inr (inl k))
        | inr (inr (inr spread)) ↦
            inr (inr (inr (subst (λ set. IsSpread r m set p) (sym final) spread)))
      ];
      held_blocks = update-all (λ x. All IsBlockPos (held x)) local i l blocks.1 c.held_blocks;
      queue_blocks = blocks.0;
      packet_blocks = c.packet_blocks;
    }

-- Writing the data of a block keeps the flags.
set_data-preserve :
    (p q : Pos) (uniform : ℕ) (flag : Bool) (m : MapBlockHashMap)
    → (data_at q (modify_data p (set_data uniform flag) m)).preserve ≡ (data_at q m).preserve
unfolding set_data
set_data-preserve p q uniform flag m = elim (Bool-cases (pos_eq p q)) [
  | inl e ↦
      rw (data_at-modify_data p q (set_data uniform flag) m, e)
        (ap (λ v. (data_at v m).preserve) ((pos_eq_iff p q).0 e))
  | inr e ↦ rw (data_at-modify_data p q (set_data uniform flag) m, e) refl
]

mem-with_flag :
    (flag : Bool) (key : ℤ) (positions : List Pos) (p : Pos)
    → Memᴰ p positions
    → Memᴰ p (with_flag flag key positions)
mem-with_flag true key positions p m = Memᴰ.append_left (map_block_pos key ∷ []) m
mem-with_flag false key positions p m = m

with_flag-blocks :
    (flag : Bool) (key : ℤ) (positions : List Pos)
    → All IsBlockPos positions
    → All IsBlockPos (with_flag flag key positions)
with_flag-blocks true key positions h =
    All-append IsBlockPos positions (map_block_pos key ∷ []) h (map_block_pos-IsBlockPos key, tt)
with_flag-blocks false key positions h = h

-- What a write marks is kept.
mem-written :
    (p : Pos) (flag : Bool) (key : ℤ) (uniform : ℕ) (positions : List Pos) (m : MapBlockHashMap)
    → pos_eq (map_block_pos key) p ≡ true
    → (data_at p (modify_data (map_block_pos key) (set_data uniform flag) m)).anthropocene ≡ true
    → Memᴰ p (with_flag flag key positions)
mem-written p true key uniform positions m e marked =
    subst (λ v. Memᴰ v (positions ++ map_block_pos key ∷ []))
      ((pos_eq_iff (map_block_pos key) p).0 e) (mem-append_last (map_block_pos key) positions)
mem-written p false key uniform positions m e marked = absurd (
    unmarked uniform (data_at (map_block_pos key) m)
      (rw (data_at-modify_data (map_block_pos key) p (set_data uniform false) m, e) at marked))

module _ (r : ℤ) (m : MapBlockHashMap) (queue : PreserveQueue) (packet : List Pos)
    (local : ℕ → Local) (i : ℕ) where
  write-IsCovering :
      (key : ℤ) (positions : List Pos) (uniform : ℕ) (flag : Bool)
      → local i ≡ at (Phase.writing key uniform flag) positions
      → IsCovering r m queue packet local
      → IsCovering r
          (modify_data (map_block_pos key) (set_data uniform flag) m)
          queue
          packet
          (update local i (at (Phase.pushing key flag) positions))
  write-IsCovering key positions uniform flag here c =
      let p = map_block_pos key in
      let x = at (Phase.pushing key flag) positions in
      record {
        marked = λ q marked. elim (Bool-cases (pos_eq p q)) [
          | inl e ↦
              inl (i, mem_here local i x (mem-written q flag key uniform positions m e marked))
          | inr e ↦
              elim (c.marked q
                (rw (data_at-modify_data p q (set_data uniform flag) m, e) at marked)) [
                  | inl (j, h) ↦ elim (Bool-cases (j == i)) [
                    | inr other ↦ inl (j, rw other h)
                    | inl same ↦
                        let at_i : j ≡ i = ground arith in
                        let kept : held (local j) ≡ positions =
                          ap (λ k. held (local k)) at_i ∙ ap held here in
                        inl (
                          i,
                          mem_here local i x
                              (mem-with_flag flag key positions q (subst (λ k. Memᴰ q k) kept h)),
                        )
                  ]
                  | inr (inl k) ↦ inr (inl k)
                  | inr (inr (inl k)) ↦ inr (inr (inl k))
                  | inr (inr (inr spread)) ↦ inr (
                      inr (
                        inr λ q' near. elim (spread q' near) [
                          | inl k ↦ inl k
                          | inr k ↦ inr (set_data-preserve p q' uniform flag m ∙ k)
                        ]))
                ]
        ];
        held_blocks =
            update-all (λ y. All IsBlockPos (held y)) local i x
              (with_flag-blocks flag key positions
                (subst (All IsBlockPos) (ap held here) (c.held_blocks i)))
              c.held_blocks;
        queue_blocks = c.queue_blocks;
        packet_blocks = c.packet_blocks;
      }

with_flag_lem :
    (threshold : ℕ) (flag : Bool) (key : ℤ) (a b : List Pos)
    → with_marked threshold flag (map_block_pos key) (a ++ b) ≡ a ++ with_flag flag key b
with_flag_lem threshold true key a b = append_assoc a b (map_block_pos key ∷ [])
with_flag_lem threshold false key a b = refl

module _ (threshold : ℕ) (lookup : List ℕ → NodeIdMapExtraInfo)
    (load : Pos → Result (Option (List ℕ))) (r : ℤ) (packet : List Pos) (local : ℕ → Local)
    (i : ℕ) where
  abbrev Covering : App → (ℕ → Local) → Type 0
  Covering app f = IsCovering r app.block_data app.preserve_queue packet f

  grown :
      (app app' : App) → IsAdded app app' → (p : Pos) → Memᴰ p (queued app) → Memᴰ p (queued app')
  grown app app' g p h =
      subst (λ l. Memᴰ p l)
        (sym (ap concat g.added ∙ concat-append app.preserve_queue.merge_queue g.more))
        (Memᴰ.append_left (concat g.more) h)

  -- A step that leaves the map of blocks.
  same_data :
      (app app' : App) (x l : Local)
      → Move threshold lookup load app x app' l
      → local i ≡ x
      → app'.block_data ≡ app.block_data
      → queued app' ++ held l ≡ queued app ++ held x
      → Covering app local
      → Covering app' (update local i l)
  same_data app app' x l move here blocks e c =
      let g = Move-IsAdded threshold lookup load app app' x l move in
      subst (λ m. IsCovering r m app'.preserve_queue packet (update local i l)) (sym blocks)
        (moved r app.block_data app.preserve_queue app'.preserve_queue packet local i l g.final
          (e ∙ ap (λ y. queued app ++ held y) (sym here)) (grown app app' g) c)

  pub Move-IsCovering :
      (app app' : App) (x l : Local)
      → Move threshold lookup load app x app' l
      → local i ≡ x
      → Covering app local
      → Covering app' (update local i l)
  unfolding enqueue_map_block_pos
  Move-IsCovering app app' x l (Move.take key rest positions e h) here c =
      same_data app app' x l (Move.take key rest positions e h) here refl refl c
  Move-IsCovering app app' x l (Move.stop key rest positions e h) here c =
      same_data app app' x l (Move.stop key rest positions e h) here refl refl c
  Move-IsCovering app app' x l (Move.missing key positions e) here c =
      same_data app app' x l (Move.missing key positions e) here refl refl c
  Move-IsCovering app app' x l (Move.name_node key positions name) here c =
      same_data app app' x l (Move.name_node key positions name) here refl refl c
  Move-IsCovering app app' x l (Move.malformed key positions bytes e) here c =
      same_data app app' x l (Move.malformed key positions bytes e) here refl refl c
  Move-IsCovering app app' x l (Move.parsed key positions bytes e) here c =
      same_data app app' x l (Move.parsed key positions bytes e) here refl refl c
  Move-IsCovering app app' x l (Move.name_actor key positions name) here c =
      same_data app app' x l (Move.name_actor key positions name) here refl refl c
  Move-IsCovering app app' x l (Move.scanned key positions nodes u a) here c =
      let v = enqueue_some-view nodes app in
      same_data app app' x l (Move.scanned key positions nodes u a) here (ap (λ w. w.block_data) v)
        (ap (λ w. concat w.preserve.merge_queue ++ positions) v) c
  Move-IsCovering app app' x l (Move.write key positions u a) here c =
      write-IsCovering r app.block_data app.preserve_queue packet local i key positions u a here c
  Move-IsCovering app app' x l (Move.push key positions a) here c =
      same_data app app' x l (Move.push key positions a) here refl refl c
  Move-IsCovering app app' x l (Move.note key positions a) here c =
      let w = listed app positions in
      same_data app app' x l (Move.note key positions a) here
        (note_anthropocene-Kept threshold a (map_block_pos key) w).block_data
        (note_anthropocene-pending threshold a (map_block_pos key) w
          ∙ with_flag_lem threshold a key (queued app) positions)
        c
  Move-IsCovering app app' x l (Move.leave positions) here c =
      same_data app app' x l (Move.leave positions) here (flush_rest-Kept positions app).block_data
        (append-nil (queued app') ∙ flush_rest-queued positions app) c
