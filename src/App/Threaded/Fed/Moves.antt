-- ===== src/App/Threaded/Fed/Moves.antt =====
-- App::RunConsumer of src/app/consumer.cc beside other threads: every step keeps the keys counted.
use minetest_map_analyzer.Prelude.{
  ℕ, ◌+◌, ◌≡◌, ◌<◌, refl, ap, sym, ◌∙◌, subst, Bool, true, false, Option, List, [], ◌∷◌, ◌++◌,
  length, length-append, ltb, Bool-cases, inl, inr, arith,
}
use minetest_map_analyzer.Prelude.Int.{ℤ}
use minetest_map_analyzer.Prelude.Families.{update, update-all, total, total-update}
use minetest_map_analyzer.Exceptions.{Result}
use minetest_map_analyzer.Pos.{Pos, map_block_pos}
use minetest_map_analyzer.App.BlockQueue.{Queue, NoTombstone, is_tombstone}
use minetest_map_analyzer.App.NodeScan.{NodeIdMapExtraInfo}
use minetest_map_analyzer.App.State.{App, enqueue_map_block_pos}
use minetest_map_analyzer.App.Consumer.{
  Work, note_anthropocene, flush_list, flush_rest, enqueue_preserve,
}
use minetest_map_analyzer.App.Consumer.Recorded.{Kept, flush_rest-Kept, note_anthropocene-Kept}
use minetest_map_analyzer.App.Threaded.Consuming.{Phase, Local, Move, at, listed}
use minetest_map_analyzer.App.Threaded.Views.{View, view, enqueue_some-view}
use minetest_map_analyzer.App.Threaded.Fed.{
  Fed, saw_end, uncounted, unpushed, pop-key, pop-end, front_key, front_end,
}

nonempty : {k : ℤ} {l : List ℤ} → k ∷ l ≡ [] → ⊥
nonempty e = cc

-- Noting a block and flushing the list leave the queue of keys.
note_anthropocene-keys :
    (threshold : ℕ) (flag : Bool) (p : Pos) (w : Work)
    → (note_anthropocene threshold flag p w).app.map_block_queue ≡ w.app.map_block_queue
unfolding note_anthropocene flush_list enqueue_preserve
note_anthropocene-keys threshold true p w =
    elim (Bool-cases (ltb threshold (length (w.anthropocene_list ++ p ∷ [])))) [
      | inl e ↦ rw e refl
      | inr e ↦ rw e refl
    ]
note_anthropocene-keys threshold false p w = refl

flush_rest-keys :
    (positions : List Pos) (app : App)
    → (flush_rest positions app).map_block_queue ≡ app.map_block_queue
unfolding flush_rest enqueue_preserve
flush_rest-keys [] app = refl
flush_rest-keys (p ∷ positions) app = refl

module _ (threshold : ℕ) (lookup : List ℕ → NodeIdMapExtraInfo)
    (load : Pos → Result (Option (List ℕ))) (n i : ℕ) (lt : i < n) (local : ℕ → Local)
    (keys : List ℤ) (produced : Bool) (written : ℕ) where
  weigh :
      (weight : Local → ℕ) (x l : Local)
      → local i ≡ x
      → total weight n (update local i l) + weight x ≡ total weight n local + weight l
  weigh weight x l here =
      subst (λ y. total weight n (update local i l) + weight y ≡ total weight n local + weight l)
        here (total-update weight n local i l lt)

  -- A step that takes no key from the queue.
  same_keys :
      (x l : Local) (v v' : View)
      → local i ≡ x
      → v'.queue ≡ v.queue
      → v'.stats.queued_map_blocks ≡ v.stats.queued_map_blocks
      → (saw_end l ≡ true → saw_end x ≡ true)
      → v'.stats.good_map_blocks + v'.stats.bad_map_blocks + uncounted l
        ≡ v.stats.good_map_blocks + v.stats.bad_map_blocks + uncounted x
      → length v'.block_queue + unpushed l + v.stats.good_map_blocks
        ≡ length v.block_queue + unpushed x + v'.stats.good_map_blocks
      → Fed n v keys produced local written
      → Fed n v' keys produced (update local i l) written
  same_keys x l v v' here queue queued saw counts pushes (left, f) = (
    left,
    record {
      in_queue = ap (λ q. q ++ keys) queue ∙ f.in_queue;
      left_keys = f.left_keys;
      seen =
          update-all (λ y. saw_end y ≡ true → (produced ≡ true) × (left ≡ [])) local i l
            (λ e. f.seen i (ap saw_end here ∙ saw e)) f.seen;
      counted = omega (arith, weigh uncounted x l here, f.counted);
      pushed = omega (arith, weigh unpushed x l here, f.pushed);
    },
  )

  -- What Kept says of two Apps, where the queue of keys is the same.
  same_counts :
      (x l : Local) (a a' : App)
      → local i ≡ x
      → a'.map_block_queue ≡ a.map_block_queue
      → Kept a' a
      → (saw_end l ≡ true → saw_end x ≡ true)
      → uncounted l ≡ uncounted x
      → unpushed l ≡ unpushed x
      → Fed n (view a) keys produced local written
      → Fed n (view a') keys produced (update local i l) written
  same_counts x l a a' here queue k saw counts pushes =
      let good : a'.stats.good_map_blocks ≡ a.stats.good_map_blocks =
        ap (λ s. s.good_map_blocks) k.stats in
      let bad : a'.stats.bad_map_blocks ≡ a.stats.bad_map_blocks =
        ap (λ s. s.bad_map_blocks) k.stats in
      let len : length a'.block_queue ≡ length a.block_queue = ap length k.block_queue in
      same_keys x l (view a) (view a') here queue (ap (λ s. s.queued_map_blocks) k.stats) saw
        (omega arith) (omega arith)

  take-Fed :
      (key : ℤ) (rest : Queue) (l : List Pos) (v : View)
      → local i ≡ at Phase.ready l
      → v.queue ≡ key ∷ rest
      → is_tombstone key ≡ false
      → Fed n v keys produced local written
      → Fed n
          (record v { queue = rest })
          keys
          produced
          (update local i (at (Phase.loading key) l))
          written
  take-Fed key rest l v here queue other (left, f) =
      let (w, ew, er) =
        front_key left produced key (rest ++ keys) (sym (ap (λ q. q ++ keys) queue) ∙ f.in_queue)
          other in
      let x = at Phase.ready l in
      let y = at (Phase.loading key) l in
      let len : length left ≡ length w + 1 = ap length ew ∙ omega arith in
      (
        w,
        record {
          in_queue = er;
          left_keys = (subst NoTombstone ew f.left_keys).1;
          seen =
              update-all (λ y. saw_end y ≡ true → (produced ≡ true) × (w ≡ [])) local i y (λ e. cc)
                λ j e. absurd (nonempty (sym ew ∙ (f.seen j e).1));
          counted = omega (arith, weigh uncounted x y here, f.counted);
          pushed = omega (arith, weigh unpushed x y here, f.pushed);
        },
      )

  stop-Fed :
      (key : ℤ) (rest : Queue) (l : List Pos) (v : View)
      → local i ≡ at Phase.ready l
      → (v.queue ≡ rest) × ((more : Queue) × (v.queue ≡ key ∷ more))
      → is_tombstone key ≡ true
      → Fed n v keys produced local written
      → Fed n
          (record v { queue = rest })
          keys
          produced
          (update local i (at Phase.leaving l))
          written
  stop-Fed key rest l v here (queue, (more, queue')) at_end (left, f) =
      let ended =
        front_end left produced key (more ++ keys) f.left_keys
          (sym (ap (λ q. q ++ keys) queue') ∙ f.in_queue) at_end in
      let x = at Phase.ready l in
      let y = at Phase.leaving l in
      (
        left,
        record {
          in_queue = ap (λ q. q ++ keys) (sym queue) ∙ f.in_queue;
          left_keys = f.left_keys;
          seen =
              update-all (λ y. saw_end y ≡ true → (produced ≡ true) × (left ≡ [])) local i y
                (λ e. ended) f.seen;
          counted = omega (arith, weigh uncounted x y here, f.counted);
          pushed = omega (arith, weigh unpushed x y here, f.pushed);
        },
      )

  pub Move-Fed :
      (app app' : App) (x l : Local)
      → Move threshold lookup load app x app' l
      → local i ≡ x
      → Fed n (view app) keys produced local written
      → Fed n (view app') keys produced (update local i l) written
  unfolding enqueue_map_block_pos
  Move-Fed app app' x l (Move.take key rest positions e other) here f =
      take-Fed key rest positions (view app) here (pop-key key app.map_block_queue rest e other)
        other f
  Move-Fed app app' x l (Move.stop key rest positions e at_end) here f =
      stop-Fed key rest positions (view app) here (pop-end key app.map_block_queue rest e at_end)
        at_end f
  Move-Fed app app' x l (Move.missing key positions e) here f =
      same_keys x l (view app) (view app') here refl refl (λ e. cc) (omega arith) (omega arith) f
  Move-Fed app app' x l (Move.name_node key positions name) here f =
      same_keys x l (view app) (view app') here refl refl (λ e. cc) refl refl f
  Move-Fed app app' x l (Move.malformed key positions bytes e) here f =
      same_keys x l (view app) (view app') here refl refl (λ e. cc) (omega arith) (omega arith) f
  Move-Fed app app' x l (Move.parsed key positions bytes e) here f =
      same_keys x l (view app) (view app') here refl refl (λ e. cc) (omega arith) (omega arith) f
  Move-Fed app app' x l (Move.name_actor key positions name) here f =
      same_keys x l (view app) (view app') here refl refl (λ e. cc) refl refl f
  Move-Fed app app' x l (Move.scanned key positions nodes uniform anthropocene) here f =
      subst (λ v. Fed n v keys produced (update local i l) written)
        (sym (enqueue_some-view nodes app))
        (same_keys x l (view app) (view app) here refl refl (λ e. cc) refl refl f)
  Move-Fed app app' x l (Move.write key positions uniform anthropocene) here f =
      same_keys x l (view app) (view app') here refl refl (λ e. cc) refl refl f
  Move-Fed app app' x l (Move.push key positions anthropocene) here f =
      let len = length-append app.block_queue (map_block_pos key ∷ []) in
      same_keys x l (view app) (view app') here refl refl (λ e. cc) refl (omega (arith, len)) f
  Move-Fed app app' x l (Move.note key positions anthropocene) here f =
      same_counts x l app app' here
        (note_anthropocene-keys threshold anthropocene (map_block_pos key) (listed app positions))
        (note_anthropocene-Kept threshold anthropocene (map_block_pos key) (listed app positions))
        (λ e. cc) refl refl f
  Move-Fed app app' x l (Move.leave positions) here f =
      same_counts x l app app' here (flush_rest-keys positions app) (flush_rest-Kept positions app)
        (λ e. refl) refl refl f
