-- ===== src/App/Threaded/Covered/Merged.antt =====
-- PreserveQueue::MergeThread of src/app/preserve_queue.cc beside other threads, and ApplyPreserveFlags of
-- src/app/app.cc: the marked positions stay covered.
use minetest_map_analyzer.Prelude.{
  ℕ, ◌≡◌, sym, ◌∙◌, subst, List, [], ◌∷◌, ◌++◌, Memᴰ, All, append-nil, inl, inr,
}
use minetest_map_analyzer.Prelude.Int.{ℤ, pos, ◌≤ℤ◌}
use mathlib.Core.List.Memᴰ
use minetest_map_analyzer.Pos.{Pos}
use minetest_map_analyzer.Pos.Ids.{IsBlockPos}
use minetest_map_analyzer.App.BlockData.{MapBlockHashMap}
use minetest_map_analyzer.App.Preserve.{PreserveQueue, do_merge}
use minetest_map_analyzer.App.Preserve.Merge.{concat}
use minetest_map_analyzer.App.Preserve.Radius.{mem-do_merge}
use minetest_map_analyzer.App.Consumer.Recorded.{concat-append}
use minetest_map_analyzer.App.Run.{flag_loop}
use minetest_map_analyzer.App.Run.Preserved.{flag_loop-preserve, flag_loop-anthropocene}
use minetest_map_analyzer.App.Run.Written.{IsPreserving}
use minetest_map_analyzer.App.Threaded.Consuming.{Local}
use minetest_map_analyzer.App.Threaded.Covered.{IsCovering, held}
use minetest_map_analyzer.App.Threaded.Covered.Moves.{All-split}

nothing : {p : Pos} → Memᴰ p [] → ⊥
nothing m = elim m [ ]

nowhere : {p : Pos} {l : List Pos} → l ≡ [] → Memᴰ p l → ⊥
nowhere {p} e m = nothing (subst (λ x. Memᴰ p x) e m)

module _ (r : ℤ) (m : MapBlockHashMap) (queue : PreserveQueue) (local : ℕ → Local) where
  -- The packet at the front goes to the merging thread.
  pub take_packet-IsCovering :
      (packet : List Pos) (packets : List (List Pos))
      → queue.merge_queue ≡ packet ∷ packets
      → IsCovering r m queue [] local
      → IsCovering r m (record queue { merge_queue = packets }) packet local
  take_packet-IsCovering packet packets e c =
      let blocks = All-split IsBlockPos packet (concat packets) (rw e at c.queue_blocks) in
      record {
        marked = λ p flag. elim (c.marked p flag) [
          | inl k ↦ inl k
          | inr (inl k) ↦ elim (Memᴰ.append_cases packet (rw e at k)) [
            | inl h ↦ inr (inr (inl h))
            | inr h ↦ inr (inl h)
          ]
          | inr (inr (inl k)) ↦ elim k [ ]
          | inr (inr (inr k)) ↦ inr (inr (inr k))
        ];
        held_blocks = c.held_blocks;
        queue_blocks = blocks.1;
        packet_blocks = blocks.0;
      }

  -- DoMerge spreads the positions of the packet.
  pub merge_packet-IsCovering :
      (packet : List Pos)
      → r ≤ℤ pos 30000
      → IsCovering r m queue packet local
      → IsCovering r m (record queue { final_queue = do_merge r packet queue.final_queue }) [] local
  merge_packet-IsCovering packet hr c =
      let merged = λ (q : Pos). mem-do_merge r hr q packet queue.final_queue c.packet_blocks in
      record {
        marked = λ p flag. elim (c.marked p flag) [
          | inl k ↦ inl k
          | inr (inl k) ↦ inr (inl k)
          | inr (inr (inl k)) ↦ inr (inr (inr λ q near. inl ((merged q).1 (inl (p, k, near)))))
          | inr (inr (inr k)) ↦ inr (
              inr (
                inr
                  λ q near. elim (k q near) [ inl h ↦ inl ((merged q).1 (inr h)) | inr h ↦ inr h ]))
        ];
        held_blocks = c.held_blocks;
        queue_blocks = c.queue_blocks;
        packet_blocks = tt;
      }

  -- The tombstone holds no position.
  pub tombstone-IsCovering :
      (packet : List Pos)
      → IsCovering r m queue packet local
      → IsCovering r m (record queue { merge_queue = queue.merge_queue ++ [] ∷ [] }) packet local
  tombstone-IsCovering packet c =
      let same : concat (queue.merge_queue ++ [] ∷ []) ≡ concat queue.merge_queue =
        concat-append queue.merge_queue ([] ∷ []) ∙ append-nil (concat queue.merge_queue) in
      record {
        marked = λ p flag. elim (c.marked p flag) [
          | inl k ↦ inl k
          | inr (inl k) ↦ inr (inl (subst (λ l. Memᴰ p l) (sym same) k))
          | inr (inr k) ↦ inr (inr k)
        ];
        held_blocks = c.held_blocks;
        queue_blocks = subst (All IsBlockPos) (sym same) c.queue_blocks;
        packet_blocks = c.packet_blocks;
      }

  -- The positions of the final set become flags.
  pub flags-IsCovering :
      (packet : List Pos)
      → IsCovering r m queue packet local
      → IsCovering r
          (flag_loop queue.final_queue m)
          (record queue { final_queue = [] })
          packet
          local
  flags-IsCovering packet c = record {
    marked = λ p flag.
        elim (c.marked p (sym (flag_loop-anthropocene p queue.final_queue m) ∙ flag)) [
          | inl k ↦ inl k
          | inr (inl k) ↦ inr (inl k)
          | inr (inr (inl k)) ↦ inr (inr (inl k))
          | inr (inr (inr k)) ↦
              inr
                (inr (inr λ q near. inr ((flag_loop-preserve q queue.final_queue m).1 (k q near))))
        ];
    held_blocks = c.held_blocks;
    queue_blocks = c.queue_blocks;
    packet_blocks = c.packet_blocks;
  }

  -- Where nobody holds a position and the final set is empty, every position near a marked one has its flag.
  pub drained-IsPreserving :
      ((i : ℕ) → held (local i) ≡ [])
      → concat queue.merge_queue ≡ []
      → queue.final_queue ≡ []
      → IsCovering r m queue [] local
      → IsPreserving r m
  drained-IsPreserving nobody empty final c p q flag near = elim (c.marked p flag) [
    | inl (i, k) ↦ absurd (nowhere (nobody i) k)
    | inr (inl k) ↦ absurd (nowhere empty k)
    | inr (inr (inl k)) ↦ elim k [ ]
    | inr (inr (inr k)) ↦ elim (k q near) [ inl h ↦ absurd (nowhere final h) | inr h ↦ h ]
  ]
