-- ===== src/App/Run/Preserved.antt =====
-- src/app/app.cc: the blocks that are preserved, behind MergeThread and ApplyPreserveFlags.
use minetest_map_analyzer.Prelude.{
  ◌≡◌, refl, sym, ap, ◌∙◌, ◌↔◌, ◌⊎◌, inl, inr, Bool, true, false, some, [], ◌∷◌, ◌++◌, Memᴰ, All,
  Bool-cases,
}
use minetest_map_analyzer.Prelude.Int.{ℤ, pos, ◌≤ℤ◌}
use minetest_map_analyzer.Pos.{Pos, pos_eq}
use minetest_map_analyzer.Pos.Ids.{IsBlockPos}
use minetest_map_analyzer.Pos.Hash.{pos_eq_iff}
use minetest_map_analyzer.App.BlockData.{MapBlockHashMap, data_at, modify_data}
use minetest_map_analyzer.App.BlockData.Laws.{data_at-modify_data}
use minetest_map_analyzer.App.Preserve
use minetest_map_analyzer.App.Preserve.{
  PosSet, PreserveQueue, do_merge, merge_thread, surrender_final_set,
}
use minetest_map_analyzer.App.Preserve.Merge.{
  concat, IsPacked, packets-IsPacket, merge_thread-packets,
}
use minetest_map_analyzer.App.Preserve.Radius.{Near, mem-do_merge}
use minetest_map_analyzer.App.State.{App}
use minetest_map_analyzer.App.Consumer.Recorded.{queued}
use minetest_map_analyzer.App.Run.{
  set_preserve, flag_loop, apply_preserve_flags, set_preserve_tombstone, merge,
}

not_both : {b : Bool} → b ≡ true → b ≡ false → ⊥
not_both e f = cc

-- The flag of a position behind the loop of ApplyPreserveFlags.
pub flag_loop-preserve :
    (q : Pos) (set : PosSet) (m : MapBlockHashMap)
    → ((data_at q (flag_loop set m)).preserve ≡ true)
      ↔ (Memᴰ q set ⊎ ((data_at q m).preserve ≡ true))
unfolding flag_loop
flag_loop-preserve q [] m = (λ e. inr e, λ o. elim o [ inl h ↦ elim h [ ] | inr e ↦ e ])
flag_loop-preserve q (p ∷ set) m =
    let ih = flag_loop-preserve q set (modify_data p set_preserve m) in
    elim (Bool-cases (pos_eq p q)) [
      | inl e ↦ (
        λ h. inl (Memᴰ.head (sym ((pos_eq_iff p q).0 e))),
        λ o. ih.1 (inr (rw (data_at-modify_data p q set_preserve m, e) refl)),
      )
      | inr e ↦
          let same : data_at q (modify_data p set_preserve m) ≡ data_at q m =
            rw (data_at-modify_data p q set_preserve m, e) refl in
          (
            λ h. elim (ih.0 h) [ inl h' ↦ inl (Memᴰ.tail h') | inr h' ↦ inr (rw same at h') ],
            λ o. elim o [
              | inl (Memᴰ.head e') ↦ absurd (not_both ((pos_eq_iff p q).1 (sym e')) e)
              | inl (Memᴰ.tail h) ↦ ih.1 (inl h)
              | inr h ↦ ih.1 (inr (rw same h))
            ],
          )
    ]

pub flag_loop-anthropocene :
    (q : Pos) (set : PosSet) (m : MapBlockHashMap)
    → (data_at q (flag_loop set m)).anthropocene ≡ (data_at q m).anthropocene
unfolding flag_loop
flag_loop-anthropocene q [] m = refl
flag_loop-anthropocene q (p ∷ set) m =
    flag_loop-anthropocene q set (modify_data p set_preserve m) ∙ elim (Bool-cases (pos_eq p q)) [
      | inl e ↦
          rw (data_at-modify_data p q set_preserve m, e)
            (ap (λ v. (data_at v m).anthropocene) ((pos_eq_iff p q).0 e))
      | inr e ↦ rw (data_at-modify_data p q set_preserve m, e) refl
    ]

merge_thread-set_tombstone_packed :
    (r : ℤ) (q : PreserveQueue)
    → IsPacked q
    → merge_thread r (Preserve.set_tombstone q).merge_queue (Preserve.set_tombstone q).final_queue
      ≡ some (record { merge_queue = [] ∷ []; final_queue = do_merge r (concat q.merge_queue) [] })
unfolding Preserve.set_tombstone
merge_thread-set_tombstone_packed r q h =
    ap (λ set. merge_thread r (q.merge_queue ++ [] ∷ []) set) h.unmerged
    ∙ ap (λ lists. merge_thread r (lists ++ [] ∷ []) [])
        (sym (packets-IsPacket q.merge_queue h.packets))
    ∙ merge_thread-packets r q.merge_queue []

module _ (r : ℤ) (hr : r ≤ℤ pos 30000) (app : App) (packed : IsPacked app.preserve_queue) where
  -- The App behind MergeThread.
  abbrev pub merged_app : App
  merged_app = record app {
    preserve_queue = record { merge_queue = [] ∷ []; final_queue = do_merge r (queued app) [] };
  }

  pub merge_lem : merge r (set_preserve_tombstone app) ≡ some merged_app
  unfolding merge
  merge_lem = rw (merge_thread-set_tombstone_packed r app.preserve_queue packed) refl

  -- What ApplyPreserveFlags leaves of the map of blocks.
  abbrev pub flagged : MapBlockHashMap
  flagged = (apply_preserve_flags merged_app).block_data

  pub flagged-preserve :
      (q : Pos)
      → All IsBlockPos (queued app)
      → ((data_at q flagged).preserve ≡ true) ↔ (
          ((p : Pos) × Memᴰ p (queued app) × Near r p q)
          ⊎ ((data_at q app.block_data).preserve ≡ true))
  unfolding apply_preserve_flags surrender_final_set
  flagged-preserve q blocks =
      let flag = flag_loop-preserve q (do_merge r (queued app) []) app.block_data in
      let near = mem-do_merge r hr q (queued app) [] blocks in
      (
        λ h. elim (flag.0 h) [
          | inr h' ↦ inr h'
          | inl m ↦ elim (near.0 m) [ inl n ↦ inl n | inr m' ↦ elim m' [ ] ]
        ],
        λ o. elim o [ inl n ↦ flag.1 (inl (near.1 (inl n))) | inr h ↦ flag.1 (inr h) ],
      )

  -- With a radius of at most 30000, and a preserve queue that holds positions of blocks only, has no
  -- tombstone and from which nothing has been merged: behind SetTombstone, MergeThread ends, and behind
  -- ApplyPreserveFlags, a block is preserved just where it is within the radius of a position of the queue, or
  -- was preserved before.
  pub merge-preserve :
      (q : Pos)
      → All IsBlockPos (queued app)
      → (m : App) × (merge r (set_preserve_tombstone app) ≡ some m)
        × (((data_at q (apply_preserve_flags m).block_data).preserve ≡ true) ↔ (
            ((p : Pos) × Memᴰ p (queued app) × Near r p q)
            ⊎ ((data_at q app.block_data).preserve ≡ true)))
  merge-preserve q blocks = (merged_app, merge_lem, flagged-preserve q blocks)

  pub flagged-anthropocene :
      (q : Pos) → (data_at q flagged).anthropocene ≡ (data_at q app.block_data).anthropocene
  unfolding apply_preserve_flags surrender_final_set
  flagged-anthropocene q = flag_loop-anthropocene q (do_merge r (queued app) []) app.block_data
