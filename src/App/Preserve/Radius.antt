-- ===== src/App/Preserve/Radius.antt =====
-- PreserveQueue::DoMerge of src/app/preserve_queue.cc: the blocks within the radius.
use minetest_map_analyzer.Prelude.{
  ◌≡◌, refl, sym, ◌∙◌, ap, subst, ◌↔◌, ◌⊎◌, inl, inr, List, [], ◌∷◌, Memᴰ, All, arith,
}
use minetest_map_analyzer.Prelude.Int.{ℤ, pos, ◌+ℤ◌, ◌-ℤ◌, ◌≤ℤ◌, to_u16, signed16}
use minetest_map_analyzer.Pos.{Pos}
use minetest_map_analyzer.Pos.Ids.{IsBlockPos, IsBlockCoordinate}
use minetest_map_analyzer.App.Preserve.{PosSet, block_at, merge_position, do_merge}
use minetest_map_analyzer.App.Preserve.Loops.{Between, mem-insert_pos, mem-for_upto}

-- Each coordinate of `p` is at most `r` from that of `q`.
abbrev pub Near : ℤ → Pos → Pos → Type 0
Near r q p =
    ((q.x -ℤ r) ≤ℤ p.x)
    × (p.x ≤ℤ (q.x +ℤ r))
    × ((q.y -ℤ r) ≤ℤ p.y)
    × (p.y ≤ℤ (q.y +ℤ r))
    × ((q.z -ℤ r) ≤ℤ p.z)
    × (p.z ≤ℤ (q.z +ℤ r))

-- A coordinate near that of a block is an int16_t.
near_fits :
    (r q c : ℤ)
    → r ≤ℤ pos 30000
    → IsBlockCoordinate q
    → (q -ℤ r) ≤ℤ c
    → c ≤ℤ (q +ℤ r)
    → signed16 (to_u16 c) ≡ c
unfolding ◌+ℤ◌ ◌-ℤ◌
near_fits r q c hr hq l u = ground arith

module _ (r : ℤ) (hr : r ≤ℤ pos 30000) (p : Pos) where
  abbrev IsAt : Pos → Type 0
  IsAt q =
      Between (q.z -ℤ r) (q.z +ℤ r) λ z.
        Between (q.y -ℤ r) (q.y +ℤ r) λ y. Between (q.x -ℤ r) (q.x +ℤ r) λ x. p ≡ block_at x y z

  mem-merge_position-IsAt :
      (q : Pos) (set : PosSet) → Memᴰ p (merge_position r q set) ↔ (IsAt q ⊎ Memᴰ p set)
  unfolding merge_position
  mem-merge_position-IsAt q set =
      mem-for_upto p _ _
        (λ z set'.
          mem-for_upto p _ _
            (λ y set2.
              mem-for_upto p _ _ (λ x set3. mem-insert_pos p (block_at x y z) set3) (q.x -ℤ r)
                (q.x +ℤ r) set2)
            (q.y -ℤ r) (q.y +ℤ r) set')
        (q.z -ℤ r) (q.z +ℤ r) set

  IsAt→Near : (q : Pos) → IsBlockPos q → IsAt q → Near r q p
  IsAt→Near q h (z, lz, uz, (y, ly, uy, (x, lx, ux, e))) =
      let ex : p.x ≡ x = ap (λ v. v.x) e ∙ near_fits r q.x x hr h.0 lx ux in
      let ey : p.y ≡ y = ap (λ v. v.y) e ∙ near_fits r q.y y hr h.1 ly uy in
      let ez : p.z ≡ z = ap (λ v. v.z) e ∙ near_fits r q.z z hr h.2 lz uz in
      rw (ex, ey, ez) (lx, ux, ly, uy, lz, uz)

  Near→IsAt : (q : Pos) → IsBlockPos q → Near r q p → IsAt q
  Near→IsAt q h (lx, ux, ly, uy, lz, uz) =
      let ex = near_fits r q.x p.x hr h.0 lx ux in
      let ey = near_fits r q.y p.y hr h.1 ly uy in
      let ez = near_fits r q.z p.z hr h.2 lz uz in
      (
        p.z,
        lz,
        uz,
        (p.y, ly, uy, (p.x, lx, ux, λ i. record { x = sym ex i; y = sym ey i; z = sym ez i })),
      )

  mem-merge_position :
      (q : Pos) (set : PosSet)
      → IsBlockPos q
      → Memᴰ p (merge_position r q set) ↔ (Near r q p ⊎ Memᴰ p set)
  mem-merge_position q set h =
      let k = mem-merge_position-IsAt q set in
      (
        λ m. elim (k.0 m) [ inl a ↦ inl (IsAt→Near q h a) | inr m' ↦ inr m' ],
        λ o. elim o [ inl n ↦ k.1 (inl (Near→IsAt q h n)) | inr m' ↦ k.1 (inr m') ],
      )

  -- A position is in the set behind DoMerge just where it was in it before, or is within the radius of
  -- one of the positions that are merged. These are in the range of blocks, and the radius is at most
  -- 30000, so that no coordinate leaves an int16_t.
  pub mem-do_merge :
      (positions : List Pos) (set : PosSet)
      → All IsBlockPos positions
      → Memᴰ p (do_merge r positions set)
        ↔ (((q : Pos) × Memᴰ q positions × Near r q p) ⊎ Memᴰ p set)
  unfolding do_merge
  mem-do_merge [] set h = (λ m. inr m, λ o. elim o [ inl (q, m, n) ↦ elim m [ ] | inr m ↦ m ])
  mem-do_merge (q ∷ positions) set (hq, h) =
      let ih = mem-do_merge positions (merge_position r q set) h in
      let k = mem-merge_position q set hq in
      (
        λ m. elim (ih.0 m) [
          | inl (q', m', n) ↦ inl (q', Memᴰ.tail m', n)
          | inr m' ↦ elim (k.0 m') [ inl n ↦ inl (q, Memᴰ.head refl, n) | inr m2 ↦ inr m2 ]
        ],
        λ o. elim o [
          | inl (q', Memᴰ.head e, n) ↦ ih.1 (inr (k.1 (inl (subst (λ v. Near r v p) e n))))
          | inl (q', Memᴰ.tail m', n) ↦ ih.1 (inl (q', m', n))
          | inr m ↦ ih.1 (inr (k.1 (inr m)))
        ],
      )
