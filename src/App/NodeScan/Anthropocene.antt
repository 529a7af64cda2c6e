-- ===== src/App/NodeScan/Anthropocene.antt =====
-- The loop over the nodes in src/app/consumer.cc: the flag of the block.
use minetest_map_analyzer.Prelude.{
  ℕ, zero, suc, ◌+◌, ◌≤◌, ◌<◌, ◌≡◌, refl, sym, ◌∙◌, ap, ◌↔◌, ◌⊎◌, inl, inr, Bool, true, false, ◌||◌,
  Option, none, some, List, get_elem?, Bool-cases, arith,
}
use minetest_map_analyzer.Exceptions.{ok, or_undefined, bind_result-ok, ok-injective}
use minetest_map_analyzer.Pos.{Pos}
use minetest_map_analyzer.Node.{Node, get_owner}
use minetest_map_analyzer.IdMap.{IdMapItem}
use minetest_map_analyzer.IdMap.Local
use minetest_map_analyzer.IdMap.Local.{Caches}
use minetest_map_analyzer.App.NodeScan.{
  NodeIdMapExtraInfo, Scan, owner_number, record_node, scan_node, scan_loop,
}

not_both : true ≡ false → ⊥
not_both h = cc

le_cases : (i j : ℕ) → i ≤ j → (i ≡ j) ⊎ (i + 1 ≤ j)
le_cases i j l = ground arith

some-injective : {a b : Node} → some a ≡ some b → a ≡ b
some-injective h = cc

same_node :
    (i j : ℕ) (nodes : List Node) (a b : Node)
    → i ≡ j
    → get_elem? nodes i ≡ some a
    → get_elem? nodes j ≡ some b
    → a ≡ b
same_node i j nodes a b e ha hb = some-injective (sym ha ∙ ap (λ k. get_elem? nodes k) e ∙ hb)

or_true : (a b : Bool) → b ≡ true → (a || b) ≡ true
or_true true b h = refl
or_true false b h = h

or_false : (a b : Bool) → b ≡ false → (a || b) ≡ a
or_false true b h = refl
or_false false b h = h

module _ (track_minegeld : Bool) (cache : Caches NodeIdMapExtraInfo) (p : Pos) where
  -- The node at the index `i` is marked: the item of its number is.
  abbrev pub IsMarked : List Node → ℕ → Type 0
  IsMarked nodes i =
      (node : Node) × (info : IdMapItem NodeIdMapExtraInfo) × (get_elem? nodes i ≡ some node)
      × (Local.get cache node.param_0 ≡ ok info)
      × (info.extra.anthropocene ≡ true)

  or_undefined-some : (o : Option Node) (node : Node) → or_undefined o ≡ ok node → o ≡ some node
  or_undefined-some none node h = cc
  or_undefined-some (some n) node h = ap some (ok-injective h)

  -- What one round has found, and the state behind it.
  round_lem :
      (i : ℕ) (nodes : List Node) (node : Node) (s s' : Scan)
      → get_elem? nodes i ≡ some node
      → scan_node track_minegeld cache p i node s ≡ ok s'
      → (info : IdMapItem NodeIdMapExtraInfo) × (Local.get cache node.param_0 ≡ ok info)
        × (s'.anthropocene ≡ (s.anthropocene || info.extra.anthropocene))
  unfolding scan_node record_node
  round_lem i nodes node s s' at_index h =
      let (info, found, h1) = bind_result-ok (Local.get cache node.param_0) _ h in
      let (owner, added, h2) =
        bind_result-ok (owner_number s.actors (get_owner node.metadata)) _ h1 in
      (info, found, ap (λ v. v.anthropocene) (sym (ok-injective h2)))

  abbrev pub MarkedFrom : List Node → ℕ → ℕ → Type 0
  MarkedFrom nodes i left = (j : ℕ) × (i ≤ j) × (j < i + left) × IsMarked nodes j

  -- A marked index that is not below one with an unmarked node is above it.
  later :
      (i j : ℕ) (nodes : List Node) (info : IdMapItem NodeIdMapExtraInfo) (node : Node)
      → get_elem? nodes i ≡ some node
      → Local.get cache node.param_0 ≡ ok info
      → info.extra.anthropocene ≡ false
      → i ≤ j
      → IsMarked nodes j
      → i + 1 ≤ j
  later i j nodes info node at_index found unmarked l (node', info', at', found', marked) =
      elim (le_cases i j l) [
        | inl e ↦ absurd (
            not_both (
              sym marked
              ∙ ap (λ v. v.extra.anthropocene)
                  (sym (
                    ok-injective (
                      sym found
                      ∙ ap (λ n. Local.get cache n.param_0)
                          (same_node i j nodes node node' e at_index at')
                      ∙ found')))
              ∙ unmarked))
        | inr k ↦ k
      ]

  -- Where the loop over the nodes from `i` on returns, the block is marked just where it was marked
  -- before, or where the number of one of these nodes is that of a marked name.
  pub scan_loop_marks :
      (left i : ℕ) (nodes : List Node) (s s' : Scan)
      → scan_loop track_minegeld cache p left i nodes s ≡ ok s'
      → (s'.anthropocene ≡ true) ↔ ((s.anthropocene ≡ true) ⊎ MarkedFrom nodes i left)
  unfolding scan_loop
  scan_loop_marks zero i nodes s s' h =
      let same : s.anthropocene ≡ s'.anthropocene = ap (λ v. v.anthropocene) (ok-injective h) in
      (
        λ e. inl (same ∙ e),
        λ o. elim o [ inl e ↦ sym same ∙ e | inr (j, l, u, m) ↦ absurd (omega arith) ],
      )
  scan_loop_marks (suc left) i nodes s s' h =
      let (node, here, h1) = bind_result-ok (or_undefined (get_elem? nodes i)) _ h in
      let at_index = or_undefined-some (get_elem? nodes i) node here in
      let (s1, ran, h2) = bind_result-ok (scan_node track_minegeld cache p i node s) _ h1 in
      let (info, found, flag) = round_lem i nodes node s s1 at_index ran in
      let ih = scan_loop_marks left (i + 1) nodes s1 s' h2 in
      elim (Bool-cases info.extra.anthropocene) [
        | inl marked ↦ (
          λ e. inr (i, omega arith, omega arith, (node, info, at_index, found, marked)),
          λ o. ih.1 (inl (flag ∙ or_true s.anthropocene info.extra.anthropocene marked)),
        )
        | inr unmarked ↦
            let same : s1.anthropocene ≡ s.anthropocene =
              flag ∙ or_false s.anthropocene info.extra.anthropocene unmarked in
            (
              λ e. elim (ih.0 e) [
                | inl e' ↦ inl (sym same ∙ e')
                | inr (j, l, u, m) ↦ inr (j, omega arith, omega arith, m)
              ],
              λ o. elim o [
                | inl e ↦ ih.1 (inl (same ∙ e))
                | inr (j, l, u, m) ↦
                    ih.1 (
                      inr
                        (j, later i j nodes info node at_index found unmarked l m, omega arith, m))
              ],
            )
      ]
