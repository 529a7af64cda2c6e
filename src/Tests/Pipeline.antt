-- ===== src/Tests/Pipeline.antt =====
-- The queues between the threads, and the loop over the nodes of a block.
use minetest_map_analyzer.Prelude.{
  ℕ, if◌then◌else◌, Bool-cases, subst, ◌&&◌, ◌≡◌, refl, ◌↔◌, ◌⊎◌, inl, inr, true, false, some, List,
  [], ◌∷◌, Memᴰ, str_eq, arith,
}
use minetest_map_analyzer.Prelude.Int.{ℤ, pos, negsuc, ◌≤ℤ◌, leb_ℤ}
use minetest_map_analyzer.Exceptions.{ok}
use minetest_map_analyzer.Minegeld.{codes}
use minetest_map_analyzer.Pos.{Pos, map_block_id, inside}
use minetest_map_analyzer.Node.{Node, new_node, get_owner}
use minetest_map_analyzer.Inventory.{total_minegeld}
use minetest_map_analyzer.IdMap
use minetest_map_analyzer.IdMap.{IdMap, IdMapItem}
use minetest_map_analyzer.IdMap.Local
use minetest_map_analyzer.IdMap.Local.{ThreadLocalIdMap, Caches, new_cache}
use minetest_map_analyzer.NameFilter.{Regex, NameFilter, search_name}
use minetest_map_analyzer.NameFilter.Search.{Matches, search_name_iff}
use minetest_map_analyzer.App.Producer.{run_producer}
use minetest_map_analyzer.App.Producer.Complete.{run_producer_complete}
use minetest_map_analyzer.App.Preserve.{do_merge}
use minetest_map_analyzer.App.Preserve.Radius.{Near, mem-do_merge}
use minetest_map_analyzer.App.NodeScan.{
  NodeIdMapExtraInfo, ActorIdMapExtraInfo, Scan, scan_loop, scan_node, owner_number, is_recorded,
  record_node, row_of,
}
use minetest_map_analyzer.App.NodeScan.Anthropocene.{MarkedFrom, scan_loop_marks}

abbrev low : Pos
low = record { x = negsuc 4; y = negsuc 4; z = negsuc 4 }

abbrev high : Pos
high = record { x = pos 5; y = pos 5; z = pos 5 }

abbrev block : Pos
block = record { x = pos 1; y = negsuc 1; z = pos 2 }

-- A table of two blocks, of which the statement returns those between two numbers.
abbrev table : List ℤ
table = map_block_id block ∷ pos 3 ∷ []

abbrev select : List ℤ → ℤ → ℤ → List ℤ
select [] lo hi = []
select (id ∷ ids) lo hi =
    if leb_ℤ lo id && leb_ℤ id hi then id ∷ select ids lo hi else select ids lo hi

between : (lo id hi : ℤ) → lo ≤ℤ id → id ≤ℤ hi → (leb_ℤ lo id && leb_ℤ id hi) ≡ true
between lo id hi l u = ground arith

mem-select_head :
    (id row lo hi : ℤ) (ids : List ℤ)
    → lo ≤ℤ id
    → id ≤ℤ hi
    → id ≡ row
    → Memᴰ id (select (row ∷ ids) lo hi)
mem-select_head id row lo hi ids l u e =
    let test : (leb_ℤ lo row && leb_ℤ row hi) ≡ true =
      subst (λ k. (leb_ℤ lo k && leb_ℤ k hi) ≡ true) e (between lo id hi l u) in
    rw test (Memᴰ.head e)

mem-select :
    (ids : List ℤ) (id lo hi : ℤ) → Memᴰ id ids → lo ≤ℤ id → id ≤ℤ hi → Memᴰ id (select ids lo hi)
mem-select [] id lo hi m l u = elim m [ ]
mem-select (row ∷ ids) id lo hi (Memᴰ.head e) l u = mem-select_head id row lo hi ids l u e
mem-select (row ∷ ids) id lo hi (Memᴰ.tail m) l u =
    elim (Bool-cases (leb_ℤ lo row && leb_ℤ row hi)) [
      | inl e ↦ rw e (Memᴰ.tail (mem-select ids id lo hi m l u))
      | inr e ↦ rw e (mem-select ids id lo hi m l u)
    ]

block-inside : inside block low high ≡ true
unfolding inside
block-inside = refl

run_producer_complete_example :
    Memᴰ (map_block_id block) (run_producer (select table) 2 low high 0 []).map_block_queue
run_producer_complete_example =
    run_producer_complete table (select table) 2 low high block [] (mem-select table) (omega arith)
      (omega arith) (omega arith) block-inside (Memᴰ.head refl)

mem-do_merge_example :
    Memᴰ low (do_merge (pos 2) (block ∷ []) [])
    ↔ (((q : Pos) × Memᴰ q (block ∷ []) × Near (pos 2) q low) ⊎ Memᴰ low [])
mem-do_merge_example = mem-do_merge (pos 2) (omega arith) low (block ∷ []) [] (omega arith, tt)

-- What two consumers enqueue: three lists, of which one is empty.
abbrev lists : List (List Pos)
lists = (block ∷ []) ∷ [] ∷ (low ∷ high ∷ []) ∷ []

-- A regular expression without operators.
abbrev literal : Regex
literal = record { Pattern = List ℕ; compile = ok; matches = str_eq }

abbrev filter : NameFilter literal
filter = record { positive = codes "a:b" ∷ codes "a:c" ∷ []; negative = codes "a:c" ∷ [] }

search_name_iff_example : (search_name literal filter (codes "a:c") ≡ true) ↔ (
    Matches literal (codes "a:c") filter.positive
    × (¬ Matches literal (codes "a:c") filter.negative))
search_name_iff_example = search_name_iff literal (codes "a:c") filter

-- Two names, of which the second is marked, in the shared map and in the cache of a thread.
abbrev names : IdMap NodeIdMapExtraInfo
names = record {
  by_id =
      record { id = 0; key = codes "a:a"; extra = record { anthropocene = false } }
      ∷ record { id = 1; key = codes "a:b"; extra = record { anthropocene = true } }
      ∷ [];
  by_string = (codes "a:a", 0) ∷ (codes "a:b", 1) ∷ [];
  dirty = [];
}

abbrev names_cache : Caches NodeIdMapExtraInfo
names_cache = (record { slots = 2; slot = λ i. some i; by_string = [] }, names)

abbrev no_actors : Caches ActorIdMapExtraInfo
no_actors = (new_cache, record { by_id = []; by_string = []; dirty = [] })

abbrev two_nodes : List Node
two_nodes = new_node ∷ record new_node { param_0 = 1 } ∷ []

abbrev start : Scan
start = record { actors = no_actors; node_queue = []; anthropocene = false }

abbrev scanned : Scan
scanned = record {
  actors = no_actors;
  node_queue = row_of true names_cache block 1 (record new_node { param_0 = 1 }) 0 ∷ [];
  anthropocene = true;
}

scan_two : scan_loop true names_cache block 2 0 two_nodes start ≡ ok scanned
unfolding scan_loop scan_node owner_number record_node is_recorded get_owner Local.get IdMap.get
    total_minegeld str_eq
scan_two = refl

scan_loop_marks_example :
    (scanned.anthropocene ≡ true)
    ↔ ((start.anthropocene ≡ true) ⊎ MarkedFrom true names_cache block two_nodes 0 2)
scan_loop_marks_example =
    scan_loop_marks true names_cache block 2 0 two_nodes start scanned scan_two
