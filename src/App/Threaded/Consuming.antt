-- ===== src/App/Threaded/Consuming.antt =====
-- App::RunConsumer of src/app/consumer.cc beside other threads: a call on what is shared at a time.
-- How `deserialize` and the loop over the nodes end is left open, so that every outcome is covered,
-- whatever other threads add to the names meanwhile; a throw that is not caught ends the program, and is no
-- step. The data of a block is written in one step, since no other thread has its key.
use minetest_map_analyzer.Prelude.{ℕ, Bool, true, false, ◌≡◌, Option, none, some, List, []}
use minetest_map_analyzer.Prelude.Int.{ℤ}
use minetest_map_analyzer.Exceptions.{Result, ok}
use minetest_map_analyzer.Pos.{Pos, map_block_pos}
use minetest_map_analyzer.App.BlockQueue.{Queue, pop, is_tombstone}
use minetest_map_analyzer.App.BlockData.{modify_data}
use minetest_map_analyzer.App.NodeScan.{NodeIdMapExtraInfo, DataWriterNode}
use minetest_map_analyzer.App.State.{App, enqueue_map_block_pos}
use minetest_map_analyzer.App.Run.{add_node, add_actor}
use minetest_map_analyzer.App.Consumer.{
  Work, new_work, count_good, count_bad, enqueue_some, set_data, note_anthropocene, flush_rest,
}

-- Where a consumer stands, with the key that it has, and what it still needs of the block.
pub data Phase : Type 0 where
  ready : Phase  -- head of the loop
  loading : (key : ℤ) → Phase  -- from LoadMapBlock to the end of `deserialize`
  scanning : (key : ℤ) → Phase  -- the loop over the nodes
  writing : (key : ℤ) (uniform : ℕ) (anthropocene : Bool) → Phase  -- before `Ref`
  pushing : (key : ℤ) (anthropocene : Bool) → Phase  -- before EnqueueMapBlockPos
  noting : (key : ℤ) (anthropocene : Bool) → Phase  -- before `if (anthropocene)`
  leaving : Phase  -- behind the loop
  gone : Phase

-- A consumer: where it stands, and its `anthropocene_list`.
pub record Local : Type 0 where
  pub phase : Phase
  pub anthropocene_list : List Pos

abbrev pub new_local : Local
new_local = record { phase = ready; anthropocene_list = [] }

abbrev pub at : Phase → List Pos → Local
at phase positions = record { phase = phase; anthropocene_list = positions }

-- What note_anthropocene reads and writes.
abbrev pub listed : App → List Pos → Work
listed app positions = record (new_work app) { anthropocene_list = positions }

module _ (threshold : ℕ) (lookup : List ℕ → NodeIdMapExtraInfo)
    (load : Pos → Result (Option (List ℕ))) where
  -- One step of a consumer, on the App and its locals.
  pub data Move (app : App) : Local → App → Local → Type 0 where
    take :
        (key : ℤ) (rest : Queue) (l : List Pos)
        → pop app.map_block_queue ≡ some (key, rest)
        → is_tombstone key ≡ false
        → Move app (at ready l) (record app { map_block_queue = rest }) (at (loading key) l)
    stop :
        (key : ℤ) (rest : Queue) (l : List Pos)
        → pop app.map_block_queue ≡ some (key, rest)
        → is_tombstone key ≡ true
        → Move app (at ready l) (record app { map_block_queue = rest }) (at leaving l)
    missing :
        (key : ℤ) (l : List Pos)
        → load (map_block_pos key) ≡ ok none
        → Move app (at (loading key) l) (count_bad app) (at ready l)
    name_node :
        (key : ℤ) (l : List Pos) (name : List ℕ)
        → Move app (at (loading key) l) (add_node lookup name app) (at (loading key) l)
    malformed :
        (key : ℤ) (l : List Pos) (bytes : List ℕ)
        → load (map_block_pos key) ≡ ok (some bytes)
        → Move app (at (loading key) l) (count_bad app) (at ready l)
    parsed :
        (key : ℤ) (l : List Pos) (bytes : List ℕ)
        → load (map_block_pos key) ≡ ok (some bytes)
        → Move app (at (loading key) l) (count_good app) (at (scanning key) l)
    name_actor :
        (key : ℤ) (l : List Pos) (name : List ℕ)
        → Move app (at (scanning key) l) (add_actor lookup name app) (at (scanning key) l)
    scanned :
        (key : ℤ) (l : List Pos) (nodes : List DataWriterNode) (uniform : ℕ) (anthropocene : Bool)
        → Move app
            (at (scanning key) l)
            (enqueue_some nodes app)
            (at (writing key uniform anthropocene) l)
    write :
        (key : ℤ) (l : List Pos) (uniform : ℕ) (anthropocene : Bool)
        → Move app
            (at (writing key uniform anthropocene) l)
            (record app {
              block_data =
                  modify_data (map_block_pos key) (set_data uniform anthropocene) app.block_data;
            })
            (at (pushing key anthropocene) l)
    push :
        (key : ℤ) (l : List Pos) (anthropocene : Bool)
        → Move app
            (at (pushing key anthropocene) l)
            (enqueue_map_block_pos (map_block_pos key) app)
            (at (noting key anthropocene) l)
    note :
        (key : ℤ) (l : List Pos) (anthropocene : Bool)
        → Move app
            (at (noting key anthropocene) l)
            (note_anthropocene threshold anthropocene (map_block_pos key) (listed app l)).app
            (at ready
              (note_anthropocene threshold anthropocene
                (map_block_pos key)
                (listed app l)).anthropocene_list)
    leave : (l : List Pos) → Move app (at leaving l) (flush_rest l app) (at gone [])
