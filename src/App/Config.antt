-- ===== src/App/Config.antt =====
-- src/app/config.h and config.cc: what the user sets.
-- `max_load_avg` is left out: it is a double, and no code but the log reads it.
use minetest_map_analyzer.Prelude.{ℕ, Bool, false, List, []}
use minetest_map_analyzer.Prelude.Int.{ℤ, pos}
use minetest_map_analyzer.Pos.{Pos, min_block_pos, max_block_pos}

-- MapDriverType of src/lib/database/db-map-interface.h
pub data MapDriverType : Type 0 where
  sqlite postgresql : MapDriverType

-- Config
pub record Config : Type 0 where
  pub min_pos : Pos
  pub max_pos : Pos
  pub driver_type : MapDriverType
  pub map_filename : List ℕ
  pub out_filename : List ℕ
  pub pattern_filename : List ℕ
  pub stats_filename : List ℕ
  pub threads : ℤ
  pub preserve_radius : ℤ
  pub producer_batch_size : ℕ
  pub anthropocene_flush_threshold : ℕ
  pub preserve_limit : ℕ
  pub track_minegeld : Bool

-- Config::Config
abbrev pub new_config : Config
new_config = record {
  min_pos = min_block_pos;
  max_pos = max_block_pos;
  driver_type = MapDriverType.sqlite;
  map_filename = [];
  out_filename = [];
  pattern_filename = [];
  stats_filename = [];
  threads = pos 0;
  preserve_radius = pos 5;
  producer_batch_size = 2048;
  anthropocene_flush_threshold = 2048;
  preserve_limit = 32768;
  track_minegeld = false;
}
