-- ===== src/MapBlock.antt =====
-- src/lib/map_reader/mapblock.h and mapblock.cc: a block of 16 * 16 * 16 nodes.
-- A method changes the block, the reader and the thread's cache of node names. A throw keeps the cache,
-- which the next block uses, and drops the block and the reader, as the consumer does.
pub mod Parts
pub mod Names
pub mod Formats
pub mod Safety
pub mod Metadata
pub mod Entries
use Prim.Native.String.{String}
use minetest_map_analyzer.Prelude.{
  ℕ, zero, suc, ◌+◌, ◌-◌, ◌*◌, ◌^◌, ◌<◌, Bool, Option, none, some, List, [], ◌∷◌, ◌++◌, length,
  get_elem?,
}
use minetest_map_analyzer.Prelude.Int.{ℤ}
use minetest_map_analyzer.Exceptions.{Extra, Exception, Result, ok, throw}
use minetest_map_analyzer.Blob
use minetest_map_analyzer.Blob.{BlobReader, Read}
use minetest_map_analyzer.Node.{Node}

abbrev pub map_block_size : ℕ
map_block_size = 16

abbrev pub nodes_per_block : ℕ
nodes_per_block = map_block_size * map_block_size * map_block_size

abbrev pub param0_size : ℕ
param0_size = 2 * nodes_per_block

abbrev pub param1_size : ℕ
param1_size = nodes_per_block

abbrev pub param2_size : ℕ
param2_size = nodes_per_block

abbrev pub node_data_size : ℕ
node_data_size = param0_size + param1_size + param2_size

-- MapBlock. `valid_` is set by the constructor and read nowhere, so it is left out.
pub record MapBlock : Type 0 where
  pub version : ℕ
  pub flags : ℕ
  pub lighting_complete : ℕ
  pub timestamp : ℕ
  pub content_width : ℕ
  pub params_width : ℕ
  pub nodes : List Node
  pub param0_map : List ℤ

-- MapBlock::MapBlock
abbrev pub new_block : MapBlock
new_block = record {
  version = 0;
  flags = 0;
  lighting_complete = 0;
  timestamp = 0;
  content_width = 0;
  params_width = 0;
  nodes = [];
  param0_map = [];
}

-- What an action returns, and the state `S` in any case.
abbrev pub Action : Type 0 → Type 0 → Type 0
Action S A = BlobReader → S → Result (A × BlobReader) × S

module _ {S A B : Type 0} where
  abbrev continue : (A → Action S B) → Result (A × BlobReader) × S → Result (B × BlobReader) × S
  continue f (ok (a, r), s) = f a r s
  continue f (throw e, s) = (throw e, s)

  infixl 5 ◌>>=◌
  abbrev pub ◌>>=◌ : Action S A → (A → Action S B) → Action S B
  ◌>>=◌ m f r s = continue f (m r s)

module _ {S A : Type 0} where
  abbrev pub pure : A → Action S A
  pure a r s = (ok (a, r), s)

  -- A read does not touch the cache.
  abbrev pub read : Read A → Action S A
  read m r s = (m r, s)
