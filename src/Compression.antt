-- ===== src/Compression.antt =====
-- BlobReader::decompress_zlib and decompress_zstd of src/lib/map_reader/blob_reader.cc, over zlib and zstd.
-- The two libraries are parameters: what one call of `inflate` or `ZSTD_decompressStream` reads and writes.
pub mod Safety
use Prim.Native.String.{String}
use minetest_map_analyzer.Prelude.{
  ℕ, zero, suc, ◌+◌, ◌-◌, ◌*◌, ◌≤◌, ◌<◌, ◌≡◌, Bool, Option, none, some, List, [], ◌++◌, length,
  drop, replicate, ltb, ◌==◌, ◌||◌, if◌then◌else◌,
}
use minetest_map_analyzer.Exceptions.{Extra, throw, out_of_fuel}
use minetest_map_analyzer.Blob.{BlobReader, Read, pure, fail, skip, ahead, remaining, ◌>>=◌, ◌>>◌}

-- What a call did: the bytes that it took from the input and wrote to the output buffer, its
-- status, and the stream afterwards.
pub record Call (S : Type 0) : Type 0 where
  pub status : ℕ
  pub used : ℕ
  pub written : List ℕ
  pub stream : S

-- zlib: `inflate` on a stream, the input that is left, and the room in the output buffer. Its status
-- is Z_OK (0), Z_STREAM_END (1) or an error.
pub record Zlib : Type 1 where
  pub Stream : Type 0
  pub inflate_init : Option Stream
  pub inflate : Stream → List ℕ → ℕ → Call Stream
  -- The bytes that are still to be read or written until the input is used up.
  pub pending : Stream → List ℕ → ℕ
  -- A call takes no more than the input holds and writes no more than the room.
  pub inflate_within :
      (s : Stream) (input : List ℕ) (room : ℕ)
      → ((inflate s input room).used ≤ length input)
        × (length (inflate s input room).written ≤ room)
  -- With Z_OK it has read or written something, and no input decompresses into endless output.
  pub inflate_progress :
      (s : Stream) (input : List ℕ) (room : ℕ)
      → (inflate s input room).status ≡ 0
      → pending (inflate s input room).stream (drop (inflate s input room).used input)
        < pending s input

-- zstd: `ZSTD_decompressStream`, with the code of an error for its status, or 0.
pub record Zstd : Type 1 where
  pub Stream : Type 0
  -- ZSTD_createDStream and ZSTD_initDStream.
  pub init_stream : Stream
  pub decompress_stream : Stream → List ℕ → ℕ → Call Stream
  pub pending : Stream → List ℕ → ℕ
  pub decompress_within :
      (s : Stream) (input : List ℕ) (room : ℕ)
      → ((decompress_stream s input room).used ≤ length input)
        × (length (decompress_stream s input room).written ≤ room)
  pub decompress_progress :
      (s : Stream) (input : List ℕ) (room : ℕ)
      → (decompress_stream s input room).status ≡ 0
      → pending
          (decompress_stream s input room).stream
          (drop (decompress_stream s input room).used input)
        < pending s input

-- BUFFER_SIZE and ZSTD_BUFSIZE
abbrev pub buffer_size : ℕ
buffer_size = 32768

-- `dest` when the loop of decompress_zlib runs out of input: the bytes written, with zeros up to the size
-- that the rounds gave it.
abbrev pub padded : ℕ → List ℕ → List ℕ
padded rounds out = out ++ replicate (rounds * buffer_size - length out) 0

module _ (zlib : Zlib) where
  -- A round after its call of inflate: `loop` is the next round.
  unfoldable pub inflate_round :
      String → List ℕ → (List ℕ → zlib.Stream → Read (List ℕ)) → Call zlib.Stream → Read (List ℕ)
  inflate_round desc out loop call =
      if call.status == 0 || call.status == 1
      then (skip call.used "zlib.inflate"
          >> (if call.status == 1
              then pure (out ++ call.written)
              else loop (out ++ call.written) call.stream))
      else fail desc (Extra.zlib_error call.status)

  -- The loop. `avail_in` is always the count of the bytes from `_ptr` on: both move by what a call used.
  unfoldable pub inflate_loop : ℕ → String → ℕ → List ℕ → zlib.Stream → Read (List ℕ)
  inflate_loop zero desc rounds out stream r = throw out_of_fuel
  inflate_loop (suc fuel) desc rounds out stream r =
      let round =
        inflate_round desc out (inflate_loop fuel desc (rounds + 1))
          (zlib.inflate stream (ahead r) buffer_size) in
      if remaining r == 0 then pure (padded rounds out) r else round r

  start_inflate : String → Option zlib.Stream → Read (List ℕ)
  start_inflate desc none r = fail desc Extra.inflate_init r
  start_inflate desc (some stream) r =
      inflate_loop (zlib.pending stream (ahead r) + 1) desc 0 [] stream r

  -- BlobReader::decompress_zlib. The rounds are bounded by what is pending at the start.
  unfoldable pub decompress_zlib : String → Read (List ℕ)
  unfolding start_inflate
  decompress_zlib desc = start_inflate desc zlib.inflate_init

module _ (zstd : Zstd) where
  -- A round after its call of ZSTD_decompressStream. The reader does not move in the loop: `pos` counts
  -- what was used, and `loop` is the next round.
  unfoldable pub zstd_round :
      String
      → ℕ
      → List ℕ
      → (ℕ → List ℕ → zstd.Stream → Read (List ℕ))
      → Call zstd.Stream
      → Read (List ℕ)
  zstd_round desc pos out loop call =
      if call.status == 0
      then loop (pos + call.used) (out ++ call.written) call.stream
      else fail desc (Extra.zstd_error call.status)

  unfoldable pub zstd_loop : ℕ → String → ℕ → List ℕ → zstd.Stream → Read (List ℕ)
  zstd_loop zero desc pos out stream r = throw out_of_fuel
  zstd_loop (suc fuel) desc pos out stream r =
      let round =
        zstd_round desc pos out (zstd_loop fuel desc)
          (zstd.decompress_stream stream (drop pos (ahead r)) buffer_size) in
      let end = skip pos "zstd.decompress" >> pure out in
      if ltb pos (remaining r) then round r else end r

  -- BlobReader::decompress_zstd
  unfoldable pub decompress_zstd : String → Read (List ℕ)
  decompress_zstd desc r =
      zstd_loop (zstd.pending zstd.init_stream (ahead r) + 1) desc 0 [] zstd.init_stream r
