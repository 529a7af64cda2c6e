-- ===== src/Compression/Safety.antt =====
-- The decompression loops of src/lib/map_reader/blob_reader.cc: how they can end.
use Prim.Native.String.{String}
use minetest_map_analyzer.Prelude.{
  ℕ, zero, suc, ◌+◌, ◌≤◌, ◌<◌, ◌≡◌, refl, sym, subst, false, Option, none, some, List, [], ◌++◌,
  length, drop, length-drop, drop_add, ltb, ◌==◌, Bool-cases, inl, inr, le→leb, arith,
}
use minetest_map_analyzer.Exceptions.{Extra, ok, Result}
use minetest_map_analyzer.Blob.{BlobReader, Read, skip, size, size_check, ahead, remaining}
use minetest_map_analyzer.Blob.Reads.{moved}
use minetest_map_analyzer.Blob.Safety.{Outcome, Outcome-trans, Safe, Safe-fail}
use minetest_map_analyzer.Compression.{
  Call, Zlib, Zstd, buffer_size, inflate_round, inflate_loop, start_inflate, decompress_zlib,
  zstd_round, zstd_loop, decompress_zstd,
}

skip_lem :
    (n : ℕ) (desc : String) (r : BlobReader)
    → r.ptr ≤ size r
    → n ≤ length (ahead r)
    → skip n desc r ≡ ok (tt, moved r n)
unfolding skip size_check
skip_lem n desc r v h = rw (le→leb (r.ptr + n) (size r) (omega (arith, length-drop r.ptr r.blob)))

moved-Outcome :
    {A : Type 0} (r : BlobReader) (n : ℕ) (o : Result (A × BlobReader))
    → r.ptr ≤ size r
    → n ≤ length (ahead r)
    → Outcome (moved r n) o
    → Outcome r o
moved-Outcome r n o v h k =
    Outcome-trans r (moved r n) o (refl, omega arith, omega (arith, length-drop r.ptr r.blob)) k

module _ (zlib : Zlib) where
  inflate_round-Outcome :
      (desc : String) (out : List ℕ) (loop : List ℕ → zlib.Stream → Read (List ℕ))
      (call : Call zlib.Stream) (r : BlobReader)
      → r.ptr ≤ size r
      → call.used ≤ length (ahead r)
      → (call.status ≡ 0
          → Outcome
              (moved r call.used)
              (loop (out ++ call.written) call.stream (moved r call.used)))
      → Outcome r (inflate_round zlib desc out loop call r)
  unfolding inflate_round
  inflate_round-Outcome desc out loop call r v h k = elim (Bool-cases (call.status == 1)) [
    | inl e ↦
        let z : (call.status == 0) ≡ false = ground arith in
        rw (z, e, skip_lem call.used "zlib.inflate" r v h)
          (moved-Outcome r call.used (ok (out ++ call.written, moved r call.used)) v h
            (refl, omega arith, omega (arith, length-drop r.ptr r.blob)))
    | inr e ↦ elim (Bool-cases (call.status == 0)) [
      | inl z ↦
          rw (z, e)
            (rw (skip_lem call.used "zlib.inflate" r v h)
              (moved-Outcome r call.used _ v h (k (ground arith))))
      | inr z ↦ rw (z, e) ((Safe-fail {A = List ℕ} desc (Extra.zlib_error call.status)).at r v)
    ]
  ]

  inflate_loop-Outcome :
      (fuel : ℕ) (desc : String) (rounds : ℕ) (out : List ℕ) (stream : zlib.Stream) (r : BlobReader)
      → r.ptr ≤ size r
      → zlib.pending stream (ahead r) < fuel
      → Outcome r (inflate_loop zlib fuel desc rounds out stream r)
  unfolding inflate_loop
  inflate_loop-Outcome zero desc rounds out stream r v h = absurd (omega arith)
  inflate_loop-Outcome (suc fuel) desc rounds out stream r v h =
      elim (Bool-cases (remaining r == 0)) [
        | inl e ↦ rw e (refl, omega arith, v)
        | inr e ↦
            let call = zlib.inflate stream (ahead r) buffer_size in
            let progress = zlib.inflate_progress stream (ahead r) buffer_size in
            let within : call.used ≤ length (ahead r) =
              (zlib.inflate_within stream (ahead r) buffer_size).0 in
            rw e (
              inflate_round-Outcome desc out (inflate_loop zlib fuel desc (rounds + 1)) call r v
                within
                (λ z.
                  inflate_loop-Outcome fuel desc (rounds + 1) (out ++ call.written) call.stream
                    (moved r call.used) (omega (arith, length-drop r.ptr r.blob))
                    (subst (λ bytes. zlib.pending call.stream bytes < fuel)
                      (sym (drop_add r.ptr call.used r.blob)) (omega (arith, progress z)))))
      ]

  start_inflate-Outcome :
      (desc : String) (stream : Option zlib.Stream) (r : BlobReader)
      → r.ptr ≤ size r
      → Outcome r (start_inflate zlib desc stream r)
  unfolding start_inflate
  start_inflate-Outcome desc none r v = (Safe-fail {A = List ℕ} desc Extra.inflate_init).at r v
  start_inflate-Outcome desc (some stream) r v =
      inflate_loop-Outcome _ desc 0 [] stream r v (omega arith)

  -- Decompressing with zlib always ends, with bytes or a SerializationError, and the reader stays inside the
  -- blob.
  pub Safe-decompress_zlib : (desc : String) → Safe (decompress_zlib zlib desc)
  unfolding decompress_zlib
  Safe-decompress_zlib desc = record { at = start_inflate-Outcome desc zlib.inflate_init }

module _ (zstd : Zstd) where
  zstd_loop-Outcome :
      (fuel : ℕ) (desc : String) (pos : ℕ) (out : List ℕ) (stream : zstd.Stream) (r : BlobReader)
      → r.ptr ≤ size r
      → pos ≤ remaining r
      → zstd.pending stream (drop pos (ahead r)) < fuel
      → Outcome r (zstd_loop zstd fuel desc pos out stream r)
  unfolding zstd_loop zstd_round
  zstd_loop-Outcome zero desc pos out stream r v p h = absurd (omega arith)
  zstd_loop-Outcome (suc fuel) desc pos out stream r v p h =
      let call = zstd.decompress_stream stream (drop pos (ahead r)) buffer_size in
      elim (Bool-cases (ltb pos (remaining r))) [
        | inr e ↦
            let room : pos ≤ length (ahead r) = omega (arith, length-drop r.ptr r.blob) in
            rw (e, skip_lem pos "zstd.decompress" r v room) (refl, omega arith, omega arith)
        | inl e ↦ elim (Bool-cases (call.status == 0)) [
          | inr z ↦ rw (e, z) ((Safe-fail {A = List ℕ} desc (Extra.zstd_error call.status)).at r v)
          | inl z ↦
              let zero : call.status ≡ 0 = ground arith in
              let progress =
                zstd.decompress_progress stream (drop pos (ahead r)) buffer_size zero in
              let within = (zstd.decompress_within stream (drop pos (ahead r)) buffer_size).0 in
              rw (e, z)
                (zstd_loop-Outcome fuel desc (pos + call.used) (out ++ call.written) call.stream r v
                  (omega (arith, length-drop r.ptr r.blob, length-drop pos (ahead r)))
                  (subst (λ bytes. zstd.pending call.stream bytes < fuel)
                    (sym (drop_add pos call.used (ahead r))) (omega arith)))
        ]
      ]

  -- So does decompressing with zstd.
  Safe-decompress_zstd : (desc : String) → Safe (decompress_zstd zstd desc)
  unfolding decompress_zstd
  Safe-decompress_zstd desc = record {
    at = λ r v. zstd_loop-Outcome _ desc 0 [] zstd.init_stream r v (omega arith) (omega arith);
  }

-- From a reader inside its blob, decompress_zlib ends: either it returns, with the reader moved forward
-- inside the same blob, or it throws a SerializationError that shows the blob's size.
pub decompress_zlib-Outcome :
    (zlib : Zlib) (desc : String) (r : BlobReader)
    → r.ptr ≤ size r
    → Outcome r (decompress_zlib zlib desc r)
decompress_zlib-Outcome zlib desc r v = (Safe-decompress_zlib zlib desc).at r v

-- From a reader inside its blob, decompress_zstd ends: either it returns, with the reader moved forward
-- inside the same blob, or it throws a SerializationError that shows the blob's size.
pub decompress_zstd-Outcome :
    (zstd : Zstd) (desc : String) (r : BlobReader)
    → r.ptr ≤ size r
    → Outcome r (decompress_zstd zstd desc r)
decompress_zstd-Outcome zstd desc r v = (Safe-decompress_zstd zstd desc).at r v
