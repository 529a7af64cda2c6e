-- ===== src/Blob/Reads.antt =====
-- The reads of src/lib/map_reader/blob_reader.h: what they return, and where they start and end.
use Prim.Native.String.{String}
use minetest_map_analyzer.Prelude.{
  ℕ, ◌+◌, ◌/◌, ◌%◌, ◌^◌, ◌≤◌, ◌<◌, ◌≡◌, ap, ◌∙◌, List, [], ◌∷◌, ◌++◌, arith, length, drop,
  length-drop, length-append, drop_add, take_left, drop_left, le→leb, lt→leb,
}
use minetest_map_analyzer.Exceptions.{Extra, ok}
use minetest_map_analyzer.Blob.{
  BlobReader, Read, size, ahead, size_check, load, advance, read_str, read_u8, read_u16, read_u32,
  big_endian, serialization_error, pure, ◌>>=◌, ◌>>◌,
}

-- `r` stands before the bytes `bytes`, which reach to the end of the blob.
pub record At (r : BlobReader) (bytes : List ℕ) : Type 0 where
  pub within : r.ptr ≤ size r
  pub bytes_ahead : ahead r ≡ bytes

-- The reader `n` bytes on.
abbrev pub moved : BlobReader → ℕ → BlobReader
moved r n = record r { ptr = r.ptr + n }

At-room : (r : BlobReader) (xs ys : List ℕ) → At r (xs ++ ys) → r.ptr + length xs ≤ size r
At-room r xs ys h =
    omega (arith, h.within, length-drop r.ptr r.blob, ap length h.bytes_ahead, length-append xs ys)

pub At-moved : (r : BlobReader) (xs ys : List ℕ) → At r (xs ++ ys) → At (moved r (length xs)) ys
At-moved r xs ys h = record {
  within = At-room r xs ys h;
  bytes_ahead =
      drop_add r.ptr (length xs) r.blob ∙ ap (drop (length xs)) h.bytes_ahead ∙ drop_left xs ys;
}

pub load_lem : (r : BlobReader) (xs ys : List ℕ) → At r (xs ++ ys) → load (length xs) r ≡ ok (xs, r)
unfolding load
load_lem r xs ys h = rw (le→leb _ _ (At-room r xs ys h), h.bytes_ahead, take_left xs ys)

size_check_lem :
    (r : BlobReader) (desc : String) (xs ys : List ℕ)
    → At r (xs ++ ys)
    → size_check (length xs) desc r ≡ ok (tt, r)
unfolding size_check
size_check_lem r desc xs ys h = rw (le→leb _ _ (At-room r xs ys h))

-- The body that the read methods share.
abbrev pub taking {ℓ} : {A : Type ℓ} → (List ℕ → A) → ℕ → String → Read A
taking f n desc = do size_check n desc; bytes ← load n; advance n; pure (f bytes)

taking_lem {ℓ} :
    {A : Type ℓ} (f : List ℕ → A) (desc : String) (r : BlobReader) (xs ys : List ℕ)
    → At r (xs ++ ys)
    → taking f (length xs) desc r ≡ ok (f xs, moved r (length xs))
taking_lem f desc r xs ys h = rw (size_check_lem r desc xs ys h, load_lem r xs ys h)

taking_short {ℓ} :
    {A : Type ℓ} (f : List ℕ → A) (n : ℕ) (desc : String) (r : BlobReader)
    → size r < r.ptr + n
    → taking f n desc r ≡ serialization_error r desc (Extra.size_check n)
unfolding size_check
taking_short f n desc r h = rw (lt→leb _ _ h)

-- The big-endian bytes of a number.
abbrev pub u8_bytes : ℕ → List ℕ
u8_bytes n = n ∷ []

abbrev pub u16_bytes : ℕ → List ℕ
u16_bytes n = n / 256 ∷ n % 256 ∷ []

abbrev pub u32_bytes : ℕ → List ℕ
u32_bytes n = n / 2 ^ 24 ∷ n / 2 ^ 16 % 256 ∷ n / 2 ^ 8 % 256 ∷ n % 256 ∷ []

read_u8_lem :
    (r : BlobReader) (desc : String) (n : ℕ) (rest : List ℕ)
    → At r (u8_bytes n ++ rest)
    → read_u8 desc r ≡ ok (n, moved r 1)
unfolding read_u8
read_u8_lem r desc n rest h = taking_lem big_endian desc r (u8_bytes n) rest h ∙ ground arith

read_u16_lem :
    (r : BlobReader) (desc : String) (n : ℕ) (rest : List ℕ)
    → At r (u16_bytes n ++ rest)
    → read_u16 desc r ≡ ok (n, moved r 2)
unfolding read_u16
read_u16_lem r desc n rest h = taking_lem big_endian desc r (u16_bytes n) rest h ∙ ground arith

read_u32_lem :
    (r : BlobReader) (desc : String) (n : ℕ) (rest : List ℕ)
    → At r (u32_bytes n ++ rest)
    → read_u32 desc r ≡ ok (n, moved r 4)
unfolding read_u32
read_u32_lem r desc n rest h = taking_lem big_endian desc r (u32_bytes n) rest h ∙ ground arith

read_str_lem :
    (r : BlobReader) (desc : String) (xs rest : List ℕ)
    → At r (xs ++ rest)
    → read_str (length xs) desc r ≡ ok (xs, moved r (length xs))
unfolding read_str
read_str_lem r desc xs rest h = taking_lem (λ bytes. bytes) desc r xs rest h

-- The bytes of a value of each width and of a string, one behind the other.
abbrev pub written : ℕ → ℕ → ℕ → List ℕ → List ℕ → List ℕ
written a b c s rest = u8_bytes a ++ (u16_bytes b ++ (u32_bytes c ++ (s ++ rest)))

-- Reads of each width, one after the other.
abbrev pub read_written : String → ℕ → Read (ℕ × ℕ × ℕ × List ℕ)
read_written desc len = do
  a ← read_u8 desc
  b ← read_u16 desc
  c ← read_u32 desc
  s ← read_str len desc
  pure (a, b, c, s)

-- A number of one byte, one of two, one of four and a string, which stand in the blob one behind the
-- other in big-endian order, are read back in this order, and the reader has then moved past them.
pub read_written_lem :
    (r : BlobReader) (desc : String) (a b c : ℕ) (s rest : List ℕ)
    → At r (written a b c s rest)
    → read_written desc (length s) r ≡ ok ((a, b, c, s), moved r (7 + length s))
read_written_lem r desc a b c s rest h =
    let h1 = At-moved r (u8_bytes a) _ h in
    let h2 = At-moved _ (u16_bytes b) _ h1 in
    let h3 = At-moved _ (u32_bytes c) _ h2 in
    rw
      (
        read_u8_lem r desc a _ h,
        read_u16_lem (moved r 1) desc b _ h1,
        read_u32_lem (moved (moved r 1) 2) desc c _ h2,
        read_str_lem (moved (moved (moved r 1) 2) 4) desc s rest h3,
      )
      (ap (λ n. ok ((a, b, c, s), record r { ptr = n })) (omega arith))
