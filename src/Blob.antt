-- ===== src/Blob.antt =====
-- src/lib/map_reader/blob_reader.h and blob_reader.cc: reading big-endian values from a blob.
-- A byte is a number below 256, `_ptr` is its offset from the start of the blob, and a string is the
-- list of its bytes. After a throw no caller looks at the reader again, so a throw carries none.
pub mod Reads
pub mod Safety
pub mod Handled
pub mod Lines
use Prim.Native.String.{String}
use mathlib.Core.List.{foldl}
use minetest_map_analyzer.Prelude.{
  ℕ, ◌+◌, ◌-◌, ◌*◌, Bool, List, [], ◌∷◌, leb, ◌==◌, ◌&&◌, if◌then◌else◌, length, take, drop,
}
use minetest_map_analyzer.Prelude.Int.{ℤ, signed32}
use minetest_map_analyzer.Exceptions.{
  Extra, SerializationError, Exception, Result, ok, throw, serialization, undefined, bind_result,
}

pub record BlobReader : Type 0 where
  pub blob : List ℕ
  pub ptr : ℕ

abbrev pub reader : List ℕ → BlobReader
reader blob = record { blob = blob; ptr = 0 }

abbrev pub size : BlobReader → ℕ
size r = length r.blob

abbrev pub remaining : BlobReader → ℕ
remaining r = size r - r.ptr

abbrev pub eof : BlobReader → Bool
eof r = remaining r == 0

-- The bytes from `_ptr` to the end of the blob.
abbrev pub ahead : BlobReader → List ℕ
ahead r = drop r.ptr r.blob

-- SerializationError::SerializationError
abbrev pub serialization_error {ℓ} : {A : Type ℓ} → BlobReader → String → Extra → Result A
serialization_error r desc extra = throw (
    serialization (record {
      desc = desc;
      size = size r;
      offset = r.ptr;
      remaining = remaining r;
      extra = extra;
    }))

-- A method that moves `_ptr` and may throw.
abbrev pub Read {ℓ} : Type ℓ → Type ℓ
Read A = BlobReader → Result (A × BlobReader)

abbrev pub pure {ℓ} : {A : Type ℓ} → A → Read A
pure a r = ok (a, r)

abbrev pub fail {ℓ} : {A : Type ℓ} → String → Extra → Read A
fail desc extra r = serialization_error r desc extra

infixl 5 ◌>>=◌ ◌>>◌
abbrev pub ◌>>=◌ {ℓ κ} : {A : Type ℓ} {B : Type κ} → Read A → (A → Read B) → Read B
◌>>=◌ m f r = bind_result (m r) (λ p. f p.0 p.1)

abbrev pub ◌>>◌ {ℓ} : {B : Type ℓ} → Read (Unit {0}) → Read B → Read B
m >> k = m >>= λ _. k

unfoldable pub size_check : ℕ → String → Read (Unit {0})
size_check bytes desc r =
    if leb (r.ptr + bytes) (size r)
    then ok (tt, r)
    else serialization_error r desc (Extra.size_check bytes)

-- `_ptr += bytes`
abbrev pub advance : ℕ → Read (Unit {0})
advance bytes r = ok (tt, record r { ptr = r.ptr + bytes })

-- The bytes at `_ptr`, with no check of the program's own.
unfoldable pub load : ℕ → Read (List ℕ)
load bytes r =
    if leb (r.ptr + bytes) (size r) then ok (take bytes (ahead r), r) else throw undefined

-- BlobReader::skip
unfoldable pub skip : ℕ → String → Read (Unit {0})
skip bytes desc = do size_check bytes desc; advance bytes

-- BlobReader::read_str
unfoldable pub read_str : ℕ → String → Read (List ℕ)
read_str len desc = do size_check len desc; bytes ← load len; advance len; pure bytes

-- ntohs and ntohl of the bytes as they stand in memory.
abbrev pub big_endian : List ℕ → ℕ
big_endian = foldl (λ acc byte. acc * 256 + byte) 0

unfoldable pub read_u8 : String → Read ℕ
read_u8 desc = do size_check 1 desc; bytes ← load 1; advance 1; pure (big_endian bytes)

unfoldable pub read_u16 : String → Read ℕ
read_u16 desc = do size_check 2 desc; bytes ← load 2; advance 2; pure (big_endian bytes)

unfoldable pub read_u32 : String → Read ℕ
read_u32 desc = do size_check 4 desc; bytes ← load 4; advance 4; pure (big_endian bytes)

unfoldable pub read_s32 : String → Read ℤ
read_s32 desc = do size_check 4 desc; bytes ← load 4; advance 4; pure (signed32 (big_endian bytes))

-- isprint in the C locale.
unfoldable pub isprint : ℕ → Bool
isprint c = leb 32 c && leb c 126

-- How the loop of read_line ends, with the number of bytes that it passed.
pub data LineEnd : Type 0 where
  newline garbage end_of_blob : ℕ → LineEnd

unfoldable pub scan_line : List ℕ → ℕ → LineEnd
scan_line [] passed = end_of_blob passed
scan_line (c ∷ rest) passed =
    let more = scan_line rest (passed + 1) in
    if isprint c then more else if c == 10 then newline passed else garbage passed

unfoldable pub finish_line : String → LineEnd → Read (List ℕ)
finish_line desc (newline n) = do bytes ← load n; advance (n + 1); pure bytes
finish_line desc (garbage n) = do advance n; fail desc Extra.garbage
finish_line desc (end_of_blob n) = do advance n; fail desc Extra.no_newline

-- BlobReader::read_line
unfoldable pub read_line : String → Read (List ℕ)
read_line desc r = finish_line desc (scan_line (ahead r) 0) r
