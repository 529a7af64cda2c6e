-- ===== src/Tests/Reader.antt =====
-- Reading from small blobs.
use minetest_map_analyzer.Prelude.{◌*◌, ◌%◌, ◌^◌, ◌≡◌, refl, [], ◌∷◌, ◌++◌, arith}
use minetest_map_analyzer.Exceptions.{ok}
use minetest_map_analyzer.Blob.{
  BlobReader, reader, isprint, scan_line, finish_line, load, read_line,
}
use minetest_map_analyzer.Blob.Reads.{At, moved, written, read_written, read_written_lem}
use minetest_map_analyzer.Blob.Lines.{IsLine, LineRead, read_line_found, read_line_sound}
use minetest_map_analyzer.Blob.Safety.{Outcome}
use minetest_map_analyzer.Minegeld.{
  codes, single, stack, parse_currency_minegeld, parse_currency_minegeld-stack,
}
use minetest_map_analyzer.Inventory.{deserialize_inventory}
use minetest_map_analyzer.Inventory.Safety.{deserialize_inventory-Outcome}

abbrev numbers : BlobReader
numbers = reader (written 7 258 16909060 (codes "abc") (9 ∷ []))

At-numbers : At numbers (written 7 258 16909060 (codes "abc") (9 ∷ []))
At-numbers = record { within = omega arith; bytes_ahead = refl }

read_written_lem_example :
    read_written "test" 3 numbers ≡ ok ((7, 258, 16909060, codes "abc"), moved numbers 10)
read_written_lem_example =
    read_written_lem numbers "test" 7 258 16909060 (codes "abc") (9 ∷ []) At-numbers

abbrev lines : BlobReader
lines = reader (codes "Empty" ++ 10 ∷ codes "EndInv")

At-lines : At lines (codes "Empty" ++ 10 ∷ codes "EndInv")
At-lines = record { within = omega arith; bytes_ahead = refl }

printable : IsLine (codes "Empty")
unfolding isprint
printable = (refl, (refl, (refl, (refl, (refl, tt)))))

read_lines : read_line "test" lines ≡ ok (codes "Empty", moved lines 6)
unfolding read_line scan_line finish_line load isprint
read_lines = refl

read_line_found_example : read_line "test" lines ≡ ok (codes "Empty", moved lines 6)
read_line_found_example =
    read_line_found lines "test" (codes "Empty") (codes "EndInv") printable At-lines

read_line_sound_example : LineRead lines (codes "Empty", moved lines 6)
read_line_sound_example =
    read_line_sound lines (moved lines 6) "test" (codes "Empty") (omega arith) read_lines

parse_currency_minegeld-stack_example :
    (parse_currency_minegeld (single 5) ≡ 5)
    × (parse_currency_minegeld (stack 5 20) ≡ 5 * 20 % 2 ^ 64)
parse_currency_minegeld-stack_example =
    parse_currency_minegeld-stack 5 20 (omega arith) (omega arith)

deserialize_inventory-Outcome_example : Outcome lines (deserialize_inventory [] lines)
deserialize_inventory-Outcome_example = deserialize_inventory-Outcome [] lines (omega arith)
