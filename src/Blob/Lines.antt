-- ===== src/Blob/Lines.antt =====
-- BlobReader::read_line of src/lib/map_reader/blob_reader.cc: the lines of printable characters.
use Prim.Native.String.{String}
use minetest_map_analyzer.Prelude.{
  ℕ, ◌+◌, ◌≤◌, ◌≡◌, subst, refl, ap, sym, ◌∙◌, Bool-cases, inl, inr, true, List, [], ◌∷◌, ◌++◌,
  arith, length, ◌==◌, All,
}
use minetest_map_analyzer.Exceptions.{ok, ok-injective}
use minetest_map_analyzer.Blob.{
  BlobReader, LineEnd, newline, garbage, end_of_blob, size, ahead, isprint, scan_line, finish_line,
  read_line,
}
use minetest_map_analyzer.Blob.Reads.{At, At-moved, moved, load_lem}

-- A line without its newline: printable characters only.
abbrev pub IsLine : List ℕ → Type 0
IsLine = All (λ c. isprint c ≡ true)

scan_line_found :
    (line rest : List ℕ) (n : ℕ)
    → IsLine line
    → scan_line (line ++ 10 ∷ rest) n ≡ newline (length line + n)
unfolding scan_line isprint
scan_line_found [] rest n h = ground arith
scan_line_found (c ∷ line) rest n h =
    rw h.0 (scan_line_found line rest (n + 1) h.1 ∙ ap newline (omega arith))

scan_line-newline :
    (xs : List ℕ) (n k : ℕ)
    → scan_line xs n ≡ newline k
    → (line : List ℕ) × (rest : List ℕ) × (xs ≡ line ++ 10 ∷ rest)
      × IsLine line
      × (k ≡ length line + n)
unfolding scan_line
scan_line-newline [] n k e = cc
scan_line-newline (c ∷ xs) n k e = elim (Bool-cases (isprint c)) [
  | inl p ↦
      let (line, rest, split, printable, count) = scan_line-newline xs (n + 1) k (rw p at e) in
      (c ∷ line, rest, ap (λ l. c ∷ l) split, (p, printable), omega arith)
  | inr p ↦ elim (Bool-cases (c == 10)) [
    | inl q ↦ ([], xs, ground arith, tt, ground arith)
    | inr q ↦ cc (rw (p, q) at e)
  ]
]

finish_line-ok :
    (desc : String) (e : LineEnd) (r r' : BlobReader) (line : List ℕ)
    → finish_line desc e r ≡ ok (line, r')
    → (k : ℕ) × (e ≡ newline k)
unfolding finish_line
finish_line-ok desc (newline n) r r' line e = (n, refl)
finish_line-ok desc (garbage n) r r' line e = cc
finish_line-ok desc (end_of_blob n) r r' line e = cc

-- Before a line of printable characters and a newline, `read_line` returns the line and moves past
-- the newline.
pub read_line_found :
    (r : BlobReader) (desc : String) (line rest : List ℕ)
    → IsLine line
    → At r (line ++ 10 ∷ rest)
    → read_line desc r ≡ ok (line, moved r (length line + 1))
unfolding read_line finish_line
read_line_found r desc line rest p h =
    let scan : scan_line (ahead r) 0 ≡ newline (length line) =
      ap (λ l. scan_line l 0) h.bytes_ahead
      ∙ scan_line_found line rest 0 p
      ∙ ap newline (omega arith) in
    rw (scan, load_lem r line (10 ∷ rest) h)

-- What a returned line and the reader behind it satisfy.
abbrev pub LineRead : BlobReader → List ℕ × BlobReader → Type 0
LineRead r p =
    IsLine p.0
    × ((rest : List ℕ) × At r (p.0 ++ 10 ∷ rest) × (p.1 ≡ moved r (length p.0 + 1)) × At p.1 rest)

At-behind_line :
    (r : BlobReader) (line rest : List ℕ)
    → At r (line ++ 10 ∷ rest)
    → At (moved r (length line + 1)) rest
At-behind_line r line rest h =
    let once = At-moved r line (10 ∷ rest) h in
    let twice = At-moved (moved r (length line)) (10 ∷ []) rest once in
    subst (λ n. At (record r { ptr = n }) rest) (omega arith) twice

-- A line that `read_line` returns from a reader inside its blob is printable, it stood at `_ptr`
-- with a newline behind it, and the reader has moved past that newline.
pub read_line_sound :
    (r r' : BlobReader) (desc : String) (line : List ℕ)
    → r.ptr ≤ size r
    → read_line desc r ≡ ok (line, r')
    → LineRead r (line, r')
unfolding read_line
read_line_sound r r' desc line v e =
    let (k, scan) = finish_line-ok desc (scan_line (ahead r) 0) r r' line e in
    let (line', rest, split, printable, count) = scan_line-newline (ahead r) 0 k scan in
    let here : At r (line' ++ 10 ∷ rest) = record { within = v; bytes_ahead = split } in
    let found = sym (read_line_found r desc line' rest printable here) ∙ e in
    let same : ◌≡◌ {A = List ℕ × BlobReader} (line', moved r (length line' + 1)) (line, r') =
      ok-injective found in
    subst (LineRead r) same (printable, (rest, here, refl, At-behind_line r line' rest here))
