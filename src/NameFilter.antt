-- ===== src/NameFilter.antt =====
-- src/lib/name_filter/name_filter.cc: the patterns for the names of nodes that a player places.
-- std::regex is a parameter: what the constructor returns or throws for a pattern, and std::regex_match.
pub mod Search
use minetest_map_analyzer.Prelude.{
  ℕ, Bool, true, false, not, ◌&&◌, ◌||◌, List, [], ◌∷◌, ◌++◌, ◌==◌, if◌then◌else◌,
}
use minetest_map_analyzer.Exceptions.{Result, ok, throw, out_of_range, bind_result}

pub record Regex : Type 1 where
  pub Pattern : Type 0
  pub compile : List ℕ → Result Pattern
  pub matches : List ℕ → Pattern → Bool

-- kWhitespace: " \n\r\t\f\v"
abbrev is_whitespace : ℕ → Bool
is_whitespace c = c == 32 || c == 10 || c == 13 || c == 9 || c == 12 || c == 11

-- The blanks at the end are cut off, unless there is nothing else.
abbrev all_whitespace : List ℕ → Bool
all_whitespace [] = true
all_whitespace (c ∷ cs) = is_whitespace c && all_whitespace cs

abbrev until_blanks : List ℕ → List ℕ
until_blanks [] = []
until_blanks (c ∷ cs) = if all_whitespace (c ∷ cs) then [] else c ∷ until_blanks cs

unfoldable pub trim : List ℕ → List ℕ
trim line = if all_whitespace line then line else until_blanks line

-- A C string ends at the first zero.
abbrev c_str : List ℕ → List ℕ
c_str [] = []
c_str (c ∷ cs) = if c == 0 then [] else c ∷ c_str cs

-- The lines that std::getline reads: the last one may end without a newline, if it is not empty.
abbrev add_char : ℕ → List (List ℕ) → List (List ℕ)
add_char c [] = (c ∷ []) ∷ []
add_char c (line ∷ lines) = (c ∷ line) ∷ lines

unfoldable pub lines_of : List ℕ → List (List ℕ)
lines_of [] = []
lines_of (c ∷ cs) = let rest = lines_of cs in if c == 10 then [] ∷ rest else add_char c rest

module _ (regex : Regex) where
  pub record NameFilter : Type 0 where
    pub positive : List regex.Pattern
    pub negative : List regex.Pattern

  abbrev pub empty : NameFilter
  empty = record { positive = []; negative = [] }

  -- NameFilter::Add
  unfoldable pub add : NameFilter → List ℕ → Result NameFilter
  add filter [] = throw out_of_range
  add filter (c ∷ pattern) =
      if c == 33
      then (bind_result (regex.compile (c_str pattern))
          λ p. ok (record filter { negative = filter.negative ++ p ∷ [] }))
      else bind_result (regex.compile (c ∷ pattern))
          λ p. ok (record filter { positive = filter.positive ++ p ∷ [] })

  -- A line is passed over where it is empty or starts with `#`.
  unfoldable pub load_line : NameFilter → List ℕ → Result NameFilter
  load_line filter [] = ok filter
  load_line filter (c ∷ cs) = if c == 35 then ok filter else add filter (trim (c ∷ cs))

  unfoldable pub load_lines : NameFilter → List (List ℕ) → Result NameFilter
  load_lines filter [] = ok filter
  load_lines filter (line ∷ lines) =
      bind_result (load_line filter line) λ filter'. load_lines filter' lines

  -- NameFilter::Load
  unfoldable pub load : NameFilter → List ℕ → Result NameFilter
  load filter text = load_lines filter (lines_of text)

  abbrev any_matches : List ℕ → List regex.Pattern → Bool
  any_matches str [] = false
  any_matches str (p ∷ ps) = regex.matches str p || any_matches str ps

  -- NameFilter::Search
  unfoldable pub search_name : NameFilter → List ℕ → Bool
  search_name filter str =
      if any_matches str filter.positive then not (any_matches str filter.negative) else false
