-- ===== src/Inventory.antt =====
-- src/lib/map_reader/inventory.h and inventory.cc: the inventories of a node.
-- The four regular expressions are matched by functions.
pub mod Safety
use mathlib.Core.List.{foldl}
use minetest_map_analyzer.Prelude.{
  ℕ, zero, suc, ◌+◌, ◌%◌, ◌^◌, Bool, true, false, not, ◌&&◌, ◌||◌, Option, none, some, List, [],
  ◌∷◌, ◌++◌, leb, ltb, ◌==◌, if◌then◌else◌, length, drop, str_eq,
}
use minetest_map_analyzer.Prelude.Strings.{insert}
use minetest_map_analyzer.Exceptions.{Extra, throw, out_of_fuel}
use minetest_map_analyzer.Blob.{Read, pure, fail, read_line, size, ◌>>=◌}
use minetest_map_analyzer.Decimal.{isdigit}
use minetest_map_analyzer.Minegeld.{codes, starts_with, parse_currency_minegeld}

-- InventoryList: its items.
abbrev pub InventoryList : Type 0
InventoryList = List (List ℕ)

-- Inventory: its lists by name.
abbrev pub Inventory : Type 0
Inventory = List (List ℕ × InventoryList)

-- `\w`
unfoldable pub is_word : ℕ → Bool
is_word c =
    (leb b'a' c && leb c b'z')
    || (leb b'A' c && leb c b'Z')
    || (leb b'0' c && leb c b'9')
    || c == b'_'

-- `\d+` up to the end of the text, with whether a digit was read.
unfoldable pub all_digits : Bool → List ℕ → Bool
all_digits some_read [] = some_read
all_digits some_read (c ∷ rest) = isdigit c && all_digits true rest

-- `(\w+) (\d+)`: the first group, of which `name` has been read.
unfoldable pub match_word : List ℕ → List ℕ → Option (List ℕ)
match_word name [] = none
match_word name (c ∷ rest) =
    let more = match_word (name ++ (c ∷ [])) rest in
    if is_word c
    then more
    else if c == b' ' && ltb 0 (length name) && all_digits false rest
    then some name
    else none

-- What follows a constant at the front of a text.
unfoldable pub strip_prefix : List ℕ → List ℕ → Option (List ℕ)
strip_prefix [] s = some s
strip_prefix (p ∷ ps) [] = none
strip_prefix (p ∷ ps) (c ∷ cs) = let more = strip_prefix ps cs in if c == p then more else none

-- re_new_list
unfoldable pub match_new_list : List ℕ → Option (List ℕ)
match_new_list line = elim (strip_prefix (codes "List ") line) [
  | none ↦ none
  | some rest ↦ match_word [] rest
]

-- re_width
unfoldable pub match_width : List ℕ → Bool
match_width line = elim (strip_prefix (codes "Width ") line) [
  | none ↦ false
  | some rest ↦ all_digits false rest
]

-- `.*` stops at the ends of lines.
unfoldable pub no_line_end : List ℕ → Bool
no_line_end [] = true
no_line_end (c ∷ rest) = not (c == 10 || c == 13) && no_line_end rest

-- re_item
unfoldable pub match_item : List ℕ → Option (List ℕ)
match_item line = elim (strip_prefix (codes "Item ") line) [
  | none ↦ none
  | some rest ↦ (if no_line_end rest then some rest else none)
]

-- The local variables of the loop, and the member that it fills.
pub record Parse : Type 0 where
  pub lists : Inventory
  pub list_name : List ℕ
  pub current : InventoryList

pub data Action : Type 0 where
  next : Parse → Action
  finish : Inventory → Action
  reject : Extra → Action

abbrev add_item : Parse → List ℕ → Action
add_item s item = next (record s { current = s.current ++ (item ∷ []) })

-- A long item is added without a look at the list's name.
abbrev is_long_item : List ℕ → Bool
is_long_item line = ltb 4096 (length line) && starts_with line (codes "Item ")

abbrev empty_name : Parse → Bool
empty_name s = str_eq s.list_name []

-- The last tests of the loop's body.
unfoldable pub closing_line : Parse → List ℕ → Action
closing_line s line =
    if str_eq line (codes "EndInventoryList")
    then next
        (record { lists = insert s.list_name s.current s.lists; list_name = []; current = [] })
    else if str_eq line (codes "EndInventory")
    then finish s.lists
    else reject (Extra.junk_string line)

-- The tests for items. In a match of "Empty" the first group is not there, so it reads as "".
unfoldable pub item_line : Parse → List ℕ → Action
item_line s line = elim (match_item line) [
  | some item ↦ (if empty_name s then reject Extra.list_name_empty else add_item s item)
  | none ↦
      if str_eq line (codes "Empty")
      then (if empty_name s then reject Extra.list_name_empty else add_item s [])
      else closing_line s line
]

-- The body of the loop, on the line that was read.
unfoldable pub inventory_line : Parse → List ℕ → Action
inventory_line s line = elim (match_new_list line) [
  | some name ↦ next (record s { list_name = name; current = [] })
  | none ↦
      if match_width line
      then next s
      else if is_long_item line
      then add_item s (drop 5 line)
      else item_line s line
]

abbrev after_line : (Parse → Read Inventory) → Action → Read Inventory
after_line loop (next s) = loop s
after_line loop (finish lists) = pure lists
after_line loop (reject extra) = fail "inventory" extra

unfoldable pub inventory_loop : ℕ → Parse → Read Inventory
inventory_loop zero s r = throw out_of_fuel
inventory_loop (suc fuel) s r =
    (read_line "inventory" >>= λ line. after_line (inventory_loop fuel) (inventory_line s line)) r

-- Inventory::deserialize_inventory: the new `lists_`. Each round reads a byte at least, so there are at
-- most as many rounds as bytes.
unfoldable pub deserialize_inventory : Inventory → Read Inventory
unfolding inventory_loop
deserialize_inventory lists r =
    inventory_loop (size r + 1) (record { lists = lists; list_name = []; current = [] }) r

-- InventoryList::total_minegeld
unfoldable pub list_minegeld : InventoryList → ℕ
list_minegeld items = foldl (λ total item. (total + parse_currency_minegeld item) % 2 ^ 64) 0 items

-- Inventory::total_minegeld
unfoldable pub total_minegeld : Inventory → ℕ
total_minegeld lists = foldl (λ total entry. (total + list_minegeld entry.1) % 2 ^ 64) 0 lists
