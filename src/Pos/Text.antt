-- ===== src/Pos/Text.antt =====
-- Pos::parse and Pos::str of src/lib/map_reader/pos.h.
use minetest_map_analyzer.Prelude.{
  ℕ, ◌≡◌, refl, ◌==◌, Bool, true, false, Option, none, some, List, [], ◌∷◌, ◌++◌, if◌then◌else◌, ap,
  sym, ◌∙◌, append-nil, arith,
}
use minetest_map_analyzer.Prelude.Int.{ℤ, signed16, to_u16}
use minetest_map_analyzer.Decimal.{isdigit, scan_int, to_string, scan_int-to_string}
use minetest_map_analyzer.Pos.{Pos}
use minetest_map_analyzer.Pos.Nodes.{IsNodePos, IsNodeCoordinate}

-- Pos::str
unfoldable pub str : Pos → List ℕ
str p = to_string p.x ++ b',' ∷ (to_string p.y ++ b',' ∷ to_string p.z)

-- A `,` of the format of sscanf.
abbrev expect_comma : List ℕ → Option (List ℕ)
expect_comma [] = none
expect_comma (c ∷ rest) = if c == b',' then some rest else none

abbrev bind_option {ℓ κ} : {A : Type ℓ} {B : Type κ} → Option A → (A → Option B) → Option B
bind_option none f = none
bind_option (some a) f = f a

-- `sscanf(str, "%d,%d,%d", &a, &b, &c)`, where it returns 3.
unfoldable pub scan_three : List ℕ → Option (ℤ × ℤ × ℤ)
scan_three text = bind_option (scan_int text) λ a. bind_option (expect_comma a.1) λ text1.
    bind_option (scan_int text1) λ b.
      bind_option (expect_comma b.1) λ text2. bind_option (scan_int text2) λ c. some (a.0, b.0, c.0)

-- The assignment of ints to int16_t coordinates; without three numbers, nothing is assigned.
abbrev assigned : Pos → Option (ℤ × ℤ × ℤ) → Bool × Pos
assigned p none = (false, p)
assigned p (some (a, b, c)) =
    (true, record { x = signed16 (to_u16 a); y = signed16 (to_u16 b); z = signed16 (to_u16 c) })

-- MapBlockPos::parse
unfoldable pub parse : List ℕ → Pos → Bool × Pos
parse text p = assigned p (scan_three text)

coordinate_fits : (c : ℤ) → IsNodeCoordinate c → signed16 (to_u16 c) ≡ c
coordinate_fits c h = ground arith

last_number : (c : ℤ) → IsNodeCoordinate c → scan_int (to_string c) ≡ some (c, [])
last_number c h =
    ap scan_int (sym (append-nil (to_string c)))
    ∙ scan_int-to_string c [] (omega arith) (omega arith) refl

-- `parse` accepts what `str` has written of a position with int16_t coordinates, whatever value it replaces,
-- and gives that position.
pub parse-str : (p q : Pos) → IsNodePos p → parse (str p) q ≡ (true, p)
unfolding parse str scan_three isdigit
parse-str p q (hx, hy, hz) = rw (
  scan_int-to_string p.x (b',' ∷ (to_string p.y ++ b',' ∷ to_string p.z)) (omega arith)
      (omega arith) refl,
  scan_int-to_string p.y (b',' ∷ to_string p.z) (omega arith) (omega arith) refl,
  last_number p.z hz,
  coordinate_fits p.x hx,
  coordinate_fits p.y hy,
  coordinate_fits p.z hz,
)
