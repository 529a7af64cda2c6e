-- ===== src/Minegeld.antt =====
-- src/lib/map_reader/minegeld.cc: the amount of currency in an item string.
use Prim.Native.Char.{code}
use Prim.Native.String.{String}
use minetest_map_analyzer.Prelude.{
  ℕ, zero, suc, ◌*◌, ◌%◌, ◌^◌, ◌<◌, ◌≡◌, refl, Bool, true, false, ◌&&◌, List, [], ◌∷◌, ◌++◌, arith,
  length, drop, ◌==◌, if◌then◌else◌,
}
use minetest_map_analyzer.Decimal.{
  decimal, isdigit, strtoul, strtoul-decimal, strtoul-decimal_all, strtoul-lt, decimal_head,
}

-- The bytes of a string constant.
abbrev pub codes : String → List ℕ
codes String.[] = []
codes (String.◌∷◌ c s) = code c ∷ codes s

-- std::string::starts_with, and strncmp on the length of the constant.
unfoldable pub starts_with : List ℕ → List ℕ → Bool
starts_with s [] = true
starts_with [] (p ∷ ps) = false
starts_with (c ∷ cs) (p ∷ ps) = c == p && starts_with cs ps

abbrev pub minegeld_prefix : List ℕ
minegeld_prefix = codes "currency:minegeld_"

-- The loop over blanks.
unfoldable pub skip_blanks : List ℕ → List ℕ
skip_blanks [] = []
skip_blanks (c ∷ rest) = let more = skip_blanks rest in if c == b' ' then more else c ∷ rest

quantity : ℕ → List ℕ → ℕ
quantity denomination [] = denomination
quantity denomination (c ∷ rest) =
    let qty = (strtoul (skip_blanks (c ∷ rest))).0 in
    if qty == 0 then 0 else denomination * qty % 2 ^ 64

-- ParseCurrencyMinegeld
unfoldable pub parse_currency_minegeld : List ℕ → ℕ
unfolding quantity
parse_currency_minegeld input =
    let (denomination, endp) = strtoul (drop (length minegeld_prefix) input) in
    if starts_with input minegeld_prefix
    then (if denomination == 0 then 0 else quantity denomination endp)
    else 0

starts_with_append : (p s : List ℕ) → starts_with (p ++ s) p ≡ true
unfolding starts_with
starts_with_append [] s = refl
starts_with_append (c ∷ p) s = ground (arith, starts_with_append p s)

-- The text of an item: a denomination, and a count behind a blank if there is more than one.
abbrev pub single : ℕ → List ℕ
single d = minegeld_prefix ++ decimal d

abbrev pub stack : ℕ → ℕ → List ℕ
stack d q = minegeld_prefix ++ (decimal d ++ (b' ' ∷ decimal q))

skip_blanks-decimal : (q : ℕ) → skip_blanks (b' ' ∷ decimal q) ≡ decimal q
unfolding skip_blanks
skip_blanks-decimal q = let (d, more, small, eq) = decimal_head q in rw eq (ground arith)

strtoul_denomination :
    (d q : ℕ) → d < 2 ^ 64 → strtoul (decimal d ++ (b' ' ∷ decimal q)) ≡ (d, b' ' ∷ decimal q)
unfolding isdigit
strtoul_denomination d q h = strtoul-decimal d (b' ' ∷ decimal q) h refl

single_count : (d : ℕ) → (if d == 0 then 0 else quantity d []) ≡ d
unfolding quantity
single_count d = ground arith

stack_count :
    (d q : ℕ) → (if d == 0 then 0 else if q == 0 then 0 else d * q % 2 ^ 64) ≡ d * q % 2 ^ 64
stack_count zero q = ground arith
stack_count (suc d) zero = ground arith
stack_count (suc d) (suc q) = ground arith

-- Where the denomination and the count are below 2 ^ 64, a single note or coin counts its
-- denomination, and a stack of them the product modulo 2 ^ 64.
pub parse_currency_minegeld-stack :
    (d q : ℕ)
    → d < 2 ^ 64
    → q < 2 ^ 64
    → (parse_currency_minegeld (single d) ≡ d)
      × (parse_currency_minegeld (stack d q) ≡ d * q % 2 ^ 64)
unfolding parse_currency_minegeld
parse_currency_minegeld-stack d q hd hq = (
  rw (starts_with_append minegeld_prefix (decimal d), strtoul-decimal_all d hd) (single_count d),
  rw
      (
        starts_with_append minegeld_prefix (decimal d ++ (b' ' ∷ decimal q)),
        strtoul_denomination d q hd,
        skip_blanks-decimal q,
        strtoul-decimal_all q hq,
      )
      (stack_count d q),
)

quantity-lt : (d : ℕ) (end : List ℕ) → d < 2 ^ 64 → quantity d end < 2 ^ 64
unfolding quantity
quantity-lt d [] h = h
quantity-lt d (c ∷ rest) h = ground arith

-- No item counts 2 ^ 64 or more, whatever its text.
parse_currency_minegeld-lt : (s : List ℕ) → parse_currency_minegeld s < 2 ^ 64
unfolding parse_currency_minegeld
parse_currency_minegeld-lt s =
    let end = drop (length minegeld_prefix) s in
    let bound = quantity-lt (strtoul end).0 (strtoul end).1 (strtoul-lt end) in ground arith
